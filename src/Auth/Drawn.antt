-- ===== src/Auth/Drawn.antt =====
-- The requests of services/api/src/voyagent_api/auth_inhouse that draw a token or insert a row keep
-- what Auth/Kept.antt speaks of.
use voyagent.Prelude.{◌+◌, ◌≡◌, subst, Option, some, [], ◌∷◌, ◌++◌, if_elim, Option-elim, All}
use voyagent.Prelude.Text.{Text, eq_text, text_key}
use voyagent.Prelude.Tables.{find_where-All}
use voyagent.Auth.Types.{
  agency_admin, Tenant, User, pending, InviteRow, Db, Env, AccessTokenPayload, ok, AuthResponse,
  TokenPairResponse, role_of,
}
use voyagent.Auth.Repository.{
  find_by_email, find_user, find_tenant, insert_user, new_user, new_tenant, create_user_with_tenant,
  create_user_in_existing_tenant, store_refresh, find_active, revoke_refresh, insert_invite,
  find_by_token_hash, find_pending_for_email, mark_accepted, update_last_login,
}
use voyagent.Auth.Passwords.{validate_password_strength}
use voyagent.Auth.Tokens.{put_token}
use voyagent.Auth.Service.{
  Call, minted_row, issue_pair_for_user, respond, sign_up, password_matches, sign_in, refresh,
  subject, send_verification_email, request_password_reset,
}
use voyagent.Auth.Invites.{create_invite, usable_invite, accept_invite}
use voyagent.Auth.Kept.{
  Outcome-elim, Usable, usable_invite-Usable, Invariant, Holds, IsClosed, Admits, and_then-Holds,
  store_refresh-Holds, insert_invite-Holds, insert_user-Holds,
}
use voyagent.Auth.Served.{revoke_refresh-Holds, close-Holds}

-- A row that its token finds has what all have.
find_by_token_hash-Has :
    (Q : InviteRow → Type 0) (hash : Text) (db : Db) (row : InviteRow)
    → All Q db.invites
    → find_by_token_hash hash db ≡ some row
    → Q row
unfolding find_by_token_hash
find_by_token_hash-Has Q hash db row qs found =
    find_where-All Q (λ r. eq_text r.token_hash hash) db.invites row qs found

-- The inserts.
module _ (I : Invariant) (c : IsClosed I) (env : Env) (a : Admits I env) where
  pub issue_pair-Holds :
      (user : User) (tenant : Tenant) (db : Db)
      → Holds I db
      → Holds I (issue_pair_for_user env user tenant db).1
  unfolding issue_pair_for_user
  issue_pair-Holds user tenant db h =
      Option-elim (store_refresh (minted_row env user.id) db)
        (λ (r : Call TokenPairResponse). Holds I r.1) (λ taken. h)
        (λ db' made.
          store_refresh-Holds I (minted_row env user.id) db db' (a.minting user.id) h made)

  create_with_tenant-Holds :
      (email name hash agency : Text) (db : Db)
      → Holds I db
      → Holds I (create_user_with_tenant env email name hash agency db).1
  unfolding create_user_with_tenant
  create_with_tenant-Holds email name hash agency db h =
      Option-elim (insert_user user fuller) (λ (r : Call (User × Tenant)). Holds I r.1) (λ taken. h)
        (λ db' made. insert_user-Holds I user fuller db' h made)
    where
      user : User
      user = new_user env (new_tenant env agency).id email name hash agency_admin

      fuller : Db
      fuller = record db { tenants = db.tenants ++ (new_tenant env agency ∷ []) }

  create_in_tenant-Holds :
      (tenant_id email name hash role : Text) (db : Db)
      → Holds I db
      → Holds I (create_user_in_existing_tenant env tenant_id email name hash role db).1
  unfolding create_user_in_existing_tenant
  create_in_tenant-Holds tenant_id email name hash role db h =
      Option-elim (role_of role) (λ (r : Call User). Holds I r.1) (λ unknown. h)
        (λ r known.
          Option-elim (insert_user _ db) (λ (r : Call User). Holds I r.1) (λ taken. h)
            (λ db' made. insert_user-Holds I _ db db' h made))

-- The calls that draw a token or insert a row.
module _ (I : Invariant) (c : IsClosed I) (env : Env) (a : Admits I env) where
  respond-Holds :
      (user : User) (tenant : Tenant) (db : Db)
      → Holds I db
      → Holds I (respond env user tenant db).1
  unfolding respond
  respond-Holds user tenant db h =
      and_then-Holds I (issue_pair_for_user env user tenant db) _
        (issue_pair-Holds I c env a user tenant db h) (λ tokens db' h'. h')

  pub sign_up-Holds :
      (email name password agency : Text) (db : Db)
      → Holds I db
      → Holds I (sign_up env email name password agency db).1
  unfolding sign_up
  sign_up-Holds email name password agency db h =
      Option-elim (validate_password_strength env password) (λ (r : Call AuthResponse). Holds I r.1)
        (λ strong.
          Option-elim (find_by_email env email db) (λ (r : Call AuthResponse). Holds I r.1)
            (λ new.
              and_then-Holds I
                (create_user_with_tenant env email name (env.hash_password password) agency db) _
                (create_with_tenant-Holds I c env a email name (env.hash_password password) agency
                  db h)
                (λ made db' h'. respond-Holds made.0 made.1 db' h'))
            (λ existing found. h))
        (λ why weak. h)

  pub sign_in-Holds :
      (email password : Text) (db : Db) → Holds I db → Holds I (sign_in env email password db).1
  unfolding sign_in
  sign_in-Holds email password db h =
      Option-elim (find_by_email env email db) (λ (r : Call AuthResponse). Holds I r.1)
        (λ unknown. h)
        (λ user found.
          if_elim (password_matches env user password) (λ (r : Call AuthResponse). Holds I r.1)
            (λ right.
              if_elim user.email_verified (λ (r : Call AuthResponse). Holds I r.1)
                (λ verified.
                  Option-elim (find_tenant user.tenant_id db)
                    (λ (r : Call AuthResponse). Holds I r.1) (λ homeless. h)
                    (λ tenant housed.
                      respond-Holds user tenant (update_last_login env user.id db) h))
                (λ unverified. h))
            (λ wrong. h))

  pub refresh-Holds : (token : Text) (db : Db) → Holds I db → Holds I (refresh env token db).1
  unfolding refresh
  refresh-Holds token db h =
      let h' = revoke_refresh-Holds I c env (env.sha256 token) db h in
      Option-elim (find_active env (env.sha256 token) db)
        (λ (r : Call TokenPairResponse). Holds I r.1) (λ inactive. h)
        (λ row found.
          Option-elim (find_user row.user_id db) (λ (r : Call TokenPairResponse). Holds I r.1)
            (λ unknown. h')
            (λ user known.
              Option-elim (find_tenant user.tenant_id db)
                (λ (r : Call TokenPairResponse). Holds I r.1) (λ homeless. h')
                (λ tenant housed.
                  issue_pair-Holds I c env a user tenant (revoke_refresh env (env.sha256 token) db)
                    h')))

  pub send_verification-Holds :
      (payload : AccessTokenPayload) (db : Db)
      → Holds I db
      → Holds I (send_verification_email env payload db).1
  unfolding send_verification_email put_token
  send_verification-Holds payload db (ps, (qs, (v, w))) =
      Outcome-elim (subject env payload db) (λ (r : Call Text). Holds I r.1)
        (λ e failed. (ps, (qs, (v, w))))
        (λ user found. (
          ps,
          (
            qs,
            (
              a.putting_verification user.id (env.now + env.verification_ttl_seconds)
                  db.verification_tokens v,
              w,
            ),
          ),
        ))

  pub request_reset-Holds :
      (email : Text) (db : Db) → Holds I db → Holds I (request_password_reset env email db).1
  unfolding request_password_reset put_token
  request_reset-Holds email db (ps, (qs, (v, w))) =
      Option-elim (find_by_email env email db) (λ (r : Option Text × Db). Holds I r.1)
        (λ unknown. (ps, (qs, (v, w))))
        (λ user found. (
          ps,
          (
            qs,
            (
              v,
              a.putting_reset user.id (env.now + env.password_reset_ttl_seconds)
                  db.password_reset_tokens w,
            ),
          ),
        ))

  pub create_invite-Holds :
      (tenant_id invited_by email role : Text) (db : Db)
      → Holds I db
      → Holds I (create_invite env tenant_id invited_by email role db).1
  unfolding create_invite
  create_invite-Holds tenant_id invited_by email role db h =
      Option-elim (find_pending_for_email env tenant_id email db)
        (λ (r : Call (InviteRow × Text)). Holds I r.1)
        (λ none_open.
          Option-elim (insert_invite env _ db) (λ (r : Call (InviteRow × Text)). Holds I r.1)
            (λ taken. h)
            (λ db' made.
              insert_invite-Holds I env _ db db' (a.inviting tenant_id invited_by email role) h
                made))
        (λ existing found. h)

  pub accept_invite-Holds :
      (token name password : Text) (db : Db)
      → Holds I db
      → Holds I (accept_invite env token name password db).1
  unfolding accept_invite
  accept_invite-Holds token name password db h =
      Outcome-elim (usable_invite env token db) (λ (r : Call AuthResponse). Holds I r.1)
        (λ e failed. h)
        (λ row fits.
          Option-elim (find_by_email env row.email db) (λ (r : Call AuthResponse). Holds I r.1)
            (λ new.
              and_then-Holds I
                (create_user_in_existing_tenant env row.tenant_id row.email name
                  (env.hash_password password) row.role db)
                _
                (create_in_tenant-Holds I c env a row.tenant_id row.email name
                  (env.hash_password password) row.role db h)
                (λ user made hm.
                  let hm' =
                    (close-Holds I c env row made (found_invite row fits h)
                      (pending_invite row fits) hm).1 in
                  Option-elim (find_tenant row.tenant_id (mark_accepted env row.id made))
                    (λ (r : Call AuthResponse). Holds I r.1) (λ homeless. hm')
                    (λ tenant housed.
                      respond-Holds user tenant (mark_accepted env row.id made) hm')))
            (λ existing found. h))
    where
      usable :
          (row : InviteRow) → usable_invite env token db ≡ ok row → Usable env token db (ok row)
      usable row fits = subst (Usable env token db) fits (usable_invite-Usable env token db)

      pending_invite :
          (row : InviteRow) → usable_invite env token db ≡ ok row → row.status ≡ pending
      pending_invite row fits = (usable row fits).1

      found_invite :
          (row : InviteRow) → usable_invite env token db ≡ ok row → Holds I db → I.OfInvite row
      found_invite row fits h =
          find_by_token_hash-Has I.OfInvite (env.sha256 token) db row h.1.0 (usable row fits).0
