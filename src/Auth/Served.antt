-- ===== src/Auth/Served.antt =====
-- Each request of services/api/src/voyagent_api/auth_inhouse keeps what Auth/Kept.antt speaks of.
use voyagent.Prelude.{◌≡◌, subst, Bool, Option, none, some, if_elim, Option-elim, leb, ltb}
use voyagent.Prelude.Text.{Text, eq_text, eq_text_iff, text_key, is_empty}
use voyagent.Prelude.Dict.{lookup}
use voyagent.Prelude.Tables.{
  find_where, find_where-All, find_where-true, update_where-All, filter-All,
}
use voyagent.Auth.Types.{
  pending, eq_status, InviteRow, Tokens, Db, Env, AccessTokenPayload, Outcome, PublicUser,
}
use voyagent.Auth.Repository.{
  find_user, find_tenant, has_hash, revoked_row, revoke_refresh, is_open_of, revoke_all_for_user,
  cleanup_expired, has_invite_id, find_invite, revoked_invite, accepted_invite, revoke_invite_row,
  mark_accepted,
}
use voyagent.Auth.Tokens.{take_token, is_revoked, principal_from_token, AuthenticatedPrincipal}
use voyagent.Auth.Service.{
  Call, sign_out, verify_email, reset_password, changed_email, taken_by_other, update_profile,
}
use voyagent.Auth.Invites.{revoke_invite}
use voyagent.Auth.Kept.{eq_status_pending, Invariant, Holds, IsClosed}

module _ (I : Invariant) (c : IsClosed I) where
  -- The statements.
  pub revoke_refresh-Holds :
      (env : Env) (hash : Text) (db : Db) → Holds I db → Holds I (revoke_refresh env hash db)
  revoke_refresh-Holds env hash db (ps, hs) = (
    update_where-All {P = I.OfRefresh} {Q = I.OfRefresh} (has_hash hash) (revoked_row env)
        (λ r e p. c.revoking env r p) (λ r e p. p) db.refresh_tokens ps,
    hs,
  )

  revoke_all-Holds :
      (env : Env) (id : Text) (db : Db) → Holds I db → Holds I (revoke_all_for_user env id db)
  revoke_all-Holds env id db (ps, hs) = (
    update_where-All {P = I.OfRefresh} {Q = I.OfRefresh} (is_open_of id) (revoked_row env)
        (λ r e p. c.revoking env r p) (λ r e p. p) db.refresh_tokens ps,
    hs,
  )

  pub cleanup-Holds : (env : Env) (db : Db) → Holds I db → Holds I (cleanup_expired env db)
  cleanup-Holds env db (ps, hs) =
      (filter-All I.OfRefresh (λ r. ltb env.now r.expires_at) db.refresh_tokens ps, hs)

  -- A pending invite that stands in the table is revoked or accepted, by its id.
  pub close-Holds :
      (env : Env) (found : InviteRow) (db : Db)
      → I.OfInvite found
      → found.status ≡ pending
      → Holds I db
      → Holds I (revoke_invite_row env found.id db) × Holds I (mark_accepted env found.id db)
  close-Holds env found db q e (ps, (qs, hs)) = (
    (
      ps,
      (
        update_where-All {P = I.OfInvite} {Q = I.OfInvite} (has_invite_id found.id)
            (revoked_invite env)
            (λ r hit p. (c.closing env found r q e ((eq_text_iff r.id found.id).0 hit) p).0)
            (λ r miss p. p) db.invites qs,
        hs,
      ),
    ),
    (
      ps,
      (
        update_where-All {P = I.OfInvite} {Q = I.OfInvite} (has_invite_id found.id)
            (accepted_invite env)
            (λ r hit p. (c.closing env found r q e ((eq_text_iff r.id found.id).0 hit) p).1)
            (λ r miss p. p) db.invites qs,
        hs,
      ),
    ),
  )

  take_verification :
      (env : Env) (token : Text) (db : Db)
      → Holds I db
      → Holds I
          (record db { verification_tokens = (take_token env token db.verification_tokens).1 })
  unfolding take_token
  take_verification env token db (ps, (qs, (v, w))) = (
    ps,
    (
      qs,
      (
        Option-elim (lookup token db.verification_tokens)
            (λ (r : Option Text × Tokens). I.OfVerification r.1) (λ missing. v)
            (λ entry found.
              if_elim (leb entry.1 env.now) (λ (r : Option Text × Tokens). I.OfVerification r.1)
                (λ late. c.taking_verification token db.verification_tokens v)
                (λ early. c.taking_verification token db.verification_tokens v)),
        w,
      ),
    ),
  )

  take_reset :
      (env : Env) (token : Text) (db : Db)
      → Holds I db
      → Holds I
          (record db { password_reset_tokens = (take_token env token db.password_reset_tokens).1 })
  unfolding take_token
  take_reset env token db (ps, (qs, (v, w))) = (
    ps,
    (
      qs,
      (
        v,
        Option-elim (lookup token db.password_reset_tokens)
            (λ (r : Option Text × Tokens). I.OfReset r.1) (λ missing. w)
            (λ entry found.
              if_elim (leb entry.1 env.now) (λ (r : Option Text × Tokens). I.OfReset r.1)
                (λ late. c.taking_reset token db.password_reset_tokens w)
                (λ early. c.taking_reset token db.password_reset_tokens w)),
      ),
    ),
  )

  -- The calls that need nothing of what they draw.
  pub sign_out-Holds :
      (env : Env) (payload : Option AccessTokenPayload) (token : Option Text) (db : Db)
      → Holds I db
      → Holds I (sign_out env payload token db)
  unfolding sign_out
  sign_out-Holds env none none db h = h
  sign_out-Holds env (some payload) none db h = h
  sign_out-Holds env none (some token) db h =
      if_elim (is_empty token) (Holds I) (λ empty. h)
        (λ given. revoke_refresh-Holds env (env.sha256 token) db h)
  sign_out-Holds env (some payload) (some token) db h =
      if_elim (is_empty token) (Holds I) (λ empty. h)
        (λ given. revoke_refresh-Holds env (env.sha256 token) db h)

  pub principal-Holds :
      (env : Env) (payload : Option AccessTokenPayload) (db : Db)
      → Holds I db
      → Holds I (principal_from_token env payload db).1
  unfolding principal_from_token
  principal-Holds env none db h = h
  principal-Holds env (some payload) db h =
      if_elim (is_revoked env payload.jti db.revoked_access).0
        (λ (r : Outcome AuthenticatedPrincipal × Db). Holds I r.1) (λ stop. h) (λ go. h)

  pub verify_email-Holds :
      (env : Env) (token : Text) (db : Db) → Holds I db → Holds I (verify_email env token db).1
  unfolding verify_email
  verify_email-Holds env token db h =
      let h' = take_verification env token db h in
      Option-elim (take_token env token db.verification_tokens).0 (λ (r : Call Unit). Holds I r.1)
        (λ missing. h')
        (λ user_id found.
          Option-elim (env.parse_uuid user_id) (λ (r : Call Unit). Holds I r.1) (λ malformed. h')
            (λ id parsed. h'))

  pub reset_password-Holds :
      (env : Env) (token password : Text) (db : Db)
      → Holds I db
      → Holds I (reset_password env token password db).1
  unfolding reset_password
  reset_password-Holds env token password db h =
      let h' = take_reset env token db h in
      Option-elim (take_token env token db.password_reset_tokens).0 (λ (r : Call Unit). Holds I r.1)
        (λ missing. h')
        (λ user_id found.
          Option-elim (env.parse_uuid user_id) (λ (r : Call Unit). Holds I r.1) (λ malformed. h')
            (λ id parsed.
              Option-elim (find_user id _) (λ (r : Call Unit). Holds I r.1) (λ unknown. h')
                (λ user known.
                  revoke_all-Holds env id
                    (record db {
                      password_reset_tokens = (take_token env token db.password_reset_tokens).1;
                    })
                    h')))

  pub update_profile-Holds :
      (env : Env) (id : Text) (name email : Option Text) (db : Db)
      → Holds I db
      → Holds I (update_profile env id name email db).1
  unfolding update_profile
  update_profile-Holds env id name email db h =
      Option-elim (find_user id db) (λ (r : Call (PublicUser × Bool)). Holds I r.1) (λ unknown. h)
        (λ current known.
          if_elim (taken_by_other (changed_email env email current) id db)
            (λ (r : Call (PublicUser × Bool)). Holds I r.1) (λ taken. h)
            (λ free.
              Option-elim (find_user id _) (λ (r : Call (PublicUser × Bool)). Holds I r.1)
                (λ lost. h)
                (λ user found.
                  Option-elim (find_tenant user.tenant_id _)
                    (λ (r : Call (PublicUser × Bool)). Holds I r.1) (λ homeless. h)
                    (λ tenant housed. h))))

  pub revoke_invite-Holds :
      (env : Env) (tenant_id id : Text) (db : Db)
      → Holds I db
      → Holds I (revoke_invite env tenant_id id db).1
  unfolding revoke_invite find_invite
  revoke_invite-Holds env tenant_id id db h =
      Option-elim (find_where (has_invite_id id) db.invites) (λ (r : Call InviteRow). Holds I r.1)
        (λ unknown. h)
        (λ row found.
          if_elim (eq_text row.tenant_id tenant_id) (λ (r : Call InviteRow). Holds I r.1)
            (λ own.
              if_elim (eq_status row.status pending) (λ (r : Call InviteRow). Holds I r.1)
                (λ fits.
                  let same =
                    (eq_text_iff row.id id).0
                      (find_where-true (has_invite_id id) db.invites row found) in
                  let h' =
                    subst (λ i. Holds I (revoke_invite_row env i db)) same
                      (close-Holds env row db
                        (find_where-All I.OfInvite (has_invite_id id) db.invites row h.1.0 found)
                        (eq_status_pending row.status fits) h).0 in
                  Option-elim (find_where (has_invite_id id) _)
                    (λ (r : Call InviteRow). Holds I r.1) (λ lost. h') (λ updated kept. h'))
                (λ closed. h))
            (λ foreign. h))
