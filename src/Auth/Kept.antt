-- ===== src/Auth/Kept.antt =====
-- What every request of services/api/src/voyagent_api/auth_inhouse keeps: a property of the refresh
-- tokens, of the invites and of the two stores of one-time tokens that their statements keep.
use mathlib.Core.Bool.{false≢true}
use voyagent.Prelude.{
  ℕ, ◌≡◌, refl, subst, true, Option, some, [], ◌∷◌, if_elim, Option-elim, All, All-append, is_some,
  leb,
}
use voyagent.Prelude.Text.{Text, text_key}
use voyagent.Prelude.Dict.{insert, erase, none≢some, some_inj}
use voyagent.Prelude.Tables.{find_where}
use voyagent.Auth.Types.{
  User, RefreshTokenRow, InviteStatusEnum, pending, accepted, revoked, expired, eq_status,
  InviteRow, Tokens, Db, Env, AuthError, Outcome, ok, error,
}
use voyagent.Auth.Repository.{
  insert_user, has_email, store_refresh, has_hash, revoked_row, new_invite, collides, insert_invite,
  find_by_token_hash, revoked_invite, accepted_invite,
}
use voyagent.Auth.Service.{Call, and_then, minted_row}
use voyagent.Auth.Invites.{usable_invite}

pub eq_status_pending : (s : InviteStatusEnum) → eq_status s pending ≡ true → s ≡ pending
unfolding eq_status
eq_status_pending pending e = refl
eq_status_pending accepted e = absurd (false≢true e)
eq_status_pending revoked e = absurd (false≢true e)
eq_status_pending expired e = absurd (false≢true e)

-- To prove a property of a match on an outcome.
pub Outcome-elim {ℓ κ} :
    {A : Type 0} {B : Type ℓ} (o : Outcome A) {f : AuthError → B} {g : A → B} (P : B → Type κ)
    → ((e : AuthError) → o ≡ error e → P (f e))
    → ((a : A) → o ≡ ok a → P (g a))
    → P (elim o [ error e ↦ f e | ok a ↦ g a ])
Outcome-elim (error e) P h k = h e refl
Outcome-elim (ok a) P h k = k a refl

-- An invite that passes the guards stands in the table, and is pending.
abbrev pub Usable : Env → Text → Db → Outcome InviteRow → Type 0
Usable env token db (ok row) =
    (find_by_token_hash (env.sha256 token) db ≡ some row) × (row.status ≡ pending)
Usable env token db (error e) = Unit

pub usable_invite-Usable :
    (env : Env) (token : Text) (db : Db) → Usable env token db (usable_invite env token db)
unfolding usable_invite
usable_invite-Usable env token db =
    Option-elim (find_by_token_hash (env.sha256 token) db) (Usable env token db) (λ missing. tt)
      (λ row found.
        if_elim (eq_status row.status pending) (Usable env token db)
          (λ fits.
            if_elim (leb row.expires_at env.now) (Usable env token db) (λ late. tt)
              (λ early. (found, eq_status_pending row.status fits)))
          (λ closed. tt))

-- A property of each refresh token, of each invite, and of the two stores of one-time tokens.
pub record Invariant : Type 1 where
  pub OfRefresh : RefreshTokenRow → Type 0
  pub OfInvite : InviteRow → Type 0
  pub OfVerification : Tokens → Type 0
  pub OfReset : Tokens → Type 0

abbrev pub Holds : Invariant → Db → Type 0
Holds I db =
    All I.OfRefresh db.refresh_tokens
    × (All I.OfInvite db.invites
        × (I.OfVerification db.verification_tokens × I.OfReset db.password_reset_tokens))

-- The statements of the repositories keep it: a revocation, the end of a pending invite, a token
-- that is taken.
pub record IsClosed (I : Invariant) : Type 0 where
  pub revoking : (env : Env) (r : RefreshTokenRow) → I.OfRefresh r → I.OfRefresh (revoked_row env r)
  pub closing :
      (env : Env) (found r : InviteRow)
      → I.OfInvite found
      → found.status ≡ pending
      → r.id ≡ found.id
      → I.OfInvite r
      → I.OfInvite (revoked_invite env r) × I.OfInvite (accepted_invite env r)
  pub taking_verification :
      (token : Text) (tokens : Tokens)
      → I.OfVerification tokens
      → I.OfVerification (erase token tokens)
  pub taking_reset :
      (token : Text) (tokens : Tokens) → I.OfReset tokens → I.OfReset (erase token tokens)

-- What a request draws at random has it.
pub record Admits (I : Invariant) (env : Env) : Type 0 where
  pub minting : (user_id : Text) → I.OfRefresh (minted_row env user_id)
  pub inviting :
      (tenant_id invited_by email role : Text)
      → I.OfInvite (new_invite env tenant_id invited_by email role (env.sha256 env.new_token))
  pub putting_verification :
      (user_id : Text) (exp : ℕ) (tokens : Tokens)
      → I.OfVerification tokens
      → I.OfVerification (insert env.new_token (user_id, exp) tokens)
  pub putting_reset :
      (user_id : Text) (exp : ℕ) (tokens : Tokens)
      → I.OfReset tokens
      → I.OfReset (insert env.new_token (user_id, exp) tokens)

module _ (I : Invariant) where
  pub and_then-Holds :
      {A B : Type 0} (c : Call A) (k : A → Db → Call B)
      → Holds I c.1
      → ((a : A) (db : Db) → Holds I db → Holds I (k a db).1)
      → Holds I (and_then c k).1
  and_then-Holds (ok a, db) k h f = f a db h
  and_then-Holds (error e, db) k h f = h

  pub store_refresh-Holds :
      (row : RefreshTokenRow) (db db' : Db)
      → I.OfRefresh row
      → Holds I db
      → store_refresh row db ≡ some db'
      → Holds I db'
  unfolding store_refresh
  store_refresh-Holds row db db' p (ps, hs) =
      if_elim (is_some (find_where (has_hash row.token_hash) db.refresh_tokens))
        (λ (o : Option Db). o ≡ some db' → Holds I db') (λ taken e. absurd (none≢some db' e))
        (λ free e.
          subst (Holds I) (some_inj _ db' e)
            (All-append I.OfRefresh db.refresh_tokens (row ∷ []) ps (p, tt), hs))

  pub insert_invite-Holds :
      (env : Env) (row : InviteRow) (db db' : Db)
      → I.OfInvite row
      → Holds I db
      → insert_invite env row db ≡ some db'
      → Holds I db'
  unfolding insert_invite
  insert_invite-Holds env row db db' q (ps, (qs, hs)) =
      if_elim (is_some (find_where (collides env row) db.invites))
        (λ (o : Option Db). o ≡ some db' → Holds I db') (λ taken e. absurd (none≢some db' e))
        (λ free e.
          subst (Holds I) (some_inj _ db' e)
            (ps, (All-append I.OfInvite db.invites (row ∷ []) qs (q, tt), hs)))

  pub insert_user-Holds :
      (u : User) (db db' : Db) → Holds I db → insert_user u db ≡ some db' → Holds I db'
  unfolding insert_user
  insert_user-Holds u db db' h =
      if_elim (is_some (find_where (has_email u.email) db.users))
        (λ (o : Option Db). o ≡ some db' → Holds I db') (λ taken e. absurd (none≢some db' e))
        (λ free e. subst (Holds I) (some_inj _ db' e) h)
