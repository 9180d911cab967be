-- ===== src/Auth/SingleUse.antt =====
-- Tokens of services/api/src/voyagent_api/auth_inhouse that are used once.
use mathlib.Core.Bool.{false≢true}
use voyagent.Prelude.{
  ℕ, ◌≡◌, ◌≢◌, refl, sym, subst, ◌∙◌, true, false, List, Option-elim, All, All-map, Always,
  All-Always, is_some, Bool-cases, inl, inr,
}
use voyagent.Prelude.Text.{Text, eq_text, eq_text_iff, text_key}
use voyagent.Prelude.Tables.{find_where-none, update_where-All}
use voyagent.Auth.Types.{
  RefreshTokenRow, Db, Env, AuthError, refresh_token_revoked, ok, error, TokenPairResponse,
}
use voyagent.Auth.Repository.{
  is_active, find_active, has_hash, revoked_row, revoke_refresh, find_user, find_tenant,
}
use voyagent.Auth.Service.{Call, refresh}
use voyagent.Auth.Requests.{Request, serve_all}
use voyagent.Auth.Kept.{Invariant, Holds, IsClosed, Admits}
use voyagent.Auth.Drawn.{issue_pair-Holds}
use voyagent.Auth.History.{serve_all-Holds}

-- Every refresh token with a digest is revoked.
abbrev pub IsSpent : Text → RefreshTokenRow → Type 0
IsSpent digest r = r.token_hash ≡ digest → is_some r.revoked_at ≡ true

abbrev Spent : Text → Invariant
Spent digest = record {
  OfRefresh = IsSpent digest;
  OfInvite = Always;
  OfVerification = Always;
  OfReset = Always;
}

Spent-IsClosed : (digest : Text) → IsClosed (Spent digest)
Spent-IsClosed digest = record {
  revoking = λ env r p same. refl;
  closing = λ env found r q e i p. (tt, tt);
  taking_verification = λ token tokens h. tt;
  taking_reset = λ token tokens h. tt;
}

Spent-Admits :
    (digest : Text) (env : Env)
    → env.sha256 env.new_refresh_token ≢ digest
    → Admits (Spent digest) env
Spent-Admits digest env new = record {
  minting = λ user_id same. absurd (new same);
  inviting = λ tenant_id invited_by email role. tt;
  putting_verification = λ user_id exp tokens h. tt;
  putting_reset = λ user_id exp tokens h. tt;
}

spent-inactive :
    (now : ℕ) (digest : Text) (r : RefreshTokenRow)
    → IsSpent digest r
    → is_active now digest r ≡ false
spent-inactive now digest r p = elim (Bool-cases (eq_text r.token_hash digest)) [
  | inl same ↦ rw (same, p ((eq_text_iff r.token_hash digest).0 same)) refl
  | inr other ↦ rw other refl
]

spent-refused :
    (env : Env) (token : Text) (db : Db)
    → All (IsSpent (env.sha256 token)) db.refresh_tokens
    → (refresh env token db).0 ≡ error refresh_token_revoked
unfolding refresh find_active
spent-refused env token db spent =
    rw
      (
        refresh,
        find_active,
        find_where-none (is_active env.now (env.sha256 token)) db.refresh_tokens
            (All-map (spent-inactive env.now (env.sha256 token)) db.refresh_tokens spent),
      )
      refl

revoke-spends :
    (env : Env) (digest : Text) (db : Db)
    → All (IsSpent digest) (revoke_refresh env digest db).refresh_tokens
revoke-spends env digest db =
    update_where-All {P = Always} {Q = IsSpent digest} (has_hash digest) (revoked_row env)
      (λ r hit p same. refl)
      (λ r miss p same. absurd (false≢true (sym miss ∙ (eq_text_iff r.token_hash digest).1 same)))
      db.refresh_tokens (All-Always db.refresh_tokens)

-- Where `refresh` finds an active token, no token with this digest stays active.
abbrev Spends : Text → Call TokenPairResponse → Type 0
Spends digest r = (pair : TokenPairResponse) → r.0 ≡ ok pair → Holds (Spent digest) r.1

refresh-Spends :
    (env : Env) (token : Text) (db : Db)
    → env.sha256 env.new_refresh_token ≢ env.sha256 token
    → Spends (env.sha256 token) (refresh env token db)
unfolding refresh
refresh-Spends env token db new =
    let digest = env.sha256 token in
    let spent : Holds (Spent digest) (revoke_refresh env digest db) =
      (revoke-spends env digest db, (All-Always db.invites, (tt, tt))) in
    Option-elim (find_active env digest db) (Spends digest)
      (λ inactive pair e. absurd (error≢ok _ pair e))
      (λ row found.
        Option-elim (find_user row.user_id db) (Spends digest)
          (λ unknown pair e. absurd (error≢ok _ pair e))
          (λ user known.
            Option-elim (find_tenant user.tenant_id db) (Spends digest)
              (λ homeless pair e. absurd (error≢ok _ pair e))
              (λ tenant housed pair e.
                issue_pair-Holds (Spent digest) (Spent-IsClosed digest) env
                  (Spent-Admits digest env new) user tenant (revoke_refresh env digest db) spent)))
  where
    error≢ok : {A : Type 0} (x : AuthError) (a : A) → error x ≡ ok a → ⊥
    error≢ok x a h = cc

-- A refresh token that was exchanged for a pair is refused ever after: by any later `refresh` with
-- it, whatever requests are served in between, if no token drawn since then has its digest.
pub refresh_once :
    (env : Env) (token : Text) (db : Db) (pair : TokenPairResponse)
    (requests : List (Env × Request)) (later : Env)
    → (refresh env token db).0 ≡ ok pair
    → env.sha256 env.new_refresh_token ≢ env.sha256 token
    → All (λ s. s.0.sha256 s.0.new_refresh_token ≢ env.sha256 token) requests
    → later.sha256 token ≡ env.sha256 token
    → (refresh later token (serve_all requests (refresh env token db).1)).0
      ≡ error refresh_token_revoked
refresh_once env token db pair requests later e new news same =
    let digest = env.sha256 token in
    let after = serve_all requests (refresh env token db).1 in
    spent-refused later token after (
      subst (λ d. All (IsSpent d) after.refresh_tokens) (sym same)
        (serve_all-Holds (Spent digest) (Spent-IsClosed digest) requests (refresh env token db).1
          (All-map (λ s n. Spent-Admits digest s.0 n) requests news)
          (refresh-Spends env token db new pair e)).0)
