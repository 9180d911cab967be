-- ===== src/Auth/OneTime.antt =====
-- Verification and password-reset tokens of services/api/src/voyagent_api/auth_inhouse/verification.py
-- in the requests that take them.

use voyagent.Prelude.{
  ℕ, ◌≡◌, ◌≢◌, refl, ap, ◌∙◌, Option, none, List, if◌then◌else◌, if_elim, Option-elim, All, All-map,
  Always, All-Always, leb, ◌=?◌, =?_self,
}
use voyagent.Prelude.Text.{Text, text_key}
use voyagent.Prelude.Dict.{lookup, insert, erase, lookup-insert_ne, lookup-erase}
use voyagent.Auth.Types.{Tokens, Db, Env, invalid_verification_token, error}
use voyagent.Auth.Repository.{find_user}
use voyagent.Auth.Tokens.{take_token}
use voyagent.Auth.Service.{Call, reset_password, verify_email}
use voyagent.Auth.Requests.{Request, serve_all}
use voyagent.Auth.Kept.{Invariant, IsClosed, Admits}
use voyagent.Auth.History.{serve_all-Holds}

-- A store from which a token is gone.
abbrev IsGone : Text → Tokens → Type 0
IsGone token tokens = lookup token tokens ≡ none

take_token-IsGone :
    (env : Env) (token : Text) (tokens : Tokens) → IsGone token (take_token env token tokens).1
unfolding take_token
take_token-IsGone env token tokens =
    Option-elim (lookup token tokens) (λ (r : Option Text × Tokens). IsGone token r.1)
      (λ missing. missing)
      (λ entry found.
        if_elim (leb entry.1 env.now) (λ (r : Option Text × Tokens). IsGone token r.1)
          (λ late. erased) (λ early. erased))
  where
    erased : IsGone token (erase token tokens)
    erased =
        lookup-erase token token tokens
        ∙ ap (λ b. if b then none else lookup token tokens) (=?_self token)

take_gone :
    (env : Env) (token : Text) (tokens : Tokens)
    → IsGone token tokens
    → (take_token env token tokens).0 ≡ none
unfolding take_token
take_gone env token tokens gone = rw (take_token, gone) refl

erase-IsGone :
    (token other : Text) (tokens : Tokens) → IsGone token tokens → IsGone token (erase other tokens)
erase-IsGone token other tokens gone =
    lookup-erase other token tokens
    ∙ if_elim (other =? token) (λ o. o ≡ none) (λ same. refl) (λ differs. gone)

insert-IsGone :
    (token other : Text) (entry : Text × ℕ) (tokens : Tokens)
    → other ≢ token
    → IsGone token tokens
    → IsGone token (insert other entry tokens)
insert-IsGone token other entry tokens new gone =
    lookup-insert_ne other token entry tokens new ∙ gone

-- One of the two stores has no such token; `which` names it.
data Store : Type 0 where
  verification reset : Store

abbrev Lacks : Store → Store → Text → Tokens → Type 0
Lacks verification verification token tokens = IsGone token tokens
Lacks reset reset token tokens = IsGone token tokens
Lacks _ _ token tokens = Unit

abbrev Used : Store → Text → Invariant
Used which token = record {
  OfRefresh = Always;
  OfInvite = Always;
  OfVerification = Lacks which verification token;
  OfReset = Lacks which reset token;
}

Used-IsClosed : (which : Store) (token : Text) → IsClosed (Used which token)
Used-IsClosed verification token = record {
  revoking = λ env r p. tt;
  closing = λ env found r q e i p. (tt, tt);
  taking_verification = λ other tokens h. erase-IsGone token other tokens h;
  taking_reset = λ other tokens h. tt;
}
Used-IsClosed reset token = record {
  revoking = λ env r p. tt;
  closing = λ env found r q e i p. (tt, tt);
  taking_verification = λ other tokens h. tt;
  taking_reset = λ other tokens h. erase-IsGone token other tokens h;
}

Used-Admits :
    (which : Store) (token : Text) (env : Env)
    → env.new_token ≢ token
    → Admits (Used which token) env
Used-Admits verification token env new = record {
  minting = λ user_id. tt;
  inviting = λ tenant_id invited_by email role. tt;
  putting_verification =
      λ user_id exp tokens h. insert-IsGone token env.new_token (user_id, exp) tokens new h;
  putting_reset = λ user_id exp tokens h. tt;
}
Used-Admits reset token env new = record {
  minting = λ user_id. tt;
  inviting = λ tenant_id invited_by email role. tt;
  putting_verification = λ user_id exp tokens h. tt;
  putting_reset =
      λ user_id exp tokens h. insert-IsGone token env.new_token (user_id, exp) tokens new h;
}

verify_gone :
    (env : Env) (token : Text) (db : Db)
    → IsGone token db.verification_tokens
    → (verify_email env token db).0 ≡ error invalid_verification_token
unfolding verify_email
verify_gone env token db gone =
    rw (verify_email, take_gone env token db.verification_tokens gone) refl

reset_gone :
    (env : Env) (token password : Text) (db : Db)
    → IsGone token db.password_reset_tokens
    → (reset_password env token password db).0 ≡ error invalid_verification_token
unfolding reset_password
reset_gone env token password db gone =
    rw (reset_password, take_gone env token db.password_reset_tokens gone) refl

verify-takes :
    (env : Env) (token : Text) (db : Db)
    → IsGone token (verify_email env token db).1.verification_tokens
unfolding verify_email
verify-takes env token db =
    let gone = take_token-IsGone env token db.verification_tokens in
    Option-elim (take_token env token db.verification_tokens).0
      (λ (r : Call Unit). IsGone token r.1.verification_tokens) (λ missing. gone)
      (λ user_id found.
        Option-elim (env.parse_uuid user_id)
          (λ (r : Call Unit). IsGone token r.1.verification_tokens) (λ malformed. gone)
          (λ id parsed. gone))

reset-takes :
    (env : Env) (token password : Text) (db : Db)
    → IsGone token (reset_password env token password db).1.password_reset_tokens
unfolding reset_password
reset-takes env token password db =
    let gone = take_token-IsGone env token db.password_reset_tokens in
    Option-elim (take_token env token db.password_reset_tokens).0
      (λ (r : Call Unit). IsGone token r.1.password_reset_tokens) (λ missing. gone)
      (λ user_id found.
        Option-elim (env.parse_uuid user_id)
          (λ (r : Call Unit). IsGone token r.1.password_reset_tokens) (λ malformed. gone)
          (λ id parsed.
            Option-elim (find_user id _) (λ (r : Call Unit). IsGone token r.1.password_reset_tokens)
              (λ unknown. gone) (λ user known. gone)))

-- A password-reset token and a verification token are presented at most once: after a request with
-- one of them, whatever its outcome, every later request with it is refused as invalid, whatever is
-- served in between, if no token drawn since then is the same.
pub one_time_tokens :
    (env : Env) (token password : Text) (db : Db) (requests : List (Env × Request)) (later : Env)
    (password' : Text)
    → All (λ s. s.0.new_token ≢ token) requests
    → ((reset_password later token password'
          (serve_all requests (reset_password env token password db).1)).0
        ≡ error invalid_verification_token)
      × ((verify_email later token (serve_all requests (verify_email env token db).1)).0
          ≡ error invalid_verification_token)
one_time_tokens env token password db requests later password' news = (
  reset_gone later token password' (serve_all requests (reset_password env token password db).1)
      (serve_all-Holds (Used reset token) (Used-IsClosed reset token) requests
        (reset_password env token password db).1
        (All-map (λ s n. Used-Admits reset token s.0 n) requests news)
        (All-Always _, (All-Always _, (tt, reset-takes env token password db)))).1.1.1,
  verify_gone later token (serve_all requests (verify_email env token db).1)
      (serve_all-Holds (Used verification token) (Used-IsClosed verification token) requests
        (verify_email env token db).1
        (All-map (λ s n. Used-Admits verification token s.0 n) requests news)
        (All-Always _, (All-Always _, (verify-takes env token db, tt)))).1.1.0,
)
