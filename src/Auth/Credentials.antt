-- ===== src/Auth/Credentials.antt =====
-- Who is let in: passwords and sign-in of services/api/src/voyagent_api/auth_inhouse.
use voyagent.Prelude.{
  ℕ, ◌≤◌, ◌≡◌, ◌↔◌, Bool, true, false, none, some, if◌then◌else◌, ltb, length, arith,
}
use voyagent.Prelude.Text.{Text, is_empty, text_key}
use voyagent.Auth.Types.{
  Env, Db, User, Tenant, password_blank, password_too_short, password_too_long, password_no_letter,
  password_no_digit, password_common, AuthResponse, ok, error, invalid_credentials,
  email_not_verified, integrity_error,
}
use voyagent.Auth.Tokens.{issue_access_token}
use voyagent.Auth.Types.{value_of}
use voyagent.Auth.Repository.{find_by_email, find_tenant, update_last_login, store_refresh}
use voyagent.Auth.Passwords.{any, is_common, validate_password_strength}
use voyagent.Auth.Service.{Call, minted_row, password_matches, public_user}

-- A password is accepted exactly if it is not blank, has 10 to 128 characters, has a letter and a
-- digit, and is not, stripped and in lower case, one of the common passwords.
pub validate_password_strength_iff :
    (env : Env) (password : Text)
    → (validate_password_strength env password ≡ none) ↔ (
        (is_empty (env.strip password) ≡ false)
        × (10 ≤ length password)
        × (length password ≤ 128)
        × (any env.is_alpha password ≡ true)
        × (any env.is_digit password ≡ true)
        × (is_common env password ≡ false))
unfolding validate_password_strength
validate_password_strength_iff env password =
    rules (is_empty (env.strip password)) (any env.is_alpha password) (any env.is_digit password)
      (is_common env password) (length password)
  where
    rules :
        (blank alpha digit common : Bool) (n : ℕ)
        → ((if blank
              then some password_blank
              else if ltb n 10
              then some password_too_short
              else if ltb 128 n
              then some password_too_long
              else if alpha
              then (if digit
                  then (if common then some password_common else none)
                  else some password_no_digit)
              else some password_no_letter)
            ≡ none)
          ↔ ((blank ≡ false)
              × (10 ≤ n)
              × (n ≤ 128)
              × (alpha ≡ true)
              × (digit ≡ true)
              × (common ≡ false))
    rules blank alpha digit common n = ground arith

-- Why a sign-in ends as it does, and what it leaves.
abbrev pub Justified : Env → Text → Text → Db → Call AuthResponse → Type 0
Justified env email password db (ok response, db') =
    (user : User) × (tenant : Tenant) × (find_by_email env email db ≡ some user)
    × (password_matches env user password ≡ true)
    × (user.email_verified ≡ true)
    × (find_tenant user.tenant_id db ≡ some tenant)
    × (response.user ≡ public_user user tenant)
    × (response.tokens.access_token
        ≡ issue_access_token env user.id tenant.id user.email (value_of user.role))
    × (response.tokens.refresh_token ≡ env.new_refresh_token)
    × (store_refresh (minted_row env user.id) (update_last_login env user.id db) ≡ some db')
Justified env email password db (error email_not_verified, db') =
    (user : User) × (find_by_email env email db ≡ some user)
    × (password_matches env user password ≡ true)
    × (user.email_verified ≡ false)
    × (db' ≡ db)
Justified env email password db (error invalid_credentials, db') =
    ((user : User)
      → find_by_email env email db ≡ some user
      → password_matches env user password ≡ true
      → find_tenant user.tenant_id db ≡ none)
    × (db' ≡ db)
Justified env email password db (error e, db') =
    (e ≡ integrity_error) × (db'.refresh_tokens ≡ db.refresh_tokens)
