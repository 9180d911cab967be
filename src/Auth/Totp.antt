-- ===== src/Auth/Totp.antt =====
-- The second factor: services/api/src/voyagent_api/auth_inhouse/totp.py.
use voyagent.Prelude.{
  ℕ, Bool, true, false, ◌&&◌, Option, none, some, [], ◌∷◌, if◌then◌else◌, ◌==◌, length, filter, not,
}
use voyagent.Prelude.Text.{Text, codes, is_empty}
use voyagent.Auth.Types.{
  User, Db, Env, invalid_credentials, email_not_verified, http_error, ok, error,
}
use voyagent.Auth.Repository.{find_by_email, find_user, update_users, update_last_login}
use voyagent.Auth.Service.{Call, password_matches}

-- `all(test(c) for c in s)`
abbrev pub all : (ℕ → Bool) → Text → Bool
all test [] = true
all test (c ∷ s) = test c && all test s

-- `code.strip().replace(" ", "")`
abbrev pub compact : Env → Text → Text
compact env code = filter (λ c. not (c == 32)) (env.strip code)

unfoldable pub verify_totp_code : Env → Text → Text → Bool
verify_totp_code env secret code =
    if is_empty secret
    then false
    else if is_empty code
    then false
    else if all env.is_digit (compact env code) && length (compact env code) == 6
    then env.pyotp_verify secret (compact env code)
    else false

-- `not user.totp_secret` is a missing or an empty secret.
abbrev pub secret_of : User → Option Text
secret_of user = elim user.totp_secret [
  | none ↦ none
  | some s ↦ if is_empty s then none else some s
]

abbrev pub store_totp_secret : Text → Text → Db → Db
store_totp_secret id secret =
    update_users id (λ u. record u { totp_secret = some secret; totp_enabled = false })

abbrev pub enable_totp : Text → Db → Db
enable_totp id = update_users id (λ u. record u { totp_enabled = true })

abbrev pub clear_totp : Text → Db → Db
clear_totp id = update_users id (λ u. record u { totp_secret = none; totp_enabled = false })

-- Of the new secret; the URL for a QR code is the library's.
unfoldable pub setup_totp_for_user : Env → Text → Db → Call Text
setup_totp_for_user env user_id db = elim (find_user user_id db) [
  | none ↦ (error (http_error 401 (codes "unauthorized")), db)
  | some user ↦ (ok env.new_secret, store_totp_secret user_id env.new_secret db)
]

unfoldable pub verify_totp_for_user : Env → Text → Text → Db → Call Unit
verify_totp_for_user env user_id code db = elim (find_user user_id db) [
  | none ↦ (error (http_error 401 (codes "unauthorized")), db)
  | some user ↦ elim (secret_of user) [
    | none ↦ (error (http_error 400 (codes "totp_not_initialized")), db)
    | some secret ↦
        if user.totp_enabled
        then (ok tt, db)
        else if verify_totp_code env secret code
        then (ok tt, enable_totp user_id db)
        else (error (http_error 401 (codes "totp_invalid")), db)
  ]
]

-- The secret of a user whose second factor is on.
abbrev pub armed_secret : User → Option Text
armed_secret user = if user.totp_enabled then secret_of user else none

unfoldable pub disable_totp_for_user : Env → Text → Text → Text → Db → Call Unit
disable_totp_for_user env user_id password code db = elim (find_user user_id db) [
  | none ↦ (error (http_error 401 (codes "unauthorized")), db)
  | some user ↦ elim user.password_hash [
    | none ↦ (error (http_error 401 (codes "unauthorized")), db)
    | some hash ↦
        if env.verify_password hash password
        then (elim (armed_secret user) [
          | none ↦ (ok tt, db)
          | some secret ↦
              if verify_totp_code env secret code
              then (ok tt, clear_totp user_id db)
              else (error (http_error 403 (codes "totp_invalid")), db)
        ])
        else (error (http_error 403 (codes "invalid_password")), db)
  ]
]

unfoldable pub user_requires_totp : Env → Text → Db → Bool
user_requires_totp env email db = elim (find_by_email env email db) [
  | none ↦ false
  | some user ↦ user.totp_enabled
]

unfoldable pub sign_in_with_totp : Env → Text → Text → Text → Db → Call User
sign_in_with_totp env email password code db = elim (find_by_email env email db) [
  | none ↦ (error invalid_credentials, db)
  | some user ↦
      if password_matches env user password
      then (if user.email_verified
          then (elim (armed_secret user) [
            | none ↦ (error (http_error 400 (codes "totp_not_enabled")), db)
            | some secret ↦
                if verify_totp_code env secret code
                then (ok user, update_last_login env user.id db)
                else (error (http_error 401 (codes "totp_invalid")), db)
          ])
          else (error email_not_verified, db))
      else (error invalid_credentials, db)
]
