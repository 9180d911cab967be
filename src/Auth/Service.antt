-- ===== src/Auth/Service.antt =====
-- `AuthService` of services/api/src/voyagent_api/auth_inhouse/service.py, invites apart. A call
-- returns its outcome with the database as it leaves it, also when it raises.
use voyagent.Prelude.{
  ℕ, ◌+◌, Bool, true, false, not, ◌&&◌, Option, none, some, List, [], ◌∷◌, if◌then◌else◌, is_some,
  take,
}
use voyagent.Prelude.Text.{Text, codes, eq_text, is_empty}
use voyagent.Prelude.Tables.{find_where}
use voyagent.Auth.Types.{
  Tenant, User, RefreshTokenRow, value_of, Db, Env, AccessTokenPayload, password_too_weak,
  email_already_registered, invalid_credentials, email_not_verified, refresh_token_revoked,
  invalid_verification_token, integrity_error, invalid_token, assertion_error, Outcome, ok, error,
  PublicUser, TokenPairResponse, AuthResponse,
}
use voyagent.Auth.Repository.{
  find_by_email, find_user, find_tenant, update_users, has_email, create_user_with_tenant,
  update_last_login, mark_email_verified, update_password_hash, store_refresh, find_active,
  revoke_refresh, revoke_all_for_user,
}
use voyagent.Auth.Passwords.{validate_password_strength}
use voyagent.Auth.Tokens.{put_token, take_token, revoke_access, issue_access_token}

abbrev pub Call : Type 0 → Type 0
Call A = Outcome A × Db

-- What follows a step that may raise.
abbrev pub and_then : {A B : Type 0} → Call A → (A → Db → Call B) → Call B
and_then (ok a, db) k = k a db
and_then (error e, db) k = (error e, db)

-- `_client_meta`
abbrev pub meta : ℕ → Option Text → Option Text
meta n none = none
meta n (some s) = if is_empty s then none else some (take n s)

-- The row of the refresh token that `mint_refresh_token` draws.
abbrev pub minted_row : Env → Text → RefreshTokenRow
minted_row env user_id = record {
  user_id = user_id;
  token_hash = env.sha256 env.new_refresh_token;
  expires_at = env.now + env.refresh_ttl_seconds;
  revoked_at = none;
  user_agent = meta 255 env.user_agent;
  ip = meta 64 env.ip;
}

unfoldable pub issue_pair_for_user : Env → User → Tenant → Db → Call TokenPairResponse
issue_pair_for_user env user tenant db = elim (store_refresh (minted_row env user.id) db) [
  | none ↦ (error integrity_error, db)
  | some db' ↦ (
    ok (record {
      access_token = issue_access_token env user.id tenant.id user.email (value_of user.role);
      refresh_token = env.new_refresh_token;
      expires_in = env.access_ttl_seconds;
    }),
    db',
  )
]

abbrev pub public_user : User → Tenant → PublicUser
public_user user tenant = record {
  id = user.id;
  email = user.email;
  full_name = user.display_name;
  role = value_of user.role;
  tenant_id = tenant.id;
  tenant_name = tenant.display_name;
  created_at = user.created_at;
  email_verified = user.email_verified;
}

-- The pair, with the user, as `AuthResponse`.
unfoldable pub respond : Env → User → Tenant → Db → Call AuthResponse
respond env user tenant db =
    and_then (issue_pair_for_user env user tenant db)
      (λ tokens db'. (ok (record { tokens = tokens; user = public_user user tenant }), db'))

-- `sign_up` of an email, a name, a password and an agency.
unfoldable pub sign_up : Env → Text → Text → Text → Text → Db → Call AuthResponse
sign_up env email full_name password agency_name db =
    elim (validate_password_strength env password) [
      | some why ↦ (error (password_too_weak why), db)
      | none ↦ elim (find_by_email env email db) [
        | some existing ↦ (error (email_already_registered (codes "email_already_registered")), db)
        | none ↦
            and_then
              (create_user_with_tenant env email full_name (env.hash_password password) agency_name
                db)
              (λ made db'. respond env made.0 made.1 db')
      ]
    ]

-- `user.password_hash is not None and verify_password(user.password_hash, password)`
abbrev pub password_matches : Env → User → Text → Bool
password_matches env user password = elim user.password_hash [
  | none ↦ false
  | some hash ↦ env.verify_password hash password
]

unfoldable pub sign_in : Env → Text → Text → Db → Call AuthResponse
sign_in env email password db = elim (find_by_email env email db) [
  | none ↦ (error invalid_credentials, db)
  | some user ↦
      if password_matches env user password
      then (if user.email_verified
          then (elim (find_tenant user.tenant_id db) [
            | none ↦ (error invalid_credentials, db)
            | some tenant ↦ respond env user tenant (update_last_login env user.id db)
          ])
          else (error email_not_verified, db))
      else (error invalid_credentials, db)
]

unfoldable pub refresh : Env → Text → Db → Call TokenPairResponse
refresh env refresh_token db = elim (find_active env (env.sha256 refresh_token) db) [
  | none ↦ (error refresh_token_revoked, db)
  | some row ↦ elim (find_user row.user_id db) [
    | none ↦ (error refresh_token_revoked, revoke_refresh env (env.sha256 refresh_token) db)
    | some user ↦ elim (find_tenant user.tenant_id db) [
      | none ↦ (error refresh_token_revoked, revoke_refresh env (env.sha256 refresh_token) db)
      | some tenant ↦
          issue_pair_for_user env user tenant (revoke_refresh env (env.sha256 refresh_token) db)
    ]
  ]
]

-- `sign_out`: both revocations, each of what is given.
unfoldable pub sign_out : Env → Option AccessTokenPayload → Option Text → Db → Db
sign_out env access_payload refresh_token db =
    let db' : Db = elim refresh_token [
      | none ↦ db
      | some token ↦ if is_empty token then db else revoke_refresh env (env.sha256 token) db
    ] in
    elim access_payload [
      | none ↦ db'
      | some payload ↦ record db' {
        revoked_access = revoke_access payload.jti payload.exp db'.revoked_access;
      }
    ]

-- The user that an access token speaks of.
unfoldable pub subject : Env → AccessTokenPayload → Db → Outcome User
subject env payload db = elim (env.parse_uuid payload.sub) [
  | none ↦ error (invalid_token (codes "malformed_subject"))
  | some id ↦ elim (find_user id db) [
    | none ↦ error (invalid_token (codes "user_not_found"))
    | some user ↦ ok user
  ]
]

unfoldable pub me : Env → AccessTokenPayload → Db → Outcome PublicUser
me env payload db = elim (subject env payload db) [
  | error e ↦ error e
  | ok user ↦ elim (find_tenant user.tenant_id db) [
    | none ↦ error (invalid_token (codes "tenant_not_found"))
    | some tenant ↦ ok (public_user user tenant)
  ]
]

unfoldable pub send_verification_email : Env → AccessTokenPayload → Db → Call Text
send_verification_email env payload db = elim (subject env payload db) [
  | error e ↦ (error e, db)
  | ok user ↦ (
    ok env.new_token,
    record db {
      verification_tokens =
          put_token env env.new_token user.id env.verification_ttl_seconds db.verification_tokens;
    },
  )
]

unfoldable pub verify_email : Env → Text → Db → Call Unit
verify_email env token db =
    let (taken, rest) = take_token env token db.verification_tokens in
    let db' = record db { verification_tokens = rest } in
    elim taken [
      | none ↦ (error invalid_verification_token, db')
      | some user_id ↦ elim (env.parse_uuid user_id) [
        | none ↦ (error invalid_verification_token, db')
        | some id ↦ (ok tt, mark_email_verified id db')
      ]
    ]

unfoldable pub request_password_reset : Env → Text → Db → Option Text × Db
request_password_reset env email db = elim (find_by_email env email db) [
  | none ↦ (none, db)
  | some user ↦ (
    some env.new_token,
    record db {
      password_reset_tokens =
          put_token env env.new_token user.id env.password_reset_ttl_seconds
            db.password_reset_tokens;
    },
  )
]

unfoldable pub reset_password : Env → Text → Text → Db → Call Unit
reset_password env token new_password db =
    let (taken, rest) = take_token env token db.password_reset_tokens in
    let db' = record db { password_reset_tokens = rest } in
    elim taken [
      | none ↦ (error invalid_verification_token, db')
      | some user_id ↦ elim (env.parse_uuid user_id) [
        | none ↦ (error invalid_verification_token, db')
        | some id ↦ elim (find_user id db') [
          | none ↦ (error invalid_verification_token, db')
          | some user ↦ (
            ok tt,
            revoke_all_for_user env id
                (update_password_hash id (env.hash_password new_password) db'),
          )
        ]
      ]
    ]

-- The columns that `update_profile` changes, with whether the email does.
abbrev pub renamed : Option Text → User → User
renamed none u = u
renamed (some name) u = record u { display_name = name }

abbrev pub readdressed : Option Text → User → User
readdressed none u = u
readdressed (some email) u = record u { email = email; email_verified = false }

-- The new email, if one is given and differs.
abbrev pub changed_email : Env → Option Text → User → Option Text
changed_email env none u = none
changed_email env (some email) u =
    if eq_text (env.lower email) u.email then none else some (env.lower email)

-- Whether another user has it.
abbrev pub taken_by_other : Option Text → Text → Db → Bool
taken_by_other none user_id db = false
taken_by_other (some email) user_id db = is_some (
    voyagent.Prelude.Tables.find_where (λ u. has_email email u && not (eq_text u.id user_id))
      db.users)

unfoldable pub update_profile :
    Env → Text → Option Text → Option Text → Db → Call (PublicUser × Bool)
update_profile env user_id full_name email db = elim (find_user user_id db) [
  | none ↦ (error (email_already_registered (codes "user_not_found")), db)
  | some current ↦
      let fresh = changed_email env email current in
      if taken_by_other fresh user_id db
      then (error (email_already_registered (codes "email_already_registered")), db)
      else (let db' = update_users user_id (λ u. readdressed fresh (renamed full_name u)) db in
          elim (find_user user_id db') [
            | none ↦ (error assertion_error, db')
            | some user ↦ elim (find_tenant user.tenant_id db') [
              | none ↦ (error (invalid_token (codes "tenant_not_found")), db')
              | some tenant ↦ (ok (public_user user tenant, is_some fresh), db')
            ]
          ])
]
