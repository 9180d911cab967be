-- ===== src/Auth/Repository.antt =====
-- The statements of services/api/src/voyagent_api/auth_inhouse/repository.py, with the unique
-- indexes of schemas/storage: an insert that one of them refuses returns none.
use voyagent.Prelude.{
  ℕ, ◌+◌, ◌*◌, Bool, true, false, not, ◌&&◌, Option, none, some, List, [], ◌∷◌, ◌++◌, if◌then◌else◌,
  is_some, ltb, filter,
}
use voyagent.Prelude.Text.{Text, codes, eq_text}
use voyagent.Prelude.Tables.{find_where, update_where, order_desc, order_asc}
use voyagent.Auth.Types.{
  UserRole, agency_admin, role_of, Tenant, User, RefreshTokenRow, InviteStatusEnum, pending,
  accepted, revoked, eq_status, InviteRow, Db, Env, email_already_registered, Outcome, ok, error,
}

abbrev pub has_email : Text → User → Bool
has_email email u = eq_text u.email email

abbrev pub has_user_id : Text → User → Bool
has_user_id id u = eq_text u.id id

unfoldable pub find_by_email : Env → Text → Db → Option User
find_by_email env email db = find_where (has_email (env.lower email)) db.users

unfoldable pub find_user : Text → Db → Option User
find_user id db = find_where (has_user_id id) db.users

unfoldable pub find_tenant : Text → Db → Option Tenant
find_tenant id db = find_where (λ t. eq_text t.id id) db.tenants

abbrev pub update_users : Text → (User → User) → Db → Db
update_users id f db = record db { users = update_where (has_user_id id) f db.users }

-- The columns that `User(...)` sets, and the defaults of the others.
abbrev pub new_user : Env → Text → Text → Text → Text → UserRole → User
new_user env tenant_id email full_name password_hash role = record {
  id = env.new_user_id;
  tenant_id = tenant_id;
  display_name = full_name;
  email = env.lower email;
  role = role;
  password_hash = some password_hash;
  email_verified = env.skip_email_verification;
  totp_secret = none;
  totp_enabled = false;
  last_login_at = none;
  created_at = env.now;
}

-- Insert of a user, which the unique index on `email` may refuse.
unfoldable pub insert_user : User → Db → Option Db
insert_user u db =
    if is_some (find_where (has_email u.email) db.users)
    then none
    else some (record db { users = db.users ++ (u ∷ []) })

abbrev pub new_tenant : Env → Text → Tenant
new_tenant env agency_name = record {
  id = env.new_tenant_id;
  display_name = agency_name;
  default_currency = codes "USD";
}

unfoldable pub create_user_with_tenant :
    Env → Text → Text → Text → Text → Db → Outcome (User × Tenant) × Db
create_user_with_tenant env email full_name password_hash agency_name db =
    let tenant = new_tenant env agency_name in
    let user = new_user env tenant.id email full_name password_hash agency_admin in
    elim (insert_user user (record db { tenants = db.tenants ++ (tenant ∷ []) })) [
      | none ↦ (error (email_already_registered (codes "email_already_registered")), db)
      | some db' ↦ (ok (user, tenant), db')
    ]

unfoldable pub create_user_in_existing_tenant :
    Env → Text → Text → Text → Text → Text → Db → Outcome User × Db
create_user_in_existing_tenant env tenant_id email full_name password_hash role db =
    elim (role_of role) [
      | none ↦ (error (email_already_registered (codes "invalid_role")), db)
      | some role_enum ↦
          let user = new_user env tenant_id email full_name password_hash role_enum in
          elim (insert_user user db) [
            | none ↦ (error (email_already_registered (codes "email_already_registered")), db)
            | some db' ↦ (ok user, db')
          ]
    ]

abbrev pub update_last_login : Env → Text → Db → Db
update_last_login env id = update_users id (λ u. record u { last_login_at = some env.now })

abbrev pub mark_email_verified : Text → Db → Db
mark_email_verified id = update_users id (λ u. record u { email_verified = true })

abbrev pub update_password_hash : Text → Text → Db → Db
update_password_hash id hash = update_users id (λ u. record u { password_hash = some hash })

abbrev pub list_tenant_members : Text → Db → List User
list_tenant_members tenant_id db =
    order_asc (λ u. u.created_at) (filter (λ u. eq_text u.tenant_id tenant_id) db.users)

-- The invites. `create` inserts an email in lower case.
abbrev pub has_address : Text → Text → InviteRow → Bool
has_address tenant_id email r = eq_text r.tenant_id tenant_id && eq_text r.email email

unfoldable pub find_pending_for_email : Env → Text → Text → Db → Option InviteRow
find_pending_for_email env tenant_id email db =
    find_where
      (λ r.
        eq_text r.tenant_id tenant_id
        && eq_text (env.lower r.email) (env.lower email)
        && eq_status r.status pending)
      db.invites

abbrev pub ttl_days : ℕ
ttl_days = 7

abbrev pub new_invite : Env → Text → Text → Text → Text → Text → InviteRow
new_invite env tenant_id invited_by email role token_hash = record {
  id = env.new_invite_id;
  tenant_id = tenant_id;
  invited_by_user_id = invited_by;
  email = env.lower email;
  role = role;
  token_hash = token_hash;
  status = pending;
  expires_at = env.now + ttl_days * 86_400;
  accepted_at = none;
  revoked_at = none;
  created_at = env.now;
}

-- What the indexes `ux_invites_tenant_email_lower` and `ux_invites_token_hash` refuse.
abbrev pub collides : Env → InviteRow → InviteRow → Bool
collides env new r =
    if eq_text r.token_hash new.token_hash
    then true
    else eq_text r.tenant_id new.tenant_id && eq_text (env.lower r.email) (env.lower new.email)

unfoldable pub insert_invite : Env → InviteRow → Db → Option Db
insert_invite env row db =
    if is_some (find_where (collides env row) db.invites)
    then none
    else some (record db { invites = db.invites ++ (row ∷ []) })

abbrev pub has_invite_id : Text → InviteRow → Bool
has_invite_id id r = eq_text r.id id

unfoldable pub find_invite : Text → Db → Option InviteRow
find_invite id db = find_where (has_invite_id id) db.invites

unfoldable pub find_by_token_hash : Text → Db → Option InviteRow
find_by_token_hash token_hash db = find_where (λ r. eq_text r.token_hash token_hash) db.invites

unfoldable pub list_for_tenant : Text → Option InviteStatusEnum → Db → List InviteRow
list_for_tenant tenant_id status db =
    order_desc (λ r. r.created_at)
      (filter
        (λ r.
          eq_text r.tenant_id tenant_id
          && (elim status [ none ↦ true | some s ↦ eq_status r.status s ]))
        db.invites)

abbrev pub revoked_invite : Env → InviteRow → InviteRow
revoked_invite env r = record r { status = revoked; revoked_at = some env.now }

abbrev pub accepted_invite : Env → InviteRow → InviteRow
accepted_invite env r = record r { status = accepted; accepted_at = some env.now }

abbrev pub revoke_invite_row : Env → Text → Db → Db
revoke_invite_row env id db = record db {
  invites = update_where (has_invite_id id) (revoked_invite env) db.invites;
}

abbrev pub mark_accepted : Env → Text → Db → Db
mark_accepted env id db = record db {
  invites = update_where (has_invite_id id) (accepted_invite env) db.invites;
}

-- The refresh tokens.
abbrev pub has_hash : Text → RefreshTokenRow → Bool
has_hash token_hash r = eq_text r.token_hash token_hash

unfoldable pub store_refresh : RefreshTokenRow → Db → Option Db
store_refresh row db =
    if is_some (find_where (has_hash row.token_hash) db.refresh_tokens)
    then none
    else some (record db { refresh_tokens = db.refresh_tokens ++ (row ∷ []) })

abbrev pub is_active : ℕ → Text → RefreshTokenRow → Bool
is_active now token_hash r =
    has_hash token_hash r && not (is_some r.revoked_at) && ltb now r.expires_at

unfoldable pub find_active : Env → Text → Db → Option RefreshTokenRow
find_active env token_hash db = find_where (is_active env.now token_hash) db.refresh_tokens

abbrev pub revoked_row : Env → RefreshTokenRow → RefreshTokenRow
revoked_row env r = record r { revoked_at = some env.now }

abbrev pub revoke_refresh : Env → Text → Db → Db
revoke_refresh env token_hash db = record db {
  refresh_tokens = update_where (has_hash token_hash) (revoked_row env) db.refresh_tokens;
}

abbrev pub is_open_of : Text → RefreshTokenRow → Bool
is_open_of user_id r = eq_text r.user_id user_id && not (is_some r.revoked_at)

abbrev pub revoke_all_for_user : Env → Text → Db → Db
revoke_all_for_user env user_id db = record db {
  refresh_tokens = update_where (is_open_of user_id) (revoked_row env) db.refresh_tokens;
}

abbrev pub cleanup_expired : Env → Db → Db
cleanup_expired env db = record db {
  refresh_tokens = filter (λ r. ltb env.now r.expires_at) db.refresh_tokens;
}
