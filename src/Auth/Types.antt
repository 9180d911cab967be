-- ===== src/Auth/Types.antt =====
-- The rows and the errors of services/api/src/voyagent_api/auth_inhouse, from schemas/storage. Ids
-- and tokens are texts, times are seconds.
use voyagent.Prelude.{ℕ, Bool, true, false, Option, none, some, List, if◌then◌else◌}
use voyagent.Prelude.Text.{Text, codes, eq_text}
use voyagent.Prelude.Dict.{Dict}

pub data UserRole : Type 0 where
  agency_admin ticketing_lead accounting_lead agent viewer : UserRole

-- `UserRole(role)`
unfoldable pub role_of : Text → Option UserRole
role_of s =
    if eq_text s (codes "agency_admin")
    then some agency_admin
    else if eq_text s (codes "ticketing_lead")
    then some ticketing_lead
    else if eq_text s (codes "accounting_lead")
    then some accounting_lead
    else if eq_text s (codes "agent")
    then some agent
    else if eq_text s (codes "viewer")
    then some viewer
    else none

-- `role.value`
unfoldable pub value_of : UserRole → Text
value_of agency_admin = codes "agency_admin"
value_of ticketing_lead = codes "ticketing_lead"
value_of accounting_lead = codes "accounting_lead"
value_of agent = codes "agent"
value_of viewer = codes "viewer"

pub record Tenant : Type 0 where
  pub id : Text
  pub display_name : Text
  pub default_currency : Text

pub record User : Type 0 where
  pub id : Text
  pub tenant_id : Text
  pub display_name : Text
  pub email : Text
  pub role : UserRole
  pub password_hash : Option Text
  pub email_verified : Bool
  pub totp_secret : Option Text
  pub totp_enabled : Bool
  pub last_login_at : Option ℕ
  pub created_at : ℕ

pub record RefreshTokenRow : Type 0 where
  pub user_id : Text
  pub token_hash : Text
  pub expires_at : ℕ
  pub revoked_at : Option ℕ
  pub user_agent : Option Text
  pub ip : Option Text

pub data InviteStatusEnum : Type 0 where
  pending accepted revoked expired : InviteStatusEnum

unfoldable pub eq_status : InviteStatusEnum → InviteStatusEnum → Bool
eq_status pending pending = true
eq_status accepted accepted = true
eq_status revoked revoked = true
eq_status expired expired = true
eq_status _ _ = false

pub record InviteRow : Type 0 where
  pub id : Text
  pub tenant_id : Text
  pub invited_by_user_id : Text
  pub email : Text
  pub role : Text
  pub token_hash : Text
  pub status : InviteStatusEnum
  pub expires_at : ℕ
  pub accepted_at : Option ℕ
  pub revoked_at : Option ℕ
  pub created_at : ℕ

-- A token of the in-memory stores, with its user and the second it expires at.
abbrev pub Tokens : Type 0
Tokens = Dict Text (Text × ℕ)

-- The tables, the two stores of one-time tokens, and the list of revoked access tokens.
pub record Db : Type 0 where
  pub tenants : List Tenant
  pub users : List User
  pub refresh_tokens : List RefreshTokenRow
  pub invites : List InviteRow
  pub verification_tokens : Tokens
  pub password_reset_tokens : Tokens
  pub revoked_access : Dict Text ℕ

pub record AccessTokenPayload : Type 0 where
  pub sub : Text
  pub tid : Text
  pub role : Text
  pub email : Text
  pub iat : ℕ
  pub exp : ℕ
  pub jti : Text

-- What a call reads from outside: the clock, the request, the settings, the libraries for hashing,
-- JWT, UUIDs and Unicode, and the random values that it draws.
pub record Env : Type 0 where
  pub now : ℕ
  pub user_agent : Option Text
  pub ip : Option Text
  pub access_ttl_seconds : ℕ
  pub refresh_ttl_seconds : ℕ
  pub verification_ttl_seconds : ℕ
  pub password_reset_ttl_seconds : ℕ
  pub skip_email_verification : Bool
  pub lower : Text → Text
  pub strip : Text → Text
  pub is_alpha : ℕ → Bool
  pub is_digit : ℕ → Bool
  pub sha256 : Text → Text
  pub hash_password : Text → Text
  pub verify_password : Text → Text → Bool
  pub pyotp_verify : Text → Text → Bool
  pub sign : AccessTokenPayload → Text
  pub parse_uuid : Text → Option Text
  pub new_tenant_id : Text
  pub new_user_id : Text
  pub new_invite_id : Text
  pub new_jti : Text
  pub new_refresh_token : Text
  pub new_token : Text
  pub new_secret : Text

pub data PasswordTooWeak : Type 0 where
  password_blank password_too_short password_too_long : PasswordTooWeak
  password_no_letter password_no_digit password_common : PasswordTooWeak

-- The exceptions, by their class or, of an `HTTPException`, by status and detail.
pub data AuthError : Type 0 where
  password_too_weak : PasswordTooWeak → AuthError
  email_already_registered : Text → AuthError
  invalid_credentials email_not_verified refresh_token_revoked : AuthError
  invalid_verification_token invite_already_exists invite_not_found integrity_error
        assertion_error :
      AuthError
  invalid_token : Text → AuthError
  invite_invalid_state : Text → AuthError
  http_error : ℕ → Text → AuthError

pub data Outcome (A : Type 0) : Type 0 where
  ok : A → Outcome A
  error : AuthError → Outcome A

pub record PublicUser : Type 0 where
  pub id : Text
  pub email : Text
  pub full_name : Text
  pub role : Text
  pub tenant_id : Text
  pub tenant_name : Text
  pub created_at : ℕ
  pub email_verified : Bool

-- `TokenPairResponse`: the access token, the refresh token and the seconds of the first.
pub record TokenPairResponse : Type 0 where
  pub access_token : Text
  pub refresh_token : Text
  pub expires_in : ℕ

pub record AuthResponse : Type 0 where
  pub tokens : TokenPairResponse
  pub user : PublicUser
