-- ===== src/Auth/Tests.antt =====
-- One agency with one user: sign-in, rotation of a refresh token, a reset, and an invite's end.
use voyagent.Prelude.{
  ℕ, ◌≡◌, refl, true, false, none, some, List, [], ◌∷◌, ◌↔◌, ◌≤◌, length, leb, All, ◌&&◌,
}
use voyagent.Prelude.Text.{Text, codes, is_empty, eq_text}
use voyagent.Auth.Types.{
  agency_admin, User, InviteRow, revoked, Db, Env, password_common, refresh_token_revoked,
  invalid_verification_token, invite_already_exists, ok, error, TokenPairResponse, value_of,
}
use voyagent.Auth.Repository.{find_user, find_tenant, find_active, store_refresh}
use voyagent.Auth.Passwords.{any, is_common, validate_password_strength}
use voyagent.Auth.Tokens.{take_token, issue_access_token}
use voyagent.Auth.Service.{refresh, issue_pair_for_user, reset_password, verify_email}
use voyagent.Auth.Invites.{create_invite}
use voyagent.Auth.Requests.{Request, refreshes, asks_reset, serve_all}
use voyagent.Auth.SingleUse.{refresh_once}
use voyagent.Auth.OneTime.{one_time_tokens}
use voyagent.Auth.Credentials.{validate_password_strength_iff}
use voyagent.Auth.InviteEnds.{HasStatus, serve_all-Ended, create_invite-occupied}

-- At a second, with a value for all that is drawn. The stand-in for a hash writes a mark before the
-- text, and a signed token is its `jti`.
abbrev env_at : ℕ → Text → Env
env_at now drawn = record {
  now = now;
  user_agent = some (codes "curl");
  ip = none;
  access_ttl_seconds = 900;
  refresh_ttl_seconds = 86_400;
  verification_ttl_seconds = 3_600;
  password_reset_ttl_seconds = 3_600;
  skip_email_verification = false;
  lower = λ s. s;
  strip = λ s. s;
  is_alpha = λ c. leb 97 c && leb c 122;
  is_digit = λ c. leb 48 c && leb c 57;
  sha256 = λ s. 35 ∷ s;
  hash_password = λ s. 36 ∷ s;
  verify_password = λ hash password. eq_text hash (36 ∷ password);
  pyotp_verify = λ secret code. eq_text secret code;
  sign = λ payload. payload.jti;
  parse_uuid = some;
  new_tenant_id = drawn;
  new_user_id = drawn;
  new_invite_id = drawn;
  new_jti = drawn;
  new_refresh_token = drawn;
  new_token = drawn;
  new_secret = drawn;
}

abbrev owner : User
owner = record {
  id = codes "u";
  tenant_id = codes "t";
  display_name = codes "Ann";
  email = codes "ann@a.in";
  role = agency_admin;
  password_hash = some (codes "$secret42");
  email_verified = true;
  totp_secret = none;
  totp_enabled = false;
  last_login_at = none;
  created_at = 1;
}

abbrev old_invite : InviteRow
old_invite = record {
  id = codes "i";
  tenant_id = codes "t";
  invited_by_user_id = codes "u";
  email = codes "bob@a.in";
  role = codes "agent";
  token_hash = codes "#inv";
  status = revoked;
  expires_at = 500;
  accepted_at = none;
  revoked_at = some 90;
  created_at = 2;
}

abbrev db : Db
db = record {
  tenants =
      record { id = codes "t"; display_name = codes "A"; default_currency = codes "USD" } ∷ [];
  users = owner ∷ [];
  refresh_tokens =
      record {
        user_id = codes "u";
        token_hash = codes "#tok";
        expires_at = 1_000;
        revoked_at = none;
        user_agent = none;
        ip = none;
      }
      ∷ [];
  invites = old_invite ∷ [];
  verification_tokens = [];
  password_reset_tokens = (codes "r", (codes "u", 400)) ∷ [];
  revoked_access = [];
}

abbrev between : List (Env × Request)
between =
    (env_at 120 (codes "n2"), asks_reset (codes "ann@a.in"))
    ∷ (env_at 130 (codes "n3"), refreshes (codes "n1"))
    ∷ []

abbrev pair : TokenPairResponse
pair = record { access_token = codes "n1"; refresh_token = codes "n1"; expires_in = 900 }

-- The first exchange works.
rotated : (refresh (env_at 100 (codes "n1")) (codes "tok") db).0 ≡ ok pair
unfolding refresh find_active find_user find_tenant issue_pair_for_user store_refresh
    issue_access_token value_of
rotated = refl

refresh_once_example :
    (refresh
      (env_at 200 (codes "n4"))
      (codes "tok")
      (serve_all between (refresh (env_at 100 (codes "n1")) (codes "tok") db).1)).0
    ≡ error refresh_token_revoked
refresh_once_example =
    refresh_once (env_at 100 (codes "n1")) (codes "tok") db pair between (env_at 200 (codes "n4"))
      rotated (λ e. cc) (λ e. cc, (λ e. cc, tt)) refl

one_time_tokens_example :
    ((reset_password (env_at 200 (codes "n4")) (codes "r") (codes "again1") (
        serve_all between
          (reset_password (env_at 100 (codes "n1")) (codes "r") (codes "changed1") db).1)).0
      ≡ error invalid_verification_token)
    × ((verify_email
          (env_at 200 (codes "n4"))
          (codes "r")
          (serve_all between (verify_email (env_at 100 (codes "n1")) (codes "r") db).1)).0
        ≡ error invalid_verification_token)
one_time_tokens_example =
    one_time_tokens (env_at 100 (codes "n1")) (codes "r") (codes "changed1") db between
      (env_at 200 (codes "n4")) (codes "again1") (λ e. cc, (λ e. cc, tt))

-- The first reset works.
reset_works : (reset_password (env_at 100 (codes "n1")) (codes "r") (codes "changed1") db).0 ≡ ok tt
unfolding reset_password take_token find_user
reset_works = refl

validate_password_strength_iff_example :
    (validate_password_strength (env_at 1 []) (codes "password123") ≡ none) ↔ (
      (is_empty (codes "password123") ≡ false)
      × (10 ≤ length (codes "password123"))
      × (length (codes "password123") ≤ 128)
      × (any (env_at 1 []).is_alpha (codes "password123") ≡ true)
      × (any (env_at 1 []).is_digit (codes "password123") ≡ true)
      × (is_common (env_at 1 []) (codes "password123") ≡ false))
validate_password_strength_iff_example =
    validate_password_strength_iff (env_at 1 []) (codes "password123")

too_common : validate_password_strength (env_at 1 []) (codes "password123") ≡ some password_common
unfolding validate_password_strength is_common
too_common = refl

serve_all-Ended_example : All (HasStatus (codes "i") revoked) (serve_all between db).invites
serve_all-Ended_example =
    serve_all-Ended (codes "i") revoked between db (λ e. cc) (λ e. cc, (λ e. cc, tt))
      (λ e. refl, tt)

create_invite-occupied_example :
    create_invite
      (env_at 100 (codes "n1"))
      (codes "t")
      (codes "u")
      (codes "bob@a.in")
      (codes "agent")
      db
    ≡ (error invite_already_exists, db)
create_invite-occupied_example =
    create_invite-occupied (env_at 100 (codes "n1")) (codes "t") (codes "u") (codes "bob@a.in")
      (codes "agent") db old_invite refl
