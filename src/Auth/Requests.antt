-- ===== src/Auth/Requests.antt =====
-- The calls of services/api/src/voyagent_api/auth_inhouse that may change the database, as requests
-- in the order they are served.
use voyagent.Prelude.{Option, List, [], ◌∷◌}
use voyagent.Prelude.Text.{Text}
use voyagent.Auth.Types.{Db, Env, AccessTokenPayload}
use voyagent.Auth.Repository.{cleanup_expired}
use voyagent.Auth.Tokens.{principal_from_token}
use voyagent.Auth.Service.{
  sign_up, sign_in, refresh, sign_out, send_verification_email, verify_email,
  request_password_reset, reset_password, update_profile,
}
use voyagent.Auth.Invites.{create_invite, revoke_invite, accept_invite}
use voyagent.Auth.Totp.{
  setup_totp_for_user, verify_totp_for_user, disable_totp_for_user, sign_in_with_totp,
}

pub data Request : Type 0 where
  signs_up : Text → Text → Text → Text → Request
  signs_in : Text → Text → Request
  refreshes : Text → Request
  signs_out : Option AccessTokenPayload → Option Text → Request
  authenticates : Option AccessTokenPayload → Request
  asks_verification : AccessTokenPayload → Request
  verifies_email : Text → Request
  updates_profile : Text → Option Text → Option Text → Request
  asks_reset : Text → Request
  resets_password : Text → Text → Request
  creates_invite : Text → Text → Text → Text → Request
  revokes_invite : Text → Text → Request
  accepts_invite : Text → Text → Text → Request
  sets_up_totp : Text → Request
  confirms_totp : Text → Text → Request
  disables_totp : Text → Text → Text → Request
  signs_in_with_totp : Text → Text → Text → Request
  cleans_up : Request

-- The database after a request.
unfoldable pub serve : Env → Request → Db → Db
serve env (signs_up email name password agency) db = (sign_up env email name password agency db).1
serve env (signs_in email password) db = (sign_in env email password db).1
serve env (refreshes token) db = (refresh env token db).1
serve env (signs_out payload token) db = sign_out env payload token db
serve env (authenticates payload) db = (principal_from_token env payload db).1
serve env (asks_verification payload) db = (send_verification_email env payload db).1
serve env (verifies_email token) db = (verify_email env token db).1
serve env (updates_profile id name email) db = (update_profile env id name email db).1
serve env (asks_reset email) db = (request_password_reset env email db).1
serve env (resets_password token password) db = (reset_password env token password db).1
serve env (creates_invite tenant by email role) db = (create_invite env tenant by email role db).1
serve env (revokes_invite tenant id) db = (revoke_invite env tenant id db).1
serve env (accepts_invite token name password) db = (accept_invite env token name password db).1
serve env (sets_up_totp id) db = (setup_totp_for_user env id db).1
serve env (confirms_totp id code) db = (verify_totp_for_user env id code db).1
serve env (disables_totp id password code) db = (disable_totp_for_user env id password code db).1
serve env (signs_in_with_totp email password code) db =
    (sign_in_with_totp env email password code db).1
serve env cleans_up db = cleanup_expired env db

unfoldable pub serve_all : List (Env × Request) → Db → Db
serve_all [] db = db
serve_all ((env, request) ∷ requests) db = serve_all requests (serve env request db)
