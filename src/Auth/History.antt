-- ===== src/Auth/History.antt =====
-- What any sequence of requests to services/api/src/voyagent_api/auth_inhouse keeps.
use voyagent.Prelude.{List, [], ◌∷◌, All}
use voyagent.Auth.Types.{Db, Env}
use voyagent.Auth.Requests.{
  Request, signs_up, signs_in, refreshes, signs_out, authenticates, asks_verification,
  verifies_email, updates_profile, asks_reset, resets_password, creates_invite, revokes_invite,
  accepts_invite, sets_up_totp, confirms_totp, disables_totp, signs_in_with_totp, cleans_up, serve,
  serve_all,
}
use voyagent.Auth.Kept.{Invariant, Holds, IsClosed, Admits}
use voyagent.Auth.Served.{
  cleanup-Holds, sign_out-Holds, principal-Holds, verify_email-Holds, reset_password-Holds,
  update_profile-Holds, revoke_invite-Holds,
}
use voyagent.Auth.Drawn.{
  sign_up-Holds, sign_in-Holds, refresh-Holds, send_verification-Holds, request_reset-Holds,
  create_invite-Holds, accept_invite-Holds,
}
use voyagent.Auth.Factor.{setup-Holds, confirm-Holds, disable-Holds, sign_in_with-Holds}

module _ (I : Invariant) (c : IsClosed I) where
  serve-Holds :
      (env : Env) (request : Request) (db : Db)
      → Admits I env
      → Holds I db
      → Holds I (serve env request db)
  unfolding serve
  serve-Holds env (signs_up email name password agency) db a h =
      sign_up-Holds I c env a email name password agency db h
  serve-Holds env (signs_in email password) db a h = sign_in-Holds I c env a email password db h
  serve-Holds env (refreshes token) db a h = refresh-Holds I c env a token db h
  serve-Holds env (signs_out payload token) db a h = sign_out-Holds I c env payload token db h
  serve-Holds env (authenticates payload) db a h = principal-Holds I c env payload db h
  serve-Holds env (asks_verification payload) db a h =
      send_verification-Holds I c env a payload db h
  serve-Holds env (verifies_email token) db a h = verify_email-Holds I c env token db h
  serve-Holds env (updates_profile id name email) db a h =
      update_profile-Holds I c env id name email db h
  serve-Holds env (asks_reset email) db a h = request_reset-Holds I c env a email db h
  serve-Holds env (resets_password token password) db a h =
      reset_password-Holds I c env token password db h
  serve-Holds env (creates_invite tenant by email role) db a h =
      create_invite-Holds I c env a tenant by email role db h
  serve-Holds env (revokes_invite tenant id) db a h = revoke_invite-Holds I c env tenant id db h
  serve-Holds env (accepts_invite token name password) db a h =
      accept_invite-Holds I c env a token name password db h
  serve-Holds env (sets_up_totp id) db a h = setup-Holds I env id db h
  serve-Holds env (confirms_totp id code) db a h = confirm-Holds I env id code db h
  serve-Holds env (disables_totp id password code) db a h =
      disable-Holds I env id password code db h
  serve-Holds env (signs_in_with_totp email password code) db a h =
      sign_in_with-Holds I env email password code db h
  serve-Holds env cleans_up db a h = cleanup-Holds I c env db h

  pub serve_all-Holds :
      (requests : List (Env × Request)) (db : Db)
      → All (λ s. Admits I s.0) requests
      → Holds I db
      → Holds I (serve_all requests db)
  unfolding serve_all
  serve_all-Holds [] db a h = h
  serve_all-Holds ((env, request) ∷ requests) db (a, rest) h =
      serve_all-Holds requests (serve env request db) rest (serve-Holds env request db a h)
