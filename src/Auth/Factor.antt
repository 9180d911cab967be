-- ===== src/Auth/Factor.antt =====
-- The requests of services/api/src/voyagent_api/auth_inhouse/totp.py change users only.
use voyagent.Prelude.{if_elim, Option-elim}
use voyagent.Prelude.Text.{Text}
use voyagent.Auth.Types.{User, Db, Env}
use voyagent.Auth.Repository.{find_by_email, find_user}
use voyagent.Auth.Service.{Call, password_matches}
use voyagent.Auth.Totp.{
  verify_totp_code, secret_of, armed_secret, setup_totp_for_user, verify_totp_for_user,
  disable_totp_for_user, sign_in_with_totp,
}
use voyagent.Auth.Kept.{Invariant, Holds}

module _ (I : Invariant) (env : Env) where
  pub setup-Holds : (id : Text) (db : Db) → Holds I db → Holds I (setup_totp_for_user env id db).1
  unfolding setup_totp_for_user
  setup-Holds id db h =
      Option-elim (find_user id db) (λ (r : Call Text). Holds I r.1) (λ unknown. h)
        (λ user found. h)

  pub confirm-Holds :
      (id code : Text) (db : Db) → Holds I db → Holds I (verify_totp_for_user env id code db).1
  unfolding verify_totp_for_user
  confirm-Holds id code db h =
      Option-elim (find_user id db) (λ (r : Call Unit). Holds I r.1) (λ unknown. h)
        (λ user found.
          Option-elim (secret_of user) (λ (r : Call Unit). Holds I r.1) (λ missing. h)
            (λ secret set.
              if_elim user.totp_enabled (λ (r : Call Unit). Holds I r.1) (λ on. h)
                (λ off.
                  if_elim (verify_totp_code env secret code) (λ (r : Call Unit). Holds I r.1)
                    (λ right. h) (λ wrong. h))))

  pub disable-Holds :
      (id password code : Text) (db : Db)
      → Holds I db
      → Holds I (disable_totp_for_user env id password code db).1
  unfolding disable_totp_for_user
  disable-Holds id password code db h =
      Option-elim (find_user id db) (λ (r : Call Unit). Holds I r.1) (λ unknown. h)
        (λ user found.
          Option-elim user.password_hash (λ (r : Call Unit). Holds I r.1) (λ missing. h)
            (λ hash set.
              if_elim (env.verify_password hash password) (λ (r : Call Unit). Holds I r.1)
                (λ right.
                  Option-elim (armed_secret user) (λ (r : Call Unit). Holds I r.1) (λ off. h)
                    (λ secret on.
                      if_elim (verify_totp_code env secret code) (λ (r : Call Unit). Holds I r.1)
                        (λ fits. h) (λ fails. h)))
                (λ wrong. h)))

  pub sign_in_with-Holds :
      (email password code : Text) (db : Db)
      → Holds I db
      → Holds I (sign_in_with_totp env email password code db).1
  unfolding sign_in_with_totp
  sign_in_with-Holds email password code db h =
      Option-elim (find_by_email env email db) (λ (r : Call User). Holds I r.1) (λ unknown. h)
        (λ user found.
          if_elim (password_matches env user password) (λ (r : Call User). Holds I r.1)
            (λ right.
              if_elim user.email_verified (λ (r : Call User). Holds I r.1)
                (λ verified.
                  Option-elim (armed_secret user) (λ (r : Call User). Holds I r.1) (λ off. h)
                    (λ secret on.
                      if_elim (verify_totp_code env secret code) (λ (r : Call User). Holds I r.1)
                        (λ fits. h) (λ fails. h)))
                (λ unverified. h))
            (λ wrong. h))
