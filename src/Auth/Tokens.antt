-- ===== src/Auth/Tokens.antt =====
-- One-time tokens and revoked access tokens in memory:
-- services/api/src/voyagent_api/auth_inhouse/verification.py, tokens.py and deps.py, and
-- services/api/src/voyagent_api/revocation.py.
use voyagent.Prelude.{ℕ, ◌+◌, Bool, true, false, Option, none, some, if◌then◌else◌, leb, List}
use voyagent.Prelude.Text.{Text, codes, text_key, is_empty, contains}
use voyagent.Prelude.Dict.{Dict, lookup, insert, erase}
use voyagent.Auth.Types.{
  Tokens, Db, Env, AccessTokenPayload, AuthError, Outcome, ok, error, http_error,
}

-- `NullVerificationTokenStore.put`
unfoldable pub put_token : Env → Text → Text → ℕ → Tokens → Tokens
put_token env token user_id ttl tokens = insert token (user_id, env.now + ttl) tokens

-- `NullVerificationTokenStore.take`
unfoldable pub take_token : Env → Text → Tokens → Option Text × Tokens
take_token env token tokens = elim (lookup token tokens) [
  | none ↦ (none, tokens)
  | some entry ↦
      if leb entry.1 env.now then (none, erase token tokens) else (some entry.0, erase token tokens)
]

-- `NullRevocationList.revoke`
unfoldable pub revoke_access : Text → ℕ → Dict Text ℕ → Dict Text ℕ
revoke_access jti exp revoked = insert jti exp revoked

-- `NullRevocationList.is_revoked`
unfoldable pub is_revoked : Env → Text → Dict Text ℕ → Bool × Dict Text ℕ
is_revoked env jti revoked = elim (lookup jti revoked) [
  | none ↦ (false, revoked)
  | some exp ↦ if leb exp env.now then (false, erase jti revoked) else (true, revoked)
]

-- `issue_access_token`
unfoldable pub issue_access_token : Env → Text → Text → Text → Text → Text
issue_access_token env user_id tenant_id email role = env.sign (record {
  sub = user_id;
  tid = tenant_id;
  role = role;
  email = email;
  iat = env.now;
  exp = env.now + env.access_ttl_seconds;
  jti = env.new_jti;
})

pub record AuthenticatedPrincipal : Type 0 where
  pub user_id : Text
  pub tenant_id : Text
  pub email : Text
  pub role : Text
  pub jti : Text
  pub exp : ℕ

abbrev pub unauthorized : AuthError
unauthorized = http_error 401 (codes "unauthorized")

-- `_principal_from_token`, of a token that `verify_access_token` has decoded or refused.
unfoldable pub principal_from_token :
    Env → Option AccessTokenPayload → Db → Outcome AuthenticatedPrincipal × Db
principal_from_token env none db = (error unauthorized, db)
principal_from_token env (some payload) db =
    let (revoked, rest) = is_revoked env payload.jti db.revoked_access in
    let db' = record db { revoked_access = rest } in
    if revoked then (error unauthorized, db') else (
      ok (record {
        user_id = payload.sub;
        tenant_id = payload.tid;
        email = payload.email;
        role = if is_empty payload.role then codes "agent" else payload.role;
        jti = payload.jti;
        exp = payload.exp;
      }),
      db',
    )

-- `require_role`, of which `require_agency_admin` is the case of one role.
unfoldable pub require_role : List Text → AuthenticatedPrincipal → Outcome AuthenticatedPrincipal
require_role roles principal =
    if contains principal.role roles
    then ok principal
    else error (http_error 403 (codes "forbidden_role"))
