-- ===== src/Auth/Invites.antt =====
-- The invites of `AuthService` in services/api/src/voyagent_api/auth_inhouse/service.py.
use voyagent.Prelude.{none, some, if◌then◌else◌, leb}
use voyagent.Prelude.Text.{Text, codes, eq_text}
use voyagent.Auth.Types.{
  Tenant, User, pending, eq_status, InviteRow, Db, Env, email_already_registered,
  invite_already_exists, invite_not_found, invite_invalid_state, invalid_token, assertion_error,
  Outcome, ok, error, AuthResponse,
}
use voyagent.Auth.Repository.{
  find_by_email, find_user, find_tenant, create_user_in_existing_tenant, find_pending_for_email,
  new_invite, insert_invite, find_invite, find_by_token_hash, revoke_invite_row, mark_accepted,
}
use voyagent.Auth.Service.{Call, and_then, respond}

-- The summary is the row without its token's hash.
unfoldable pub create_invite : Env → Text → Text → Text → Text → Db → Call (InviteRow × Text)
create_invite env tenant_id invited_by email role db =
    elim (find_pending_for_email env tenant_id email db) [
      | some existing ↦ (error invite_already_exists, db)
      | none ↦
          let row = new_invite env tenant_id invited_by email role (env.sha256 env.new_token) in
          elim (insert_invite env row db) [
            | none ↦ (error invite_already_exists, db)
            | some db' ↦ (ok (row, env.new_token), db')
          ]
    ]

unfoldable pub revoke_invite : Env → Text → Text → Db → Call InviteRow
revoke_invite env tenant_id invite_id db = elim (find_invite invite_id db) [
  | none ↦ (error invite_not_found, db)
  | some row ↦
      if eq_text row.tenant_id tenant_id
      then (if eq_status row.status pending
          then (let db' = revoke_invite_row env invite_id db in
              elim (find_invite invite_id db') [
                | none ↦ (error assertion_error, db')
                | some updated ↦ (ok updated, db')
              ])
          else (error (invite_invalid_state (codes "invite_not_pending")), db))
      else (error invite_not_found, db)
]

-- The guards that `lookup_invite` and `accept_invite` share: the row of a token that can be used.
unfoldable pub usable_invite : Env → Text → Db → Outcome InviteRow
usable_invite env token db = elim (find_by_token_hash (env.sha256 token) db) [
  | none ↦ error invite_not_found
  | some row ↦
      if eq_status row.status pending
      then (if leb row.expires_at env.now
          then error (invite_invalid_state (codes "invite_expired"))
          else ok row)
      else error (invite_invalid_state (codes "invite_not_pending"))
]

unfoldable pub lookup_invite : Env → Text → Db → Outcome (InviteRow × Tenant × User)
lookup_invite env token db = elim (usable_invite env token db) [
  | error e ↦ error e
  | ok row ↦ elim (find_tenant row.tenant_id db) [
    | none ↦ error invite_not_found
    | some tenant ↦ elim (find_user row.invited_by_user_id db) [
      | none ↦ error invite_not_found
      | some inviter ↦ ok (row, tenant, inviter)
    ]
  ]
]

unfoldable pub accept_invite : Env → Text → Text → Text → Db → Call AuthResponse
accept_invite env token full_name password db = elim (usable_invite env token db) [
  | error e ↦ (error e, db)
  | ok row ↦ elim (find_by_email env row.email db) [
    | some existing ↦ (error (email_already_registered (codes "email_already_registered")), db)
    | none ↦
        and_then
          (create_user_in_existing_tenant env row.tenant_id row.email full_name
            (env.hash_password password) row.role db)
          (λ user made.
            let db' = mark_accepted env row.id made in
            elim (find_tenant row.tenant_id db') [
              | none ↦ (error (invalid_token (codes "tenant_not_found")), db')
              | some tenant ↦ respond env user tenant db'
            ])
  ]
]
