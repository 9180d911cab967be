-- ===== src/Approvals/Endpoints.antt =====
-- The endpoints of services/api/src/voyagent_api/approvals.py, on schemas/storage/session.py. Ids are
-- texts, times are seconds. An endpoint returns its answer with the database as it leaves it, since
-- some commit before they raise.
use voyagent.Prelude.{
  ℕ, Bool, true, false, ◌&&◌, Option, none, some, List, [], ◌∷◌, ◌++◌, if◌then◌else◌, leb, length,
  filter, take, drop,
}
use voyagent.Prelude.Text.{Text, codes, eq_text}
use voyagent.Prelude.Tables.{find_where, update_where, order_desc}
use voyagent.Enquiries.Types.{Principal, HttpError, Answer, ok, error}

pub data ApprovalStatusEnum : Type 0 where
  pending granted rejected expired : ApprovalStatusEnum

-- The payload, JSON that is only passed on, is left out.
pub record PendingApprovalRow : Type 0 where
  pub id : Text
  pub session_id : Text
  pub tool_name : Text
  pub summary : Text
  pub requested_at : ℕ
  pub expires_at : Option ℕ
  pub status : ApprovalStatusEnum
  pub granted : Option Bool
  pub resolved_at : Option ℕ
  pub resolved_by_user_id : Option Text

pub record SessionRow : Type 0 where
  pub id : Text
  pub tenant_id : Text

pub record AuditEventRow : Type 0 where
  pub tenant_id : Text
  pub actor_id : Option Text
  pub tool : Text
  pub approval_id : Text
  pub session_id : Text
  pub tool_name : Text
  pub reason : Option Text
  pub started_at : ℕ

pub record Db : Type 0 where
  pub approvals : List PendingApprovalRow
  pub sessions : List SessionRow
  pub audit_events : List AuditEventRow

-- The clock, UUIDs, and whether the insert of an audit event fails.
pub record Env : Type 0 where
  pub now : ℕ
  pub parse_uuid : Text → Option Text
  pub audit_fails : Bool

abbrev pub http_error : ℕ → Text → HttpError
http_error status_code detail = record { status_code = status_code; detail = detail }

-- `in _RESOLVED_STATUSES`
abbrev pub is_resolved : ApprovalStatusEnum → Bool
is_resolved pending = false
is_resolved granted = true
is_resolved rejected = true
is_resolved expired = true

abbrev pub eq_status : ApprovalStatusEnum → ApprovalStatusEnum → Bool
eq_status pending pending = true
eq_status granted granted = true
eq_status rejected rejected = true
eq_status expired expired = true
eq_status _ _ = false

-- The session that the join finds for an approval.
abbrev pub session_of : Db → PendingApprovalRow → Option SessionRow
session_of db row = find_where (λ s. eq_text s.id row.session_id) db.sessions

-- `SessionRow.tenant_id == tenant_uuid` in the join.
abbrev pub is_of_tenant : Db → Text → PendingApprovalRow → Bool
is_of_tenant db tenant row = elim (session_of db row) [
  | none ↦ false
  | some s ↦ eq_text s.tenant_id tenant
]

-- `expires_at <= now`, not true of NULL.
abbrev pub is_past : ℕ → PendingApprovalRow → Bool
is_past now row = elim row.expires_at [ none ↦ false | some at ↦ leb at now ]

abbrev pub is_stale : Db → Text → ℕ → PendingApprovalRow → Bool
is_stale db tenant now row =
    eq_status row.status pending && is_past now row && is_of_tenant db tenant row

abbrev pub expired_row : PendingApprovalRow → PendingApprovalRow
expired_row row = record row { status = expired }

unfoldable pub sweep_expired : ℕ → Text → Db → Db
sweep_expired now tenant db = record db {
  approvals = update_where (is_stale db tenant now) expired_row db.approvals;
}

unfoldable pub parse_session_id : Env → Option Text → Answer (Option Text)
parse_session_id env none = ok none
parse_session_id env (some raw) = elim (env.parse_uuid raw) [
  | none ↦ error (http_error 422 (codes "invalid_session_id"))
  | some id ↦ ok (some id)
]

pub record Query : Type 0 where
  pub status : Option ApprovalStatusEnum
  pub session_id : Option Text
  pub limit : ℕ
  pub offset : ℕ

pub record ApprovalListResponse : Type 0 where
  pub items : List PendingApprovalRow
  pub total : ℕ
  pub limit : ℕ
  pub offset : ℕ

-- A condition that is added only if it is given.
abbrev pub when_given : {A : Type 0} → Option A → (A → Bool) → Bool
when_given none test = true
when_given (some a) test = test a

abbrev pub is_listed :
    Db → Text → Option ApprovalStatusEnum → Option Text → PendingApprovalRow → Bool
is_listed db tenant status session row =
    is_of_tenant db tenant row
    && when_given status (λ s. eq_status row.status s)
    && when_given session (λ id. eq_text row.session_id id)

-- The response to a list, of the database after the sweep.
abbrev pub page : Text → Option Text → Query → Db → ApprovalListResponse
page tenant session query db = record {
  items = take query.limit (
      drop query.offset (
        order_desc (λ r. r.requested_at)
          (filter (is_listed db tenant query.status session) db.approvals)));
  total = length (filter (is_listed db tenant query.status session) db.approvals);
  limit = query.limit;
  offset = query.offset;
}

abbrev pub unauthorized : HttpError
unauthorized = http_error 401 (codes "unauthorized")

unfoldable pub list_approvals : Env → Principal → Query → Db → Answer ApprovalListResponse × Db
list_approvals env principal query db = elim (env.parse_uuid principal.tenant_id) [
  | none ↦ (error unauthorized, db)
  | some tenant ↦ elim (parse_session_id env query.session_id) [
    | error e ↦ (error e, db)
    | ok session ↦ (
      ok (page tenant session query (sweep_expired env.now tenant db)),
      sweep_expired env.now tenant db,
    )
  ]
]

abbrev pub not_found : HttpError
not_found = http_error 404 (codes "approval_not_found")

unfoldable pub get_approval : Env → Principal → Text → Db → Answer PendingApprovalRow
get_approval env principal approval_id db = elim (env.parse_uuid principal.tenant_id) [
  | none ↦ error unauthorized
  | some tenant ↦
      elim (find_where (λ r. eq_text r.id approval_id && is_of_tenant db tenant r) db.approvals) [
        | none ↦ error not_found
        | some row ↦ ok row
      ]
]

-- The one row with an id, as its columns are committed.
abbrev pub save : Text → (PendingApprovalRow → PendingApprovalRow) → Db → Db
save id f db = record db { approvals = update_where (λ r. eq_text r.id id) f db.approvals }

abbrev pub resolved_row : Env → Principal → Bool → PendingApprovalRow → PendingApprovalRow
resolved_row env principal answer row = record row {
  granted = some answer;
  resolved_at = some env.now;
  resolved_by_user_id = env.parse_uuid principal.user_id;
  status = if answer then granted else rejected;
}

-- `_write_approval_audit`, with the `try` round it.
unfoldable pub write_approval_audit :
    Env → Text → Principal → PendingApprovalRow → Bool → Option Text → Db → Db
write_approval_audit env tenant principal row answer reason db =
    if env.audit_fails then db else record db {
      audit_events =
          db.audit_events
          ++ (record {
            tenant_id = tenant;
            actor_id = env.parse_uuid principal.user_id;
            tool = codes (if answer then "approval.granted" else "approval.rejected");
            approval_id = row.id;
            session_id = row.session_id;
            tool_name = row.tool_name;
            reason = reason;
            started_at = env.now;
          }
              ∷ []);
    }

abbrev pub already_resolved : HttpError
already_resolved = http_error 409 (codes "approval_already_resolved")

-- `resolve_approval_endpoint`
unfoldable pub resolve_approval_endpoint :
    Env → Principal → Text → Bool → Option Text → Db → Answer PendingApprovalRow × Db
resolve_approval_endpoint env principal approval_id answer reason db =
    elim (env.parse_uuid principal.tenant_id) [
      | none ↦ (error unauthorized, db)
      | some tenant ↦ elim (find_where (λ r. eq_text r.id approval_id) db.approvals) [
        | none ↦ (error not_found, db)
        | some row ↦
            if is_of_tenant db tenant row
            then (if is_resolved row.status
                then (error already_resolved, db)
                else if is_past env.now row
                then (error already_resolved, save row.id expired_row db)
                else (
                  ok (resolved_row env principal answer row),
                  write_approval_audit env tenant principal row answer reason
                      (save row.id (resolved_row env principal answer) db),
                ))
            else (error not_found, db)
      ]
    ]

-- A request, and the database after it.
pub data Request : Type 0 where
  lists : Principal → Query → Request
  resolves : Principal → Text → Bool → Option Text → Request

unfoldable pub serve : Env → Request → Db → Db
serve env (lists principal query) db = (list_approvals env principal query db).1
serve env (resolves principal approval_id answer reason) db =
    (resolve_approval_endpoint env principal approval_id answer reason db).1

unfoldable pub serve_all : List (Env × Request) → Db → Db
serve_all [] db = db
serve_all ((env, request) ∷ requests) db = serve_all requests (serve env request db)
