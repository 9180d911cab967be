-- ===== src/Approvals/Tests.antt =====
-- Three approvals of one tenant: granted in time, overdue, and asked for by another tenant.
use mathlib.Core.Bool.{false≢true}
use voyagent.Prelude.{ℕ, ◌≡◌, refl, true, false, none, some, List, [], ◌∷◌, All}
use voyagent.Prelude.Text.{Text, codes, eq_text_iff}
use voyagent.Enquiries.Types.{Principal, error}
use voyagent.Approvals.Endpoints.{
  ApprovalStatusEnum, pending, expired, PendingApprovalRow, Db, Env, Query, http_error,
  list_approvals, resolve_approval_endpoint, Request, resolves, serve_all,
}
use voyagent.Approvals.Decided.{IsRow, serve_all-IsRow}
use voyagent.Approvals.Answers.{ShowsCurrent, list_approvals-ShowsCurrent, Decided}

abbrev env_at : ℕ → Env
env_at now = record { now = now; parse_uuid = some; audit_fails = false }

abbrev ann : Principal
ann = record { tenant_id = codes "a"; user_id = codes "ann" }

abbrev eve : Principal
eve = record { tenant_id = codes "b"; user_id = codes "eve" }

abbrev approval : Text → ApprovalStatusEnum → PendingApprovalRow
approval id status = record {
  id = id;
  session_id = codes "s";
  tool_name = codes "book";
  summary = codes "Book it";
  requested_at = 100;
  expires_at = some 1_000;
  status = status;
  granted = none;
  resolved_at = none;
  resolved_by_user_id = none;
}

abbrev db : Db
db = record {
  approvals = approval (codes "p") pending ∷ approval (codes "x") expired ∷ [];
  sessions = record { id = codes "s"; tenant_id = codes "a" } ∷ [];
  audit_events = [];
}

abbrev requests : List (Env × Request)
requests =
    (env_at 500, resolves ann (codes "x") true none)
    ∷ (env_at 600, resolves ann (codes "p") true none)
    ∷ (env_at 700, resolves ann (codes "p") false none)
    ∷ []

other_tenant :
    (resolve_approval_endpoint (env_at 500) eve (codes "p") true none db).0
    ≡ error (http_error 404 (codes "approval_not_found"))
unfolding resolve_approval_endpoint
other_tenant = refl

too_late :
    (resolve_approval_endpoint (env_at 1_000) ann (codes "p") true none db).1.approvals
    ≡ approval (codes "p") expired ∷ approval (codes "x") expired ∷ []
unfolding resolve_approval_endpoint
too_late = refl

serve_all-IsRow_example :
    All (IsRow (codes "x") (approval (codes "x") expired)) (serve_all requests db).approvals
serve_all-IsRow_example =
    serve_all-IsRow (codes "x") (approval (codes "x") expired) refl requests db
      (λ e. absurd (false≢true ((eq_text_iff (codes "p") (codes "x")).1 e)), (λ e. refl, tt))

abbrev query : Query
query = record { status = some pending; session_id = none; limit = 50; offset = 0 }

list_approvals-ShowsCurrent_example :
    ShowsCurrent 2_000 (list_approvals (env_at 2_000) ann query db).0
list_approvals-ShowsCurrent_example = list_approvals-ShowsCurrent (env_at 2_000) ann query db
