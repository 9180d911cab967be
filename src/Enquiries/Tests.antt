-- ===== src/Enquiries/Tests.antt =====
-- Two tenants: one's enquiry is booked and cannot be reopened, is promoted twice and listed.
use mathlib.Core.Bool.{true≢false}
use voyagent.Prelude.{◌↔◌, ap, ℕ, ◌≡◌, ◌≢◌, refl, true, none, some, List, [], ◌∷◌, All, arith}
use voyagent.Prelude.Text.{Text, codes, eq_text}
use voyagent.Prelude.Int.{pos}
use voyagent.Enquiries.Types.{
  new, booked, EnquiryRow, Db, omitted, given, EnquiryPatchRequest, Query, Principal, Env, Answer,
  ok, error,
}
use voyagent.Enquiries.Validation.{
  http_error, validate_currency, validate_date_range, validate_pax, validate_status_transition,
  tenant_uuid, user_uuid, parse_enquiry_id,
}
use voyagent.Enquiries.Endpoints.{
  load_owned_enquiry, owned, patched_status, patched, patch_enquiry, promote_to_session, Request,
  patches, promotes, serve, serve_all, list_enquiries, promoted, save, with_session,
}
use voyagent.Enquiries.Valid.{IsValid, IsCurrency}
use voyagent.Enquiries.Rules.{serve_all-IsValid, IsClosed, serve_all-IsClosed}
use voyagent.Enquiries.Tenants.{rows_of, serve-rows_of}
use voyagent.Enquiries.Endpoints.{is_listed}
use voyagent.Enquiries.Pages.{Page, Fits, list_enquiries-Page}
use voyagent.Enquiries.Promotion.{afterwards, promote_to_session_again}

abbrev env : Env
env = record {
  now = 1_000;
  parse_uuid = some;
  ilike = λ pattern s. true;
  new_enquiry_id = codes "e9";
  new_session_id = codes "s9";
}

abbrev ann : Principal
ann = record { tenant_id = codes "a"; user_id = codes "ann" }

abbrev row : Text → Text → ℕ → EnquiryRow
row id tenant created_at = record {
  id = id;
  tenant_id = tenant;
  created_by_user_id = codes "ann";
  customer_name = codes "Rao";
  customer_email = none;
  customer_phone = none;
  origin = some (codes "BOM");
  destination = some (codes "DXB");
  depart_date = some 10;
  return_date = some 12;
  pax_count = pos 2;
  budget_amount = none;
  budget_currency = some (codes "INR");
  status = booked;
  notes = none;
  session_id = none;
  created_at = created_at;
}

abbrev db : Db
db = record {
  enquiries = row (codes "e1") (codes "a") 100 ∷ row (codes "e2") (codes "b") 200 ∷ [];
  sessions = [];
}

abbrev reopens : EnquiryPatchRequest
reopens = record {
  customer_name = omitted;
  customer_email = omitted;
  customer_phone = omitted;
  origin = omitted;
  destination = omitted;
  depart_date = omitted;
  return_date = given none;
  pax_count = omitted;
  budget_amount = omitted;
  budget_currency = omitted;
  status = given (some new);
  notes = omitted;
  session_id = omitted;
}

abbrev requests : List (Env × Request)
requests = (env, patches ann (codes "e1") reopens) ∷ (env, promotes ann (codes "e1")) ∷ []

refused :
    patch_enquiry env ann (codes "e1") reopens db
    ≡ error (http_error 400 (codes "invalid_status_transition"))
unfolding patch_enquiry owned tenant_uuid parse_enquiry_id load_owned_enquiry patched
    validate_currency validate_date_range validate_pax patched_status validate_status_transition
refused = refl

serve_all-IsValid_example : All IsValid (serve_all requests db).enquiries
serve_all-IsValid_example =
    serve_all-IsValid requests db
      ((currency, (omega arith, omega arith)), ((currency, (omega arith, omega arith)), tt))
  where
    currency : IsCurrency (some (codes "INR"))
    currency = (
      refl,
      ((omega arith, omega arith), ((omega arith, omega arith), ((omega arith, omega arith), tt))),
    )

serve_all-IsClosed_example : All (IsClosed (codes "e1")) (serve_all requests db).enquiries
serve_all-IsClosed_example =
    serve_all-IsClosed (codes "e1") requests db (λ e. cc, (λ e. cc, tt))
      (λ e. refl, (λ e. refl, tt))

ann_not_of_b : tenant_uuid env ann ≢ ok (codes "b")
unfolding tenant_uuid
ann_not_of_b e =
    true≢false
      (ap (λ (a : Answer Text). elim a [ ok t ↦ eq_text t (codes "a") | error x ↦ true ]) e)

serve-rows_of_example :
    rows_of (codes "b") (serve env (promotes ann (codes "e1")) db) ≡ rows_of (codes "b") db
serve-rows_of_example = serve-rows_of env (promotes ann (codes "e1")) db (codes "b") ann_not_of_b

abbrev query : Query
query = record {
  status = some booked;
  limit = 50;
  offset = 0;
  q = none;
  customer_email = none;
  destination = some (codes "D");
  origin = none;
  depart_from = some 5;
  depart_to = none;
  created_from = none;
  created_to = none;
}

ann_of_a : tenant_uuid env ann ≡ ok (codes "a")
unfolding tenant_uuid
ann_of_a = refl

list_enquiries-Page_example :
    Page env (codes "a") query db (list_enquiries env ann query db)
    × ((r : EnquiryRow) → (is_listed env (codes "a") query r ≡ true) ↔ Fits env (codes "a") query r)
list_enquiries-Page_example = list_enquiries-Page env ann query db (codes "a") ann_of_a

abbrev first : EnquiryRow × Text × Db
first = (
  promoted env (row (codes "e1") (codes "a") 100),
  codes "s9",
  save (promoted env (row (codes "e1") (codes "a") 100))
      (with_session env (codes "a") (codes "ann") db),
)

first_promotion : promote_to_session env ann (codes "e1") db ≡ ok first
unfolding promote_to_session tenant_uuid user_uuid parse_enquiry_id load_owned_enquiry
first_promotion = refl

promote_to_session_again_example :
    promote_to_session (afterwards env 2_000 (codes "s10")) ann (codes "e1") first.2 ≡ ok first
promote_to_session_again_example =
    promote_to_session_again env ann (codes "e1") db 2_000 (codes "s10") first first_promotion
