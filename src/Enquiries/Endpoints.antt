-- ===== src/Enquiries/Endpoints.antt =====
-- The endpoints of services/api/src/voyagent_api/enquiries.py. One that raises commits nothing, so
-- the database of an answer is given only with a result.
use voyagent.Prelude.{
  ℕ, ◌+◌, ◌*◌, Bool, true, false, ◌&&◌, Option, none, some, List, [], ◌∷◌, ◌++◌, if◌then◌else◌, leb,
  ltb, length, filter, take, drop,
}
use voyagent.Prelude.Text.{Text, codes, eq_text, is_empty}
use voyagent.Prelude.Dict.{or_else}
use voyagent.Prelude.Tables.{find_where, update_where, order_desc}
use voyagent.Prelude.Int.{ℤ}
use voyagent.Enquiries.Types.{
  EnquiryStatusEnum, new, quoted, booked, cancelled, EnquiryRow, Db, EnquiryCreateRequest, Field,
  omitted, given, EnquiryPatchRequest, Query, EnquiryListResponse, Principal, Env, HttpError,
  Answer, ok, error,
}
use voyagent.Enquiries.Validation.{
  http_error, validate_currency, validate_date_range, validate_pax, validate_status_transition,
  tenant_uuid, user_uuid, parse_enquiry_id, parse_session_id_or_none,
}

abbrev pub and_then : {A B : Type 0} → Answer A → (A → Answer B) → Answer B
and_then (ok a) k = k a
and_then (error e) k = error e

-- A check before the rest.
abbrev pub unless : {A : Type 0} → Option HttpError → Answer A → Answer A
unless none rest = rest
unless (some e) rest = error e

-- The checks that a body and a patched row share, in their order.
abbrev pub validate : Option Text → Option ℕ → Option ℕ → Option ℤ → Option HttpError
validate currency depart return pax =
    or_else (validate_currency currency)
      (or_else (validate_date_range depart return) (validate_pax pax))

abbrev pub created_row : Env → Text → Text → EnquiryCreateRequest → Option Text → EnquiryRow
created_row env tenant user body session = record {
  id = env.new_enquiry_id;
  tenant_id = tenant;
  created_by_user_id = user;
  customer_name = body.customer_name;
  customer_email = body.customer_email;
  customer_phone = body.customer_phone;
  origin = body.origin;
  destination = body.destination;
  depart_date = body.depart_date;
  return_date = body.return_date;
  pax_count = body.pax_count;
  budget_amount = body.budget_amount;
  budget_currency = body.budget_currency;
  status = body.status;
  notes = body.notes;
  session_id = session;
  created_at = env.now;
}

unfoldable pub create_enquiry :
    Env → Principal → EnquiryCreateRequest → Db → Answer (EnquiryRow × Db)
create_enquiry env principal body db = and_then (tenant_uuid env principal) (λ tenant.
    and_then (user_uuid env principal) (λ user.
      unless (validate body.budget_currency body.depart_date body.return_date (some body.pax_count))
        (and_then (parse_session_id_or_none env body.session_id) (λ session. ok (
          created_row env tenant user body session,
          record db { enquiries = db.enquiries ++ (created_row env tenant user body session ∷ []) },
        )))))

-- The list. `when_given` is a condition that is added only with a value that Python takes as true.
abbrev pub when_given : {A : Type 0} → Option A → (A → Bool) → Bool
when_given none test = true
when_given (some a) test = test a

abbrev pub when_text : Option Text → (Text → Bool) → Bool
when_text none test = true
when_text (some s) test = if is_empty s then true else test s

-- A comparison with a NULL column is not true.
abbrev pub column : {A : Type 0} → Option A → (A → Bool) → Bool
column none test = false
column (some a) test = test a

abbrev pub eq_status : EnquiryStatusEnum → EnquiryStatusEnum → Bool
eq_status new new = true
eq_status quoted quoted = true
eq_status booked booked = true
eq_status cancelled cancelled = true
eq_status _ _ = false

-- `f"%{term}%"`
abbrev pub pattern : Text → Text
pattern term = 37 ∷ term ++ (37 ∷ [])

abbrev pub search_clause : Env → Text → EnquiryRow → Bool
search_clause env q r =
    if env.ilike (pattern q) r.customer_name
    then true
    else if column r.customer_email (env.ilike (pattern q))
    then true
    else if column r.customer_phone (env.ilike (pattern q))
    then true
    else if column r.origin (env.ilike (pattern q))
    then true
    else column r.destination (env.ilike (pattern q))

-- The microseconds of a day.
abbrev pub day_length : ℕ
day_length = 86_400_000_000

unfoldable pub is_listed : Env → Text → Query → EnquiryRow → Bool
is_listed env tenant query r =
    eq_text r.tenant_id tenant
    && when_given query.status (λ s. eq_status r.status s)
    && when_text query.customer_email (λ s. column r.customer_email (env.ilike (pattern s)))
    && when_text query.destination (λ s. column r.destination (env.ilike (pattern s)))
    && when_text query.origin (λ s. column r.origin (env.ilike (pattern s)))
    && when_given query.depart_from (λ d. column r.depart_date (λ depart. leb d depart))
    && when_given query.depart_to (λ d. column r.depart_date (λ depart. leb depart d))
    && when_given query.created_from (λ d. leb (d * day_length) r.created_at)
    && when_given query.created_to (λ d. ltb r.created_at (d * day_length + day_length))
    && when_text query.q (λ s. search_clause env s r)

-- `from is not None and to is not None and from > to`
abbrev pub inverted : Option ℕ → Option ℕ → Text → Option HttpError
inverted (some from) (some to) detail = if ltb to from then some (http_error 422 detail) else none
inverted _ _ detail = none

unfoldable pub list_enquiries : Env → Principal → Query → Db → Answer EnquiryListResponse
list_enquiries env principal query db = and_then (tenant_uuid env principal) (λ tenant.
    unless
      (or_else (inverted query.depart_from query.depart_to (codes "invalid_depart_range"))
        (inverted query.created_from query.created_to (codes "invalid_created_range")))
      (ok (record {
        items = take query.limit (
            drop query.offset
              (order_desc (λ r. r.created_at) (filter (is_listed env tenant query) db.enquiries)));
        total = length (filter (is_listed env tenant query) db.enquiries);
        limit = query.limit;
        offset = query.offset;
      })))

abbrev pub is_owned : Text → Text → EnquiryRow → Bool
is_owned id tenant r = eq_text r.id id && eq_text r.tenant_id tenant

unfoldable pub load_owned_enquiry : Text → Text → Db → Answer EnquiryRow
load_owned_enquiry id tenant db = elim (find_where (is_owned id tenant) db.enquiries) [
  | none ↦ error (http_error 404 (codes "enquiry_not_found"))
  | some row ↦ ok row
]

-- The row of the caller's tenant that a path names.
unfoldable pub owned : Env → Principal → Text → Db → Answer EnquiryRow
owned env principal raw db =
    and_then (tenant_uuid env principal)
      (λ tenant. and_then (parse_enquiry_id env raw) (λ id. load_owned_enquiry id tenant db))

unfoldable pub get_enquiry : Env → Principal → Text → Db → Answer EnquiryRow
get_enquiry env principal raw db = owned env principal raw db

-- `patch[name] if name in patch else row.name`
abbrev pub merged : {A : Type 0} → Field A → Option A → Option A
merged omitted old = old
merged (given v) old = v

-- The value of a column that is not null, with the error for an explicit null.
abbrev pub required : {A : Type 0} → Field A → A → Text → Answer A
required omitted old detail = ok old
required (given (some v)) old detail = ok v
required (given none) old detail = error (http_error 422 detail)

unfoldable pub patched_status :
    Field EnquiryStatusEnum → EnquiryStatusEnum → Answer EnquiryStatusEnum
patched_status omitted old = ok old
patched_status (given (some wanted)) old =
    unless (validate_status_transition old wanted) (ok wanted)
patched_status (given none) old = error (http_error 422 (codes "status_cannot_be_null"))

unfoldable pub patched_session : Env → Field Text → Option Text → Answer (Option Text)
patched_session env omitted old = ok old
patched_session env (given raw) old = parse_session_id_or_none env raw

unfoldable pub patched : Env → EnquiryPatchRequest → EnquiryRow → Answer EnquiryRow
patched env body row =
    unless
      (validate (merged body.budget_currency row.budget_currency)
        (merged body.depart_date row.depart_date) (merged body.return_date row.return_date)
        (merged body.pax_count (some row.pax_count)))
      (and_then (patched_status body.status row.status) (λ status.
        and_then
          (required body.customer_name row.customer_name (codes "customer_name_cannot_be_null"))
          (λ customer_name.
            and_then (required body.pax_count row.pax_count (codes "pax_count_cannot_be_null"))
              (λ pax_count.
                and_then (patched_session env body.session_id row.session_id) (λ session_id.
                  ok (record row {
                    customer_name = customer_name;
                    customer_email = merged body.customer_email row.customer_email;
                    customer_phone = merged body.customer_phone row.customer_phone;
                    origin = merged body.origin row.origin;
                    destination = merged body.destination row.destination;
                    depart_date = merged body.depart_date row.depart_date;
                    return_date = merged body.return_date row.return_date;
                    pax_count = pax_count;
                    budget_amount = merged body.budget_amount row.budget_amount;
                    budget_currency = merged body.budget_currency row.budget_currency;
                    status = status;
                    notes = merged body.notes row.notes;
                    session_id = session_id;
                  }))))))

-- The commit of a row that was loaded and changed.
abbrev pub save : EnquiryRow → Db → Db
save row db = record db {
  enquiries = update_where (is_owned row.id row.tenant_id) (λ old. row) db.enquiries;
}

unfoldable pub patch_enquiry :
    Env → Principal → Text → EnquiryPatchRequest → Db → Answer (EnquiryRow × Db)
patch_enquiry env principal raw body db =
    and_then (owned env principal raw db)
      (λ row. and_then (patched env body row) (λ row'. ok (row', save row' db)))

abbrev pub promoted : Env → EnquiryRow → EnquiryRow
promoted env row = record row { session_id = some env.new_session_id }

abbrev pub with_session : Env → Text → Text → Db → Db
with_session env tenant user db = record db {
  sessions =
      db.sessions ++ (record { id = env.new_session_id; tenant_id = tenant; actor_id = user } ∷ []);
}

-- Of the enquiry and the id of its session.
unfoldable pub promote_to_session : Env → Principal → Text → Db → Answer (EnquiryRow × Text × Db)
promote_to_session env principal raw db = and_then (tenant_uuid env principal) (λ tenant.
    and_then (user_uuid env principal) (λ user. and_then (parse_enquiry_id env raw) (λ id.
      and_then (load_owned_enquiry id tenant db) (λ row. elim row.session_id [
        | some session ↦ ok (row, session, db)
        | none ↦ ok (
          promoted env row,
          env.new_session_id,
          save (promoted env row) (with_session env tenant user db),
        )
      ]))))

-- A request of a caller that may change the database, and the database after it.
pub data Request : Type 0 where
  creates : Principal → EnquiryCreateRequest → Request
  patches : Principal → Text → EnquiryPatchRequest → Request
  promotes : Principal → Text → Request

abbrev pub left_by : {A : Type 0} → Answer (A × Db) → Db → Db
left_by (ok (a, db')) db = db'
left_by (error e) db = db

unfoldable pub serve : Env → Request → Db → Db
serve env (creates principal body) db = left_by (create_enquiry env principal body db) db
serve env (patches principal raw body) db = left_by (patch_enquiry env principal raw body db) db
serve env (promotes principal raw) db = elim (promote_to_session env principal raw db) [
  | ok (row, session, db') ↦ db'
  | error e ↦ db
]

unfoldable pub serve_all : List (Env × Request) → Db → Db
serve_all [] db = db
serve_all ((env, request) ∷ requests) db = serve_all requests (serve env request db)
