-- ===== src/Enquiries/Types.antt =====
-- The rows, bodies and filters of services/api/src/voyagent_api/enquiries.py, on
-- schemas/storage/enquiry.py. Ids are texts, dates are days, `created_at` counts microseconds.
use voyagent.Prelude.{ℕ, Bool, Option, List}
use voyagent.Prelude.Text.{Text}
use voyagent.Prelude.Int.{ℤ}

pub data EnquiryStatusEnum : Type 0 where
  new quoted booked cancelled : EnquiryStatusEnum

pub record EnquiryRow : Type 0 where
  pub id : Text
  pub tenant_id : Text
  pub created_by_user_id : Text
  pub customer_name : Text
  pub customer_email : Option Text
  pub customer_phone : Option Text
  pub origin : Option Text
  pub destination : Option Text
  pub depart_date : Option ℕ
  pub return_date : Option ℕ
  pub pax_count : ℤ
  pub budget_amount : Option ℤ
  pub budget_currency : Option Text
  pub status : EnquiryStatusEnum
  pub notes : Option Text
  pub session_id : Option Text
  pub created_at : ℕ

-- A row of `sessions` that a promotion mints.
pub record SessionRow : Type 0 where
  pub id : Text
  pub tenant_id : Text
  pub actor_id : Text

pub record Db : Type 0 where
  pub enquiries : List EnquiryRow
  pub sessions : List SessionRow

pub record EnquiryCreateRequest : Type 0 where
  pub customer_name : Text
  pub customer_email : Option Text
  pub customer_phone : Option Text
  pub origin : Option Text
  pub destination : Option Text
  pub depart_date : Option ℕ
  pub return_date : Option ℕ
  pub pax_count : ℤ
  pub budget_amount : Option ℤ
  pub budget_currency : Option Text
  pub status : EnquiryStatusEnum
  pub notes : Option Text
  pub session_id : Option Text

-- A field of a PATCH body: not in it, or there with a value or null.
pub data Field (A : Type 0) : Type 0 where
  omitted : Field A
  given : Option A → Field A

pub record EnquiryPatchRequest : Type 0 where
  pub customer_name : Field Text
  pub customer_email : Field Text
  pub customer_phone : Field Text
  pub origin : Field Text
  pub destination : Field Text
  pub depart_date : Field ℕ
  pub return_date : Field ℕ
  pub pax_count : Field ℤ
  pub budget_amount : Field ℤ
  pub budget_currency : Field Text
  pub status : Field EnquiryStatusEnum
  pub notes : Field Text
  pub session_id : Field Text

-- The query of a list; `status` none is "all".
pub record Query : Type 0 where
  pub status : Option EnquiryStatusEnum
  pub limit : ℕ
  pub offset : ℕ
  pub q : Option Text
  pub customer_email : Option Text
  pub destination : Option Text
  pub origin : Option Text
  pub depart_from : Option ℕ
  pub depart_to : Option ℕ
  pub created_from : Option ℕ
  pub created_to : Option ℕ

pub record EnquiryListResponse : Type 0 where
  pub items : List EnquiryRow
  pub total : ℕ
  pub limit : ℕ
  pub offset : ℕ

-- What an access token says of the caller.
pub record Principal : Type 0 where
  pub tenant_id : Text
  pub user_id : Text

-- The clock, UUIDs and the database's ILIKE, and the ids that are drawn.
pub record Env : Type 0 where
  pub now : ℕ
  pub parse_uuid : Text → Option Text
  pub ilike : Text → Text → Bool
  pub new_enquiry_id : Text
  pub new_session_id : Text

-- An `HTTPException`: its status and its detail.
pub record HttpError : Type 0 where
  pub status_code : ℕ
  pub detail : Text

pub data Answer (A : Type 0) : Type 0 where
  ok : A → Answer A
  error : HttpError → Answer A
