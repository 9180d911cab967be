-- ===== src/Enquiries/Validation.antt =====
-- The checks of services/api/src/voyagent_api/enquiries.py: each is none, or the error it raises.
use voyagent.Prelude.{
  ℕ, Bool, true, false, not, ◌&&◌, Option, none, some, [], ◌∷◌, if◌then◌else◌, leb, ltb, ◌==◌,
  length,
}
use voyagent.Prelude.Text.{Text, codes}
use voyagent.Prelude.Int.{ℤ, pos, leb_ℤ}
use voyagent.Enquiries.Types.{
  EnquiryStatusEnum, new, quoted, booked, cancelled, Env, Principal, HttpError, Answer, ok, error,
}

abbrev pub http_error : ℕ → Text → HttpError
http_error status_code detail = record { status_code = status_code; detail = detail }

abbrev pub every : (ℕ → Bool) → Text → Bool
every test [] = true
every test (c ∷ s) = test c && every test s

abbrev pub some_of : (ℕ → Bool) → Text → Bool
some_of test [] = false
some_of test (c ∷ s) = let rest = some_of test s in if test c then true else rest

abbrev pub is_upper_char : ℕ → Bool
is_upper_char c = leb 65 c && leb c 90

abbrev pub is_lower_char : ℕ → Bool
is_lower_char c = leb 97 c && leb c 122

-- `isascii`, and `isupper` and `isalpha` as they are on ASCII strings that are not empty.
abbrev pub is_ascii : Text → Bool
is_ascii s = every (λ c. ltb c 128) s

abbrev pub is_upper : Text → Bool
is_upper s = some_of is_upper_char s && not (some_of is_lower_char s)

abbrev pub is_alpha : Text → Bool
is_alpha s = every (λ c. if is_upper_char c then true else is_lower_char c) s

unfoldable pub validate_currency : Option Text → Option HttpError
validate_currency none = none
validate_currency (some code) =
    if length code == 3 && is_ascii code && is_upper code && is_alpha code
    then none
    else some (http_error 400 (codes "invalid_currency"))

unfoldable pub validate_date_range : Option ℕ → Option ℕ → Option HttpError
validate_date_range (some depart) (some return) =
    if ltb return depart then some (http_error 400 (codes "invalid_date_range")) else none
validate_date_range _ _ = none

unfoldable pub validate_pax : Option ℤ → Option HttpError
validate_pax none = none
validate_pax (some pax) =
    if leb_ℤ (pos 1) pax then none else some (http_error 400 (codes "invalid_pax_count"))

-- `in _TERMINAL_STATUSES`
abbrev pub is_terminal : EnquiryStatusEnum → Bool
is_terminal booked = true
is_terminal cancelled = true
is_terminal new = false
is_terminal quoted = false

-- `in _OPEN_STATUSES`
abbrev pub is_open : EnquiryStatusEnum → Bool
is_open new = true
is_open quoted = true
is_open booked = false
is_open cancelled = false

unfoldable pub validate_status_transition : EnquiryStatusEnum → EnquiryStatusEnum → Option HttpError
validate_status_transition existing wanted =
    if is_terminal existing && is_open wanted
    then some (http_error 400 (codes "invalid_status_transition"))
    else none

unfoldable pub tenant_uuid : Env → Principal → Answer Text
tenant_uuid env principal = elim (env.parse_uuid principal.tenant_id) [
  | none ↦ error (http_error 401 (codes "unauthorized"))
  | some id ↦ ok id
]

unfoldable pub user_uuid : Env → Principal → Answer Text
user_uuid env principal = elim (env.parse_uuid principal.user_id) [
  | none ↦ error (http_error 401 (codes "unauthorized"))
  | some id ↦ ok id
]

unfoldable pub parse_enquiry_id : Env → Text → Answer Text
parse_enquiry_id env raw = elim (env.parse_uuid raw) [
  | none ↦ error (http_error 404 (codes "enquiry_not_found"))
  | some id ↦ ok id
]

unfoldable pub parse_session_id_or_none : Env → Option Text → Answer (Option Text)
parse_session_id_or_none env none = ok none
parse_session_id_or_none env (some raw) = elim (env.parse_uuid raw) [
  | none ↦ error (http_error 422 (codes "invalid_session_id"))
  | some id ↦ ok (some id)
]
