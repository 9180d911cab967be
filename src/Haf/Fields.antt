-- ===== src/Haf/Fields.antt =====
-- The fields of a HAF record: the helpers of drivers/bsp_india/haf_parser.py. Errors keep the line,
-- the field and the kind of the message. Strings are ASCII where the source strips or asks for digits.
use voyagent.Prelude.{
  ℕ, zero, suc, ◌+◌, ◌-◌, ◌*◌, ◌/◌, ◌%◌, Bool, true, false, not, ◌&&◌, ◌||◌, Option, none, some, [],
  ◌∷◌, reverse, if◌then◌else◌, leb, ◌==◌, length, take, drop,
}
use voyagent.Prelude.Int.{ℤ, pos, negsuc}
use voyagent.Prelude.Text.{Text, codes, is_empty, eq_text}
use voyagent.Bsp.{is_digit}
use voyagent.Haf.Airlines.{matches_airline_code, is_known_iata_airline}

pub data FieldError : Type 0 where
  past_end empty_integer not_integer : FieldError
  not_airline_code unknown_airline : FieldError
  not_yyyymmdd invalid_date : FieldError
  magnitude_not_digits bad_sign : FieldError

pub data ParseError : Type 0 where
  not_utf8 : ParseError
  bad_length : ℕ → ℕ → ParseError
  bad_field : ℕ → Text → FieldError → ParseError
  duplicate_header : ℕ → ParseError
  duplicate_trailer : ℕ → ParseError
  missing_header missing_trailer : ParseError

pub data Parsed {ℓ} (A : Type ℓ) : Type ℓ where
  ok : A → Parsed A
  err : ParseError → Parsed A

infixl 5 ◌>>=◌
abbrev pub ◌>>=◌ {ℓ κ} : {A : Type ℓ} {B : Type κ} → Parsed A → (A → Parsed B) → Parsed B
ok a >>= f = f a
err e >>= f = err e

-- `str.lstrip`, `str.rstrip`, `str.strip`.
abbrev pub is_space : ℕ → Bool
is_space c = (leb 9 c && leb c 13) || (leb 28 c && leb c 32)

abbrev pub lstrip : Text → Text
lstrip [] = []
lstrip (c ∷ cs) = let rest = lstrip cs in if is_space c then rest else c ∷ cs

abbrev pub rstrip : Text → Text
rstrip s = reverse (lstrip (reverse s))

abbrev pub strip : Text → Text
strip s = rstrip (lstrip s)

abbrev pub line_length : ℕ
line_length = 200

-- `_slice`
unfoldable pub slice : ℕ → Text → Text → ℕ → ℕ → Parsed Text
slice line_number field line start size =
    if leb (start + size) (length line)
    then ok (take size (drop start line))
    else err (bad_field line_number field past_end)

-- Decimal digits, and the digits of `int(s)`, which may hold single underscores between them.
abbrev pub all_digits : Text → Bool
all_digits [] = true
all_digits (c ∷ cs) = is_digit c && all_digits cs

abbrev pub number_from : ℕ → Text → ℕ
number_from n [] = n
number_from n (c ∷ cs) = number_from (n * 10 + (c - 48)) cs

abbrev pub int_digits : Bool → ℕ → Text → Option ℕ
int_digits after_digit n [] = if after_digit then some n else none
int_digits after_digit n (c ∷ cs) =
    let digit = int_digits true (n * 10 + (c - 48)) cs in
    let underscore = int_digits false n cs in
    if is_digit c then digit else if c == 95 && after_digit then underscore else none

abbrev pub negate : ℕ → ℤ
negate zero = pos 0
negate (suc n) = negsuc n

abbrev pub int_of : Text → Option ℤ
int_of [] = none
int_of (c ∷ cs) =
    if c == 45
    then (elim (int_digits false 0 cs) [ none ↦ none | some n ↦ some (negate n) ])
    else if c == 43
    then (elim (int_digits false 0 cs) [ none ↦ none | some n ↦ some (pos n) ])
    else (elim (int_digits false 0 (c ∷ cs)) [ none ↦ none | some n ↦ some (pos n) ])

-- `_parse_int`
unfoldable pub parse_int : ℕ → Text → Text → Parsed ℤ
parse_int line_number field raw =
    let s = strip raw in
    if is_empty s
    then err (bad_field line_number field empty_integer)
    else (elim (int_of s) [ none ↦ err (bad_field line_number field not_integer) | some n ↦ ok n ])

-- `_validate_airline_code`
unfoldable pub validate_airline_code : ℕ → Text → Text → Parsed Text
validate_airline_code line_number field raw =
    let code = strip raw in
    if not (matches_airline_code code)
    then err (bad_field line_number field not_airline_code)
    else if not (is_known_iata_airline code)
    then err (bad_field line_number field unknown_airline)
    else ok code

-- The calendar of `datetime.date`: a date as its ordinal.
abbrev pub is_leap : ℕ → Bool
is_leap y = (y % 4 == 0) && (not (y % 100 == 0) || (y % 400 == 0))

abbrev pub days_in_month : ℕ → ℕ → ℕ
days_in_month y m =
    if m == 2
    then (if is_leap y then 29 else 28)
    else if (m == 4 || m == 6) || (m == 9 || m == 11)
    then 30
    else 31

abbrev pub days_before_month : ℕ → ℕ → ℕ
days_before_month y zero = 0
days_before_month y (suc zero) = 0
days_before_month y (suc (suc m)) = days_before_month y (suc m) + days_in_month y (suc m)

unfoldable pub ordinal : ℕ → ℕ → ℕ → Option ℕ
ordinal y m d =
    let before = (y - 1) * 365 + (y - 1) / 4 - (y - 1) / 100 + (y - 1) / 400 in
    if (leb 1 y && leb 1 m) && (leb m 12 && (leb 1 d && leb d (days_in_month y m)))
    then some (before + days_before_month y m + d)
    else none

-- `_parse_date`
unfoldable pub parse_date : ℕ → Text → Text → Parsed ℕ
parse_date line_number field raw =
    let s = strip raw in
    if not (length s == 8 && all_digits s)
    then err (bad_field line_number field not_yyyymmdd)
    else (elim (ordinal (number_from 0 (take 4 s)) (number_from 0 (take 2 (drop 4 s)))
        (number_from 0 (drop 6 s))) [
          | none ↦ err (bad_field line_number field invalid_date)
          | some day ↦ ok day
        ])

-- `_parse_amount`, in hundredths: the magnitude has two implied decimals.
unfoldable pub parse_amount : ℕ → Text → Text → Text → Parsed ℤ
parse_amount line_number field magnitude_raw sign_raw =
    let magnitude = strip magnitude_raw in
    let sign = strip sign_raw in
    if is_empty magnitude || not (all_digits magnitude)
    then err (bad_field line_number field magnitude_not_digits)
    else if not (is_empty sign || (eq_text sign (codes "+") || eq_text sign (codes "-")))
    then err (bad_field line_number field bad_sign)
    else if eq_text sign (codes "-")
    then ok (negate (number_from 0 magnitude))
    else ok (pos (number_from 0 magnitude))
