-- ===== src/Enquiries/Valid.antt =====
-- What the checks of services/api/src/voyagent_api/enquiries.py let through.

use voyagent.Prelude.{
  ℕ, ◌≤◌, ◌≡◌, refl, sym, Bool, true, false, not, ◌&&◌, Option, none, some, [], ◌∷◌, if◌then◌else◌,
  All, ◌==◌, length, arith,
}
use voyagent.Prelude.Text.{Text}
use voyagent.Prelude.Dict.{or_else, none≢some}
use voyagent.Prelude.Int.{ℤ, pos, ◌≤ℤ◌}
use voyagent.Enquiries.Types.{EnquiryRow, HttpError}
use voyagent.Enquiries.Validation.{
  some_of, is_upper_char, is_lower_char, is_ascii, is_alpha, validate_currency, validate_date_range,
  validate_pax,
}
use voyagent.Enquiries.Endpoints.{validate}

-- Three upper-case letters.
abbrev pub IsCurrency : Option Text → Type 0
IsCurrency none = Unit
IsCurrency (some code) = (length code ≡ 3) × All (λ c. (65 ≤ c) × (c ≤ 90)) code

abbrev pub InOrder : Option ℕ → Option ℕ → Type 0
InOrder (some depart) (some return) = depart ≤ return
InOrder _ _ = Unit

abbrev pub IsValid : EnquiryRow → Type 0
IsValid row =
    IsCurrency row.budget_currency
    × (InOrder row.depart_date row.return_date × (pos 1 ≤ℤ row.pax_count))

All-upper :
    (s : Text)
    → some_of is_lower_char s ≡ false
    → is_alpha s ≡ true
    → All (λ c. (65 ≤ c) × (c ≤ 90)) s
All-upper [] lower alpha = tt
All-upper (c ∷ s) lower alpha =
    let (l, ls) = split_lower (is_lower_char c) (some_of is_lower_char s) lower in
    let (a, as') = split_alpha (is_upper_char c) (is_lower_char c) (is_alpha s) l alpha in
    (upper_bounds c a, All-upper s ls as')
  where
    split_lower : (x y : Bool) → (if x then true else y) ≡ false → (x ≡ false) × (y ≡ false)
    split_lower x y h = ground arith

    split_alpha :
        (u l r : Bool) → l ≡ false → ((if u then true else l) && r) ≡ true → (u ≡ true) × (r ≡ true)
    split_alpha u l r e h = ground arith

    upper_bounds : (c : ℕ) → is_upper_char c ≡ true → (65 ≤ c) × (c ≤ 90)
    upper_bounds c h = ground arith

validate_currency_sound :
    (currency : Option Text) → validate_currency currency ≡ none → IsCurrency currency
unfolding validate_currency
validate_currency_sound none h = tt
validate_currency_sound (some code) h =
    let (three, lower, alpha) =
      parts (length code) (is_ascii code) (some_of is_upper_char code) (some_of is_lower_char code)
        (is_alpha code) _ h in
    (three, All-upper code lower alpha)
  where
    parts :
        (n : ℕ) (ascii upper lower alpha : Bool) (e : HttpError)
        → (if n == 3 && ascii && (upper && not lower) && alpha then none else some e) ≡ none
        → (n ≡ 3) × (lower ≡ false) × (alpha ≡ true)
    parts n ascii upper lower alpha e h = ground arith

validate_date_range_sound :
    (depart return : Option ℕ) → validate_date_range depart return ≡ none → InOrder depart return
unfolding validate_date_range
validate_date_range_sound none return h = tt
validate_date_range_sound (some depart) none h = tt
validate_date_range_sound (some depart) (some return) h = ground arith

validate_pax_sound : (pax : ℤ) → validate_pax (some pax) ≡ none → pos 1 ≤ℤ pax
unfolding validate_pax
validate_pax_sound pax h = ground arith

or_else-none : {A : Type 0} (o o' : Option A) → or_else o o' ≡ none → (o ≡ none) × (o' ≡ none)
or_else-none none o' h = (refl, h)
or_else-none (some a) o' h = absurd (none≢some a (sym h))

pub validate_sound :
    (currency : Option Text) (depart return : Option ℕ) (pax : ℤ)
    → validate currency depart return (some pax) ≡ none
    → IsCurrency currency × (InOrder depart return × (pos 1 ≤ℤ pax))
validate_sound currency depart return pax h =
    let (c, rest) = or_else-none (validate_currency currency) _ h in
    let (d, p) = or_else-none (validate_date_range depart return) (validate_pax (some pax)) rest in
    (
      validate_currency_sound currency c,
      (validate_date_range_sound depart return d, validate_pax_sound pax p),
    )
