-- ===== src/Reports/Sums.antt =====
-- The sums of an ageing report of services/api/src/voyagent_api/reports.py.
use voyagent.Prelude.{
  ℕ, ◌+◌, ◌≡◌, refl, sym, ap, ◌∙◌, Bool, true, false, Option, none, some, List, [], ◌∷◌,
  if◌then◌else◌, arith, Bool-cases, inl, inr, =?_iff, count_if, not,
}
use voyagent.Prelude.Text.{Text, eq_text, text_key}
use voyagent.Prelude.Dict.{Dict, lookup, insert, lookup-insert}
use voyagent.Prelude.Int.{
  ℤ, pos, ◌+ℤ◌, +ℤ_parts, eq_of_parts, +ℤ_assoc, +ℤ_zero_left, +ℤ_zero_right,
}
use voyagent.Reports.Aging.{
  Row, BucketName, days_0_30, days_31_60, days_61_90, days_90_on, AgingBucket, classify_bucket,
  Aging, nothing, outstanding, is_settled, add_to_bucket, value_at, add_row, add_rows, build_aging,
}

-- What is still open, over the rows that pass a test.
abbrev pub open_sum : (Row → Bool) → List Row → ℤ
open_sum p [] = pos 0
open_sum p (row ∷ rows) =
    let rest = open_sum p rows in
    if is_settled row then rest else (if p row then outstanding row +ℤ rest else rest)

abbrev pub any_row : Row → Bool
any_row row = true

-- All buckets together.
abbrev pub bucket_sum : List AgingBucket → ℤ
bucket_sum [] = pos 0
bucket_sum (b ∷ buckets) = b.amount.amount +ℤ bucket_sum buckets

abbrev pub bucket_count : List AgingBucket → ℕ
bucket_count [] = 0
bucket_count (b ∷ buckets) = b.count + bucket_count buckets

abbrev all_of : Aging → ℤ
all_of a = a.to_30.1 +ℤ (a.to_60.1 +ℤ (a.to_90.1 +ℤ (a.from_90.1 +ℤ pos 0)))

abbrev count_of : Aging → ℕ
count_of a = a.to_30.0 + (a.to_60.0 + (a.to_90.0 + (a.from_90.0 + 0)))

swap : (a b c : ℤ) → (a +ℤ b) +ℤ c ≡ (a +ℤ c) +ℤ b
swap a b c =
    eq_of_parts _ _
      (omega (arith, +ℤ_parts (a +ℤ b) c, +ℤ_parts a b, +ℤ_parts (a +ℤ c) b, +ℤ_parts a c))

into : (a b c : ℤ) → a +ℤ (b +ℤ c) ≡ (a +ℤ c) +ℤ b
into a b c = sym (+ℤ_assoc a b c) ∙ swap a b c

-- The buckets grow by the amount, and by one row.
add_to_bucket-all_of :
    (name : BucketName) (amount : ℤ) (a : Aging)
    → (all_of (add_to_bucket name amount a) ≡ all_of a +ℤ amount)
      × (count_of (add_to_bucket name amount a) ≡ count_of a + 1)
unfolding add_to_bucket
add_to_bucket-all_of days_0_30 amount a = (swap _ _ _, omega arith)
add_to_bucket-all_of days_31_60 amount a =
    (ap (λ x. a.to_30.1 +ℤ x) (swap _ _ _) ∙ sym (+ℤ_assoc _ _ _), omega arith)
add_to_bucket-all_of days_61_90 amount a = (
  ap (λ x. a.to_30.1 +ℤ (a.to_60.1 +ℤ x)) (swap _ _ _)
      ∙ ap (λ x. a.to_30.1 +ℤ x) (sym (+ℤ_assoc _ _ _))
      ∙ sym (+ℤ_assoc _ _ _),
  omega arith,
)
add_to_bucket-all_of days_90_on amount a = (
  ap (λ x. a.to_30.1 +ℤ (a.to_60.1 +ℤ (a.to_90.1 +ℤ x))) (swap _ _ _)
      ∙ ap (λ x. a.to_30.1 +ℤ (a.to_60.1 +ℤ x)) (sym (+ℤ_assoc _ _ _))
      ∙ ap (λ x. a.to_30.1 +ℤ x) (sym (+ℤ_assoc _ _ _))
      ∙ sym (+ℤ_assoc _ _ _),
  omega arith,
)

abbrev pub in_currency : Text → Row → Bool
in_currency currency row = eq_text row.currency currency

-- The total of a currency grows by the amount of a row in it, and no other does.
value_at-insert :
    (key other : Text) (amount : ℤ) (d : Dict Text ℤ)
    → value_at other (insert key (value_at key d +ℤ amount) d)
      ≡ (if eq_text key other then value_at other d +ℤ amount else value_at other d)
value_at-insert key other amount d =
    ap (λ (o : Option ℤ). elim o [ none ↦ pos 0 | some x ↦ x ])
      (lookup-insert key other (value_at key d +ℤ amount) d)
    ∙ at_key (eq_text key other) (λ same. (=?_iff key other).0 same)
  where
    at_key :
        (b : Bool)
        → (b ≡ true → key ≡ other)
        → (elim (if b then some (value_at key d +ℤ amount) else lookup other d) as (λ _. ℤ) [
          | none ↦ pos 0
          | some x ↦ x
        ])
          ≡ (if b then value_at other d +ℤ amount else value_at other d)
    at_key true same = ap (λ k. value_at k d +ℤ amount) (same refl)
    at_key false same = refl

-- The accumulators after the loop, from those before it.
abbrev Adds : List Row → Aging → Aging → Type 0
Adds rows a a' =
    (all_of a' ≡ all_of a +ℤ open_sum any_row rows)
    × (count_of a' ≡ count_of a + count_if (λ row. not (is_settled row)) rows)
    × ((currency : Text)
        → value_at currency a'.totals
          ≡ value_at currency a.totals +ℤ open_sum (in_currency currency) rows)

then_rest : (t d rest t' : ℤ) → t' ≡ (t +ℤ d) +ℤ rest → t' ≡ t +ℤ (d +ℤ rest)
then_rest t d rest t' e = e ∙ +ℤ_assoc t d rest

add_row-all_of :
    (today : ℕ) (row : Row) (a : Aging)
    → (all_of (add_row today row a) ≡ all_of a +ℤ outstanding row)
      × (count_of (add_row today row a) ≡ count_of a + 1)
unfolding add_row
add_row-all_of today row a =
    add_to_bucket-all_of (classify_bucket row.due_date today) (outstanding row) a

add_row-totals :
    (today : ℕ) (row : Row) (a : Aging) (currency : Text)
    → value_at currency (add_row today row a).totals ≡ (
        if eq_text row.currency currency
        then value_at currency a.totals +ℤ outstanding row
        else value_at currency a.totals)
unfolding add_row
add_row-totals today row a currency =
    value_at-insert row.currency currency (outstanding row) a.totals

branch : (b : Bool) (v o s : ℤ) → (if b then v +ℤ o else v) +ℤ s ≡ v +ℤ (if b then o +ℤ s else s)
branch true v o s = +ℤ_assoc v o s
branch false v o s = refl

add_rows-Adds : (today : ℕ) (rows : List Row) (a : Aging) → Adds rows a (add_rows today rows a)
unfolding add_rows
add_rows-Adds today [] a = (sym (+ℤ_zero_right _), omega arith, λ currency. sym (+ℤ_zero_right _))
add_rows-Adds today (row ∷ rows) a = elim (Bool-cases (is_settled row)) [
  | inl settled ↦ rw (add_rows, settled) (add_rows-Adds today rows a)
  | inr unsettled ↦
      rw (add_rows, unsettled)
        (let (sums, counts, totals) = add_rows-Adds today rows (add_row today row a) in
          let (more, one) = add_row-all_of today row a in
          (
            then_rest _ _ _ _ (sums ∙ ap (λ x. x +ℤ open_sum any_row rows) more),
            omega (arith, counts, one),
            λ currency.
                totals currency
                ∙ ap (λ x. x +ℤ open_sum (in_currency currency) rows)
                    (add_row-totals today row a currency)
                ∙ branch (in_currency currency row) (value_at currency a.totals) (outstanding row)
                    (open_sum (in_currency currency) rows),
          ))
]

nothing-all_of : all_of nothing ≡ pos 0
unfolding ◌+ℤ◌
nothing-all_of = refl

-- The four buckets of an ageing report together hold the outstanding amounts of all rows that are not
-- settled, and count these rows; the total of the report holds the outstanding amounts of the rows in
-- the report's currency only. So both agree where all rows have one currency.
pub build_aging-open_sum :
    (today : ℕ) (rows : List Row) (tenant_id : Text) (date_from date_to : ℕ) (is_debtors : Bool)
    → let report = build_aging today rows tenant_id date_from date_to is_debtors in
      (bucket_sum report.aging_buckets ≡ open_sum any_row rows)
      × (bucket_count report.aging_buckets ≡ count_if (λ row. not (is_settled row)) rows)
      × (report.total_outstanding.amount
          ≡ open_sum (in_currency report.total_outstanding.currency) rows)
unfolding build_aging
build_aging-open_sum today rows tenant_id date_from date_to is_debtors =
    let a = add_rows today rows nothing in
    let (sums, counts, totals) = add_rows-Adds today rows nothing in
    (
      sums ∙ ap (λ x. x +ℤ open_sum any_row rows) nothing-all_of ∙ +ℤ_zero_left _,
      omega (arith, counts),
      totals a.currency ∙ +ℤ_zero_left _,
    )
