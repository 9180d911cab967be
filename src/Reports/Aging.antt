-- ===== src/Reports/Aging.antt =====
-- `_build_aging` of services/api/src/voyagent_api/reports.py. Amounts count hundredths, which is what
-- the columns hold, so that rounding to 0.01 keeps them; dates are days.
use voyagent.Prelude.{ℕ, ◌+◌, Bool, none, some, List, [], ◌∷◌, if◌then◌else◌, leb, take, pair_key}
use voyagent.Prelude.Text.{Text, codes, text_key}
use voyagent.Prelude.Dict.{Dict, lookup, insert}
use voyagent.Prelude.Int.{ℤ, pos, ◌+ℤ◌, ◌-ℤ◌, leb_ℤ}

pub record Row : Type 0 where
  pub total_amount : ℤ
  pub amount_paid : ℤ
  pub due_date : ℕ
  pub currency : Text
  pub party_name : Text

pub data BucketName : Type 0 where
  days_0_30 days_31_60 days_61_90 days_90_on : BucketName

pub record MoneyResponse : Type 0 where
  pub amount : ℤ
  pub currency : Text

pub record AgingBucket : Type 0 where
  pub bucket : BucketName
  pub count : ℕ
  pub amount : MoneyResponse

pub record PartyAmount : Type 0 where
  pub name : Text
  pub amount : MoneyResponse

pub record AgingReportResponse : Type 0 where
  pub tenant_id : Text
  pub date_from : ℕ
  pub date_to : ℕ
  pub total_outstanding : MoneyResponse
  pub aging_buckets : List AgingBucket
  pub top_debtors : List PartyAmount
  pub top_creditors : List PartyAmount

abbrev pub default_currency : Text
default_currency = codes "INR"

-- By the days past due, which are not positive for what is not due yet.
unfoldable pub classify_bucket : ℕ → ℕ → BucketName
classify_bucket due_date today =
    if leb today (due_date + 30)
    then days_0_30
    else if leb today (due_date + 60)
    then days_31_60
    else if leb today (due_date + 90)
    then days_61_90
    else days_90_on

-- Count and amount of a bucket.
abbrev pub Bucket : Type 0
Bucket = ℕ × ℤ

-- What the loop keeps.
pub record Aging : Type 0 where
  pub to_30 : Bucket
  pub to_60 : Bucket
  pub to_90 : Bucket
  pub from_90 : Bucket
  pub totals : Dict Text ℤ
  pub party_totals : Dict (Text × Text) ℤ
  pub currency : Text

abbrev pub nothing : Aging
nothing = record {
  to_30 = (0, pos 0);
  to_60 = (0, pos 0);
  to_90 = (0, pos 0);
  from_90 = (0, pos 0);
  totals = [];
  party_totals = [];
  currency = default_currency;
}

abbrev pub outstanding : Row → ℤ
outstanding row = row.total_amount -ℤ row.amount_paid

-- `outstanding <= Decimal("0.00")`
abbrev pub is_settled : Row → Bool
is_settled row = leb_ℤ (outstanding row) (pos 0)

abbrev pub grown : ℤ → Bucket → Bucket
grown amount b = (b.0 + 1, b.1 +ℤ amount)

unfoldable pub add_to_bucket : BucketName → ℤ → Aging → Aging
add_to_bucket days_0_30 amount a = record a { to_30 = grown amount a.to_30 }
add_to_bucket days_31_60 amount a = record a { to_60 = grown amount a.to_60 }
add_to_bucket days_61_90 amount a = record a { to_90 = grown amount a.to_90 }
add_to_bucket days_90_on amount a = record a { from_90 = grown amount a.from_90 }

-- `d.get(key, Decimal("0.00"))`
abbrev pub value_at : Text → Dict Text ℤ → ℤ
value_at key d = elim (lookup key d) [ none ↦ pos 0 | some amount ↦ amount ]

abbrev pub party_at : Text × Text → Dict (Text × Text) ℤ → ℤ
party_at key d = elim (lookup key d) [ none ↦ pos 0 | some amount ↦ amount ]

-- A row of the loop that is not settled.
unfoldable pub add_row : ℕ → Row → Aging → Aging
add_row today row a =
    record (add_to_bucket (classify_bucket row.due_date today) (outstanding row) a) {
      totals = insert row.currency (value_at row.currency a.totals +ℤ outstanding row) a.totals;
      party_totals =
          insert (row.party_name, row.currency)
            (party_at (row.party_name, row.currency) a.party_totals +ℤ outstanding row)
            a.party_totals;
      currency = row.currency;
    }

unfoldable pub add_rows : ℕ → List Row → Aging → Aging
add_rows today [] a = a
add_rows today (row ∷ rows) a =
    if is_settled row then add_rows today rows a else add_rows today rows (add_row today row a)

-- `sorted(..., reverse=True)`, which keeps the order of equal amounts.
unfoldable pub insert_party : PartyAmount → List PartyAmount → List PartyAmount
insert_party p [] = p ∷ []
insert_party p (q ∷ ps) =
    let rest = insert_party p ps in
    if leb_ℤ q.amount.amount p.amount.amount then p ∷ q ∷ ps else q ∷ rest

unfoldable pub sorted_parties : Dict (Text × Text) ℤ → List PartyAmount
sorted_parties [] = []
sorted_parties (((name, currency), amount) ∷ d) =
    insert_party (record { name = name; amount = record { amount = amount; currency = currency } })
      (sorted_parties d)

abbrev pub bucket_response : Text → BucketName → Bucket → AgingBucket
bucket_response currency name b = record {
  bucket = name;
  count = b.0;
  amount = record { amount = b.1; currency = currency };
}

-- `kind` is true for "debtors" and false for "creditors".
unfoldable pub build_aging : ℕ → List Row → Text → ℕ → ℕ → Bool → AgingReportResponse
build_aging today rows tenant_id date_from date_to is_debtors =
    let a = add_rows today rows nothing in
    let top = take 5 (sorted_parties a.party_totals) in
    record {
      tenant_id = tenant_id;
      date_from = date_from;
      date_to = date_to;
      total_outstanding = record { amount = value_at a.currency a.totals; currency = a.currency };
      aging_buckets =
          bucket_response a.currency days_0_30 a.to_30
          ∷ bucket_response a.currency days_31_60 a.to_60
          ∷ bucket_response a.currency days_61_90 a.to_90
          ∷ bucket_response a.currency days_90_on a.from_90
          ∷ [];
      top_debtors = if is_debtors then top else [];
      top_creditors = if is_debtors then [] else top;
    }
