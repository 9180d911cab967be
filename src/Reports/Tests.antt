-- ===== src/Reports/Tests.antt =====
-- Three invoices, one of them paid and one in another currency.
use voyagent.Prelude.{ℕ, ◌≡◌, refl, true, not, List, [], ◌∷◌, count_if}
use voyagent.Prelude.Text.{Text, codes}
use voyagent.Prelude.Int.{pos, ◌+ℤ◌, ◌-ℤ◌}
use voyagent.Reports.Aging.{
  Row, is_settled, classify_bucket, add_to_bucket, add_row, add_rows, insert_party, sorted_parties,
  AgingReportResponse, build_aging,
}
use voyagent.Reports.Sums.{
  open_sum, any_row, bucket_sum, bucket_count, in_currency, build_aging-open_sum,
}

abbrev invoice : ℕ → ℕ → ℕ → Text → Row
invoice total paid due currency = record {
  total_amount = pos total;
  amount_paid = pos paid;
  due_date = due;
  currency = currency;
  party_name = codes "Rao";
}

abbrev rows : List Row
rows =
    invoice 10_000 2_500 100 (codes "INR")
    ∷ invoice 700 700 100 (codes "INR")
    ∷ invoice 5_000 0 60 (codes "USD")
    ∷ []

abbrev report : AgingReportResponse
report = build_aging 131 rows (codes "t") 0 200 true

-- The total is in the currency of the last row, and leaves the first out.
total_of_dollars : report.total_outstanding.amount ≡ pos 5_000
unfolding build_aging add_rows add_row add_to_bucket classify_bucket sorted_parties insert_party
    ◌+ℤ◌ ◌-ℤ◌
total_of_dollars = refl

buckets_of_both : bucket_sum report.aging_buckets ≡ pos 12_500
unfolding build_aging add_rows add_row add_to_bucket classify_bucket sorted_parties insert_party
    ◌+ℤ◌ ◌-ℤ◌
buckets_of_both = refl

build_aging-open_sum_example :
    (bucket_sum report.aging_buckets ≡ open_sum any_row rows)
    × (bucket_count report.aging_buckets ≡ count_if (λ row. not (is_settled row)) rows)
    × (report.total_outstanding.amount
        ≡ open_sum (in_currency report.total_outstanding.currency) rows)
build_aging-open_sum_example = build_aging-open_sum 131 rows (codes "t") 0 200 true
