-- ===== src/Bsp.antt =====
-- The BSP India settlement driver: drivers/bsp_india/mapping.py on the records of
-- drivers/bsp_india/haf_records.py and of schemas/canonical/finance.py. Amounts (`Decimal`) are
-- integers that count hundredths, so `AMOUNT_TOLERANCE` is 100; amounts with finer fractions, which
-- `Money` allows in a ticket, are outside the model. The validators of the canonical records, which
-- raise on an empty period, on a currency or country that does not match its pattern and on a date
-- that overflows, are left out: the report is that of a file they accept; dates are day numbers. Strings are
-- ASCII where the source asks for digits or upper case. Evidence and suggestions, which are fixed
-- texts per outcome, and the minted ids and timestamps are left out.
mod Types
pub mod Report
pub mod Index
pub mod Reconcile
pub mod Counting
pub mod Reconciled
pub mod Firsts
pub mod Leftover
mod Tests
pub use Types.*
use voyagent.Prelude.{
  ℕ, ◌+◌, ◌-◌, Bool, true, false, not, ◌&&◌, Option, none, some, List, [], ◌∷◌, ◌++◌, map, length,
  drop, filter, if◌then◌else◌, leb,
}
use voyagent.Prelude.Int.{ℤ, pos, ◌+ℤ◌, ◌-ℤ◌, abs, eq_ℤ}
use voyagent.Prelude.Text.{Text, contains, text_key, eq_text}
use voyagent.Prelude.Dict.{Dict, setdefault}
use voyagent.Prelude.{pair_key}

abbrev pub amount_tolerance : ℕ
amount_tolerance = 100

abbrev pub confidence_exact : ℕ
confidence_exact = 10000

abbrev pub confidence_discrepancy : ℕ
confidence_discrepancy = 8000

abbrev pub confidence_tentative : ℕ
confidence_tentative = 5000

-- `str.upper` and `str.isdigit`, on ASCII.
abbrev pub upper : Text → Text
upper = map (λ c. if leb 97 c && leb c 122 then c - 32 else c)

abbrev pub is_digit : ℕ → Bool
is_digit c = leb 48 c && leb c 57

-- `_normalised_ticket_key`: the airline, and the last ten digits of the number.
unfoldable pub normalised_ticket_key : Text → Text → Text × Text
normalised_ticket_key ticket_number airline_code =
    let digits = filter is_digit ticket_number in
    (
      upper airline_code,
      if leb 10 (length digits) then drop (length digits - 10) digits else digits,
    )

unfoldable pub money : ℤ → Text → Money
money amount currency = record { amount = amount; currency = upper currency }

-- `_haf_transaction_kind`
abbrev pub haf_transaction_kind : HafTransaction → BspTransactionKind
haf_transaction_kind (bks24 r) = sale
haf_transaction_kind (bks39 r) = refund
haf_transaction_kind (bks45 r) = exchange
haf_transaction_kind (bks46 r) = adm
haf_transaction_kind (bks47 r) = acm

-- `_haf_transaction_document_number`
abbrev pub haf_transaction_document_number : HafTransaction → Text
haf_transaction_document_number (bks24 r) = r.ticket_number
haf_transaction_document_number (bks39 r) = r.document_number
haf_transaction_document_number (bks45 r) = r.new_ticket_number
haf_transaction_document_number (bks46 r) = r.memo_number
haf_transaction_document_number (bks47 r) = r.memo_number

-- `_haf_transaction_net`
abbrev pub haf_transaction_net : HafTransaction → ℤ
haf_transaction_net (bks24 r) = r.net_amount
haf_transaction_net (bks39 r) = r.net_amount
haf_transaction_net (bks45 r) = r.net_amount
haf_transaction_net (bks46 r) = r.amount
haf_transaction_net (bks47 r) = r.amount

-- `record.issue_date` and `record.airline_code`
abbrev pub issue_date_of : HafTransaction → ℕ
issue_date_of (bks24 r) = r.issue_date
issue_date_of (bks39 r) = r.issue_date
issue_date_of (bks45 r) = r.issue_date
issue_date_of (bks46 r) = r.issue_date
issue_date_of (bks47 r) = r.issue_date

abbrev pub airline_of : HafTransaction → Text
airline_of (bks24 r) = r.airline_code
airline_of (bks39 r) = r.airline_code
airline_of (bks45 r) = r.airline_code
airline_of (bks46 r) = r.airline_code
airline_of (bks47 r) = r.airline_code

-- Gross and commission: only a BKS24 carries them.
abbrev pub gross_of : HafTransaction → ℤ
gross_of (bks24 r) = r.gross_fare
gross_of (bks39 r) = r.net_amount
gross_of (bks45 r) = r.net_amount
gross_of (bks46 r) = r.amount
gross_of (bks47 r) = r.amount

abbrev pub commission_of : HafTransaction → Text → Option Money
commission_of (bks24 r) currency =
    if eq_ℤ r.commission (pos 0) then none else some (money r.commission currency)
commission_of (bks39 r) currency = none
commission_of (bks45 r) currency = none
commission_of (bks46 r) currency = none
commission_of (bks47 r) currency = none

-- `_haf_record_to_bsp_transaction`
unfoldable pub haf_record_to_bsp_transaction : Text → HafTransaction → BspTransaction
haf_record_to_bsp_transaction currency record' = record {
  kind = haf_transaction_kind record';
  document_number = haf_transaction_document_number record';
  issue_date = issue_date_of record';
  airline = upper (airline_of record');
  gross = money (gross_of record') currency;
  commission = commission_of record' currency;
  net = money (haf_transaction_net record') currency;
}

-- The four accumulators of `haf_file_to_bsp_report`.
pub record Totals : Type 0 where
  pub sales_total : ℤ
  pub refund_total : ℤ
  pub commission_total : ℤ
  pub net_total : ℤ

-- The body of its loop.
unfoldable pub add_record : HafTransaction → BspTransaction → Totals → Totals
add_record (bks24 r) canonical t = record t {
  net_total = t.net_total +ℤ canonical.net.amount;
  sales_total = t.sales_total +ℤ r.gross_fare;
  commission_total = t.commission_total +ℤ r.commission;
}
add_record (bks39 r) canonical t = record t {
  net_total = t.net_total +ℤ canonical.net.amount;
  refund_total = t.refund_total +ℤ r.net_amount;
}
add_record (bks45 r) canonical t = record t {
  net_total = t.net_total +ℤ canonical.net.amount;
  refund_total = t.refund_total +ℤ r.net_amount;
}
add_record (bks46 r) canonical t = record t { net_total = t.net_total +ℤ canonical.net.amount }
add_record (bks47 r) canonical t = record t { net_total = t.net_total +ℤ canonical.net.amount }

-- The loop, over `zip(haf.transactions, transactions)`.
unfoldable pub add_records : List HafTransaction → List BspTransaction → Totals → Totals
add_records [] canonicals t = t
add_records (r ∷ rs) [] t = t
add_records (r ∷ rs) (c ∷ cs) t = add_records rs cs (add_record r c t)

-- `_period_from_header`: half-open, so it ends on the day after the header's last.
abbrev pub period_from_header : Bfh01FileHeader → Period
period_from_header h = record { start = h.period_start; end = h.period_end + 1 }

unfoldable pub haf_file_to_bsp_report : HafFile → Text → BspReport
haf_file_to_bsp_report haf tenant_id =
    let currency = upper haf.header.bsp_currency in
    let transactions = map (haf_record_to_bsp_transaction currency) haf.transactions in
    let totals = add_records haf.transactions transactions (record {
      sales_total = pos 0;
      refund_total = pos 0;
      commission_total = pos 0;
      net_total = pos 0;
    }) in
    record {
      tenant_id = tenant_id;
      country = upper haf.header.country;
      period = period_from_header haf.header;
      sales_total = money totals.sales_total currency;
      refund_total = money totals.refund_total currency;
      commission_total = money totals.commission_total currency;
      net_remittance = money totals.net_total currency;
      transactions = transactions;
      source_ref = haf.source_ref;
    }

-- `_ticket_index`: the first ticket of a key stays.
unfoldable pub ticket_index_from :
    Dict (Text × Text) Ticket → List Ticket → Dict (Text × Text) Ticket
ticket_index_from index [] = index
ticket_index_from index (t ∷ ts) =
    let key = normalised_ticket_key t.number t.issuing_airline in
    ticket_index_from (setdefault key t index) ts

abbrev pub ticket_index : List Ticket → Dict (Text × Text) Ticket
ticket_index = ticket_index_from []

-- `_amount_within_tolerance`
abbrev pub amount_within_tolerance : ℤ → ℤ → Bool
amount_within_tolerance a b = leb (abs (a -ℤ b)) amount_tolerance
