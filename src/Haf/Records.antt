-- ===== src/Haf/Records.antt =====
-- The records of a HAF file, at their fixed columns: the per-record parsers of
-- drivers/bsp_india/haf_parser.py.
use voyagent.Prelude.{ℕ, ◌+◌, Bool, Option, none, some, if◌then◌else◌}
use voyagent.Prelude.Int.{ℤ}
use voyagent.Prelude.Text.{Text, codes, is_empty}
use voyagent.Bsp.{
  Bfh01FileHeader, Bft99FileTrailer, HafTransaction, bks24, bks39, bks45, bks46, bks47,
}
use voyagent.Haf.Fields.{
  Parsed, ok, ◌>>=◌, strip, rstrip, slice, parse_int, validate_airline_code, parse_date,
  parse_amount,
}

-- `… or None`
abbrev pub text_or_none : Text → Option Text
text_or_none s = if is_empty s then none else some s

-- An amount at its column, with the sign in the column after its twelve digits.
unfoldable pub amount_at : ℕ → Text → Text → ℕ → Parsed ℤ
amount_at n field line start = do
  magnitude ← slice n field line start 12
  sign ← slice n field line (start + 12) 1
  parse_amount n field magnitude sign

unfoldable pub date_at : ℕ → Text → Text → ℕ → Parsed ℕ
date_at n field line start = do raw ← slice n field line start 8; parse_date n field raw

unfoldable pub airline_at : ℕ → Text → ℕ → Parsed Text
airline_at n line start = do
  raw ← slice n (codes "airline_code") line start 2
  validate_airline_code n (codes "airline_code") raw

unfoldable pub parse_bfh01 : ℕ → Text → Parsed Bfh01FileHeader
parse_bfh01 n line = do
  country ← slice n (codes "country") line 5 2
  currency ← slice n (codes "currency") line 7 3
  agent ← slice n (codes "agent_iata_code") line 10 10
  start ← date_at n (codes "period_start") line 20
  last ← date_at n (codes "period_end") line 28
  seq ← slice n (codes "file_sequence") line 36 10
  ok (record {
    country = strip country;
    bsp_currency = strip currency;
    agent_iata_code = strip agent;
    period_start = start;
    period_end = last;
    file_sequence = strip seq;
  })

unfoldable pub parse_bks24 : ℕ → Text → Parsed HafTransaction
parse_bks24 n line = do
  ticket ← slice n (codes "ticket_number") line 5 14
  airline ← airline_at n line 19
  issue ← date_at n (codes "issue_date") line 21
  gross ← amount_at n (codes "gross") line 29
  commission ← amount_at n (codes "commission") line 42
  taxes ← amount_at n (codes "taxes") line 55
  net ← amount_at n (codes "net") line 68
  narration ← slice n (codes "narration") line 81 119
  ok (
      bks24 (record {
        ticket_number = strip ticket;
        airline_code = airline;
        issue_date = issue;
        gross_fare = gross;
        commission = commission;
        taxes = taxes;
        net_amount = net;
        narration = text_or_none (rstrip narration);
      }))

unfoldable pub parse_bks39 : ℕ → Text → Parsed HafTransaction
parse_bks39 n line = do
  doc ← slice n (codes "document_number") line 5 14
  original ← slice n (codes "original_ticket_number") line 19 14
  airline ← airline_at n line 33
  issue ← date_at n (codes "issue_date") line 35
  net ← amount_at n (codes "net") line 43
  narration ← slice n (codes "narration") line 56 144
  ok (
      bks39 (record {
        document_number = strip doc;
        original_ticket_number = strip original;
        airline_code = airline;
        issue_date = issue;
        net_amount = net;
        narration = text_or_none (rstrip narration);
      }))

unfoldable pub parse_bks45 : ℕ → Text → Parsed HafTransaction
parse_bks45 n line = do
  new_ticket ← slice n (codes "new_ticket_number") line 5 14
  original ← slice n (codes "original_ticket_number") line 19 14
  airline ← airline_at n line 33
  issue ← date_at n (codes "issue_date") line 35
  net ← amount_at n (codes "net") line 43
  narration ← slice n (codes "narration") line 56 144
  ok (
      bks45 (record {
        new_ticket_number = strip new_ticket;
        original_ticket_number = strip original;
        airline_code = airline;
        issue_date = issue;
        net_amount = net;
        narration = text_or_none (rstrip narration);
      }))

-- `_parse_memo`, for a debit (BKS46) or a credit (BKS47).
unfoldable pub parse_memo : Bool → ℕ → Text → Parsed HafTransaction
parse_memo is_debit n line = do
  memo ← slice n (codes "memo_number") line 5 14
  airline ← airline_at n line 19
  issue ← date_at n (codes "issue_date") line 21
  amount ← amount_at n (codes "amount") line 29
  narration ← slice n (codes "narration") line 42 158
  ok (
      if is_debit
      then bks46 (record {
        memo_number = strip memo;
        airline_code = airline;
        issue_date = issue;
        amount = amount;
        narration = text_or_none (rstrip narration);
      })
      else bks47 (record {
        memo_number = strip memo;
        airline_code = airline;
        issue_date = issue;
        amount = amount;
        narration = text_or_none (rstrip narration);
      }))

unfoldable pub parse_bft99 : ℕ → Text → Parsed Bft99FileTrailer
parse_bft99 n line = do
  raw ← slice n (codes "record_count") line 5 8
  count ← parse_int n (codes "record_count") raw
  net ← amount_at n (codes "net_control_total") line 13
  ok (record { record_count = count; net_control_total = net })
