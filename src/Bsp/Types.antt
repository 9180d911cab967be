-- ===== src/Bsp/Types.antt =====
-- The records of drivers/bsp_india/haf_records.py, the ones of schemas/canonical/finance.py that
-- they become, and what the reconciliation reads of a ticket (schemas/canonical/travel.py).
use voyagent.Prelude.{ℕ, Option, List}
use voyagent.Prelude.Int.{ℤ}
use voyagent.Prelude.Text.{Text}

pub record Bfh01FileHeader : Type 0 where
  pub country : Text
  pub bsp_currency : Text
  pub agent_iata_code : Text
  pub period_start : ℕ
  pub period_end : ℕ
  pub file_sequence : Text

pub record Bks24TicketingRecord : Type 0 where
  pub ticket_number : Text
  pub airline_code : Text
  pub issue_date : ℕ
  pub gross_fare : ℤ
  pub commission : ℤ
  pub taxes : ℤ
  pub net_amount : ℤ
  pub narration : Option Text

pub record Bks39RefundRecord : Type 0 where
  pub document_number : Text
  pub original_ticket_number : Text
  pub airline_code : Text
  pub issue_date : ℕ
  pub net_amount : ℤ
  pub narration : Option Text

pub record Bks45ExchangeRecord : Type 0 where
  pub new_ticket_number : Text
  pub original_ticket_number : Text
  pub airline_code : Text
  pub issue_date : ℕ
  pub net_amount : ℤ
  pub narration : Option Text

pub record Bks46AdmRecord : Type 0 where
  pub memo_number : Text
  pub airline_code : Text
  pub issue_date : ℕ
  pub amount : ℤ
  pub narration : Option Text

pub record Bks47AcmRecord : Type 0 where
  pub memo_number : Text
  pub airline_code : Text
  pub issue_date : ℕ
  pub amount : ℤ
  pub narration : Option Text

-- `HAFTransactionRecord`
pub data HafTransaction : Type 0 where
  bks24 : Bks24TicketingRecord → HafTransaction
  bks39 : Bks39RefundRecord → HafTransaction
  bks45 : Bks45ExchangeRecord → HafTransaction
  bks46 : Bks46AdmRecord → HafTransaction
  bks47 : Bks47AcmRecord → HafTransaction

pub record Bft99FileTrailer : Type 0 where
  pub record_count : ℤ
  pub net_control_total : ℤ

pub record HafFile : Type 0 where
  pub header : Bfh01FileHeader
  pub transactions : List HafTransaction
  pub trailer : Bft99FileTrailer
  pub source_ref : Text

pub record Money : Type 0 where
  pub amount : ℤ
  pub currency : Text

pub record Period : Type 0 where
  pub start : ℕ
  pub end : ℕ

pub data BspTransactionKind : Type 0 where
  sale refund exchange adm acm commission tax_adjustment : BspTransactionKind

-- `taxes` is always empty here, and `internal_ticket_id` unset.
pub record BspTransaction : Type 0 where
  pub kind : BspTransactionKind
  pub document_number : Text
  pub issue_date : ℕ
  pub airline : Text
  pub gross : Money
  pub commission : Option Money
  pub net : Money

pub record BspReport : Type 0 where
  pub tenant_id : Text
  pub country : Text
  pub period : Period
  pub sales_total : Money
  pub refund_total : Money
  pub commission_total : Money
  pub net_remittance : Money
  pub transactions : List BspTransaction
  pub source_ref : Text

pub record Ticket : Type 0 where
  pub id : Text
  pub number : Text
  pub issuing_airline : Text
  pub total_amount : Money

pub data ReconciliationOutcome : Type 0 where
  matched unmatched_external unmatched_internal discrepancy tentative : ReconciliationOutcome

pub record ReconciliationItem : Type 0 where
  pub outcome : ReconciliationOutcome
  pub confidence_bps : ℕ
  pub external_ref : Option Text
  pub external_amount : Option Money
  pub external_date : Option ℕ
  pub internal_refs : List Text
  pub internal_amount : Option Money
  pub delta : Option Money

pub record ReconciliationSummary : Type 0 where
  pub matched_count : ℕ
  pub matched_amount : Option Money
  pub unmatched_external_count : ℕ
  pub unmatched_internal_count : ℕ
  pub discrepancy_count : ℕ
  pub tentative_count : ℕ

pub record Reconciliation : Type 0 where
  pub tenant_id : Text
  pub period : Period
  pub items : List ReconciliationItem
  pub summary : ReconciliationSummary
