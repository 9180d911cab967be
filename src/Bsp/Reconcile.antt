-- ===== src/Bsp/Reconcile.antt =====
-- `reconcile_bsp_against_tickets` of drivers/bsp_india/mapping.py, with its counters as a record.
use voyagent.Prelude.{
  ℕ, ◌+◌, Bool, true, false, not, Option, none, some, List, [], ◌∷◌, ◌++◌, if◌then◌else◌, pair_key,
}
use voyagent.Prelude.Int.{ℤ, pos, ◌+ℤ◌, ◌-ℤ◌}
use voyagent.Prelude.Text.{Text, contains, eq_text, text_key}
use voyagent.Prelude.Dict.{Dict, lookup}
use voyagent.Bsp.{
  Money, BspTransaction, BspTransactionKind, sale, refund, exchange, adm, acm, commission,
  tax_adjustment, BspReport, Ticket, ReconciliationOutcome, matched, unmatched_external,
  unmatched_internal, discrepancy, tentative, ReconciliationItem, Reconciliation, confidence_exact,
  confidence_discrepancy, confidence_tentative, normalised_ticket_key, ticket_index,
  amount_within_tolerance,
}

-- The locals of the function. The matched keys are a set, so only membership matters.
pub record Tally : Type 0 where
  pub matched_internal_keys : List (Text × Text)
  pub items : List ReconciliationItem
  pub matched_count : ℕ
  pub unmatched_external_count : ℕ
  pub unmatched_internal_count : ℕ
  pub discrepancy_count : ℕ
  pub tentative_count : ℕ
  pub matched_amount_total : ℤ
  pub matched_currency : Option Text

abbrev pub is_sale : BspTransactionKind → Bool
is_sale sale = true
is_sale refund = false
is_sale exchange = false
is_sale adm = false
is_sale acm = false
is_sale commission = false
is_sale tax_adjustment = false

-- The items that the branches of the loop append.
abbrev pub external_item : BspTransaction → ReconciliationItem
external_item tx = record {
  outcome = unmatched_external;
  confidence_bps = confidence_exact;
  external_ref = some tx.document_number;
  external_amount = some tx.net;
  external_date = some tx.issue_date;
  internal_refs = [];
  internal_amount = none;
  delta = none;
}

abbrev pub paired_item :
    ReconciliationOutcome → ℕ → Option Money → BspTransaction → Ticket → ReconciliationItem
paired_item outcome confidence delta tx internal = record {
  outcome = outcome;
  confidence_bps = confidence;
  external_ref = some tx.document_number;
  external_amount = some tx.net;
  external_date = some tx.issue_date;
  internal_refs = internal.id ∷ [];
  internal_amount = some internal.total_amount;
  delta = delta;
}

abbrev pub internal_item : Ticket → ReconciliationItem
internal_item t = record {
  outcome = unmatched_internal;
  confidence_bps = confidence_exact;
  external_ref = none;
  external_amount = none;
  external_date = none;
  internal_refs = t.id ∷ [];
  internal_amount = some t.total_amount;
  delta = none;
}

-- `append` and a counter, for the rows without a match.
unfoldable pub add_external : BspTransaction → Tally → Tally
add_external tx s = record s {
  items = s.items ++ external_item tx ∷ [];
  unmatched_external_count = s.unmatched_external_count + 1;
}

-- The running total of matched amounts, in the currency of the first match.
unfoldable pub add_matched_amount : Money → Tally → Tally
add_matched_amount external_total s =
    let currency : Text = elim s.matched_currency [ none ↦ external_total.currency | some c ↦ c ] in
    let total : ℤ =
      if eq_text currency external_total.currency
      then s.matched_amount_total +ℤ external_total.amount
      else s.matched_amount_total in
    record s { matched_currency = some currency; matched_amount_total = total }

-- A sale whose ticket was found.
unfoldable pub add_paired : Text × Text → BspTransaction → Ticket → Tally → Tally
add_paired key tx internal s =
    let s' : Tally = record s { matched_internal_keys = key ∷ s.matched_internal_keys } in
    let internal_total = internal.total_amount in
    let external_total = tx.net in
    if not (eq_text internal_total.currency external_total.currency)
    then record s' {
      items = s'.items ++ paired_item tentative confidence_tentative none tx internal ∷ [];
      tentative_count = s'.tentative_count + 1;
    }
    else if amount_within_tolerance internal_total.amount external_total.amount
    then record (add_matched_amount external_total s') {
      matched_count = s'.matched_count + 1;
      items =
          s'.items
          ++ paired_item matched confidence_exact
              (some (record { amount = pos 0; currency = external_total.currency })) tx internal
            ∷ [];
    }
    else record s' {
      discrepancy_count = s'.discrepancy_count + 1;
      items =
          s'.items
          ++ paired_item discrepancy confidence_discrepancy
              (some (record {
                amount = external_total.amount -ℤ internal_total.amount;
                currency = external_total.currency;
              }))
              tx internal
            ∷ [];
    }

-- The body of `for bsp_tx in report.transactions`.
unfoldable pub reconcile_transaction : Dict (Text × Text) Ticket → BspTransaction → Tally → Tally
reconcile_transaction index tx s =
    let key = normalised_ticket_key tx.document_number tx.airline in
    if not (is_sale tx.kind) then add_external tx s else (elim (lookup key index) [
      | none ↦ add_external tx s
      | some internal ↦ add_paired key tx internal s
    ])

unfoldable pub reconcile_transactions :
    Dict (Text × Text) Ticket → List BspTransaction → Tally → Tally
reconcile_transactions index [] s = s
reconcile_transactions index (tx ∷ txs) s =
    reconcile_transactions index txs (reconcile_transaction index tx s)

-- `for key, t in ticket_index.items()`
unfoldable pub add_internal : Dict (Text × Text) Ticket → Tally → Tally
add_internal [] s = s
add_internal ((key, t) ∷ rest) s = add_internal rest (
    if contains key s.matched_internal_keys then s else record s {
      unmatched_internal_count = s.unmatched_internal_count + 1;
      items = s.items ++ internal_item t ∷ [];
    })

abbrev pub empty_tally : Tally
empty_tally = record {
  matched_internal_keys = [];
  items = [];
  matched_count = 0;
  unmatched_external_count = 0;
  unmatched_internal_count = 0;
  discrepancy_count = 0;
  tentative_count = 0;
  matched_amount_total = pos 0;
  matched_currency = none;
}

unfoldable pub reconcile_bsp_against_tickets : BspReport → List Ticket → Reconciliation
reconcile_bsp_against_tickets report tickets =
    let index = ticket_index tickets in
    let s = add_internal index (reconcile_transactions index report.transactions empty_tally) in
    record {
      tenant_id = report.tenant_id;
      period = report.period;
      items = s.items;
      summary = record {
        matched_count = s.matched_count;
        matched_amount = elim s.matched_currency [
          | none ↦ none
          | some c ↦ some (record { amount = s.matched_amount_total; currency = c })
        ];
        unmatched_external_count = s.unmatched_external_count;
        unmatched_internal_count = s.unmatched_internal_count;
        discrepancy_count = s.discrepancy_count;
        tentative_count = s.tentative_count;
      };
    }
