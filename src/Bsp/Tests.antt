-- ===== src/Bsp/Tests.antt =====
-- A statement of four rows against three tickets.
use voyagent.Prelude.{◌≡◌, refl, none, List, [], ◌∷◌, ◌++◌, map, pair_key}
use voyagent.Prelude.Int.{ℤ, pos, negsuc, ◌+ℤ◌, ◌-ℤ◌}
use voyagent.Prelude.Text.{Text, codes, text_key}
use voyagent.Prelude.Dict.{lookup, IsDict}
use voyagent.Bsp.{
  HafFile, HafTransaction, bks24, bks39, BspReport, Ticket, matched, unmatched_external,
  unmatched_internal, discrepancy, tentative, normalised_ticket_key, money,
  haf_record_to_bsp_transaction, add_record, add_records, haf_file_to_bsp_report, ticket_index_from,
  ticket_index, ReconciliationItem,
}
use voyagent.Bsp.Reconcile.{
  internal_item, add_external, add_matched_amount, add_paired, reconcile_transaction,
  reconcile_transactions, add_internal, reconcile_bsp_against_tickets,
}
use voyagent.Bsp.Report.{
  sum_of, sales_part, refund_part, amount_or_zero, haf_file_to_bsp_report_totals,
}
use voyagent.Bsp.Index.{first_with, ticket_index-lookup}
use voyagent.Bsp.Counting.{count}
use voyagent.Bsp.Reconciled.{AllJudged}
use voyagent.Bsp.Firsts.{leftover}
use voyagent.Bsp.Leftover.{reconcile_bsp_against_tickets_complete}

abbrev sold : Text → ℤ → HafTransaction
sold number net = bks24 (record {
  ticket_number = number;
  airline_code = codes "ai";
  issue_date = 10;
  gross_fare = net;
  commission = pos 0;
  taxes = pos 0;
  net_amount = net;
  narration = none;
})

abbrev refunded : HafTransaction
refunded = bks39 (record {
  document_number = codes "R1";
  original_ticket_number = codes "1761234567890";
  airline_code = codes "ai";
  issue_date = 11;
  net_amount = negsuc 4_999;
  narration = none;
})

abbrev haf : HafFile
haf = record {
  header = record {
    country = codes "in";
    bsp_currency = codes "inr";
    agent_iata_code = codes "1";
    period_start = 1;
    period_end = 15;
    file_sequence = codes "1";
  };
  transactions =
      sold (codes "176-1234567890") (pos 10_050)
      ∷ sold (codes "1761111111111") (pos 20_000)
      ∷ refunded
      ∷ sold (codes "1769999999999") (pos 1)
      ∷ [];
  trailer = record { record_count = pos 6; net_control_total = pos 25_051 };
  source_ref = codes "f";
}

abbrev ticket : Text → Text → ℤ → Ticket
ticket id number amount = record {
  id = id;
  number = number;
  issuing_airline = codes "AI";
  total_amount = record { amount = amount; currency = codes "INR" };
}

abbrev tickets : List Ticket
tickets =
    ticket (codes "a") (codes "1234567890") (pos 10_000)
    ∷ ticket (codes "b") (codes "1111111111") (pos 21_000)
    ∷ ticket (codes "c") (codes "2222222222") (pos 5)
    ∷ ticket (codes "d") (codes "176-1234567890") (pos 7)
    ∷ []

abbrev report : BspReport
unfolding haf_file_to_bsp_report add_records add_record haf_record_to_bsp_transaction money
report = haf_file_to_bsp_report haf (codes "t")

outcomes :
    map (λ (i : ReconciliationItem). i.outcome) (reconcile_bsp_against_tickets report tickets).items
    ≡ matched ∷ discrepancy ∷ unmatched_external ∷ unmatched_external ∷ unmatched_internal ∷ []
unfolding haf_file_to_bsp_report add_records add_record haf_record_to_bsp_transaction money
    reconcile_bsp_against_tickets reconcile_transactions reconcile_transaction add_external
    add_paired add_matched_amount add_internal ticket_index_from normalised_ticket_key ◌+ℤ◌ ◌-ℤ◌
outcomes = refl

haf_file_to_bsp_report_totals_example :
    let report' = haf_file_to_bsp_report haf (codes "t") in
    (report'.sales_total.amount
      ≡ sum_of (λ x. sales_part x.kind x.gross.amount) report'.transactions)
    × (report'.refund_total.amount
        ≡ sum_of (λ x. refund_part x.kind x.net.amount) report'.transactions)
    × (report'.commission_total.amount
        ≡ sum_of (λ x. amount_or_zero x.commission) report'.transactions)
    × (report'.net_remittance.amount ≡ sum_of (λ x. x.net.amount) report'.transactions)
haf_file_to_bsp_report_totals_example = haf_file_to_bsp_report_totals haf (codes "t")

ticket_index-lookup_example :
    (lookup (codes "AI", codes "1234567890") (ticket_index tickets)
      ≡ first_with (codes "AI", codes "1234567890") tickets)
    × IsDict (ticket_index tickets)
ticket_index-lookup_example = ticket_index-lookup (codes "AI", codes "1234567890") tickets

reconcile_bsp_against_tickets_complete_example :
    let r = reconcile_bsp_against_tickets report tickets in
    (is : List ReconciliationItem) × AllJudged (ticket_index tickets) report.transactions is
    × (r.items ≡ is ++ map internal_item (leftover report.transactions [] tickets))
    × (r.summary.matched_count ≡ count matched r.items)
    × (r.summary.unmatched_external_count ≡ count unmatched_external r.items)
    × (r.summary.unmatched_internal_count ≡ count unmatched_internal r.items)
    × (r.summary.discrepancy_count ≡ count discrepancy r.items)
    × (r.summary.tentative_count ≡ count tentative r.items)
reconcile_bsp_against_tickets_complete_example =
    reconcile_bsp_against_tickets_complete report tickets
