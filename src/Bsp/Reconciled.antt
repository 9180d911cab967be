-- ===== src/Bsp/Reconciled.antt =====
-- What a reconciliation of drivers/bsp_india/mapping.py says of each transaction and each ticket.
use mathlib.Core.Bool.{true≢false}
use mathlib.Core.List.{append-nil, append_assoc}
use voyagent.Prelude.{
  ℕ, ◌≤◌, ◌<◌, ◌≡◌, ◌≢◌, refl, sym, ap, ◌∙◌, Bool, true, false, not, none, some, List, [], ◌∷◌,
  ◌++◌, arith, if_elim, Option-elim, pair_key, leb, leb→le,
}
use voyagent.Prelude.Int.{pos, ◌-ℤ◌, abs}
use voyagent.Prelude.Text.{Text, eq_text, text_key, eq_text_iff}
use voyagent.Prelude.Dict.{Dict, lookup}
use voyagent.Bsp.{
  Money, BspTransaction, Ticket, matched, unmatched_external, unmatched_internal, discrepancy,
  tentative, ReconciliationItem, confidence_exact, confidence_discrepancy, confidence_tentative,
  normalised_ticket_key, amount_within_tolerance,
}
use voyagent.Bsp.Reconcile.{
  Tally, is_sale, external_item, paired_item, add_external, add_matched_amount, add_paired,
  reconcile_transaction, reconcile_transactions,
}
use voyagent.Bsp.Counting.{
  Counted, count-hit, count-miss, tentative-Counted, discrepancy-Counted, matched-Counted,
}

-- The verdict on one transaction, given the index.
pub data Judged (index : Dict (Text × Text) Ticket) (tx : BspTransaction)
    : ReconciliationItem → Type 0 where
  not_sale : is_sale tx.kind ≡ false → Judged index tx (external_item tx)
  unknown :
      is_sale tx.kind ≡ true
      → lookup (normalised_ticket_key tx.document_number tx.airline) index ≡ none
      → Judged index tx (external_item tx)
  other_currency :
      (t : Ticket)
      → is_sale tx.kind ≡ true
      → lookup (normalised_ticket_key tx.document_number tx.airline) index ≡ some t
      → t.total_amount.currency ≢ tx.net.currency
      → Judged index tx (paired_item tentative confidence_tentative none tx t)
  agrees :
      (t : Ticket) (delta : Money)
      → is_sale tx.kind ≡ true
      → lookup (normalised_ticket_key tx.document_number tx.airline) index ≡ some t
      → t.total_amount.currency ≡ tx.net.currency
      → abs (t.total_amount.amount -ℤ tx.net.amount) ≤ 100
      → delta.amount ≡ pos 0
      → Judged index tx (paired_item matched confidence_exact (some delta) tx t)
  differs :
      (t : Ticket) (delta : Money)
      → is_sale tx.kind ≡ true
      → lookup (normalised_ticket_key tx.document_number tx.airline) index ≡ some t
      → t.total_amount.currency ≡ tx.net.currency
      → 100 < abs (t.total_amount.amount -ℤ tx.net.amount)
      → delta.amount ≡ tx.net.amount -ℤ t.total_amount.amount
      → Judged index tx (paired_item discrepancy confidence_discrepancy (some delta) tx t)

-- One item for each transaction, in their order.
pub data AllJudged (index : Dict (Text × Text) Ticket)
    : List BspTransaction → List ReconciliationItem → Type 0 where
  done : AllJudged index [] []
  next :
      {tx : BspTransaction} {txs : List BspTransaction} {i : ReconciliationItem}
      {is : List ReconciliationItem}
      → Judged index tx i
      → AllJudged index txs is
      → AllJudged index (tx ∷ txs) (i ∷ is)

-- A step that appends the judged item of a transaction.
abbrev Step : Dict (Text × Text) Ticket → BspTransaction → Tally → Tally → Type 0
Step index tx s s' =
    (i : ReconciliationItem) × Judged index tx i
    × (s'.items ≡ s.items ++ i ∷ [])
    × (Counted s → Counted s')

add_external-Step :
    (index : Dict (Text × Text) Ticket) (tx : BspTransaction) (s : Tally)
    → Judged index tx (external_item tx)
    → Step index tx s (add_external tx s)
unfolding add_external
add_external-Step index tx s j = (
  external_item tx,
  j,
  refl,
  λ (m, e, i, d, t). (
    count-miss matched s.items (external_item tx) s.matched_count refl m,
    count-hit unmatched_external s.items (external_item tx) s.unmatched_external_count refl e,
    count-miss unmatched_internal s.items (external_item tx) s.unmatched_internal_count refl i,
    count-miss discrepancy s.items (external_item tx) s.discrepancy_count refl d,
    count-miss tentative s.items (external_item tx) s.tentative_count refl t,
  ),
)

negated_holds : (b : Bool) → not b ≡ true → b ≡ false
negated_holds b h = ground arith

negated_fails : (b : Bool) → not b ≡ false → b ≡ true
negated_fails b h = ground arith

le_or_gt : (n : ℕ) → leb n 100 ≡ false → 100 < n
le_or_gt n h = ground arith

add_paired-Step :
    (index : Dict (Text × Text) Ticket) (tx : BspTransaction) (t : Ticket) (s : Tally)
    → is_sale tx.kind ≡ true
    → lookup (normalised_ticket_key tx.document_number tx.airline) index ≡ some t
    → Step index tx s (add_paired (normalised_ticket_key tx.document_number tx.airline) tx t s)
unfolding add_paired add_matched_amount
add_paired-Step index tx t s sold found =
    let same = eq_text t.total_amount.currency tx.net.currency in
    if_elim (not same) (Step index tx s)
      (λ foreign. (
        paired_item tentative confidence_tentative none tx t,
        other_currency t sold found (λ e. absurd (
            true≢false (
              sym ((eq_text_iff t.total_amount.currency tx.net.currency).1 e)
              ∙ negated_holds same foreign))),
        refl,
        tentative-Counted s (paired_item tentative confidence_tentative none tx t) refl,
      ))
      (λ home.
        let e = (eq_text_iff t.total_amount.currency tx.net.currency).0 (negated_fails same home) in
        if_elim (amount_within_tolerance t.total_amount.amount tx.net.amount) (Step index tx s)
          (λ close. (
            _,
            agrees t _ sold found e
                (leb→le (abs (t.total_amount.amount -ℤ tx.net.amount)) 100 close) refl,
            refl,
            matched-Counted s (paired_item matched confidence_exact _ tx t) refl,
          ))
          (λ off. (
            _,
            differs t _ sold found e (le_or_gt (abs (t.total_amount.amount -ℤ tx.net.amount)) off)
                refl,
            refl,
            discrepancy-Counted s (paired_item discrepancy confidence_discrepancy _ tx t) refl,
          )))

reconcile_transaction-Step :
    (index : Dict (Text × Text) Ticket) (tx : BspTransaction) (s : Tally)
    → Step index tx s (reconcile_transaction index tx s)
unfolding reconcile_transaction
reconcile_transaction-Step index tx s =
    let key = normalised_ticket_key tx.document_number tx.airline in
    if_elim (not (is_sale tx.kind)) (Step index tx s)
      (λ other. add_external-Step index tx s (not_sale (negated_holds (is_sale tx.kind) other)))
      (λ sold.
        Option-elim (lookup key index) {x = add_external tx s} {f = λ t. add_paired key tx t s}
          (Step index tx s)
          (λ missing.
            add_external-Step index tx s (unknown (negated_fails (is_sale tx.kind) sold) missing))
          (λ t found. add_paired-Step index tx t s (negated_fails (is_sale tx.kind) sold) found))

-- The loop over the transactions.
pub reconcile_transactions-AllJudged :
    (index : Dict (Text × Text) Ticket) (txs : List BspTransaction) (s : Tally)
    → Counted s
    → let s' = reconcile_transactions index txs s in
      (is : List ReconciliationItem) × AllJudged index txs is
      × (s'.items ≡ s.items ++ is)
      × Counted s'
unfolding reconcile_transactions
reconcile_transactions-AllJudged index [] s c = ([], done, sym (append-nil s.items), c)
reconcile_transactions-AllJudged index (tx ∷ txs) s c =
    let (i, j, grown, counted) = reconcile_transaction-Step index tx s in
    let (is, js, rest, c') =
      reconcile_transactions-AllJudged index txs (reconcile_transaction index tx s) (counted c) in
    (i ∷ is, next j js, rest ∙ ap (λ x. x ++ is) grown ∙ append_assoc s.items (i ∷ []) is, c')
