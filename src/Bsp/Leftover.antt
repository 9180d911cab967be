-- ===== src/Bsp/Leftover.antt =====
-- The tickets that no row of the statement bills, and the reconciliation as a whole:
-- `reconcile_bsp_against_tickets` of drivers/bsp_india/mapping.py.
use mathlib.Core.Bool.{true≢false}
use mathlib.Core.List.{append-nil, append_assoc}
use voyagent.Prelude.{
  ◌+◌, ◌≡◌, refl, sym, ap, ◌∙◌, Bool, true, false, ◌&&◌, ◌||◌, none, List, [], ◌∷◌, ◌++◌, map,
  arith, if◌then◌else◌, if_elim, Option-elim, pair_key, ◌=?◌, =?_self, =?_iff, All, All-map,
  is_some, Bool-cases, inl, inr, nat_key,
}
use voyagent.Prelude.Text.{Text, contains, text_key}
use voyagent.Prelude.Dict.{Dict, lookup}
use voyagent.Bsp.{
  BspTransaction, BspReport, Ticket, matched, unmatched_external, unmatched_internal, discrepancy,
  tentative, ReconciliationItem, normalised_ticket_key, ticket_index,
}
use voyagent.Bsp.Reconcile.{
  Tally, is_sale, internal_item, add_external, add_matched_amount, add_paired,
  reconcile_transaction, reconcile_transactions, add_internal, empty_tally,
  reconcile_bsp_against_tickets,
}
use voyagent.Bsp.Counting.{count, Counted, count-hit, count-miss}
use voyagent.Bsp.Reconciled.{AllJudged, reconcile_transactions-AllJudged}
use voyagent.Bsp.Firsts.{billed, unbilled, leftover, unbilled-ticket_index_from}

internal-Counted :
    (s : Tally) (t : Ticket)
    → Counted s
    → Counted (record s {
      unmatched_internal_count = s.unmatched_internal_count + 1;
      items = s.items ++ internal_item t ∷ [];
    })
internal-Counted s t (m, e, n, d, u) = (
  count-miss matched s.items (internal_item t) s.matched_count refl m,
  count-miss unmatched_external s.items (internal_item t) s.unmatched_external_count refl e,
  count-hit unmatched_internal s.items (internal_item t) s.unmatched_internal_count refl n,
  count-miss discrepancy s.items (internal_item t) s.discrepancy_count refl d,
  count-miss tentative s.items (internal_item t) s.tentative_count refl u,
)

add_internal-unbilled :
    (txs : List BspTransaction) (rest : Dict (Text × Text) Ticket) (s : Tally)
    → All (λ e. contains (e.0) s.matched_internal_keys ≡ billed (e.0) txs) rest
    → Counted s
    → ((add_internal rest s).items ≡ s.items ++ map internal_item (unbilled rest txs))
      × Counted (add_internal rest s)
unfolding add_internal
add_internal-unbilled txs [] s same c = (sym (append-nil s.items), c)
add_internal-unbilled txs ((key, t) ∷ rest) s (e, same) c = elim (Bool-cases (billed key txs)) [
  | inl owed ↦ rw (add_internal, e, owed) (add_internal-unbilled txs rest s same c)
  | inr free ↦
      rw (add_internal, e, free)
        (let s' : Tally = record s {
          unmatched_internal_count = s.unmatched_internal_count + 1;
          items = s.items ++ internal_item t ∷ [];
        } in
          let (grown, c') = add_internal-unbilled txs rest s' same (internal-Counted s t c) in
          (
            grown
                ∙ append_assoc s.items (internal_item t ∷ [])
                    (map internal_item (unbilled rest txs)),
            c',
          ))
]

-- What one transaction, and then all of them, add to the matched keys.
add_paired-keys :
    (key : Text × Text) (tx : BspTransaction) (t : Ticket) (s : Tally)
    → (add_paired key tx t s).matched_internal_keys ≡ key ∷ s.matched_internal_keys
unfolding add_paired add_matched_amount
add_paired-keys key tx t s = ground arith

-- A key that the index holds is not the key of a row that it lacks.
miss_other :
    (index : Dict (Text × Text) Ticket) (k key : Text × Text)
    → is_some (lookup k index) ≡ true
    → lookup key index ≡ none
    → (k =? key) ≡ false
miss_other index k key found missing = elim (Bool-cases (k =? key)) [
  | inr other ↦ other
  | inl same ↦ absurd (
      true≢false (
        sym found
        ∙ ap (λ i. is_some (lookup i index)) ((=?_iff k key).0 same)
        ∙ ap is_some missing))
]

or_of_if : (b c : Bool) → (if b then true else c) ≡ (b || c)
or_of_if true c = refl
or_of_if false c = refl

reconcile_transaction-keys :
    (index : Dict (Text × Text) Ticket) (tx : BspTransaction) (s : Tally) (k : Text × Text)
    → is_some (lookup k index) ≡ true
    → contains k (reconcile_transaction index tx s).matched_internal_keys
      ≡ (is_sale tx.kind && (k =? normalised_ticket_key tx.document_number tx.airline))
        || contains k s.matched_internal_keys
unfolding reconcile_transaction add_external
reconcile_transaction-keys index tx s k found =
    let key = normalised_ticket_key tx.document_number tx.airline in
    elim (Bool-cases (is_sale tx.kind)) [
      | inr other ↦ rw other refl
      | inl sold ↦ rw sold (
          Option-elim (lookup key index) {x = add_external tx s} {f = λ t. add_paired key tx t s}
            (λ (s' : Tally).
              contains k s'.matched_internal_keys
              ≡ ((k =? key) || contains k s.matched_internal_keys))
            (λ missing.
              ap (λ b. b || contains k s.matched_internal_keys)
                (sym (miss_other index k key found missing)))
            (λ t hit.
              ap (contains k) (add_paired-keys key tx t s)
              ∙ or_of_if (k =? key) (contains k s.matched_internal_keys)))
    ]

reconcile_transactions-keys :
    (index : Dict (Text × Text) Ticket) (txs : List BspTransaction) (s : Tally) (k : Text × Text)
    → is_some (lookup k index) ≡ true
    → contains k (reconcile_transactions index txs s).matched_internal_keys
      ≡ billed k txs || contains k s.matched_internal_keys
unfolding reconcile_transactions
reconcile_transactions-keys index [] s k found = refl
reconcile_transactions-keys index (tx ∷ txs) s k found =
    reconcile_transactions-keys index txs (reconcile_transaction index tx s) k found
    ∙ ap (λ b. billed k txs || b) (reconcile_transaction-keys index tx s k found)
    ∙ swap (billed k txs)
        (is_sale tx.kind && (k =? normalised_ticket_key tx.document_number tx.airline))
        (contains k s.matched_internal_keys)
  where
    swap : (a b c : Bool) → (a || (b || c)) ≡ ((b || a) || c)
    swap a b c = ground arith

-- The keys of a dict are found in it.
entries_found : (d : Dict (Text × Text) Ticket) → All (λ e. is_some (lookup (e.0) d) ≡ true) d
entries_found [] = tt
entries_found ((k, v) ∷ d) = (rw (=?_self k) refl, later d (entries_found d))
  where
    later :
        (rest : Dict (Text × Text) Ticket)
        → All (λ e. is_some (lookup (e.0) d) ≡ true) rest
        → All (λ e. is_some (lookup (e.0) ((k, v) ∷ d)) ≡ true) rest
    later [] h = tt
    later (e ∷ rest) (h, hs) =
        (if_elim (k =? e.0) (λ o. is_some o ≡ true) (λ same. refl) (λ other. h), later rest hs)

-- A reconciliation lists one item for each transaction of the report, in their order, then one for
-- each ticket that no sale of the report bills and that is the first with its key, in the order of
-- the tickets; later tickets with the same key get no item. The verdicts on the transactions are
-- those of the rules, which call a ticket in another currency tentative; and each counter of the
-- summary is the number of items with its outcome.
pub reconcile_bsp_against_tickets_complete :
    (report : BspReport) (tickets : List Ticket)
    → let r = reconcile_bsp_against_tickets report tickets in
      (is : List ReconciliationItem) × AllJudged (ticket_index tickets) report.transactions is
      × (r.items ≡ is ++ map internal_item (leftover report.transactions [] tickets))
      × (r.summary.matched_count ≡ count matched r.items)
      × (r.summary.unmatched_external_count ≡ count unmatched_external r.items)
      × (r.summary.unmatched_internal_count ≡ count unmatched_internal r.items)
      × (r.summary.discrepancy_count ≡ count discrepancy r.items)
      × (r.summary.tentative_count ≡ count tentative r.items)
unfolding reconcile_bsp_against_tickets
reconcile_bsp_against_tickets_complete report tickets =
    let index = ticket_index tickets in
    let s = reconcile_transactions index report.transactions empty_tally in
    let (is, judged, grown, c) =
      reconcile_transactions-AllJudged index report.transactions empty_tally
        (refl, refl, refl, refl, refl) in
    let (rest, (m, e, n, d, u)) =
      add_internal-unbilled report.transactions index s
        (All-map
          (λ (entry : (Text × Text) × Ticket) found.
            reconcile_transactions-keys index report.transactions empty_tally (entry.0) found
            ∙ or_false (billed (entry.0) report.transactions))
          index (entries_found index))
        c in
    (
      is,
      judged,
      rest
          ∙ ap (λ x. x ++ map internal_item (unbilled index report.transactions)) grown
          ∙ ap (λ x. is ++ map internal_item x)
              (unbilled-ticket_index_from report.transactions tickets [] [] (λ k. refl)),
      m,
      e,
      n,
      d,
      u,
    )
  where
    or_false : (b : Bool) → (b || false) ≡ b
    or_false b = ground arith
