-- ===== src/Bsp/Counting.antt =====
-- The counters of a reconciliation of drivers/bsp_india/mapping.py against the list of its items.
use voyagent.Prelude.{
  ℕ, ◌+◌, ◌≡◌, ap, Bool, true, false, List, [], ◌∷◌, ◌++◌, count_if, count_if-append, arith,
}
use voyagent.Bsp.{
  ReconciliationOutcome, matched, unmatched_external, unmatched_internal, discrepancy, tentative,
  ReconciliationItem,
}
use voyagent.Bsp.Reconcile.{Tally}

-- How many items have an outcome.
abbrev pub same_outcome : ReconciliationOutcome → ReconciliationOutcome → Bool
same_outcome matched matched = true
same_outcome unmatched_external unmatched_external = true
same_outcome unmatched_internal unmatched_internal = true
same_outcome discrepancy discrepancy = true
same_outcome tentative tentative = true
same_outcome _ _ = false

abbrev pub count : ReconciliationOutcome → List ReconciliationItem → ℕ
count o items = count_if (λ i. same_outcome o i.outcome) items

-- The counters agree with the items.
abbrev pub Counted : Tally → Type 0
Counted s =
    (s.matched_count ≡ count matched s.items)
    × (s.unmatched_external_count ≡ count unmatched_external s.items)
    × (s.unmatched_internal_count ≡ count unmatched_internal s.items)
    × (s.discrepancy_count ≡ count discrepancy s.items)
    × (s.tentative_count ≡ count tentative s.items)

pub count-hit :
    (o : ReconciliationOutcome) (items : List ReconciliationItem) (i : ReconciliationItem) (n : ℕ)
    → same_outcome o i.outcome ≡ true
    → n ≡ count o items
    → n + 1 ≡ count o (items ++ i ∷ [])
count-hit o items i n h e =
    ground (arith, e, h, count_if-append (λ j. same_outcome o j.outcome) items (i ∷ []))

pub count-miss :
    (o : ReconciliationOutcome) (items : List ReconciliationItem) (i : ReconciliationItem) (n : ℕ)
    → same_outcome o i.outcome ≡ false
    → n ≡ count o items
    → n ≡ count o (items ++ i ∷ [])
count-miss o items i n h e =
    ground (arith, e, h, count_if-append (λ j. same_outcome o j.outcome) items (i ∷ []))

-- An appended item for which one of the counters of paired rows goes up.
pub tentative-Counted :
    (s : Tally) (i : ReconciliationItem)
    → i.outcome ≡ tentative
    → Counted s
    → Counted (record s { items = s.items ++ i ∷ []; tentative_count = s.tentative_count + 1 })
tentative-Counted s i o (m, e, n, d, t) = (
  count-miss matched s.items i s.matched_count (ap (same_outcome matched) o) m,
  count-miss unmatched_external s.items i s.unmatched_external_count
      (ap (same_outcome unmatched_external) o) e,
  count-miss unmatched_internal s.items i s.unmatched_internal_count
      (ap (same_outcome unmatched_internal) o) n,
  count-miss discrepancy s.items i s.discrepancy_count (ap (same_outcome discrepancy) o) d,
  count-hit tentative s.items i s.tentative_count (ap (same_outcome tentative) o) t,
)

pub discrepancy-Counted :
    (s : Tally) (i : ReconciliationItem)
    → i.outcome ≡ discrepancy
    → Counted s
    → Counted (record s { items = s.items ++ i ∷ []; discrepancy_count = s.discrepancy_count + 1 })
discrepancy-Counted s i o (m, e, n, d, t) = (
  count-miss matched s.items i s.matched_count (ap (same_outcome matched) o) m,
  count-miss unmatched_external s.items i s.unmatched_external_count
      (ap (same_outcome unmatched_external) o) e,
  count-miss unmatched_internal s.items i s.unmatched_internal_count
      (ap (same_outcome unmatched_internal) o) n,
  count-hit discrepancy s.items i s.discrepancy_count (ap (same_outcome discrepancy) o) d,
  count-miss tentative s.items i s.tentative_count (ap (same_outcome tentative) o) t,
)

pub matched-Counted :
    (s : Tally) (i : ReconciliationItem)
    → i.outcome ≡ matched
    → Counted s
    → Counted (record s { items = s.items ++ i ∷ []; matched_count = s.matched_count + 1 })
matched-Counted s i o (m, e, n, d, t) = (
  count-hit matched s.items i s.matched_count (ap (same_outcome matched) o) m,
  count-miss unmatched_external s.items i s.unmatched_external_count
      (ap (same_outcome unmatched_external) o) e,
  count-miss unmatched_internal s.items i s.unmatched_internal_count
      (ap (same_outcome unmatched_internal) o) n,
  count-miss discrepancy s.items i s.discrepancy_count (ap (same_outcome discrepancy) o) d,
  count-miss tentative s.items i s.tentative_count (ap (same_outcome tentative) o) t,
)
