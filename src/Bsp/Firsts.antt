-- ===== src/Bsp/Firsts.antt =====
-- The tickets that `_ticket_index` of drivers/bsp_india/mapping.py keeps, and those of them that no
-- sale bills.
use mathlib.Core.Bool.{true≢false}
use mathlib.Core.List.{append-nil, append_assoc}
use voyagent.Prelude.{
  ◌≡◌, refl, sym, ap, ◌∙◌, Bool, true, false, ◌&&◌, ◌||◌, some, List, [], ◌∷◌, ◌++◌, if◌then◌else◌,
  pair_key, ◌=?◌, =?_self, =?_iff, =?_flip, is_some, Bool-cases, inl, inr, nat_key,
}
use voyagent.Prelude.Text.{Text, contains, text_key}
use voyagent.Prelude.Dict.{Dict, lookup, insert, lookup-insert, setdefault}
use voyagent.Bsp.{BspTransaction, Ticket, normalised_ticket_key, ticket_index_from}
use voyagent.Bsp.Reconcile.{is_sale}

-- Whether a statement has a sale with this key.
abbrev pub billed : Text × Text → List BspTransaction → Bool
billed key [] = false
billed key (tx ∷ txs) =
    (is_sale tx.kind && (key =? normalised_ticket_key tx.document_number tx.airline))
    || billed key txs

abbrev pub unbilled : Dict (Text × Text) Ticket → List BspTransaction → List Ticket
unbilled [] txs = []
unbilled ((key, t) ∷ rest) txs =
    let others = unbilled rest txs in if billed key txs then others else t ∷ others

-- The tickets, in their order, that are the first with their key and that no sale bills; `seen` are
-- the keys of the tickets before them.
abbrev pub leftover : List BspTransaction → List (Text × Text) → List Ticket → List Ticket
leftover txs seen [] = []
leftover txs seen (t ∷ ts) =
    let key = normalised_ticket_key t.number t.issuing_airline in
    let rest = leftover txs (key ∷ seen) ts in
    if contains key seen then rest else if billed key txs then rest else t ∷ rest

unbilled-insert :
    (txs : List BspTransaction) (k : Text × Text) (t : Ticket) (d : Dict (Text × Text) Ticket)
    → is_some (lookup k d) ≡ false
    → unbilled (insert k t d) txs ≡ unbilled d txs ++ (if billed k txs then [] else t ∷ [])
unbilled-insert txs k t [] h = refl
unbilled-insert txs k t ((j, w) ∷ d) h = elim (Bool-cases (j =? k)) [
  | inl same ↦
      absurd (true≢false (ap (λ b. is_some (if b then some w else lookup k d)) (sym same) ∙ h))
  | inr other ↦
      let ih =
        unbilled-insert txs k t d
          (ap (λ b. is_some (if b then some w else lookup k d)) (sym other) ∙ h) in
      rw other (elim (Bool-cases (billed j txs)) [
        | inl owed ↦ rw owed ih
        | inr free ↦ rw free (ap (λ x. w ∷ x) ih)
      ])
]

-- The keys that are seen are those of the index, and stay so.
seen-insert :
    (seen : List (Text × Text)) (index : Dict (Text × Text) Ticket) (key : Text × Text) (t : Ticket)
    → ((k : Text × Text) → is_some (lookup k index) ≡ contains k seen)
    → (k : Text × Text) → is_some (lookup k (setdefault key t index)) ≡ contains k (key ∷ seen)
seen-insert seen index key t same k = elim (Bool-cases (contains key seen)) [
  | inl there ↦
      rw (same key, there)
        (elim (Bool-cases (k =? key)) [
          | inl equal ↦
              rw equal
                (ap (λ i. is_some (lookup i index)) ((=?_iff k key).0 equal) ∙ same key ∙ there)
          | inr other ↦ rw other (same k)
        ])
  | inr absent ↦
      rw (same key, absent, lookup-insert key k t index)
        (elim (Bool-cases (k =? key)) [
          | inl equal ↦ rw (equal, (=?_iff k key).0 equal, =?_self key) refl
          | inr other ↦ rw (other, =?_flip k key other) (same k)
        ])
]

-- What is left of the index when the billed tickets are taken out is what the tickets leave over.
pub unbilled-ticket_index_from :
    (txs : List BspTransaction) (tickets : List Ticket) (seen : List (Text × Text))
    (index : Dict (Text × Text) Ticket)
    → ((k : Text × Text) → is_some (lookup k index) ≡ contains k seen)
    → unbilled (ticket_index_from index tickets) txs
      ≡ unbilled index txs ++ leftover txs seen tickets
unfolding ticket_index_from
unbilled-ticket_index_from txs [] seen index same = sym (append-nil (unbilled index txs))
unbilled-ticket_index_from txs (t ∷ ts) seen index same =
    let key = normalised_ticket_key t.number t.issuing_airline in
    let ih =
      unbilled-ticket_index_from txs ts (key ∷ seen) (setdefault key t index)
        (seen-insert seen index key t same) in
    elim (Bool-cases (contains key seen)) [
      | inl there ↦ ih ∙ rw (same key, there) refl
      | inr absent ↦
          ih
          ∙ rw (same key, absent)
              (ap (λ x. x ++ leftover txs (key ∷ seen) ts)
                  (unbilled-insert txs key t index (same key ∙ absent))
                ∙ append_assoc (unbilled index txs) (if billed key txs then [] else t ∷ [])
                    (leftover txs (key ∷ seen) ts)
                ∙ tail (billed key txs) (leftover txs (key ∷ seen) ts))
    ]
  where
    tail :
        (b : Bool) (ts' : List Ticket)
        → unbilled index txs ++ ((if b then [] else t ∷ []) ++ ts')
          ≡ unbilled index txs ++ (if b then ts' else t ∷ ts')
    tail true ts' = refl
    tail false ts' = refl
