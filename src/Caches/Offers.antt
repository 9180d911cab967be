-- ===== src/Caches/Offers.antt =====
-- `InMemoryOfferCache` of services/agent_runtime/src/voyagent_agent_runtime/offer_cache.py. The heap of
-- expiries is a list with the earliest first.
use voyagent.Prelude.{ℕ, ◌+◌, Option, none, some, List, [], ◌∷◌, if◌then◌else◌, leb, ltb}
use voyagent.Prelude.Text.{Text, text_key}
use voyagent.Prelude.Dict.{Dict, lookup, insert, erase}

pub record OfferCache (V : Type 0) : Type 0 where
  pub store : Dict Text (ℕ × V)
  pub expiry_heap : List (ℕ × Text)

abbrev pub empty_cache : {V : Type 0} → OfferCache V
empty_cache = record { store = []; expiry_heap = [] }

-- `heapq.heappush`
unfoldable pub heappush : ℕ × Text → List (ℕ × Text) → List (ℕ × Text)
heappush item [] = item ∷ []
heappush item (x ∷ heap) =
    let rest = heappush item heap in if ltb item.0 x.0 then item ∷ x ∷ heap else x ∷ rest

-- A popped key is dropped from the store if its entry there has expired.
abbrev pub drop_expired : {V : Type 0} → ℕ → Text → Dict Text (ℕ × V) → Dict Text (ℕ × V)
drop_expired now key store = elim (lookup key store) [
  | none ↦ store
  | some entry ↦ if leb entry.0 now then erase key store else store
]

-- `_sweep`
unfoldable pub sweep : {V : Type 0} → ℕ → List (ℕ × Text) → Dict Text (ℕ × V) → OfferCache V
sweep now [] store = record { store = store; expiry_heap = [] }
sweep now ((at, key) ∷ heap) store =
    if leb at now
    then sweep now heap (drop_expired now key store)
    else record { store = store; expiry_heap = (at, key) ∷ heap }

-- None is the `ValueError` of a TTL that is not positive.
unfoldable pub put : {V : Type 0} → ℕ → Text → V → ℕ → OfferCache V → Option (OfferCache V)
put now key offer ttl_seconds c =
    if leb ttl_seconds 0
    then none
    else some (record {
      store = insert key (now + ttl_seconds, offer) c.store;
      expiry_heap = heappush (now + ttl_seconds, key) c.expiry_heap;
    })

-- `get` reads the clock for the sweep and again for the entry.
unfoldable pub get : {V : Type 0} → ℕ → ℕ → Text → OfferCache V → Option V × OfferCache V
get swept_at now key c =
    let c' = sweep swept_at c.expiry_heap c.store in
    elim (lookup key c'.store) [
      | none ↦ (none, c')
      | some entry ↦
          if leb entry.0 now
          then (none, record c' { store = erase key c'.store })
          else (some entry.1, c')
    ]

unfoldable pub delete : {V : Type 0} → Text → OfferCache V → OfferCache V
delete key c = record c { store = erase key c.store }
