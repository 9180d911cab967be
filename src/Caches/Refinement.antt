-- ===== src/Caches/Refinement.antt =====
-- The offer cache of services/agent_runtime/src/voyagent_agent_runtime/offer_cache.py against a store
-- that never evicts.
use voyagent.Prelude.{
  ℕ, ◌+◌, ◌≤◌, ◌≡◌, refl, sym, ap, ◌∙◌, Option, none, some, List, [], ◌∷◌, if◌then◌else◌, if_elim,
  Option-elim, leb, leb→le, inl, inr, Bool-cases,
}
use voyagent.Prelude.Text.{Text, text_key}
use voyagent.Prelude.Dict.{Dict, lookup, insert, erase}
use voyagent.Caches.Expiry.{
  visible, Agrees, Agrees-later, insert-Agrees, erase-Agrees, evict-Agrees, visible-Agrees,
}
use voyagent.Caches.Offers.{
  OfferCache, empty_cache, drop_expired, sweep, put, get, delete, heappush,
}

-- A call, with the readings of the clock that it makes.
pub data Op (V : Type 0) : Type 0 where
  puts : ℕ → Text → V → ℕ → Op V
  gets : ℕ → ℕ → Text → Op V
  deletes : Text → Op V

module _ {V : Type 0} where
  -- The answers of the cache to the gets of a history.
  unfoldable pub answers : List (Op V) → OfferCache V → List (Option V)
  answers [] c = []
  answers (puts now key offer ttl ∷ ops) c = elim (put now key offer ttl c) [
    | none ↦ answers ops c
    | some c' ↦ answers ops c'
  ]
  answers (gets swept_at now key ∷ ops) c =
      let (answer, c') = get swept_at now key c in answer ∷ answers ops c'
  answers (deletes key ∷ ops) c = answers ops (delete key c)

  -- The answers of a store that keeps all that was put and not deleted.
  unfoldable pub expected : List (Op V) → Dict Text (ℕ × V) → List (Option V)
  expected [] all = []
  expected (puts now key offer ttl ∷ ops) all =
      if leb ttl 0 then expected ops all else expected ops (insert key (now + ttl, offer) all)
  expected (gets swept_at now key ∷ ops) all = visible now (lookup key all) ∷ expected ops all
  expected (deletes key ∷ ops) all = expected ops (erase key all)

  -- The clock does not go back from `t` on.
  abbrev pub Clocked : ℕ → List (Op V) → Type 0
  Clocked t [] = Unit
  Clocked t (puts now key offer ttl ∷ ops) = (t ≤ now) × Clocked now ops
  Clocked t (gets swept_at now key ∷ ops) = (t ≤ swept_at) × ((swept_at ≤ now) × Clocked now ops)
  Clocked t (deletes key ∷ ops) = Clocked t ops

  drop-Agrees :
      (now : ℕ) (key : Text) (store all : Dict Text (ℕ × V))
      → Agrees now store all
      → Agrees now (drop_expired now key store) all
  drop-Agrees now key store all h =
      Option-elim (lookup key store) (λ (d : Dict Text (ℕ × V)). Agrees now d all) (λ missing. h)
        (λ entry there.
          if_elim (leb entry.0 now) (λ (d : Dict Text (ℕ × V)). Agrees now d all)
            (λ late. evict-Agrees now key entry store all there (leb→le entry.0 now late) h)
            (λ fresh. h))

  sweep-Agrees :
      (now : ℕ) (heap : List (ℕ × Text)) (store all : Dict Text (ℕ × V))
      → Agrees now store all
      → Agrees now (sweep now heap store).store all
  unfolding sweep
  sweep-Agrees now [] store all h = h
  sweep-Agrees now ((at, key) ∷ heap) store all h =
      if_elim (leb at now) (λ (c : OfferCache V). Agrees now c.store all)
        (λ due.
          sweep-Agrees now heap (drop_expired now key store) all (drop-Agrees now key store all h))
        (λ later. h)

  -- A get answers as the full store does, and leaves a cache that agrees with it still.
  get-Agrees :
      (t swept_at now : ℕ) (key : Text) (c : OfferCache V) (all : Dict Text (ℕ × V))
      → t ≤ swept_at
      → swept_at ≤ now
      → Agrees t c.store all
      → ((get swept_at now key c).0 ≡ visible now (lookup key all))
        × Agrees now (get swept_at now key c).1.store all
  unfolding get
  get-Agrees t swept_at now key c all le le' h =
      let c' = sweep swept_at c.expiry_heap c.store in
      let swept =
        sweep-Agrees swept_at c.expiry_heap c.store all
          (Agrees-later t swept_at c.store all le h) in
      let seen = visible-Agrees swept_at now key c'.store all le' swept in
      let kept = Agrees-later swept_at now c'.store all le' swept in
      Option-elim (lookup key c'.store)
        (λ (r : Option V × OfferCache V).
          (r.0 ≡ visible now (lookup key all)) × Agrees now r.1.store all)
        (λ missing. (sym (ap (visible now) missing) ∙ seen, kept))
        (λ entry there.
          if_elim (leb entry.0 now)
            (λ (r : Option V × OfferCache V).
              (r.0 ≡ visible now (lookup key all)) × Agrees now r.1.store all)
            (λ late. (
              sym (ap (visible now) there ∙ ap (λ b. if b then none else some entry.1) late) ∙ seen,
              evict-Agrees now key entry c'.store all there (leb→le entry.0 now late) kept,
            ))
            (λ fresh. (
              sym (ap (visible now) there ∙ ap (λ b. if b then none else some entry.1) fresh)
                  ∙ seen,
              kept,
            )))

  answers-Agrees :
      (ops : List (Op V)) (t : ℕ) (c : OfferCache V) (all : Dict Text (ℕ × V))
      → Clocked t ops
      → Agrees t c.store all
      → answers ops c ≡ expected ops all
  unfolding answers expected put delete
  answers-Agrees [] t c all clocked h = refl
  answers-Agrees (puts now key offer ttl ∷ ops) t c all (le, clocked) h =
      let later = Agrees-later t now c.store all le h in
      elim (Bool-cases (leb ttl 0)) [
        | inl refused ↦
            rw (answers, expected, put, refused) (answers-Agrees ops now c all clocked later)
        | inr positive ↦
            rw (answers, expected, put, positive)
              (answers-Agrees ops now
                (record {
                  store = insert key (now + ttl, offer) c.store;
                  expiry_heap = heappush (now + ttl, key) c.expiry_heap;
                })
                (insert key (now + ttl, offer) all) clocked
                (insert-Agrees now key (now + ttl, offer) c.store all later))
      ]
  answers-Agrees (gets swept_at now key ∷ ops) t c all (le, (le', clocked)) h =
      let (same, kept) = get-Agrees t swept_at now key c all le le' h in
      ap (λ a. a ∷ answers ops (get swept_at now key c).1) same
      ∙ ap (λ as'. visible now (lookup key all) ∷ as')
          (answers-Agrees ops now (get swept_at now key c).1 all clocked kept)
  answers-Agrees (deletes key ∷ ops) t c all clocked h =
      answers-Agrees ops t (delete key c) (erase key all) clocked (erase-Agrees t key c.store all h)

  -- The cache answers as if nothing were ever evicted but what is deleted: to any history of puts,
  -- gets and deletes with a clock that does not go back, each get is answered with the offer last put
  -- under its key, unless that was deleted since or has expired.
  pub answers-expected :
      (ops : List (Op V)) → Clocked 0 ops → answers ops empty_cache ≡ expected ops []
  answers-expected ops clocked = answers-Agrees ops 0 empty_cache [] clocked (λ k. inl refl)
