-- ===== src/Prelude/Dict.antt =====
-- A Python dict as an association list, in insertion order.

use mathlib.Core.Path.{◌≡◌, refl, sym, ap, subst, ◌∙◌}
use mathlib.Core.Logic.{◌≢◌, inl, inr}
use mathlib.Core.Option.{Option, none, some}
use mathlib.Core.List.{List, [], ◌∷◌}
use native.Mathlib.Omega.{arith}
use voyagent.Prelude.Tests.{if◌then◌else◌, if_elim, Bool-cases, Option-cases, is_some}
use voyagent.Prelude.Keys.{Eq, =?_flip, ◌=?◌, =?_iff, =?_self}

abbrev pub Dict {ℓ κ} : Type ℓ → Type κ → Type (ℓ ⊔ κ)
Dict K V = List (K × V)

-- The first of two values that is there.
abbrev pub or_else {ℓ} : {V : Type ℓ} → Option V → Option V → Option V
or_else none o = o
or_else (some v) o = some v

pub or_else-none {ℓ} : {V : Type ℓ} (o : Option V) → or_else o none ≡ o
or_else-none none = refl
or_else-none (some v) = refl

pub some_inj {ℓ} : {V : Type ℓ} (v w : V) → some v ≡ some w → v ≡ w
some_inj v w e = cc

pub none≢some {ℓ} : {V : Type ℓ} (v : V) → none ≡ some v → ⊥
none≢some v e = cc

module _ {ℓ κ} {K : Type ℓ} {V : Type κ} ⦃e : Eq K⦄ where
  -- `d.get(k)`
  abbrev pub lookup : K → Dict K V → Option V
  lookup k [] = none
  lookup k ((j, v) ∷ d) = if j =? k then some v else lookup k d

  -- `d[k] = v`
  abbrev pub insert : K → V → Dict K V → Dict K V
  insert k v [] = (k, v) ∷ []
  insert k v ((j, w) ∷ d) = if j =? k then (j, v) ∷ d else (j, w) ∷ insert k v d

  -- `d.pop(k, None)`
  abbrev pub erase : K → Dict K V → Dict K V
  erase k [] = []
  erase k ((j, v) ∷ d) = let rest = erase k d in if j =? k then rest else (j, v) ∷ rest

  pub lookup-insert :
      (k j : K) (v : V) (d : Dict K V)
      → lookup j (insert k v d) ≡ (if k =? j then some v else lookup j d)
  lookup-insert k j v [] = refl
  lookup-insert k j v ((i, w) ∷ d) =
      ground (arith, =?_iff k j, =?_iff i k, =?_iff i j, lookup-insert k j v d)

  pub lookup-insert_self : (k : K) (v : V) (d : Dict K V) → lookup k (insert k v d) ≡ some v
  lookup-insert_self k v d = ground (arith, lookup-insert k k v d, =?_self k)

  pub lookup-insert_ne :
      (k j : K) (v : V) (d : Dict K V) → k ≢ j → lookup j (insert k v d) ≡ lookup j d
  lookup-insert_ne k j v d h = ground (arith, lookup-insert k j v d, =?_iff k j)

  pub lookup-erase :
      (k j : K) (d : Dict K V) → lookup j (erase k d) ≡ (if k =? j then none else lookup j d)
  lookup-erase k j [] = ground arith
  lookup-erase k j ((i, w) ∷ d) =
      ground (arith, =?_iff k j, =?_iff i k, =?_iff i j, lookup-erase k j d)

  -- `if k not in d: d[k] = v`
  abbrev pub setdefault : K → V → Dict K V → Dict K V
  setdefault k v d = if is_some (lookup k d) then d else insert k v d

  pub lookup-setdefault :
      (k j : K) (v : V) (rest : Option V) (d : Dict K V)
      → or_else (lookup j (setdefault k v d)) rest
        ≡ or_else (lookup j d) (if k =? j then some v else rest)
  lookup-setdefault k j v rest d = elim (Option-cases (lookup k d)) [
    | inl missing ↦
        rw (missing, lookup-insert k j v d)
          (elim (Bool-cases (k =? j)) [
            | inl same ↦ rw (same, sym (ap (λ i. lookup i d) ((=?_iff k j).0 same)), missing) refl
            | inr other ↦ rw other refl
          ])
    | inr (w, found) ↦ rw found (elim (Bool-cases (k =? j)) [
      | inl same ↦ rw (same, sym (ap (λ i. lookup i d) ((=?_iff k j).0 same)), found) refl
      | inr other ↦ rw other refl
    ])
  ]

  -- Every key occurs once, as in a Python dict.
  abbrev pub IsDict : Dict K V → Type κ
  IsDict [] = Unit
  IsDict ((k, v) ∷ d) = (lookup k d ≡ none) × IsDict d

  pub insert-IsDict : (k : K) (v : V) (d : Dict K V) → IsDict d → IsDict (insert k v d)
  insert-IsDict k v [] h = (refl, tt)
  insert-IsDict k v ((j, w) ∷ d) (h, hs) =
      if_elim (j =? k) IsDict (λ same. (h, hs))
        (λ other. (
          lookup-insert k j v d
              ∙ ap (λ b. if b then some v else lookup j d) (=?_flip j k other)
              ∙ h,
          insert-IsDict k v d hs,
        ))

  -- A property of all values.
  abbrev pub AllValues {μ} : (V → Type μ) → Dict K V → Type μ
  AllValues P [] = Unit
  AllValues P ((k, v) ∷ d) = P v × AllValues P d

  pub insert-AllValues {μ} :
      (P : V → Type μ) (k : K) (v : V) (d : Dict K V)
      → P v
      → AllValues P d
      → AllValues P (insert k v d)
  insert-AllValues P k v [] p h = (p, tt)
  insert-AllValues P k v ((j, w) ∷ d) p (h, hs) =
      if_elim (j =? k) (AllValues P) (λ same. (p, hs)) (λ other. (h, insert-AllValues P k v d p hs))

  pub lookup-AllValues {μ} :
      (P : V → Type μ) (k : K) (v : V) (d : Dict K V) → AllValues P d → lookup k d ≡ some v → P v
  lookup-AllValues P k v ((j, w) ∷ d) (h, hs) found =
      if_elim (j =? k) (λ o. o ≡ some v → P v) (λ same e. subst P (some_inj w v e) h)
        (λ other e. lookup-AllValues P k v d hs e) found
  lookup-AllValues P k v [] h e = absurd (none≢some v e)
