-- ===== src/Caches/Expiry.antt =====
-- A store from which entries may be missing once they have expired, beside one that keeps them all.

use voyagent.Prelude.{
  ℕ, ◌≤◌, ◌≡◌, refl, sym, ap, ◌∙◌, Bool, true, false, Option, none, some, ◌⊎◌, inl, inr,
  if◌then◌else◌, leb, arith, Bool-cases, ◌=?◌, =?_iff, if_elim, Eq,
}
use voyagent.Prelude.Dict.{Dict, lookup, insert, erase, lookup-insert, lookup-erase}

-- The value of an entry at a time: none once it has expired.
abbrev pub visible {ℓ} : {V : Type ℓ} → ℕ → Option (ℕ × V) → Option V
visible now none = none
visible now (some (expires_at, value)) = if leb expires_at now then none else some value

module _ {ℓ κ} {K : Type ℓ} {V : Type κ} ⦃e : Eq K⦄ where
  -- At a key, both stores have the same entry, or the first has none where that of the second has
  -- expired by `t`.
  abbrev pub AgreesAt : K → ℕ → Dict K (ℕ × V) → Dict K (ℕ × V) → Type κ
  AgreesAt k t kept all =
      (lookup k kept ≡ lookup k all)
      ⊎ ((entry : ℕ × V) × (lookup k kept ≡ none) × (lookup k all ≡ some entry) × (entry.0 ≤ t))

  abbrev pub Agrees : ℕ → Dict K (ℕ × V) → Dict K (ℕ × V) → Type (ℓ ⊔ κ)
  Agrees t kept all = (k : K) → AgreesAt k t kept all

  pub Agrees-later :
      (t t' : ℕ) (kept all : Dict K (ℕ × V)) → t ≤ t' → Agrees t kept all → Agrees t' kept all
  Agrees-later t t' kept all le h k = elim (h k) [
    | inl same ↦ inl same
    | inr (entry, gone, there, old) ↦ inr (entry, gone, there, omega (arith, le, old))
  ]

  pub insert-Agrees :
      (t : ℕ) (j : K) (entry : ℕ × V) (kept all : Dict K (ℕ × V))
      → Agrees t kept all
      → Agrees t (insert j entry kept) (insert j entry all)
  insert-Agrees t j entry kept all h k = elim (Bool-cases (j =? k)) [
    | inl same ↦ inl (at_insert kept true same ∙ sym (at_insert all true same))
    | inr other ↦ elim (h k) [
      | inl alike ↦ inl (at_insert kept false other ∙ alike ∙ sym (at_insert all false other))
      | inr (old, gone, there, late) ↦
          inr (old, at_insert kept false other ∙ gone, at_insert all false other ∙ there, late)
    ]
  ]
    where
      at_insert :
          (d : Dict K (ℕ × V)) (b : Bool)
          → (j =? k) ≡ b
          → lookup k (insert j entry d) ≡ (if b then some entry else lookup k d)
      at_insert d b q = lookup-insert j k entry d ∙ ap (λ x. if x then some entry else lookup k d) q

  at_erase :
      (j k : K) (d : Dict K (ℕ × V)) (b : Bool)
      → (j =? k) ≡ b
      → lookup k (erase j d) ≡ (if b then none else lookup k d)
  at_erase j k d b q = lookup-erase j k d ∙ ap (λ x. if x then none else lookup k d) q

  pub erase-Agrees :
      (t : ℕ) (j : K) (kept all : Dict K (ℕ × V))
      → Agrees t kept all
      → Agrees t (erase j kept) (erase j all)
  erase-Agrees t j kept all h k = elim (Bool-cases (j =? k)) [
    | inl same ↦ inl (at_erase j k kept true same ∙ sym (at_erase j k all true same))
    | inr other ↦ elim (h k) [
      | inl alike ↦ inl (at_erase j k kept false other ∙ alike ∙ sym (at_erase j k all false other))
      | inr (old, gone, there, late) ↦
          inr
            (old, at_erase j k kept false other ∙ gone, at_erase j k all false other ∙ there, late)
    ]
  ]

  -- An expired entry may go from the first.
  pub evict-Agrees :
      (t : ℕ) (j : K) (entry : ℕ × V) (kept all : Dict K (ℕ × V))
      → lookup j kept ≡ some entry
      → entry.0 ≤ t
      → Agrees t kept all
      → Agrees t (erase j kept) all
  evict-Agrees t j entry kept all there late h k = elim (Bool-cases (j =? k)) [
    | inl same ↦ elim (h k) [
      | inl alike ↦ inr (
        entry,
        at_erase j k kept true same,
        sym alike ∙ ap (λ i. lookup i kept) (sym ((=?_iff j k).0 same)) ∙ there,
        late,
      )
      | inr (old, gone, was, past) ↦ inr (old, at_erase j k kept true same, was, past)
    ]
    | inr other ↦ elim (h k) [
      | inl alike ↦ inl (at_erase j k kept false other ∙ alike)
      | inr (old, gone, was, past) ↦ inr (old, at_erase j k kept false other ∙ gone, was, past)
    ]
  ]

  -- A reader sees no difference.
  pub visible-Agrees :
      (t now : ℕ) (k : K) (kept all : Dict K (ℕ × V))
      → t ≤ now
      → Agrees t kept all
      → visible now (lookup k kept) ≡ visible now (lookup k all)
  visible-Agrees t now k kept all le h = elim (h k) [
    | inl same ↦ ap (visible now) same
    | inr (entry, gone, there, late) ↦
        ap (visible now) gone ∙ sym (ap (visible now) there ∙ expired entry late)
  ]
    where
      apart : (b : Bool) (a n : ℕ) → leb a n ≡ false → a ≤ n → ⊥
      apart b a n q le = ground arith

      expired : (entry : ℕ × V) → entry.0 ≤ t → visible now (some entry) ≡ none
      expired (at, v) late =
          if_elim (leb at now) (λ (o : Option V). o ≡ none) (λ past. refl)
            (λ future. absurd (apart (leb at now) at now future (omega (arith, late, le))))
