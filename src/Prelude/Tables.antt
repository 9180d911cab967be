-- ===== src/Prelude/Tables.antt =====
-- Database tables as lists of rows, with the statements that the repositories send.
use Prim.Native.Nat.{ℕ, zero, suc, ◌+◌, ◌≤◌}
use mathlib.Core.Logic.{inl, inr}
use native.Mathlib.Omega.{arith}
use mathlib.Core.Path.{◌≡◌, refl, subst, sym, ap, ◌∙◌}
use mathlib.Core.Bool.{Bool, true, false}
use mathlib.Core.Option.{Option, none, some}
use mathlib.Core.List.{Permᴰ}
use mathlib.Core.List.Permᴰ
use mathlib.Core.List.{List, [], ◌∷◌, ◌++◌}
use voyagent.Prelude.Tests.{if◌then◌else◌, if_elim, leb, leb→le, Bool-cases}
use voyagent.Prelude.Lists.{All, All-map, filter, length, take, drop}
use voyagent.Prelude.Dict.{none≢some, some_inj}

module _ {ℓ} {A : Type ℓ} where
  -- `select ... where p`, of which one row is read.
  abbrev pub find_where : (A → Bool) → List A → Option A
  find_where p [] = none
  find_where p (r ∷ rows) = let rest = find_where p rows in if p r then some r else rest

  -- `update ... where p`
  abbrev pub update_where : (A → Bool) → (A → A) → List A → List A
  update_where p f [] = []
  update_where p f (r ∷ rows) = (if p r then f r else r) ∷ update_where p f rows

  pub find_where-All {κ} :
      (P : A → Type κ) (p : A → Bool) (rows : List A) (r : A)
      → All P rows
      → find_where p rows ≡ some r
      → P r
  find_where-All P p [] r h e = absurd (none≢some r e)
  find_where-All P p (x ∷ rows) r (h, hs) e =
      if_elim (p x) (λ o. o ≡ some r → P r) (λ hit found. subst P (some_inj x r found) h)
        (λ miss found. find_where-All P p rows r hs found) e

  pub find_where-true :
      (p : A → Bool) (rows : List A) (r : A) → find_where p rows ≡ some r → p r ≡ true
  find_where-true p [] r e = absurd (none≢some r e)
  find_where-true p (x ∷ rows) r e =
      if_elim (p x) (λ o. o ≡ some r → p r ≡ true)
        (λ hit found. subst (λ y. p y ≡ true) (some_inj x r found) hit)
        (λ miss found. find_where-true p rows r found) e

  -- A row that is found passes the test, and has every property that all rows have.
  pub find_where-both {κ} :
      (P : A → Type κ) (p : A → Bool) (rows : List A) (r : A)
      → All P rows
      → find_where p rows ≡ some r
      → P r × (p r ≡ true)
  find_where-both P p rows r h e = (find_where-All P p rows r h e, find_where-true p rows r e)

  pub find_where-none :
      (p : A → Bool) (rows : List A) → All (λ r. p r ≡ false) rows → find_where p rows ≡ none
  find_where-none p [] h = refl
  find_where-none p (x ∷ rows) (h, hs) = rw h (find_where-none p rows hs)

  pub update_where-All {κ μ} :
      {P : A → Type κ} {Q : A → Type μ} (p : A → Bool) (f : A → A)
      → ((r : A) → p r ≡ true → P r → Q (f r))
      → ((r : A) → p r ≡ false → P r → Q r)
      → (rows : List A) → All P rows
      → All Q (update_where p f rows)
  update_where-All p f hit miss [] h = tt
  update_where-All {Q} p f hit miss (r ∷ rows) (h, hs) =
      (if_elim (p r) Q (λ e. hit r e h) (λ e. miss r e h), update_where-All p f hit miss rows hs)

  pub filter-All {κ} :
      (P : A → Type κ) (p : A → Bool) (rows : List A) → All P rows → All P (filter p rows)
  filter-All P p [] h = tt
  filter-All P p (r ∷ rows) (h, hs) =
      if_elim (p r) (All P) (λ keep. (h, filter-All P p rows hs)) (λ skip. filter-All P p rows hs)

  -- `order_by(key.desc())`; rows with the same key keep their order.
  abbrev pub insert_desc : (A → ℕ) → A → List A → List A
  insert_desc key r [] = r ∷ []
  insert_desc key r (x ∷ rows) =
      let rest = insert_desc key r rows in if leb (key x) (key r) then r ∷ x ∷ rows else x ∷ rest

  abbrev pub order_desc : (A → ℕ) → List A → List A
  order_desc key [] = []
  order_desc key (r ∷ rows) = insert_desc key r (order_desc key rows)

  -- `order_by(key.asc())`
  abbrev pub insert_asc : (A → ℕ) → A → List A → List A
  insert_asc key r [] = r ∷ []
  insert_asc key r (x ∷ rows) =
      let rest = insert_asc key r rows in if leb (key r) (key x) then r ∷ x ∷ rows else x ∷ rest

  abbrev pub order_asc : (A → ℕ) → List A → List A
  order_asc key [] = []
  order_asc key (r ∷ rows) = insert_asc key r (order_asc key rows)

  insert_desc-All {κ} :
      (P : A → Type κ) (key : A → ℕ) (r : A) (rows : List A)
      → P r
      → All P rows
      → All P (insert_desc key r rows)
  insert_desc-All P key r [] p h = (p, tt)
  insert_desc-All P key r (x ∷ rows) p (h, hs) =
      if_elim (leb (key x) (key r)) (All P) (λ before. (p, (h, hs)))
        (λ after. (h, insert_desc-All P key r rows p hs))

  pub order_desc-All {κ} :
      (P : A → Type κ) (key : A → ℕ) (rows : List A) → All P rows → All P (order_desc key rows)
  order_desc-All P key [] h = tt
  order_desc-All P key (r ∷ rows) (h, hs) =
      insert_desc-All P key r (order_desc key rows) h (order_desc-All P key rows hs)

  length-insert_desc :
      (key : A → ℕ) (r : A) (rows : List A) → length (insert_desc key r rows) ≡ length rows + 1
  length-insert_desc key r [] = refl
  length-insert_desc key r (x ∷ rows) = ground (arith, length-insert_desc key r rows)

  pub length-order_desc : (key : A → ℕ) (rows : List A) → length (order_desc key rows) ≡ length rows
  length-order_desc key [] = refl
  length-order_desc key (r ∷ rows) =
      omega (arith, length-insert_desc key r (order_desc key rows), length-order_desc key rows)

  -- Newest first: no key is smaller than one that follows it.
  abbrev pub IsDescending : (A → ℕ) → List A → Type 0
  IsDescending key [] = Unit
  IsDescending key (r ∷ rows) = All (λ x. key x ≤ key r) rows × IsDescending key rows

  insert_desc-IsDescending :
      (key : A → ℕ) (r : A) (rows : List A)
      → IsDescending key rows
      → IsDescending key (insert_desc key r rows)
  insert_desc-IsDescending key r [] h = (tt, tt)
  insert_desc-IsDescending key r (x ∷ rows) (h, hs) =
      if_elim (leb (key x) (key r)) (IsDescending key)
        (λ before.
          let le = leb→le (key x) (key r) before in
          ((le, All-map (λ y below. omega (arith, le, below)) rows h), (h, hs)))
        (λ after. (
          insert_desc-All (λ y. key y ≤ key x) key r rows (ground (arith, after)) h,
          insert_desc-IsDescending key r rows hs,
        ))

  pub order_desc-IsDescending :
      (key : A → ℕ) (rows : List A) → IsDescending key (order_desc key rows)
  order_desc-IsDescending key [] = tt
  order_desc-IsDescending key (r ∷ rows) =
      insert_desc-IsDescending key r (order_desc key rows) (order_desc-IsDescending key rows)

  insert_desc-Perm :
      (key : A → ℕ) (r : A) (rows : List A) → Permᴰ (insert_desc key r rows) (r ∷ rows)
  insert_desc-Perm key r [] = Permᴰ.refl (r ∷ [])
  insert_desc-Perm key r (x ∷ rows) =
      if_elim (leb (key x) (key r)) (λ l. Permᴰ l (r ∷ x ∷ rows))
        (λ before. Permᴰ.refl (r ∷ x ∷ rows))
        (λ after.
          Permᴰ.trans (Permᴰ.cons refl (insert_desc-Perm key r rows)) (Permᴰ.swap refl refl))

  -- The order of a query has the same rows, each as often.
  pub order_desc-Perm : (key : A → ℕ) (rows : List A) → Permᴰ (order_desc key rows) rows
  order_desc-Perm key [] = Permᴰ.nil
  order_desc-Perm key (r ∷ rows) =
      Permᴰ.trans (insert_desc-Perm key r (order_desc key rows))
        (Permᴰ.cons refl (order_desc-Perm key rows))

  pub filter-test : (p : A → Bool) (rows : List A) → All (λ r. p r ≡ true) (filter p rows)
  filter-test p [] = tt
  filter-test p (r ∷ rows) =
      if_elim (p r) (All (λ r. p r ≡ true)) (λ keep. (keep, filter-test p rows))
        (λ skip. filter-test p rows)

  -- An update leaves alone the rows that it does not meet, when it moves none of them into view.
  pub filter-update_where :
      (p q : A → Bool) (f : A → A) (rows : List A)
      → ((r : A) → p r ≡ true → q r ≡ false)
      → ((r : A) → p r ≡ true → q (f r) ≡ false)
      → filter q (update_where p f rows) ≡ filter q rows
  filter-update_where p q f [] out stays = refl
  filter-update_where p q f (r ∷ rows) out stays =
      let rest = filter-update_where p q f rows out stays in
      elim (Bool-cases (p r)) [
        | inl hit ↦ rw (hit, out r hit, stays r hit) rest
        | inr miss ↦ rw (miss, rest) refl
      ]

  pub filter-append :
      (p : A → Bool) (xs ys : List A) → filter p (xs ++ ys) ≡ filter p xs ++ filter p ys
  filter-append p [] ys = refl
  filter-append p (x ∷ xs) ys =
      rw (filter-append p xs ys)
        (elim (Bool-cases (p x)) [ inl keep ↦ rw keep refl | inr skip ↦ rw skip refl ])

  pub find-update_where :
      (p : A → Bool) (f : A → A) (rows : List A) (r : A)
      → ((x : A) → p x ≡ true → p (f x) ≡ true)
      → find_where p rows ≡ some r
      → find_where p (update_where p f rows) ≡ some (f r)
  find-update_where p f [] r stays e = absurd (none≢some r e)
  find-update_where p f (x ∷ rows) r stays e = elim (Bool-cases (p x)) [
    | inl hit ↦
        rw (hit, stays x hit)
          (ap (λ y. some (f y))
            (some_inj x r (sym (ap (λ b. if b then some x else find_where p rows) hit) ∙ e)))
    | inr miss ↦
        rw (miss, miss)
          (find-update_where p f rows r stays
            (sym (ap (λ b. if b then some x else find_where p rows) miss) ∙ e))
  ]

module _ {ℓ} {A : Type ℓ} where
  pub take-All {κ} : (P : A → Type κ) (n : ℕ) (rows : List A) → All P rows → All P (take n rows)
  take-All P zero rows h = tt
  take-All P (suc n) [] h = tt
  take-All P (suc n) (r ∷ rows) (h, hs) = (h, take-All P n rows hs)

  pub drop-All {κ} : (P : A → Type κ) (n : ℕ) (rows : List A) → All P rows → All P (drop n rows)
  drop-All P zero rows h = h
  drop-All P (suc n) [] h = tt
  drop-All P (suc n) (r ∷ rows) (h, hs) = drop-All P n rows hs

  pub length-take : (n : ℕ) (rows : List A) → length (take n rows) ≤ n
  length-take zero rows = omega arith
  length-take (suc n) [] = omega arith
  length-take (suc n) (r ∷ rows) = omega (arith, length-take n rows)

  pub take-drop : (n : ℕ) (rows : List A) → take n rows ++ drop n rows ≡ rows
  take-drop zero rows = refl
  take-drop (suc n) [] = refl
  take-drop (suc n) (r ∷ rows) = ap (λ rs. r ∷ rs) (take-drop n rows)

  pub take-IsDescending :
      (key : A → ℕ) (n : ℕ) (rows : List A) → IsDescending key rows → IsDescending key (take n rows)
  take-IsDescending key zero rows h = tt
  take-IsDescending key (suc n) [] h = tt
  take-IsDescending key (suc n) (r ∷ rows) (h, hs) =
      (take-All (λ x. key x ≤ key r) n rows h, take-IsDescending key n rows hs)

  pub drop-IsDescending :
      (key : A → ℕ) (n : ℕ) (rows : List A) → IsDescending key rows → IsDescending key (drop n rows)
  drop-IsDescending key zero rows h = h
  drop-IsDescending key (suc n) [] h = tt
  drop-IsDescending key (suc n) (r ∷ rows) (h, hs) = drop-IsDescending key n rows hs
