-- ===== src/Prelude/Text.antt =====
-- Python strings as lists of code points.
use Prim.Native.Nat.{ℕ}
use Prim.Native.Char.{code}
use Prim.Native.String.{String}
use mathlib.Core.Path.{◌≡◌, refl}
use mathlib.Core.Logic.{◌↔◌}
use mathlib.Core.Bool.{Bool, true, false, ◌&&◌}
use mathlib.Core.List.{List, [], ◌∷◌, ◌++◌}
use native.Mathlib.Omega.{arith}
use voyagent.Prelude.Tests.{◌==◌, if◌then◌else◌}
use voyagent.Prelude.Lists.{length}
use voyagent.Prelude.Keys.{Eq, ◌=?◌}

abbrev pub Text : Type 0
Text = List ℕ

-- A literal.
abbrev pub codes : String → Text
codes String.[] = []
codes (String.◌∷◌ c s) = code c ∷ codes s

abbrev pub eq_text : Text → Text → Bool
eq_text [] [] = true
eq_text [] (_ ∷ _) = false
eq_text (_ ∷ _) [] = false
eq_text (a ∷ s) (b ∷ t) = a == b && eq_text s t

eq_text_sound : (s t : Text) → eq_text s t ≡ true → s ≡ t
eq_text_sound [] [] h = refl
eq_text_sound [] (b ∷ t) h = cc
eq_text_sound (a ∷ s) [] h = cc
eq_text_sound (a ∷ s) (b ∷ t) h = ground (arith, eq_text_sound s t)

eq_text_self : (s : Text) → eq_text s s ≡ true
eq_text_self [] = refl
eq_text_self (a ∷ s) = ground (arith, eq_text_self s)

pub eq_text_iff : (s t : Text) → (eq_text s t ≡ true) ↔ (s ≡ t)
eq_text_iff s t = (eq_text_sound s t, λ e. rw e (eq_text_self t))

instance abbrev pub text_key : Eq Text
text_key = record { beq = eq_text; beq_iff = eq_text_iff }

-- `a in xs`.
abbrev pub contains {ℓ} : {A : Type ℓ} ⦃e : Eq A⦄ → A → List A → Bool
contains a [] = false
contains a (x ∷ xs) = let rest = contains a xs in if a =? x then true else rest

abbrev pub is_empty {ℓ} : {A : Type ℓ} → List A → Bool
is_empty [] = true
is_empty (_ ∷ _) = false

pub append_left_cancel : (s t u : Text) → s ++ t ≡ s ++ u → t ≡ u
append_left_cancel [] t u e = e
append_left_cancel (a ∷ s) t u e = append_left_cancel s t u (cc)

pub append_inj : (s t u v : Text) → s ++ u ≡ t ++ v → length s ≡ length t → (s ≡ t) × (u ≡ v)
append_inj [] [] u v e h = (refl, e)
append_inj [] (b ∷ t) u v e h = absurd (omega arith)
append_inj (a ∷ s) [] u v e h = absurd (omega arith)
append_inj (a ∷ s) (b ∷ t) u v e h =
    let rest = append_inj s t u v (cc) (omega arith) in (ground (arith, rest), rest.1)
