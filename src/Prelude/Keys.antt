-- ===== src/Prelude/Keys.antt =====
-- Types with a lawful Boolean equality: the keys of dictionaries.
use Prim.Native.Nat.{ℕ}
use Prim.Native.String.{String}
use mathlib.Core.Path.{◌≡◌, refl, ap}
use mathlib.Core.Logic.{◌↔◌}
use mathlib.Core.Bool.{Bool, true, false, ◌&&◌}
use native.Mathlib.Omega.{arith}
use text.Mathlib.Text.{◌==◌ as text_eq}
use text.Mathlib.TextEquality.{eq_iff}
use voyagent.Prelude.Tests.{◌==◌, ==_iff}

pub record Eq {ℓ} (A : Type ℓ) : Type ℓ where
  pub beq : A → A → Bool
  pub beq_iff : (a b : A) → (beq a b ≡ true) ↔ (a ≡ b)

infix 50 ◌=?◌
abbrev pub ◌=?◌ {ℓ} : {A : Type ℓ} ⦃e : Eq A⦄ → A → A → Bool
◌=?◌ ⦃e⦄ = e.beq

pub =?_iff {ℓ} : {A : Type ℓ} ⦃e : Eq A⦄ (a b : A) → ((a =? b) ≡ true) ↔ (a ≡ b)
=?_iff ⦃e⦄ a b = e.beq_iff a b

pub =?_self {ℓ} : {A : Type ℓ} ⦃e : Eq A⦄ (a : A) → (a =? a) ≡ true
=?_self ⦃e⦄ a = (e.beq_iff a a).1 refl

pub =?_flip {ℓ} : {A : Type ℓ} ⦃e : Eq A⦄ (a b : A) → (a =? b) ≡ false → (b =? a) ≡ false
=?_flip a b h = ground (arith, h, =?_iff a b, =?_iff b a)

instance abbrev pub nat_key : Eq ℕ
nat_key = record { beq = ◌==◌; beq_iff = ==_iff }

instance abbrev pub string_key : Eq String
string_key = record { beq = text_eq; beq_iff = eq_iff }

pair_path {ℓ κ} :
    {A : Type ℓ} {B : Type κ} (a c : A) (b d : B) → a ≡ c → b ≡ d → ◌≡◌ {A = A × B} (a, b) (c, d)
pair_path a c b d p q = cc

pub pair_beq_iff {ℓ κ} :
    {A : Type ℓ} {B : Type κ} ⦃ea : Eq A⦄ ⦃eb : Eq B⦄ (p q : A × B)
    → (((p.0 =? q.0) && (p.1 =? q.1)) ≡ true) ↔ (p ≡ q)
pair_beq_iff (a, b) (c, d) = (
  λ h.
      (let (p, q) = halves (a =? c) (b =? d) h in
        pair_path a c b d ((=?_iff a c).0 p) ((=?_iff b d).0 q)),
  λ e. both (a =? c) (b =? d) ((=?_iff a c).1 (ap (λ p. p.0) e)) ((=?_iff b d).1 (ap (λ p. p.1) e)),
)
  where
    halves : (x y : Bool) → (x && y) ≡ true → (x ≡ true) × (y ≡ true)
    halves x y h = ground arith

    both : (x y : Bool) → x ≡ true → y ≡ true → (x && y) ≡ true
    both x y p q = ground arith

instance abbrev pub pair_key {ℓ κ} : {A : Type ℓ} {B : Type κ} ⦃ea : Eq A⦄ ⦃eb : Eq B⦄ → Eq (A × B)
pair_key = record { beq = λ p q. (p.0 =? q.0) && (p.1 =? q.1); beq_iff = pair_beq_iff }
