-- ===== src/RateLimiter/Window.antt =====
-- What the deque of one tenant knows of the requests accepted so far: rate_limiter.py, the pruning
-- and counting loops of `check`.
use mathlib.Core.List.{reverse-cons}
use voyagent.Prelude.{
  ℕ, ◌+◌, ◌≤◌, ◌<◌, ◌≡◌, refl, ◌∙◌, Bool, List, [], ◌∷◌, ◌++◌, reverse, arith, leb, length, All,
  count_if, count_if-append, All-append,
}
use voyagent.RateLimiter.{minute_window, hour_window, prune, count_recent}

-- `t` lies in the window of width `w` that ends at `now`.
abbrev pub within : ℕ → ℕ → ℕ → Bool
within now w t = leb now (t + w)

abbrev pub Ascending : ℕ → List ℕ → Type 0
Ascending lo [] = Unit
Ascending lo (t ∷ q) = (lo ≤ t) × Ascending t q

abbrev Descending : ℕ → List ℕ → Type 0
Descending hi [] = Unit
Descending hi (t ∷ q) = (t ≤ hi) × Descending t q

Ascending-weaken : (a b : ℕ) (q : List ℕ) → a ≤ b → Ascending b q → Ascending a q
Ascending-weaken a b [] h s = tt
Ascending-weaken a b (t ∷ q) h s = (omega arith, s.1)

pub Ascending-append :
    (lo now : ℕ) (q : List ℕ)
    → Ascending lo q
    → All (λ t. t ≤ now) q
    → lo ≤ now
    → Ascending lo (q ++ now ∷ [])
Ascending-append lo now [] s b h = (h, tt)
Ascending-append lo now (t ∷ q) s b h = (s.0, Ascending-append t now q s.1 b.1 b.0)

pub prune-Ascending : (lo now : ℕ) (q : List ℕ) → Ascending lo q → Ascending lo (prune now q)
unfolding prune
prune-Ascending lo now [] s = tt
prune-Ascending lo now (t ∷ q) s =
    ground (arith, prune-Ascending t now q s.1, Ascending-weaken lo t (prune now q))

pub prune-All : (P : ℕ → Type 0) (now : ℕ) (q : List ℕ) → All P q → All P (prune now q)
unfolding prune
prune-All P now [] h = tt
prune-All P now (t ∷ q) h = ground (arith, prune-All P now q h.1)

-- Pruning loses nothing that a window of an hour or less can see, now or later.
pub count_if-prune :
    (now later w : ℕ) (q : List ℕ)
    → now ≤ later
    → w ≤ hour_window
    → count_if (within later w) (prune now q) ≡ count_if (within later w) q
unfolding prune
count_if-prune now later w [] h k = refl
count_if-prune now later w (t ∷ q) h k = ground (arith, count_if-prune now later w q h k)

all_within :
    (lo now w : ℕ) (q : List ℕ)
    → Ascending lo q
    → now ≤ lo + w
    → count_if (within now w) q ≡ length q
all_within lo now w [] s h = refl
all_within lo now w (t ∷ q) s h = ground (arith, all_within t now w q s.1)

-- What is left after pruning is the hour window.
pub length-prune :
    (lo now : ℕ) (q : List ℕ)
    → Ascending lo q
    → length (prune now q) ≡ count_if (within now hour_window) q
unfolding prune
length-prune lo now [] s = refl
length-prune lo now (t ∷ q) s =
    ground (arith, length-prune t now q s.1, all_within t now hour_window q s.1)

none_within :
    (hi now w : ℕ) (q : List ℕ) → Descending hi q → hi + w < now → count_if (within now w) q ≡ 0
none_within hi now w [] s h = refl
none_within hi now w (t ∷ q) s h = ground (arith, none_within t now w q s.1)

count_recent-Descending :
    (hi now : ℕ) (q : List ℕ)
    → Descending hi q
    → count_recent now q ≡ count_if (within now minute_window) q
unfolding count_recent
count_recent-Descending hi now [] s = refl
count_recent-Descending hi now (t ∷ q) s =
    ground (arith, count_recent-Descending t now q s.1, none_within t now minute_window q s.1)

Descending-append :
    (hi t : ℕ) (q : List ℕ)
    → Descending hi q
    → All (λ x. t ≤ x) q
    → t ≤ hi
    → Descending hi (q ++ t ∷ [])
Descending-append hi t [] s b h = (h, tt)
Descending-append hi t (x ∷ q) s b h = (s.0, Descending-append x t q s.1 b.1 b.0)

All-reverse : (P : ℕ → Type 0) (q : List ℕ) → All P q → All P (reverse q)
All-reverse P [] h = tt
All-reverse P (t ∷ q) h =
    rw (reverse-cons t q) (All-append P (reverse q) (t ∷ []) (All-reverse P q h.1) (h.0, tt))

Ascending-All : (lo t : ℕ) (q : List ℕ) → t ≤ lo → Ascending lo q → All (λ x. t ≤ x) q
Ascending-All lo t [] h s = tt
Ascending-All lo t (x ∷ q) h s = (omega arith, Ascending-All x t q (omega arith) s.1)

Descending-reverse :
    (lo hi : ℕ) (q : List ℕ) → Ascending lo q → All (λ x. x ≤ hi) q → Descending hi (reverse q)
Descending-reverse lo hi [] s b = tt
Descending-reverse lo hi (t ∷ q) s b = rw (reverse-cons t q) (
    Descending-append hi t (reverse q) (Descending-reverse t hi q s.1 b.1)
      (All-reverse (λ x. t ≤ x) q (Ascending-All t t q (omega arith) s.1)) b.0)

count_if-reverse : (p : ℕ → Bool) (q : List ℕ) → count_if p (reverse q) ≡ count_if p q
count_if-reverse p [] = refl
count_if-reverse p (t ∷ q) =
    rw (reverse-cons t q)
      (ground (arith, count_if-append p (reverse q) (t ∷ []), count_if-reverse p q))

-- The loop that breaks early counts the whole minute window.
pub count_recent-reverse :
    (lo now hi : ℕ) (q : List ℕ)
    → Ascending lo q
    → All (λ x. x ≤ hi) q
    → count_recent now (reverse q) ≡ count_if (within now minute_window) q
count_recent-reverse lo now hi q s b =
    count_recent-Descending hi now (reverse q) (Descending-reverse lo hi q s b)
    ∙ count_if-reverse (within now minute_window) q
