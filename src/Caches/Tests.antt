-- ===== src/Caches/Tests.antt =====
-- An offer that is read, expires and is deleted; a tool's result that is read by its tenant only.
use voyagent.Prelude.{ℕ, ◌≡◌, refl, none, some, List, [], ◌∷◌, arith}
use voyagent.Prelude.Text.{codes}
use voyagent.Caches.Offers.{empty_cache, heappush, sweep, put, get, delete}
use voyagent.Caches.Tools.{ToolResultCache, default_ttl_seconds, is_cacheable, ttl_for}
use voyagent.Caches.Tools as Results
use voyagent.Caches.Refinement.{Op, puts, gets, deletes, answers, expected, answers-expected}

abbrev history : List (Op ℕ)
history =
    puts 10 (codes "k") 7 5
    ∷ gets 12 12 (codes "k")
    ∷ gets 14 15 (codes "k")
    ∷ puts 20 (codes "k") 8 5
    ∷ puts 20 (codes "z") 9 0
    ∷ gets 21 21 (codes "k")
    ∷ deletes (codes "k")
    ∷ gets 22 22 (codes "k")
    ∷ []

read_until_it_expires : answers history empty_cache ≡ some 7 ∷ none ∷ some 8 ∷ none ∷ []
unfolding answers put get delete sweep heappush
read_until_it_expires = refl

answers-expected_example : answers history empty_cache ≡ expected history []
answers-expected_example = answers-expected history (
  omega arith,
  (
    omega arith,
    (
      omega arith,
      (
        omega arith,
        (
          omega arith,
          (
            omega arith,
            (omega arith, (omega arith, (omega arith, (omega arith, (omega arith, tt))))),
          ),
        ),
      ),
    ),
  ),
)

abbrev cached : ToolResultCache ℕ
cached =
    Results.put 100 (codes "a") (codes "check_hotel_rate") (codes "h") 5
      (record { default_ttl = default_ttl_seconds; store = []; hits = 0; misses = 0 })

own_tenant_hits :
    (Results.get 219 (codes "a") (codes "check_hotel_rate") (codes "h") cached).0 ≡ some 5
unfolding Results.put Results.get is_cacheable ttl_for
own_tenant_hits = refl

other_tenant_misses :
    (Results.get 219 (codes "b") (codes "check_hotel_rate") (codes "h") cached).1.misses ≡ 1
unfolding Results.put Results.get is_cacheable ttl_for
other_tenant_misses = refl
