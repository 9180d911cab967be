-- ===== src/RateLimiter/Quota.antt =====
-- The limiter against the quota that it enforces: a log of every accepted request that is never
-- pruned, in which the two windows are counted from scratch (rate_limiter.py, `check`).
use voyagent.Prelude.{
  ℕ, ◌+◌, ◌≤◌, ◌≡◌, refl, ◌∙◌, inl, inr, Option, none, some, List, [], ◌∷◌, ◌++◌, reverse, arith,
  ltb, if◌then◌else◌, length, All, All-append, count_if, count_if-append, Bool-cases, =?_iff, ◌=?◌,
}
use voyagent.Prelude.Text.{Text, text_key}
use voyagent.Prelude.Dict.{insert, lookup-insert}
use voyagent.RateLimiter.{
  Events, events_of, Scope, hour, minute, Call, check, run, prune, count_recent, minute_window,
  hour_window,
}
use voyagent.RateLimiter.Window.{
  within, Ascending, Ascending-append, prune-Ascending, prune-All, count_if-prune, length-prune,
  count_recent-reverse,
}

-- The quota over the whole log of accepted requests.
unfoldable pub quota : Events → Text → ℕ → ℕ → ℕ → Events × Option Scope
quota log tenant now per_minute per_hour =
    let q = events_of tenant log in
    if ltb per_hour (count_if (within now hour_window) q + 1)
    then (log, some hour)
    else if ltb per_minute (count_if (within now minute_window) q + 1)
    then (log, some minute)
    else (insert tenant (q ++ now ∷ []) log, none)

unfoldable pub quota_run : Events → List Call → Events × List (Option Scope)
unfolding quota
quota_run log [] = (log, [])
quota_run log (c ∷ cs) =
    let (log', outcome) = quota log c.tenant c.now c.per_minute c.per_hour in
    let (log'', outcomes) = quota_run log' cs in (log'', outcome ∷ outcomes)

-- The clock never runs backwards.
abbrev pub Ordered : ℕ → List Call → Type 0
Ordered start [] = Unit
Ordered start (c ∷ cs) = (start ≤ c.now) × Ordered c.now cs

-- A deque `q` stands for the log `l` of one tenant, at time `at`.
record Tracks (at : ℕ) (q l : List ℕ) : Type 0 where
  sorted : Ascending 0 q
  past : All (λ t. t ≤ at) q
  agrees :
      (later w : ℕ)
      → at ≤ later
      → w ≤ hour_window
      → count_if (within later w) q ≡ count_if (within later w) l

abbrev Related : ℕ → Events → Events → Type 0
Related at d log = (k : Text) → Tracks at (events_of k d) (events_of k log)

pub All-later : (a b : ℕ) (q : List ℕ) → a ≤ b → All (λ t. t ≤ a) q → All (λ t. t ≤ b) q
All-later a b [] h k = tt
All-later a b (t ∷ q) h k = (omega arith, All-later a b q h k.1)

Tracks-later : (a b : ℕ) (q l : List ℕ) → a ≤ b → Tracks a q l → Tracks b q l
Tracks-later a b q l h t = record {
  sorted = t.sorted;
  past = All-later a b q h t.past;
  agrees = λ later w k m. t.agrees later w (omega arith) m;
}

Tracks-prune : (at now : ℕ) (q l : List ℕ) → at ≤ now → Tracks at q l → Tracks now (prune now q) l
Tracks-prune at now q l h t = record {
  sorted = prune-Ascending 0 now q t.sorted;
  past = prune-All (λ x. x ≤ now) now q (All-later at now q h t.past);
  agrees = λ later w k m. count_if-prune now later w q k m ∙ t.agrees later w (omega arith) m;
}

Tracks-append :
    (now : ℕ) (q l : List ℕ) → Tracks now q l → Tracks now (q ++ now ∷ []) (l ++ now ∷ [])
Tracks-append now q l t = record {
  sorted = Ascending-append 0 now q t.sorted t.past (omega arith);
  past = All-append (λ x. x ≤ now) q (now ∷ []) t.past (omega arith, tt);
  agrees = λ later w k m. omega (
    arith,
    t.agrees later w k m,
    count_if-append (within later w) q (now ∷ []),
    count_if-append (within later w) l (now ∷ []),
  );
}

pub events_of-insert :
    (k j : Text) (q : List ℕ) (d : Events)
    → events_of j (insert k q d) ≡ (if k =? j then q else events_of j d)
events_of-insert k j q d = ground (arith, lookup-insert k j q d)

Related-pruned :
    (at now : ℕ) (k : Text) (d log : Events)
    → at ≤ now
    → Related at d log
    → Related now (insert k (prune now (events_of k d)) d) log
Related-pruned at now k d log h r j = elim (Bool-cases (k =? j)) [
  | inl same ↦
      let e : k ≡ j = (=?_iff k j).0 same in
      rw (events_of-insert k j (prune now (events_of k d)) d, same, ← e)
        (Tracks-prune at now (events_of k d) (events_of k log) h (r k))
  | inr other ↦
      rw (events_of-insert k j (prune now (events_of k d)) d, other)
        (Tracks-later at now (events_of j d) (events_of j log) h (r j))
]

Related-accepted :
    (at now : ℕ) (k : Text) (d log : Events)
    → at ≤ now
    → Related at d log
    → Related now
        (insert k (prune now (events_of k d) ++ now ∷ []) d)
        (insert k (events_of k log ++ now ∷ []) log)
Related-accepted at now k d log h r j = elim (Bool-cases (k =? j)) [
  | inl same ↦
      let e : k ≡ j = (=?_iff k j).0 same in
      rw
        (
          events_of-insert k j (prune now (events_of k d) ++ now ∷ []) d,
          events_of-insert k j (events_of k log ++ now ∷ []) log,
          same,
        )
        (Tracks-append now (prune now (events_of k d)) (events_of k log)
          (Tracks-prune at now (events_of k d) (events_of k log) h (r k)))
  | inr other ↦
      rw
        (
          events_of-insert k j (prune now (events_of k d) ++ now ∷ []) d,
          events_of-insert k j (events_of k log ++ now ∷ []) log,
          other,
        )
        (Tracks-later at now (events_of j d) (events_of j log) h (r j))
]

-- What one check sees of the deque is what the quota counts in the log.
hour_agrees :
    (at now : ℕ) (q l : List ℕ)
    → at ≤ now
    → Tracks at q l
    → length (prune now q) ≡ count_if (within now hour_window) l
hour_agrees at now q l h t =
    length-prune 0 now q t.sorted ∙ t.agrees now hour_window h (omega arith)

minute_agrees :
    (at now : ℕ) (q l : List ℕ)
    → at ≤ now
    → Tracks at q l
    → count_recent now (reverse (prune now q)) ≡ count_if (within now minute_window) l
minute_agrees at now q l h t =
    let p : Tracks now (prune now q) l = Tracks-prune at now q l h t in
    count_recent-reverse 0 now now (prune now q) p.sorted p.past
    ∙ p.agrees now minute_window (omega arith) (omega arith)

-- One step keeps the two related, and both give the same outcome.
check-quota :
    (at now : ℕ) (k : Text) (pm ph : ℕ) (d log : Events)
    → at ≤ now
    → Related at d log
    → ((check d k now pm ph).1 ≡ (quota log k now pm ph).1)
      × Related now (check d k now pm ph).0 (quota log k now pm ph).0
unfolding check quota
check-quota at now k pm ph d log h r =
    let q = events_of k d in
    let l = events_of k log in
    rw
      (
        hour_agrees at now (events_of k d) (events_of k log) h (r k),
        minute_agrees at now (events_of k d) (events_of k log) h (r k),
      )
      (elim (Bool-cases (ltb ph (count_if (within now hour_window) l + 1))) [
        | inl over ↦ rw over (refl, Related-pruned at now k d log h r)
        | inr below ↦ elim (Bool-cases (ltb pm (count_if (within now minute_window) l + 1))) [
          | inl over ↦ rw (below, over) (refl, Related-pruned at now k d log h r)
          | inr free ↦ rw (below, free) (refl, Related-accepted at now k d log h r)
        ]
      ])

run-quota_from :
    (at : ℕ) (d log : Events) (cs : List Call)
    → Ordered at cs
    → Related at d log
    → (run d cs).1 ≡ (quota_run log cs).1
unfolding run quota_run
run-quota_from at d log [] o r = refl
run-quota_from at d log (c ∷ cs) o r =
    let step = check-quota at c.now c.tenant c.per_minute c.per_hour d log o.0 r in
    let rest =
      run-quota_from c.now (check d c.tenant c.now c.per_minute c.per_hour).0
        (quota log c.tenant c.now c.per_minute c.per_hour).0 cs o.1 step.1 in
    cc (step.0, rest)

-- On a limiter that starts empty, every history of calls whose clock never runs backwards gets
-- exactly the outcomes of the quota counted over the whole log of accepted requests: for all
-- tenants, whatever the limits of each call, pruning and the early break change no decision.
pub run-quota_run : (cs : List Call) → Ordered 0 cs → (run [] cs).1 ≡ (quota_run [] cs).1
run-quota_run cs o =
    run-quota_from 0 [] [] cs o
      (λ k. record { sorted = tt; past = tt; agrees = λ later w h m. refl })
