-- ===== src/RateLimiter/Bound.antt =====
-- No window of the clock ever holds more accepted requests than its limit (rate_limiter.py).
use mathlib.Core.List.{append_assoc, append-nil}
use voyagent.Prelude.{
  ℕ, ◌+◌, ◌≤◌, ◌≡◌, sym, ◌∙◌, inl, inr, Bool, ◌&&◌, Option, none, some, List, [], ◌∷◌, ◌++◌, arith,
  ltb, leb, if◌then◌else◌, All, All-append, count_if, count_if-append, Bool-cases, =?_iff, ◌=?◌,
}
use voyagent.Prelude.Text.{Text, text_key}
use voyagent.RateLimiter.{Events, events_of, Scope, Call, run, minute_window, hour_window}
use voyagent.RateLimiter.Window.{within}
use voyagent.RateLimiter.Quota.{
  quota, quota_run, Ordered, All-later, events_of-insert, run-quota_run,
}

-- The times at which the requests of one tenant were accepted.
abbrev pub accepted : Text → List Call → List (Option Scope) → List ℕ
accepted k [] os = []
accepted k (c ∷ cs) [] = []
accepted k (c ∷ cs) (some _ ∷ os) = accepted k cs os
accepted k (c ∷ cs) (none ∷ os) =
    let rest = accepted k cs os in if c.tenant =? k then c.now ∷ rest else rest

-- `t` lies in the closed window of width `w` that ends at `finish`.
abbrev pub inside : ℕ → ℕ → ℕ → Bool
inside finish w t = leb t finish && within finish w t

-- Every call of the history has these limits.
abbrev pub SameLimits : ℕ → ℕ → List Call → Type 0
SameLimits pm ph = All (λ c. (c.per_minute ≡ pm) × (c.per_hour ≡ ph))

-- Every window of width `w` holds at most `limit` of these times, none of them after `at`.
record Fits (at w limit : ℕ) (l : List ℕ) : Type 0 where
  past : All (λ t. t ≤ at) l
  bound : (finish : ℕ) → count_if (inside finish w) l ≤ limit

inside-within :
    (at now finish w : ℕ) (l : List ℕ)
    → All (λ t. t ≤ at) l
    → at ≤ now
    → now ≤ finish
    → count_if (inside finish w) l ≤ count_if (within now w) l
inside-within at now finish w [] h k m = omega arith
inside-within at now finish w (t ∷ l) h k m = ground (arith, inside-within at now finish w l h.1)

Fits-later : (at now w limit : ℕ) (l : List ℕ) → at ≤ now → Fits at w limit l → Fits now w limit l
Fits-later at now w limit l h f = record { past = All-later at now l h f.past; bound = f.bound }

Fits-append :
    (at now w limit : ℕ) (l : List ℕ)
    → at ≤ now
    → count_if (within now w) l + 1 ≤ limit
    → Fits at w limit l
    → Fits now w limit (l ++ now ∷ [])
Fits-append at now w limit l h free f = record {
  past = All-append (λ t. t ≤ now) l (now ∷ []) (All-later at now l h f.past) (omega arith, tt);
  bound = λ finish. ground (
    arith,
    count_if-append (inside finish w) l (now ∷ []),
    inside-within at now finish w l f.past h,
    f.bound finish,
  );
}

module _ (pm ph : ℕ) (k : Text) where
  abbrev Both : ℕ → List ℕ → Type 0
  Both at l = Fits at hour_window ph l × Fits at minute_window pm l

  quota-Both :
      (at now : ℕ) (tenant : Text) (log : Events)
      → at ≤ now
      → Both at (events_of k log)
      → Both now (events_of k (quota log tenant now pm ph).0)
  unfolding quota
  quota-Both at now tenant log h (fh, fm) =
      let l = events_of tenant log in
      let kept : Both now (events_of k log) = (
        Fits-later at now hour_window ph (events_of k log) h fh,
        Fits-later at now minute_window pm (events_of k log) h fm,
      ) in
      elim (Bool-cases (ltb ph (count_if (within now hour_window) l + 1))) [
        | inl over ↦ rw over kept
        | inr below ↦ elim (Bool-cases (ltb pm (count_if (within now minute_window) l + 1))) [
          | inl over ↦ rw (below, over) kept
          | inr free ↦ elim (Bool-cases (tenant =? k)) [
            | inr other ↦
                rw (below, free, events_of-insert tenant k (l ++ now ∷ []) log, other) kept
            | inl same ↦
                let e : tenant ≡ k = (=?_iff tenant k).0 same in
                rw (below, free, events_of-insert tenant k (l ++ now ∷ []) log, same, e)
                  (
                    Fits-append at now hour_window ph (events_of k log) h
                        (rw e at (
                          let b : count_if (within now hour_window) (events_of tenant log) + 1
                              ≤ ph =
                            ground arith in
                          b))
                        fh,
                    Fits-append at now minute_window pm (events_of k log) h
                        (rw e at (
                          let b : count_if (within now minute_window) (events_of tenant log) + 1
                              ≤ pm =
                            ground arith in
                          b))
                        fm,
                  )
          ]
        ]
      ]

  -- The log grows by what is accepted.
  quota-accepted :
      (c : Call) (log : Events) (os : List (Option Scope)) (cs : List Call)
      → events_of k (quota log c.tenant c.now c.per_minute c.per_hour).0 ++ accepted k cs os
        ≡ events_of k log
          ++ accepted k (c ∷ cs) ((quota log c.tenant c.now c.per_minute c.per_hour).1 ∷ os)
  unfolding quota
  quota-accepted c log os cs =
      let l = events_of c.tenant log in
      elim (Bool-cases (ltb c.per_hour (count_if (within c.now hour_window) l + 1))) [
        | inl over ↦ rw over
        | inr below ↦
            elim (Bool-cases (ltb c.per_minute (count_if (within c.now minute_window) l + 1))) [
              | inl over ↦ rw (below, over)
              | inr free ↦ elim (Bool-cases (c.tenant =? k)) [
                | inr other ↦
                    rw (below, free, events_of-insert c.tenant k (l ++ c.now ∷ []) log, other)
                | inl same ↦
                    let e : c.tenant ≡ k = (=?_iff c.tenant k).0 same in
                    rw (below, free, events_of-insert c.tenant k (l ++ c.now ∷ []) log, same, e)
                      (append_assoc (events_of k log) (c.now ∷ []) (accepted k cs os))
              ]
            ]
      ]

  quota_run-accepted :
      (log : Events) (cs : List Call)
      → events_of k (quota_run log cs).0 ≡ events_of k log ++ accepted k cs (quota_run log cs).1
  unfolding quota_run
  quota_run-accepted log [] = sym (append-nil (events_of k log))
  quota_run-accepted log (c ∷ cs) =
      let log' = (quota log c.tenant c.now c.per_minute c.per_hour).0 in
      quota_run-accepted log' cs ∙ quota-accepted c log (quota_run log' cs).1 cs

  quota_run-Both :
      (at : ℕ) (log : Events) (cs : List Call)
      → Ordered at cs
      → SameLimits pm ph cs
      → Both at (events_of k log)
      → (finish : ℕ)
      → (count_if (inside finish hour_window) (events_of k (quota_run log cs).0) ≤ ph)
        × (count_if (inside finish minute_window) (events_of k (quota_run log cs).0) ≤ pm)
  unfolding quota_run
  quota_run-Both at log [] o s (fh, fm) finish = (fh.bound finish, fm.bound finish)
  quota_run-Both at log (c ∷ cs) o s b finish =
      let next : Both c.now (events_of k (quota log c.tenant c.now c.per_minute c.per_hour).0) =
        rw (s.0.0, s.0.1) (quota-Both at c.now c.tenant log o.0 b) in
      quota_run-Both c.now (quota log c.tenant c.now c.per_minute c.per_hour).0 cs o.1 s.1 next
        finish

-- On a limiter that starts empty and a history of calls with the same limits, whose clock never
-- runs backwards: in every window of an hour (of a minute), ending at any time, at most `ph` (`pm`)
-- requests of a tenant are accepted.
pub run_bounded :
    (pm ph : ℕ) (k : Text) (finish : ℕ) (cs : List Call)
    → Ordered 0 cs
    → SameLimits pm ph cs
    → (count_if (inside finish hour_window) (accepted k cs (run [] cs).1) ≤ ph)
      × (count_if (inside finish minute_window) (accepted k cs (run [] cs).1) ≤ pm)
run_bounded pm ph k finish cs o s =
    rw (run-quota_run cs o, ← quota_run-accepted pm ph k [] cs)
      (quota_run-Both pm ph k 0 [] cs o s
        (
          record { past = tt; bound = λ f. omega arith },
          record { past = tt; bound = λ f. omega arith },
        )
        finish)
