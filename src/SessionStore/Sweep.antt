-- ===== src/SessionStore/Sweep.antt =====
-- What the runtime reads of the approvals, and the sweep of stale ones:
-- services/agent_runtime/src/voyagent_agent_runtime/session.py.

use voyagent.Prelude.{
  ℕ, ◌+◌, ◌≡◌, refl, sym, ap, ◌∙◌, Bool, true, false, Option, none, some, [], ◌∷◌, if◌then◌else◌,
  Bool-cases, inl, inr, arith, ◌=?◌, =?_iff,
}
use voyagent.Prelude.Text.{Text, text_key}
use voyagent.Prelude.Dict.{Dict, lookup, IsDict, AllValues, none≢some}
use voyagent.SessionStore.{
  ApprovalStatus, pending, granted, rejected, expired, PendingApproval, Session, Store,
  approvals_map, is_stale, expire, expire_session, expire_all,
}
use voyagent.SessionStore.Lifecycle.{Agrees, IsConsistent, IsWellFormed}

-- The answer that a status stands for.
abbrev pub answer_of : ApprovalStatus → Option Bool
answer_of pending = none
answer_of granted = some true
answer_of rejected = some false
answer_of expired = none

abbrev pub answer_in : Option PendingApproval → Option Bool
answer_in none = none
answer_in (some a) = answer_of a.status

Agrees-answer :
    (s : ApprovalStatus) (g : Option Bool) (r : Option ℕ) → Agrees s g r → g ≡ answer_of s
Agrees-answer pending none none h = refl
Agrees-answer granted (some true) (some _) h = refl
Agrees-answer rejected (some false) (some _) h = refl
Agrees-answer expired none none h = refl
Agrees-answer _ _ _ h = elim h [ ]

-- One entry of the map, in front of the rest.
abbrev entry : Text → Option Bool → Dict Text Bool → Dict Text Bool
entry j g rest = elim g [ none ↦ rest | some b ↦ (j, b) ∷ rest ]

entry-other :
    (j k : Text) (g : Option Bool) (rest : Dict Text Bool)
    → (j =? k) ≡ false
    → lookup k (entry j g rest) ≡ lookup k rest
entry-other j k none rest h = refl
entry-other j k (some b) rest h = rw h refl

entry-same :
    (j k : Text) (g : Option Bool) (rest : Dict Text Bool)
    → (j =? k) ≡ true
    → lookup k rest ≡ none
    → lookup k (entry j g rest) ≡ g
entry-same j k none rest h e = e
entry-same j k (some b) rest h e = rw h refl

-- A lookup past a first entry with another key, and at one with the same.
past :
    (j k : Text) (a : PendingApproval) (aps : Dict Text PendingApproval)
    → (j =? k) ≡ false
    → lookup k ((j, a) ∷ aps) ≡ lookup k aps
past j k a aps h = ap (λ b. if b then some a else lookup k aps) h

hit :
    (j k : Text) (a : PendingApproval) (aps : Dict Text PendingApproval)
    → (j =? k) ≡ true
    → lookup k ((j, a) ∷ aps) ≡ some a
hit j k a aps h = ap (λ b. if b then some a else lookup k aps) h

approvals_map-absent :
    (k : Text) (aps : Dict Text PendingApproval)
    → lookup k aps ≡ none
    → lookup k (approvals_map aps) ≡ none
unfolding approvals_map
approvals_map-absent k [] h = refl
approvals_map-absent k ((j, a) ∷ aps) h = elim (Bool-cases (j =? k)) [
  | inl same ↦ absurd (none≢some a (sym h ∙ hit j k a aps same))
  | inr other ↦
      entry-other j k a.granted (approvals_map aps) other
      ∙ approvals_map-absent k aps (sym (past j k a aps other) ∙ h)
]

-- In a well-formed session the map that gates tool calls holds exactly the answered approvals: a
-- granted one as true, a rejected one as false, and neither a pending nor an expired one.
pub approvals_map-lookup :
    (sess : Session) (k : Text)
    → IsWellFormed sess
    → lookup k (approvals_map sess.pending_approvals) ≡ answer_in (lookup k sess.pending_approvals)
unfolding approvals_map
approvals_map-lookup sess k (u, c) = answers sess.pending_approvals u c
  where
    answers :
        (aps : Dict Text PendingApproval)
        → IsDict aps
        → AllValues IsConsistent aps
        → lookup k (approvals_map aps) ≡ answer_in (lookup k aps)
    answers [] u c = refl
    answers ((j, a) ∷ aps) (u, us) ((timed, c), cs) = elim (Bool-cases (j =? k)) [
      | inl same ↦
          entry-same j k a.granted (approvals_map aps) same
            (approvals_map-absent k aps (sym (ap (λ i. lookup i aps) ((=?_iff j k).0 same)) ∙ u))
          ∙ Agrees-answer a.status a.granted a.resolved_at c
          ∙ ap answer_in (sym (hit j k a aps same))
      | inr other ↦
          entry-other j k a.granted (approvals_map aps) other
          ∙ answers aps us cs
          ∙ ap answer_in (sym (past j k a aps other))
    ]

-- The number of stale approvals.
abbrev pub stale_in : ℕ → Dict Text PendingApproval → ℕ
stale_in ts [] = 0
stale_in ts ((k, a) ∷ aps) = let rest = stale_in ts aps in if is_stale ts a then rest + 1 else rest

abbrev pub stale_count : ℕ → Store → ℕ
stale_count ts [] = 0
stale_count ts ((id, sess) ∷ store) = stale_in ts sess.pending_approvals + stale_count ts store

expire-fresh : (ts : ℕ) (a : PendingApproval) → is_stale ts (expire ts a) ≡ false
unfolding is_stale
expire-fresh ts a = elim (Bool-cases (is_stale ts a)) [
  | inl stale ↦ ap (λ b. is_stale ts (if b then record a { status = expired } else a)) stale
  | inr kept ↦ ap (λ b. is_stale ts (if b then record a { status = expired } else a)) kept ∙ kept
]

expire_session-count :
    (ts : ℕ) (aps : Dict Text PendingApproval)
    → ((expire_session ts aps).1 ≡ stale_in ts aps) × (stale_in ts (expire_session ts aps).0 ≡ 0)
unfolding expire_session
expire_session-count ts [] = (refl, refl)
expire_session-count ts ((k, a) ∷ aps) =
    let (e, z) = expire_session-count ts aps in
    (
      ap (λ n. if is_stale ts a then n + 1 else n) e,
      ap
            (λ b.
              if b
              then stale_in ts (expire_session ts aps).0 + 1
              else stale_in ts (expire_session ts aps).0)
            (expire-fresh ts a)
          ∙ z,
    )

-- A sweep of all sessions reports how many approvals were pending past their expiry, and leaves
-- none: a second sweep at the same time flips nothing.
pub expire_all-count :
    (ts : ℕ) (store : Store)
    → ((expire_all ts store).1 ≡ stale_count ts store)
      × ((expire_all ts (expire_all ts store).0).1 ≡ 0)
unfolding expire_all
expire_all-count ts [] = (refl, refl)
expire_all-count ts ((id, sess) ∷ store) =
    let (e, z) = expire_all-count ts store in
    let (e', z') = expire_session-count ts sess.pending_approvals in
    let again = expire_session-count ts (expire_session ts sess.pending_approvals).0 in
    (omega (arith, e, e'), omega (arith, again.0, z', z))
