-- ===== src/SessionStore/Lifecycle.antt =====
-- What stays true of the approvals of services/agent_runtime/src/voyagent_agent_runtime/session.py
-- over any sequence of calls, and what the gate reads off them.
use mathlib.Core.Bool.{false≢true}
use voyagent.Prelude.{
  ℕ, ◌≡◌, refl, sym, ap, subst, ◌∙◌, Bool, true, false, Option, none, some, List, [], ◌∷◌,
  if◌then◌else◌, if_elim, Option-elim, All, is_some, ◌=?◌, Bool-cases, inl, inr,
}
use voyagent.Prelude.Text.{Text, text_key}
use voyagent.Prelude.Dict.{
  Dict, lookup, IsDict, insert-IsDict, AllValues, insert-AllValues, lookup-AllValues, none≢some,
}
use voyagent.SessionStore.{
  ApprovalStatus, pending, granted, rejected, expired, PendingApproval, Session, Store, Result,
  stored, raised, stamp, add_approval, resolved, is_foreign, resolve_approval, is_stale, expire,
  expire_session, expire_all, expire_stale_approvals, Op, add, resolve, sweep, apply, apply_all,
  left_by,
}

-- The status says what the answer is, and only an answered approval has a time of its answer.
abbrev pub Agrees : ApprovalStatus → Option Bool → Option ℕ → Type 0
Agrees pending none none = Unit
Agrees granted (some true) (some _) = Unit
Agrees rejected (some false) (some _) = Unit
Agrees expired none none = Unit
Agrees _ _ _ = ⊥

abbrev pub IsConsistent : PendingApproval → Type 0
IsConsistent ap = (is_some ap.expires_at ≡ true) × Agrees ap.status ap.granted ap.resolved_at

abbrev pub IsWellFormed : Session → Type 0
IsWellFormed sess = IsDict sess.pending_approvals × AllValues IsConsistent sess.pending_approvals

-- A call adds only approvals that nobody has answered.
abbrev pub IsFresh : Op → Type 0
IsFresh (add _ ap _) = Agrees pending ap.granted ap.resolved_at × (ap.status ≡ pending)
IsFresh (resolve _ _ _ _ _) = Unit
IsFresh (sweep _ _) = Unit

stamp-IsConsistent :
    (ttl : Option ℕ) (a : PendingApproval)
    → Agrees pending a.granted a.resolved_at
    → a.status ≡ pending
    → IsConsistent (stamp ttl a)
unfolding stamp
stamp-IsConsistent ttl a h e = (refl, subst (λ s. Agrees s a.granted a.resolved_at) (sym e) h)

resolved-IsConsistent :
    (answer : Bool) (now : ℕ) (a : PendingApproval)
    → IsConsistent a
    → IsConsistent (resolved answer now a)
resolved-IsConsistent true now a (t, h) = (t, tt)
resolved-IsConsistent false now a (t, h) = (t, tt)

stale-pending : (ts : ℕ) (a : PendingApproval) → is_stale ts a ≡ true → a.status ≡ pending
unfolding is_stale
stale-pending ts a h = only_pending a.status _ h
  where
    only_pending :
        (s : ApprovalStatus) (due : Bool)
        → (elim s as (λ _. Bool) [
          | pending ↦ due
          | granted ↦ false
          | rejected ↦ false
          | expired ↦ false
        ])
          ≡ true
        → s ≡ pending
    only_pending pending due e = refl
    only_pending granted due e = absurd (false≢true e)
    only_pending rejected due e = absurd (false≢true e)
    only_pending expired due e = absurd (false≢true e)

expire-IsConsistent : (ts : ℕ) (a : PendingApproval) → IsConsistent a → IsConsistent (expire ts a)
expire-IsConsistent ts a (t, h) =
    if_elim (is_stale ts a) IsConsistent
      (λ stale. (
        t,
        open_agrees a.granted a.resolved_at
            (subst (λ s. Agrees s a.granted a.resolved_at) (stale-pending ts a stale) h),
      ))
      (λ kept. (t, h))
  where
    open_agrees : (g : Option Bool) (r : Option ℕ) → Agrees pending g r → Agrees expired g r
    open_agrees none none h = tt
    open_agrees none (some _) h = elim h [ ]
    open_agrees (some _) r h = elim h [ ]

expire_session-lookup :
    (ts : ℕ) (aps : Dict Text PendingApproval) (k : Text)
    → lookup k aps ≡ none
    → lookup k (expire_session ts aps).0 ≡ none
unfolding expire_session
expire_session-lookup ts [] k h = refl
expire_session-lookup ts ((j, a) ∷ aps) k h = elim (Bool-cases (j =? k)) [
  | inl same ↦ absurd (none≢some a (sym h ∙ ap (λ b. if b then some a else lookup k aps) same))
  | inr other ↦ rw other (
      expire_session-lookup ts aps k (sym (ap (λ b. if b then some a else lookup k aps) other) ∙ h))
]

expire_session-IsWellFormed :
    (ts : ℕ) (aps : Dict Text PendingApproval)
    → IsDict aps × AllValues IsConsistent aps
    → IsDict (expire_session ts aps).0 × AllValues IsConsistent (expire_session ts aps).0
unfolding expire_session
expire_session-IsWellFormed ts [] h = (tt, tt)
expire_session-IsWellFormed ts ((k, a) ∷ aps) ((u, us), (c, cs)) =
    let (us', cs') = expire_session-IsWellFormed ts aps (us, cs) in
    ((expire_session-lookup ts aps k u, us'), (expire-IsConsistent ts a c, cs'))

expire_all-IsWellFormed :
    (ts : ℕ) (store : Store)
    → AllValues IsWellFormed store
    → AllValues IsWellFormed (expire_all ts store).0
unfolding expire_all
expire_all-IsWellFormed ts [] h = tt
expire_all-IsWellFormed ts ((id, sess) ∷ store) (h, hs) =
    (expire_session-IsWellFormed ts sess.pending_approvals h, expire_all-IsWellFormed ts store hs)

-- A store that is well formed wherever a call returns.
abbrev Returns : Result → Type 0
Returns (stored store) = AllValues IsWellFormed store
Returns (raised error) = Unit

left_by-IsWellFormed :
    (r : Result) (store : Store)
    → Returns r
    → AllValues IsWellFormed store
    → AllValues IsWellFormed (left_by r store)
left_by-IsWellFormed (stored store') store r h = r
left_by-IsWellFormed (raised error) store r h = h

add_approval-Returns :
    (session_id : Text) (a : PendingApproval) (ttl : Option ℕ) (store : Store)
    → IsFresh (add session_id a ttl)
    → AllValues IsWellFormed store
    → Returns (add_approval session_id a ttl store)
unfolding add_approval
add_approval-Returns session_id a ttl store (f, p) h =
    Option-elim (lookup session_id store) Returns (λ missing. tt)
      (λ sess found.
        let (u, c) = lookup-AllValues IsWellFormed session_id sess store h found in
        insert-AllValues IsWellFormed session_id _ store
          (
            insert-IsDict a.id (stamp ttl a) sess.pending_approvals u,
            insert-AllValues IsConsistent a.id (stamp ttl a) sess.pending_approvals
                (stamp-IsConsistent ttl a f p) c,
          )
          h)

resolve_approval-Returns :
    (session_id approval_id : Text) (answer : Bool) (tenant : Option Text) (now : ℕ) (store : Store)
    → AllValues IsWellFormed store
    → Returns (resolve_approval session_id approval_id answer tenant now store)
unfolding resolve_approval
resolve_approval-Returns session_id approval_id answer tenant now store h =
    Option-elim (lookup session_id store) Returns (λ missing. tt)
      (λ sess found.
        let (u, c) = lookup-AllValues IsWellFormed session_id sess store h found in
        if_elim (is_foreign tenant sess) Returns (λ foreign. tt)
          (λ own.
            Option-elim (lookup approval_id sess.pending_approvals) Returns (λ unknown. tt)
              (λ a hit.
                insert-AllValues IsWellFormed session_id _ store
                  (
                    insert-IsDict approval_id (resolved answer now a) sess.pending_approvals u,
                    insert-AllValues IsConsistent approval_id (resolved answer now a)
                        sess.pending_approvals
                        (resolved-IsConsistent answer now a (
                          lookup-AllValues IsConsistent approval_id a sess.pending_approvals c hit))
                        c,
                  )
                  h)))

sweep-IsWellFormed :
    (session_id : Option Text) (ts : ℕ) (store : Store)
    → AllValues IsWellFormed store
    → AllValues IsWellFormed (expire_stale_approvals session_id ts store).0
unfolding expire_stale_approvals
sweep-IsWellFormed none ts store h = expire_all-IsWellFormed ts store h
sweep-IsWellFormed (some session_id) ts store h =
    Option-elim (lookup session_id store) (λ (r : Store × ℕ). AllValues IsWellFormed r.0)
      (λ missing. expire_all-IsWellFormed ts store h)
      (λ sess found.
        insert-AllValues IsWellFormed session_id _ store
          (expire_session-IsWellFormed ts sess.pending_approvals
            (lookup-AllValues IsWellFormed session_id sess store h found))
          h)

apply-IsWellFormed :
    (op : Op) (store : Store)
    → IsFresh op
    → AllValues IsWellFormed store
    → AllValues IsWellFormed (apply op store)
unfolding apply
apply-IsWellFormed (add session_id a ttl) store f h =
    left_by-IsWellFormed (add_approval session_id a ttl store) store
      (add_approval-Returns session_id a ttl store f h) h
apply-IsWellFormed (resolve session_id approval_id answer tenant now) store f h =
    left_by-IsWellFormed (resolve_approval session_id approval_id answer tenant now store) store
      (resolve_approval-Returns session_id approval_id answer tenant now store h) h
apply-IsWellFormed (sweep session_id ts) store f h = sweep-IsWellFormed session_id ts store h

-- From a well-formed store, every sequence of calls that adds only unanswered approvals leaves one
-- in which each approval has an expiry, is granted or rejected exactly if it has that answer and a
-- time of it, and is pending or expired exactly if it has neither.
pub apply_all-IsWellFormed :
    (ops : List Op) (store : Store)
    → All IsFresh ops
    → AllValues IsWellFormed store
    → AllValues IsWellFormed (apply_all ops store)
unfolding apply_all
apply_all-IsWellFormed [] store f h = h
apply_all-IsWellFormed (op ∷ ops) store (f, fs) h =
    apply_all-IsWellFormed ops (apply op store) fs (apply-IsWellFormed op store f h)
