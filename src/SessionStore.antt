-- ===== src/SessionStore.antt =====
-- Pending approvals: InMemorySessionStore of
-- services/agent_runtime/src/voyagent_agent_runtime/session.py. Times are seconds. Messages, the SSE
-- buffer and the timestamps of sessions, which no approval depends on, are left out.
pub mod Lifecycle
pub mod Sweep
mod Tests
use voyagent.Prelude.{
  ℕ, ◌+◌, Bool, true, false, Option, none, some, List, [], ◌∷◌, if◌then◌else◌, leb,
}
use voyagent.Prelude.Text.{Text, eq_text, text_key}
use voyagent.Prelude.Dict.{Dict, lookup, insert}

abbrev pub default_approval_ttl_seconds : ℕ
default_approval_ttl_seconds = 900

pub data ApprovalStatus : Type 0 where
  pending granted rejected expired : ApprovalStatus

pub record PendingApproval : Type 0 where
  pub id : Text
  pub tool_name : Text
  pub summary : Text
  pub turn_id : Text
  pub requested_at : ℕ
  pub granted : Option Bool
  pub resolved_at : Option ℕ
  pub expires_at : Option ℕ
  pub status : ApprovalStatus

pub record Session : Type 0 where
  pub tenant_id : Text
  pub pending_approvals : Dict Text PendingApproval

abbrev pub Store : Type 0
Store = Dict Text Session

-- `KeyError` of a session or of an approval, and `CrossTenantApprovalError`.
pub data StoreError : Type 0 where
  no_session : Text → StoreError
  no_approval : Text → StoreError
  cross_tenant : Text → Text → StoreError

pub data Result : Type 0 where
  stored : Store → Result
  raised : StoreError → Result

-- `Session.approvals_map`.
unfoldable pub approvals_map : Dict Text PendingApproval → Dict Text Bool
approvals_map [] = []
approvals_map ((id, ap) ∷ aps) =
    let rest = approvals_map aps in elim ap.granted [ none ↦ rest | some g ↦ (id, g) ∷ rest ]

-- `expires_at`, stamped off `requested_at` unless the caller gave one.
unfoldable pub stamp : Option ℕ → PendingApproval → PendingApproval
stamp ttl ap =
    let seconds : ℕ = elim ttl [ none ↦ default_approval_ttl_seconds | some t ↦ t ] in
    record ap {
      expires_at = some (elim ap.expires_at [ none ↦ ap.requested_at + seconds | some t ↦ t ]);
    }

unfoldable pub add_approval : Text → PendingApproval → Option ℕ → Store → Result
add_approval session_id ap ttl store = elim (lookup session_id store) [
  | none ↦ raised (no_session session_id)
  | some sess ↦ stored (
      insert session_id
        (record sess { pending_approvals = insert ap.id (stamp ttl ap) sess.pending_approvals })
        store)
]

-- The copy that `resolve_approval` makes of what it found.
abbrev pub resolved : Bool → ℕ → PendingApproval → PendingApproval
resolved answer now ap = record ap {
  granted = some answer;
  resolved_at = some now;
  status = if answer then ApprovalStatus.granted else rejected;
}

-- `actor_tenant_id is not None and sess.tenant_id != actor_tenant_id`
abbrev pub is_foreign : Option Text → Session → Bool
is_foreign none sess = false
is_foreign (some tenant) sess = if eq_text sess.tenant_id tenant then false else true

unfoldable pub resolve_approval : Text → Text → Bool → Option Text → ℕ → Store → Result
resolve_approval session_id approval_id answer actor_tenant now store =
    elim (lookup session_id store) [
      | none ↦ raised (no_session session_id)
      | some sess ↦
          if is_foreign actor_tenant sess
          then raised (cross_tenant approval_id sess.tenant_id)
          else (elim (lookup approval_id sess.pending_approvals) [
            | none ↦ raised (no_approval approval_id)
            | some existing ↦ stored (
                insert session_id
                  (record sess {
                    pending_approvals =
                        insert approval_id (resolved answer now existing) sess.pending_approvals;
                  })
                  store)
          ])
    ]

-- Whether the sweep flips an approval.
unfoldable pub is_stale : ℕ → PendingApproval → Bool
is_stale ts ap = elim ap.status [
  | pending ↦ elim ap.expires_at [ none ↦ false | some at ↦ leb at ts ]
  | granted ↦ false
  | rejected ↦ false
  | expired ↦ false
]

abbrev pub expire : ℕ → PendingApproval → PendingApproval
expire ts ap = if is_stale ts ap then record ap { status = expired } else ap

-- The sweep of one session: its approvals, each under its own key, and how many were flipped.
unfoldable pub expire_session : ℕ → Dict Text PendingApproval → Dict Text PendingApproval × ℕ
expire_session ts [] = ([], 0)
expire_session ts ((id, ap) ∷ aps) =
    let (rest, flipped) = expire_session ts aps in
    ((id, expire ts ap) ∷ rest, if is_stale ts ap then flipped + 1 else flipped)

-- `expire_stale_approvals` over all sessions.
unfoldable pub expire_all : ℕ → Store → Store × ℕ
expire_all ts [] = ([], 0)
expire_all ts ((id, sess) ∷ store) =
    let (aps, flipped) = expire_session ts sess.pending_approvals in
    let (rest, others) = expire_all ts store in
    ((id, record sess { pending_approvals = aps }) ∷ rest, flipped + others)

-- `expire_stale_approvals`: of one session, if it is there, else of all.
unfoldable pub expire_stale_approvals : Option Text → ℕ → Store → Store × ℕ
expire_stale_approvals none ts store = expire_all ts store
expire_stale_approvals (some session_id) ts store = elim (lookup session_id store) [
  | none ↦ expire_all ts store
  | some sess ↦
      let (aps, flipped) = expire_session ts sess.pending_approvals in
      (insert session_id (record sess { pending_approvals = aps }) store, flipped)
]

-- A call of the store.
pub data Op : Type 0 where
  add : Text → PendingApproval → Option ℕ → Op
  resolve : Text → Text → Bool → Option Text → ℕ → Op
  sweep : Option Text → ℕ → Op

-- What a call leaves: a call that raises leaves the store as it was.
abbrev pub left_by : Result → Store → Store
left_by (stored store') store = store'
left_by (raised error) store = store

unfoldable pub apply : Op → Store → Store
apply (add session_id ap ttl) store = left_by (add_approval session_id ap ttl store) store
apply (resolve session_id approval_id answer tenant now) store =
    left_by (resolve_approval session_id approval_id answer tenant now store) store
apply (sweep session_id ts) store = (expire_stale_approvals session_id ts store).0

unfoldable pub apply_all : List Op → Store → Store
apply_all [] store = store
apply_all (op ∷ ops) store = apply_all ops (apply op store)
