-- ===== src/SessionStore/Tests.antt =====
-- One session, two approvals: one is granted, the other expires and is rejected afterwards.
use voyagent.Prelude.{◌≡◌, refl, true, false, none, some, List, [], ◌∷◌}
use voyagent.Prelude.Text.{Text, codes, text_key}
use voyagent.Prelude.Dict.{lookup, AllValues}
use voyagent.SessionStore.{
  pending, granted, rejected, expired, PendingApproval, Session, Store, approvals_map, stamp,
  add_approval, resolve_approval, is_stale, expire_session, expire_all, expire_stale_approvals, Op,
  add, resolve, sweep, apply, apply_all,
}
use voyagent.SessionStore.Lifecycle.{IsWellFormed, apply_all-IsWellFormed}
use voyagent.SessionStore.Sweep.{answer_in, stale_count, approvals_map-lookup, expire_all-count}

abbrev approval : Text → PendingApproval
approval id = record {
  id = id;
  tool_name = codes "book";
  summary = codes "Book it";
  turn_id = codes "t-1";
  requested_at = 100;
  granted = none;
  resolved_at = none;
  expires_at = none;
  status = pending;
}

abbrev empty : Store
empty = (codes "s", record { tenant_id = codes "t"; pending_approvals = [] }) ∷ []

abbrev history : List Op
history =
    add (codes "s") (approval (codes "a")) none
    ∷ add (codes "s") (approval (codes "b")) (some 10)
    ∷ resolve (codes "s") (codes "a") true (some (codes "t")) 105
    ∷ resolve (codes "s") (codes "b") true (some (codes "other")) 106
    ∷ sweep none 110
    ∷ resolve (codes "s") (codes "b") false none 120
    ∷ []

-- The session after the sweep.
abbrev swept : Session
swept = record {
  tenant_id = codes "t";
  pending_approvals =
      (
        codes "a",
        record (approval (codes "a")) {
          expires_at = some 1_000;
          granted = some true;
          resolved_at = some 105;
          status = granted;
        },
      )
      ∷ (codes "b", record (approval (codes "b")) { expires_at = some 110; status = expired })
      ∷ [];
}

rejected_after_expiry :
    lookup (codes "s") (apply_all history empty)
    ≡ some (record swept {
      pending_approvals =
          (
            codes "a",
            record (approval (codes "a")) {
              expires_at = some 1_000;
              granted = some true;
              resolved_at = some 105;
              status = granted;
            },
          )
          ∷ (
            codes "b",
            record (approval (codes "b")) {
              expires_at = some 110;
              granted = some false;
              resolved_at = some 120;
              status = rejected;
            },
          )
          ∷ [];
    })
unfolding apply_all apply add_approval stamp resolve_approval expire_stale_approvals expire_all
    expire_session is_stale
rejected_after_expiry = refl

apply_all-IsWellFormed_example : AllValues IsWellFormed (apply_all history empty)
apply_all-IsWellFormed_example =
    apply_all-IsWellFormed history empty ((tt, refl), ((tt, refl), (tt, (tt, (tt, (tt, tt))))))
      ((tt, tt), tt)

approvals_map-lookup_example :
    lookup (codes "a") (approvals_map swept.pending_approvals)
    ≡ answer_in (lookup (codes "a") swept.pending_approvals)
approvals_map-lookup_example =
    approvals_map-lookup swept (codes "a") ((refl, (refl, tt)), ((refl, tt), ((refl, tt), tt)))

expire_all-count_example :
    ((expire_all 2_000 empty).1 ≡ stale_count 2_000 empty)
    × ((expire_all 2_000 (expire_all 2_000 empty).0).1 ≡ 0)
expire_all-count_example = expire_all-count 2_000 empty
