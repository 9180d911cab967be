-- ===== src/Approvals/Decided.antt =====
-- What services/api/src/voyagent_api/approvals.py does with approvals that are decided or overdue.
use mathlib.Core.Bool.{false≢true, true≢false}
use voyagent.Prelude.{
  ℕ, ◌≡◌, ◌≢◌, refl, sym, ap, ◌∙◌, Bool, true, false, ◌&&◌, Option, List, [], ◌∷◌, if_elim,
  Option-elim, All, arith,
}
use voyagent.Prelude.Text.{Text, eq_text, eq_text_iff}
use voyagent.Prelude.Tables.{find_where, find_where-both, update_where-All}
use voyagent.Enquiries.Types.{Principal, Answer, ok, error}
use voyagent.Approvals.Endpoints.{
  ApprovalStatusEnum, pending, granted, rejected, expired, PendingApprovalRow, Db, Env, is_resolved,
  eq_status, is_of_tenant, is_past, is_stale, expired_row, sweep_expired, parse_session_id, Query,
  ApprovalListResponse, page, list_approvals, save, resolved_row, write_approval_audit,
  resolve_approval_endpoint, Request, lists, resolves, serve, serve_all,
}

-- The approval with an id is this one, if it is there.
abbrev pub IsRow : Text → PendingApprovalRow → PendingApprovalRow → Type 0
IsRow id decided r = r.id ≡ id → r ≡ decided

pending_of : (s : ApprovalStatusEnum) → eq_status s pending ≡ true → s ≡ pending
pending_of pending e = refl
pending_of granted e = absurd (false≢true e)
pending_of rejected e = absurd (false≢true e)
pending_of expired e = absurd (false≢true e)

module _ (id : Text) (decided : PendingApprovalRow) (done : is_resolved decided.status ≡ true) where
  -- Where it is decided, it is neither the row of a pending status nor that of an open one.
  other_than :
      (r : PendingApprovalRow) → IsRow id decided r → is_resolved r.status ≡ false → r.id ≢ id
  other_than r h open_still same =
      true≢false (
        sym done
        ∙ ap (λ (x : PendingApprovalRow). is_resolved x.status) (sym (h same))
        ∙ open_still)

  sweep-IsRow :
      (now : ℕ) (tenant : Text) (db : Db)
      → All (IsRow id decided) db.approvals
      → All (IsRow id decided) (sweep_expired now tenant db).approvals
  unfolding sweep_expired
  sweep-IsRow now tenant db h =
      update_where-All {P = IsRow id decided} {Q = IsRow id decided} (is_stale db tenant now)
        expired_row
        (λ r stale p same. absurd (
          other_than r p
            (ap is_resolved (pending_of r.status (first (eq_status r.status pending) _ _ stale)))
            same))
        (λ r fresh p. p) db.approvals h
    where
      first : (x y z : Bool) → (x && y && z) ≡ true → x ≡ true
      first x y z q = ground arith

  save-IsRow :
      (row : PendingApprovalRow) (f : PendingApprovalRow → PendingApprovalRow) (db : Db)
      → row.id ≢ id
      → ((r : PendingApprovalRow) → (f r).id ≡ r.id)
      → All (IsRow id decided) db.approvals
      → All (IsRow id decided) (save row.id f db).approvals
  save-IsRow row f db differs kept h =
      update_where-All {P = IsRow id decided} {Q = IsRow id decided} (λ r. eq_text r.id row.id) f
        (λ r hit p same.
          absurd (differs (sym ((eq_text_iff r.id row.id).0 hit) ∙ sym (kept r) ∙ same)))
        (λ r miss p. p) db.approvals h

  audit-IsRow :
      (env : Env) (tenant : Text) (principal : Principal) (row : PendingApprovalRow) (answer : Bool)
      (reason : Option Text) (db : Db)
      → All (IsRow id decided) db.approvals
      → All
          (IsRow id decided)
          (write_approval_audit env tenant principal row answer reason db).approvals
  unfolding write_approval_audit
  audit-IsRow env tenant principal row answer reason db h =
      if_elim env.audit_fails (λ (d : Db). All (IsRow id decided) d.approvals) (λ fails. h)
        (λ works. h)

  resolve-IsRow :
      (env : Env) (principal : Principal) (approval_id : Text) (answer : Bool)
      (reason : Option Text) (db : Db)
      → All (IsRow id decided) db.approvals
      → All
          (IsRow id decided)
          (resolve_approval_endpoint env principal approval_id answer reason db).1.approvals
  unfolding resolve_approval_endpoint
  resolve-IsRow env principal approval_id answer reason db h =
      Option-elim (env.parse_uuid principal.tenant_id) Keeps (λ unknown. h)
        (λ tenant known.
          Option-elim (find_where (λ r. eq_text r.id approval_id) db.approvals) Keeps (λ missing. h)
            (λ row found.
              let p =
                (find_where-both (IsRow id decided) (λ r. eq_text r.id approval_id) db.approvals row
                  h found).0 in
              if_elim (is_of_tenant db tenant row) Keeps
                (λ own.
                  if_elim (is_resolved row.status) Keeps (λ closed. h)
                    (λ open_still.
                      if_elim (is_past env.now row) Keeps
                        (λ late.
                          save-IsRow row expired_row db (other_than row p open_still) (λ r. refl) h)
                        (λ due. audit-IsRow env tenant principal row answer reason _ (
                          save-IsRow row (resolved_row env principal answer) db
                            (other_than row p open_still) (λ r. refl) h))))
                (λ foreign. h)))
    where
      Keeps : Answer PendingApprovalRow × Db → Type 0
      Keeps x = All (IsRow id decided) x.1.approvals

  list-IsRow :
      (env : Env) (principal : Principal) (query : Query) (db : Db)
      → All (IsRow id decided) db.approvals
      → All (IsRow id decided) (list_approvals env principal query db).1.approvals
  unfolding list_approvals
  list-IsRow env principal query db h =
      Option-elim (env.parse_uuid principal.tenant_id) Keeps (λ unknown. h)
        (λ tenant known. parsed (parse_session_id env query.session_id) tenant)
    where
      Keeps : Answer ApprovalListResponse × Db → Type 0
      Keeps x = All (IsRow id decided) x.1.approvals

      parsed :
          (a : Answer (Option Text)) (tenant : Text)
          → Keeps (elim a as (λ _. Answer ApprovalListResponse × Db) [
            | error e ↦ (error e, db)
            | ok session ↦ (
              ok (page tenant session query (sweep_expired env.now tenant db)),
              sweep_expired env.now tenant db,
            )
          ])
      parsed (error e) tenant = h
      parsed (ok session) tenant = sweep-IsRow env.now tenant db h

  serve-IsRow :
      (env : Env) (request : Request) (db : Db)
      → All (IsRow id decided) db.approvals
      → All (IsRow id decided) (serve env request db).approvals
  unfolding serve
  serve-IsRow env (lists principal query) db h = list-IsRow env principal query db h
  serve-IsRow env (resolves principal approval_id answer reason) db h =
      resolve-IsRow env principal approval_id answer reason db h

  -- A decision is final: an approval that is granted, rejected or expired stays the same row, with its
  -- answer, its time and its resolver, under any sequence of lists and resolutions by anyone.
  pub serve_all-IsRow :
      (requests : List (Env × Request)) (db : Db)
      → All (IsRow id decided) db.approvals
      → All (IsRow id decided) (serve_all requests db).approvals
  unfolding serve_all
  serve_all-IsRow [] db h = h
  serve_all-IsRow ((env, request) ∷ requests) db h =
      serve_all-IsRow requests (serve env request db) (serve-IsRow env request db h)
