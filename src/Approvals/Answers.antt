-- ===== src/Approvals/Answers.antt =====
-- What the endpoints of services/api/src/voyagent_api/approvals.py answer.
use mathlib.Core.Bool.{false≢true}
use voyagent.Prelude.{
  length, ◌+◌, if◌then◌else◌, ℕ, ◌≡◌, refl, sym, ap, Bool, true, false, ◌&&◌, Option, none, some,
  List, [], ◌∷◌, if_elim, Option-elim, All, All-map, Always, All-Always, arith, inl, inr, filter,
  drop, ◌⊎◌,
}
use voyagent.Prelude.Text.{Text, eq_text}
use voyagent.Prelude.Tables.{
  find_where, update_where, update_where-All, order_desc, order_desc-All, take-All, drop-All,
}
use voyagent.Enquiries.Types.{Principal, HttpError, Answer, ok, error}
use voyagent.Approvals.Endpoints.{
  pending, PendingApprovalRow, Db, Env, is_resolved, eq_status, is_of_tenant, is_past, is_stale,
  expired_row, sweep_expired, parse_session_id, Query, ApprovalListResponse, is_listed, page,
  list_approvals, resolved_row, unauthorized, not_found, already_resolved,
}

-- A row that is shown as pending can still be decided.
abbrev pub IsCurrent : ℕ → PendingApprovalRow → Type 0
IsCurrent now r = eq_status r.status pending ≡ true → is_past now r ≡ false

-- The same, of the rows of a tenant only.
abbrev Swept : Db → Text → ℕ → PendingApprovalRow → Type 0
Swept db tenant now r = is_of_tenant db tenant r ≡ true → IsCurrent now r

sweep-Swept :
    (db : Db) (tenant : Text) (now : ℕ)
    → All (Swept db tenant now) (sweep_expired now tenant db).approvals
unfolding sweep_expired
sweep-Swept db tenant now =
    update_where-All {P = Always} {Q = Swept db tenant now} (is_stale db tenant now) expired_row
      (λ r stale p own still. absurd (false≢true still))
      (λ r fresh p own still.
        current (eq_status r.status pending) (is_past now r) (is_of_tenant db tenant r) fresh still
          own)
      db.approvals (All-Always db.approvals)
  where
    current : (s d o : Bool) → (s && d && o) ≡ false → s ≡ true → o ≡ true → d ≡ false
    current s d o q still own = ground arith

-- What a filter keeps has the property, and passes the test.
filter-both :
    (P : PendingApprovalRow → Type 0) (p : PendingApprovalRow → Bool)
    (rows : List PendingApprovalRow)
    → All P rows
    → All (λ r. P r × (p r ≡ true)) (filter p rows)
filter-both P p [] h = tt
filter-both P p (r ∷ rows) (h, hs) =
    if_elim (p r) (All (λ x. P x × (p x ≡ true))) (λ keep. ((h, keep), filter-both P p rows hs))
      (λ skip. filter-both P p rows hs)

-- What a list answers, beside the errors.
abbrev pub ShowsCurrent : ℕ → Answer ApprovalListResponse → Type 0
ShowsCurrent now (ok response) = All (IsCurrent now) response.items
ShowsCurrent now (error e) = (e.status_code ≡ 401) ⊎ (e.status_code ≡ 422)

-- To prove a property of a match on an answer.
Answer-elim :
    {A B : Type 0} (o : Answer A) {f : HttpError → B} {g : A → B} (P : B → Type 0)
    → ((e : HttpError) → o ≡ error e → P (f e))
    → ((a : A) → o ≡ ok a → P (g a))
    → P (elim o [ error e ↦ f e | ok a ↦ g a ])
Answer-elim (error e) P h k = h e refl
Answer-elim (ok a) P h k = k a refl

ok≢error : {A : Type 0} (a : A) (x : HttpError) → ok a ≡ error x → ⊥
ok≢error a x h = cc

error_inj : {A : Type 0} (x y : HttpError) → ◌≡◌ {A = Answer A} (error x) (error y) → x ≡ y
error_inj x y h = cc

parse_session_id_fails :
    (env : Env) (raw : Option Text) (e : HttpError)
    → parse_session_id env raw ≡ error e
    → e.status_code ≡ 422
unfolding parse_session_id
parse_session_id_fails env none e h = absurd (ok≢error none e h)
parse_session_id_fails env (some raw) e h =
    Option-elim (env.parse_uuid raw)
      (λ (a : Answer (Option Text)). a ≡ error e → e.status_code ≡ 422)
      (λ malformed same.
        sym (ap (λ (x : HttpError). x.status_code) (error_inj {A = Option Text} _ e same)))
      (λ id fits same. absurd (ok≢error (some id) e same)) h

page-IsCurrent :
    (env : Env) (tenant : Text) (session : Option Text) (query : Query) (db : Db)
    → All (IsCurrent env.now) (page tenant session query (sweep_expired env.now tenant db)).items
unfolding sweep_expired
page-IsCurrent env tenant session query db =
    let swept = sweep_expired env.now tenant db in
    let shows = is_listed swept tenant query.status session in
    let rows = filter shows swept.approvals in
    take-All (IsCurrent env.now) query.limit
      (drop query.offset (order_desc (λ r. r.requested_at) rows))
      (drop-All (IsCurrent env.now) query.offset (order_desc (λ r. r.requested_at) rows) (
        order_desc-All (IsCurrent env.now) (λ r. r.requested_at) rows
          (All-map (λ r both. both.0 (first (is_of_tenant swept tenant r) _ _ both.1)) rows
            (filter-both (Swept db tenant env.now) shows swept.approvals
              (sweep-Swept db tenant env.now)))))
  where
    first : (x y z : Bool) → (x && y && z) ≡ true → x ≡ true
    first x y z q = ground arith

-- A list never shows an approval as pending whose deadline has passed, whatever the query; it fails
-- only with 401 or 422.
pub list_approvals-ShowsCurrent :
    (env : Env) (principal : Principal) (query : Query) (db : Db)
    → ShowsCurrent env.now (list_approvals env principal query db).0
unfolding list_approvals
list_approvals-ShowsCurrent env principal query db =
    Option-elim (env.parse_uuid principal.tenant_id) Shows (λ unknown. inl refl)
      (λ tenant known.
        Answer-elim (parse_session_id env query.session_id) Shows
          (λ e fails. inr (parse_session_id_fails env query.session_id e fails))
          (λ session parsed. page-IsCurrent env tenant session query db))
  where
    Shows : Answer ApprovalListResponse × Db → Type 0
    Shows x = ShowsCurrent env.now x.0

-- What a resolution answers, why, and what it leaves in the database.
pub data Decided (env : Env) (principal : Principal) (approval_id : Text) (answer : Bool) (db : Db)
    : Answer PendingApprovalRow → Db → Type 0 where
  nobody :
      env.parse_uuid principal.tenant_id ≡ none
      → Decided env principal approval_id answer db (error unauthorized) db
  missing :
      find_where (λ r. eq_text r.id approval_id) db.approvals ≡ none
      → Decided env principal approval_id answer db (error not_found) db
  foreign :
      (tenant : Text) (row : PendingApprovalRow)
      → env.parse_uuid principal.tenant_id ≡ some tenant
      → find_where (λ r. eq_text r.id approval_id) db.approvals ≡ some row
      → is_of_tenant db tenant row ≡ false
      → Decided env principal approval_id answer db (error not_found) db
  closed :
      (tenant : Text) (row : PendingApprovalRow)
      → env.parse_uuid principal.tenant_id ≡ some tenant
      → find_where (λ r. eq_text r.id approval_id) db.approvals ≡ some row
      → is_of_tenant db tenant row ≡ true
      → is_resolved row.status ≡ true
      → Decided env principal approval_id answer db (error already_resolved) db
  overdue :
      (tenant : Text) (row : PendingApprovalRow) (db' : Db)
      → env.parse_uuid principal.tenant_id ≡ some tenant
      → find_where (λ r. eq_text r.id approval_id) db.approvals ≡ some row
      → is_of_tenant db tenant row ≡ true
      → is_resolved row.status ≡ false
      → is_past env.now row ≡ true
      → db'.approvals ≡ update_where (λ r. eq_text r.id row.id) expired_row db.approvals
      → db'.audit_events ≡ db.audit_events
      → Decided env principal approval_id answer db (error already_resolved) db'
  decides :
      (tenant : Text) (row : PendingApprovalRow) (db' : Db)
      → env.parse_uuid principal.tenant_id ≡ some tenant
      → find_where (λ r. eq_text r.id approval_id) db.approvals ≡ some row
      → is_of_tenant db tenant row ≡ true
      → is_resolved row.status ≡ false
      → is_past env.now row ≡ false
      → db'.approvals
        ≡ update_where (λ r. eq_text r.id row.id) (resolved_row env principal answer) db.approvals
      → length db'.audit_events ≡ length db.audit_events + (if env.audit_fails then 0 else 1)
      → Decided env principal approval_id answer db (ok (resolved_row env principal answer row)) db'
