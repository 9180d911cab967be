-- ===== src/Enquiries/Promotion.antt =====
-- A promotion of services/api/src/voyagent_api/enquiries.py that is asked for twice.
use voyagent.Prelude.{
  ℕ, ◌≡◌, refl, sym, subst, ap, ◌∙◌, Bool, true, ◌&&◌, Option, none, some, Option-elim, arith,
}
use voyagent.Prelude.Text.{Text, codes, eq_text, eq_text_iff}
use voyagent.Prelude.Dict.{none≢some, some_inj}
use voyagent.Prelude.Tables.{find_where, update_where, find-update_where}
use voyagent.Enquiries.Types.{EnquiryRow, Db, Principal, Env, HttpError, Answer, ok, error}
use voyagent.Enquiries.Validation.{http_error, tenant_uuid, user_uuid, parse_enquiry_id}
use voyagent.Enquiries.Endpoints.{
  is_owned, load_owned_enquiry, save, promoted, with_session, promote_to_session,
}
use voyagent.Enquiries.Kept.{ok_inj, error≢ok, and_then-elim, loaded}

-- The environment of a later request: another time, and another session id drawn.
abbrev pub afterwards : Env → ℕ → Text → Env
afterwards env now drawn = record env { now = now; new_session_id = drawn }

saved_is_loaded :
    (env : Env) (id tenant user : Text) (db : Db) (row : EnquiryRow)
    → load_owned_enquiry id tenant db ≡ ok row
    → load_owned_enquiry id tenant (save (promoted env row) (with_session env tenant user db))
      ≡ ok (promoted env row)
unfolding load_owned_enquiry
saved_is_loaded env id tenant user db row found =
    let (hit, same, here) = loaded id tenant db row found in
    ap
      (λ (o : Option EnquiryRow). elim o as (λ _. Answer EnquiryRow) [
        | none ↦ error (http_error 404 (codes "enquiry_not_found"))
        | some r ↦ ok r
      ])
      (subst
        (λ i.
          find_where (is_owned i tenant)
            (update_where (is_owned row.id row.tenant_id) (λ old. promoted env row) db.enquiries)
          ≡ some (promoted env row))
        same
        (subst
          (λ t.
            find_where (is_owned row.id t)
              (update_where (is_owned row.id row.tenant_id) (λ old. promoted env row) db.enquiries)
            ≡ some (promoted env row))
          here
          (find-update_where (is_owned row.id row.tenant_id) (λ old. promoted env row) db.enquiries
            row
            (λ x owns.
              both (eq_text row.id row.id) (eq_text row.tenant_id row.tenant_id)
                ((eq_text_iff row.id row.id).1 refl)
                ((eq_text_iff row.tenant_id row.tenant_id).1 refl))
            (subst (λ i. find_where (is_owned i row.tenant_id) db.enquiries ≡ some row) (sym same)
              (subst (λ t. find_where (is_owned id t) db.enquiries ≡ some row) (sym here) hit)))))
  where
    both : (x y : Bool) → x ≡ true → y ≡ true → (x && y) ≡ true
    both x y p q = ground arith

-- What a promotion finds when each of its steps is known.
settled :
    (env : Env) (principal : Principal) (raw tenant user id : Text) (db : Db) (row : EnquiryRow)
    (session : Text)
    → tenant_uuid env principal ≡ ok tenant
    → user_uuid env principal ≡ ok user
    → parse_enquiry_id env raw ≡ ok id
    → load_owned_enquiry id tenant db ≡ ok row
    → row.session_id ≡ some session
    → promote_to_session env principal raw db ≡ ok (row, session, db)
unfolding promote_to_session
settled env principal raw tenant user id db row session known named parsed found attached =
    rw (promote_to_session, known, named, parsed, found)
      (Option-elim row.session_id
        (λ (a : Answer (EnquiryRow × Text × Db)). a ≡ ok (row, session, db))
        (λ missing. absurd (none≢some session (sym missing ∙ attached)))
        (λ s there. ap (λ t. ok (row, t, db)) (some_inj s session (sym there ∙ attached))))

-- A promotion is idempotent: after one that returned a row and a session, the same caller's next
-- promotion returns the same row and session and leaves the database as it is, whatever session id
-- is drawn then.
pub promote_to_session_again :
    (env : Env) (principal : Principal) (raw : Text) (db : Db) (now : ℕ) (drawn : Text)
    (result : EnquiryRow × Text × Db)
    → promote_to_session env principal raw db ≡ ok result
    → promote_to_session (afterwards env now drawn) principal raw result.2 ≡ ok result
unfolding promote_to_session tenant_uuid user_uuid parse_enquiry_id
promote_to_session_again env principal raw db now drawn result =
    and_then-elim Again (tenant_uuid env principal) _ bad (λ tenant known.
      and_then-elim Again (user_uuid env principal) _ bad (λ user named.
        and_then-elim Again (parse_enquiry_id env raw) _ bad (λ id parsed.
          and_then-elim Again (load_owned_enquiry id tenant db) _ bad (λ row found.
            Option-elim row.session_id Again
              (λ fresh done. subst Same (ok_inj _ result done) (
                settled (afterwards env now drawn) principal raw tenant user id _ (promoted env row)
                  env.new_session_id known named parsed
                  (saved_is_loaded env id tenant user db row found) refl))
              (λ session attached done. subst Same (ok_inj _ result done) (
                settled (afterwards env now drawn) principal raw tenant user id db row session known
                  named parsed found attached))))))
  where
    Same : EnquiryRow × Text × Db → Type 0
    Same r = promote_to_session (afterwards env now drawn) principal raw r.2 ≡ ok r

    Again : Answer (EnquiryRow × Text × Db) → Type 0
    Again a = a ≡ ok result → Same result

    bad : (e : HttpError) → Again (error e)
    bad e h = absurd (error≢ok e result h)
