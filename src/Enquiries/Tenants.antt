-- ===== src/Enquiries/Tenants.antt =====
-- Whose rows a request to services/api/src/voyagent_api/enquiries.py reads and changes.
use voyagent.Prelude.{
  ◌≡◌, ◌≢◌, refl, sym, ap, ◌∙◌, Bool, true, false, ◌&&◌, some, List, [], ◌∷◌, ◌++◌, if◌then◌else◌,
  Option-elim, filter, arith, Bool-cases, inl, inr,
}
use voyagent.Prelude.Text.{Text, eq_text, eq_text_iff}
use voyagent.Prelude.Tables.{filter-update_where, filter-append}
use voyagent.Enquiries.Types.{
  EnquiryRow, Db, EnquiryCreateRequest, EnquiryPatchRequest, Principal, Env, Answer, ok, error,
}
use voyagent.Enquiries.Validation.{
  tenant_uuid, user_uuid, parse_enquiry_id, parse_session_id_or_none,
}
use voyagent.Enquiries.Endpoints.{
  validate, created_row, create_enquiry, is_owned, load_owned_enquiry, owned, patched, save,
  patch_enquiry, promoted, with_session, promote_to_session, Request, creates, patches, promotes,
  left_by, serve,
}
use voyagent.Enquiries.Kept.{and_then-elim, unless-elim, loaded, owned_row}
use voyagent.Enquiries.Rules.{patched-Patch}

abbrev pub rows_of : Text → Db → List EnquiryRow
rows_of tenant db = filter (λ r. eq_text r.tenant_id tenant) db.enquiries

-- The caller of a request.
abbrev pub caller : Request → Principal
caller (creates principal body) = principal
caller (patches principal raw body) = principal
caller (promotes principal raw) = principal

differs : (s t : Text) → s ≢ t → eq_text s t ≡ false
differs s t h = elim (Bool-cases (eq_text s t)) [
  | inl same ↦ absurd (h ((eq_text_iff s t).0 same))
  | inr other ↦ other
]

owner_of : (id mine : Text) (r : EnquiryRow) → is_owned id mine r ≡ true → r.tenant_id ≡ mine
owner_of id mine r h = (eq_text_iff r.tenant_id mine).0 (second (eq_text r.id id) _ h)
  where
    second : (x y : Bool) → (x && y) ≡ true → y ≡ true
    second x y h = ground arith

save-rows_of :
    (tenant : Text) (row : EnquiryRow) (db : Db)
    → row.tenant_id ≢ tenant
    → rows_of tenant (save row db) ≡ rows_of tenant db
save-rows_of tenant row db other =
    filter-update_where (is_owned row.id row.tenant_id) (λ r. eq_text r.tenant_id tenant)
      (λ old. row) db.enquiries
      (λ r hit.
        differs r.tenant_id tenant
          (λ same. other (sym (owner_of row.id row.tenant_id r hit) ∙ same)))
      (λ r hit. differs row.tenant_id tenant other)

-- An answer that leaves the rows of a tenant as they were.
abbrev Spares : {A : Type 0} → Text → Db → Answer (A × Db) → Type 0
Spares tenant db (ok (a, db')) = rows_of tenant db' ≡ rows_of tenant db
Spares tenant db (error e) = Unit

create-Spares :
    (env : Env) (principal : Principal) (body : EnquiryCreateRequest) (db : Db) (tenant : Text)
    → tenant_uuid env principal ≢ ok tenant
    → Spares tenant db (create_enquiry env principal body db)
unfolding create_enquiry
create-Spares env principal body db tenant other =
    and_then-elim (Spares {A = EnquiryRow} tenant db) (tenant_uuid env principal) _ (λ e. tt)
      (λ mine known.
        and_then-elim (Spares {A = EnquiryRow} tenant db) (user_uuid env principal) _ (λ e. tt)
          (λ user named.
            unless-elim (Spares {A = EnquiryRow} tenant db)
              (validate body.budget_currency body.depart_date body.return_date
                (some body.pax_count))
              _ (λ e. tt)
              (λ valid.
                and_then-elim (Spares {A = EnquiryRow} tenant db)
                  (parse_session_id_or_none env body.session_id) _ (λ e. tt)
                  (λ session parsed.
                    let out = differs mine tenant (λ same. other (known ∙ ap ok same)) in
                    filter-append (λ r. eq_text r.tenant_id tenant) db.enquiries
                      (created_row env mine user body session ∷ [])
                    ∙ ap
                        (λ b.
                          rows_of tenant db
                          ++ (if b then created_row env mine user body session ∷ [] else []))
                        out
                    ∙ append_nil (rows_of tenant db)))))
  where
    append_nil : (rows : List EnquiryRow) → rows ++ [] ≡ rows
    append_nil [] = refl
    append_nil (r ∷ rows) = ap (λ rs. r ∷ rs) (append_nil rows)

patch-Spares :
    (env : Env) (principal : Principal) (raw : Text) (body : EnquiryPatchRequest) (db : Db)
    (tenant : Text)
    → tenant_uuid env principal ≢ ok tenant
    → Spares tenant db (patch_enquiry env principal raw body db)
unfolding patch_enquiry
patch-Spares env principal raw body db tenant other =
    and_then-elim (Spares {A = EnquiryRow} tenant db) (owned env principal raw db) _ (λ e. tt)
      (λ row found.
        and_then-elim (Spares {A = EnquiryRow} tenant db) (patched env body row) _ (λ e. tt)
          (λ row' done. save-rows_of tenant row' db (λ same. other (
            (owned_row env principal raw db row found).0
            ∙ ap ok (sym (patched-Patch env body row row' done).same_tenant ∙ same)))))

abbrev SparesAll : Text → Db → Answer (EnquiryRow × Text × Db) → Type 0
SparesAll tenant db (ok (row, session, db')) = rows_of tenant db' ≡ rows_of tenant db
SparesAll tenant db (error e) = Unit

promote-Spares :
    (env : Env) (principal : Principal) (raw : Text) (db : Db) (tenant : Text)
    → tenant_uuid env principal ≢ ok tenant
    → SparesAll tenant db (promote_to_session env principal raw db)
unfolding promote_to_session
promote-Spares env principal raw db tenant other =
    and_then-elim (SparesAll tenant db) (tenant_uuid env principal) _ (λ e. tt)
      (λ mine known.
        and_then-elim (SparesAll tenant db) (user_uuid env principal) _ (λ e. tt)
          (λ user named.
            and_then-elim (SparesAll tenant db) (parse_enquiry_id env raw) _ (λ e. tt)
              (λ id parsed.
                and_then-elim (SparesAll tenant db) (load_owned_enquiry id mine db) _ (λ e. tt)
                  (λ row found.
                    Option-elim row.session_id (SparesAll tenant db)
                      (λ fresh.
                        save-rows_of tenant (promoted env row) (with_session env mine user db)
                          (λ same.
                            other (known ∙ ap ok (sym (loaded id mine db row found).2 ∙ same))))
                      (λ session kept. refl)))))

-- A request changes no enquiry of another tenant than its caller's: those rows are the same, and in
-- the same order, after it.
pub serve-rows_of :
    (env : Env) (request : Request) (db : Db) (tenant : Text)
    → tenant_uuid env (caller request) ≢ ok tenant
    → rows_of tenant (serve env request db) ≡ rows_of tenant db
unfolding serve
serve-rows_of env (creates principal body) db tenant other =
    left (create_enquiry env principal body db) (create-Spares env principal body db tenant other)
  where
    left :
        (a : Answer (EnquiryRow × Db))
        → Spares tenant db a
        → rows_of tenant (left_by a db) ≡ rows_of tenant db
    left (ok (row, db')) h = h
    left (error e) h = refl
serve-rows_of env (patches principal raw body) db tenant other =
    left (patch_enquiry env principal raw body db)
      (patch-Spares env principal raw body db tenant other)
  where
    left :
        (a : Answer (EnquiryRow × Db))
        → Spares tenant db a
        → rows_of tenant (left_by a db) ≡ rows_of tenant db
    left (ok (row, db')) h = h
    left (error e) h = refl
serve-rows_of env (promotes principal raw) db tenant other =
    left (promote_to_session env principal raw db)
      (promote-Spares env principal raw db tenant other)
  where
    left :
        (a : Answer (EnquiryRow × Text × Db))
        → SparesAll tenant db a
        → rows_of tenant (elim a as (λ _. Db) [ ok (row, session, db') ↦ db' | error e ↦ db ])
          ≡ rows_of tenant db
    left (ok (row, session, db')) h = h
    left (error e) h = refl
