-- ===== src/Enquiries/Kept.antt =====
-- What every request to services/api/src/voyagent_api/enquiries.py keeps of the rows.
use voyagent.Prelude.{
  ◌≡◌, refl, sym, subst, ap, ◌∙◌, Bool, true, Option, none, some, List, [], ◌∷◌, All, All-append,
  Always, All-Always, Option-elim, ◌&&◌, arith,
}
use voyagent.Prelude.Text.{Text, eq_text, eq_text_iff}
use voyagent.Prelude.Tables.{find_where, find_where-both, update_where-All}
use voyagent.Enquiries.Types.{
  EnquiryRow, Db, EnquiryCreateRequest, EnquiryPatchRequest, Principal, Env, HttpError, Answer, ok,
  error,
}
use voyagent.Enquiries.Validation.{
  tenant_uuid, user_uuid, parse_enquiry_id, parse_session_id_or_none,
}
use voyagent.Enquiries.Endpoints.{
  and_then, unless, validate, created_row, create_enquiry, is_owned, load_owned_enquiry, owned,
  patched, save, patch_enquiry, promoted, with_session, promote_to_session, Request, creates,
  patches, promotes, left_by, serve, serve_all,
}

pub ok_inj : {A : Type 0} (a b : A) → ok a ≡ ok b → a ≡ b
ok_inj a b e = cc

pub error≢ok : {A : Type 0} (e : HttpError) (a : A) → error e ≡ ok a → ⊥
error≢ok e a h = cc

-- To prove what holds of an answer, errors being no concern.
pub and_then-elim {ℓ} :
    {A B : Type 0} (Good : Answer B → Type ℓ) (a : Answer A) (k : A → Answer B)
    → ((e : HttpError) → Good (error e))
    → ((x : A) → a ≡ ok x → Good (k x))
    → Good (and_then a k)
and_then-elim Good (ok x) k bad h = h x refl
and_then-elim Good (error e) k bad h = bad e

pub unless-elim {ℓ} :
    {A : Type 0} (Good : Answer A → Type ℓ) (o : Option HttpError) (rest : Answer A)
    → ((e : HttpError) → Good (error e))
    → (o ≡ none → Good rest)
    → Good (unless o rest)
unless-elim Good none rest bad h = h refl
unless-elim Good (some e) rest bad h = bad e

-- A row that is loaded stands in the table under the id and the tenant.
abbrev Loaded : Text → Text → Db → Answer EnquiryRow → Type 0
Loaded id tenant db (ok row) =
    (find_where (is_owned id tenant) db.enquiries ≡ some row)
    × (row.id ≡ id)
    × (row.tenant_id ≡ tenant)
Loaded id tenant db (error e) = Unit

load_owned-Loaded :
    (id tenant : Text) (db : Db) → Loaded id tenant db (load_owned_enquiry id tenant db)
unfolding load_owned_enquiry
load_owned-Loaded id tenant db =
    Option-elim (find_where (is_owned id tenant) db.enquiries) (Loaded id tenant db) (λ missing. tt)
      (λ row found.
        let own =
          (find_where-both Always (is_owned id tenant) db.enquiries row (All-Always db.enquiries)
            found).1 in
        let (same, here) = halves (eq_text row.id id) (eq_text row.tenant_id tenant) own in
        (found, (eq_text_iff row.id id).0 same, (eq_text_iff row.tenant_id tenant).0 here))
  where
    halves : (x y : Bool) → (x && y) ≡ true → (x ≡ true) × (y ≡ true)
    halves x y h = ground arith

pub loaded :
    (id tenant : Text) (db : Db) (row : EnquiryRow)
    → load_owned_enquiry id tenant db ≡ ok row
    → (find_where (is_owned id tenant) db.enquiries ≡ some row)
      × (row.id ≡ id)
      × (row.tenant_id ≡ tenant)
loaded id tenant db row e = subst (Loaded id tenant db) e (load_owned-Loaded id tenant db)

-- The same of the row that a path names.
pub owned_row :
    (env : Env) (principal : Principal) (raw : Text) (db : Db) (row : EnquiryRow)
    → owned env principal raw db ≡ ok row
    → (tenant_uuid env principal ≡ ok row.tenant_id)
      × (find_where (is_owned row.id row.tenant_id) db.enquiries ≡ some row)
unfolding owned
owned_row env principal raw db row =
    and_then-elim
      (λ (a : Answer EnquiryRow).
        a ≡ ok row
        → (tenant_uuid env principal ≡ ok row.tenant_id)
          × (find_where (is_owned row.id row.tenant_id) db.enquiries ≡ some row))
      (tenant_uuid env principal) _ (λ e h. absurd (error≢ok e row h))
      (λ tenant known.
        and_then-elim
          (λ (a : Answer EnquiryRow).
            a ≡ ok row
            → (tenant_uuid env principal ≡ ok row.tenant_id)
              × (find_where (is_owned row.id row.tenant_id) db.enquiries ≡ some row))
          (parse_enquiry_id env raw) _ (λ e h. absurd (error≢ok e row h))
          (λ id parsed h.
            let (found, same, here) = loaded id tenant db row h in
            (
              known ∙ ap ok (sym here),
              subst (λ i. find_where (is_owned i row.tenant_id) db.enquiries ≡ some row) (sym same)
                  (subst (λ t. find_where (is_owned id t) db.enquiries ≡ some row) (sym here)
                    found),
            )))

-- A property of rows that patching and promoting keep.
pub record Invariant : Type 1 where
  pub Of : EnquiryRow → Type 0
  pub patching :
      (env : Env) (body : EnquiryPatchRequest) (row row' : EnquiryRow)
      → Of row
      → patched env body row ≡ ok row'
      → Of row'
  pub promoting : (env : Env) (row : EnquiryRow) → Of row → Of (promoted env row)

-- Rows that are created with the ids of `env` have it.
abbrev pub Admits : Invariant → Env → Type 0
Admits I env =
    (tenant user : Text) (body : EnquiryCreateRequest) (session : Option Text)
    → validate body.budget_currency body.depart_date body.return_date (some body.pax_count) ≡ none
    → I.Of (created_row env tenant user body session)

module _ (I : Invariant) where
  abbrev Keeps : {A : Type 0} → Answer (A × Db) → Type 0
  Keeps (ok (a, db)) = All I.Of db.enquiries
  Keeps (error e) = Unit

  save-All :
      (row : EnquiryRow) (db : Db)
      → I.Of row
      → All I.Of db.enquiries
      → All I.Of (save row db).enquiries
  save-All row db p h =
      update_where-All {P = I.Of} {Q = I.Of} (is_owned row.id row.tenant_id) (λ old. row)
        (λ r hit q. p) (λ r miss q. q) db.enquiries h

  left_by-All :
      {A : Type 0} (a : Answer (A × Db)) (db : Db)
      → Keeps a
      → All I.Of db.enquiries
      → All I.Of (left_by a db).enquiries
  left_by-All (ok (a, db')) db k h = k
  left_by-All (error e) db k h = h

  patch-Keeps :
      (env : Env) (principal : Principal) (raw : Text) (body : EnquiryPatchRequest) (db : Db)
      → All I.Of db.enquiries
      → Keeps (patch_enquiry env principal raw body db)
  unfolding patch_enquiry
  patch-Keeps env principal raw body db h =
      and_then-elim (Keeps {A = EnquiryRow}) (owned env principal raw db) _ (λ e. tt)
        (λ row found.
          and_then-elim (Keeps {A = EnquiryRow}) (patched env body row) _ (λ e. tt)
            (λ row' done.
              save-All row' db
                (I.patching env body row row'
                  (find_where-both I.Of (is_owned row.id row.tenant_id) db.enquiries row h
                    (owned_row env principal raw db row found).1).0
                  done)
                h))

  create-Keeps :
      (env : Env) (principal : Principal) (body : EnquiryCreateRequest) (db : Db)
      → Admits I env
      → All I.Of db.enquiries
      → Keeps (create_enquiry env principal body db)
  unfolding create_enquiry
  create-Keeps env principal body db a h =
      and_then-elim (Keeps {A = EnquiryRow}) (tenant_uuid env principal) _ (λ e. tt)
        (λ tenant known.
          and_then-elim (Keeps {A = EnquiryRow}) (user_uuid env principal) _ (λ e. tt)
            (λ user named.
              unless-elim (Keeps {A = EnquiryRow})
                (validate body.budget_currency body.depart_date body.return_date
                  (some body.pax_count))
                _ (λ e. tt)
                (λ valid.
                  and_then-elim (Keeps {A = EnquiryRow})
                    (parse_session_id_or_none env body.session_id) _ (λ e. tt)
                    (λ session parsed.
                      All-append I.Of db.enquiries (created_row env tenant user body session ∷ []) h
                        (a tenant user body session valid, tt)))))

  -- What a promotion returns.
  abbrev Promotes : Answer (EnquiryRow × Text × Db) → Type 0
  Promotes (ok (row, session, db)) = All I.Of db.enquiries
  Promotes (error e) = Unit

  promote-Promotes :
      (env : Env) (principal : Principal) (raw : Text) (db : Db)
      → All I.Of db.enquiries
      → Promotes (promote_to_session env principal raw db)
  unfolding promote_to_session
  promote-Promotes env principal raw db h =
      and_then-elim Promotes (tenant_uuid env principal) _ (λ e. tt)
        (λ tenant known.
          and_then-elim Promotes (user_uuid env principal) _ (λ e. tt)
            (λ user named.
              and_then-elim Promotes (parse_enquiry_id env raw) _ (λ e. tt)
                (λ id parsed.
                  and_then-elim Promotes (load_owned_enquiry id tenant db) _ (λ e. tt)
                    (λ row found.
                      Option-elim row.session_id Promotes
                        (λ fresh.
                          save-All (promoted env row) (with_session env tenant user db)
                            (I.promoting env row
                              (find_where-both I.Of (is_owned id tenant) db.enquiries row h
                                (loaded id tenant db row found).0).0)
                            h)
                        (λ session kept. h)))))

  serve-All :
      (env : Env) (request : Request) (db : Db)
      → Admits I env
      → All I.Of db.enquiries
      → All I.Of (serve env request db).enquiries
  unfolding serve
  serve-All env (creates principal body) db a h =
      left_by-All (create_enquiry env principal body db) db (create-Keeps env principal body db a h)
        h
  serve-All env (patches principal raw body) db a h =
      left_by-All (patch_enquiry env principal raw body db) db
        (patch-Keeps env principal raw body db h) h
  serve-All env (promotes principal raw) db a h =
      left_by_promotion (promote_to_session env principal raw db)
        (promote-Promotes env principal raw db h)
    where
      left_by_promotion :
          (r : Answer (EnquiryRow × Text × Db))
          → Promotes r
          → All I.Of (elim r as (λ _. Db) [ ok (row, session, db') ↦ db' | error e ↦ db ]).enquiries
      left_by_promotion (ok (row, session, db')) k = k
      left_by_promotion (error e) k = h

  pub serve_all-All :
      (requests : List (Env × Request)) (db : Db)
      → All (λ s. Admits I s.0) requests
      → All I.Of db.enquiries
      → All I.Of (serve_all requests db).enquiries
  unfolding serve_all
  serve_all-All [] db a h = h
  serve_all-All ((env, request) ∷ requests) db (a, rest) h =
      serve_all-All requests (serve env request db) rest (serve-All env request db a h)
