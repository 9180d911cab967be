-- ===== src/Enquiries/Rules.antt =====
-- Rules that the rows of services/api/src/voyagent_api/enquiries.py obey after any requests.
use mathlib.Core.Bool.{true≢false}
use voyagent.Prelude.{
  ◌≡◌, ◌≢◌, refl, sym, subst, ap, ◌∙◌, true, false, ◌&&◌, Option, none, some, List, [], ◌∷◌,
  if_elim, All, All-map,
}
use voyagent.Prelude.Text.{Text}
use voyagent.Enquiries.Types.{
  EnquiryStatusEnum, new, quoted, booked, cancelled, EnquiryRow, Db, Field, omitted, given,
  EnquiryPatchRequest, Env, HttpError, Answer, ok, error,
}
use voyagent.Enquiries.Validation.{is_terminal, is_open, validate_status_transition}
use voyagent.Enquiries.Endpoints.{
  unless, validate, merged, required, patched_status, patched_session, patched, Request, serve_all,
}
use voyagent.Enquiries.Valid.{IsCurrency, InOrder, IsValid, validate_sound}
use voyagent.Enquiries.Kept.{
  ok_inj, error≢ok, and_then-elim, unless-elim, Invariant, Admits, serve_all-All,
}

-- The steps of a patch that goes through.
pub record Patch (env : Env) (body : EnquiryPatchRequest) (row row' : EnquiryRow) : Type 0 where
  pub valid :
      validate
        (merged body.budget_currency row.budget_currency)
        (merged body.depart_date row.depart_date)
        (merged body.return_date row.return_date)
        (merged body.pax_count (some row.pax_count))
      ≡ none
  pub status_done : patched_status body.status row.status ≡ ok row'.status
  pub pax_done : merged body.pax_count (some row.pax_count) ≡ some row'.pax_count
  pub currency_done : row'.budget_currency ≡ merged body.budget_currency row.budget_currency
  pub depart_done : row'.depart_date ≡ merged body.depart_date row.depart_date
  pub return_done : row'.return_date ≡ merged body.return_date row.return_date
  pub same_id : row'.id ≡ row.id
  pub same_tenant : row'.tenant_id ≡ row.tenant_id

required-merged :
    {A : Type 0} (field : Field A) (old v : A) (detail : Text)
    → required field old detail ≡ ok v
    → merged field (some old) ≡ some v
required-merged omitted old v detail h = ap some (ok_inj old v h)
required-merged (given none) old v detail h = absurd (error≢ok _ v h)
required-merged (given (some w)) old v detail h = ap some (ok_inj w v h)

pub patched-Patch :
    (env : Env) (body : EnquiryPatchRequest) (row row' : EnquiryRow)
    → patched env body row ≡ ok row'
    → Patch env body row row'
unfolding patched
patched-Patch env body row row' = unless-elim Goes _ _ bad (λ valid.
    and_then-elim Goes (patched_status body.status row.status) _ bad (λ status s.
      and_then-elim Goes (required body.customer_name row.customer_name _) _ bad (λ name n.
        and_then-elim Goes (required body.pax_count row.pax_count _) _ bad (λ pax x.
          and_then-elim Goes (patched_session env body.session_id row.session_id) _ bad
            (λ session i h. subst (Patch env body row) (ok_inj _ row' h) (record {
              valid = valid;
              status_done = s;
              pax_done = required-merged body.pax_count row.pax_count pax _ x;
              currency_done = refl;
              depart_done = refl;
              return_done = refl;
              same_id = refl;
              same_tenant = refl;
            }))))))
  where
    Goes : Answer EnquiryRow → Type 0
    Goes a = a ≡ ok row' → Patch env body row row'

    bad : (e : HttpError) → Goes (error e)
    bad e h = absurd (error≢ok e row' h)

patched-IsValid :
    (env : Env) (body : EnquiryPatchRequest) (row row' : EnquiryRow)
    → IsValid row
    → patched env body row ≡ ok row'
    → IsValid row'
patched-IsValid env body row row' h e =
    let p = patched-Patch env body row row' e in
    let (c, (d, x)) = validate_sound _ _ _ row'.pax_count (
      subst
        (λ o.
          validate (merged body.budget_currency row.budget_currency)
            (merged body.depart_date row.depart_date) (merged body.return_date row.return_date) o
          ≡ none)
        p.pax_done p.valid) in
    (
      subst IsCurrency (sym p.currency_done) c,
      (
        subst (λ o. InOrder o row'.return_date) (sym p.depart_done)
            (subst (InOrder (merged body.depart_date row.depart_date)) (sym p.return_done) d),
        x,
      ),
    )

abbrev Validity : Invariant
Validity = record { Of = IsValid; patching = patched-IsValid; promoting = λ env row h. h }

-- From rows that are valid, any sequence of creations, patches and promotions, by any callers and
-- whether they succeed or fail, leaves valid rows only: a currency is three upper-case letters, no
-- return precedes its departure, and there is at least one traveller.
pub serve_all-IsValid :
    (requests : List (Env × Request)) (db : Db)
    → All IsValid db.enquiries
    → All IsValid (serve_all requests db).enquiries
serve_all-IsValid requests db h = serve_all-All Validity requests db (admitted requests) h
  where
    admitted : (rs : List (Env × Request)) → All (λ s. Admits Validity s.0) rs
    admitted [] = tt
    admitted (r ∷ rs) = (
      λ tenant user body session e.
          validate_sound body.budget_currency body.depart_date body.return_date body.pax_count e,
      admitted rs,
    )

-- The enquiry with an id is booked or cancelled.
abbrev pub IsClosed : Text → EnquiryRow → Type 0
IsClosed id row = row.id ≡ id → is_terminal row.status ≡ true

patched_status-stays :
    (field : Field EnquiryStatusEnum) (old status : EnquiryStatusEnum)
    → patched_status field old ≡ ok status
    → is_terminal old ≡ true
    → is_terminal status ≡ true
unfolding patched_status validate_status_transition
patched_status-stays omitted old status h t =
    subst (λ s. is_terminal s ≡ true) (ok_inj old status h) t
patched_status-stays (given none) old status h t = absurd (error≢ok _ status h)
patched_status-stays (given (some wanted)) old status h t =
    if_elim (is_terminal old && is_open wanted)
      (λ (o : Option HttpError). unless o (ok wanted) ≡ ok status → is_terminal status ≡ true)
      (λ refused e. absurd (error≢ok _ status e))
      (λ fits e.
        subst (λ s. is_terminal s ≡ true) (ok_inj wanted status e)
          (ends wanted (subst (λ b. (b && is_open wanted) ≡ false) t fits)))
      h
  where
    ends : (s : EnquiryStatusEnum) → (true && is_open s) ≡ false → is_terminal s ≡ true
    ends new e = absurd (true≢false e)
    ends quoted e = absurd (true≢false e)
    ends booked e = refl
    ends cancelled e = refl

abbrev Closure : Text → Invariant
Closure id = record {
  Of = IsClosed id;
  patching = λ env body row row' h e same.
      let p = patched-Patch env body row row' e in
      patched_status-stays body.status row.status row'.status p.status_done
        (h (sym p.same_id ∙ same));
  promoting = λ env row h. h;
}

-- An enquiry that is booked or cancelled is never open again: it stays booked or cancelled under
-- any sequence of requests that draw no second enquiry with its id.
pub serve_all-IsClosed :
    (id : Text) (requests : List (Env × Request)) (db : Db)
    → All (λ s. s.0.new_enquiry_id ≢ id) requests
    → All (IsClosed id) db.enquiries
    → All (IsClosed id) (serve_all requests db).enquiries
serve_all-IsClosed id requests db news h =
    serve_all-All (Closure id) requests db
      (All-map (λ s differs tenant user body session e same. absurd (differs same)) requests news) h
