-- ===== src/Enquiries/Pages.antt =====
-- What a list of services/api/src/voyagent_api/enquiries.py answers.
use mathlib.Core.Bool.{true≢false}
use mathlib.Core.List.{Permᴰ}
use voyagent.Prelude.{
  ℕ, ◌≡◌, ◌↔◌, refl, sym, ap, ◌∙◌, Bool, true, false, ◌&&◌, ◌+◌, ◌*◌, Option, none, some, List,
  if◌then◌else◌, subst, Bool-cases, inl, inr, if_elim, leb, ltb, length, filter, take, drop, arith,
}
use voyagent.Prelude.Text.{Text, codes, is_empty, eq_text_iff}
use voyagent.Prelude.Dict.{or_else, none≢some, some_inj}
use voyagent.Prelude.Tables.{
  order_desc, IsDescending, order_desc-IsDescending, order_desc-Perm, length-order_desc,
}
use voyagent.Enquiries.Types.{
  EnquiryRow, Db, Query, EnquiryListResponse, Principal, Env, HttpError, Answer, ok, error,
}
use voyagent.Enquiries.Validation.{tenant_uuid}
use voyagent.Enquiries.Endpoints.{
  unless, is_listed, inverted, list_enquiries, when_given, when_text, column, eq_status, pattern,
  search_clause, day_length,
}

-- What holds of a value where there is one; the text of a query only where it is not empty.
abbrev pub Given : {A : Type 0} → Option A → (A → Type 0) → Type 0
Given {A} o P = (a : A) → o ≡ some a → P a

abbrev pub GivenText : Option Text → (Text → Type 0) → Type 0
GivenText o P = (s : Text) → o ≡ some s → is_empty s ≡ false → P s

-- The value is there, and the property holds of it.
abbrev pub Present : {A : Type 0} → Option A → (A → Type 0) → Type 0
Present {A} o P = (a : A) × (o ≡ some a) × P a

abbrev pub Matches : Env → Text → Option Text → Type 0
Matches env term o = Present o (λ x. env.ilike (pattern term) x ≡ true)

-- A row fits a query: it is the tenant's, and each condition that the query gives holds of it. Texts
-- are matched by SQL's ILIKE, an empty one is no condition, and a missing value matches nothing.
pub record Fits (env : Env) (tenant : Text) (query : Query) (r : EnquiryRow) : Type 0 where
  pub own : r.tenant_id ≡ tenant
  pub status : Given query.status (λ s. eq_status r.status s ≡ true)
  pub email : GivenText query.customer_email (λ s. Matches env s r.customer_email)
  pub destination : GivenText query.destination (λ s. Matches env s r.destination)
  pub origin : GivenText query.origin (λ s. Matches env s r.origin)
  pub departs_from : Given query.depart_from (λ d. Present r.depart_date (λ x. leb d x ≡ true))
  pub departs_to : Given query.depart_to (λ d. Present r.depart_date (λ x. leb x d ≡ true))
  pub made_from : Given query.created_from (λ d. leb (d * day_length) r.created_at ≡ true)
  pub made_to : Given query.created_to (λ d. ltb r.created_at (d * day_length + day_length) ≡ true)
  pub search : GivenText query.q (λ s. search_clause env s r ≡ true)

given_iff :
    {A : Type 0} (o : Option A) (p : A → Bool) (P : A → Type 0)
    → ((a : A) → (p a ≡ true) ↔ P a)
    → (when_given o p ≡ true) ↔ Given o P
given_iff none p P f = (λ h a e. absurd (none≢some a e), λ h. refl)
given_iff (some a) p P f = (λ h b e. subst P (some_inj a b e) ((f a).0 h), λ h. (f a).1 (h a refl))

text_iff :
    (o : Option Text) (p : Text → Bool) (P : Text → Type 0)
    → ((s : Text) → (p s ≡ true) ↔ P s)
    → (when_text o p ≡ true) ↔ GivenText o P
text_iff none p P f = (λ h a e. absurd (none≢some a e), λ h. refl)
text_iff (some s) p P f = elim (Bool-cases (is_empty s)) [
  | inl blank ↦ (
    λ h t e full. absurd (true≢false (sym blank ∙ ap is_empty (some_inj s t e) ∙ full)),
    λ h. rw blank refl,
  )
  | inr full ↦ (
    λ h t e full'.
        subst P (some_inj s t e) ((f s).0 (sym (ap (λ b. if b then true else p s) full) ∙ h)),
    λ h. ap (λ b. if b then true else p s) full ∙ (f s).1 (h s refl full),
  )
]

column_iff :
    {A : Type 0} (o : Option A) (p : A → Bool) → (column o p ≡ true) ↔ Present o (λ a. p a ≡ true)
column_iff none p = (λ h. absurd (true≢false (sym h)), λ (a, e, q). absurd (none≢some a e))
column_iff (some a) p = (λ h. (a, refl, h), λ (b, e, q). ap p (some_inj a b e) ∙ q)

same_iff : (b : Bool) → (b ≡ true) ↔ (b ≡ true)
same_iff b = (λ h. h, λ h. h)

and_iff :
    {b c : Bool} {P Q : Type 0} → (b ≡ true) ↔ P → (c ≡ true) ↔ Q → ((b && c) ≡ true) ↔ (P × Q)
and_iff {b} {c} p q =
    (λ h. (p.0 (left b c h), q.0 (right b c h)), λ (x, y). both b c (p.1 x) (q.1 y))
  where
    left : (b c : Bool) → (b && c) ≡ true → b ≡ true
    left b c h = ground arith

    right : (b c : Bool) → (b && c) ≡ true → c ≡ true
    right b c h = ground arith

    both : (b c : Bool) → b ≡ true → c ≡ true → (b && c) ≡ true
    both b c x y = ground arith

-- The condition of a list and the description of the rows that fit are the same.
is_listed-Fits :
    (env : Env) (tenant : Text) (query : Query) (r : EnquiryRow)
    → (is_listed env tenant query r ≡ true) ↔ Fits env tenant query r
unfolding is_listed
is_listed-Fits env tenant query r =
    let own = eq_text_iff r.tenant_id tenant in
    let status = given_iff query.status (λ s. eq_status r.status s) _ (λ s. same_iff _) in
    let email =
      text_iff query.customer_email _ _
        (λ s. column_iff r.customer_email (env.ilike (pattern s))) in
    let destination =
      text_iff query.destination _ _ (λ s. column_iff r.destination (env.ilike (pattern s))) in
    let origin = text_iff query.origin _ _ (λ s. column_iff r.origin (env.ilike (pattern s))) in
    let from = given_iff query.depart_from _ _ (λ d. column_iff r.depart_date (λ x. leb d x)) in
    let to = given_iff query.depart_to _ _ (λ d. column_iff r.depart_date (λ x. leb x d)) in
    let after =
      given_iff query.created_from _ _ (λ d. same_iff (leb (d * day_length) r.created_at)) in
    let before =
      given_iff query.created_to _ _
        (λ d. same_iff (ltb r.created_at (d * day_length + day_length))) in
    let search = text_iff query.q _ _ (λ s. same_iff (search_clause env s r)) in
    let all =
      and_iff
        (and_iff
          (and_iff
            (and_iff
              (and_iff (and_iff (and_iff (and_iff (and_iff own status) email) destination) origin)
                from)
              to)
            after)
          before)
        search in
    (
      λ h.
          (let (((((((((o, s), e), d), g), f), t), a), b), q) = all.0 h in
            record {
              own = o;
              status = s;
              email = e;
              destination = d;
              origin = g;
              departs_from = f;
              departs_to = t;
              made_from = a;
              made_to = b;
              search = q;
            }),
      λ f. all.1 (
        (
          (
            (
              (((((f.own, f.status), f.email), f.destination), f.origin), f.departs_from),
              f.departs_to,
            ),
            f.made_from,
          ),
          f.made_to,
        ),
        f.search,
      ),
    )

inverted-422 :
    (from to : Option ℕ) (detail : Text) (e : HttpError)
    → inverted from to detail ≡ some e
    → e.status_code ≡ 422
inverted-422 none to detail e h = absurd (none≢some e h)
inverted-422 (some from) none detail e h = absurd (none≢some e h)
inverted-422 (some from) (some to) detail e h =
    if_elim (ltb to from) (λ (o : Option HttpError). o ≡ some e → e.status_code ≡ 422)
      (λ late same. sym (ap (λ (x : HttpError). x.status_code) (some_inj _ e same)))
      (λ fits same. absurd (none≢some e same)) h

ranges-422 :
    (query : Query) (e : HttpError) (d d' : Text)
    → or_else
        (inverted query.depart_from query.depart_to d)
        (inverted query.created_from query.created_to d')
      ≡ some e
    → e.status_code ≡ 422
ranges-422 query e d d' h =
    split (inverted query.depart_from query.depart_to d)
      (inverted query.created_from query.created_to d')
      (λ same. inverted-422 query.depart_from query.depart_to d e same)
      (λ same. inverted-422 query.created_from query.created_to d' e same) h
  where
    split :
        (o o' : Option HttpError)
        → (o ≡ some e → e.status_code ≡ 422)
        → (o' ≡ some e → e.status_code ≡ 422)
        → or_else o o' ≡ some e
        → e.status_code ≡ 422
    split none o' f g h = g h
    split (some x) o' f g h = f h

-- What a list answers.
abbrev pub Page : Env → Text → Query → Db → Answer EnquiryListResponse → Type 0
Page env tenant query db (ok page) =
    (all : List EnquiryRow) × Permᴰ all (filter (is_listed env tenant query) db.enquiries)
    × IsDescending (λ r. r.created_at) all
    × (page.items ≡ take query.limit (drop query.offset all))
    × (page.total ≡ length all)
Page env tenant query db (error e) = e.status_code ≡ 422

-- A list of a caller whose tenant is known takes all rows of the table that fit, each once and no
-- others, newest first; it answers the `limit` of them that follow the first `offset`, beside the
-- number of all. A row fits exactly if it is the tenant's and meets each condition of the query. The
-- only failure is 422.
pub list_enquiries-Page :
    (env : Env) (principal : Principal) (query : Query) (db : Db) (tenant : Text)
    → tenant_uuid env principal ≡ ok tenant
    → Page env tenant query db (list_enquiries env principal query db)
      × ((r : EnquiryRow) → (is_listed env tenant query r ≡ true) ↔ Fits env tenant query r)
unfolding list_enquiries
list_enquiries-Page env principal query db tenant known = (
  rw (list_enquiries, known)
      (answers
        (or_else (inverted query.depart_from query.depart_to (codes "invalid_depart_range"))
          (inverted query.created_from query.created_to (codes "invalid_created_range")))
        (λ e. ranges-422 query e (codes "invalid_depart_range") (codes "invalid_created_range"))),
  is_listed-Fits env tenant query,
)
  where
    fitting : List EnquiryRow
    fitting = filter (is_listed env tenant query) db.enquiries

    answers :
        (o : Option HttpError)
        → ((e : HttpError) → o ≡ some e → e.status_code ≡ 422)
        → Page env tenant query db (
            unless o (
              ok (record {
                items =
                    take query.limit (drop query.offset (order_desc (λ r. r.created_at) fitting));
                total = length fitting;
                limit = query.limit;
                offset = query.offset;
              })))
    answers none bad = (
      order_desc (λ r. r.created_at) fitting,
      order_desc-Perm (λ r. r.created_at) fitting,
      order_desc-IsDescending (λ r. r.created_at) fitting,
      refl,
      sym (length-order_desc (λ r. r.created_at) fitting),
    )
    answers (some e) bad = bad e refl
