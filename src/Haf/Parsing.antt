-- ===== src/Haf/Parsing.antt =====
-- What a text that drivers/bsp_india/haf_parser.py accepts looks like.
use voyagent.Prelude.{
  ◌∙◌, ℕ, ◌+◌, ◌≡◌, ◌⊎◌, inl, inr, refl, sym, ap, subst, Bool, true, false, Option, none, some,
  List, [], ◌∷◌, arith, if◌then◌else◌, if_elim, Option-elim, length, length-append, All, ◌==◌,
  ==_iff,
}
use voyagent.Prelude.Text.{Text, is_empty}
use voyagent.Bsp.{HafTransaction, HafFile}
use voyagent.Haf.Fields.{Parsed, ok, err, ◌>>=◌, line_length, bad_length}
use voyagent.Haf.Records.{
  parse_bfh01, parse_bks24, parse_bks39, parse_bks45, parse_memo, parse_bft99,
}
use voyagent.Haf.{
  normalise_newlines, strip_returns, RecordCode, header_code, ticket_code, refund_code,
  exchange_code, debit_code, credit_code, trailer_code, other_code, code_of, Partial,
  append_transaction, parse_record, parse_line, parse_lines, raw_lines, finish, parse_haf,
}
use voyagent.Haf.Lines.{
  LinesOf, raw_lines-LinesOf, header_weight, trailer_weight, transaction_weight, as_header,
  as_trailer, as_transaction, code_of-weights,
}

-- How many lines that are not blank count, by their codes.
abbrev coded_line : (RecordCode → ℕ) → Text → ℕ
coded_line weight raw =
    if is_empty (strip_returns raw) then 0 else weight (code_of (strip_returns raw))

abbrev coded_lines : (RecordCode → ℕ) → List Text → ℕ
coded_lines weight [] = 0
coded_lines weight (raw ∷ raws) = coded_line weight raw + coded_lines weight raws

-- How many lines that are not blank count, by what they start with.
abbrev pub in_lines : (Text → ℕ) → List Text → ℕ
in_lines weight [] = 0
in_lines weight (raw ∷ raws) =
    (if is_empty (strip_returns raw) then 0 else weight (strip_returns raw)) + in_lines weight raws

coded_lines-in_lines :
    (w : RecordCode → ℕ) (v : Text → ℕ) (raws : List Text)
    → ((line : Text) → w (code_of line) ≡ v line)
    → coded_lines w raws ≡ in_lines v raws
coded_lines-in_lines w v [] same = refl
coded_lines-in_lines w v (raw ∷ raws) same =
    rw (same (strip_returns raw), coded_lines-in_lines w v raws same) refl

-- A line is blank or has the length of a record.
abbrev pub Fits : Text → Type 0
Fits raw = (is_empty (strip_returns raw) ≡ true) ⊎ (length (strip_returns raw) ≡ 200)

abbrev IfOk {ℓ κ} : {A : Type ℓ} → (A → Type κ) → Parsed A → Type κ
IfOk P (ok a) = P a
IfOk P (err e) = Unit

bind-IfOk {ℓ κ μ} :
    {A : Type ℓ} {B : Type κ} (P : B → Type μ) (p : Parsed A) (f : A → Parsed B)
    → ((a : A) → IfOk P (f a))
    → IfOk P (p >>= f)
bind-IfOk P (ok a) f h = h a
bind-IfOk P (err e) f h = tt

abbrev flag {ℓ} : {A : Type ℓ} → Option A → ℕ
flag none = 0
flag (some a) = 1

abbrev Advances : ℕ → ℕ → ℕ → Partial → Partial → Type 0
Advances headers trailers rows s s' =
    (flag s'.header ≡ flag s.header + headers)
    × (flag s'.trailer ≡ flag s.trailer + trailers)
    × (length s'.transactions ≡ length s.transactions + rows)

appended :
    (s : Partial) (p : Parsed HafTransaction) → IfOk (Advances 0 0 1 s) (append_transaction s p)
appended s (ok r) = (omega arith, omega arith, length-append s.transactions (r ∷ []))
appended s (err e) = tt

parse_record-Advances :
    (code : RecordCode) (n : ℕ) (line : Text) (s : Partial)
    → IfOk
        (Advances (as_header code) (as_trailer code) (as_transaction code) s)
        (parse_record code n line s)
unfolding parse_record
parse_record-Advances header_code n line s =
    Option-elim s.header (IfOk (Advances 1 0 0 s))
      (λ first.
        bind-IfOk (Advances 1 0 0 s) (parse_bfh01 n line) _
          (λ h. (ap (λ o. flag o + 1) (sym first), omega arith, omega arith)))
      (λ h second. tt)
parse_record-Advances ticket_code n line s = appended s (parse_bks24 n line)
parse_record-Advances refund_code n line s = appended s (parse_bks39 n line)
parse_record-Advances exchange_code n line s = appended s (parse_bks45 n line)
parse_record-Advances debit_code n line s = appended s (parse_memo true n line)
parse_record-Advances credit_code n line s = appended s (parse_memo false n line)
parse_record-Advances trailer_code n line s =
    Option-elim s.trailer (IfOk (Advances 0 1 0 s))
      (λ first.
        bind-IfOk (Advances 0 1 0 s) (parse_bft99 n line) _
          (λ t. (omega arith, ap (λ o. flag o + 1) (sym first), omega arith)))
      (λ t second. tt)
parse_record-Advances other_code n line s = (omega arith, omega arith, omega arith)

then-IfOk {ℓ κ μ ν} :
    {A : Type ℓ} {B : Type κ} (P : A → Type μ) (Q : B → Type ν) (p : Parsed A) (f : A → Parsed B)
    → IfOk P p
    → ((a : A) → P a → IfOk Q (f a))
    → IfOk Q (p >>= f)
then-IfOk P Q (ok a) f h k = k a h
then-IfOk P Q (err e) f h k = tt

map-IfOk {ℓ κ μ} :
    {A : Type ℓ} (P : A → Type κ) (Q : A → Type μ) (p : Parsed A)
    → ((a : A) → P a → Q a)
    → IfOk P p
    → IfOk Q p
map-IfOk P Q (ok a) f h = f a h
map-IfOk P Q (err e) f h = tt

stripped-Advances :
    (line : Text) (n : ℕ) (s : Partial) (b : Bool)
    → is_empty line ≡ b
    → IfOk
        (λ s'.
          Advances
            (if b then 0 else as_header (code_of line))
            (if b then 0 else as_trailer (code_of line))
            (if b then 0 else as_transaction (code_of line))
            s
            s'
          × ((is_empty line ≡ true) ⊎ (length line ≡ 200)))
        (if b
          then ok s
          else if length line == line_length
          then parse_record (code_of line) n line s
          else err (bad_length n (length line)))
stripped-Advances line n s true e = ((omega arith, omega arith, omega arith), inl e)
stripped-Advances line n s false e =
    let Moves : Partial → Type 0 =
      Advances (as_header (code_of line)) (as_trailer (code_of line))
        (as_transaction (code_of line)) s in
    let Good : Partial → Type 0 = λ s'. Moves s' × ((is_empty line ≡ true) ⊎ (length line ≡ 200)) in
    if_elim (length line == line_length) (IfOk Good)
      (λ full.
        map-IfOk Moves Good (parse_record (code_of line) n line s)
          (λ s' moves. (moves, inr ((==_iff (length line) 200).0 full)))
          (parse_record-Advances (code_of line) n line s))
      (λ short. tt)

-- What the lines add, and that each of them fits.
abbrev Reads : List Text → Partial → Partial → Type 0
Reads raws s s' =
    Advances (coded_lines as_header raws) (coded_lines as_trailer raws)
      (coded_lines as_transaction raws) s s'
    × All Fits raws

parse_lines-Reads :
    (n : ℕ) (raws : List Text) (s : Partial) → IfOk (Reads raws s) (parse_lines n raws s)
unfolding parse_lines parse_line
parse_lines-Reads n [] s = ((omega arith, omega arith, omega arith), tt)
parse_lines-Reads n (raw ∷ raws) s =
    then-IfOk
      (λ s'.
        Advances (coded_line as_header raw) (coded_line as_trailer raw)
          (coded_line as_transaction raw) s s'
        × Fits raw)
      (Reads (raw ∷ raws) s) (parse_line n raw s) (λ s'. parse_lines (n + 1) raws s')
      (stripped-Advances (strip_returns raw) n s (is_empty (strip_returns raw)) refl)
      (λ s' here.
        map-IfOk (Reads raws s') (Reads (raw ∷ raws) s) (parse_lines (n + 1) raws s')
          (λ s'' later.
            let ((h, t, r), f) = here in
            let ((h', t', r'), fs) = later in
            ((omega (arith, h, h'), omega (arith, t, t'), omega (arith, r, r')), (f, fs)))
          (parse_lines-Reads (n + 1) raws s'))

-- A text that is accepted is cut into its lines: put together again they give the text, with "\r\n"
-- as "\n", without or with a last newline, and none holds a newline. Every line, without the carriage
-- returns at its end, is blank or exactly 200 characters long; exactly one that is not blank starts
-- with BFH01 and one with BFT99; and the file holds one transaction for each that starts with BKS24,
-- BKS39, BKS45, BKS46 or BKS47, neither more nor fewer.
pub parse_haf_shape :
    (text source_ref : Text) (haf : HafFile)
    → parse_haf (some text) source_ref ≡ ok haf
    → LinesOf (normalise_newlines text) (raw_lines text)
      × (in_lines header_weight (raw_lines text) ≡ 1)
      × (in_lines trailer_weight (raw_lines text) ≡ 1)
      × (length haf.transactions ≡ in_lines transaction_weight (raw_lines text))
      × All Fits (raw_lines text)
unfolding parse_haf finish
parse_haf_shape text source_ref haf e =
    let (h, t, r, f) = subst (IfOk Shape) e (
      then-IfOk (Reads raws start) Shape (parse_lines 1 raws start) (finish source_ref)
        (parse_lines-Reads 1 raws start) finish-Shape) in
    (
      raw_lines-LinesOf text,
      sym (coded_lines-in_lines as_header header_weight raws (λ line. (code_of-weights line).0))
          ∙ h,
      sym (coded_lines-in_lines as_trailer trailer_weight raws (λ line. (code_of-weights line).1))
          ∙ t,
      r
          ∙ coded_lines-in_lines as_transaction transaction_weight raws
              (λ line. (code_of-weights line).2),
      f,
    )
  where
    raws : List Text
    raws = raw_lines text

    start : Partial
    start = record { header = none; trailer = none; transactions = [] }

    Shape : HafFile → Type 0
    Shape h =
        (coded_lines as_header raws ≡ 1)
        × (coded_lines as_trailer raws ≡ 1)
        × (length h.transactions ≡ coded_lines as_transaction raws)
        × All Fits raws

    finish-Shape : (s : Partial) → Reads raws start s → IfOk Shape (finish source_ref s)
    finish-Shape s ((h, t, r), f) =
        Option-elim s.header (IfOk Shape) (λ missing. tt)
          (λ hd one.
            Option-elim s.trailer (IfOk Shape) (λ missing. tt)
              (λ tr last. (
                omega (arith, h, ap flag one),
                omega (arith, t, ap flag last),
                omega (arith, r),
                f,
              )))
