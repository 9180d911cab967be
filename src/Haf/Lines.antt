-- ===== src/Haf/Lines.antt =====
-- How drivers/bsp_india/haf_parser.py cuts a text into lines, and what it takes their codes for.
use mathlib.Core.Bool.{false≢true}
use mathlib.Core.List.{append_assoc, append_cancel_right}
use voyagent.Prelude.{
  ℕ, ◌≡◌, ◌⊎◌, inl, inr, refl, sym, ap, ◌∙◌, Bool, true, false, List, [], ◌∷◌, ◌++◌, ◌=?◌, =?_flip,
  ◌==◌, ==_iff, if◌then◌else◌, if_elim, Bool-cases, All, take, nat_key,
}
use voyagent.Prelude.Text.{Text, codes, contains, is_empty, eq_text, eq_text_iff}
use voyagent.Haf.{
  RecordCode, header_code, trailer_code, other_code, code_of, normalise_newlines, split_lines,
  drop_last_empty, raw_lines,
}

-- The lines of a file, each ended by a newline.
abbrev pub terminated : List Text → Text
terminated [] = []
terminated (l ∷ ls) = l ++ (10 ∷ terminated ls)

split_lines-terminated :
    (line cs : Text) → terminated (split_lines line cs) ≡ line ++ (cs ++ (10 ∷ []))
split_lines-terminated line [] = refl
split_lines-terminated line (c ∷ cs) = elim (Bool-cases (c == 10)) [
  | inl newline ↦ rw newline (
      ap (λ x. line ++ x)
        (ap (λ d. d ∷ terminated (split_lines [] cs)) (sym ((==_iff c 10).0 newline))
          ∙ ap (λ x. c ∷ x) (split_lines-terminated [] cs)))
  | inr other ↦
      rw other (
        split_lines-terminated (line ++ (c ∷ [])) cs ∙ append_assoc line (c ∷ []) (cs ++ (10 ∷ [])))
]

drop_last_empty-terminated :
    (ls : List Text)
    → (terminated (drop_last_empty ls) ≡ terminated ls)
      ⊎ (terminated (drop_last_empty ls) ++ (10 ∷ []) ≡ terminated ls)
drop_last_empty-terminated [] = inl refl
drop_last_empty-terminated (l ∷ []) = last l
  where
    last :
        (l : Text)
        → (terminated (if is_empty l then [] else l ∷ []) ≡ terminated (l ∷ []))
          ⊎ (terminated (if is_empty l then [] else l ∷ []) ++ (10 ∷ []) ≡ terminated (l ∷ []))
    last [] = inr refl
    last (c ∷ cs) = inl refl
drop_last_empty-terminated (l ∷ m ∷ ls) = elim (drop_last_empty-terminated (m ∷ ls)) [
  | inl same ↦ inl (ap (λ x. l ++ (10 ∷ x)) same)
  | inr less ↦ inr (
      append_assoc l (10 ∷ terminated (drop_last_empty (m ∷ ls))) (10 ∷ [])
      ∙ ap (λ x. l ++ (10 ∷ x)) less)
]

-- The line has no newline.
abbrev pub OneLine : Text → Type 0
OneLine l = contains 10 l ≡ false

-- A list of texts is the lines of a text: put together again they give it, without or with a last
-- newline, and none of them holds a newline.
abbrev pub LinesOf : Text → List Text → Type 0
LinesOf text ls = ((terminated ls ≡ text ++ (10 ∷ [])) ⊎ (terminated ls ≡ text)) × All OneLine ls

split_lines-OneLine : (line cs : Text) → OneLine line → All OneLine (split_lines line cs)
split_lines-OneLine line [] h = (h, tt)
split_lines-OneLine line (c ∷ cs) h =
    if_elim (c == 10) (All OneLine) (λ newline. (h, split_lines-OneLine [] cs refl))
      (λ other. split_lines-OneLine (line ++ (c ∷ [])) cs (contains-snoc line other h))
  where
    contains-snoc : (l : Text) → (c == 10) ≡ false → OneLine l → OneLine (l ++ (c ∷ []))
    contains-snoc [] other h = rw (=?_flip c 10 other) refl
    contains-snoc (x ∷ l) other h = elim (Bool-cases (10 =? x)) [
      | inl hit ↦ absurd (false≢true (sym h ∙ ap (λ b. if b then true else contains 10 l) hit))
      | inr miss ↦
          rw miss
            (contains-snoc l other (sym (ap (λ b. if b then true else contains 10 l) miss) ∙ h))
    ]

drop_last_empty-OneLine : (ls : List Text) → All OneLine ls → All OneLine (drop_last_empty ls)
drop_last_empty-OneLine [] h = tt
drop_last_empty-OneLine (l ∷ []) (h, hs) =
    if_elim (is_empty l) (All OneLine) (λ blank. tt) (λ full. (h, tt))
drop_last_empty-OneLine (l ∷ m ∷ ls) (h, hs) = (h, drop_last_empty-OneLine (m ∷ ls) hs)

pub raw_lines-LinesOf : (text : Text) → LinesOf (normalise_newlines text) (raw_lines text)
raw_lines-LinesOf text =
    let cs = normalise_newlines text in
    (
      elim (drop_last_empty-terminated (split_lines [] cs)) [
        | inl same ↦ inl (same ∙ split_lines-terminated [] cs)
        | inr less ↦ inr (
            append_cancel_right (terminated (drop_last_empty (split_lines [] cs))) cs (10 ∷ [])
              (less ∙ split_lines-terminated [] cs))
      ],
      drop_last_empty-OneLine (split_lines [] cs) (split_lines-OneLine [] cs refl),
    )

-- What a line that starts with a code counts as.
abbrev pub starts : Text → Text → Bool
starts code line = eq_text (take 5 line) code

abbrev pub header_weight : Text → ℕ
header_weight line = if starts (codes "BFH01") line then 1 else 0

abbrev pub trailer_weight : Text → ℕ
trailer_weight line = if starts (codes "BFT99") line then 1 else 0

abbrev pub transaction_weight : Text → ℕ
transaction_weight line =
    if starts (codes "BKS24") line
    then 1
    else if starts (codes "BKS39") line
    then 1
    else if starts (codes "BKS45") line
    then 1
    else if starts (codes "BKS46") line
    then 1
    else if starts (codes "BKS47") line
    then 1
    else 0

-- The same, of the code that the parser finds.
abbrev pub as_header : RecordCode → ℕ
as_header header_code = 1
as_header _ = 0

abbrev pub as_trailer : RecordCode → ℕ
as_trailer trailer_code = 1
as_trailer _ = 0

abbrev pub as_transaction : RecordCode → ℕ
as_transaction header_code = 0
as_transaction trailer_code = 0
as_transaction other_code = 0
as_transaction _ = 1

-- The parser finds the code that a line starts with.
pub code_of-weights :
    (line : Text)
    → (as_header (code_of line) ≡ header_weight line)
      × (as_trailer (code_of line) ≡ trailer_weight line)
      × (as_transaction (code_of line) ≡ transaction_weight line)
code_of-weights line = elim (Bool-cases (starts (codes "BFH01") line)) [
  | inl hit ↦ rw ((eq_text_iff (take 5 line) (codes "BFH01")).0 hit) (refl, refl, refl)
  | inr miss ↦ rw miss (elim (Bool-cases (starts (codes "BKS24") line)) [
    | inl hit ↦ rw ((eq_text_iff (take 5 line) (codes "BKS24")).0 hit) (refl, refl, refl)
    | inr miss ↦ rw miss (elim (Bool-cases (starts (codes "BKS39") line)) [
      | inl hit ↦ rw ((eq_text_iff (take 5 line) (codes "BKS39")).0 hit) (refl, refl, refl)
      | inr miss ↦ rw miss (elim (Bool-cases (starts (codes "BKS45") line)) [
        | inl hit ↦ rw ((eq_text_iff (take 5 line) (codes "BKS45")).0 hit) (refl, refl, refl)
        | inr miss ↦ rw miss (elim (Bool-cases (starts (codes "BKS46") line)) [
          | inl hit ↦ rw ((eq_text_iff (take 5 line) (codes "BKS46")).0 hit) (refl, refl, refl)
          | inr miss ↦ rw miss (elim (Bool-cases (starts (codes "BKS47") line)) [
            | inl hit ↦ rw ((eq_text_iff (take 5 line) (codes "BKS47")).0 hit) (refl, refl, refl)
            | inr miss ↦ rw miss (elim (Bool-cases (starts (codes "BFT99") line)) [
              | inl hit ↦ rw ((eq_text_iff (take 5 line) (codes "BFT99")).0 hit) (refl, refl, refl)
              | inr miss ↦ rw miss (refl, refl, refl)
            ])
          ])
        ])
      ])
    ])
  ])
]
