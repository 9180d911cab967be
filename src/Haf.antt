-- ===== src/Haf.antt =====
-- The parser of HAF files: drivers/bsp_india/haf_parser.py, with the allow-list of
-- drivers/bsp_india/airlines.py. It produces the records that Bsp maps to a report. Decoding UTF-8 is
-- Python's: the text is `none` where it fails.
pub mod Airlines
pub mod Fields
pub mod Records
pub mod Lines
pub mod Parsing
mod Tests
use voyagent.Prelude.{
  ℕ, ◌+◌, Bool, true, false, ◌&&◌, Option, none, some, List, [], ◌∷◌, ◌++◌, reverse, if◌then◌else◌,
  length, take, ◌==◌,
}
use voyagent.Prelude.Text.{Text, codes, is_empty, eq_text}
use voyagent.Bsp.{Bfh01FileHeader, Bft99FileTrailer, HafTransaction, HafFile}
use voyagent.Haf.Fields.{
  Parsed, ok, err, ◌>>=◌, line_length, not_utf8, bad_length, duplicate_header, duplicate_trailer,
  missing_header, missing_trailer,
}
use voyagent.Haf.Records.{
  parse_bfh01, parse_bks24, parse_bks39, parse_bks45, parse_memo, parse_bft99,
}

-- `text.replace("\r\n", "\n")`
abbrev pub normalise_newlines : Text → Text
normalise_newlines [] = []
normalise_newlines (c ∷ []) = c ∷ []
normalise_newlines (c ∷ d ∷ cs) =
    let both = normalise_newlines cs in
    let one = normalise_newlines (d ∷ cs) in if c == 13 && d == 10 then 10 ∷ both else c ∷ one

-- `….split("\n")`, the line under way first.
abbrev pub split_lines : Text → Text → List Text
split_lines line [] = line ∷ []
split_lines line (c ∷ cs) =
    let broken = line ∷ split_lines [] cs in
    let longer = split_lines (line ++ c ∷ []) cs in if c == 10 then broken else longer

-- `if raw_lines and raw_lines[-1] == "": raw_lines.pop()`
abbrev pub drop_last_empty : List Text → List Text
drop_last_empty [] = []
drop_last_empty (l ∷ []) = if is_empty l then [] else l ∷ []
drop_last_empty (l ∷ m ∷ ls) = l ∷ drop_last_empty (m ∷ ls)

-- `raw.rstrip("\r")`
abbrev pub strip_returns : Text → Text
strip_returns s = reverse (skip (reverse s))
  where
    skip : Text → Text
    skip [] = []
    skip (c ∷ cs) = let rest = skip cs in if c == 13 then rest else c ∷ cs

-- The tests on `code`, in their order.
pub data RecordCode : Type 0 where
  header_code ticket_code refund_code exchange_code debit_code credit_code trailer_code : RecordCode
  other_code : RecordCode

abbrev pub code_of : Text → RecordCode
code_of line =
    let code = take 5 line in
    if eq_text code (codes "BFH01")
    then header_code
    else if eq_text code (codes "BKS24")
    then ticket_code
    else if eq_text code (codes "BKS39")
    then refund_code
    else if eq_text code (codes "BKS45")
    then exchange_code
    else if eq_text code (codes "BKS46")
    then debit_code
    else if eq_text code (codes "BKS47")
    then credit_code
    else if eq_text code (codes "BFT99")
    then trailer_code
    else other_code

-- The locals of the loop.
pub record Partial : Type 0 where
  pub header : Option Bfh01FileHeader
  pub trailer : Option Bft99FileTrailer
  pub transactions : List HafTransaction

abbrev pub append_transaction : Partial → Parsed HafTransaction → Parsed Partial
append_transaction s p = do r ← p; ok (record s { transactions = s.transactions ++ r ∷ [] })

-- The branches of the loop.
unfoldable pub parse_record : RecordCode → ℕ → Text → Partial → Parsed Partial
parse_record header_code n line s = elim s.header [
  | some h ↦ err (duplicate_header n)
  | none ↦ parse_bfh01 n line >>= λ h. ok (record s { header = some h })
]
parse_record ticket_code n line s = append_transaction s (parse_bks24 n line)
parse_record refund_code n line s = append_transaction s (parse_bks39 n line)
parse_record exchange_code n line s = append_transaction s (parse_bks45 n line)
parse_record debit_code n line s = append_transaction s (parse_memo true n line)
parse_record credit_code n line s = append_transaction s (parse_memo false n line)
parse_record trailer_code n line s = elim s.trailer [
  | some t ↦ err (duplicate_trailer n)
  | none ↦ parse_bft99 n line >>= λ t. ok (record s { trailer = some t })
]
parse_record other_code n line s = ok s

-- The body of the loop: blank lines are skipped, all others have 200 characters.
unfoldable pub parse_line : ℕ → Text → Partial → Parsed Partial
parse_line n raw s =
    let line = strip_returns raw in
    if is_empty line
    then ok s
    else if length line == line_length
    then parse_record (code_of line) n line s
    else err (bad_length n (length line))

unfoldable pub parse_lines : ℕ → List Text → Partial → Parsed Partial
parse_lines n [] s = ok s
parse_lines n (raw ∷ raws) s = parse_line n raw s >>= λ s'. parse_lines (n + 1) raws s'

-- The lines of the text.
abbrev pub raw_lines : Text → List Text
raw_lines text = drop_last_empty (split_lines [] (normalise_newlines text))

-- What follows the loop.
unfoldable pub finish : Text → Partial → Parsed HafFile
finish source_ref s = elim s.header [
  | none ↦ err missing_header
  | some h ↦ elim s.trailer [
    | none ↦ err missing_trailer
    | some t ↦
        ok (record {
          header = h;
          transactions = s.transactions;
          trailer = t;
          source_ref = source_ref;
        })
  ]
]

unfoldable pub parse_haf : Option Text → Text → Parsed HafFile
parse_haf none source_ref = err not_utf8
parse_haf (some text) source_ref =
    parse_lines 1 (raw_lines text) (record { header = none; trailer = none; transactions = [] })
    >>= finish source_ref
