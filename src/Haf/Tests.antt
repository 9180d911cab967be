-- ===== src/Haf/Tests.antt =====
-- A file of three records, and one that lacks its trailer.
use voyagent.Prelude.{ℕ, zero, suc, ◌≡◌, refl, none, some, [], ◌∷◌, ◌++◌, length, All}
use voyagent.Prelude.Int.{pos, negsuc}
use voyagent.Prelude.Text.{Text, codes}
use voyagent.Bsp.{HafFile, bks39}
use voyagent.Haf.Airlines.{matches_airline_code, is_known_iata_airline}
use voyagent.Haf.Fields.{
  ok, err, slice, parse_int, validate_airline_code, ordinal, parse_date, parse_amount,
  missing_trailer,
}
use voyagent.Haf.Records.{amount_at, date_at, airline_at, parse_bfh01, parse_bks39, parse_bft99}
use voyagent.Haf.{
  parse_record, parse_line, parse_lines, finish, parse_haf, raw_lines, normalise_newlines,
}
use voyagent.Haf.Lines.{LinesOf, header_weight, trailer_weight, transaction_weight}
use voyagent.Haf.Parsing.{in_lines, Fits, parse_haf_shape}

abbrev spaces : ℕ → Text
spaces zero = []
spaces (suc n) = 32 ∷ spaces n

abbrev header_line : Text
header_line = codes "BFH01ININRAGENT     20240101202401150000000001" ++ spaces 154

abbrev refund_line : Text
refund_line = codes "BKS39R1            1761234567890 AI20240131000000004999-" ++ spaces 144

abbrev trailer_line : Text
trailer_line = codes "BFT9900000003000000004999-" ++ spaces 174

abbrev newline : Text
newline = 13 ∷ 10 ∷ []

abbrev content : Text
content = header_line ++ (newline ++ (refund_line ++ (newline ++ (trailer_line ++ newline))))

abbrev file : HafFile
file = record {
  header = record {
    country = codes "IN";
    bsp_currency = codes "INR";
    agent_iata_code = codes "AGENT";
    period_start = 738886;
    period_end = 738900;
    file_sequence = codes "0000000001";
  };
  transactions =
      bks39 (record {
        document_number = codes "R1";
        original_ticket_number = codes "1761234567890";
        airline_code = codes "AI";
        issue_date = 738916;
        net_amount = negsuc 4998;
        narration = none;
      })
      ∷ [];
  trailer = record { record_count = pos 3; net_control_total = negsuc 4998 };
  source_ref = codes "f";
}

parses : parse_haf (some content) (codes "f") ≡ ok file
unfolding parse_haf parse_lines parse_line parse_record finish parse_bfh01 parse_bks39 parse_bft99
    amount_at date_at airline_at slice parse_int validate_airline_code matches_airline_code
    is_known_iata_airline ordinal parse_date parse_amount
parses = refl

lacks_trailer : parse_haf (some header_line) (codes "f") ≡ err missing_trailer
unfolding parse_haf parse_lines parse_line parse_record finish parse_bfh01 date_at slice ordinal
    parse_date
lacks_trailer = refl

parse_haf_shape_example :
    LinesOf (normalise_newlines content) (raw_lines content)
    × (in_lines header_weight (raw_lines content) ≡ 1)
    × (in_lines trailer_weight (raw_lines content) ≡ 1)
    × (length file.transactions ≡ in_lines transaction_weight (raw_lines content))
    × All Fits (raw_lines content)
parse_haf_shape_example = parse_haf_shape content (codes "f") file parses
