-- ===== src/Haf/Airlines.antt =====
-- The allow-list of drivers/bsp_india/airlines.py.
use voyagent.Prelude.{
  ℕ, Bool, true, false, ◌&&◌, ◌||◌, List, [], ◌∷◌, ◌++◌, leb, ◌==◌, length, if◌then◌else◌,
}
use voyagent.Prelude.Text.{Text, codes, contains, text_key}

abbrev pub india_and_subcontinent : List Text
india_and_subcontinent =
    codes "AI"
    ∷ codes "IX"
    ∷ codes "6E"
    ∷ codes "SG"
    ∷ codes "QP"
    ∷ codes "UK"
    ∷ codes "I5"
    ∷ codes "G8"
    ∷ codes "S2"
    ∷ codes "9W"
    ∷ codes "2T"
    ∷ codes "BG"
    ∷ codes "BS"
    ∷ codes "UL"
    ∷ codes "RA"
    ∷ codes "PK"
    ∷ codes "ER"
    ∷ codes "PF"
    ∷ codes "DV"
    ∷ []

abbrev pub gulf_and_middle_east : List Text
gulf_and_middle_east =
    codes "EK"
    ∷ codes "EY"
    ∷ codes "QR"
    ∷ codes "SV"
    ∷ codes "GF"
    ∷ codes "WY"
    ∷ codes "KU"
    ∷ codes "RJ"
    ∷ codes "ME"
    ∷ codes "FZ"
    ∷ codes "G9"
    ∷ codes "XY"
    ∷ codes "IY"
    ∷ codes "LY"
    ∷ codes "IR"
    ∷ codes "TK"
    ∷ codes "PC"
    ∷ []

abbrev pub east_and_se_asia : List Text
east_and_se_asia =
    codes "SQ"
    ∷ codes "TR"
    ∷ codes "MI"
    ∷ codes "TG"
    ∷ codes "TW"
    ∷ codes "FD"
    ∷ codes "VN"
    ∷ codes "VJ"
    ∷ codes "MH"
    ∷ codes "OD"
    ∷ codes "AK"
    ∷ codes "D7"
    ∷ codes "GA"
    ∷ codes "JT"
    ∷ codes "QZ"
    ∷ codes "ID"
    ∷ codes "PR"
    ∷ codes "5J"
    ∷ codes "Z2"
    ∷ codes "CX"
    ∷ codes "KA"
    ∷ codes "HX"
    ∷ codes "UO"
    ∷ codes "CI"
    ∷ codes "BR"
    ∷ codes "B7"
    ∷ codes "OZ"
    ∷ codes "KE"
    ∷ codes "7C"
    ∷ codes "LJ"
    ∷ codes "NH"
    ∷ codes "JL"
    ∷ codes "MM"
    ∷ codes "BC"
    ∷ codes "CA"
    ∷ codes "MU"
    ∷ codes "CZ"
    ∷ codes "HU"
    ∷ codes "3U"
    ∷ codes "FM"
    ∷ codes "MF"
    ∷ codes "SC"
    ∷ codes "KL"
    ∷ []

abbrev pub europe : List Text
europe =
    codes "BA"
    ∷ codes "VS"
    ∷ codes "AF"
    ∷ codes "LH"
    ∷ codes "LX"
    ∷ codes "OS"
    ∷ codes "SN"
    ∷ codes "KM"
    ∷ codes "IB"
    ∷ codes "UX"
    ∷ codes "AY"
    ∷ codes "SK"
    ∷ codes "AZ"
    ∷ codes "TP"
    ∷ codes "LO"
    ∷ codes "OK"
    ∷ codes "RO"
    ∷ codes "JU"
    ∷ codes "OU"
    ∷ codes "A3"
    ∷ codes "SU"
    ∷ codes "S7"
    ∷ codes "U6"
    ∷ codes "FI"
    ∷ codes "DY"
    ∷ codes "D8"
    ∷ codes "BT"
    ∷ codes "EI"
    ∷ codes "FR"
    ∷ codes "U2"
    ∷ codes "W6"
    ∷ codes "HV"
    ∷ codes "VY"
    ∷ codes "EW"
    ∷ []

abbrev pub americas : List Text
americas =
    codes "AA"
    ∷ codes "DL"
    ∷ codes "UA"
    ∷ codes "AS"
    ∷ codes "B6"
    ∷ codes "WN"
    ∷ codes "F9"
    ∷ codes "NK"
    ∷ codes "HA"
    ∷ codes "AC"
    ∷ codes "WS"
    ∷ codes "TS"
    ∷ codes "AM"
    ∷ codes "Y4"
    ∷ codes "VB"
    ∷ codes "CM"
    ∷ codes "LA"
    ∷ codes "AR"
    ∷ codes "G3"
    ∷ codes "AD"
    ∷ codes "AV"
    ∷ codes "H2"
    ∷ codes "JA"
    ∷ codes "P5"
    ∷ codes "4M"
    ∷ []

abbrev pub africa : List Text
africa =
    codes "ET"
    ∷ codes "KQ"
    ∷ codes "SA"
    ∷ codes "MS"
    ∷ codes "AT"
    ∷ codes "TU"
    ∷ codes "AH"
    ∷ codes "MK"
    ∷ codes "TM"
    ∷ codes "WB"
    ∷ codes "UR"
    ∷ codes "PW"
    ∷ []

abbrev pub oceania : List Text
oceania = codes "QF" ∷ codes "JQ" ∷ codes "VA" ∷ codes "NZ" ∷ codes "FJ" ∷ []

abbrev pub cargo_and_misc : List Text
cargo_and_misc =
    codes "FX"
    ∷ codes "5X"
    ∷ codes "5Y"
    ∷ codes "GG"
    ∷ codes "CV"
    ∷ codes "LD"
    ∷ codes "RU"
    ∷ codes "K4"
    ∷ codes "7L"
    ∷ []

abbrev pub known_iata_airline_codes : List Text
known_iata_airline_codes =
    india_and_subcontinent
    ++ (gulf_and_middle_east
        ++ (east_and_se_asia
            ++ (europe ++ (americas ++ (africa ++ (oceania ++ (cargo_and_misc)))))))

-- `[A-Z0-9]`
abbrev is_code_character : ℕ → Bool
is_code_character c = (leb 65 c && leb c 90) || (leb 48 c && leb c 57)

abbrev all_characters : Text → Bool
all_characters [] = true
all_characters (c ∷ cs) = is_code_character c && all_characters cs

-- `IATA_AIRLINE_CODE_RE.match(code)`
unfoldable pub matches_airline_code : Text → Bool
matches_airline_code code = length code == 2 && all_characters code

-- `is_known_iata_airline`
unfoldable pub is_known_iata_airline : Text → Bool
is_known_iata_airline code =
    if matches_airline_code code then contains code known_iata_airline_codes else false
