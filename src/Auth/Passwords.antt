-- ===== src/Auth/Passwords.antt =====
-- `validate_password_strength` of services/api/src/voyagent_api/auth_inhouse/passwords.py.
use voyagent.Prelude.{
  ℕ, Bool, true, false, Option, none, some, List, [], ◌∷◌, if◌then◌else◌, ltb, length, map,
}
use voyagent.Prelude.Text.{Text, codes, contains, is_empty, text_key}
use voyagent.Auth.Types.{
  Env, PasswordTooWeak, password_blank, password_too_short, password_too_long, password_no_letter,
  password_no_digit, password_common,
}

-- `any(test(c) for c in s)`
abbrev pub any : (ℕ → Bool) → Text → Bool
any test [] = false
any test (c ∷ s) = let rest = any test s in if test c then true else rest

abbrev pub common_passwords : List Text
common_passwords = map codes (
    "password" ∷ "password1" ∷ "password12" ∷ "password123" ∷ "password1234" ∷ "passw0rd"
    ∷ "passw0rd1" ∷ "passw0rd123" ∷ "qwerty" ∷ "qwerty123" ∷ "qwertyuiop" ∷ "qwerty1234" ∷ "letmein"
    ∷ "letmein1" ∷ "letmein123" ∷ "welcome" ∷ "welcome1" ∷ "welcome123" ∷ "admin" ∷ "admin1"
    ∷ "admin123" ∷ "administrator" ∷ "root" ∷ "root123" ∷ "toor" ∷ "iloveyou" ∷ "iloveyou1"
    ∷ "monkey" ∷ "monkey123" ∷ "dragon" ∷ "dragon123" ∷ "master" ∷ "master123" ∷ "abc123"
    ∷ "abc12345" ∷ "abcd1234" ∷ "123abc" ∷ "123456" ∷ "1234567" ∷ "12345678" ∷ "123456789"
    ∷ "1234567890" ∷ "111111" ∷ "000000" ∷ "696969" ∷ "trustno1" ∷ "sunshine" ∷ "princess"
    ∷ "football" ∷ "baseball" ∷ "superman" ∷ "batman123" ∷ "voyagent" ∷ "voyagent1" ∷ "voyagent123"
    ∷ "travel123" ∷ "changeme" ∷ "changeme1" ∷ "changeme123" ∷ [])

abbrev pub min_password_length : ℕ
min_password_length = 10

abbrev pub max_password_length : ℕ
max_password_length = 128

-- `password.strip().lower() in _COMMON_PASSWORDS`
unfoldable pub is_common : Env → Text → Bool
is_common env password = contains (env.lower (env.strip password)) common_passwords

-- The first rule that a password breaks.
unfoldable pub validate_password_strength : Env → Text → Option PasswordTooWeak
validate_password_strength env password =
    if is_empty (env.strip password)
    then some password_blank
    else if ltb (length password) min_password_length
    then some password_too_short
    else if ltb max_password_length (length password)
    then some password_too_long
    else if any env.is_alpha password
    then (if any env.is_digit password
        then (if is_common env password then some password_common else none)
        else some password_no_digit)
    else some password_no_letter
