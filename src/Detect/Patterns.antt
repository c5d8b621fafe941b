-- ===== src/Detect/Patterns.antt =====
-- The patterns of internal/detect (detect.go, india.go, creditcard.go, ip.go), part by part as they
-- are written there.
use cold_harbour.Common.{ℕ, Bool, ◌||◌, List, [], ◌∷◌, codes, ◌==◌}
use cold_harbour.Detect.Regex.{
  Regex, empty, set, seq, alt, many, boundary, between, is_digit, is_word, optional, times, up_to,
  one_or_more, char, literal,
}

-- A pattern's parts one after another.
abbrev sequence : List Regex → Regex
sequence [] = empty
sequence (r ∷ rs) = seq r (sequence rs)

-- `\d`
abbrev digit : Regex
digit = set is_digit

abbrev word_or_dot : ℕ → Bool
word_or_dot c = is_word c || c == b'.'

abbrev letter : ℕ → Bool
letter c = between b'A' b'Z' c || between b'a' b'z' c

abbrev upper : Regex
upper = set (between b'A' b'Z')

abbrev hex : ℕ → Bool
hex c = between b'0' b'9' c || between b'a' b'f' c || between b'A' b'F' c

-- `[ -]?`
abbrev space_or_dash : Regex
space_or_dash = optional (set (λ c. c == b' ' || c == b'-'))

abbrev pub email_pattern : Regex
email_pattern = sequence (
    one_or_more word_or_dot
    ∷ alt (char b'@') (literal (codes "%40"))
    ∷ one_or_more word_or_dot
    ∷ char b'.'
    ∷ one_or_more letter
    ∷ [])

abbrev pub phone_us_pattern : Regex
phone_us_pattern =
    alt
      (sequence (
        char b'('
        ∷ times 3 digit
        ∷ literal (codes ") ")
        ∷ times 3 digit
        ∷ char b'-'
        ∷ times 4 digit
        ∷ []))
      (alt (sequence (times 3 digit ∷ char b'-' ∷ times 3 digit ∷ char b'-' ∷ times 4 digit ∷ [])) (
        alt
          (sequence (
            literal (codes "+1 ")
            ∷ times 3 digit
            ∷ char b' '
            ∷ times 3 digit
            ∷ char b' '
            ∷ times 4 digit
            ∷ []))
          (sequence (times 3 digit ∷ char b' ' ∷ times 3 digit ∷ char b' ' ∷ times 4 digit ∷ []))))

abbrev pub ssn_pattern : Regex
ssn_pattern = sequence (
    boundary
    ∷ times 3 digit
    ∷ char b'-'
    ∷ times 2 digit
    ∷ char b'-'
    ∷ times 4 digit
    ∷ boundary
    ∷ [])

abbrev pub aadhaar_pattern : Regex
aadhaar_pattern = sequence (
    set (between b'2' b'9')
    ∷ times 3 digit
    ∷ space_or_dash
    ∷ times 4 digit
    ∷ space_or_dash
    ∷ times 4 digit
    ∷ [])

-- `[ABCFGHLJPT]`
abbrev holder : ℕ → Bool
holder c =
    between b'A' b'C' c || between b'F' b'H' c || c == b'L' || c == b'J' || c == b'P' || c == b'T'

abbrev pub pan_pattern : Regex
pan_pattern =
    sequence (boundary ∷ times 3 upper ∷ set holder ∷ upper ∷ times 4 digit ∷ upper ∷ boundary ∷ [])

abbrev pub phone_in_pattern : Regex
phone_in_pattern = sequence (
    optional (alt (seq (literal (codes "+91")) space_or_dash) (char b'0'))
    ∷ set (between b'6' b'9')
    ∷ times 9 (seq space_or_dash digit)
    ∷ [])

-- `(?:\d[ -]?){13,19}` between word boundaries.
abbrev pub card_pattern : Regex
card_pattern = sequence (
    boundary
    ∷ times 13 (seq digit space_or_dash)
    ∷ up_to 6 (seq digit space_or_dash)
    ∷ boundary
    ∷ [])

-- `\d{1,3}`
abbrev octet : Regex
octet = seq digit (up_to 2 digit)

abbrev pub ipv4_pattern : Regex
ipv4_pattern =
    sequence
      (boundary ∷ octet ∷ char b'.' ∷ octet ∷ char b'.' ∷ octet ∷ char b'.' ∷ octet ∷ boundary ∷ [])

abbrev pub ipv6_pattern : Regex
ipv6_pattern =
    alt
      (sequence (
        alt (sequence (boundary ∷ set hex ∷ up_to 3 (set hex) ∷ char b':' ∷ []))
          (literal (codes "::"))
        ∷ many hex_or_colon
        ∷ boundary
        ∷ []))
      (literal (codes "::1"))
  where
    hex_or_colon : ℕ → Bool
    hex_or_colon c = hex c || c == b':'
