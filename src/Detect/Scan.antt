-- ===== src/Detect/Scan.antt =====
-- internal/detect: the detectors and `Scan`, which runs those that a caller enables and resolves
-- their overlaps.
pub mod Bounds
use cold_harbour.Common.{
  ℕ, ◌-◌, Bool, true, false, not, ◌&&◌, ◌||◌, List, [], ◌∷◌, ◌++◌, Text, ltb, leb, ◌==◌,
  if◌then◌else◌, length, take, drop, get_or, ite,
}
use cold_harbour.Detect.Span.{
  Kind, email, phone_us, phone_in, ssn, aadhaar, pan, credit_card, ip, other, Kind-discrete, Span,
}
use cold_harbour.Detect.Select.{prefer_longer}
use cold_harbour.Detect.Regex.{Regex, is_digit, find_all}
use cold_harbour.Detect.Checksum.{digits_only, verhoeff_ok, luhn_ok}
use cold_harbour.Detect.Address.{is_ipv4, is_ipv6}
use cold_harbour.Detect.Patterns.{
  email_pattern, phone_us_pattern, ssn_pattern, aadhaar_pattern, pan_pattern, phone_in_pattern,
  card_pattern, ipv4_pattern, ipv6_pattern,
}

-- `s[a:b]`, for `a ≤ b ≤ len(s)`.
abbrev pub slice : Text → ℕ → ℕ → Text
slice s a b = take (b - a) (drop a s)

-- A loop over the matches that skips those which fail its tests.
unfoldable pub keep_spans : Kind → (ℕ → ℕ → Bool) → List (ℕ × ℕ) → List Span
keep_spans kind keep [] = []
keep_spans kind keep ((a, b) ∷ locs) =
    if keep a b
    then (record { kind = kind; start = a; stop = b }) ∷ keep_spans kind keep locs
    else keep_spans kind keep locs

-- `strings.Contains(s, "@")`, and `"%40"`.
unfoldable pub contains_at : Text → Bool
contains_at [] = false
contains_at (c ∷ cs) =
    c == b'@' || (c == b'%' && get_or cs 0 0 == b'4' && get_or cs 1 0 == b'0') || contains_at cs

unfoldable pub contains_digit : Text → Bool
unfolding is_digit
contains_digit [] = false
contains_digit (c ∷ cs) = is_digit c || contains_digit cs

-- The quick test of `regexSpans`, by kind.
unfoldable pub may_match : Kind → Text → Bool
unfolding contains_at contains_digit
may_match email s = contains_at s
may_match phone_us s = contains_digit s
may_match ssn s = contains_digit s
may_match _ s = true

unfoldable pub regex_spans : Kind → Regex → Text → List Span
unfolding may_match keep_spans
regex_spans kind re s =
    if may_match kind s then keep_spans kind (λ a b. true) (find_all re s) else []

-- A digit just before, or just after, the match.
abbrev digit_before : Text → ℕ → Bool
digit_before s a = ltb 0 a && is_digit (get_or s (a - 1) 0)

abbrev digit_behind : Text → ℕ → Bool
digit_behind s b = ltb b (length s) && is_digit (get_or s b 0)

unfoldable pub find_aadhaar : Text → List Span
unfolding keep_spans
find_aadhaar s = keep_spans aadhaar keep (find_all aadhaar_pattern s)
  where
    keep : ℕ → ℕ → Bool
    keep a b =
        not (digit_before s a)
        && not (digit_behind s b)
        && length (digits_only (slice s a b)) == 12
        && verhoeff_ok (digits_only (slice s a b))

unfoldable pub find_pan : Text → List Span
unfolding keep_spans
find_pan s = keep_spans pan (λ a b. true) (find_all pan_pattern s)

unfoldable pub find_phone_in : Text → List Span
unfolding keep_spans
find_phone_in s = keep_spans phone_in keep (find_all phone_in_pattern s)
  where
    keep : ℕ → ℕ → Bool
    keep a b = not (digit_behind s b) && (get_or s a 0 == b'+' || not (digit_before s a))

unfoldable pub find_credit_card : Text → List Span
unfolding keep_spans
find_credit_card s = keep_spans credit_card keep (find_all card_pattern s)
  where
    -- 13 to 19 digits, the first from 3 to 6.
    plausible : Text → Bool
    plausible ds =
        leb 13 (length ds)
        && leb (length ds) 19
        && leb b'3' (get_or ds 0 0)
        && leb (get_or ds 0 0) b'6'

    keep : ℕ → ℕ → Bool
    keep a b =
        let ds = digits_only (slice s a b) in
        not (digit_before s a) && not (digit_behind s b) && plausible ds && luhn_ok ds

-- `strings.Contains(candidate, ":")`
contains_colon : Text → Bool
contains_colon [] = false
contains_colon (c ∷ cs) = c == b':' || contains_colon cs

unfoldable pub find_ip : Text → List Span
unfolding keep_spans contains_colon
find_ip s =
    keep_spans ip (λ a b. is_ipv4 (slice s a b)) (find_all ipv4_pattern s)
    ++ keep_spans ip (λ a b. contains_colon (slice s a b) && is_ipv6 (slice s a b))
        (find_all ipv6_pattern s)

pub record Detector : Type 0 where
  pub kind : Kind
  pub find : Text → List Span

unfoldable pub detectors : List Detector
unfolding regex_spans find_aadhaar find_pan find_phone_in find_credit_card find_ip
detectors =
    (record { kind = email; find = regex_spans email email_pattern })
    ∷ (record { kind = phone_us; find = regex_spans phone_us phone_us_pattern })
    ∷ (record { kind = ssn; find = regex_spans ssn ssn_pattern })
    ∷ (record { kind = phone_in; find = find_phone_in })
    ∷ (record { kind = aadhaar; find = find_aadhaar })
    ∷ (record { kind = pan; find = find_pan })
    ∷ (record { kind = credit_card; find = find_credit_card })
    ∷ (record { kind = ip; find = find_ip })
    ∷ []

-- `_, ok := allow[kind]`
unfoldable pub allows : List Kind → Kind → Bool
allows [] k = false
allows (e ∷ es) k = ite (Kind-discrete e k) true (allows es k)

unfoldable pub found_by : List Detector → Text → List Kind → List Span
unfolding allows
found_by [] s enabled = []
found_by (d ∷ ds) s enabled =
    if allows enabled d.kind then d.find s ++ found_by ds s enabled else found_by ds s enabled

unfoldable pub scan : Text → List Kind → List Span
unfolding found_by prefer_longer
scan s enabled = prefer_longer (found_by detectors s enabled)
