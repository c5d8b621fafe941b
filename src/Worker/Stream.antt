-- ===== src/Worker/Stream.antt =====
-- internal/queue/stream.go: the identifiers of stream entries, and the jobs that entries carry.
pub mod Identifiers
use cold_harbour.Common.{
  ℕ, zero, suc, ◌+◌, ◌-◌, ◌*◌, ◌/◌, ◌%◌, ◌^◌, Bool, true, false, ◌&&◌, ◌||◌, not, Option, none,
  some, List, [], ◌∷◌, ◌++◌, Text, codes, ltb, leb, ◌==◌, if◌then◌else◌,
}

pub record StreamId : Type 0 where
  pub millis : ℕ
  pub seq : ℕ

abbrev pub is_decimal : ℕ → Bool
is_decimal c = leb b'0' c && leb c b'9'

unfoldable pub all_decimal : Text → Bool
all_decimal [] = true
all_decimal (c ∷ cs) = is_decimal c && all_decimal cs

unfoldable pub decimal_value : ℕ → Text → ℕ
decimal_value acc [] = acc
decimal_value acc (c ∷ cs) = decimal_value (acc * 10 + (c - b'0')) cs

-- `strconv.ParseUint(s, 10, 64)`, for a text that is not empty.
unfoldable pub parse_uint : Text → Option ℕ
unfolding all_decimal decimal_value
parse_uint s =
    if all_decimal s && ltb (decimal_value 0 s) (2 ^ 64) then some (decimal_value 0 s) else none

-- `strings.Cut(s, "-")`
abbrev pub push_front : ℕ → Option (Text × Text) → Option (Text × Text)
push_front c none = none
push_front c (some (a, b)) = some (c ∷ a, b)

unfoldable pub cut_dash : Text → Option (Text × Text)
cut_dash [] = none
cut_dash (c ∷ cs) =
    let rest = push_front c (cut_dash cs) in if c == b'-' then some ([], cs) else rest

-- `strings.Contains(s, "-")`
unfoldable pub contains_dash : Text → Bool
contains_dash [] = false
contains_dash (c ∷ cs) = c == b'-' || contains_dash cs

abbrev pub is_blank : Text → Bool
is_blank [] = true
is_blank (c ∷ cs) = false

abbrev pub both : Option ℕ → Option ℕ → Option StreamId
both (some m) (some n) = some (record { millis = m; seq = n })
both _ _ = none

-- The checks behind the cut.
unfoldable pub parse_parts : Option (Text × Text) → Option StreamId
unfolding contains_dash parse_uint
parse_parts none = none
parse_parts (some (millis, seq)) =
    if is_blank millis || is_blank seq || contains_dash seq
    then none
    else both (parse_uint millis) (parse_uint seq)

-- `ParseStreamID`
unfoldable pub parse_stream_id : Text → Option StreamId
unfolding parse_parts cut_dash
parse_stream_id s = parse_parts (cut_dash s)

-- `%d`; twenty digits are enough for 64 bits.
unfoldable pub print_decimal : ℕ → ℕ → Text
print_decimal zero n = []
print_decimal (suc fuel) n =
    let front = print_decimal fuel (n / 10) in
    if ltb n 10 then (b'0' + n) ∷ [] else front ++ (b'0' + n % 10) ∷ []

-- `StreamID.String`
unfoldable pub stream_id_string : StreamId → Text
unfolding print_decimal
stream_id_string id = print_decimal 20 id.millis ++ b'-' ∷ print_decimal 20 id.seq
