-- ===== src/Worker/Stream/Identifiers.antt =====
-- A printed stream identifier is parsed back.
use cold_harbour.Common.{
  ℕ, zero, suc, ◌+◌, ◌-◌, ◌*◌, ◌/◌, ◌%◌, ◌^◌, ◌<◌, ◌≡◌, refl, ap, true, false, some, [], ◌∷◌, ◌++◌,
  Text, arith, ◌==◌,
}
use cold_harbour.Worker.Stream.{
  StreamId, all_decimal, decimal_value, parse_uint, push_front, cut_dash, contains_dash, is_blank,
  parse_parts, parse_stream_id, print_decimal, stream_id_string,
}

ten_to : ℕ → ℕ
ten_to zero = 1
ten_to (suc n) = 10 * ten_to n

decimal_value-append :
    (acc : ℕ) (s t : Text) → decimal_value acc (s ++ t) ≡ decimal_value (decimal_value acc s) t
unfolding decimal_value
decimal_value-append acc [] t = refl
decimal_value-append acc (c ∷ s) t = decimal_value-append (acc * 10 + (c - b'0')) s t

all_decimal-append :
    (s t : Text) → all_decimal s ≡ true → all_decimal t ≡ true → all_decimal (s ++ t) ≡ true
unfolding all_decimal
all_decimal-append [] t e f = f
all_decimal-append (c ∷ s) t e f = ground (arith, all_decimal-append s t)

decimal_value-print :
    (fuel n : ℕ) → n < ten_to fuel → 0 < fuel → decimal_value 0 (print_decimal fuel n) ≡ n
unfolding print_decimal decimal_value ten_to
decimal_value-print zero n h p = absurd (omega arith)
decimal_value-print (suc zero) n h p = ground arith
decimal_value-print (suc (suc fuel)) n h p =
    let front = print_decimal (suc fuel) (n / 10) in
    ground (
      arith,
      decimal_value-append 0 front ((b'0' + n % 10) ∷ []),
      decimal_value-print (suc fuel) (n / 10) (omega arith) (omega arith),
    )

all_decimal-print : (fuel n : ℕ) → all_decimal (print_decimal fuel n) ≡ true
unfolding print_decimal all_decimal
all_decimal-print zero n = refl
all_decimal-print (suc fuel) n = ground (
  arith,
  all_decimal-append (print_decimal fuel (n / 10)) ((b'0' + n % 10) ∷ []),
  all_decimal-print fuel (n / 10),
)

is_blank-append : (s : Text) (c : ℕ) → is_blank (s ++ c ∷ []) ≡ false
is_blank-append [] c = refl
is_blank-append (d ∷ s) c = refl

is_blank-print : (fuel n : ℕ) → is_blank (print_decimal (suc fuel) n) ≡ false
unfolding print_decimal
is_blank-print fuel n =
    ground (arith, is_blank-append (print_decimal fuel (n / 10)) (b'0' + n % 10))

contains_dash-all_decimal : (s : Text) → all_decimal s ≡ true → contains_dash s ≡ false
unfolding contains_dash all_decimal
contains_dash-all_decimal [] e = refl
contains_dash-all_decimal (c ∷ s) e = ground (arith, contains_dash-all_decimal s)

cut_dash-all_decimal : (s t : Text) → all_decimal s ≡ true → cut_dash (s ++ b'-' ∷ t) ≡ some (s, t)
unfolding cut_dash all_decimal
cut_dash-all_decimal [] t e = refl
cut_dash-all_decimal (c ∷ s) t e =
    let here : (c == b'-') ≡ false = ground arith in
    let rest = cut_dash-all_decimal s t (ground arith) in rw here (ap (push_front c) rest)

parse_uint-print : (n : ℕ) → n < 2 ^ 64 → parse_uint (print_decimal 20 n) ≡ some n
unfolding parse_uint ten_to
parse_uint-print n h =
    let limit : ten_to 20 ≡ 100000000000000000000 = refl in
    let big : n < ten_to 20 = omega arith in
    let value = decimal_value-print 20 n big (omega arith) in
    ground (arith, value, all_decimal-print 20 n)

-- For an identifier whose parts are unsigned 64-bit numbers, `ParseStreamID` of its `String` gives it
-- back.
pub parse_stream_id-string :
    (id : StreamId)
    → id.millis < 2 ^ 64
    → id.seq < 2 ^ 64
    → parse_stream_id (stream_id_string id) ≡ some id
unfolding parse_stream_id parse_parts stream_id_string
parse_stream_id-string id h k =
    let millis = print_decimal 20 id.millis in
    let seq = print_decimal 20 id.seq in
    rw (cut_dash-all_decimal millis seq (all_decimal-print 20 id.millis)) (
      rw
        (
          is_blank-print 19 id.millis,
          is_blank-print 19 id.seq,
          contains_dash-all_decimal seq (all_decimal-print 20 id.seq),
          parse_uint-print id.millis h,
          parse_uint-print id.seq k,
        )
        refl)
