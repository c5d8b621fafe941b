-- ===== src/Detect/Address.antt =====
-- Go's `net.ParseIP` on the texts that `findIP` (internal/detect/ip.go) passes to it: four groups of
-- digits with dots between, and texts of hexadecimal digits and colons.
use cold_harbour.Common.{
  ℕ, suc, ◌+◌, ◌-◌, ◌*◌, Bool, true, false, ◌&&◌, ◌||◌, Option, none, some, List, [], ◌∷◌, ◌++◌,
  Text, ltb, ◌==◌, if◌then◌else◌, length, take, drop, replicate, reverse, get_or,
}
use cold_harbour.Detect.Regex.{between, is_digit}

-- One octet per dot: the value so far, its digits so far, the dots so far.
unfoldable pub ipv4_from : ℕ → ℕ → ℕ → Text → Bool
unfolding is_digit
ipv4_from val digits dots [] = ltb 0 digits && dots == 3
ipv4_from val digits dots (c ∷ cs) =
    let next = val * 10 + (c - b'0') in
    let more = ipv4_from next (suc digits) dots cs in
    let dot = ipv4_from 0 0 (suc dots) cs in
    if is_digit c
    then if (digits == 1 && val == 0) || ltb 255 next then false else more
    else if c == b'.'
    then if digits == 0 || dots == 3 then false else dot
    else false

unfoldable pub is_ipv4 : Text → Bool
unfolding ipv4_from
is_ipv4 s = ipv4_from 0 0 0 s

-- Where the IPv6 parser stands: at the start, behind one leading colon, in a field, behind the colon
-- of a field, behind `::`.
pub data Mode : Type 0 where
  begin begin_colon field colon ellipsis : Mode

pub record Groups : Type 0 where
  pub mode : Mode
  -- The fields read, the last one first.
  pub fields : List ℕ
  -- How many fields stand before `::`.
  pub gap : Option ℕ
  pub acc : ℕ
  pub off : ℕ

abbrev is_hex : ℕ → Bool
is_hex c = between b'0' b'9' c || between b'a' b'f' c || between b'A' b'F' c

abbrev hex_value : ℕ → ℕ
hex_value c =
    if between b'0' b'9' c
    then c - b'0'
    else if between b'a' b'f' c
    then c - b'a' + 10
    else c - b'A' + 10

digit_step : Groups → ℕ → Option Groups
digit_step g v =
    if length g.fields == 8 || ltb 3 g.off
    then none
    else some (record g { mode = field; acc = g.acc * 16 + v; off = suc g.off })

colon_step : Mode → Groups → Option Groups
colon_step begin g = some (record g { mode = begin_colon })
colon_step begin_colon g = some (record g { mode = ellipsis; gap = some 0 })
colon_step field g = some (record g { mode = colon; fields = g.acc ∷ g.fields; acc = 0; off = 0 })
colon_step colon g = elim g.gap [
  | none ↦ some (record g { mode = ellipsis; gap = some (length g.fields) })
  | some e ↦ none
]
colon_step ellipsis g = none

group_step : Groups → ℕ → Option Groups
unfolding digit_step colon_step
group_step g c =
    if is_hex c
    then elim g.mode [ begin_colon ↦ none | _ ↦ digit_step g (hex_value c) ]
    else if c == b':'
    then colon_step g.mode g
    else none

-- The eight fields, with zeros for `::`, which stands for at least one.
expand : List ℕ → Option ℕ → Option (List ℕ)
expand fields none = if length fields == 8 then some fields else none
expand fields (some e) =
    if ltb (length fields) 8
    then some (take e fields ++ replicate (8 - length fields) 0 ++ drop e fields)
    else none

finish : Mode → Groups → Option (List ℕ)
unfolding expand
finish field g = expand (reverse (g.acc ∷ g.fields)) g.gap
finish ellipsis g = expand (reverse g.fields) g.gap
finish _ g = none

groups_from : Groups → Text → Option (List ℕ)
unfolding finish group_step
groups_from g [] = finish g.mode g
groups_from g (c ∷ cs) = elim (group_step g c) [ none ↦ none | some g' ↦ groups_from g' cs ]

-- `To4() != nil` on an IPv6 address: ten zero bytes and two of 0xff.
is_mapped : List ℕ → Bool
is_mapped fs =
    get_or fs 0 0 == 0
    && get_or fs 1 0 == 0
    && get_or fs 2 0 == 0
    && get_or fs 3 0 == 0
    && get_or fs 4 0 == 0
    && get_or fs 5 0 == 0xffff

-- `ip != nil && ip.To4() == nil`
unfoldable pub is_ipv6 : Text → Bool
unfolding groups_from is_mapped
is_ipv6 s =
    elim (groups_from (record { mode = begin; fields = []; gap = none; acc = 0; off = 0 }) s) [
      | none ↦ false
      | some fs ↦ if is_mapped fs then false else true
    ]
