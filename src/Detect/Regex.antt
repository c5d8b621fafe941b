-- ===== src/Detect/Regex.antt =====
-- The part of Go's `regexp` that the detectors use: matching from the left, the first alternative
-- first, greedy repeats, and `FindAllStringIndex`. The patterns match ASCII characters only, so a
-- text is read byte by byte; a byte of a longer character is no word character, as in Go.
pub mod Bounds
use cold_harbour.Common.{
  ℕ, zero, suc, ◌+◌, ◌-◌, Bool, true, false, not, ◌&&◌, ◌||◌, Option, none, some, List, [], ◌∷◌,
  Text, leb, ◌==◌, if◌then◌else◌,
}

pub data Regex : Type 0 where
  empty : Regex
  set : (ℕ → Bool) → Regex
  seq : Regex → Regex → Regex
  alt : Regex → Regex → Regex
  -- A greedy `*` over one class of characters.
  many : (ℕ → Bool) → Regex
  -- `\b`
  boundary : Regex

abbrev pub between : ℕ → ℕ → ℕ → Bool
between lo hi c = leb lo c && leb c hi

unfoldable pub is_digit : ℕ → Bool
is_digit c = between b'0' b'9' c

-- `\w`
unfoldable pub is_word : ℕ → Bool
is_word c = between b'0' b'9' c || between b'A' b'Z' c || between b'a' b'z' c || c == b'_'

-- Whether the next, or the last, byte is a word character; there is none at an end of the text.
unfoldable pub word_after : Text → Bool
unfolding is_word
word_after [] = false
word_after (c ∷ cs) = is_word c

unfoldable pub word_before : Option ℕ → Bool
unfolding is_word
word_before none = false
word_before (some c) = is_word c

abbrev differ : Bool → Bool → Bool
differ true b = not b
differ false b = b

-- What is still to match: from an offset, the byte before it and the text from it on, to the
-- offset at which the match ends.
abbrev pub Rest : Type 0
Rest = ℕ → Option ℕ → Text → Option ℕ

abbrev pub or_else : Option ℕ → Option ℕ → Option ℕ
or_else none o = o
or_else (some e) o = some e

unfoldable pub match_set : (ℕ → Bool) → Rest → Rest
match_set p k pos prev [] = none
match_set p k pos prev (c ∷ cs) = if p c then k (suc pos) (some c) cs else none

unfoldable pub match_many : (ℕ → Bool) → Rest → Rest
match_many p k pos prev [] = k pos prev []
match_many p k pos prev (c ∷ cs) =
    let more = match_many p k (suc pos) (some c) cs in
    if p c then or_else more (k pos prev (c ∷ cs)) else k pos prev (c ∷ cs)

unfoldable pub match_from : Regex → Rest → Rest
unfolding match_set match_many word_before word_after
match_from empty k pos prev cs = k pos prev cs
match_from (set p) k pos prev cs = match_set p k pos prev cs
match_from (seq a b) k pos prev cs = match_from a (match_from b k) pos prev cs
match_from (alt a b) k pos prev cs =
    let other = match_from b k pos prev cs in or_else (match_from a k pos prev cs) other
match_from (many p) k pos prev cs = match_many p k pos prev cs
match_from boundary k pos prev cs =
    if differ (word_before prev) (word_after cs) then k pos prev cs else none

abbrev pub accept : Rest
accept pos prev cs = some pos

-- `FindAllStringIndex`: `skip` bytes belong to the last match. No pattern matches an empty text.
unfoldable pub find_from : Regex → ℕ → ℕ → Option ℕ → Text → List (ℕ × ℕ)
unfolding match_from
find_from r skip pos prev [] = []
find_from r (suc skip) pos prev (c ∷ cs) = find_from r skip (suc pos) (some c) cs
find_from r zero pos prev (c ∷ cs) =
    let found = match_from r accept pos prev (c ∷ cs) in
    elim found [
      | none ↦ find_from r 0 (suc pos) (some c) cs
      | some e ↦ (pos, e) ∷ find_from r (e - pos - 1) (suc pos) (some c) cs
    ]

unfoldable pub find_all : Regex → Text → List (ℕ × ℕ)
unfolding find_from
find_all r s = find_from r 0 0 none s

-- Notation for patterns.
abbrev pub optional : Regex → Regex
optional r = alt r empty

abbrev pub times : ℕ → Regex → Regex
times zero r = empty
times (suc n) r = seq r (times n r)

-- At most `n` times, greedily: `(r(r(…)?)?)?`.
abbrev pub up_to : ℕ → Regex → Regex
up_to zero r = empty
up_to (suc n) r = optional (seq r (up_to n r))

abbrev pub one_or_more : (ℕ → Bool) → Regex
one_or_more p = seq (set p) (many p)

abbrev pub char : ℕ → Regex
char c = set (λ d. d == c)

abbrev pub literal : Text → Regex
literal [] = empty
literal (c ∷ cs) = seq (char c) (literal cs)
