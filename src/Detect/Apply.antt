-- ===== src/Detect/Apply.antt =====
-- internal/detect/detect.go, `Apply`, `partial` and `TokenFor`: what is written in place of the spans.
pub mod Pieces
pub mod Laws
use cold_harbour.Common.{
  ℕ, suc, ◌+◌, ◌-◌, ◌/◌, ◌%◌, Bool, ◌||◌, List, [], ◌∷◌, ◌++◌, Text, codes, ltb, leb, if◌then◌else◌,
  length, take, drop, replicate, ite, sort, get_or,
}
use cold_harbour.Detect.Span.{Kind, kind_name, Kind-discrete, Span}
use cold_harbour.Detect.Select.{earlier}
use cold_harbour.Detect.Regex.{between}
use cold_harbour.Detect.Scan.{slice}

-- `Mode` is a Go string; `other` is any text but the three constants.
pub data Mode : Type 0 where
  redact partial tokenize : Mode
  other : Text → Mode

-- `strings.ToUpper` on ASCII, which every kind of a detector is.
unfoldable pub upper_case : Text → Text
upper_case [] = []
upper_case (c ∷ cs) = (if between b'a' b'z' c then c - 32 else c) ∷ upper_case cs

-- `partial`: all but the last four bytes become stars.
unfoldable pub mask_partial : Text → Text
mask_partial s =
    if leb (length s) 4 then s else replicate (length s - 4) b'*' ++ drop (length s - 4) s

-- `%x`
hex_digits : Text → Text
hex_digits [] = []
hex_digits (b ∷ bs) =
    get_or (codes "0123456789abcdef") (b / 16) 0
    ∷ get_or (codes "0123456789abcdef") (b % 16) 0
    ∷ hex_digits bs

-- `map[Kind]int`
abbrev pub Counts : Type 0
Counts = Kind → ℕ

unfoldable pub bump : Counts → Kind → Counts
bump counts k j = ite (Kind-discrete j k) (suc (counts j)) (counts j)

abbrev pub no_counts : Counts
no_counts k = 0

-- `sha256` stands for `crypto/sha256`.
module _ (sha256 : Text → Text) where
  unfoldable pub token_for : Kind → Text → Text
  unfolding kind_name hex_digits
  token_for kind value =
      codes "tok_"
      ++ (kind_name kind
          ++ (codes "_" ++ hex_digits (take 4 (sha256 (kind_name kind ++ (codes ":" ++ value))))))

  unfoldable pub replacement : Mode → Kind → Text → Text
  unfolding mask_partial token_for upper_case kind_name
  replacement partial kind value = mask_partial value
  replacement tokenize kind value = token_for kind value
  replacement _ kind value = codes "[" ++ (upper_case (kind_name kind) ++ codes "]")

  -- The loop over the ordered spans; a span that overlaps the last one or leaves the text is passed
  -- over.
  unfoldable pub apply_loop : Mode → Text → List Span → ℕ → Text → Counts → Text × Counts
  unfolding replacement bump
  apply_loop mode s [] prev out counts = (out ++ drop prev s, counts)
  apply_loop mode s (sp ∷ rest) prev out counts =
      let skip = apply_loop mode s rest prev out counts in
      let done =
        apply_loop mode s rest sp.stop
          (out ++ (slice s prev sp.start ++ replacement mode sp.kind (slice s sp.start sp.stop)))
          (bump counts sp.kind) in
      if ltb sp.start prev || ltb (length s) sp.stop || leb sp.stop sp.start then skip else done

  unfoldable pub apply : Text → List Span → Mode → Text × Counts
  unfolding apply_loop
  apply s spans mode = apply_loop mode s (sort earlier spans) 0 [] no_counts
