-- ===== src/Detect/Select.antt =====
-- internal/detect/detect.go, `preferLonger`: of the spans that the detectors found, keep the longest
-- and drop what overlaps them.
pub mod Disjoint
pub mod Cover
use cold_harbour.Common.{
  ◌+◌, Bool, true, false, ◌&&◌, ◌||◌, List, [], ◌∷◌, ◌++◌, Text, ltb, leb, ◌==◌, if◌then◌else◌,
  sort,
}
use cold_harbour.Detect.Span.{kind_name, Span}

-- Go's `<` on strings.
unfoldable pub text_less : Text → Text → Bool
text_less [] [] = false
text_less [] (b ∷ ys) = true
text_less (a ∷ xs) [] = false
text_less (a ∷ xs) (b ∷ ys) = ltb a b || (a == b && text_less xs ys)

-- The order of the first `sort.Slice`: longer spans first, then by start, then by kind. The lengths
-- are compared as integers: a span that ends before its start has a negative one.
unfoldable pub longer_first : Span → Span → Bool
unfolding text_less kind_name
longer_first a b =
    if (a.stop + b.start) == (b.stop + a.start)
    then if a.start == b.start
      then text_less (kind_name a.kind) (kind_name b.kind)
      else ltb a.start b.start
    else ltb (b.stop + a.start) (a.stop + b.start)

abbrev pub earlier : Span → Span → Bool
earlier a b = ltb a.start b.start

abbrev pub overlaps : Span → Span → Bool
overlaps sp c = ltb sp.start c.stop && ltb c.start sp.stop

-- The inner loop: does the span touch one that was chosen before?
unfoldable pub hits : Span → List Span → Bool
hits sp [] = false
hits sp (c ∷ cs) = overlaps sp c || hits sp cs

-- One round of the loop over the sorted spans.
unfoldable pub consider : Span → List Span → List Span
unfolding hits
consider sp chosen =
    if leb sp.stop sp.start then chosen else if hits sp chosen then chosen else chosen ++ sp ∷ []

unfoldable pub choose : List Span → List Span → List Span
choose [] chosen = chosen
choose (sp ∷ rest) chosen = choose rest (consider sp chosen)

unfoldable pub prefer_longer : List Span → List Span
unfolding choose consider longer_first
prefer_longer spans = sort earlier (choose (sort longer_first spans) [])
