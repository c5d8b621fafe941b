-- ===== src/Sentinel/Mask.antt =====
-- cmd/sentinel/mask.go: a line masked, or handed on if it is long.
pub mod Shown
use cold_harbour.Common.{
  ℕ, Bool, true, false, Option, some, List, [], ◌∷◌, Text, if◌then◌else◌, ltb, length,
}
use cold_harbour.Detect.Span.{Kind, Span}
use cold_harbour.Detect.Scan.{scan}
use cold_harbour.Detect.Apply.{Mode, Counts, no_counts, bump, apply, redact}
use cold_harbour.Policy.{ℤ, pos, negsuc, FailPolicy, closed}
use cold_harbour.Sentinel.Handoff.{
  MaskResult, Handoff, Outside, handle, plain_line, or_redact, or_mask_kinds, mask_kinds,
  new_handoff,
}

-- `len(line) > maxInline`
abbrev pub is_longer : ℕ → ℤ → Bool
is_longer n (pos m) = ltb m n
is_longer n (negsuc m) = true

abbrev pub or_closed : FailPolicy → FailPolicy
or_closed (FailPolicy.other []) = closed
or_closed policy = policy

-- The loop that counts the spans.
unfoldable pub count_spans : List Span → Counts → Counts
unfolding bump
count_spans [] counts = counts
count_spans (sp ∷ rest) counts = count_spans rest (bump counts sp.kind)

module _ (o : Outside) where
  abbrev pub masked_line : Text → List Kind → Mode → MaskResult
  masked_line line kinds mode =
      let (text, counts) = apply o.sha256 line (scan line kinds) mode in plain_line text counts

  -- `maskWith`, with its empty arguments replaced.
  unfoldable pub mask_line_with :
      Text
      → ℤ
      → Bool
      → List Kind
      → Mode
      → Handoff
      → FailPolicy
      → Bool
      → Option (MaskResult × Handoff)
  unfolding count_spans
  mask_line_with line max_inline true kinds mode h fail_policy room =
      some (plain_line line (count_spans (scan line kinds) no_counts), h)
  mask_line_with line max_inline false kinds mode h fail_policy room =
      if is_longer (length line) max_inline
      then handle o line fail_policy kinds mode h room
      else some (masked_line line kinds mode, h)

  -- `maskWith`; both ways of a shadowed line are the same.
  unfoldable pub mask_with :
      Text
      → ℤ
      → Bool
      → List Kind
      → Mode
      → Handoff
      → FailPolicy
      → Bool
      → Option (MaskResult × Handoff)
  unfolding mask_line_with
  mask_with line max_inline shadow kinds mode h fail_policy room =
      mask_line_with line max_inline shadow (or_mask_kinds kinds) (or_redact mode) h
        (or_closed fail_policy) room

  -- `maskLine`: no hand-off.
  unfoldable pub mask_line : Text → ℤ → Bool → Option (MaskResult × Handoff)
  unfolding mask_with
  mask_line line max_inline shadow =
      mask_with line max_inline shadow mask_kinds redact (new_handoff [] [] false) closed true
