-- ===== src/Redact/Output.antt =====
-- What the redaction writes.
use cold_harbour.Common.{
  ℕ, suc, ◌+◌, ◌≤◌, ◌≡◌, refl, sym, ap, ◌∙◌, some, List, [], ◌∷◌, ◌++◌, append_assoc, append-nil,
  Text, arith, length, drop, All, le→leb, ite, false, true,
}
use cold_harbour.Detect.Span.{Kind, email, phone_us, ssn, Span, Kind-discrete}
use cold_harbour.Detect.Select.Disjoint.{LaidOut}
use cold_harbour.Detect.Scan.{slice, scan}
use cold_harbour.Detect.Scan.Bounds.{scan-Reports}
use cold_harbour.Detect.Apply.Pieces.{pieces, render, hidden_count, InText, render-pieces}
use cold_harbour.Detect.Apply.Laws.{Reports-InText}
use cold_harbour.Policy.{pos}
use cold_harbour.Detect.Apply.Pieces.{render-pieces}
use cold_harbour.Redact.{
  step_kinds, RedactCounts, RedactResult, no_counts, token, count_kind, apply_from, apply_spans,
  redact_pii,
}

-- `after` adds to `before` what the pieces hide.
pub record Counted (before after : RedactCounts) (e p s : ℕ) : Type 0 where
  pub emails : after.emails ≡ before.emails + e
  pub phones : after.phones ≡ before.phones + p
  pub ssns : after.ssns ≡ before.ssns + s

count_all : RedactCounts → List Span → RedactCounts
count_all c [] = c
count_all c (sp ∷ rest) = count_all (count_kind c sp.kind) rest

apply_from-render :
    (text : Text) (spans : List Span) (prev : ℕ) (out : Text) (counts : RedactCounts)
    → LaidOut prev spans
    → All (InText text) spans
    → prev ≤ length text
    → apply_from text spans prev out counts
      ≡ some (out ++ render (λ k t. token k) (pieces text prev spans), count_all counts spans)
unfolding apply_from pieces render count_all
apply_from-render text [] prev out counts l b p =
    rw (le→leb prev (length text) p)
      (ap (λ t. some (t, counts)) (ap (λ t. out ++ t) (sym (append-nil (drop prev text)))))
apply_from-render text (sp ∷ rest) prev out counts l b p =
    let gap = slice text prev sp.start in
    rw (le→leb prev sp.start l.0, le→leb sp.start (length text) (omega arith))
      (apply_from-render text rest sp.stop (out ++ (gap ++ token sp.kind))
          (count_kind counts sp.kind) l.2 b.1 b.0
        ∙ ap (λ t. some (t, count_all (count_kind counts sp.kind) rest))
            (append_assoc out (gap ++ token sp.kind) _
              ∙ ap (λ t. out ++ t) (append_assoc gap (token sp.kind) _)))

-- One more of a kind.
abbrev one_if : Kind → Kind → ℕ
one_if j k = ite (Kind-discrete j k) 1 0

one_if-add : (j k : Kind) (n : ℕ) → ite (Kind-discrete j k) (suc n) n ≡ one_if j k + n
one_if-add j k n = ground arith

count_kind-Counted :
    (c : RedactCounts) (k : Kind)
    → Counted c (count_kind c k) (one_if email k) (one_if phone_us k) (one_if ssn k)
unfolding count_kind Kind-discrete
count_kind-Counted c email = omega arith
count_kind-Counted c _ = omega arith

count_all-Counted :
    (text : Text) (spans : List Span) (prev : ℕ) (counts : RedactCounts)
    → let cut = pieces text prev spans in
      Counted counts
        (count_all counts spans)
        (hidden_count email cut)
        (hidden_count phone_us cut)
        (hidden_count ssn cut)
unfolding count_all pieces hidden_count
count_all-Counted text [] prev counts = omega arith
count_all-Counted text (sp ∷ rest) prev counts =
    let first = count_kind-Counted counts sp.kind in
    let others = count_all-Counted text rest sp.stop (count_kind counts sp.kind) in
    omega (
      arith,
      first,
      others,
      one_if-add email sp.kind (hidden_count email (pieces text sp.stop rest)),
      one_if-add phone_us sp.kind (hidden_count phone_us (pieces text sp.stop rest)),
      one_if-add ssn sp.kind (hidden_count ssn (pieces text sp.stop rest)),
    )

-- For every text, list of kinds and counts so far, `applySpans` on what `Scan` finds does not panic: it
-- puts the token of its kind in the place of each span and keeps every other byte of the text, and
-- adds one to the count of emails, US phones or SSNs for each span of that kind.
pub apply_spans-scan :
    (text : Text) (enabled : List Kind) (counts : RedactCounts)
    → let cut = pieces text 0 (scan text enabled) in
      (after : RedactCounts) × (apply_spans text counts (scan text enabled)
        ≡ some (render (λ k t. token k) cut, after))
      × (render (λ k t. t) cut ≡ text)
      × Counted counts after
          (hidden_count email cut)
          (hidden_count phone_us cut)
          (hidden_count ssn cut)
unfolding apply_spans
apply_spans-scan text enabled counts =
    let spans = scan text enabled in
    let (reports, laid) = scan-Reports text enabled in
    (
      count_all counts spans,
      apply_from-render text spans 0 [] counts laid (Reports-InText text enabled spans reports)
          (omega arith),
      render-pieces text 0 spans laid,
      count_all-Counted text spans 0 counts,
    )

-- The text with the token of its kind in the place of each span that `Scan` finds.
abbrev pub masked : Text → List Kind → Text
masked text enabled = render (λ k t. token k) (pieces text 0 (scan text enabled))

-- `RedactPII` never panics: for every input it masks the emails and US phone numbers, and then the
-- SSNs of what that leaves.
pub redact_pii-masked :
    (input : Text)
    → (r : RedactResult) × (redact_pii input ≡ some r)
      × (r.redacted_text ≡ masked (masked input (step_kinds false)) (step_kinds true))
unfolding redact_pii
redact_pii-masked input =
    let (c, first, _, _) = apply_spans-scan input (step_kinds false) no_counts in
    let (c', second, _, _) =
      apply_spans-scan (masked input (step_kinds false)) (step_kinds true) c in
    (
      record {
        redacted_text = masked (masked input (step_kinds false)) (step_kinds true);
        counts = c';
        policy_version = pos 0;
      },
      rw (first, second),
      refl,
    )
