-- ===== src/Detect/Apply/Laws.antt =====
-- What `Apply` returns on the spans of a scan.
use cold_harbour.Common.{
  ℕ, suc, ◌+◌, ◌-◌, ◌≤◌, ◌<◌, ◌≡◌, refl, sym, ap, ◌∙◌, List, [], ◌∷◌, ◌++◌, append_assoc,
  append-nil, Text, arith, length, drop, All, sort, insert_by, leb, replicate, length-append,
  length-drop, length-replicate, ◌||◌, false, ltb, ite,
}
use cold_harbour.Detect.Span.{Kind, Kind-discrete, Span, email}
use cold_harbour.Detect.Select.{earlier}
use cold_harbour.Detect.Select.Disjoint.{LaidOut}
use cold_harbour.Detect.Scan.{slice, scan}
use cold_harbour.Detect.Scan.Bounds.{Reports, scan-Reports}
use cold_harbour.Detect.Apply.Pieces.{
  pieces, render, hidden_count, InText, render-pieces, length-render,
}
use cold_harbour.Detect.Apply.{
  Mode, partial, replacement, mask_partial, Counts, no_counts, bump, apply_loop, apply,
}

insert-front :
    (s : Span) (ss : List Span)
    → LaidOut s.stop ss
    → s.start < s.stop
    → insert_by earlier s ss ≡ s ∷ ss
unfolding insert_by
insert-front s [] k p = refl
insert-front s (t ∷ ts) k p = ground arith

-- Spans in order are sorted already.
sort-LaidOut_id : (n : ℕ) (spans : List Span) → LaidOut n spans → sort earlier spans ≡ spans
unfolding sort
sort-LaidOut_id n [] l = refl
sort-LaidOut_id n (s ∷ ss) l =
    ap (insert_by earlier s) (sort-LaidOut_id s.stop ss l.2) ∙ insert-front s ss l.2 l.1

-- No span of a laid-out list is passed over.
in_order :
    (s : Text) (sp : Span) (prev : ℕ)
    → prev ≤ sp.start
    → sp.start < sp.stop
    → sp.stop ≤ length s
    → (ltb sp.start prev || ltb (length s) sp.stop || leb sp.stop sp.start) ≡ false
in_order s sp prev p q r = ground arith

bump_count :
    (c : Counts) (j k : Kind) (n : ℕ) → bump c j k + n ≡ c k + ite (Kind-discrete k j) (suc n) n
unfolding bump
bump_count c j k n = ground arith

module _ (sha256 : Text → Text) (mode : Mode) (s : Text) where
  apply_loop-render :
      (spans : List Span) (prev : ℕ) (out : Text) (counts : Counts)
      → LaidOut prev spans
      → All (InText s) spans
      → (apply_loop sha256 mode s spans prev out counts).0
        ≡ out ++ render (replacement sha256 mode) (pieces s prev spans)
  unfolding apply_loop pieces render
  apply_loop-render [] prev out counts l b = ap (λ t. out ++ t) (sym (append-nil (drop prev s)))
  apply_loop-render (sp ∷ rest) prev out counts l b =
      let gap = slice s prev sp.start in
      let put = replacement sha256 mode sp.kind (slice s sp.start sp.stop) in
      rw (in_order s sp prev l.0 l.1 b.0) (
        apply_loop-render rest sp.stop (out ++ (gap ++ put)) (bump counts sp.kind) l.2 b.1
        ∙ append_assoc out (gap ++ put) _
        ∙ ap (λ t. out ++ t) (append_assoc gap put _))

  apply_loop-counts :
      (spans : List Span) (prev : ℕ) (out : Text) (counts : Counts) (k : Kind)
      → LaidOut prev spans
      → All (InText s) spans
      → (apply_loop sha256 mode s spans prev out counts).1 k
        ≡ counts k + hidden_count k (pieces s prev spans)
  unfolding apply_loop pieces hidden_count
  apply_loop-counts [] prev out counts k l b = omega arith
  apply_loop-counts (sp ∷ rest) prev out counts k l b =
      let put = replacement sha256 mode sp.kind (slice s sp.start sp.stop) in
      rw (in_order s sp prev l.0 l.1 b.0) (
        apply_loop-counts rest sp.stop (out ++ (slice s prev sp.start ++ put)) (bump counts sp.kind)
          k l.2 b.1
        ∙ bump_count counts sp.kind k _)

pub Reports-InText :
    (s : Text) (enabled : List Kind) (spans : List Span)
    → All (Reports s enabled) spans
    → All (InText s) spans
Reports-InText s enabled [] h = tt
Reports-InText s enabled (sp ∷ spans) h = (h.0.2, Reports-InText s enabled spans h.1)

-- For every text, list of kinds, mode and hash: `Apply` on what `Scan` finds puts the mode's
-- replacement in the place of each span and keeps every other byte; the pieces put together unchanged
-- are the text; and each kind is counted as often as a span of it is replaced.
pub apply-scan :
    (sha256 : Text → Text) (mode : Mode) (s : Text) (enabled : List Kind) (k : Kind)
    → let cut = pieces s 0 (scan s enabled) in
      let done = apply sha256 s (scan s enabled) mode in
      (done.0 ≡ render (replacement sha256 mode) cut)
      × (render (λ j t. t) cut ≡ s)
      × (done.1 k ≡ hidden_count k cut)
unfolding apply
apply-scan sha256 mode s enabled k =
    let (reports, laid) = scan-Reports s enabled in
    let inside = Reports-InText s enabled (scan s enabled) reports in
    rw (sort-LaidOut_id 0 (scan s enabled) laid) (
      apply_loop-render sha256 mode s (scan s enabled) 0 [] no_counts laid inside,
      render-pieces s 0 (scan s enabled) laid,
      apply_loop-counts sha256 mode s (scan s enabled) 0 [] no_counts k laid inside ∙ omega arith,
    )

length-mask_partial : (t : Text) → length (mask_partial t) ≡ length t
unfolding mask_partial
length-mask_partial t = ground (
  arith,
  length-append (replicate (length t - 4) b'*') (drop (length t - 4) t),
  length-replicate {A = ℕ} (length t - 4) b'*',
  length-drop (length t - 4) t,
)

-- `Apply` in partial mode on what `Scan` finds keeps the length of every text.
pub apply_partial-length :
    (sha256 : Text → Text) (s : Text) (enabled : List Kind)
    → length (apply sha256 s (scan s enabled) partial).0 ≡ length s
unfolding replacement
apply_partial-length sha256 s enabled =
    let cut = pieces s 0 (scan s enabled) in
    let (written, whole, _) = apply-scan sha256 partial s enabled email in
    ap length written
    ∙ length-render (replacement sha256 partial) cut (λ k t. length-mask_partial t)
    ∙ ap length whole
