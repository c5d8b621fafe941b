-- ===== src/Detect/Scan/Bounds.antt =====
-- Where the spans of `Scan` lie in the text, and which kinds they have.
use cold_harbour.Common.{
  ℕ, ◌≤◌, ◌<◌, ◌≡◌, refl, sym, subst, ◌∙◌, Bool, true, List, [], ◌∷◌, Text, arith, All, Any, length,
  All-append, Any-append, Any-append_right, Bool-cases, inl, inr, ap,
}
use cold_harbour.Detect.Span.{
  Kind, email, phone_us, phone_in, ssn, aadhaar, pan, credit_card, ip, Span,
}
use cold_harbour.Detect.Select.Disjoint.{LaidOut, prefer_longer-LaidOut, prefer_longer-All}
use cold_harbour.Detect.Select.Cover.{Covers, prefer_longer-Covers}
use cold_harbour.Detect.Regex.{Regex, find_all}
use cold_harbour.Detect.Regex.Bounds.{Located, min_length, find_all-Located}
use cold_harbour.Detect.Patterns.{
  email_pattern, phone_us_pattern, ssn_pattern, aadhaar_pattern, pan_pattern, phone_in_pattern,
  card_pattern, ipv4_pattern, ipv6_pattern,
}
use cold_harbour.Detect.Scan.{
  scan, detectors, Detector, keep_spans, regex_spans, allows, found_by, find_ip,
}

-- A detector's span: of its kind, not empty, and inside the text.
abbrev pub Fits : Text → Kind → Span → Type 0
Fits s k sp = (sp.kind ≡ k) × (sp.start < sp.stop) × (sp.stop ≤ length s)

keep_spans-Fits :
    (s : Text) (k : Kind) (keep : ℕ → ℕ → Bool) (lo : ℕ) (locs : List (ℕ × ℕ))
    → Located lo (length s) locs
    → All (Fits s k) (keep_spans k keep locs)
unfolding keep_spans
keep_spans-Fits s k keep lo [] l = tt
keep_spans-Fits s k keep lo ((a, b) ∷ locs) l = elim (Bool-cases (keep a b)) [
  | inl e ↦ rw e ((refl, l.1, l.2), keep_spans-Fits s k keep b locs l.3)
  | inr e ↦ rw e (keep_spans-Fits s k keep b locs l.3)
]

pattern_spans-Fits :
    (s : Text) (k : Kind) (keep : ℕ → ℕ → Bool) (r : Regex)
    → 0 < min_length r
    → All (Fits s k) (keep_spans k keep (find_all r s))
pattern_spans-Fits s k keep r h = keep_spans-Fits s k keep 0 (find_all r s) (find_all-Located r s h)

regex_spans-Fits :
    (s : Text) (k : Kind) (r : Regex) → 0 < min_length r → All (Fits s k) (regex_spans k r s)
unfolding regex_spans
regex_spans-Fits s k r h = ground (arith, pattern_spans-Fits s k (λ a b. true) r h)

find_ip-Fits : (s : Text) → All (Fits s ip) (find_ip s)
unfolding find_ip
find_ip-Fits s =
    All-append (Fits s ip) _ _ (pattern_spans-Fits s ip _ ipv4_pattern (omega arith))
      (pattern_spans-Fits s ip _ ipv6_pattern (omega arith))

detectors-Fits : (s : Text) → All (λ d. All (Fits s d.kind) (d.find s)) detectors
unfolding detectors
detectors-Fits s =
    let pattern = pattern_spans-Fits s in
    let cards = (pattern credit_card _ card_pattern (omega arith)) in
    (
      regex_spans-Fits s email email_pattern (omega arith),
      (
        regex_spans-Fits s phone_us phone_us_pattern (omega arith),
        (
          regex_spans-Fits s ssn ssn_pattern (omega arith),
          (
            pattern phone_in _ phone_in_pattern (omega arith),
            (
              pattern aadhaar _ aadhaar_pattern (omega arith),
              (pattern pan (λ a b. true) pan_pattern (omega arith), (cards, (find_ip-Fits s, tt))),
            ),
          ),
        ),
      ),
    )

-- What `Scan` may report: a span of an enabled kind, not empty, and inside the text.
abbrev pub Reports : Text → List Kind → Span → Type 0
Reports s enabled sp = (allows enabled sp.kind ≡ true) × (sp.start < sp.stop) × (sp.stop ≤ length s)

Fits-Reports :
    (s : Text) (enabled : List Kind) (k : Kind) (sps : List Span)
    → allows enabled k ≡ true
    → All (Fits s k) sps
    → All (Reports s enabled) sps
Fits-Reports s enabled k [] e h = tt
Fits-Reports s enabled k (sp ∷ sps) e h =
    ((ap (allows enabled) h.0.0 ∙ e, h.0.1, h.0.2), Fits-Reports s enabled k sps e h.1)

found_by-Reports :
    (ds : List Detector) (s : Text) (enabled : List Kind)
    → All (λ d. All (Fits s d.kind) (d.find s)) ds
    → All (Reports s enabled) (found_by ds s enabled)
unfolding found_by
found_by-Reports [] s enabled h = tt
found_by-Reports (d ∷ ds) s enabled h = elim (Bool-cases (allows enabled d.kind)) [
  | inl e ↦ rw e (
      All-append (Reports s enabled) (d.find s) (found_by ds s enabled)
        (Fits-Reports s enabled d.kind (d.find s) e h.0) (found_by-Reports ds s enabled h.1))
  | inr e ↦ rw e (found_by-Reports ds s enabled h.1)
]

-- For every text and every list of enabled kinds, each span that `Scan` returns has an enabled kind,
-- is not empty and lies inside the text, and the spans stand in order without overlap.
pub scan-Reports :
    (s : Text) (enabled : List Kind)
    → All (Reports s enabled) (scan s enabled) × LaidOut 0 (scan s enabled)
unfolding scan
scan-Reports s enabled = (
  prefer_longer-All (Reports s enabled) (found_by detectors s enabled)
      (found_by-Reports detectors s enabled (detectors-Fits s)),
  prefer_longer-LaidOut (found_by detectors s enabled),
)

found_by-Any :
    (ds : List Detector) (s : Text) (enabled : List Kind) (d : Detector) (sp : Span)
    → Any (λ c. c ≡ d) ds
    → allows enabled d.kind ≡ true
    → Any (λ t. t ≡ sp) (d.find s)
    → Any (λ t. t ≡ sp) (found_by ds s enabled)
unfolding found_by
found_by-Any [] s enabled d sp h e f = absurd h
found_by-Any (c ∷ ds) s enabled d sp (inl h) e f =
    let e' : allows enabled c.kind ≡ true = ap (λ t. allows enabled t.kind) h ∙ e in
    rw e' (
      Any-append (λ t. t ≡ sp) (c.find s) (found_by ds s enabled)
        (subst (λ t. Any (λ u. u ≡ sp) (t.find s)) (sym h) f))
found_by-Any (c ∷ ds) s enabled d sp (inr h) e f = elim (Bool-cases (allows enabled c.kind)) [
  | inl e' ↦ rw e' (
      Any-append_right (λ t. t ≡ sp) (c.find s) (found_by ds s enabled)
        (found_by-Any ds s enabled d sp h e f))
  | inr e' ↦ rw e' (found_by-Any ds s enabled d sp h e f)
]

-- For every span that a detector of the table finds in a text, where its kind is enabled and it is not
-- empty: `Scan` returns that span, or a span at least as long that overlaps it.
pub scan-Covers :
    (s : Text) (enabled : List Kind) (d : Detector) (sp : Span)
    → Any (λ c. c ≡ d) detectors
    → allows enabled d.kind ≡ true
    → Any (λ t. t ≡ sp) (d.find s)
    → sp.start < sp.stop
    → Any (Covers sp) (scan s enabled)
unfolding scan
scan-Covers s enabled d sp known e f p =
    prefer_longer-Covers (found_by detectors s enabled) sp
      (found_by-Any detectors s enabled d sp known e f) p
