-- ===== src/Redact.antt =====
-- internal/redact: the redaction job. `redact.go` masks a text in two windows of detectors, `runner.go`
-- runs it by a tenant's policy or, with none, in two steps with a checkpoint between them.
pub mod Output
pub mod Resume
use cold_harbour.Common.{
  ℕ, suc, ◌+◌, Bool, true, false, ◌&&◌, Option, none, some, List, [], ◌∷◌, ◌++◌, Text, codes, leb,
  if◌then◌else◌, length, drop,
}
use cold_harbour.Detect.Span.{Kind, email, phone_us, ssn, kind_name, Span}
use cold_harbour.Detect.Scan.{slice, scan}
use cold_harbour.Detect.Apply.{Mode, partial, upper_case, apply, Counts}
use cold_harbour.Policy.{Doc, ℤ, pos}

pub record RedactCounts : Type 0 where
  pub emails : ℕ
  pub phones : ℕ
  pub ssns : ℕ

pub record RedactResult : Type 0 where
  pub redacted_text : Text
  pub counts : RedactCounts
  pub policy_version : ℤ

abbrev pub no_counts : RedactCounts
no_counts = record { emails = 0; phones = 0; ssns = 0 }

unfoldable pub token : Kind → Text
unfolding upper_case kind_name
token email = codes "[EMAIL_REDACTED]"
token phone_us = codes "[PHONE_REDACTED]"
token ssn = codes "[SSN_REDACTED]"
token k = codes "[" ++ (upper_case (kind_name k) ++ codes "]")

unfoldable pub count_kind : RedactCounts → Kind → RedactCounts
count_kind c email = record c { emails = suc c.emails }
count_kind c phone_us = record c { phones = suc c.phones }
count_kind c ssn = record c { ssns = suc c.ssns }
count_kind c _ = c

-- The loop of `applySpans`. A slice expression with its bounds out of order or past the end panics:
-- that is `none`.
unfoldable pub apply_from :
    Text → List Span → ℕ → Text → RedactCounts → Option (Text × RedactCounts)
unfolding token count_kind
apply_from text [] prev out counts =
    if leb prev (length text) then some (out ++ drop prev text, counts) else none
apply_from text (sp ∷ rest) prev out counts =
    let next =
      apply_from text rest sp.stop (out ++ (slice text prev sp.start ++ token sp.kind))
        (count_kind counts sp.kind) in
    if leb prev sp.start && leb sp.start (length text) then next else none

unfoldable pub apply_spans : Text → RedactCounts → List Span → Option (Text × RedactCounts)
unfolding apply_from
apply_spans text counts spans = apply_from text spans 0 [] counts

-- `stepKinds`
abbrev pub step_kinds : Bool → List Kind
step_kinds false = email ∷ phone_us ∷ []
step_kinds true = ssn ∷ []

infixl 5 ◌>>=◌
abbrev ◌>>=◌ {ℓ κ} : {A : Type ℓ} {B : Type κ} → Option A → (A → Option B) → Option B
none >>= f = none
some a >>= f = f a

-- `applyClassWindow`, for window 0 (`false`) or 1 (`true`).
unfoldable pub apply_class_window : RedactResult → Bool → Option RedactResult
apply_class_window r window = do
  (text, counts) ← apply_spans r.redacted_text r.counts (scan r.redacted_text (step_kinds window))
  some (record { redacted_text = text; counts = counts; policy_version = pos 0 })

unfoldable pub redact_pii : Text → Option RedactResult
redact_pii input = do
  (first, counts) ← apply_spans input no_counts (scan input (step_kinds false))
  (second, counts') ← apply_spans first counts (scan first (step_kinds true))
  some (record { redacted_text = second; counts = counts'; policy_version = pos 0 })

-- `applyPolicy`
abbrev is_partial : Mode → Bool
is_partial partial = true
is_partial _ = false

counts_of : Counts → RedactCounts
counts_of c = record { emails = c email; phones = c phone_us; ssns = c ssn }

unfoldable pub apply_policy : (Text → Text) → Text → Doc → Option RedactResult
unfolding counts_of
apply_policy sha256 text doc =
    if is_partial doc.mode
    then (let (masked, counts) = apply sha256 text (scan text doc.detectors) partial in
        some (record {
          redacted_text = masked;
          counts = counts_of counts;
          policy_version = doc.version;
        }))
    else (do
      (masked, counts) ← apply_spans text no_counts (scan text doc.detectors)
      some (record { redacted_text = masked; counts = counts; policy_version = doc.version }))
