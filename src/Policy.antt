-- ===== src/Policy.antt =====
-- internal/policy/policy.go: the tenant's policy document and its validation.
pub mod Validation
use cold_harbour.Common.{
  ℕ, zero, suc, Bool, true, false, Option, none, some, List, [], ◌∷◌, Text, if◌then◌else◌, ◌≡◌,
}
use cold_harbour.Detect.Span.{Kind, email, phone_us, phone_in, ssn, aadhaar, pan, credit_card, ip}
use cold_harbour.Detect.Apply.{Mode, redact, partial}

-- Go's `int`; the documents hold small numbers. `negsuc n` is -(n + 1).
pub data ℤ : Type 0 where
  pos : ℕ → ℤ
  negsuc : ℕ → ℤ

-- `FailPolicy` is a Go string.
pub data FailPolicy : Type 0 where
  closed inline open_lines : FailPolicy
  other : Text → FailPolicy

pub record Doc : Type 0 where
  pub version : ℤ
  pub detectors : List Kind
  pub mode : Mode
  pub fail_policy : FailPolicy
  pub max_inline_bytes : ℤ

pub data Field : Type 0 where
  detectors_field mode_field fail_policy_field max_inline_field : Field

pub data Parsed : Type 0 where
  accepted : Doc → Parsed
  rejected : Field → Parsed

unfoldable pub default_doc : Doc
default_doc = record {
  version = pos 0;
  detectors = email ∷ phone_us ∷ ssn ∷ [];
  mode = redact;
  fail_policy = closed;
  max_inline_bytes = pos 65536;
}

-- `knownKinds`
unfoldable pub is_known : Kind → Bool
is_known email = true
is_known phone_us = true
is_known phone_in = true
is_known ssn = true
is_known aadhaar = true
is_known pan = true
is_known _ = false

unfoldable pub all_known : List Kind → Bool
unfolding is_known
all_known [] = true
all_known (k ∷ ks) = if is_known k then all_known ks else false

unfoldable pub mode_allowed : Mode → Bool
mode_allowed redact = true
mode_allowed partial = true
mode_allowed _ = false

unfoldable pub fail_policy_allowed : FailPolicy → Bool
fail_policy_allowed (other t) = false
fail_policy_allowed _ = true

-- `!(n < 1)`
unfoldable pub at_least_one : ℤ → Bool
at_least_one (pos zero) = false
at_least_one (pos (suc n)) = true
at_least_one (negsuc n) = false

unfoldable pub is_empty : List Kind → Bool
is_empty [] = true
is_empty (k ∷ ks) = false

-- The tests of `Parse` on the decoded document.
unfoldable pub validate : Doc → Parsed
unfolding all_known mode_allowed fail_policy_allowed at_least_one is_empty
validate doc =
    if is_empty doc.detectors
    then rejected detectors_field
    else if all_known doc.detectors
    then (if mode_allowed doc.mode
        then (if fail_policy_allowed doc.fail_policy
            then (if at_least_one doc.max_inline_bytes
                then accepted doc
                else rejected max_inline_field)
            else rejected fail_policy_field)
        else rejected mode_field)
    else rejected detectors_field

-- `decode` stands for `encoding/json` with unknown fields refused; `none` is its error.
unfoldable pub parse : (Text → Option Doc) → Text → Parsed
unfolding validate
parse decode raw = elim (decode raw) [ none ↦ rejected detectors_field | some doc ↦ validate doc ]
