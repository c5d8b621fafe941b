-- ===== src/Redact/Resume.antt =====
-- internal/redact/runner.go, `Run`: by the tenant's policy, or in two steps with a checkpoint between.
use cold_harbour.Common.{
  ℕ, zero, suc, ◌≡◌, refl, Bool, true, false, Option, none, some, [], ◌∷◌, Text, if◌then◌else◌,
  Option-cases, inl, inr,
}
use cold_harbour.Policy.{Doc, pos}
use cold_harbour.Redact.{
  RedactResult, no_counts, apply_class_window, apply_policy, redact_pii, apply_spans, scan,
  step_kinds,
}

-- What the tenant's policy loader returns: its error, no document, or a document.
pub data Loaded : Type 0 where
  load_error missing : Loaded
  found : Doc → Loaded

-- `input["input"]`, if it is a string, and `input["tenantId"]`, empty if it is none.
pub record Input : Type 0 where
  pub text : Option Text
  pub tenant : Text

-- A saved map as `resultFromMap` reads it: a result, or a map that is none.
pub data Partial : Type 0 where
  decoded : RedactResult → Partial
  garbled : Partial

-- What the checkpoint recorder holds: the last step saved and its map.
abbrev pub Checkpoint : Type 0
Checkpoint = Option (ℕ × Partial)

pub data Outcome : Type 0 where
  done : RedactResult → Outcome
  bad_input policy_error bad_checkpoint save_error panic : Outcome

-- `r.Load`, called only for a tenant.
unfoldable pub policy_for : Option (Text → Loaded) → Text → Loaded
policy_for none tenant = missing
policy_for (some load) [] = missing
policy_for (some load) (c ∷ cs) = load (c ∷ cs)

abbrev pub outcome_of : Option RedactResult → Outcome
outcome_of none = panic
outcome_of (some r) = done r

-- The step behind the checkpoint.
unfoldable pub second_step : RedactResult → Outcome
unfolding apply_class_window
second_step r = outcome_of (apply_class_window r true)

abbrev pub start_result : Text → RedactResult
start_result text = record { redacted_text = text; counts = no_counts; policy_version = pos 0 }

-- The step before it. `save_ok` says whether `cp.Save` succeeds.
unfoldable pub save_first : Option RedactResult → Checkpoint → Bool → Outcome × Checkpoint
unfolding second_step
save_first none cp save_ok = (panic, cp)
save_first (some r) cp save_ok =
    if save_ok then (second_step r, some (1, decoded r)) else (save_error, cp)

unfoldable pub first_step : Text → Checkpoint → Bool → Outcome × Checkpoint
unfolding save_first
first_step text cp save_ok = save_first (apply_class_window (start_result text) false) cp save_ok

unfoldable pub resume : Partial → Outcome
unfolding second_step
resume (decoded r) = second_step r
resume garbled = bad_checkpoint

unfoldable pub run_steps : Text → Checkpoint → Bool → Outcome × Checkpoint
unfolding first_step resume
run_steps text (some (suc n, saved)) save_ok = (resume saved, some (suc n, saved))
run_steps text (some (zero, saved)) save_ok = first_step text (some (zero, saved)) save_ok
run_steps text none save_ok = first_step text none save_ok

-- `Runner.Run` on a text, behind the loader's answer.
unfoldable pub run_text : (Text → Text) → Loaded → Text → Checkpoint → Bool → Outcome × Checkpoint
unfolding run_steps
run_text sha256 load_error text cp save_ok = (policy_error, cp)
run_text sha256 (found doc) text cp save_ok = (outcome_of (apply_policy sha256 text doc), cp)
run_text sha256 missing text cp save_ok = run_steps text cp save_ok

unfoldable pub run_input :
    (Text → Text) → Loaded → Option Text → Checkpoint → Bool → Outcome × Checkpoint
unfolding run_text
run_input sha256 loaded none cp save_ok = (bad_input, cp)
run_input sha256 loaded (some text) cp save_ok = run_text sha256 loaded text cp save_ok

-- `Runner.Run`
unfoldable pub run :
    (Text → Text) → Option (Text → Loaded) → Input → Checkpoint → Bool → Outcome × Checkpoint
unfolding run_input policy_for
run sha256 load input cp save_ok =
    run_input sha256 (policy_for load input.tenant) input.text cp save_ok

first_step-again :
    (text : Text) (ok : Bool)
    → run_steps text (first_step text none true).1 ok ≡ first_step text none true
unfolding first_step run_steps
first_step-again text ok = elim (Option-cases (apply_class_window (start_result text) false)) [
  | inl e ↦ rw (e, save_first) (rw (e, save_first))
  | inr (r, e) ↦ rw (e, save_first)
]

run_input-again :
    (sha256 : Text → Text) (loaded : Loaded) (text : Option Text) (ok : Bool)
    → run_input sha256 loaded text (run_input sha256 loaded text none true).1 ok
      ≡ run_input sha256 loaded text none true
unfolding run_input
run_input-again sha256 loaded none ok = refl
run_input-again sha256 load_error (some text) ok = refl
run_input-again sha256 (found doc) (some text) ok = refl
run_input-again sha256 missing (some text) ok = first_step-again text ok

-- Whatever the input and the tenant's policy, a second run from the checkpoint that a first run left, the
-- first having saved what it wanted to, ends as the first did and leaves the same checkpoint, also if it
-- cannot save itself.
pub run_again :
    (sha256 : Text → Text) (load : Option (Text → Loaded)) (input : Input) (ok : Bool)
    → run sha256 load input (run sha256 load input none true).1 ok ≡ run sha256 load input none true
unfolding run run_input
run_again sha256 load input ok = run_input-again sha256 (policy_for load input.tenant) input.text ok

steps-redact_pii : (text : Text) → (run_steps text none true).0 ≡ outcome_of (redact_pii text)
unfolding run_steps redact_pii apply_class_window
steps-redact_pii text =
    elim (Option-cases (apply_spans text no_counts (scan text (step_kinds false)))) [
      | inl e ↦ rw (e, save_first) refl
      | inr (r, e) ↦ rw (e, save_first) refl
    ]

-- Where no policy is found for the tenant and the checkpoint can be saved, a run from the start on a text
-- ends with the result of `RedactPII`.
pub run-redact_pii :
    (sha256 : Text → Text) (text tenant : Text) (load : Option (Text → Loaded))
    → policy_for load tenant ≡ missing
    → (run sha256 load (record { text = some text; tenant = tenant }) none true).0
      ≡ outcome_of (redact_pii text)
unfolding run
run-redact_pii sha256 text tenant load e = rw e (steps-redact_pii text)
