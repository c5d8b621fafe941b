-- ===== src/Sentinel/Handoff.antt =====
-- cmd/sentinel/handoff.go: a long line is sent to the control plane as a job, behind a circuit breaker;
-- a line that cannot be sent meets the fail policy.
--
-- One goroutine calls `handle` and waits for the reply, so that a call and the turn of `loop` that
-- answers it are one step; `room` tells whether the queue takes the item. A timer that `loop` sets fires
-- as a step of its own.
pub mod Breaker
pub mod Steps
use cold_harbour.Common.{
  ℕ, zero, suc, ◌+◌, ◌^◌, Bool, true, false, ◌&&◌, not, Option, none, some, List, [], ◌∷◌, ◌++◌,
  Text, codes, if◌then◌else◌, ◌==◌, leb, take,
}
use cold_harbour.Detect.Span.{Kind, email, phone_us, phone_in, ssn, aadhaar, pan}
use cold_harbour.Detect.Scan.{scan}
use cold_harbour.Detect.Apply.{Mode, redact, partial, tokenize, other, Counts, no_counts, apply}
use cold_harbour.Policy.{FailPolicy, closed, inline, open_lines}
use cold_harbour.Worker.Stream.{is_blank}

-- `maskKinds`
abbrev pub mask_kinds : List Kind
mask_kinds = email ∷ phone_us ∷ phone_in ∷ ssn ∷ aadhaar ∷ pan ∷ []

-- `maskResult`; a missing map of counts is empty.
pub record MaskResult : Type 0 where
  pub line : Text
  pub counts : Counts
  pub dropped : Bool
  pub held : Bool

-- `handoff`, with the number of requests sent and of timers that have not fired. A nil pointer behaves
-- as a `base_url` that is empty with `allow_fail_open` false.
pub record Handoff : Type 0 where
  pub base_url : Text
  pub api_key : Text
  pub allow_fail_open : Bool
  pub failures : ℕ
  pub is_open : Bool
  pub allow_probe : Bool
  pub fail_open_count : ℕ
  pub posts : ℕ
  pub timers : ℕ

pub record Response : Type 0 where
  pub status : ℕ
  pub body : Text

-- SHA-256, the control plane as what it answers to the n-th request, and the decoder of its answer: the
-- field `jobId`, empty if it is missing.
pub record Outside : Type 0 where
  pub sha256 : Text → Text
  pub request : ℕ → Text → Text → List (Text × Text) → Option Response
  pub job_id_of : Text → Option Text

-- `newHandoff`
abbrev pub new_handoff : Text → Text → Bool → Handoff
new_handoff base_url api_key allow_fail_open = record {
  base_url = base_url;
  api_key = api_key;
  allow_fail_open = allow_fail_open;
  failures = 0;
  is_open = false;
  allow_probe = false;
  fail_open_count = 0;
  posts = 0;
  timers = 0;
}

-- `handoffBreakerLimit`
abbrev pub breaker_limit : ℕ
breaker_limit = 5

abbrev pub or_redact : Mode → Mode
or_redact (other []) = redact
or_redact mode = mode

abbrev pub or_mask_kinds : List Kind → List Kind
or_mask_kinds [] = mask_kinds
or_mask_kinds (k ∷ ks) = k ∷ ks

abbrev pub dropped_line : MaskResult
dropped_line = record {
  line = codes "[DROPPED reason=handoff_unavailable]";
  counts = no_counts;
  dropped = true;
  held = false;
}

abbrev pub held_line : Text → MaskResult
held_line job = record {
  line = codes "[HELD job=" ++ (job ++ codes "]");
  counts = no_counts;
  dropped = false;
  held = true;
}

abbrev pub plain_line : Text → Counts → MaskResult
plain_line line counts = record { line = line; counts = counts; dropped = false; held = false }

abbrev pub read_id : Option Text → Option Text
read_id none = none
read_id (some []) = none
read_id (some (c ∷ cs)) = some (c ∷ cs)

-- A turn of `loop` while the breaker is open.
abbrev pub probed : Handoff → Option Text → Option Text × Handoff
probed h (some job) =
    (some job, record h { failures = 0; is_open = false; allow_probe = false; posts = suc h.posts })
probed h none = (none, record h { posts = suc h.posts; timers = suc h.timers })

abbrev pub failed_once : Handoff → Handoff
failed_once h = record h { failures = suc h.failures; posts = suc h.posts }

module _ (o : Outside) where
  -- `post`, on the answer to its request.
  abbrev pub answered : Option Response → Option Text
  answered none = none
  answered (some r) = if r.status == 200 then read_id (o.job_id_of (take (2 ^ 20) r.body)) else none

  -- `post`
  unfoldable pub post : Handoff → Text → Option Text
  post h line = answered (
      o.request h.posts (h.base_url ++ codes "/v1/jobs") h.api_key (
        (codes "input", line)
        ∷ (codes "jobType", codes "redact")
        ∷ (codes "source", codes "sentinel")
        ∷ []))

  -- `applyFailPolicy`
  unfoldable pub apply_fail_policy :
      Text → FailPolicy → List Kind → Mode → Handoff → MaskResult × Handoff
  apply_fail_policy line inline kinds mode h =
      let (text, counts) = apply o.sha256 line (scan line (or_mask_kinds kinds)) (or_redact mode) in
      (plain_line text counts, h)
  apply_fail_policy line open_lines kinds mode h =
      if h.allow_fail_open
      then (plain_line line no_counts, record h { fail_open_count = suc h.fail_open_count })
      else (dropped_line, h)
  apply_fail_policy line _ kinds mode h = (dropped_line, h)

  -- A turn of `loop` while it is closed: the loop on one item, with `fuel` turns at most.
  unfoldable pub retried : ℕ → Handoff → Text → Option Text → Option (Option Text × Handoff)
  unfolding post
  retried zero h line answer = none
  retried (suc fuel) h line (some job) =
      some (some job, record h { failures = 0; is_open = false; posts = suc h.posts })
  retried (suc fuel) h line none =
      let again = retried fuel (failed_once h) line (post (failed_once h) line) in
      if leb breaker_limit (suc h.failures)
      then some (none, record (failed_once h) { is_open = true; allow_probe = true })
      else again

  -- A turn of `loop`, for one item of the queue.
  unfoldable pub loop_item : Handoff → Text → Option (Option Text × Handoff)
  unfolding post retried
  loop_item h line =
      if h.is_open
      then some (probed h (post h line))
      else retried breaker_limit h line (post h line)

  unfoldable pub replied :
      Text
      → FailPolicy
      → List Kind
      → Mode
      → Option (Option Text × Handoff)
      → Option (MaskResult × Handoff)
  unfolding apply_fail_policy
  replied line fail_policy kinds mode none = none
  replied line fail_policy kinds mode (some (some job, h)) = some (held_line job, h)
  replied line fail_policy kinds mode (some (none, h)) =
      some (apply_fail_policy line fail_policy kinds mode h)

  -- `handle` behind its first two tests.
  unfoldable pub enqueue_line :
      Text → FailPolicy → List Kind → Mode → Handoff → Bool → Option (MaskResult × Handoff)
  unfolding apply_fail_policy loop_item replied
  enqueue_line line fail_policy kinds mode h true =
      replied line fail_policy kinds mode (loop_item h line)
  enqueue_line line fail_policy kinds mode h false = some (
      apply_fail_policy line fail_policy kinds mode
        (if h.is_open then record h { allow_probe = true } else h))

  -- `handle`; `none` if its loop runs out of fuel.
  unfoldable pub handle :
      Text → FailPolicy → List Kind → Mode → Handoff → Bool → Option (MaskResult × Handoff)
  unfolding enqueue_line apply_fail_policy
  handle line fail_policy kinds mode h room =
      if is_blank h.base_url
      then some (apply_fail_policy line fail_policy kinds mode h)
      else if h.is_open && not h.allow_probe
      then some (apply_fail_policy line fail_policy kinds mode h)
      else enqueue_line line fail_policy kinds mode
          (if h.is_open then record h { allow_probe = false } else h) room
