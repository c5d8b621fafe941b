-- ===== src/Worker/Handle.antt =====
-- internal/queue/group.go and dlq.go: what the worker does with one entry of the stream.
pub mod Safe
pub mod Steps
pub mod Whole
pub mod Ends
use cold_harbour.Common.{
  ℕ, Bool, true, false, Option, none, some, [], ◌∷◌, ◌++◌, Text, codes, if◌then◌else◌, ◌==◌,
}
use cold_harbour.Policy.{ℤ}
use cold_harbour.Journal.{
  JobState, running, completed, failed, JobResult, JobRow, Recorded, committed, refused,
  record_result, terminal,
}
use cold_harbour.Worker.Stream.{StreamId, parse_stream_id, stream_id_string}
use cold_harbour.Worker.Retries.{Fields, Lanes, Settled, remove, settle, is_last_try}
use cold_harbour.Worker.Stores.{
  World, JobEvent, Io, ◌>>=◌, give, fail, call, simulated_crash, key_destroyed, bad_entry,
  journal_refused, destroy,
}
use cold_harbour.Worker.Purge.{
  CrashPoint, crash_never, crash_after_step1, crash_after_record, crash_after_key_destroy, purge,
}
use cold_harbour.Worker.Deps.{
  Deps, Hooks, Run, output, broken, save, Runner, Job, Claimed, hashes, field, or_default,
  ParsedJob, job_of, missing_input, missing_tenant, parse_job, job_input,
}
use cold_harbour.Worker.Memory.{
  KeyState, no_key, destroyed_key, live, load_key, load_state, save_state,
}

-- `events.Publish`; without a tenant it does nothing.
abbrev pub announced : JobEvent → World → World
announced e w = record w { published = w.published ++ e ∷ [] }

unfoldable pub publish : Text → Text → JobState → Io (Unit {0})
publish [] job status = give tt
publish (c ∷ cs) job status =
    call (λ w. tt) (announced (record { tenant_id = c ∷ cs; job_id = job; status = status }))

-- `XACK` and `XDEL` of an entry, in one transaction.
abbrev pub finished : StreamId → World → World
finished entry w = record w { lanes = record (w.lanes) { main = remove entry w.lanes.main } }

unfoldable pub finish : StreamId → Io (Unit {0})
finish entry = call (λ w. tt) (finished entry)

-- `Journal.Load`
unfoldable pub load_row : ℕ → Io (Option JobRow)
load_row id = call (λ w. w.journal.jobs id) (λ w. w)

-- `Journal.Record`
abbrev pub written : Recorded → World → World
written (committed db) w = record w { journal = db }
written (refused e) w = w

abbrev pub or_refused : Recorded → Io (Unit {0})
or_refused (committed db) = give tt
or_refused (refused e) = fail (journal_refused e)

unfoldable pub record_job : Deps → JobResult → Io (Unit {0})
record_job d r =
    call (λ w. record_result (hashes d) w.journal r)
      (λ w. written (record_result (hashes d) w.journal r) w)
    >>= or_refused

-- `settle` runs its script on Redis.
abbrev pub settled : Deps → Claimed → Bool → World → (Settled × ℕ) × Lanes
settled d c force w = settle w.lanes (d.fresh_id w.lanes c.entry) c.job.id c.entry force c.fields

unfoldable pub settle_entry : Deps → Claimed → Bool → Io (Settled × ℕ)
settle_entry d c force =
    call (λ w. (settled d c force w).0) (λ w. record w { lanes = (settled d c force w).1 })

-- `applyHooks`: the first hook that says so sets the crash point.
unfoldable pub apply_hooks : Hooks → Claimed → Claimed
apply_hooks h c = record c {
  crash =
      (if h.crash_after_step1 c.job.id
        then crash_after_step1
        else if h.crash_after_record c.job.id
        then crash_after_record
        else if h.crash_after_key_destroy c.job.id
        then crash_after_key_destroy
        else c.crash);
  fail = (if h.fail c.job.id then true else c.fail);
}

abbrev pub crash_if_recorded : CrashPoint → Io (Unit {0})
crash_if_recorded crash_after_record = fail simulated_crash
crash_if_recorded _ = give tt

abbrev pub crash_if_step1 : CrashPoint → Io (Unit {0})
crash_if_step1 crash_after_step1 = fail simulated_crash
crash_if_step1 _ = give tt

-- `Succeed` or `Fail`, with the tenant, the type and the signature.
abbrev pub result_of : Deps → Claimed → Text → Text → JobState → ℕ → JobResult
result_of d c job_type body state now = record (terminal c.job.id body state now) {
  tenant_id = c.job.tenant_id;
  job_type = job_type;
  signature = d.sign_output c.job.id c.job.tenant_id body;
  signing_key_id = d.signer.key_id;
}

module _ (d : Deps) (now : ℕ) where
  -- `commitJob`
  unfoldable pub commit_job : Claimed → JobResult → Io (Unit {0})
  commit_job c r = do
    _ ← record_job d r
    _ ← crash_if_recorded c.crash
    purge d.signer c.job.id c.crash c.job.tenant_id now

  -- `deadLetters.bury`
  unfoldable pub bury_job : Claimed → Text → Text → Io (Unit {0})
  unfolding commit_job
  bury_job c job_type reason = do
    _ ←
        commit_job c
          (result_of d c (or_default job_type (codes "redact")) (d.error_body reason) failed now)
    _ ← publish c.job.tenant_id c.job.id failed
    _ ← settle_entry d c true
    give tt

  -- The part of `fail` before it settles the entry.
  unfoldable pub fail_for_good : Claimed → JobResult → Bool → Io (Unit {0})
  unfolding commit_job
  fail_for_good c r false = give tt
  fail_for_good c r true = do _ ← commit_job c r; publish c.job.tenant_id c.job.id failed

  -- `deadLetters.fail`
  unfoldable pub fail_job : Claimed → JobResult → Io (Unit {0})
  unfolding fail_for_good
  fail_job c r = do
    tries ← call (λ w. w.lanes.retries c.job.id) (λ w. w)
    _ ← fail_for_good c r (is_last_try tries)
    _ ← settle_entry d c false
    give tt

  -- The end of `handle`, by `c.fail`: the output is recorded, the job purged, and the entry taken off the
  -- stream.
  unfoldable pub complete_as : Claimed → Text → Text → Bool → Io (Unit {0})
  unfolding commit_job fail_job
  complete_as c job_type body true = fail_job c (result_of d c job_type body failed now)
  complete_as c job_type body false = do
    _ ← commit_job c (result_of d c job_type body completed now)
    _ ← publish c.job.tenant_id c.job.id completed
    finish c.entry

  unfoldable pub complete : Claimed → Text → Text → Io (Unit {0})
  unfolding complete_as
  complete c job_type body = complete_as c job_type body c.fail

  -- The checkpoint recorder's `Save`: only the first step is announced, and may crash.
  abbrev pub after_step1 : Claimed → ℕ → Io (Unit {0})
  after_step1 c step =
      if step == 1
      then (do _ ← publish c.job.tenant_id c.job.id running; crash_if_step1 c.crash)
      else give tt

  unfoldable pub save_step : Claimed → ℕ → Text → Io (Unit {0})
  save_step c step partial = do _ ← save_state d c.job.id step partial; after_step1 c step

  -- `jr.Run`: its output, or `none` for an error of its own.
  unfoldable pub run_job : Claimed → Run → Io (Option Text)
  unfolding save_step
  run_job c (output body) = give (some body)
  run_job c broken = give none
  run_job c (save step partial rest) = do _ ← save_step c step partial; run_job c rest

  unfoldable pub end_job : Claimed → Text → Option Text → Io (Unit {0})
  unfolding bury_job complete
  end_job c job_type none = bury_job c job_type (codes "runner failed")
  end_job c job_type (some body) = complete c job_type body

  unfoldable pub run_opened : Claimed → Option (ℤ × Text) → Runner → Option Text → Io (Unit {0})
  unfolding bury_job end_job
  run_opened c state runner none = bury_job c runner.job_type (codes "input is not sealed")
  run_opened c state runner (some plain) =
      run_job c (runner.start (job_input d plain c.job.tenant_id) state)
      >>= end_job c runner.job_type

  -- `openJobInput`, and what follows.
  unfoldable pub run_keyed : Claimed → Option (ℤ × Text) → Runner → KeyState → Io (Unit {0})
  unfolding run_opened
  run_keyed c state runner no_key = bury_job c runner.job_type (codes "input key missing")
  run_keyed c state runner destroyed_key = fail key_destroyed
  run_keyed c state runner (live key) = run_opened c state runner (d.unseal key c.job.input)

  unfoldable pub run_with : Claimed → Option (ℤ × Text) → Text → Option Runner → Io (Unit {0})
  unfolding run_keyed
  run_with c state job_type none = bury_job c job_type (codes "unknown job_type")
  run_with c state job_type (some runner) =
      load_key (d.signer.durable c.job.id) >>= run_keyed c state runner

  unfoldable pub handle_new : Claimed → Io (Unit {0})
  unfolding run_with
  handle_new c = do
    state ← load_state d c.job.id
    let job_type = or_default (field (codes "job_type") c.fields) (codes "redact")
    run_with c state job_type (d.registry job_type)

  -- `finishJournaled`: is the job on record already?
  unfoldable pub finish_recorded : Claimed → Option JobRow → Io Bool
  finish_recorded c none = give false
  finish_recorded c (some row) = do
    _ ← purge d.signer c.job.id crash_never c.job.tenant_id now
    _ ← finish c.entry
    give true

  unfoldable pub finish_journaled : Claimed → Io Bool
  unfolding finish_recorded
  finish_journaled c = load_row (d.signer.durable c.job.id) >>= finish_recorded c

  unfoldable pub handle_unless : Claimed → Bool → Io (Unit {0})
  unfolding handle_new
  handle_unless c true = give tt
  handle_unless c false = handle_new c

  -- `handle`
  unfoldable pub handle : Claimed → Io (Unit {0})
  unfolding finish_journaled handle_unless
  handle c = let hooked = apply_hooks d.hooks c in finish_journaled hooked >>= handle_unless hooked

  abbrev pub claimed : StreamId → Job → Fields → Claimed
  claimed entry job fields = record {
    entry = entry;
    job = job;
    crash = crash_never;
    fail = false;
    fields = fields;
  }

  -- `deadLetterMissingTenant`
  unfoldable pub dead_letter : StreamId → Fields → Io (Unit {0})
  dead_letter entry fields =
      let job = or_default (field (codes "id") fields) (stream_id_string entry) in
      do
        _ ← destroy (d.signer.durable job) now
        _ ←
            settle_entry d (claimed entry (record { id = job; input = []; tenant_id = [] }) fields)
              true
        give tt

  unfoldable pub dispatch_parsed : StreamId → Fields → ParsedJob → Io (Unit {0})
  unfolding handle dead_letter
  dispatch_parsed entry fields missing_input = finish entry
  dispatch_parsed entry fields missing_tenant = dead_letter entry fields
  dispatch_parsed entry fields (job_of job) = handle (claimed entry job fields)

  -- `dispatch`, on a message with its identifier as a text.
  unfoldable pub dispatch_id : Option StreamId → Fields → Io (Unit {0})
  unfolding dispatch_parsed
  dispatch_id none fields = fail bad_entry
  dispatch_id (some entry) fields = dispatch_parsed entry fields (parse_job entry fields)

  unfoldable pub dispatch : Text → Fields → Io (Unit {0})
  unfolding dispatch_id
  dispatch id fields = dispatch_id (parse_stream_id id) fields
