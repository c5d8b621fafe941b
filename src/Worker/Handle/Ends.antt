-- ===== src/Worker/Handle/Ends.antt =====
-- What `handle` has done when it returns without an error.
use cold_harbour.Common.{
  ℕ, ◌≡◌, refl, sym, ap, subst, ◌∙◌, Bool, true, false, Option, none, some, List, [], ◌∷◌, Text,
  codes, All, Bool-cases, inl, inr,
}
use cold_harbour.Policy.{ℤ}
use cold_harbour.Journal.{JobRow, JobResult, JobState, completed, failed, terminal}
use cold_harbour.Worker.Stream.{StreamId}
use cold_harbour.Worker.Retries.{Entry, Lanes, same_id, remove, settle, give_up}
use cold_harbour.Worker.Stores.{World, Fault, JobEvent, Failure, Reply, value, failed}
use cold_harbour.Worker.Stores.Runs.{continue-value, settle_call-world}
use cold_harbour.Worker.Purge.{crash_never, purge}
use cold_harbour.Worker.Purge.Done.{Purged, purge-Purged}
use cold_harbour.Worker.Deps.{Deps, Claimed, Runner, or_default, job_input}
use cold_harbour.Worker.Memory.{KeyState, no_key, destroyed_key, live, load_key, load_state}
use cold_harbour.Worker.Handle.{
  announced, publish, finished, finish, load_row, record_job, settled, settle_entry, apply_hooks,
  crash_if_recorded, result_of, commit_job, bury_job, complete_as, complete, run_job, end_job,
  run_opened, run_keyed, run_with, handle_new, finish_recorded, finish_journaled, handle_unless,
  handle,
}
use cold_harbour.Worker.Handle.Safe.{Journaled, Safe, purge-Safe}
use cold_harbour.Worker.Handle.Steps.{commit_job-value, OnRecord-Fine}

remove-gone : (id : StreamId) (es : List Entry) → All (λ e. same_id e.id id ≡ false) (remove id es)
unfolding remove
remove-gone id [] = tt
remove-gone id (e ∷ es) = elim (Bool-cases (same_id e.id id)) [
  | inl t ↦ rw t (remove-gone id es)
  | inr t ↦ rw t (t, remove-gone id es)
]

-- An error is no answer.
fail-value :
    {A : Type 0} {e : Failure} {a : A} {u v : World}
    → ◌≡◌ {A = Reply A × World} (failed e, u) (value a, v)
    → ⊥
fail-value e = cc

give-value :
    {A : Type 0} {a b : A} {u v : World}
    → ◌≡◌ {A = Reply A × World} (value a, u) (value b, v)
    → (a ≡ b) × (u ≡ v)
give-value e = (cc, cc)

false_is_true : {b : Bool} → false ≡ b → b ≡ true → ⊥
false_is_true e t = cc

module _ (d : Deps) (c : Claimed) where
  -- The job is on record, and purged.
  record Closed (w : World) : Type 0 where
    on_record : Journaled d c.job.id w
    purged : Purged d.signer c.job.id w

  -- And its entry is off the stream.
  pub record Done (w : World) : Type 0 where
    pub on_record : Journaled d c.job.id w
    pub purged : Purged d.signer c.job.id w
    pub gone : All (λ e. same_id e.id c.entry ≡ false) w.lanes.main

  -- The lanes, the events and the faults left are not what a closed job is about.
  elsewhere-Closed :
      (w : World) (fs : List Fault) (events : List JobEvent) (lanes : Lanes)
      → Closed w
      → Closed (record w { faults = fs; published = events; lanes = lanes })
  elsewhere-Closed w fs events lanes p = record {
    on_record = p.on_record;
    purged = record {
      receipt = p.purged.receipt;
      key = p.purged.key;
      checkpoint = p.purged.checkpoint;
    };
  }

  gone-Done :
      (w : World) (fs : List Fault) (lanes : Lanes)
      → All (λ e. same_id e.id c.entry ≡ false) lanes.main
      → Closed w
      → Done (record w { faults = fs; lanes = lanes })
  gone-Done w fs lanes gone p =
      let q = elsewhere-Closed w fs w.published lanes p in
      record { on_record = q.on_record; purged = q.purged; gone = gone }

  publish-Closed :
      (tenant id : Text) (status : JobState) (w v : World)
      → publish tenant id status w ≡ (value tt, v)
      → Closed w
      → Closed v
  unfolding publish announced
  publish-Closed [] id status w v e p = subst Closed (give-value e).1 p
  publish-Closed (a ∷ rest) id status w v e p =
      let event : JobEvent = record { tenant_id = a ∷ rest; job_id = id; status = status } in
      let (_, (fs, world)) = settle_call-world (λ w. tt) (announced event) w.faults w v tt e in
      subst Closed (sym world) (elsewhere-Closed w fs _ w.lanes p)

  finish-Done : (w v : World) → finish c.entry w ≡ (value tt, v) → Closed w → Done v
  unfolding finish finished
  finish-Done w v e p =
      let (_, (fs, world)) = settle_call-world (λ w. tt) (finished c.entry) w.faults w v tt e in
      subst Done (sym world) (gone-Done w fs _ (remove-gone c.entry w.lanes.main) p)

  settle_entry-Done :
      (w v : World) (a : _) → settle_entry d c true w ≡ (value a, v) → Closed w → Done v
  unfolding settle_entry settle give_up
  settle_entry-Done w v a e p =
      let (_, (fs, world)) =
        settle_call-world (λ w. (settled d c true w).0)
          (λ w. record w { lanes = (settled d c true w).1 }) w.faults w v a e in
      subst Done (sym world) (gone-Done w fs _ (remove-gone c.entry w.lanes.main) p)

  module _ (now : ℕ) where
    commit_job-Closed :
        (r : JobResult) (w v : World)
        → r.id ≡ c.job.id
        → commit_job d now c r w ≡ (value tt, v)
        → Closed v
    unfolding commit_job
    commit_job-Closed r w v same e =
        let (_, u, _, rest) = continue-value (record_job d r w) _ tt v e in
        let (_, t, _, purging) = continue-value (crash_if_recorded c.crash u) _ tt v rest in
        record {
          on_record = commit_job-value d c now r w v same e;
          purged = purge-Purged d.signer c.job.id c.crash c.job.tenant_id now t v purging;
        }

    bury_job-Done :
        (job_type reason : Text) (w v : World)
        → bury_job d now c job_type reason w ≡ (value tt, v)
        → Done v
    unfolding bury_job terminal
    bury_job-Done job_type reason w v e =
        let r =
          result_of d c (or_default job_type (codes "redact")) (d.error_body reason) failed now in
        let (_, u, committing, rest) = continue-value (commit_job d now c r w) _ tt v e in
        let (_, t, publishing, rest') =
          continue-value (publish c.job.tenant_id c.job.id failed u) _ tt v rest in
        let (a, s, settling, last) = continue-value (settle_entry d c true t) _ tt v rest' in
        subst Done (give-value last).1 (
          settle_entry-Done t s a settling (
            publish-Closed c.job.tenant_id c.job.id failed u t publishing
              (commit_job-Closed r w u refl committing)))

    complete-Done :
        (job_type body : Text) (w v : World)
        → c.fail ≡ false
        → complete d now c job_type body w ≡ (value tt, v)
        → Done v
    unfolding complete complete_as terminal
    complete-Done job_type body w v ends e =
        let r = result_of d c job_type body completed now in
        let e' = (rw (ends, complete) at e) in
        let (_, u, committing, rest) = continue-value (commit_job d now c r w) _ tt v e' in
        let (_, t, publishing, finishing) =
          continue-value (publish c.job.tenant_id c.job.id completed u) _ tt v rest in
        finish-Done t v finishing (
          publish-Closed c.job.tenant_id c.job.id completed u t publishing
            (commit_job-Closed r w u refl committing))

    end_job-Done :
        (job_type : Text) (o : Option Text) (w v : World)
        → c.fail ≡ false
        → end_job d now c job_type o w ≡ (value tt, v)
        → Done v
    unfolding end_job
    end_job-Done job_type none w v ends e = bury_job-Done job_type _ w v e
    end_job-Done job_type (some body) w v ends e = complete-Done job_type body w v ends e

    run_opened-Done :
        (state : Option (ℤ × Text)) (r : Runner) (o : Option Text) (w v : World)
        → c.fail ≡ false
        → run_opened d now c state r o w ≡ (value tt, v)
        → Done v
    unfolding run_opened
    run_opened-Done state r none w v ends e = bury_job-Done r.job_type _ w v e
    run_opened-Done state r (some plain) w v ends e =
        let run = r.start (job_input d plain c.job.tenant_id) state in
        let (o, u, _, rest) = continue-value (run_job d now c run w) _ tt v e in
        end_job-Done r.job_type o u v ends rest

    run_keyed-Done :
        (state : Option (ℤ × Text)) (r : Runner) (k : KeyState) (w v : World)
        → c.fail ≡ false
        → run_keyed d now c state r k w ≡ (value tt, v)
        → Done v
    unfolding run_keyed
    run_keyed-Done state r no_key w v ends e = bury_job-Done r.job_type _ w v e
    run_keyed-Done state r destroyed_key w v ends e = absurd (fail-value e)
    run_keyed-Done state r (live key) w v ends e =
        run_opened-Done state r (d.unseal key c.job.input) w v ends e

    run_with-Done :
        (state : Option (ℤ × Text)) (job_type : Text) (o : Option Runner) (w v : World)
        → c.fail ≡ false
        → run_with d now c state job_type o w ≡ (value tt, v)
        → Done v
    unfolding run_with
    run_with-Done state job_type none w v ends e = bury_job-Done job_type _ w v e
    run_with-Done state job_type (some r) w v ends e =
        let (k, u, _, rest) = continue-value (load_key (d.signer.durable c.job.id) w) _ tt v e in
        run_keyed-Done state r k u v ends rest

    finish_recorded-Done :
        (o : Option JobRow) (w v : World) (done : Bool)
        → w.journal.jobs (d.signer.durable c.job.id) ≡ o
        → finish_recorded d now c o w ≡ (value done, v)
        → done ≡ true
        → Done v
    unfolding finish_recorded
    finish_recorded-Done none w v done there e t = absurd (false_is_true (give-value e).0 t)
    finish_recorded-Done (some row) w v done there e t =
        let (_, u, purging, rest) =
          continue-value (purge d.signer c.job.id crash_never c.job.tenant_id now w) _ done v e in
        let (_, s, finishing, last) = continue-value (finish c.entry u) _ done v rest in
        let safe = purge-Safe d c.job.id c.fields c.entry crash_never c.job.tenant_id now w in
        let on_record : Journaled d c.job.id u =
          OnRecord-Fine d c w u (subst (λ x. Safe d c.job.id c.fields c.entry w x.1) purging safe)
            (row, there) in
        let purged = purge-Purged d.signer c.job.id crash_never c.job.tenant_id now w u purging in
        subst Done (give-value last).1
          (finish-Done u s finishing (record { on_record = on_record; purged = purged }))

    finish_journaled-Done : (w v : World) → finish_journaled d now c w ≡ (value true, v) → Done v
    unfolding finish_journaled load_row
    finish_journaled-Done w v e =
        let id = d.signer.durable c.job.id in
        let (o, u, loading, rest) = continue-value (load_row id w) _ true v e in
        let (answer, (fs, world)) =
          settle_call-world (λ w. w.journal.jobs id) (λ w. w) w.faults w u o loading in
        let there : u.journal.jobs id ≡ o = ap (λ t. t.journal.jobs id) world ∙ sym answer in
        finish_recorded-Done o u v true there rest refl

    handle_new-Done : (w v : World) → c.fail ≡ false → handle_new d now c w ≡ (value tt, v) → Done v
    unfolding handle_new
    handle_new-Done w v ends e =
        let (state, u, _, rest) = continue-value (load_state d c.job.id w) _ tt v e in
        run_with-Done state _ _ u v ends rest

    handle_unless-Done :
        (done : Bool) (w u v : World)
        → finish_journaled d now c w ≡ (value done, u)
        → c.fail ≡ false
        → handle_unless d now c done u ≡ (value tt, v)
        → Done v
    unfolding handle_unless
    handle_unless-Done true w u v found ends e =
        subst Done (give-value e).1 (finish_journaled-Done w u found)
    handle_unless-Done false w u v found ends e = handle_new-Done u v ends e

-- When no hook says that the job is to fail, and `handle` returns without an error, whatever calls were
-- lost on the way, the job is on record in the journal, its receipt is stored, its input key is destroyed
-- and its checkpoint is gone, and its entry is off the stream.
pub handle-Done :
    (d : Deps) (c : Claimed) (now : ℕ) (w : World)
    → (apply_hooks d.hooks c).fail ≡ false
    → (handle d now c w).0 ≡ value tt
    → Done d c (handle d now c w).1
unfolding handle apply_hooks
handle-Done d c now w ends e =
    let hooked = apply_hooks d.hooks c in
    let v = (handle d now c w).1 in
    let whole : handle d now c w ≡ (value tt, v) = ap (λ r. (r, v)) e in
    let (done, u, found, rest) =
      continue-value (finish_journaled d now hooked w) (handle_unless d now hooked) tt v whole in
    let p = handle_unless-Done d hooked now done w u v found ends rest in
    record { on_record = p.on_record; purged = p.purged; gone = p.gone }
