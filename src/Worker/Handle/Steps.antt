-- ===== src/Worker/Handle/Steps.antt =====
-- The steps of `handle` that write the journal and take the entry off the stream.
use cold_harbour.Common.{
  ℕ, ◌≡◌, refl, sym, ◌∙◌, ap, subst, Bool, true, false, Text, codes, Any, inl, inr, ◌⊎◌, ltb, not,
}
use cold_harbour.Journal.{
  JournalDb, JobResult, Recorded, committed, refused, record_result, completed, failed, JobState,
  terminal,
}
use cold_harbour.Journal.Consistent.{record_result-Keeps}
use cold_harbour.Worker.Retries.{settle, is_last_try, try_again, attempt}
use cold_harbour.Worker.Retries.Bounded.{attempt-is_last_try}
use cold_harbour.Worker.Retries.Orderly.{Orderly, settle-Orderly}
use cold_harbour.Worker.Stores.{World, Reply, value, Io, continue, call, failed}
use cold_harbour.Worker.Stores.Runs.{
  call-Lawful, continue-Lawful, settle_call-world, continue-value, Lawful,
}
use cold_harbour.Worker.Stores.Grows.{stay-Grows, alike-Grows}
use cold_harbour.Worker.Purge.{
  CrashPoint, crash_never, crash_after_step1, crash_after_record, crash_after_key_destroy,
}
use cold_harbour.Worker.Deps.{Deps, Claimed, hashes, or_default}
use cold_harbour.Worker.Handle.{
  publish, written, or_refused, record_job, settled, settle_entry, crash_if_recorded, commit_job,
  bury_job, fail_for_good, fail_job, complete, result_of, complete_as,
}
use cold_harbour.Worker.Handle.Safe.{
  Safe, Safe-Lawful, Journaled, Journaled-Safe, publish-Safe, purge-Safe, finish-Safe,
  record_job-Safe, remove-Any,
}

or_refused-value :
    (x : Recorded) (u v : World)
    → or_refused x u ≡ (value tt, v)
    → (db : JournalDb) × (x ≡ committed db) × (u ≡ v)
or_refused-value (committed db) u v e = (db, refl, cc)
or_refused-value (refused x) u v e = cc

module _ (d : Deps) (c : Claimed) where
  -- The relation for this entry.
  abbrev pub Fine : World → World → Type 0
  Fine = Safe d c.job.id c.fields c.entry

  abbrev pub law : Lawful Fine
  law = Safe-Lawful d c.job.id c.fields c.entry

  abbrev pub OnRecord : World → Type 0
  OnRecord = Journaled d c.job.id

  pub OnRecord-Fine : (v w : World) → Fine v w → OnRecord v → OnRecord w
  OnRecord-Fine v w s (row, there) = (row, s.keeps.jobs (d.signer.durable c.job.id) row there)

  -- One step after another, and the stores that a step leaves.
  pub then-Fine :
      {A : Type 0} (x : Reply A × World) (f : A → Io (Unit {0})) (w : World)
      → Fine w x.1
      → ((a : A) (v : World) → x ≡ (value a, v) → Fine w v → Fine v (f a v).1)
      → Fine w (continue f x).1
  then-Fine x f w g h =
      continue-Lawful Fine law x f w g (λ a v e. h a v e (subst (λ t. Fine w t.1) e g))

  record_job-value :
      (r : JobResult) (w v : World)
      → r.id ≡ c.job.id
      → record_job d r w ≡ (value tt, v)
      → OnRecord v
  unfolding record_job
  record_job-value r w v same e =
      let (x, u, called, rest) =
        continue-value
          (call (λ w. record_result (hashes d) w.journal r)
            (λ w. written (record_result (hashes d) w.journal r) w) w)
          or_refused tt v e in
      let (db, commits, stays) = or_refused-value x u v rest in
      let (answer, (fs, world)) =
        settle_call-world (λ w. record_result (hashes d) w.journal r)
          (λ w. written (record_result (hashes d) w.journal r) w) w.faults w u x called in
      let found = sym answer ∙ commits in
      let (_, (row, there)) = record_result-Keeps (hashes d) w.journal db r found in
      (
        row,
        ap (λ t. t.journal.jobs (d.signer.durable c.job.id)) (sym stays ∙ world)
            ∙ ap (λ t. (written t w).journal.jobs (d.signer.durable c.job.id)) found
            ∙ ap (λ t. db.jobs (d.signer.durable t)) (sym same)
            ∙ there,
      )

  crash_if_recorded-Safe : (p : CrashPoint) (w : World) → Fine w (crash_if_recorded p w).1
  crash_if_recorded-Safe crash_after_record w = law.stay w
  crash_if_recorded-Safe crash_never w = law.stay w
  crash_if_recorded-Safe crash_after_step1 w = law.stay w
  crash_if_recorded-Safe crash_after_key_destroy w = law.stay w

  module _ (now : ℕ) where
    pub published :
        (w : World) (status : JobState) → Fine w (publish c.job.tenant_id c.job.id status w).1
    published w status = publish-Safe d c.job.id c.fields c.entry c.job.tenant_id c.job.id status w

    commit_job-Safe : (r : JobResult) (w : World) → Fine w (commit_job d now c r w).1
    unfolding commit_job
    commit_job-Safe r w =
        then-Fine (record_job d r w) _ w (record_job-Safe d c.job.id c.fields c.entry r w)
          (λ _ v e g.
            then-Fine (crash_if_recorded c.crash v) _ v (crash_if_recorded-Safe c.crash v)
              (λ _ u f h. purge-Safe d c.job.id c.fields c.entry c.crash c.job.tenant_id now u))

    pub commit_job-value :
        (r : JobResult) (w v : World)
        → r.id ≡ c.job.id
        → commit_job d now c r w ≡ (value tt, v)
        → OnRecord v
    unfolding commit_job
    commit_job-value r w v same e =
        let (_, u, recording, rest) = continue-value (record_job d r w) _ tt v e in
        let (_, t, crashing, purging) = continue-value (crash_if_recorded c.crash u) _ tt v rest in
        let first = record_job-value r w u same recording in
        let second =
          OnRecord-Fine u t (subst (λ x. Fine u x.1) crashing (crash_if_recorded-Safe c.crash u))
            first in
        OnRecord-Fine t v
          (subst (λ x. Fine t x.1) purging
            (purge-Safe d c.job.id c.fields c.entry c.crash c.job.tenant_id now t))
          second

    settled-Orderly : (force : Bool) (w : World) → Orderly c.entry w.lanes (settled d c force w).1
    settled-Orderly force w =
        settle-Orderly w.lanes (d.fresh_id w.lanes c.entry) c.job.id c.entry force c.fields
          (d.fresh_differs w.lanes c.entry).1

    -- `settle`, of a job on record or not at its last try.
    settle_entry-Journaled :
        (force : Bool) (w : World) → OnRecord w → Fine w (settle_entry d c force w).1
    unfolding settle_entry
    settle_entry-Journaled force w j =
        call-Lawful Fine law _ (λ w. record w { lanes = (settled d c force w).1 }) w
          (Journaled-Safe d c.job.id c.fields c.entry w (settled d c force w).1 j
            (settled-Orderly force w))

    settled-retried :
        (w : World)
        → is_last_try (w.lanes.retries c.job.id) ≡ false
        → Any (λ e. e.fields ≡ c.fields) (settled d c false w).1.main
    unfolding settle try_again
    settled-retried w early =
        let small : ltb (attempt (w.lanes.retries c.job.id)) 3 ≡ true =
          attempt-is_last_try (w.lanes.retries c.job.id) ∙ ap not early in
        rw small
          (remove-Any c.fields c.entry w.lanes.main _ refl (d.fresh_differs w.lanes c.entry).0)

    settle_entry-retried :
        (w : World)
        → is_last_try (w.lanes.retries c.job.id) ≡ false
        → Fine w (settle_entry d c false w).1
    unfolding settle_entry
    settle_entry-retried w early =
        call-Lawful Fine law _ (λ w. record w { lanes = (settled d c false w).1 }) w
          (record {
            grows = alike-Grows w w _ (stay-Grows w) refl refl;
            keeps = record { jobs = λ id row e. e; outputs = λ j o e. e };
            held = λ h. inl (settled-retried w early);
            orderly = settled-Orderly false w;
          })

    pub bury_job-Safe :
        (job_type reason : Text) (w : World) → Fine w (bury_job d now c job_type reason w).1
    unfolding bury_job terminal
    bury_job-Safe job_type reason w =
        let r =
          result_of d c (or_default job_type (codes "redact")) (d.error_body reason) failed now in
        then-Fine (commit_job d now c r w) _ w (commit_job-Safe r w) (λ _ v e g.
          then-Fine (publish c.job.tenant_id c.job.id failed v) _ v (published v failed) (λ _ u f h.
            let j = OnRecord-Fine v u h (commit_job-value r w v refl e) in
            then-Fine (settle_entry d c true u) _ u (settle_entry-Journaled true u j)
              (λ _ t k m. law.stay t)))

    fail_for_good-Safe :
        (r : JobResult) (last : Bool) (w : World) → Fine w (fail_for_good d now c r last w).1
    unfolding fail_for_good
    fail_for_good-Safe r false w = law.stay w
    fail_for_good-Safe r true w =
        then-Fine (commit_job d now c r w) _ w (commit_job-Safe r w) (λ _ v e g. published v failed)

    -- Before its last try, nothing happens; at the last, the job is put on record.
    fail_for_good-value :
        (r : JobResult) (last : Bool) (w v : World)
        → r.id ≡ c.job.id
        → fail_for_good d now c r last w ≡ (value tt, v)
        → ((last ≡ false) × (w ≡ v)) ⊎ OnRecord v
    unfolding fail_for_good
    fail_for_good-value r false w v same e = inl (refl, cc)
    fail_for_good-value r true w v same e =
        let (_, u, committing, publishing) = continue-value (commit_job d now c r w) _ tt v e in
        inr (
          OnRecord-Fine u v (subst (λ t. Fine u t.1) publishing (published u failed))
            (commit_job-value r w u same committing))

    fail_job-Safe : (r : JobResult) (w : World) → r.id ≡ c.job.id → Fine w (fail_job d now c r w).1
    unfolding fail_job
    fail_job-Safe r w same =
        then-Fine (call (λ w. w.lanes.retries c.job.id) (λ w. w) w) _ w
          (call-Lawful Fine law _ (λ w. w) w (law.stay w))
          (λ tries v asked _.
            then-Fine (fail_for_good d now c r (is_last_try tries) v) _ v
              (fail_for_good-Safe r (is_last_try tries) v)
              (λ _ u e _.
                then-Fine (settle_entry d c false u) _ u
                  (elim (fail_for_good-value r (is_last_try tries) v u same e) [
                    | inr j ↦ settle_entry-Journaled false u j
                    | inl (early, stays) ↦
                        let (answer, (fs, world)) =
                          settle_call-world (λ w. w.lanes.retries c.job.id) (λ w. w) w.faults w v
                            tries asked in
                        let counter : u.lanes.retries c.job.id ≡ tries =
                          ap (λ t. t.lanes.retries c.job.id) (sym stays ∙ world) ∙ sym answer in
                        settle_entry-retried u (ap is_last_try counter ∙ early)
                  ])
                  (λ _ t k m. law.stay t)))

    complete_as-Safe :
        (job_type body : Text) (fails : Bool) (w : World)
        → Fine w (complete_as d now c job_type body fails w).1
    unfolding complete_as terminal
    complete_as-Safe job_type body true w =
        fail_job-Safe (result_of d c job_type body failed now) w refl
    complete_as-Safe job_type body false w =
        let r = result_of d c job_type body completed now in
        then-Fine (commit_job d now c r w) _ w (commit_job-Safe r w) (λ _ v e g.
          then-Fine (publish c.job.tenant_id c.job.id completed v) _ v (published v completed)
            (λ _ u f h.
              finish-Safe d c.job.id c.fields c.entry u
                (OnRecord-Fine v u h (commit_job-value r w v refl e))))

    pub complete-Safe :
        (job_type body : Text) (w : World) → Fine w (complete d now c job_type body w).1
    unfolding complete
    complete-Safe job_type body w = complete_as-Safe job_type body c.fail w
