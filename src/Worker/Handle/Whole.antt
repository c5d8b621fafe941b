-- ===== src/Worker/Handle/Whole.antt =====
-- `handle` and `dispatch` as a whole: nothing on record changes, no receipt does, no key is destroyed
-- without a receipt, and no job is lost.
use cold_harbour.Common.{
  ℕ, ◌≡◌, refl, sym, ◌∙◌, ap, subst, Bool, true, false, Option, none, some, Text, arith, inl, inr,
  update-cases, ◌==◌, if◌then◌else◌,
}
use cold_harbour.Policy.{ℤ}
use cold_harbour.Journal.{JobRow, running}
use cold_harbour.Worker.Stream.{is_blank}
use cold_harbour.Worker.Stores.{
  World, KeyRow, MemHash, Reply, Io, continue, call, give, fail, key_destroyed, bad_checkpoint,
  ◌>>=◌,
}
use cold_harbour.Worker.Stores.Runs.{call-Lawful, continue-Lawful, settle_call-world}
use cold_harbour.Worker.Stores.Grows.{Grows, stay-Grows, alike-Grows}
use cold_harbour.Worker.Purge.{
  CrashPoint, crash_never, crash_after_step1, crash_after_record, crash_after_key_destroy, purge,
}
use cold_harbour.Worker.Deps.{
  Deps, Claimed, Object, Run, output, broken, save, Runner, atoi, job_input,
}
use cold_harbour.Worker.Memory.{
  KeyState, no_key, destroyed_key, live, key_state, load_key, ensured_row, ensured, material_of,
  ensure_key, decoded, opened, read_step, read_hash, load_state, saved, save_state,
}
use cold_harbour.Worker.Handle.{
  publish, finish, load_row, crash_if_step1, after_step1, save_step, run_job, end_job, run_opened,
  run_keyed, run_with, handle_new, finish_recorded, finish_journaled, handle_unless, handle,
  apply_hooks,
}
use cold_harbour.Worker.Handle.Safe.{Safe, Apart-Safe, purge-Safe, finish-Safe}
use cold_harbour.Worker.Handle.Steps.{
  Fine, law, OnRecord-Fine, published, bury_job-Safe, complete-Safe,
}

-- `Ensure` destroys nothing.
ensured-Grows : (id : ℕ) (fresh : Text) (w : World) → Grows w (ensured id fresh w)
ensured-Grows id fresh w = record {
  kept = λ i r e. e;
  receipted = λ i k e dead. elim (update-cases w.keys id (some (ensured_row fresh (w.keys id))) i) [
    | inl other ↦ inl (sym other ∙ e)
    | inr (here, now) ↦
        inl (ap w.keys here ∙ ensured_row-destroyed (w.keys id) k (sym now ∙ e) dead)
  ];
}
  where
    ensured_row-destroyed :
        (o : Option KeyRow) (k : KeyRow)
        → some (ensured_row fresh o) ≡ some k
        → k.destroyed ≡ true
        → o ≡ some k
    ensured_row-destroyed none k e dead = ground arith
    ensured_row-destroyed (some row) k e dead = e

module _ (d : Deps) (c : Claimed) where
  -- Any step with an answer, in the relation for this entry.
  chain-Fine :
      {A B : Type 0} (x : Reply A × World) (f : A → Io B) (w : World)
      → Fine d c w x.1
      → ((a : A) (v : World) → Fine d c v (f a v).1)
      → Fine d c w (continue f x).1
  chain-Fine x f w g h = continue-Lawful (Fine d c) (law d c) x f w g (λ a v e. h a v)

  look-Fine : {A : Type 0} (answer : World → A) (w : World) → Fine d c w (call answer (λ w. w) w).1
  look-Fine answer w = call-Lawful (Fine d c) (law d c) answer (λ w. w) w ((law d c).stay w)

  stay : (w : World) → Fine d c w w
  stay w = (law d c).stay w

  if-Fine :
      {A : Type 0} (b : Bool) (m n : Io A) (w : World)
      → Fine d c w (m w).1
      → Fine d c w (n w).1
      → Fine d c w ((if b then m else n) w).1
  if-Fine true m n w g h = g
  if-Fine false m n w g h = h

  material_of-Fine : (row : KeyRow) (w : World) → Fine d c w (material_of row w).1
  unfolding material_of
  material_of-Fine row w =
      if-Fine row.destroyed (fail key_destroyed) (give row.material) w (stay w) (stay w)

  ensure_key-Fine : (id : ℕ) (w : World) → Fine d c w (ensure_key d id w).1
  unfolding ensure_key
  ensure_key-Fine id w =
      chain-Fine (call (λ w. ensured_row (d.new_key id) (w.keys id)) (ensured id (d.new_key id)) w)
        material_of w
        (call-Lawful (Fine d c) (law d c) _ (ensured id (d.new_key id)) w (
          Apart-Safe d c.job.id c.fields c.entry w _ (ensured-Grows id (d.new_key id) w) refl refl))
        (λ row v. material_of-Fine row v)

  decoded-Fine :
      (n : ℤ) (text : Text) (o : Option Object) (w : World) → Fine d c w (decoded n text o w).1
  decoded-Fine n text none w = stay w
  decoded-Fine n text (some o) w = stay w

  opened-Fine : (n : ℤ) (o : Option Text) (w : World) → Fine d c w (opened d n o w).1
  opened-Fine n none w = stay w
  opened-Fine n (some text) w = decoded-Fine n text (d.decode text) w

  read_step-Fine :
      (row : MemHash) (n : Option ℤ) (w : World) → Fine d c w (read_step d c.job.id row n w).1
  unfolding read_step
  read_step-Fine row none w = stay w
  read_step-Fine row (some n) w =
      if-Fine (is_blank row.partial_result) (fail bad_checkpoint) _ w (stay w) (
        chain-Fine (ensure_key d (d.signer.durable c.job.id) w) _ w
          (ensure_key-Fine (d.signer.durable c.job.id) w)
          (λ key v. opened-Fine n (d.unseal key row.partial_result) v))

  read_hash-Fine : (o : Option MemHash) (w : World) → Fine d c w (read_hash d c.job.id o w).1
  unfolding read_hash
  read_hash-Fine none w = stay w
  read_hash-Fine (some row) w =
      if-Fine (is_blank row.step) (give none) _ w (stay w) (read_step-Fine row (atoi row.step) w)

  load_state-Fine : (w : World) → Fine d c w (load_state d c.job.id w).1
  unfolding load_state
  load_state-Fine w =
      chain-Fine (call (λ w. w.checkpoints c.job.id) (λ w. w) w) (read_hash d c.job.id) w
        (look-Fine (λ w. w.checkpoints c.job.id) w) read_hash-Fine

  save_state-Fine :
      (step : ℕ) (partial : Text) (w : World) → Fine d c w (save_state d c.job.id step partial w).1
  unfolding save_state
  save_state-Fine step partial w =
      chain-Fine (ensure_key d (d.signer.durable c.job.id) w) _ w
        (ensure_key-Fine (d.signer.durable c.job.id) w)
        (λ key v. call-Lawful (Fine d c) (law d c) _ (saved c.job.id step (d.seal key partial)) v (
          Apart-Safe d c.job.id c.fields c.entry v _ (alike-Grows v v _ (stay-Grows v) refl refl)
            refl refl))

  crash_if_step1-Fine : (p : CrashPoint) (w : World) → Fine d c w (crash_if_step1 p w).1
  crash_if_step1-Fine crash_after_step1 w = stay w
  crash_if_step1-Fine crash_never w = stay w
  crash_if_step1-Fine crash_after_record w = stay w
  crash_if_step1-Fine crash_after_key_destroy w = stay w

  module _ (now : ℕ) where
    after_step1-Fine : (step : ℕ) (w : World) → Fine d c w (after_step1 d now c step w).1
    after_step1-Fine step w =
        if-Fine (step == 1) _ (give tt) w
          (chain-Fine (publish c.job.tenant_id c.job.id running w) _ w (published d c now w running)
            (λ _ v. crash_if_step1-Fine c.crash v))
          (stay w)

    run_job-Fine : (r : Run) (w : World) → Fine d c w (run_job d now c r w).1
    unfolding run_job save_step
    run_job-Fine (output body) w = stay w
    run_job-Fine broken w = stay w
    run_job-Fine (save step partial rest) w =
        chain-Fine (save_step d now c step partial w) _ w
          (chain-Fine (save_state d c.job.id step partial w) _ w (save_state-Fine step partial w)
            (λ _ v. after_step1-Fine step v))
          (λ _ v. run_job-Fine rest v)

    end_job-Fine :
        (job_type : Text) (o : Option Text) (w : World)
        → Fine d c w (end_job d now c job_type o w).1
    unfolding end_job
    end_job-Fine job_type none w = bury_job-Safe d c now job_type _ w
    end_job-Fine job_type (some body) w = complete-Safe d c now job_type body w

    run_opened-Fine :
        (state : Option (ℤ × Text)) (r : Runner) (o : Option Text) (w : World)
        → Fine d c w (run_opened d now c state r o w).1
    unfolding run_opened
    run_opened-Fine state r none w = bury_job-Safe d c now r.job_type _ w
    run_opened-Fine state r (some plain) w =
        let run = r.start (job_input d plain c.job.tenant_id) state in
        chain-Fine (run_job d now c run w) _ w (run_job-Fine run w) (end_job-Fine r.job_type)

    run_keyed-Fine :
        (state : Option (ℤ × Text)) (r : Runner) (k : KeyState) (w : World)
        → Fine d c w (run_keyed d now c state r k w).1
    unfolding run_keyed
    run_keyed-Fine state r no_key w = bury_job-Safe d c now r.job_type _ w
    run_keyed-Fine state r destroyed_key w = stay w
    run_keyed-Fine state r (live key) w = run_opened-Fine state r (d.unseal key c.job.input) w

    run_with-Fine :
        (state : Option (ℤ × Text)) (job_type : Text) (o : Option Runner) (w : World)
        → Fine d c w (run_with d now c state job_type o w).1
    unfolding run_with load_key
    run_with-Fine state job_type none w = bury_job-Safe d c now job_type _ w
    run_with-Fine state job_type (some r) w =
        chain-Fine (load_key (d.signer.durable c.job.id) w) _ w
          (look-Fine (λ w. key_state (w.keys (d.signer.durable c.job.id))) w)
          (run_keyed-Fine state r)

    handle_new-Fine : (w : World) → Fine d c w (handle_new d now c w).1
    unfolding handle_new
    handle_new-Fine w =
        chain-Fine (load_state d c.job.id w) _ w (load_state-Fine w)
          (λ state v. run_with-Fine state _ _ v)

    finish_recorded-Fine :
        (o : Option JobRow) (w : World)
        → w.journal.jobs (d.signer.durable c.job.id) ≡ o
        → Fine d c w (finish_recorded d now c o w).1
    unfolding finish_recorded
    finish_recorded-Fine none w there = stay w
    finish_recorded-Fine (some row) w there =
        continue-Lawful (Fine d c) (law d c)
          (purge d.signer c.job.id crash_never c.job.tenant_id now w) _ w
          (purge-Safe d c.job.id c.fields c.entry crash_never c.job.tenant_id now w)
          (λ _ v e.
            let purged =
              subst (λ t. Fine d c w t.1) e
                (purge-Safe d c.job.id c.fields c.entry crash_never c.job.tenant_id now w) in
            chain-Fine (finish c.entry v) _ v
              (finish-Safe d c.job.id c.fields c.entry v
                (OnRecord-Fine d c w v purged (row, there)))
              (λ _ u. stay u))

    finish_journaled-Fine : (w : World) → Fine d c w (finish_journaled d now c w).1
    unfolding finish_journaled load_row
    finish_journaled-Fine w =
        let id = d.signer.durable c.job.id in
        continue-Lawful (Fine d c) (law d c) (load_row id w) (finish_recorded d now c) w
          (look-Fine (λ w. w.journal.jobs id) w)
          (λ o v e.
            let (answer, (fs, world)) =
              settle_call-world (λ w. w.journal.jobs id) (λ w. w) w.faults w v o e in
            finish_recorded-Fine o v (ap (λ t. t.journal.jobs id) world ∙ sym answer))

    handle_unless-Fine : (done : Bool) (w : World) → Fine d c w (handle_unless d now c done w).1
    unfolding handle_unless
    handle_unless-Fine true w = stay w
    handle_unless-Fine false w = handle_new-Fine w

    claimed-Fine :
        (w : World) → Fine d c w ((finish_journaled d now c >>= handle_unless d now c) w).1
    claimed-Fine w =
        chain-Fine (finish_journaled d now c w) (handle_unless d now c) w (finish_journaled-Fine w)
          handle_unless-Fine

-- Whatever calls fail while the worker handles an entry, and whatever the job's runner does: no row and no
-- output of the journal changes, no receipt does, and no key is destroyed without a receipt; if the job
-- was on record or an entry of the stream had its fields before, then so it is after; and no other entry
-- of the stream goes, and no two entries get one identifier.
pub handle-Safe :
    (d : Deps) (c : Claimed) (now : ℕ) (w : World)
    → Safe d c.job.id c.fields c.entry w (handle d now c w).1
unfolding handle apply_hooks
handle-Safe d c now w = claimed-Fine d (apply_hooks d.hooks c) now w
