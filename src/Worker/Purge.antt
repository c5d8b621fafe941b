-- ===== src/Worker/Purge.antt =====
-- internal/queue/purge.go: when a job has ended, its key is destroyed and a signed receipt of it kept.
pub mod Lawful
pub mod Receipts
pub mod Done
use cold_harbour.Common.{ℕ, ◌-◌, ◌%◌, Bool, true, false, Option, none, some, Text, if◌then◌else◌}
use cold_harbour.Ledger.{normalize_at}
use cold_harbour.Worker.Stores.{
  Receipt, Io, ◌>>=◌, give, fail, missing_receipt, simulated_crash, destroy, get_receipt,
  insert_receipt, delete_checkpoint,
}

-- Where a test makes the worker stop.
pub data CrashPoint : Type 0 where
  crash_never crash_after_step1 crash_after_record crash_after_key_destroy : CrashPoint

-- What the purger takes from elsewhere: the durable identifier of a job (a UUID made with SHA-1), the
-- Ed25519 signature of a job and a time, and the identifier of the signing key.
pub record Signer : Type 0 where
  pub durable : Text → ℕ
  pub sign : Text → ℕ → Text
  pub key_id : Text

unfoldable pub drop_checkpoint : Text → CrashPoint → Io (Unit {0})
drop_checkpoint job crash_after_key_destroy = fail simulated_crash
drop_checkpoint job _ = delete_checkpoint job

-- `KeyStore.Destroy`, and the checkpoint after it.
unfoldable pub destroy_then_drop : ℕ → ℕ → Text → CrashPoint → Io (Unit {0})
unfolding drop_checkpoint
destroy_then_drop id at job crash = do _ ← destroy id at; drop_checkpoint job crash

-- The time of the receipt that was there first.
unfoldable pub existing_time : Option Receipt → Io ℕ
existing_time none = fail missing_receipt
existing_time (some r) = give r.purged_at

unfoldable pub receipt_time : Receipt → Bool → Io ℕ
unfolding existing_time
receipt_time r true = give r.purged_at
receipt_time r false = get_receipt r.job_id >>= existing_time

abbrev pub new_receipt : Signer → Text → Text → ℕ → Receipt
new_receipt s job tenant at = record {
  job_id = s.durable job;
  redis_job_id = job;
  purged_at = at;
  signature = s.sign job at;
  signing_key_id = s.key_id;
  tenant_id = tenant;
}

-- The part behind the first look for a receipt; `now` is the clock.
unfoldable pub purge_found : Signer → Text → CrashPoint → Text → ℕ → Option Receipt → Io (Unit {0})
unfolding destroy_then_drop receipt_time
purge_found s job crash tenant now (some r) =
    destroy_then_drop (s.durable job) r.purged_at job crash
purge_found s job crash tenant now none =
    let r = new_receipt s job tenant (normalize_at now) in
    do
      is_new ← insert_receipt r
      at ← receipt_time r is_new
      destroy_then_drop (s.durable job) at job crash

-- `purger.run`
unfoldable pub purge : Signer → Text → CrashPoint → Text → ℕ → Io (Unit {0})
unfolding purge_found
purge s job crash tenant now = get_receipt (s.durable job) >>= purge_found s job crash tenant now
