-- ===== src/Worker/Purge/Lawful.antt =====
-- Relations that a purge keeps because each of its effects does.
use cold_harbour.Common.{ℕ, Bool, true, false, Option, none, some, Text}
use cold_harbour.Ledger.{normalize_at}
use cold_harbour.Worker.Stores.{
  Receipt, World, destroyed, destroy, get_receipt, inserted, insert_receipt, dropped,
  delete_checkpoint,
}
use cold_harbour.Worker.Stores.Runs.{Lawful, call-Lawful, continue-Lawful}
use cold_harbour.Worker.Purge.{
  CrashPoint, crash_never, crash_after_step1, crash_after_record, crash_after_key_destroy, Signer,
  drop_checkpoint, destroy_then_drop, existing_time, receipt_time, new_receipt, purge_found, purge,
}

-- A relation that every effect of a purge meets is met by a purge.
module _ (R : World → World → Type 0) (law : Lawful R)
    (by_destroy : (id at : ℕ) (w : World) → R w (destroyed id at w))
    (by_insert : (r : Receipt) (w : World) → R w (inserted r w))
    (by_drop : (job : Text) (w : World) → R w (dropped job w)) where
  drop_checkpoint-Lawful :
      (job : Text) (crash : CrashPoint) (w : World) → R w (drop_checkpoint job crash w).1
  unfolding drop_checkpoint delete_checkpoint
  drop_checkpoint-Lawful job crash_after_key_destroy w = law.stay w
  drop_checkpoint-Lawful job crash_never w = call-Lawful R law _ (dropped job) w (by_drop job w)
  drop_checkpoint-Lawful job crash_after_step1 w =
      call-Lawful R law _ (dropped job) w (by_drop job w)
  drop_checkpoint-Lawful job crash_after_record w =
      call-Lawful R law _ (dropped job) w (by_drop job w)

  destroy_then_drop-Lawful :
      (id at : ℕ) (job : Text) (crash : CrashPoint) (w : World)
      → R w (destroy_then_drop id at job crash w).1
  unfolding destroy_then_drop destroy
  destroy_then_drop-Lawful id at job crash w =
      continue-Lawful R law (destroy id at w) _ w
        (call-Lawful R law _ (destroyed id at) w (by_destroy id at w))
        (λ a v e. drop_checkpoint-Lawful job crash v)

  get_receipt-Lawful : (id : ℕ) (w : World) → R w (get_receipt id w).1
  unfolding get_receipt
  get_receipt-Lawful id w = call-Lawful R law _ (λ w. w) w (law.stay w)

  existing_time-Lawful : (o : Option Receipt) (w : World) → R w (existing_time o w).1
  unfolding existing_time
  existing_time-Lawful none w = law.stay w
  existing_time-Lawful (some r) w = law.stay w

  receipt_time-Lawful : (r : Receipt) (is_new : Bool) (w : World) → R w (receipt_time r is_new w).1
  unfolding receipt_time
  receipt_time-Lawful r true w = law.stay w
  receipt_time-Lawful r false w =
      continue-Lawful R law (get_receipt r.job_id w) _ w (get_receipt-Lawful r.job_id w)
        (λ o v e. existing_time-Lawful o v)

  purge_found-Lawful :
      (s : Signer) (job : Text) (crash : CrashPoint) (tenant : Text) (now : ℕ) (o : Option Receipt)
      (w : World)
      → R w (purge_found s job crash tenant now o w).1
  unfolding purge_found insert_receipt
  purge_found-Lawful s job crash tenant now (some r) w =
      destroy_then_drop-Lawful (s.durable job) r.purged_at job crash w
  purge_found-Lawful s job crash tenant now none w =
      let r = new_receipt s job tenant (normalize_at now) in
      continue-Lawful R law (insert_receipt r w) _ w
        (call-Lawful R law _ (inserted r) w (by_insert r w))
        (λ is_new v e.
          continue-Lawful R law (receipt_time r is_new v) _ v (receipt_time-Lawful r is_new v)
            (λ at u e. destroy_then_drop-Lawful (s.durable job) at job crash u))

  pub purge-Lawful :
      (s : Signer) (job : Text) (crash : CrashPoint) (tenant : Text) (now : ℕ) (w : World)
      → R w (purge s job crash tenant now w).1
  unfolding purge
  purge-Lawful s job crash tenant now w =
      continue-Lawful R law (get_receipt (s.durable job) w) _ w
        (get_receipt-Lawful (s.durable job) w)
        (λ o v e. purge_found-Lawful s job crash tenant now o v)
