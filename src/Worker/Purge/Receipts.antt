-- ===== src/Worker/Purge/Receipts.antt =====
-- What a purge does to the stores, whatever call fails in it.
use cold_harbour.Common.{
  ℕ, ◌≡◌, refl, some, Text, Option, Bool, true, sym, subst, ap, ◌∙◌, none, false,
}
use cold_harbour.Worker.Stores.{
  Receipt, World, destroyed, destroy, dropped, delete_checkpoint, value, is_none, keep_or,
}
use cold_harbour.Worker.Stores.Runs.{continue-value}
use cold_harbour.Worker.Stores.Grows.{
  Grows, stay-Grows, alike-Grows, settle_call-Grows, continue-Grows, destroyed-Grows,
  get_receipt-Grows, insert_receipt-value, get_receipt-value, insert_receipt-Grows,
}
use cold_harbour.Worker.Purge.{
  CrashPoint, crash_never, crash_after_step1, crash_after_record, crash_after_key_destroy,
  drop_checkpoint, destroy_then_drop, existing_time, receipt_time, purge_found, purge, get_receipt,
  insert_receipt, Signer, new_receipt, normalize_at,
}

drop_checkpoint-Grows :
    (job : Text) (crash : CrashPoint) (w : World) → Grows w (drop_checkpoint job crash w).1
unfolding drop_checkpoint delete_checkpoint
drop_checkpoint-Grows job crash_after_key_destroy w = stay-Grows w
drop_checkpoint-Grows job crash_never w =
    settle_call-Grows (λ w. tt) (dropped job) w.faults w
      (alike-Grows w w _ (stay-Grows w) refl refl)
drop_checkpoint-Grows job crash_after_step1 w =
    settle_call-Grows (λ w. tt) (dropped job) w.faults w
      (alike-Grows w w _ (stay-Grows w) refl refl)
drop_checkpoint-Grows job crash_after_record w =
    settle_call-Grows (λ w. tt) (dropped job) w.faults w
      (alike-Grows w w _ (stay-Grows w) refl refl)

destroy_then_drop-Grows :
    (id : ℕ) (r : Receipt) (job : Text) (crash : CrashPoint) (w : World)
    → w.receipts id ≡ some r
    → Grows w (destroy_then_drop id r.purged_at job crash w).1
unfolding destroy_then_drop destroy
destroy_then_drop-Grows id r job crash w there =
    continue-Grows (destroy id r.purged_at w) (λ _. drop_checkpoint job crash) w
      (settle_call-Grows (λ w. tt) (destroyed id r.purged_at) w.faults w
        (destroyed-Grows id r.purged_at r w there refl))
      (λ a w' e. drop_checkpoint-Grows job crash w')

existing_time-value :
    (o : Option Receipt) (v w : World) (at : ℕ)
    → existing_time o v ≡ (value at, w)
    → (r : Receipt) × (o ≡ some r) × (at ≡ r.purged_at) × (v ≡ w)
unfolding existing_time
existing_time-value none v w at e = cc
existing_time-value (some r) v w at e = (r, refl, cc, cc)

existing_time-Grows : (o : Option Receipt) (w : World) → Grows w (existing_time o w).1
unfolding existing_time
existing_time-Grows none w = stay-Grows w
existing_time-Grows (some r) w = stay-Grows w

receipt_time-Grows : (r : Receipt) (is_new : Bool) (w : World) → Grows w (receipt_time r is_new w).1
unfolding receipt_time
receipt_time-Grows r true w = stay-Grows w
receipt_time-Grows r false w =
    continue-Grows (get_receipt r.job_id w) existing_time w (get_receipt-Grows r.job_id w)
      (λ o v e. existing_time-Grows o v)

-- The time is that of the receipt that is kept, this one or an older one.
receipt_time-value :
    (r q : Receipt) (is_new : Bool) (v w : World) (at : ℕ)
    → receipt_time r is_new v ≡ (value at, w)
    → v.receipts r.job_id ≡ some q
    → (is_new ≡ true → q ≡ r)
    → (k : Receipt) × (w.receipts r.job_id ≡ some k) × (at ≡ k.purged_at)
unfolding receipt_time
receipt_time-value r q true v w at e there new =
    let same : w ≡ v = cc in
    let time : at ≡ r.purged_at = cc in
    (q, ap (λ t. t.receipts r.job_id) same ∙ there, time ∙ sym (ap (λ t. t.purged_at) (new refl)))
receipt_time-value r q false v w at e there new =
    let (o, u, asked, rest) = continue-value (get_receipt r.job_id v) existing_time at w e in
    let (k, found, time, same) = existing_time-value o u w at rest in
    (
      k,
      ap (λ t. t.receipts r.job_id) (sym same)
          ∙ sym (get_receipt-value v u r.job_id o asked)
          ∙ found,
      time,
    )

insert-new : (o : Option Receipt) (r : Receipt) → is_none o ≡ true → keep_or o r ≡ r
insert-new none r e = refl
insert-new (some q) r e = cc

-- What a purge knows when it comes to destroy the key.
pub before_destroy :
    (r : Receipt) (is_new : Bool) (w v u : World) (at : ℕ)
    → insert_receipt r w ≡ (value is_new, v)
    → receipt_time r is_new v ≡ (value at, u)
    → (k : Receipt) × (u.receipts r.job_id ≡ some k) × (at ≡ k.purged_at)
before_destroy r is_new w v u at e f =
    let (answer, there) = insert_receipt-value w v r is_new e in
    receipt_time-value r (keep_or (w.receipts r.job_id) r) is_new v u at f there
      (λ new. insert-new (w.receipts r.job_id) r (sym answer ∙ new))

purge_found-Grows :
    (s : Signer) (job : Text) (crash : CrashPoint) (tenant : Text) (now : ℕ) (o : Option Receipt)
    (w : World)
    → o ≡ w.receipts (s.durable job)
    → Grows w (purge_found s job crash tenant now o w).1
unfolding purge_found
purge_found-Grows s job crash tenant now (some r) w e =
    destroy_then_drop-Grows (s.durable job) r job crash w (sym e)
purge_found-Grows s job crash tenant now none w e =
    let r = new_receipt s job tenant (normalize_at now) in
    continue-Grows (insert_receipt r w) _ w (insert_receipt-Grows r w) (λ is_new v inserting.
      continue-Grows (receipt_time r is_new v) _ v (receipt_time-Grows r is_new v) (λ at u timing.
        let (k, there, time) = before_destroy r is_new w v u at inserting timing in
        subst (λ t. Grows u (destroy_then_drop (s.durable job) t job crash u).1) (sym time)
          (destroy_then_drop-Grows (s.durable job) k job crash u there)))

-- Whatever calls fail in a purge, and wherever it stops: every receipt stays as it is, and each key
-- that it destroys has a receipt, whose time is the time at which the key was destroyed.
pub purge-Grows :
    (s : Signer) (job : Text) (crash : CrashPoint) (tenant : Text) (now : ℕ) (w : World)
    → Grows w (purge s job crash tenant now w).1
unfolding purge
purge-Grows s job crash tenant now w =
    continue-Grows (get_receipt (s.durable job) w) _ w (get_receipt-Grows (s.durable job) w)
      (λ o v e.
        purge_found-Grows s job crash tenant now o v (get_receipt-value w v (s.durable job) o e))
