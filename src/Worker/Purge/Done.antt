-- ===== src/Worker/Purge/Done.antt =====
-- What a purge that returns without an error has done, and that one without a fault returns so.
use cold_harbour.Common.{
  ℕ, ◌≡◌, refl, sym, ◌∙◌, ap, subst, Bool, true, false, Option, none, some, List, [], ◌∷◌, Text,
  arith, update-same, text_eq_refl,
}
use cold_harbour.Worker.Stores.{
  KeyRow, Receipt, World, Reply, value, Io, continue, settle_call, destroy_row, destroyed, destroy,
  get_receipt, inserted, insert_receipt, dropped, delete_checkpoint, is_none, Fault,
}
use cold_harbour.Worker.Stores.Runs.{settle_call-value, continue-value}
use cold_harbour.Worker.Stores.Grows.{get_receipt-value, Grows, insert_receipt-value}
use cold_harbour.Worker.Purge.{
  CrashPoint, crash_never, crash_after_step1, crash_after_record, crash_after_key_destroy, Signer,
  drop_checkpoint, destroy_then_drop, existing_time, receipt_time, new_receipt, purge_found, purge,
}
use cold_harbour.Worker.Purge.Receipts.{before_destroy, purge-Grows}
use cold_harbour.Ledger.{normalize_at}

-- A key that is not there, or is there no more.
abbrev pub Gone : Option KeyRow → Type 0
Gone o = (k : KeyRow) → o ≡ some k → k.destroyed ≡ true

-- The purge of a job is done: it has a receipt, its key is gone, and so is its checkpoint.
pub record Purged (s : Signer) (job : Text) (w : World) : Type 0 where
  pub receipt : (r : Receipt) × (w.receipts (s.durable job) ≡ some r)
  pub key : Gone (w.keys (s.durable job))
  pub checkpoint : w.checkpoints job ≡ none

destroy_row-Gone : (at : ℕ) (o : Option KeyRow) → Gone (destroy_row at o)
destroy_row-Gone at none k e = cc
destroy_row-Gone at (some row) k e = ground arith

drop_checkpoint-value :
    (job : Text) (crash : CrashPoint) (w w' : World)
    → drop_checkpoint job crash w ≡ (value tt, w')
    → (w'.keys ≡ w.keys) × (w'.receipts ≡ w.receipts) × (w'.checkpoints job ≡ none)
unfolding drop_checkpoint delete_checkpoint
drop_checkpoint-value job crash_after_key_destroy w w' e = cc
drop_checkpoint-value job crash_never w w' e =
    let (_, keys, receipts, gone) = settle_call-value (λ w. tt) (dropped job) w.faults w w' tt e in
    (keys, receipts, ap (λ t. t job) gone ∙ rw (text_eq_refl job) refl)
drop_checkpoint-value job crash_after_step1 w w' e =
    let (_, keys, receipts, gone) = settle_call-value (λ w. tt) (dropped job) w.faults w w' tt e in
    (keys, receipts, ap (λ t. t job) gone ∙ rw (text_eq_refl job) refl)
drop_checkpoint-value job crash_after_record w w' e =
    let (_, keys, receipts, gone) = settle_call-value (λ w. tt) (dropped job) w.faults w w' tt e in
    (keys, receipts, ap (λ t. t job) gone ∙ rw (text_eq_refl job) refl)

destroy_then_drop-Purged :
    (s : Signer) (at : ℕ) (r : Receipt) (job : Text) (crash : CrashPoint) (w w' : World)
    → w.receipts (s.durable job) ≡ some r
    → destroy_then_drop (s.durable job) at job crash w ≡ (value tt, w')
    → Purged s job w'
unfolding destroy_then_drop destroy
destroy_then_drop-Purged s at r job crash w w' there e =
    let id = s.durable job in
    let (_, v, destroying, dropping) =
      continue-value (destroy id at w) (λ _. drop_checkpoint job crash) tt w' e in
    let (_, keys, receipts, _) =
      settle_call-value (λ w. tt) (destroyed id at) w.faults w v tt destroying in
    let (keys', receipts', gone) = drop_checkpoint-value job crash v w' dropping in
    record {
      receipt = (r, ap (λ t. t id) (receipts' ∙ receipts) ∙ there);
      key =
          subst Gone (sym (ap (λ t. t id) (keys' ∙ keys) ∙ update-same w.keys id _))
            (destroy_row-Gone at (w.keys id));
      checkpoint = gone;
    }

purge_found-Purged :
    (s : Signer) (job : Text) (crash : CrashPoint) (tenant : Text) (now : ℕ) (o : Option Receipt)
    (w w' : World)
    → o ≡ w.receipts (s.durable job)
    → purge_found s job crash tenant now o w ≡ (value tt, w')
    → Purged s job w'
unfolding purge_found
purge_found-Purged s job crash tenant now (some r) w w' o e =
    destroy_then_drop-Purged s r.purged_at r job crash w w' (sym o) e
purge_found-Purged s job crash tenant now none w w' o e =
    let r = new_receipt s job tenant (normalize_at now) in
    let (is_new, v, inserting, rest) = continue-value (insert_receipt r w) _ tt w' e in
    let (at, u, timing, last) = continue-value (receipt_time r is_new v) _ tt w' rest in
    let (k, there, _) = before_destroy r is_new w v u at inserting timing in
    destroy_then_drop-Purged s at k job crash u w' there last

-- A purge that returns without an error has kept a receipt of the job, destroyed its key, and dropped
-- its checkpoint.
pub purge-Purged :
    (s : Signer) (job : Text) (crash : CrashPoint) (tenant : Text) (now : ℕ) (w w' : World)
    → purge s job crash tenant now w ≡ (value tt, w')
    → Purged s job w'
unfolding purge
purge-Purged s job crash tenant now w w' e =
    let (o, v, getting, rest) = continue-value (get_receipt (s.durable job) w) _ tt w' e in
    purge_found-Purged s job crash tenant now o v w'
      (get_receipt-value w v (s.durable job) o getting) rest

-- A step that answers, and leaves no fault to come.
abbrev Answers {ℓ} : {A : Type ℓ} → Io A → World → Type ℓ
Answers {A = A} m w = (a : A) × (w' : World) × (m w ≡ (value a, w')) × (w'.faults ≡ [])

call-Answers :
    {A : Type 0} (answer : World → A) (effect : World → World) (fs : List Fault) (w : World)
    → fs ≡ []
    → (effect w).faults ≡ []
    → (a : A) × (w' : World) × (settle_call answer effect fs w ≡ (value a, w')) × (w'.faults ≡ [])
call-Answers answer effect [] w e f = (answer w, effect w, refl, f)
call-Answers answer effect (fault ∷ fs) w e f = cc

continue-Answers :
    {A B : Type 0} (x : Reply A × World) (f : A → Io B)
    → ((a : A) × (w' : World) × (x ≡ (value a, w')) × (w'.faults ≡ []))
    → ((a : A) (w' : World) → x ≡ (value a, w') → w'.faults ≡ [] → Answers (f a) w')
    → (b : B) × (w' : World) × (continue f x ≡ (value b, w')) × (w'.faults ≡ [])
continue-Answers x f (a, w', e, quiet) h =
    let (b, w'', rest, quiet') = h a w' e quiet in (b, w'', ap (continue f) e ∙ rest, quiet')

destroy_then_drop-Answers :
    (id at : ℕ) (job : Text) (w : World)
    → w.faults ≡ []
    → Answers (destroy_then_drop id at job crash_never) w
unfolding destroy_then_drop destroy drop_checkpoint delete_checkpoint
destroy_then_drop-Answers id at job w quiet =
    continue-Answers (destroy id at w) (λ _. delete_checkpoint job)
      (call-Answers (λ w. tt) (destroyed id at) w.faults w quiet quiet)
      (λ _ v e quiet'. call-Answers (λ w. tt) (dropped job) v.faults v quiet' quiet')

existing_time-Answers :
    (o : Option Receipt) (r : Receipt) (w : World)
    → o ≡ some r
    → w.faults ≡ []
    → Answers (existing_time o) w
unfolding existing_time
existing_time-Answers none r w e quiet = cc
existing_time-Answers (some q) r w e quiet = (q.purged_at, w, refl, quiet)

receipt_time-Answers :
    (r q : Receipt) (is_new : Bool) (w : World)
    → w.receipts r.job_id ≡ some q
    → w.faults ≡ []
    → Answers (receipt_time r is_new) w
unfolding receipt_time get_receipt
receipt_time-Answers r q true w there quiet = (r.purged_at, w, refl, quiet)
receipt_time-Answers r q false w there quiet =
    continue-Answers (get_receipt r.job_id w) existing_time
      (call-Answers (λ w. w.receipts r.job_id) (λ w. w) w.faults w quiet quiet)
      (λ o v e quiet'.
        let (same, _, receipts, _) =
          settle_call-value (λ w. w.receipts r.job_id) (λ w. w) w.faults w v o e in
        existing_time-Answers o q v (same ∙ there) quiet')

purge_found-Answers :
    (s : Signer) (job tenant : Text) (now : ℕ) (o : Option Receipt) (w : World)
    → w.faults ≡ []
    → Answers (purge_found s job crash_never tenant now o) w
unfolding purge_found insert_receipt
purge_found-Answers s job tenant now (some r) w quiet =
    destroy_then_drop-Answers (s.durable job) r.purged_at job w quiet
purge_found-Answers s job tenant now none w quiet =
    let r = new_receipt s job tenant (normalize_at now) in
    continue-Answers (insert_receipt r w) _
      (call-Answers (λ w. is_none (w.receipts r.job_id)) (inserted r) w.faults w quiet quiet)
      (λ is_new v inserting quiet'.
        let (_, there) = insert_receipt-value w v r is_new inserting in
        continue-Answers (receipt_time r is_new v) _
          (receipt_time-Answers r _ is_new v there quiet')
          (λ at u timing quiet''. destroy_then_drop-Answers (s.durable job) at job u quiet''))

purge-Answers :
    (s : Signer) (job tenant : Text) (now : ℕ) (w : World)
    → w.faults ≡ []
    → Answers (purge s job crash_never tenant now) w
unfolding purge get_receipt
purge-Answers s job tenant now w quiet =
    continue-Answers (get_receipt (s.durable job) w) _
      (call-Answers (λ w. w.receipts (s.durable job)) (λ w. w) w.faults w quiet quiet)
      (λ o v e quiet'. purge_found-Answers s job tenant now o v quiet')

-- A purge that stopped at any fault or crash is made good by the next one: from the stores as the first
-- left them, with no more faults, it returns without an error, the job then has a receipt, its key and
-- its checkpoint are gone, and a receipt that the first left is still the job's receipt.
pub purge_again :
    (s : Signer) (job tenant : Text) (crash : CrashPoint) (now later : ℕ) (w : World)
    → let left = record (purge s job crash tenant now w).1 { faults = [] } in
      (w' : World) × (purge s job crash_never tenant later left ≡ (value tt, w'))
      × Purged s job w'
      × ((r : Receipt)
          → left.receipts (s.durable job) ≡ some r
          → w'.receipts (s.durable job) ≡ some r)
purge_again s job tenant crash now later w =
    let left = record (purge s job crash tenant now w).1 { faults = [] } in
    let (_, w', done, _) = purge-Answers s job tenant later left refl in
    let grows =
      subst (λ x. Grows left x.1) done (purge-Grows s job crash_never tenant later left) in
    (w', done, purge-Purged s job crash_never tenant later left w' done, grows.kept (s.durable job))
