-- ===== src/Worker/Stores.antt =====
-- The stores that the worker keeps outside itself, and what a call on one may do. The key and receipt
-- stores are those of internal/seal/keys.go and internal/seal/receipts.go.
pub mod Runs
pub mod Grows
use cold_harbour.Common.{
  ℕ, Bool, true, false, Option, none, some, List, [], ◌∷◌, Text, if◌then◌else◌, update, update_text,
}
use cold_harbour.Ledger.{zeros}
use cold_harbour.Journal.{JournalDb, JobState, JournalError}
use cold_harbour.Worker.Retries.{Lanes}

-- `memoryKeyRow`
pub record KeyRow : Type 0 where
  pub material : Text
  pub destroyed : Bool
  pub destroyed_at : ℕ

-- `seal.Receipt`; a durable identifier is a number, a time counts nanoseconds.
pub record Receipt : Type 0 where
  pub job_id : ℕ
  pub redis_job_id : Text
  pub purged_at : ℕ
  pub signature : Text
  pub signing_key_id : Text
  pub tenant_id : Text

-- How a call ends: as it should; without an effect and with an error; with its effect, its reply lost.
pub data Fault : Type 0 where
  fine lost no_reply : Fault

-- The hash of a job's checkpoint: the fields `step`, `partial_result` and `step1`.
pub record MemHash : Type 0 where
  pub step : Text
  pub partial_result : Text
  pub step1 : ℕ

-- `JobEvent`
pub record JobEvent : Type 0 where
  pub tenant_id : Text
  pub job_id : Text
  pub status : JobState

-- The key rows and the receipts by durable identifier, the checkpoints by the job's identifier, the
-- journal, the stream with its counters and dead letters, the events published, and how the calls to
-- come end; when the list is used up, they end well.
pub record World : Type 0 where
  pub keys : ℕ → Option KeyRow
  pub receipts : ℕ → Option Receipt
  pub checkpoints : Text → Option MemHash
  pub journal : JournalDb
  pub lanes : Lanes
  pub published : List JobEvent
  pub faults : List Fault

pub data Failure : Type 0 where
  store_down missing_receipt simulated_crash key_destroyed bad_checkpoint bad_entry no_job_id :
      Failure
  journal_refused : JournalError → Failure

pub data Reply {ℓ} (A : Type ℓ) : Type ℓ where
  value : A → Reply A
  failed : Failure → Reply A

-- A piece of the worker: it may fail, and what it did before stays done.
abbrev pub Io {ℓ} : Type ℓ → Type ℓ
Io A = World → Reply A × World

module _ {ℓ κ} {A : Type ℓ} {B : Type κ} where
  abbrev pub continue : (A → Io B) → Reply A × World → Reply B × World
  continue f (value a, w) = f a w
  continue f (failed e, w) = (failed e, w)

  infixl 5 ◌>>=◌
  abbrev pub ◌>>=◌ : Io A → (A → Io B) → Io B
  m >>= f = λ w. continue f (m w)

abbrev pub give {ℓ} : {A : Type ℓ} → A → Io A
give a = λ w. (value a, w)

abbrev pub fail {ℓ} : {A : Type ℓ} → Failure → Io A
fail e = λ w. (failed e, w)

-- One call: its effect on the world, and its answer.
abbrev pub settle_call {ℓ} : {A : Type ℓ} → (World → A) → (World → World) → List Fault → Io A
settle_call answer effect [] w = (value (answer w), effect w)
settle_call answer effect (fine ∷ rest) w = (value (answer w), record (effect w) { faults = rest })
settle_call answer effect (lost ∷ rest) w = (failed store_down, record w { faults = rest })
settle_call answer effect (no_reply ∷ rest) w =
    (failed store_down, record (effect w) { faults = rest })

abbrev pub call {ℓ} : {A : Type ℓ} → (World → A) → (World → World) → Io A
call answer effect w = settle_call answer effect w.faults w

-- `KeyStore.Destroy`
abbrev pub destroy_row : ℕ → Option KeyRow → Option KeyRow
destroy_row at none = none
destroy_row at (some row) =
    if row.destroyed
    then some row
    else some (record { material = zeros; destroyed = true; destroyed_at = at })

abbrev pub destroyed : ℕ → ℕ → World → World
destroyed id at w = record w { keys = update w.keys id (destroy_row at (w.keys id)) }

unfoldable pub destroy : ℕ → ℕ → Io (Unit {0})
destroy id at = call (λ w. tt) (destroyed id at)

-- `ReceiptStore.Get`
unfoldable pub get_receipt : ℕ → Io (Option Receipt)
get_receipt id = call (λ w. w.receipts id) (λ w. w)

-- `ReceiptStore.Insert`
abbrev pub is_none {ℓ} : {A : Type ℓ} → Option A → Bool
is_none none = true
is_none (some a) = false

abbrev pub keep_or {ℓ} : {A : Type ℓ} → Option A → A → A
keep_or none a = a
keep_or (some b) a = b

abbrev pub inserted : Receipt → World → World
inserted r w = record w {
  receipts = update w.receipts r.job_id (some (keep_or (w.receipts r.job_id) r));
}

unfoldable pub insert_receipt : Receipt → Io Bool
insert_receipt r = call (λ w. is_none (w.receipts r.job_id)) (inserted r)

-- `DEL` of a job's checkpoint.
abbrev pub dropped : Text → World → World
dropped job w = record w { checkpoints = update_text w.checkpoints job none }

unfoldable pub delete_checkpoint : Text → Io (Unit {0})
delete_checkpoint job = call (λ w. tt) (dropped job)
