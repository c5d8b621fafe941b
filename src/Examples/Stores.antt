-- ===== src/Examples/Stores.antt =====
-- Runs of the models of the journal and of the purge on concrete inputs.
use cold_harbour.Journal.Repeated.{record_result_again}
use cold_harbour.Worker.Retries.Bounded.{NoInput, settle-NoInput, settle-is_last_try, settle_three}
use cold_harbour.Worker.Retries.{Fields, Lanes, retry, bury, settle, is_last_try, remove}
use cold_harbour.Worker.Stream.{StreamId, parse_stream_id, stream_id_string}
use cold_harbour.Common.{
  ◌-◌, ◌%◌, ◌&&◌, text_eq, subst, if◌then◌else◌, ◌≡◌, refl, false, none, some, [], ◌∷◌, codes,
  length, All, ◌↔◌, true, Text,
}
use cold_harbour.Journal.{
  JobResult, JournalDb, Hashes, refused, record_result, terminal, completed, failed,
  journal_conflict, bad_columns, column_row, row_of, columns_take, references_hold, with_row,
  StoredJob, parse_terminal, committed,
}
use cold_harbour.Journal.Consistent.{IsConsistent, Filed, record_result-Filed}
use cold_harbour.Journal.Memory.{new_memory_journal, memory_record}
use cold_harbour.Journal.Memory.Refines.{Refines, Agrees, memory_record-Agrees}
use cold_harbour.Worker.Stores.{
  KeyRow, Receipt, World, value, failed, store_down, fine, no_reply, get_receipt, insert_receipt,
}
use cold_harbour.Worker.Stores.Grows.{Grows}
use cold_harbour.Worker.Purge.{Signer, purge, crash_never, crash_after_key_destroy}
use cold_harbour.Worker.Purge.Receipts.{purge-Grows}
use cold_harbour.Worker.Purge.Done.{Purged, purge_again}

-- A tenant, by its UUID.
abbrev tenant : Text
tenant = codes "5f0c3c2a-7c1e-4b7e-9a55-0d6a1d0f6b11"

-- Times are kept to the microsecond, and there is one tenant.
abbrev plain_hashes : Hashes
plain_hashes = record {
  durable = λ t. length t;
  checksum_of = λ t. t;
  stored_time = λ at. at - at % 1000;
  uuid_text = λ t. if text_eq t tenant then some t else none;
  is_tenant = λ t. text_eq t tenant;
  is_text = λ t. true;
}

abbrev no_jobs : JournalDb
no_jobs = record { jobs = λ id. none; outputs = λ j. none }

no_jobs-IsConsistent : IsConsistent plain_hashes no_jobs
no_jobs-IsConsistent j o e = cc

abbrev job_done : JobResult
job_done = record (terminal (codes "j1") (codes "{}") completed 5678) { tenant_id = tenant }

abbrev job_row : StoredJob
job_row = record {
  id = 2;
  job_type = codes "redact";
  final_state = completed;
  checksum = codes "{}";
  created_at = 5678;
  completed_at = 5678;
}

abbrev one_job : JournalDb
one_job = with_row no_jobs job_done (column_row plain_hashes job_row)

-- A tenant that is no UUID is refused.
no_uuid :
    record_result plain_hashes no_jobs (record job_done { tenant_id = codes "t" })
    ≡ refused bad_columns
unfolding record_result terminal
no_uuid = refl

-- Another body for a job on record is a conflict.
recorded_twice :
    record_result plain_hashes one_job (record job_done { body = codes "[]" })
    ≡ refused journal_conflict
unfolding record_result terminal
recorded_twice = refl

record_result-Filed_example : Filed plain_hashes no_jobs one_job job_done
unfolding record_result terminal
record_result-Filed_example =
    record_result-Filed plain_hashes no_jobs one_job job_done no_jobs-IsConsistent refl

abbrev signer : Signer
signer = record { durable = λ t. length t; sign = λ t at. at ∷ t; key_id = codes "k" }

abbrev live_key : KeyRow
live_key = record { material = codes "secret"; destroyed = false; destroyed_at = 0 }

-- The receipt is inserted, and the reply of that call is lost.
abbrev faulty : World
faulty = record {
  keys = λ id. some live_key;
  receipts = λ id. none;
  checkpoints = λ t. some (record { step = codes "1"; partial_result = codes "{}"; step1 = 1 });
  journal = no_jobs;
  lanes = record { main = []; dead = []; retries = λ t. none };
  published = [];
  faults = fine ∷ no_reply ∷ [];
}

faulty_run : (purge signer (codes "j1") crash_never (codes "t") 7000 faulty).0 ≡ failed store_down
unfolding purge get_receipt insert_receipt
faulty_run = refl

purge-Grows_example :
    Grows faulty (purge signer (codes "j1") crash_after_key_destroy (codes "t") 7000 faulty).1
purge-Grows_example =
    purge-Grows signer (codes "j1") crash_after_key_destroy (codes "t") 7000 faulty

abbrev quiet : World
quiet = record faulty { faults = [] }

purge_again_example :
    let left = record (purge signer (codes "j1") crash_never (codes "t") 7000 faulty).1 {
      faults = [];
    } in
    (w' : World) × (purge signer (codes "j1") crash_never (codes "t") 9000 left ≡ (value tt, w'))
    × Purged signer (codes "j1") w'
    × ((r : Receipt) → left.receipts 2 ≡ some r → w'.receipts 2 ≡ some r)
purge_again_example = purge_again signer (codes "j1") (codes "t") crash_never 7000 9000 faulty

abbrev entry : StreamId
entry = record { millis = 1700000000123; seq = 4 }

entry_text : stream_id_string entry ≡ codes "1700000000123-4"
unfolding stream_id_string
entry_text = refl

parse_stream_id_three_parts : parse_stream_id (codes "1-2-3") ≡ none
unfolding parse_stream_id
parse_stream_id_three_parts = refl

abbrev job_fields : Fields
job_fields = (codes "input", codes "sealed") ∷ (codes "id", codes "j1") ∷ []

abbrev one_entry : Lanes
one_entry = record {
  main = (record { id = entry; fields = job_fields }) ∷ [];
  dead = [];
  retries = λ t. none;
}

abbrev later_entry : StreamId
later_entry = record { millis = 1700000000200; seq = 0 }

settle_forced :
    (settle one_entry later_entry (codes "j1") entry true job_fields).1.dead
    ≡ ((codes "id", codes "j1") ∷ []) ∷ []
unfolding settle remove
settle_forced = refl

settle-NoInput_example :
    All NoInput (settle one_entry later_entry (codes "j1") entry true job_fields).1.dead
settle-NoInput_example = settle-NoInput one_entry later_entry (codes "j1") entry true job_fields tt

settle-is_last_try_example :
    ((settle one_entry later_entry (codes "j1") entry false job_fields).0.0 ≡ bury)
    ↔ (is_last_try none ≡ true)
settle-is_last_try_example = settle-is_last_try one_entry later_entry (codes "j1") entry job_fields

settle_three_example :
    let first = settle one_entry later_entry (codes "j1") entry false job_fields in
    let second = settle first.1 entry (codes "j1") later_entry false job_fields in
    let third = settle second.1 later_entry (codes "j1") entry false job_fields in
    (first.0 ≡ (retry, 1))
    × (second.0 ≡ (retry, 2))
    × (third.0 ≡ (bury, 3))
    × (third.1.retries (codes "j1") ≡ none)
settle_three_example =
    settle_three one_entry (codes "j1") entry later_entry entry later_entry entry later_entry
      job_fields refl

-- The same job, run again at another time.
abbrev job_again : JobResult
job_again = record (terminal (codes "j1") (codes "{}") completed 9999) { tenant_id = tenant }

abbrev row_again : StoredJob
row_again = record job_row { created_at = 9999; completed_at = 9999 }

record_result_again_example :
    (db'' : JournalDb) × (record_result plain_hashes one_job job_again ≡ committed db'')
    × (db''.jobs ≡ one_job.jobs)
    × ((j : Text) → db''.outputs j ≡ one_job.outputs j)
unfolding record_result terminal parse_terminal columns_take
record_result_again_example =
    record_result_again plain_hashes no_jobs one_job job_done job_again job_row row_again refl refl
      refl refl refl refl refl refl

no_jobs-Refines : Refines plain_hashes new_memory_journal no_jobs
no_jobs-Refines = record { rows = λ id. refl; outputs = λ j. refl }

no_row : {A : Type 0} {a : A} → none ≡ some a → ⊥
no_row e = cc

columns_fit :
    (row : StoredJob)
    → parse_terminal plain_hashes job_done ≡ row_of row
    → (columns_take plain_hashes job_done row && references_hold plain_hashes no_jobs job_done row)
      ≡ true
unfolding parse_terminal terminal columns_take references_hold
columns_fit row e =
    let same : job_row ≡ row = cc in
    subst
      (λ t.
        (columns_take plain_hashes job_done t && references_hold plain_hashes no_jobs job_done t)
        ≡ true)
      same refl

memory_record-Agrees_example :
    Agrees plain_hashes
      (memory_record plain_hashes new_memory_journal job_done)
      (record_result plain_hashes no_jobs job_done)
memory_record-Agrees_example =
    memory_record-Agrees plain_hashes new_memory_journal no_jobs job_done refl columns_fit
      no_jobs-IsConsistent no_jobs-Refines (λ row e. absurd (no_row e))
