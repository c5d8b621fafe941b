-- ===== src/Examples/Worker.antt =====
-- Runs of the model of the worker on concrete inputs.
use cold_harbour.Common.{
  true, ◌-◌, ◌%◌, text_eq, if◌then◌else◌, ℕ, ◌+◌, ◌≤◌, sym, ◌∙◌, inl, inr, drop, ◌≡◌, refl, false,
  none, some, List, [], ◌∷◌, codes, length, suc, arith, Text,
}
use cold_harbour.Journal.{JobState, running, completed, record_result, terminal}
use cold_harbour.Journal.Consistent.{Keeps}
use cold_harbour.Worker.Stream.{StreamId, stream_id_string}
use cold_harbour.Worker.Retries.{Fields, Entry, Lanes, same_id, remove}
use cold_harbour.Worker.Retries.Orderly.{Fresh, Distinct, In}
use cold_harbour.Worker.Stores.{
  World, JobEvent, value, lost, get_receipt, insert_receipt, destroy, delete_checkpoint,
}
use cold_harbour.Worker.Purge.{crash_never, purge}
use cold_harbour.Worker.Deps.{Deps, Runner, output, save, Claimed, Job, parse_job, field}
use cold_harbour.Worker.Handle.{
  handle, load_row, run_job, publish, apply_hooks, record_job, finish, dispatch,
}
use cold_harbour.Worker.Handle.Ends.{Done, handle-Done}
use cold_harbour.Worker.Add.{add, enqueue}
use cold_harbour.Worker.System.{Reach, here, next, delivered, faults_come}
use cold_harbour.Worker.System.Kept.{IsJob, job_never_lost, added_never_lost, sealed_fields}
use cold_harbour.Worker.Handle.Safe.{Safe, Held}
use cold_harbour.Worker.Handle.Whole.{handle-Safe}
use cold_harbour.Worker.Memory.{load_state, load_key, save_state, ensure_key, material_of}

-- Saves one checkpoint, and ends.
abbrev echo : Runner
echo = record {
  job_type = codes "redact";
  start = λ input state. save 1 (codes "{}") (output (codes "{\"a\":1}"));
}

-- Above the sum of all identifiers.
abbrev millis_total : List Entry → ℕ
millis_total [] = 0
millis_total (e ∷ es) = e.id.millis + millis_total es

abbrev next_id : Lanes → StreamId → StreamId
next_id l old = record { millis = suc (old.millis + millis_total l.main); seq = 0 }

above-Fresh :
    (n : ℕ) (es : List Entry) → millis_total es ≤ n → Fresh (record { millis = suc n; seq = 0 }) es
above-Fresh n [] h = tt
above-Fresh n (e ∷ es) h = (ground arith, above-Fresh n es (omega arith))

next_id-Fresh :
    (l : Lanes) (old : StreamId)
    → (same_id (next_id l old) old ≡ false) × Fresh (next_id l old) l.main
next_id-Fresh l old =
    (ground arith, above-Fresh (old.millis + millis_total l.main) l.main (omega arith))

-- Sealing writes a number before the text, and every text decodes to an empty object.
-- A tenant, by its UUID.
abbrev tenant : Text
tenant = codes "5f0c3c2a-7c1e-4b7e-9a55-0d6a1d0f6b11"

abbrev worker : Deps
worker = record {
  signer = record { durable = λ t. length t; sign = λ t at. at ∷ t; key_id = codes "k" };
  checksum_of = λ t. t;
  stored_time = λ at. at - at % 1000;
  uuid_text = λ t. if text_eq t tenant then some t else none;
  is_tenant = λ t. text_eq t tenant;
  is_text = λ t. true;
  sign_output = λ job tenant body. body;
  new_key = λ id. codes "k";
  seal = λ key t. 0 ∷ t;
  unseal = λ key t. some (drop 1 t);
  decode = λ t. some [];
  error_body = λ t. t;
  registry = λ t. some echo;
  fresh_id = next_id;
  hooks = record {
    crash_after_step1 = λ t. false;
    crash_after_record = λ t. false;
    crash_after_key_destroy = λ t. false;
    fail = λ t. false;
  };
  seal_opens = λ key plain. refl;
  fresh_differs = next_id-Fresh;
}

abbrev first_entry : StreamId
first_entry = record { millis = 1700000000123; seq = 4 }

abbrev first_fields : Fields
first_fields =
    (codes "id", codes "j1") ∷ (codes "input", codes "sealed") ∷ (codes "tenant_id", tenant) ∷ []

abbrev first_job : Claimed
first_job = record {
  entry = first_entry;
  job = record { id = codes "j1"; input = codes "sealed"; tenant_id = tenant };
  crash = crash_never;
  fail = false;
  fields = first_fields;
}

-- The job has its key, and waits on the stream.
abbrev waiting : World
waiting = record {
  keys = λ id. some (record { material = codes "k"; destroyed = false; destroyed_at = 0 });
  receipts = λ id. none;
  checkpoints = λ t. none;
  journal = record { jobs = λ id. none; outputs = λ j. none };
  lanes = record {
    main = (record { id = first_entry; fields = first_fields }) ∷ [];
    dead = [];
    retries = λ t. none;
  };
  published = [];
  faults = [];
}

handle-Safe_example :
    Safe worker
      (codes "j1")
      first_fields
      first_entry
      waiting
      (handle worker 7000 first_job waiting).1
handle-Safe_example = handle-Safe worker first_job 7000 waiting

handle-Done_example : Done worker first_job (handle worker 7000 first_job waiting).1
unfolding handle load_row load_state load_key run_job save_state publish apply_hooks record_job
    record_result terminal purge get_receipt insert_receipt destroy delete_checkpoint finish remove
handle-Done_example = handle-Done worker first_job 7000 waiting refl refl

abbrev statuses : List JobEvent → List JobState
statuses [] = []
statuses (e ∷ es) = e.status ∷ statuses es

-- The whole of a job: it is recorded and purged, its entry removed, and both events are published.
whole_run :
    let (reply, after) = handle worker 7000 first_job waiting in
    (reply ≡ value tt)
    × (after.lanes.main ≡ [])
    × (statuses after.published ≡ running ∷ completed ∷ [])
unfolding handle load_row load_state load_key run_job save_state publish apply_hooks record_job
    record_result terminal purge get_receipt insert_receipt destroy delete_checkpoint finish remove
whole_run = (refl, refl, refl)

first_fields-IsJob : IsJob (codes "j1") first_fields
unfolding parse_job field
first_fields-IsJob entry = (first_job.job, refl, refl)

waiting-Distinct : Distinct waiting.lanes.main
waiting-Distinct x y (inl e) (inl f) same = sym e ∙ f
waiting-Distinct x y (inl e) (inr j) same = absurd j
waiting-Distinct x y (inr i) j same = absurd i

abbrev waiting_entry : Entry
waiting_entry = record { id = first_entry; fields = first_fields }

-- The call on the journal is to fail when the entry is delivered.
abbrev unlucky : World
unlucky = record waiting { faults = lost ∷ [] }

abbrev unlucky_after : World
unlucky_after = (dispatch worker 7000 (stream_id_string first_entry) first_fields unlucky).1

unlucky_reached : Reach worker waiting unlucky_after
unlucky_reached =
    next (next here (faults_come (lost ∷ []) waiting))
      (delivered waiting_entry 7000 unlucky (inl refl) (omega arith) (omega arith))

job_never_lost_example :
    Held worker (codes "j1") first_fields unlucky_after
    × Distinct unlucky_after.lanes.main
    × Keeps waiting.journal unlucky_after.journal
job_never_lost_example =
    job_never_lost worker (codes "j1") first_fields waiting unlucky_after first_fields-IsJob
      waiting-Distinct unlucky_reached (inl (inl refl))

abbrev second_job : Job
second_job = record { id = codes "j22"; input = codes "text"; tenant_id = tenant }

abbrev with_second : World
with_second = (add worker [] second_job waiting).1

second_added : add worker [] second_job waiting ≡ (value tt, with_second)
unfolding add ensure_key material_of enqueue
second_added = refl

second_there : In waiting_entry with_second.lanes.main
unfolding add ensure_key material_of enqueue
second_there = inl refl

added_never_lost_example :
    (key : Text) × Held worker
      (codes "j22")
      (sealed_fields worker [] second_job key)
      (dispatch worker 7000 (stream_id_string first_entry) first_fields with_second).1
added_never_lost_example =
    added_never_lost worker [] second_job waiting with_second
      (dispatch worker 7000 (stream_id_string first_entry) first_fields with_second).1
      (λ key plain. refl) refl waiting-Distinct second_added
      (next here
        (delivered waiting_entry 7000 with_second second_there (omega arith) (omega arith)))
