-- ===== src/Journal.antt =====
-- internal/journal: the durable record of jobs that ended. `history.go` has the states of a job,
-- `journal.go` the journal in PostgreSQL; the one in memory is the child `Memory`.
pub mod Consistent
pub mod Repeated
pub mod Memory
use cold_harbour.Common.{
  ℕ, suc, leb, ltb, ◌≡◌, Bool, true, false, ◌&&◌, ◌||◌, not, Option, none, some, List, [], ◌∷◌,
  Text, codes, text_eq, if◌then◌else◌, update, update_text,
}

pub data JobState : Type 0 where
  created running completed failed : JobState

pub record Transition : Type 0 where
  pub source : JobState
  pub target : JobState
  pub at : ℕ

-- `JobResult`; `body` is the `BodyOf` its map.
pub record JobResult : Type 0 where
  pub id : Text
  pub tenant_id : Text
  pub job_type : Text
  pub body : Text
  pub history : List Transition
  pub signature : Text
  pub signing_key_id : Text

pub record StoredJob : Type 0 where
  pub id : ℕ
  pub job_type : Text
  pub final_state : JobState
  pub checksum : Text
  pub created_at : ℕ
  pub completed_at : ℕ

-- A row of `jobs`: what `Load` reads, and the columns beside it.
pub record JobRow : Type 0 where
  pub stored : StoredJob
  pub tenant_id : Text
  pub output_signature : Text
  pub signing_key_id : Text

pub record StoredOutput : Type 0 where
  pub final_state : JobState
  pub body : Text
  pub tenant_id : Text

-- The tables `jobs`, by durable identifier, and `outputs`, by the job's identifier.
pub record JournalDb : Type 0 where
  pub jobs : ℕ → Option JobRow
  pub outputs : Text → Option StoredOutput

pub data JournalError : Type 0 where
  not_terminal missing_pickup journal_conflict missing_tenant bad_columns : JournalError

pub data Recorded : Type 0 where
  committed : JournalDb → Recorded
  refused : JournalError → Recorded

pub data Terminal : Type 0 where
  row_of : StoredJob → Terminal
  bad_history : JournalError → Terminal

-- `UUIDv5` of a job's identifier, and the checksum of a body; and of PostgreSQL, what a TIMESTAMPTZ column
-- keeps of a time, the print of a text that is a UUID, the identifiers in `tenants`, and the texts that a
-- TEXT column takes.
pub record Hashes : Type 0 where
  pub durable : Text → ℕ
  pub checksum_of : Text → Text
  pub stored_time : ℕ → ℕ
  pub uuid_text : Text → Option Text
  pub is_tenant : Text → Bool
  pub is_text : Text → Bool

unfoldable pub state_eq : JobState → JobState → Bool
state_eq created created = true
state_eq running running = true
state_eq completed completed = true
state_eq failed failed = true
state_eq _ _ = false

-- `last.To == COMPLETED || last.To == FAILED`
abbrev pub is_terminal : JobState → Bool
is_terminal s = state_eq s completed || state_eq s failed

unfoldable pub last_step : List Transition → Option Transition
last_step [] = none
last_step (t ∷ []) = some t
last_step (t ∷ u ∷ rest) = last_step (u ∷ rest)

-- The time of the first step from CREATED to RUNNING.
unfoldable pub pickup : List Transition → Option ℕ
unfolding state_eq
pickup [] = none
pickup (t ∷ rest) =
    let later = pickup rest in
    if state_eq t.source created && state_eq t.target running then some t.at else later

unfoldable pub type_or_redact : Text → Text
type_or_redact [] = codes "redact"
type_or_redact (c ∷ cs) = c ∷ cs

unfoldable pub parse_terminal : Hashes → JobResult → Terminal
unfolding last_step pickup state_eq type_or_redact
parse_terminal h r = elim (last_step r.history) [
  | none ↦ bad_history not_terminal
  | some last ↦
      if not (is_terminal last.target) then bad_history not_terminal else elim (pickup r.history) [
        | none ↦ bad_history missing_pickup
        | some at ↦ row_of (record {
          id = h.durable r.id;
          job_type = type_or_redact r.job_type;
          final_state = last.target;
          checksum = h.checksum_of r.body;
          created_at = at;
          completed_at = last.at;
        })
      ]
]

abbrev pub accept_existing : StoredJob → StoredJob → Bool
accept_existing old new =
    text_eq old.checksum new.checksum && state_eq old.final_state new.final_state

abbrev pub keep_or {ℓ} : {A : Type ℓ} → Option A → A → A
keep_or none a = a
keep_or (some b) a = b

abbrev pub output_of : JobResult → StoredJob → StoredOutput
output_of r row = record { final_state = row.final_state; body = r.body; tenant_id = r.tenant_id }

-- `INSERT INTO outputs … ON CONFLICT DO NOTHING`
abbrev pub with_output : JournalDb → JobResult → StoredJob → Text → Option StoredOutput
with_output db r row =
    update_text db.outputs r.id (some (keep_or (db.outputs r.id) (output_of r row)))

abbrev pub new_row : JobResult → StoredJob → JobRow
new_row r row = record {
  stored = row;
  tenant_id = r.tenant_id;
  output_signature = r.signature;
  signing_key_id = r.signing_key_id;
}

-- The tables where the row of `jobs` is new, and where one was there.
abbrev pub with_row : JournalDb → JobResult → StoredJob → JournalDb
with_row db r row = record {
  jobs = update db.jobs row.id (some (new_row r row));
  outputs = with_output db r row;
}

abbrev pub without_row : JournalDb → JobResult → StoredJob → JournalDb
without_row db r row = record { jobs = db.jobs; outputs = with_output db r row }

-- The transaction; an error rolls it back.
unfoldable pub record_row : JournalDb → JobResult → StoredJob → Option JobRow → Recorded
unfolding state_eq
record_row db r row none = committed (with_row db r row)
record_row db r row (some old) =
    if accept_existing old.stored row
    then committed (without_row db r row)
    else refused journal_conflict

-- The characters of a text in UTF-8: its bytes but for those that continue one.
unfoldable pub character_count : Text → ℕ
character_count [] = 0
character_count (c ∷ cs) =
    let rest = character_count cs in if leb 128 c && ltb c 192 then rest else suc rest

abbrev pub is_some {ℓ} : {A : Type ℓ} → Option A → Bool
is_some none = false
is_some (some a) = true

-- Do the column types take the values? `job_type` is a VARCHAR(64); the state and the checksum, of 64 digits,
-- always fit theirs.
unfoldable pub columns_take : Hashes → JobResult → StoredJob → Bool
unfolding character_count
columns_take h r row =
    is_some (h.uuid_text r.tenant_id)
    && h.is_text r.id
    && h.is_text r.body
    && h.is_text row.job_type
    && leb (character_count row.job_type) 64
    && h.is_text r.signing_key_id

-- The references to `tenants` are looked up for rows that are inserted.
unfoldable pub references_hold : Hashes → JournalDb → JobResult → StoredJob → Bool
references_hold h db r row =
    h.is_tenant r.tenant_id || (is_some (db.jobs row.id) && is_some (db.outputs r.id))

-- What the columns keep of the values.
abbrev pub column_row : Hashes → StoredJob → StoredJob
column_row h row = record row {
  created_at = h.stored_time row.created_at;
  completed_at = h.stored_time row.completed_at;
}

abbrev pub column_result : Hashes → JobResult → JobResult
column_result h r = record r { tenant_id = keep_or (h.uuid_text r.tenant_id) r.tenant_id }

unfoldable pub record_terminal : Hashes → JournalDb → JobResult → Terminal → Recorded
unfolding record_row columns_take references_hold
record_terminal h db r (bad_history e) = refused e
record_terminal h db r (row_of row) =
    if columns_take h r row && references_hold h db r row
    then record_row db (column_result h r) (column_row h row) (db.jobs row.id)
    else refused bad_columns

-- `pgJournal.Record`
unfoldable pub record_result : Hashes → JournalDb → JobResult → Recorded
unfolding record_terminal parse_terminal
record_result h db r =
    if text_eq r.tenant_id []
    then refused missing_tenant
    else record_terminal h db r (parse_terminal h r)

-- `terminal`, for `Succeed` and `Fail`.
unfoldable pub terminal : Text → Text → JobState → ℕ → JobResult
terminal id body target now = record {
  id = id;
  tenant_id = [];
  job_type = [];
  body = body;
  history =
      (record { source = created; target = running; at = now })
      ∷ (record { source = running; target = target; at = now })
      ∷ [];
  signature = [];
  signing_key_id = [];
}
