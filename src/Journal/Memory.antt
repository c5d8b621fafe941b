-- ===== src/Journal/Memory.antt =====
-- internal/journal/journal.go: the journal in memory.
pub mod Refines
use cold_harbour.Common.{ℕ, Option, none, some, Text, if◌then◌else◌, update, update_text}
use cold_harbour.Journal.{
  StoredJob, StoredOutput, JobResult, Hashes, JournalError, journal_conflict, Terminal, row_of,
  bad_history, parse_terminal, accept_existing, output_of, state_eq,
}

pub record MemoryJournal : Type 0 where
  pub rows : ℕ → Option StoredJob
  pub outputs : Text → Option StoredOutput

-- `NewMemoryJournal`
abbrev pub new_memory_journal : MemoryJournal
new_memory_journal = record { rows = λ id. none; outputs = λ j. none }

pub data MemoryRecorded : Type 0 where
  kept : MemoryJournal → MemoryRecorded
  rejected : JournalError → MemoryRecorded

-- `MemoryJournal.Record`, by the row that is there.
unfoldable pub memory_record_row :
    MemoryJournal → JobResult → StoredJob → Option StoredJob → MemoryRecorded
unfolding state_eq
memory_record_row m r row none = kept (record {
  rows = update m.rows row.id (some row);
  outputs = update_text m.outputs r.id (some (output_of r row));
})
memory_record_row m r row (some old) =
    if accept_existing old row then kept m else rejected journal_conflict

unfoldable pub memory_record_terminal : MemoryJournal → JobResult → Terminal → MemoryRecorded
unfolding memory_record_row
memory_record_terminal m r (bad_history e) = rejected e
memory_record_terminal m r (row_of row) = memory_record_row m r row (m.rows row.id)

-- `MemoryJournal.Record`
unfoldable pub memory_record : Hashes → MemoryJournal → JobResult → MemoryRecorded
unfolding memory_record_terminal parse_terminal
memory_record h m r = memory_record_terminal m r (parse_terminal h r)

-- `MemoryJournal.Load`; `none` is `ErrUnknownStoredJob`.
unfoldable pub memory_load : Hashes → MemoryJournal → Text → Option StoredJob
memory_load h m job = m.rows (h.durable job)

abbrev pub body_of : Option StoredOutput → Option Text
body_of none = none
body_of (some o) = some o.body

-- `MemoryJournal.LoadOutput`
unfoldable pub memory_load_output : MemoryJournal → Text → Option Text
memory_load_output m job = body_of (m.outputs job)
