-- ===== src/Journal/Memory/Refines.antt =====
-- The journal in memory and the one in PostgreSQL, seen from outside, are one journal.
use cold_harbour.Common.{
  ℕ, ◌&&◌, true, ◌≡◌, ◌≢◌, [], refl, sym, ap, ◌∙◌, false, Option, none, some, Text, Bool-cases,
  Option-cases, inl, inr, update, update_text, text_eq, text_eq-eq, ◌==◌,
}
use cold_harbour.Journal.{
  JobState, column_row, column_result, columns_take, references_hold, StoredJob, StoredOutput,
  JobRow, JobResult, JournalDb, Hashes, JournalError, Recorded, committed, refused, Terminal,
  row_of, bad_history, parse_terminal, accept_existing, record_row, record_terminal, record_result,
  with_row, without_row, output_of, journal_conflict,
}
use cold_harbour.Journal.Consistent.{IsConsistent, parse_terminal-Describes}
use cold_harbour.Journal.Memory.{
  MemoryJournal, MemoryRecorded, kept, rejected, memory_record_row, memory_record_terminal,
  memory_record,
}

abbrev pub stored_of : Option JobRow → Option StoredJob
stored_of none = none
stored_of (some row) = some row.stored

abbrev pub kept_of : Hashes → Option StoredJob → Option StoredJob
kept_of h none = none
kept_of h (some row) = some (column_row h row)

-- What readers see of an output: its state and body.
abbrev pub seen_of : Option StoredOutput → Option (JobState × Text)
seen_of none = none
seen_of (some o) = some (o.final_state, o.body)

-- The abstract view: for each identifier a row, with its times as the columns keep them, and the state and
-- body of an output.
pub record Refines (h : Hashes) (m : MemoryJournal) (db : JournalDb) : Type 0 where
  pub rows : (id : ℕ) → kept_of h (m.rows id) ≡ stored_of (db.jobs id)
  pub outputs : (j : Text) → seen_of (m.outputs j) ≡ seen_of (db.outputs j)

-- Two recordings that end alike.
pub data Agrees (h : Hashes) : MemoryRecorded → Recorded → Type 0 where
  both : (m : MemoryJournal) (db : JournalDb) → Refines h m db → Agrees h (kept m) (committed db)
  neither : (e : JournalError) → Agrees h (rejected e) (refused e)

none-some : {A : Type 0} {a : A} → none ≢ some a
none-some e = cc

some-some : {A : Type 0} {a b : A} → some a ≡ some b → a ≡ b
some-some e = cc

module _ (h : Hashes) (m : MemoryJournal) (db : JournalDb) (r : JobResult) where
  new-Refines :
      (row : StoredJob)
      → Refines h m db
      → db.outputs r.id ≡ none
      → Refines h
          (record {
            rows = update m.rows row.id (some row);
            outputs = update_text m.outputs r.id (some (output_of r row));
          })
          (with_row db (column_result h r) (column_row h row))
  new-Refines row f free = record {
    rows = λ id. elim (Bool-cases (id == row.id)) [ inl t ↦ rw t refl | inr t ↦ rw t (f.rows id) ];
    outputs = λ j. elim (Bool-cases (text_eq j r.id)) [
      | inl t ↦ rw (t, free) refl
      | inr t ↦ rw t (f.outputs j)
    ];
  }

  old-Refines :
      (row : StoredJob) (o : StoredOutput)
      → Refines h m db
      → db.outputs r.id ≡ some o
      → Refines h m (without_row db (column_result h r) (column_row h row))
  old-Refines row o f there = record {
    rows = f.rows;
    outputs = λ j. elim (Bool-cases (text_eq j r.id)) [
      | inl t ↦
          rw (t, there)
            (f.outputs j
              ∙ ap (λ x. seen_of (db.outputs x)) (text_eq-eq j r.id t)
              ∙ ap seen_of there)
      | inr t ↦ rw t (f.outputs j)
    ];
  }

  -- The old row is the same to `acceptExisting` in both.
  accepts-alike :
      (old : StoredJob) (x : JobRow) (row : StoredJob)
      → column_row h old ≡ x.stored
      → accept_existing old row ≡ accept_existing x.stored (column_row h row)
  accepts-alike old x row e = ap (λ t. accept_existing t row) e

  row-Agrees :
      (row : StoredJob) (y : Option StoredJob) (x : Option JobRow)
      → Refines h m db
      → kept_of h y ≡ stored_of x
      → (x ≡ none → db.outputs r.id ≡ none)
      → ((old : JobRow) → x ≡ some old → (o : StoredOutput) × (db.outputs r.id ≡ some o))
      → Agrees h
          (memory_record_row m r row y)
          (record_row db (column_result h r) (column_row h row) x)
  unfolding memory_record_row record_row
  row-Agrees row none none f alike free there = both _ _ (new-Refines row f (free refl))
  row-Agrees row (some a) none f alike free there = absurd (none-some (sym alike))
  row-Agrees row none (some old) f alike free there = absurd (none-some alike)
  row-Agrees row (some mine) (some old) f alike free there =
      let (o, found) = there old refl in
      let same = accepts-alike mine old row (some-some alike) in
      elim (Bool-cases (accept_existing mine row)) [
        | inl t ↦
            rw (t, sym same ∙ t)
              (both m (without_row db (column_result h r) (column_row h row))
                (old-Refines row o f found))
        | inr t ↦ rw (t, sym same ∙ t) (neither journal_conflict)
      ]

  terminal-Agrees :
      (x : Terminal)
      → parse_terminal h r ≡ x
      → ((row : StoredJob)
          → parse_terminal h r ≡ row_of row
          → (columns_take h r row && references_hold h db r row) ≡ true)
      → IsConsistent h db
      → Refines h m db
      → ((row : JobRow)
          → db.jobs (h.durable r.id) ≡ some row
          → (o : StoredOutput) × (db.outputs r.id ≡ some o))
      → Agrees h (memory_record_terminal m r x) (record_terminal h db r x)
  unfolding memory_record_terminal record_terminal
  terminal-Agrees (bad_history e) same takes c f filled = neither e
  terminal-Agrees (row_of row) same takes c f filled =
      let (id, _) = parse_terminal-Describes h r row same in
      rw (takes row same, record_terminal)
        (row-Agrees row (m.rows row.id) (db.jobs row.id) f (f.rows row.id)
          (λ gone. elim (Option-cases (db.outputs r.id)) [
            | inl e ↦ e
            | inr (o, e) ↦
                let (old, there, _, _) = c r.id o e in
                absurd (none-some (sym gone ∙ ap db.jobs id ∙ there))
          ])
          (λ old e. filled old (ap db.jobs (sym id) ∙ e)))

-- Of a result with a tenant, whose values the columns take and whose tenant is in `tenants` where a row is
-- inserted, against a PostgreSQL journal in which every output has its row, and in which the job, if it is on
-- record, has an output: `Record` in memory and in PostgreSQL, from journals that agree in their rows, with
-- the times as the columns keep them, and in the states and bodies of their outputs, either both succeed and
-- leave journals that agree so, or are both refused with the same error.
pub memory_record-Agrees :
    (h : Hashes) (m : MemoryJournal) (db : JournalDb) (r : JobResult)
    → text_eq r.tenant_id [] ≡ false
    → ((row : StoredJob)
        → parse_terminal h r ≡ row_of row
        → (columns_take h r row && references_hold h db r row) ≡ true)
    → IsConsistent h db
    → Refines h m db
    → ((row : JobRow)
        → db.jobs (h.durable r.id) ≡ some row
        → (o : StoredOutput) × (db.outputs r.id ≡ some o))
    → Agrees h (memory_record h m r) (record_result h db r)
unfolding memory_record record_result
memory_record-Agrees h m db r owned takes c f filled =
    rw owned (terminal-Agrees h m db r (parse_terminal h r) refl takes c f filled)
