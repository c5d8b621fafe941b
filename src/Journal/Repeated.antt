-- ===== src/Journal/Repeated.antt =====
-- A job that is recorded twice, as when its entry is delivered again after a crash.
use cold_harbour.Common.{
  Bool, ◌||◌, ◌≡◌, refl, sym, ◌∙◌, ap, subst, true, false, Option, none, some, [], Text, arith,
  text_eq, text_eq-eq, text_eq_refl, update-same, update_text-cases, update_text-same, Bool-cases,
  inl, inr,
}
use cold_harbour.Journal.{
  JobState, created, running, completed, failed, state_eq, JobResult, StoredJob, JobRow,
  StoredOutput, JournalDb, committed, row_of, Hashes, parse_terminal, accept_existing, keep_or,
  output_of, record_row, record_terminal, record_result, with_output, new_row, with_row,
  without_row, column_row, column_result, columns_take, references_hold,
}
use cold_harbour.Journal.Consistent.{state_eq-eq, parse_terminal-Describes, taken}

or_true : (b : Bool) → (b || true) ≡ true
or_true true = refl
or_true false = refl

state_eq_refl : (s : JobState) → state_eq s s ≡ true
unfolding state_eq
state_eq_refl created = refl
state_eq_refl running = refl
state_eq_refl completed = refl
state_eq_refl failed = refl

-- What stands on record once a row's transaction has committed.
abbrev Stands : JournalDb → JobResult → StoredJob → Type 0
Stands db r row =
    (old : JobRow) × (o : StoredOutput) × (db.jobs row.id ≡ some old)
    × (old.stored.checksum ≡ row.checksum)
    × (old.stored.final_state ≡ row.final_state)
    × (db.outputs r.id ≡ some o)

record_row-Stands :
    (db db' : JournalDb) (r : JobResult) (row : StoredJob) (there : Option JobRow)
    → db.jobs row.id ≡ there
    → record_row db r row there ≡ committed db'
    → Stands db' r row
unfolding record_row
record_row-Stands db db' r row none found e =
    let same : with_row db r row ≡ db' = cc in
    subst (λ t. Stands t r row) same
      (
        new_row r row,
        keep_or (db.outputs r.id) (output_of r row),
        update-same db.jobs row.id (some (new_row r row)),
        refl,
        refl,
        update_text-same db.outputs r.id (some (keep_or (db.outputs r.id) (output_of r row))),
      )
record_row-Stands db db' r row (some old) found e =
    elim (Bool-cases (accept_existing old.stored row)) [
      | inr differs ↦ absurd (let e' = (rw differs at e) in cc)
      | inl accepts ↦
          let e' = (rw accepts at e) in
          let same : without_row db r row ≡ db' = cc in
          subst (λ t. Stands t r row) same
            (
              old,
              keep_or (db.outputs r.id) (output_of r row),
              found,
              text_eq-eq old.stored.checksum row.checksum (ground arith),
              state_eq-eq old.stored.final_state row.final_state (ground arith),
              update_text-same db.outputs r.id (some (keep_or (db.outputs r.id) (output_of r row))),
            )
    ]

with_output-kept :
    (db : JournalDb) (r : JobResult) (row : StoredJob) (o : StoredOutput) (j : Text)
    → db.outputs r.id ≡ some o
    → with_output db r row j ≡ db.outputs j
with_output-kept db r row o j e =
    elim (update_text-cases db.outputs r.id (some (keep_or (db.outputs r.id) (output_of r row)))
      j) [
        | inl other ↦ other
        | inr (here, now) ↦
            now ∙ ap (λ t. some (keep_or t (output_of r row))) e ∙ sym e ∙ ap db.outputs (sym here)
      ]

record_row-again :
    (db : JournalDb) (r again : JobResult) (row row' : StoredJob)
    → Stands db r row
    → row'.id ≡ row.id
    → row'.checksum ≡ row.checksum
    → row'.final_state ≡ row.final_state
    → record_row db again row' (db.jobs row'.id) ≡ committed (without_row db again row')
unfolding record_row
record_row-again db r again row row' (old, o, found, sum, state, out) id sum' state' =
    let there : db.jobs row'.id ≡ some old = ap db.jobs id ∙ found in
    let sums : text_eq old.stored.checksum row'.checksum ≡ true =
      rw (sum, sum') (text_eq_refl row.checksum) in
    let states : state_eq old.stored.final_state row'.final_state ≡ true =
      rw (state, state') (state_eq_refl row.final_state) in
    rw there (rw (sums, states) refl)

module _ (h : Hashes) where
  -- A repeated job inserts no row, so that no reference is looked up.
  references_again :
      (db : JournalDb) (r again : JobResult) (row row' : StoredJob)
      → Stands db r row
      → row'.id ≡ row.id
      → again.id ≡ r.id
      → references_hold h db again row' ≡ true
  unfolding references_hold
  references_again db r again row row' (old, o, found, _, _, out) id job =
      let there : db.jobs row'.id ≡ some old = ap db.jobs id ∙ found in
      let output : db.outputs again.id ≡ some o = ap db.outputs job ∙ out in
      rw (there, output, references_hold) (or_true (h.is_tenant again.tenant_id))

  -- Where `Record` has committed a result, and a second result of the same job has a tenant, values that the
  -- columns take, a history that parses to the same final state, and the same body: `Record` commits it too,
  -- and every row and every output stays what it was.
  pub record_result_again :
      (db db' : JournalDb) (r again : JobResult) (row row' : StoredJob)
      → record_result h db r ≡ committed db'
      → parse_terminal h r ≡ row_of row
      → parse_terminal h again ≡ row_of row'
      → row'.final_state ≡ row.final_state
      → again.id ≡ r.id
      → again.body ≡ r.body
      → text_eq again.tenant_id [] ≡ false
      → columns_take h again row' ≡ true
      → (db'' : JournalDb) × (record_result h db' again ≡ committed db'')
        × (db''.jobs ≡ db'.jobs)
        × ((j : Text) → db''.outputs j ≡ db'.outputs j)
  unfolding record_result record_terminal
  record_result_again db db' r again row row' e parsed parsed' state id body named fits =
      elim (Bool-cases (text_eq r.tenant_id [])) [
        | inl empty ↦ absurd (let e' = (rw empty at e) in cc)
        | inr first ↦
            let e' : record_terminal h db r (row_of row) ≡ committed db' =
              (rw (first, parsed) at e) in
            let r1 = column_result h r in
            let again1 = column_result h again in
            let row1 = column_row h row in
            let stands =
              record_row-Stands db db' r1 row1 (db.jobs row.id) refl (taken h db db' r row e') in
            let (d, sum) = parse_terminal-Describes h r row parsed in
            let (d', sum') = parse_terminal-Describes h again row' parsed' in
            let ids : row'.id ≡ row.id = d' ∙ ap h.durable id ∙ sym d in
            let holds = references_again db' r1 again row1 row' stands ids id in
            (
              without_row db' again1 (column_row h row'),
              rw (named, parsed')
                  (rw (fits, holds, record_terminal)
                    (record_row-again db' r1 again1 row1 (column_row h row') stands ids
                      (sum' ∙ ap h.checksum_of body ∙ sym sum) state)),
              refl,
              λ j.
                  with_output-kept db' again1 (column_row h row') stands.1 j
                    (ap db'.outputs id ∙ stands.5),
            )
      ]
