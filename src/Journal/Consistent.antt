-- ===== src/Journal/Consistent.antt =====
-- The outputs that the journal keeps belong to its rows, and neither is ever overwritten.
use cold_harbour.Common.{
  ℕ, ◌&&◌, ◌≡◌, refl, sym, ◌∙◌, ap, subst, true, not, Option, none, some, [], Text, arith, text_eq,
  text_eq-eq, update-cases, update-same, update_text-cases, update_text-same, Bool-cases,
  Option-cases, inl, inr, ◌⊎◌,
}
use cold_harbour.Journal.{
  JobState, created, running, completed, failed, state_eq, JobResult, StoredJob, JobRow,
  StoredOutput, JournalDb, committed, Terminal, row_of, bad_history, Hashes, parse_terminal,
  is_terminal, pickup, last_step, accept_existing, record_row, record_terminal, record_result,
  with_output, keep_or, output_of, new_row, with_row, without_row, column_result, column_row,
  columns_take, references_hold,
}

-- Every output has a row of its job, with the output's checksum and final state.
abbrev pub IsConsistent : Hashes → JournalDb → Type 0
IsConsistent h db =
    (j : Text) (o : StoredOutput)
    → db.outputs j ≡ some o
    → (row : JobRow) × (db.jobs (h.durable j) ≡ some row)
      × (row.stored.checksum ≡ h.checksum_of o.body)
      × (row.stored.final_state ≡ o.final_state)

-- No row and no output changes.
pub record Keeps (db db' : JournalDb) : Type 0 where
  pub jobs : (id : ℕ) (row : JobRow) → db.jobs id ≡ some row → db'.jobs id ≡ some row
  pub outputs : (j : Text) (o : StoredOutput) → db.outputs j ≡ some o → db'.outputs j ≡ some o

pub state_eq-eq : (s t : JobState) → state_eq s t ≡ true → s ≡ t
unfolding state_eq
state_eq-eq created created e = refl
state_eq-eq created running e = cc
state_eq-eq created completed e = cc
state_eq-eq created failed e = cc
state_eq-eq running created e = cc
state_eq-eq running running e = refl
state_eq-eq running completed e = cc
state_eq-eq running failed e = cc
state_eq-eq completed created e = cc
state_eq-eq completed running e = cc
state_eq-eq completed completed e = refl
state_eq-eq completed failed e = cc
state_eq-eq failed created e = cc
state_eq-eq failed running e = cc
state_eq-eq failed completed e = cc
state_eq-eq failed failed e = refl

module _ (h : Hashes) where
  -- What a row says of the result it was made of.
  abbrev pub Describes : JobResult → StoredJob → Type 0
  Describes r row = (row.id ≡ h.durable r.id) × (row.checksum ≡ h.checksum_of r.body)

  pub parse_terminal-Describes :
      (r : JobResult) (row : StoredJob) → parse_terminal h r ≡ row_of row → Describes r row
  unfolding parse_terminal
  parse_terminal-Describes r row e = elim (Option-cases (last_step r.history)) [
    | inl gone ↦ absurd (let e' = (rw (gone, parse_terminal) at e) in cc)
    | inr (last, found) ↦
        let e' = (rw (found, parse_terminal) at e) in
        elim (Bool-cases (not (is_terminal last.target))) [
          | inl early ↦ absurd (let e'' = (rw early at e') in cc)
          | inr late ↦ elim (Option-cases (pickup r.history)) [
            | inl gone ↦ absurd (let e'' = (rw (late, gone) at e') in cc)
            | inr (at, there) ↦ let e'' = (rw (late, there) at e') in (cc, cc)
          ]
        ]
  ]

  with_output-old :
      (db : JournalDb) (r : JobResult) (row : StoredJob) (j : Text) (o : StoredOutput)
      → db.outputs j ≡ some o
      → with_output db r row j ≡ some o
  with_output-old db r row j o e =
      elim (update_text-cases db.outputs r.id (some (keep_or (db.outputs r.id) (output_of r row)))
        j) [
          | inl other ↦ other ∙ e
          | inr (here, now) ↦
              now ∙ ap (λ t. some (keep_or t (output_of r row))) (ap db.outputs (sym here) ∙ e)
        ]

  -- An output of the new table is an old one, or the result's own, where there was none.
  with_output-cases :
      (db : JournalDb) (r : JobResult) (row : StoredJob) (j : Text) (o : StoredOutput)
      → with_output db r row j ≡ some o
      → (db.outputs j ≡ some o) ⊎ ((j ≡ r.id) × (o ≡ output_of r row))
  with_output-cases db r row j o e =
      elim (update_text-cases db.outputs r.id (some (keep_or (db.outputs r.id) (output_of r row)))
        j) [
          | inl other ↦ inl (sym other ∙ e)
          | inr (here, now) ↦ elim (Option-cases (db.outputs r.id)) [
            | inl new ↦ inr (here, (let e' = (rw new at (sym now ∙ e)) in cc))
            | inr (old, there) ↦
                inl (ap db.outputs here ∙ there ∙ (let e' = (rw there at (sym now ∙ e)) in e'))
          ]
        ]

  -- What recording a result leaves, where it commits.
  pub record Filed (db db' : JournalDb) (r : JobResult) : Type 0 where
    pub consistent : IsConsistent h db'
    pub keeps : Keeps db db'
    pub filed :
        (row : JobRow) × (o : StoredOutput) × (db'.jobs (h.durable r.id) ≡ some row)
        × (db'.outputs r.id ≡ some o)
        × (row.stored.checksum ≡ h.checksum_of r.body)

  output_filed :
      (db : JournalDb) (r : JobResult) (row : StoredJob)
      → (o : StoredOutput) × (with_output db r row r.id ≡ some o)
  output_filed db r row =
      (_, update_text-same db.outputs r.id (some (keep_or (db.outputs r.id) (output_of r row))))

  with_row-Keeps :
      (db : JournalDb) (r : JobResult) (row : StoredJob)
      → db.jobs row.id ≡ none
      → Keeps db (with_row db r row)
  with_row-Keeps db r row free = record {
    jobs = λ id old e. elim (update-cases db.jobs row.id (some (new_row r row)) id) [
      | inl other ↦ other ∙ e
      | inr (here, now) ↦
          absurd (let e' : db.jobs row.id ≡ some old = ap db.jobs (sym here) ∙ e in cc)
    ];
    outputs = with_output-old db r row;
  }

  with_row-Filed :
      (db : JournalDb) (r : JobResult) (row : StoredJob)
      → IsConsistent h db
      → Describes r row
      → db.jobs row.id ≡ none
      → Filed db (with_row db r row) r
  with_row-Filed db r row c d free =
      let keeps = with_row-Keeps db r row free in
      let there : (with_row db r row).jobs (h.durable r.id) ≡ some (new_row r row) =
        ap (with_row db r row).jobs (sym d.0) ∙ update-same db.jobs row.id (some (new_row r row)) in
      record {
        consistent = λ j o e. elim (with_output-cases db r row j o e) [
          | inl before ↦
              let (old, found, sum, state) = c j o before in
              (old, keeps.jobs (h.durable j) old found, sum, state)
          | inr (here, same) ↦ (
            new_row r row,
            ap (λ t. (with_row db r row).jobs (h.durable t)) here ∙ there,
            d.1 ∙ ap (λ t. h.checksum_of t.body) (sym same),
            ap (λ t. t.final_state) (sym same),
          )
        ];
        keeps = keeps;
        filed = (new_row r row, (output_filed db r row).0, there, (output_filed db r row).1, d.1);
      }

  without_row-Filed :
      (db : JournalDb) (r : JobResult) (row : StoredJob) (old : JobRow)
      → IsConsistent h db
      → Describes r row
      → db.jobs row.id ≡ some old
      → accept_existing old.stored row ≡ true
      → Filed db (without_row db r row) r
  without_row-Filed db r row old c d found accepts =
      let sum : old.stored.checksum ≡ row.checksum =
        text_eq-eq old.stored.checksum row.checksum (ground arith) in
      let state : old.stored.final_state ≡ row.final_state =
        state_eq-eq old.stored.final_state row.final_state (ground arith) in
      let there : db.jobs (h.durable r.id) ≡ some old = ap db.jobs (sym d.0) ∙ found in
      record {
        consistent = λ j o e. elim (with_output-cases db r row j o e) [
          | inl before ↦ c j o before
          | inr (here, same) ↦ (
            old,
            ap (λ t. db.jobs (h.durable t)) here ∙ there,
            sum ∙ d.1 ∙ ap (λ t. h.checksum_of t.body) (sym same),
            state ∙ ap (λ t. t.final_state) (sym same),
          )
        ];
        keeps = record { jobs = λ id row e. e; outputs = with_output-old db r row };
        filed = (old, (output_filed db r row).0, there, (output_filed db r row).1, sum ∙ d.1);
      }

  record_row-Filed :
      (db db' : JournalDb) (r : JobResult) (row : StoredJob) (there : Option JobRow)
      → IsConsistent h db
      → Describes r row
      → db.jobs row.id ≡ there
      → record_row db r row there ≡ committed db'
      → Filed db db' r
  unfolding record_row
  record_row-Filed db db' r row none c d free e =
      let same : with_row db r row ≡ db' = cc in
      subst (λ t. Filed db t r) same (with_row-Filed db r row c d free)
  record_row-Filed db db' r row (some old) c d found e =
      elim (Bool-cases (accept_existing old.stored row)) [
        | inl accepts ↦
            let e' = (rw accepts at e) in
            let same : without_row db r row ≡ db' = cc in
            subst (λ t. Filed db t r) same (without_row-Filed db r row old c d found accepts)
        | inr differs ↦ absurd (let e' = (rw differs at e) in cc)
      ]

  -- A result that is committed is one that the columns take.
  pub taken :
      (db db' : JournalDb) (r : JobResult) (row : StoredJob)
      → record_terminal h db r (row_of row) ≡ committed db'
      → record_row db (column_result h r) (column_row h row) (db.jobs row.id) ≡ committed db'
  unfolding record_terminal
  taken db db' r row e = elim (Bool-cases (columns_take h r row && references_hold h db r row)) [
    | inl fits ↦ (rw (fits, record_terminal) at e)
    | inr differs ↦ absurd (let e' = (rw (differs, record_terminal) at e) in cc)
  ]

  record_terminal-Filed :
      (db db' : JournalDb) (r : JobResult) (t : Terminal)
      → IsConsistent h db
      → parse_terminal h r ≡ t
      → record_terminal h db r t ≡ committed db'
      → Filed db db' r
  unfolding record_terminal
  record_terminal-Filed db db' r (bad_history x) c parsed e = cc
  record_terminal-Filed db db' r (row_of row) c parsed e =
      let r' = column_result h r in
      let row' = column_row h row in
      let f =
        record_row-Filed db db' r' row' (db.jobs row.id) c (parse_terminal-Describes r row parsed)
          refl (taken db db' r row e) in
      record { consistent = f.consistent; keeps = f.keeps; filed = f.filed }

  -- Where every stored output has its row and checksum, and `Record` commits a result: the same holds
  -- again; no row and no output that was there has changed; and the job now has an output and a row,
  -- whose checksum is that of the result's body.
  pub record_result-Filed :
      (db db' : JournalDb) (r : JobResult)
      → IsConsistent h db
      → record_result h db r ≡ committed db'
      → Filed db db' r
  unfolding record_result
  record_result-Filed db db' r c e = elim (Bool-cases (text_eq r.tenant_id [])) [
    | inl empty ↦ absurd (let e' = (rw empty at e) in cc)
    | inr named ↦ record_terminal-Filed db db' r (parse_terminal h r) c refl (rw named at e)
  ]

  -- What committing a result leaves of the tables, consistent or not.
  Committed : JournalDb → JournalDb → JobResult → Type 0
  Committed db db' r = Keeps db db' × ((row : JobRow) × (db'.jobs (h.durable r.id) ≡ some row))

  record_row-Committed :
      (db db' : JournalDb) (r : JobResult) (row : StoredJob) (there : Option JobRow)
      → Describes r row
      → db.jobs row.id ≡ there
      → record_row db r row there ≡ committed db'
      → Committed db db' r
  unfolding record_row Committed
  record_row-Committed db db' r row none d free e =
      let same : with_row db r row ≡ db' = cc in
      subst (λ t. Committed db t r) same
        (
          with_row-Keeps db r row free,
          (
            new_row r row,
            ap (with_row db r row).jobs (sym d.0)
                ∙ update-same db.jobs row.id (some (new_row r row)),
          ),
        )
  record_row-Committed db db' r row (some old) d found e =
      elim (Bool-cases (accept_existing old.stored row)) [
        | inr differs ↦ absurd (let e' = (rw differs at e) in cc)
        | inl accepts ↦
            let e' = (rw accepts at e) in
            let same : without_row db r row ≡ db' = cc in
            subst (λ t. Committed db t r) same
              (
                record { jobs = λ id row e. e; outputs = with_output-old db r row },
                (old, ap db.jobs (sym d.0) ∙ found),
              )
      ]

  record_terminal-Committed :
      (db db' : JournalDb) (r : JobResult) (t : Terminal)
      → parse_terminal h r ≡ t
      → record_terminal h db r t ≡ committed db'
      → Committed db db' r
  unfolding record_terminal Committed
  record_terminal-Committed db db' r (bad_history x) parsed e = cc
  record_terminal-Committed db db' r (row_of row) parsed e =
      record_row-Committed db db' (column_result h r) (column_row h row) (db.jobs row.id)
        (parse_terminal-Describes r row parsed) refl (taken db db' r row e)

  pub record_result-Keeps :
      (db db' : JournalDb) (r : JobResult)
      → record_result h db r ≡ committed db'
      → Keeps db db' × ((row : JobRow) × (db'.jobs (h.durable r.id) ≡ some row))
  unfolding record_result Committed
  record_result-Keeps db db' r e = elim (Bool-cases (text_eq r.tenant_id [])) [
    | inl empty ↦ absurd (let e' = (rw empty at e) in cc)
    | inr named ↦ record_terminal-Committed db db' r (parse_terminal h r) refl (rw named at e)
  ]
