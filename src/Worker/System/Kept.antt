-- ===== src/Worker/System/Kept.antt =====
-- What the system keeps in every run, and the jobs that are never lost.
use cold_harbour.Common.{
  ℕ, ◌≡◌, refl, sym, ap, subst, ◌∙◌, false, List, [], ◌∷◌, ◌++◌, Text, Any, inl, inr, ◌⊎◌,
  Bool-cases, arith,
}
use cold_harbour.Journal.Consistent.{Keeps}
use cold_harbour.Worker.Stream.{StreamId, is_blank}
use cold_harbour.Worker.Stream.Identifiers.{parse_stream_id-string}
use cold_harbour.Worker.Retries.{Fields, Entry, same_id}
use cold_harbour.Worker.Retries.Orderly.{In, Distinct}
use cold_harbour.Worker.Stores.{World, value, failed, Failure, Reply}
use cold_harbour.Worker.Stores.Runs.{continue-value, settle_call-world}
use cold_harbour.Worker.Stores.Runs.{continue-value, settle_call-world}
use cold_harbour.Worker.Memory.{ensure_key}
use cold_harbour.Worker.Deps.{Deps, Job, job_of, parse_job, field}
use cold_harbour.Worker.Handle.{claimed, dispatch_parsed, dispatch_id, dispatch, handle}
use cold_harbour.Worker.Handle.Safe.{Held}
use cold_harbour.Worker.Handle.Whole.{handle-Safe}
use cold_harbour.Worker.Memory.{ensure_key}
use cold_harbour.Worker.Add.{add, enqueue, enqueued, entry_fields, new_entry}
use cold_harbour.Worker.System.{
  Calm, Other, AllStay, dispatch_parsed-Calm, add-Calm, Step, added, delivered, faults_come, Reach,
  here, next,
}

-- Whatever entry has them, these fields are those of this job, with its input and its tenant.
abbrev pub IsJob : Text → Fields → Type 0
IsJob id fields =
    (entry : StreamId) → (job : Job) × (parse_job entry fields ≡ job_of job) × (job.id ≡ id)

Any-In :
    (fields : Fields) (es : List Entry)
    → Any (λ e. e.fields ≡ fields) es
    → (e : Entry) × In e es × (e.fields ≡ fields)
Any-In fields [] h = absurd h
Any-In fields (e ∷ es) (inl same) = (e, inl refl, same)
Any-In fields (e ∷ es) (inr h) = let (x, i, same) = Any-In fields es h in (x, inr i, same)

In-Any :
    (fields : Fields) (es : List Entry) (e : Entry)
    → In e es
    → e.fields ≡ fields
    → Any (λ e. e.fields ≡ fields) es
In-Any fields [] e h same = absurd h
In-Any fields (x ∷ xs) e (inl found) same = inl (ap (λ t. t.fields) found ∙ same)
In-Any fields (x ∷ xs) e (inr h) same = inr (In-Any fields xs e h same)

module _ (d : Deps) (id : Text) (fields : Fields) (is_job : IsJob id fields) where
  -- With the journal kept and the entry staying, the job is held.
  Calm-Held :
      (Stays : Entry → Type 0) (w w' : World)
      → Calm Stays w w'
      → ((e : Entry) → In e w.lanes.main → e.fields ≡ fields → Stays e ⊎ Held d id fields w')
      → Held d id fields w
      → Held d id fields w'
  Calm-Held Stays w w' calm stays (inr (row, there)) =
      inr (row, calm.keeps.jobs (d.signer.durable id) row there)
  Calm-Held Stays w w' calm stays (inl h) =
      let (e, i, same) = Any-In fields w.lanes.main h in
      elim (stays e i same) [
        | inl s ↦ inl (In-Any fields w'.lanes.main e (calm.others e s i) same)
        | inr held ↦ held
      ]

  own-Held :
      (e : Entry) (now : ℕ) (w : World)
      → e.fields ≡ fields
      → Held d id fields w
      → Held d id fields (dispatch_parsed d now e.id e.fields (parse_job e.id e.fields) w).1
  unfolding dispatch_parsed
  own-Held e now w same held =
      let (job, parsed, named) = is_job e.id in
      let c = claimed d now e.id job fields in
      subst (λ f. Held d id fields (dispatch_parsed d now e.id f (parse_job e.id f) w).1) (sym same)
        (subst (λ p. Held d id fields (dispatch_parsed d now e.id fields p w).1) (sym parsed)
          (subst (λ n. Held d n fields w → Held d n fields (handle d now c w).1) named
            (handle-Safe d c now w).held held))

  -- What a step keeps: no identifier twice on the stream, the journal, and the job.
  Kept : World → World → Type 0
  Kept v w =
      (Distinct v.lanes.main → Distinct w.lanes.main)
      × Keeps v.journal w.journal
      × (Distinct v.lanes.main → Held d id fields v → Held d id fields w)

  delivered-Kept :
      (e : Entry) (now : ℕ) (w : World)
      → In e w.lanes.main
      → Kept w (dispatch_parsed d now e.id e.fields (parse_job e.id e.fields) w).1
  unfolding Kept
  delivered-Kept e now w i =
      let calm = dispatch_parsed-Calm d now e.id e.fields (parse_job e.id e.fields) w in
      (
        calm.distinct,
        calm.keeps,
        λ distinct held.
            Calm-Held (Other e.id) w _ calm
              (λ x j same. elim (Bool-cases (same_id x.id e.id)) [
                | inl t ↦
                    inr
                      (own-Held e now w (ap (λ y. y.fields) (sym (distinct x e j i t)) ∙ same) held)
                | inr differs ↦ inl differs
              ])
              held,
      )

  Step-Kept : {v w : World} → Step d v w → Kept v w
  unfolding Kept dispatch dispatch_id
  Step-Kept (added job_type job v) =
      let calm = add-Calm d job_type job v in
      (calm.distinct, calm.keeps, λ _ held. Calm-Held AllStay v _ calm (λ x j same. inl tt) held)
  Step-Kept (delivered e now v i millis seq) =
      rw (parse_stream_id-string e.id millis seq) (delivered-Kept e now v i)
  Step-Kept (faults_come fs v) =
      (λ h. h, record { jobs = λ i row e. e; outputs = λ j o e. e }, λ _ held. held)

  Reach-Kept : {v w : World} → Reach d v w → Kept v w
  unfolding Kept
  Reach-Kept here = (λ h. h, record { jobs = λ i row e. e; outputs = λ j o e. e }, λ _ held. held)
  Reach-Kept (next r t) =
      let (distinct, keeps, held) = Reach-Kept r in
      let (distinct', keeps', held') = Step-Kept t in
      (
        λ h. distinct' (distinct h),
        record {
          jobs = λ i row e. keeps'.jobs i row (keeps.jobs i row e);
          outputs = λ j o e. keeps'.outputs j o (keeps.outputs j o e);
        },
        λ h x. held' (distinct h) (held h x),
      )

-- However jobs are added and entries delivered, and whatever calls fail: if no two entries of the stream
-- have one identifier at the start, then none have at the end; a row and an output of the journal are
-- never changed; and a job that is on record, or whose fields an entry of the stream has, is on record or
-- has such an entry at the end.
pub job_never_lost :
    (d : Deps) (id : Text) (fields : Fields) (v w : World)
    → IsJob id fields
    → Distinct v.lanes.main
    → Reach d v w
    → Held d id fields v
    → Held d id fields w × Distinct w.lanes.main × Keeps v.journal w.journal
unfolding Kept
job_never_lost d id fields v w is_job distinct r held =
    let (distinct', keeps, held') = Reach-Kept d id fields is_job r in
    (held' distinct held, distinct' distinct, keeps)

no_value :
    {e : Failure} {v w : World} → ◌≡◌ {A = Reply (Unit {0}) × World} (failed e, w) (value tt, v) → ⊥
no_value e = cc

IsJob-given :
    (input : Text) (a : ℕ) (id : Text) (b : ℕ) (tenant job_type : Text)
    → is_blank input ≡ false
    → IsJob
        (a ∷ id)
        (entry_fields job_type (record { id = a ∷ id; input = input; tenant_id = b ∷ tenant }))
unfolding entry_fields parse_job field
IsJob-given input a id b tenant [] given entry =
    (record { id = a ∷ id; input = input; tenant_id = b ∷ tenant }, rw given, refl)
IsJob-given input a id b tenant (c ∷ job_type) given entry =
    (record { id = a ∷ id; input = input; tenant_id = b ∷ tenant }, rw given, refl)

entry_fields-IsJob :
    (job_type id input tenant : Text)
    → is_blank id ≡ false
    → is_blank input ≡ false
    → is_blank tenant ≡ false
    → IsJob id (entry_fields job_type (record { id = id; input = input; tenant_id = tenant }))
entry_fields-IsJob job_type [] input tenant named given owned = absurd (ground arith)
entry_fields-IsJob job_type (a ∷ id) input [] named given owned = absurd (ground arith)
entry_fields-IsJob job_type (a ∷ id) input (b ∷ tenant) named given owned =
    IsJob-given input a id b tenant job_type given

last-In : (es : List Entry) (e : Entry) → In e (es ++ e ∷ [])
last-In [] e = inl refl
last-In (x ∷ xs) e = inr (last-In xs e)

-- The fields of the entry that `Add` makes, sealed with a key.
abbrev pub sealed_fields : Deps → Text → Job → Text → Fields
sealed_fields d job_type job key =
    entry_fields job_type (record job { input = d.seal key job.input })

enqueue-Held :
    (d : Deps) (id : Text) (job_type : Text) (job : Job) (w v : World)
    → enqueue d job_type job w ≡ (value tt, v)
    → Held d id (entry_fields job_type job) v
unfolding enqueue
enqueue-Held d id job_type job w v e =
    let fields = entry_fields job_type job in
    let (_, (fs, world)) = settle_call-world (λ w. tt) (enqueued d fields) w.faults w v tt e in
    subst (Held d id fields) (sym world) (
      inl (
        In-Any fields (w.lanes.main ++ new_entry d fields w ∷ []) (new_entry d fields w)
          (last-In w.lanes.main (new_entry d fields w)) refl))

add-Held :
    (d : Deps) (job_type : Text) (job : Job) (w v : World)
    → add d job_type job w ≡ (value tt, v)
    → (is_blank job.id ≡ false)
      × ((key : Text) × Held d job.id (sealed_fields d job_type job key) v)
unfolding add
add-Held d job_type job w v e = elim (Bool-cases (is_blank job.id)) [
  | inl t ↦ absurd (no_value (rw t at e))
  | inr t ↦
      let (key, u, _, rest) =
        continue-value (ensure_key d (d.signer.durable job.id) w) _ tt v (rw t at e) in
      (
        t,
        (
          key,
          enqueue-Held d job.id job_type (record job { input = d.seal key job.input }) u v rest,
        ),
      )
]

-- A job with a tenant that `Add` puts on the stream without an error, with a seal that never gives an empty
-- text, is held from then on under the fields of one sealed input: in every later state it is on record,
-- or an entry of the stream has these fields.
pub added_never_lost :
    (d : Deps) (job_type : Text) (job : Job) (v w u : World)
    → ((key plain : Text) → is_blank (d.seal key plain) ≡ false)
    → is_blank job.tenant_id ≡ false
    → Distinct v.lanes.main
    → add d job_type job v ≡ (value tt, w)
    → Reach d w u
    → (key : Text) × Held d job.id (sealed_fields d job_type job key) u
added_never_lost d job_type job v w u sealed owned distinct e r =
    let (named, (key, held)) = add-Held d job_type job v w e in
    let later =
      subst (λ t. Distinct t.1.lanes.main) e ((add-Calm d job_type job v).distinct distinct) in
    let is_job =
      entry_fields-IsJob job_type job.id (d.seal key job.input) job.tenant_id named
        (sealed key job.input) owned in
    (key, (job_never_lost d job.id (sealed_fields d job_type job key) w u is_job later r held).0)
