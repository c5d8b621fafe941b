-- ===== src/Worker/System.antt =====
-- The stream with its worker: jobs are added, entries are handled in any order and as often as they come,
-- calls fail, and the worker is stopped and started again.
--
-- A step is one call of `Add` or of `dispatch`, up to the error that ends it. The calls of two workers on
-- one entry at a time are not interleaved.
pub mod Kept
use cold_harbour.Common.{
  ℕ, ◌<◌, ◌^◌, ◌≡◌, refl, sym, ap, subst, ◌∙◌, true, false, List, [], ◌∷◌, Text, Any, inl, inr, ◌⊎◌,
  Bool-cases, if-cases, codes,
}
use cold_harbour.Journal.Consistent.{Keeps}
use cold_harbour.Worker.Stream.{StreamId, stream_id_string, is_blank}
use cold_harbour.Worker.Stream.Identifiers.{parse_stream_id-string}
use cold_harbour.Worker.Retries.{Fields, Entry, Lanes, same_id}
use cold_harbour.Worker.Retries.Orderly.{
  In, Distinct, Orderly, Distinct-append, append-In, remove-Orderly, settle-Orderly,
}
use cold_harbour.Worker.Stores.{
  World, Fault, Io, call, give, fail, destroy, destroyed, no_job_id, key_destroyed,
}
use cold_harbour.Worker.Stores.Runs.{Lawful, call-Lawful, continue-Lawful}
use cold_harbour.Worker.Deps.{
  Deps, Job, ParsedJob, job_of, missing_input, missing_tenant, parse_job, or_default, field,
}
use cold_harbour.Worker.Memory.{ensure_key, ensured, ensured_row, material_of}
use cold_harbour.Worker.Handle.{
  finish, finished, settle_entry, settled, claimed, dead_letter, dispatch_parsed, dispatch_id,
  dispatch, handle,
}
use cold_harbour.Worker.Handle.Safe.{Held}
use cold_harbour.Worker.Handle.Whole.{handle-Safe}
use cold_harbour.Worker.Add.{add, enqueue, enqueued, new_entry, first_id}

-- The journal keeps its rows and outputs, some entries stay, and no identifier is given twice.
pub record Calm (Stays : Entry → Type 0) (w w' : World) : Type 0 where
  pub keeps : Keeps w.journal w'.journal
  pub others : (e : Entry) → Stays e → In e w.lanes.main → In e w'.lanes.main
  pub distinct : Distinct w.lanes.main → Distinct w'.lanes.main

Calm-Lawful : (Stays : Entry → Type 0) → Lawful (Calm Stays)
Calm-Lawful Stays = record {
  stay = λ w. record {
    keeps = record { jobs = λ id row e. e; outputs = λ j o e. e };
    others = λ e s i. i;
    distinct = λ h. h;
  };
  further = λ u v w g h. record {
    keeps = record {
      jobs = λ id row e. h.keeps.jobs id row (g.keeps.jobs id row e);
      outputs = λ j o e. h.keeps.outputs j o (g.keeps.outputs j o e);
    };
    others = λ e s i. h.others e s (g.others e s i);
    distinct = λ i. h.distinct (g.distinct i);
  };
  blind = λ u v fs g. record { keeps = g.keeps; others = g.others; distinct = g.distinct };
}

-- All but the entry with this identifier.
abbrev pub Other : StreamId → Entry → Type 0
Other id e = same_id e.id id ≡ false

moved-Calm :
    (id : StreamId) (w : World) (l : Lanes)
    → Orderly id w.lanes l
    → Calm (Other id) w (record w { lanes = l })
moved-Calm id w l o = record {
  keeps = record { jobs = λ i row e. e; outputs = λ j x e. e };
  others = o.others;
  distinct = o.distinct;
}

same-Calm :
    (Stays : Entry → Type 0) (w w' : World)
    → w'.journal ≡ w.journal
    → w'.lanes ≡ w.lanes
    → Calm Stays w w'
same-Calm Stays w w' e f = record {
  keeps = record {
    jobs = λ i row there. ap (λ t. t.jobs i) e ∙ there;
    outputs = λ j o there. ap (λ t. t.outputs j) e ∙ there;
  };
  others = λ x s i. subst (λ t. In x t.main) (sym f) i;
  distinct = λ h. subst (λ t. Distinct t.main) (sym f) h;
}

module _ (d : Deps) (now : ℕ) where
  finish-Calm : (id : StreamId) (w : World) → Calm (Other id) w (finish id w).1
  unfolding finish
  finish-Calm id w =
      call-Lawful (Calm (Other id)) (Calm-Lawful (Other id)) _ (finished id) w
        (moved-Calm id w _ (remove-Orderly id w.lanes _ refl))

  dead_letter-Calm :
      (id : StreamId) (fields : Fields) (w : World)
      → Calm (Other id) w (dead_letter d now id fields w).1
  unfolding dead_letter destroy settle_entry
  dead_letter-Calm id fields w =
      let law = Calm-Lawful (Other id) in
      let job = or_default (field (codes "id") fields) (stream_id_string id) in
      let c = claimed d now id (record { id = job; input = []; tenant_id = [] }) fields in
      continue-Lawful (Calm (Other id)) law (destroy (d.signer.durable job) now w) _ w
        (call-Lawful (Calm (Other id)) law _ (destroyed (d.signer.durable job) now) w
          (same-Calm (Other id) w _ refl refl))
        (λ _ v e.
          continue-Lawful (Calm (Other id)) law (settle_entry d c true v) _ v
            (call-Lawful (Calm (Other id)) law _ (λ w. record w { lanes = (settled d c true w).1 })
              v
              (moved-Calm id v _ (
                settle-Orderly v.lanes (d.fresh_id v.lanes id) job id true fields
                  (d.fresh_differs v.lanes id).1)))
            (λ _ u f. law.stay u))

  pub dispatch_parsed-Calm :
      (id : StreamId) (fields : Fields) (p : ParsedJob) (w : World)
      → Calm (Other id) w (dispatch_parsed d now id fields p w).1
  unfolding dispatch_parsed
  dispatch_parsed-Calm id fields missing_input w = finish-Calm id w
  dispatch_parsed-Calm id fields missing_tenant w = dead_letter-Calm id fields w
  dispatch_parsed-Calm id fields (job_of job) w =
      let safe = handle-Safe d (claimed d now id job fields) now w in
      record { keeps = safe.keeps; others = safe.orderly.others; distinct = safe.orderly.distinct }

abbrev pub AllStay : Entry → Type 0
AllStay e = Unit

module _ (d : Deps) where
  ensure_key-Calm : (id : ℕ) (w : World) → Calm AllStay w (ensure_key d id w).1
  unfolding ensure_key material_of
  ensure_key-Calm id w =
      let law = Calm-Lawful AllStay in
      continue-Lawful (Calm AllStay) law
        (call (λ w. ensured_row (d.new_key id) (w.keys id)) (ensured id (d.new_key id)) w)
        material_of w
        (call-Lawful (Calm AllStay) law _ (ensured id (d.new_key id)) w
          (same-Calm AllStay w _ refl refl))
        (λ row v e.
          if-cases (λ (m : Io Text). Calm AllStay v (m v).1) row.destroyed (fail key_destroyed)
            (give row.material) (λ _. law.stay v) (λ _. law.stay v))

  enqueued-Calm : (fields : Fields) (w : World) → Calm AllStay w (enqueued d fields w)
  enqueued-Calm fields w = record {
    keeps = record { jobs = λ id row e. e; outputs = λ j o e. e };
    others = λ e s i. append-In w.lanes.main (new_entry d fields w) e i;
    distinct =
        Distinct-append w.lanes.main (new_entry d fields w) (d.fresh_differs w.lanes first_id).1;
  }

  pub add-Calm : (job_type : Text) (job : Job) (w : World) → Calm AllStay w (add d job_type job w).1
  unfolding add enqueue
  add-Calm job_type job w =
      let law = Calm-Lawful AllStay in
      if-cases (λ (m : Io (Unit {0})). Calm AllStay w (m w).1) (is_blank job.id) (fail no_job_id) _
        (λ _. law.stay w)
        (λ _.
          continue-Lawful (Calm AllStay) law (ensure_key d (d.signer.durable job.id) w) _ w
            (ensure_key-Calm (d.signer.durable job.id) w)
            (λ key v e. call-Lawful (Calm AllStay) law _ _ v (enqueued-Calm _ v)))

  -- A job is added; an entry is delivered and handled, at some time, under its identifier of two 64-bit
  -- numbers; the calls to come are to end in some way.
  pub data Step : World → World → Type 0 where
    added : (job_type : Text) (job : Job) (w : World) → Step w (add d job_type job w).1
    delivered :
        (e : Entry) (now : ℕ) (w : World)
        → In e w.lanes.main
        → e.id.millis < 2 ^ 64
        → e.id.seq < 2 ^ 64
        → Step w (dispatch d now (stream_id_string e.id) e.fields w).1
    faults_come : (fs : List Fault) (w : World) → Step w (record w { faults = fs })

  pub data Reach (start : World) : World → Type 0 where
    here : Reach start start
    next : {v w : World} → Reach start v → Step v w → Reach start w
