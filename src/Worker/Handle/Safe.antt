-- ===== src/Worker/Handle/Safe.antt =====
-- What no step of the worker does to the stores, whatever call fails in it.
use cold_harbour.Common.{
  ℕ, ◌≡◌, refl, sym, ◌∙◌, ap, subst, false, some, List, [], ◌∷◌, ◌++◌, Text, Any, inl, inr, ◌⊎◌,
  Bool-cases,
}
use cold_harbour.Journal.{JobRow, JobResult, Recorded, committed, refused, record_result, JobState}
use cold_harbour.Journal.Consistent.{Keeps, record_result-Keeps}
use cold_harbour.Worker.Stream.{StreamId}
use cold_harbour.Worker.Retries.{Fields, Entry, Lanes, same_id, remove}
use cold_harbour.Worker.Retries.Orderly.{Orderly, stay-Orderly, further-Orderly, remove-Orderly}
use cold_harbour.Worker.Stores.{World}
use cold_harbour.Worker.Stores.Runs.{Lawful, call-Lawful, continue-Lawful}
use cold_harbour.Worker.Stores.Grows.{Grows, stay-Grows, further-Grows, alike-Grows}
use cold_harbour.Worker.Purge.{CrashPoint, purge}
use cold_harbour.Worker.Purge.Lawful.{purge-Lawful}
use cold_harbour.Worker.Purge.Receipts.{purge-Grows}
use cold_harbour.Worker.Deps.{Deps, hashes}
use cold_harbour.Worker.Handle.{
  publish, announced, finish, finished, written, or_refused, record_job,
}

-- The journal and the stream stay as they are.
record Apart (w w' : World) : Type 0 where
  journal : w'.journal ≡ w.journal
  lanes : w'.lanes ≡ w.lanes

Apart-Lawful : Lawful Apart
Apart-Lawful = record {
  stay = λ w. record { journal = refl; lanes = refl };
  further = λ u v w g h. record { journal = h.journal ∙ g.journal; lanes = h.lanes ∙ g.lanes };
  blind = λ u v fs g. record { journal = g.journal; lanes = g.lanes };
}

-- An entry that the stream does not lose when another is taken off it.
pub remove-Any :
    (fields : Fields) (id : StreamId) (es : List Entry) (e : Entry)
    → e.fields ≡ fields
    → same_id e.id id ≡ false
    → Any (λ x. x.fields ≡ fields) (remove id (es ++ e ∷ []))
unfolding remove
remove-Any fields id [] e same differs = rw differs (inl same)
remove-Any fields id (x ∷ xs) e same differs = elim (Bool-cases (same_id x.id id)) [
  | inl t ↦ rw t (remove-Any fields id xs e same differs)
  | inr t ↦ rw t (inr (remove-Any fields id xs e same differs))
]

-- The job is on record.
abbrev pub Journaled : Deps → Text → World → Type 0
Journaled d job w = (row : JobRow) × (w.journal.jobs (d.signer.durable job) ≡ some row)

-- The job is on record, or an entry of the stream still has its fields.
abbrev pub Held : Deps → Text → Fields → World → Type 0
Held d job fields w = Any (λ e. e.fields ≡ fields) w.lanes.main ⊎ Journaled d job w

module _ (d : Deps) (job : Text) (fields : Fields) (entry : StreamId) where
  -- No row and no output of the journal changes, no receipt does, no key is destroyed without a receipt,
  -- the job is not lost, and of the entries only this one may go.
  pub record Safe (w w' : World) : Type 0 where
    pub grows : Grows w w'
    pub keeps : Keeps w.journal w'.journal
    pub held : Held d job fields w → Held d job fields w'
    pub orderly : Orderly entry w.lanes w'.lanes

  Journaled-Keeps :
      (v w : World) → Keeps v.journal w.journal → Journaled d job v → Journaled d job w
  Journaled-Keeps v w k (row, there) = (row, k.jobs (d.signer.durable job) row there)

  pub Safe-Lawful : Lawful Safe
  Safe-Lawful = record {
    stay = λ w. record {
      grows = stay-Grows w;
      keeps = record { jobs = λ id row e. e; outputs = λ j o e. e };
      held = λ h. h;
      orderly = stay-Orderly entry w.lanes;
    };
    further = λ u v w g h. record {
      grows = further-Grows u v w g.grows h.grows;
      keeps = record {
        jobs = λ id row e. h.keeps.jobs id row (g.keeps.jobs id row e);
        outputs = λ j o e. h.keeps.outputs j o (g.keeps.outputs j o e);
      };
      held = λ x. h.held (g.held x);
      orderly = further-Orderly entry u.lanes v.lanes w.lanes g.orderly h.orderly;
    };
    blind = λ u v fs g. record {
      grows = alike-Grows u v _ g.grows refl refl;
      keeps = g.keeps;
      held = g.held;
      orderly = g.orderly;
    };
  }

  pub Apart-Safe :
      (w w' : World) → Grows w w' → w'.journal ≡ w.journal → w'.lanes ≡ w.lanes → Safe w w'
  Apart-Safe w w' g e f = record {
    grows = g;
    keeps = record {
      jobs = λ id row there. ap (λ t. t.jobs id) e ∙ there;
      outputs = λ j o there. ap (λ t. t.outputs j) e ∙ there;
    };
    held = λ h. elim h [
      | inl there ↦ inl (subst (λ t. Any (λ e. e.fields ≡ fields) t.main) (sym f) there)
      | inr (row, there) ↦ inr (row, ap (λ t. t.jobs (d.signer.durable job)) e ∙ there)
    ];
    orderly = subst (Orderly entry w.lanes) (sym f) (stay-Orderly entry w.lanes);
  }

  -- With the job on record, its entry may go.
  pub Journaled-Safe :
      (w : World) (l : Lanes)
      → Journaled d job w
      → Orderly entry w.lanes l
      → Safe w (record w { lanes = l })
  Journaled-Safe w l j o = record {
    grows = alike-Grows w w _ (stay-Grows w) refl refl;
    keeps = record { jobs = λ id row e. e; outputs = λ j o e. e };
    held = λ h. inr j;
    orderly = o;
  }

  purge-Apart :
      (crash : CrashPoint) (tenant : Text) (now : ℕ) (w : World)
      → Apart w (purge d.signer job crash tenant now w).1
  purge-Apart crash tenant now w =
      purge-Lawful Apart Apart-Lawful (λ id at w. record { journal = refl; lanes = refl })
        (λ r w. record { journal = refl; lanes = refl })
        (λ job w. record { journal = refl; lanes = refl }) d.signer job crash tenant now w

  pub purge-Safe :
      (crash : CrashPoint) (tenant : Text) (now : ℕ) (w : World)
      → Safe w (purge d.signer job crash tenant now w).1
  purge-Safe crash tenant now w =
      let apart = purge-Apart crash tenant now w in
      Apart-Safe w _ (purge-Grows d.signer job crash tenant now w) apart.journal apart.lanes

  pub publish-Safe :
      (tenant id : Text) (status : JobState) (w : World) → Safe w (publish tenant id status w).1
  unfolding publish
  publish-Safe [] id status w = Safe-Lawful.stay w
  publish-Safe (c ∷ cs) id status w =
      call-Lawful Safe Safe-Lawful _ (announced _) w
        (Apart-Safe w _ (alike-Grows w w _ (stay-Grows w) refl refl) refl refl)

  pub finish-Safe : (w : World) → Journaled d job w → Safe w (finish entry w).1
  unfolding finish
  finish-Safe w j =
      call-Lawful Safe Safe-Lawful _ (finished entry) w
        (Journaled-Safe w _ j (remove-Orderly entry w.lanes _ refl))

  -- A result that is recorded is on record.
  written-Safe :
      (w : World) (r : JobResult) (x : Recorded)
      → record_result (hashes d) w.journal r ≡ x
      → Safe w (written x w)
  written-Safe w r (refused e) same = Safe-Lawful.stay w
  written-Safe w r (committed db) same =
      let (keeps, row) = record_result-Keeps (hashes d) w.journal db r same in
      record {
        grows = alike-Grows w w _ (stay-Grows w) refl refl;
        keeps = keeps;
        held = λ h. elim h [
          | inl there ↦ inl there
          | inr j ↦ inr (Journaled-Keeps w (record w { journal = db }) keeps j)
        ];
        orderly = stay-Orderly entry w.lanes;
      }

  or_refused-Safe : (x : Recorded) (w : World) → Safe w (or_refused x w).1
  or_refused-Safe (committed db) w = Safe-Lawful.stay w
  or_refused-Safe (refused e) w = Safe-Lawful.stay w

  pub record_job-Safe : (r : JobResult) (w : World) → Safe w (record_job d r w).1
  unfolding record_job
  record_job-Safe r w =
      continue-Lawful Safe Safe-Lawful _ or_refused w
        (call-Lawful Safe Safe-Lawful _ (λ w. written (record_result (hashes d) w.journal r) w) w
          (written-Safe w r (record_result (hashes d) w.journal r) refl))
        (λ x v e. or_refused-Safe x v)
