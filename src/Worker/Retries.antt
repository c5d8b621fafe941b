-- ===== src/Worker/Retries.antt =====
-- internal/queue/dlq.go: the script that gives a failed job another try or buries it.
pub mod Bounded
pub mod Orderly
use cold_harbour.Common.{
  ℕ, suc, Bool, true, false, ◌&&◌, not, Option, none, some, List, [], ◌∷◌, ◌++◌, Text, codes,
  text_eq, ltb, leb, ◌==◌, if◌then◌else◌, update_text,
}
use cold_harbour.Worker.Stream.{StreamId}

abbrev pub Fields : Type 0
Fields = List (Text × Text)

pub record Entry : Type 0 where
  pub id : StreamId
  pub fields : Fields

-- What the script touches: the jobs stream, the dead letters, and the retry counters by job.
pub record Lanes : Type 0 where
  pub main : List Entry
  pub dead : List Fields
  pub retries : Text → Option ℕ

pub data Settled : Type 0 where
  retry bury : Settled

abbrev pub same_id : StreamId → StreamId → Bool
same_id a b = a.millis == b.millis && a.seq == b.seq

-- `XACK` and `XDEL` of an entry.
unfoldable pub remove : StreamId → List Entry → List Entry
remove id [] = []
remove id (e ∷ es) = if same_id e.id id then remove id es else e ∷ remove id es

-- The loop that leaves the input out.
unfoldable pub without_input : Fields → Fields
without_input [] = []
without_input ((key, text) ∷ rest) =
    if text_eq key (codes "input") then without_input rest else (key, text) ∷ without_input rest

-- `XADD dlq`, if a field is left.
unfoldable pub bury_fields : List Fields → Fields → List Fields
bury_fields dead [] = dead
bury_fields dead (f ∷ fs) = dead ++ (f ∷ fs) ∷ []

-- The counter after `GET` and, below three, `INCR`.
unfoldable pub attempt : Option ℕ → ℕ
attempt none = 1
attempt (some n) = if leb 3 n then n else suc n

-- `XADD main`, with the identifier that Redis makes.
unfoldable pub try_again : Lanes → StreamId → Text → StreamId → ℕ → Fields → Lanes
unfolding remove
try_again l fresh job entry n fields = record {
  main = remove entry (l.main ++ (record { id = fresh; fields = fields }) ∷ []);
  dead = l.dead;
  retries = update_text l.retries job (some n);
}

unfoldable pub give_up : Lanes → Text → StreamId → Fields → Lanes
unfolding remove bury_fields without_input
give_up l job entry fields = record {
  main = remove entry l.main;
  dead = bury_fields l.dead (without_input fields);
  retries = update_text l.retries job none;
}

-- `settleScript`, as `settle` calls it.
unfoldable pub settle : Lanes → StreamId → Text → StreamId → Bool → Fields → (Settled × ℕ) × Lanes
unfolding attempt try_again give_up
settle l fresh job entry force fields =
    let n = if force then 3 else attempt (l.retries job) in
    if not force && ltb n 3
    then ((retry, n), try_again l fresh job entry n fields)
    else ((bury, n), give_up l job entry fields)

-- `peek`, and the test of `fail`: does it journal the job as failed before it settles it?
unfoldable pub is_last_try : Option ℕ → Bool
is_last_try none = false
is_last_try (some n) = leb 2 n
