-- ===== src/Worker/Memory.antt =====
-- internal/queue/memhash.go: the checkpoint of a job, sealed with the job's key; and the key store's
-- `Ensure` and `Load` of internal/seal/keys.go.
use cold_harbour.Common.{
  ℕ, suc, ◌==◌, false, Option, none, some, Text, if◌then◌else◌, update, update_text,
}
use cold_harbour.Policy.{ℤ}
use cold_harbour.Worker.Stream.{print_decimal, is_blank}
use cold_harbour.Worker.Stores.{
  World, KeyRow, MemHash, Io, ◌>>=◌, give, fail, call, key_destroyed, bad_checkpoint,
}
use cold_harbour.Worker.Deps.{Deps, Object, atoi}

-- What a key row answers.
pub data KeyState : Type 0 where
  no_key destroyed_key : KeyState
  live : Text → KeyState

abbrev pub key_state : Option KeyRow → KeyState
key_state none = no_key
key_state (some row) = if row.destroyed then destroyed_key else live row.material

-- `KeyStore.Load`
unfoldable pub load_key : ℕ → Io KeyState
load_key id = call (λ w. key_state (w.keys id)) (λ w. w)

-- `KeyStore.Ensure`: a row is made if there is none.
abbrev pub ensured_row : Text → Option KeyRow → KeyRow
ensured_row fresh none = record { material = fresh; destroyed = false; destroyed_at = 0 }
ensured_row fresh (some row) = row

abbrev pub ensured : ℕ → Text → World → World
ensured id fresh w = record w { keys = update w.keys id (some (ensured_row fresh (w.keys id))) }

unfoldable pub material_of : KeyRow → Io Text
material_of row = if row.destroyed then fail key_destroyed else give row.material

unfoldable pub ensure_key : Deps → ℕ → Io Text
unfolding material_of
ensure_key d id =
    call (λ w. ensured_row (d.new_key id) (w.keys id)) (ensured id (d.new_key id)) >>= material_of

-- The end of `load`: the map is opened and decoded.
abbrev pub decoded : ℤ → Text → Option Object → Io (Option (ℤ × Text))
decoded n text none = fail bad_checkpoint
decoded n text (some o) = give (some (n, text))

abbrev pub opened : Deps → ℤ → Option Text → Io (Option (ℤ × Text))
opened d n none = fail bad_checkpoint
opened d n (some text) = decoded n text (d.decode text)

unfoldable pub read_step : Deps → Text → MemHash → Option ℤ → Io (Option (ℤ × Text))
unfolding ensure_key
read_step d job row none = fail bad_checkpoint
read_step d job row (some n) =
    if is_blank row.partial_result
    then fail bad_checkpoint
    else (ensure_key d (d.signer.durable job) >>= λ key.
        opened d n (d.unseal key row.partial_result))

unfoldable pub read_hash : Deps → Text → Option MemHash → Io (Option (ℤ × Text))
unfolding read_step atoi
read_hash d job none = give none
read_hash d job (some row) =
    if is_blank row.step then give none else read_step d job row (atoi row.step)

-- `memHash.load`
unfoldable pub load_state : Deps → Text → Io (Option (ℤ × Text))
unfolding read_hash
load_state d job = call (λ w. w.checkpoints job) (λ w. w) >>= read_hash d job

-- `HSET`, behind `HINCRBY` for the first step.
abbrev pub step1_of : Option MemHash → ℕ
step1_of none = 0
step1_of (some row) = row.step1

abbrev pub saved : Text → ℕ → Text → World → World
saved job step sealed w = record w {
  checkpoints = update_text w.checkpoints job (
      some (record {
        step = print_decimal 20 step;
        partial_result = sealed;
        step1 =
            (if step == 1
              then suc (step1_of (w.checkpoints job))
              else step1_of (w.checkpoints job));
      }));
}

-- `memHash.saveStep1`, and `memHash.save` for any other step.
unfoldable pub save_state : Deps → Text → ℕ → Text → Io (Unit {0})
unfolding ensure_key print_decimal
save_state d job step partial = ensure_key d (d.signer.durable job) >>= λ key.
    call (λ w. tt) (saved job step (d.seal key partial))
