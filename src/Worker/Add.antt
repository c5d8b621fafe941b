-- ===== src/Worker/Add.antt =====
-- internal/queue/stream.go, `Add`, and group.go, `enqueue`: a job put on the stream.
use cold_harbour.Common.{[], ◌∷◌, ◌++◌, Text, codes, if◌then◌else◌}
use cold_harbour.Worker.Stream.{StreamId, is_blank}
use cold_harbour.Worker.Retries.{Fields, Entry}
use cold_harbour.Worker.Stores.{World, Io, ◌>>=◌, fail, call, no_job_id}
use cold_harbour.Worker.Deps.{Deps, Job}
use cold_harbour.Worker.Memory.{ensure_key}

abbrev pub if_given : Text → Text → Fields → Fields
if_given name [] rest = rest
if_given name (c ∷ cs) rest = (name, c ∷ cs) ∷ rest

-- The map that `enqueue` builds.
unfoldable pub entry_fields : Text → Job → Fields
entry_fields job_type job =
    (codes "input", job.input)
    ∷ if_given (codes "id") job.id
        (if_given (codes "tenant_id") job.tenant_id (if_given (codes "job_type") job_type []))

-- `XADD`; the identifier 0-0 comes before every other.
abbrev pub first_id : StreamId
first_id = record { millis = 0; seq = 0 }

abbrev pub new_entry : Deps → Fields → World → Entry
new_entry d fields w = record { id = d.fresh_id w.lanes first_id; fields = fields }

abbrev pub enqueued : Deps → Fields → World → World
enqueued d fields w = record w {
  lanes = record (w.lanes) { main = w.lanes.main ++ new_entry d fields w ∷ [] };
}

-- `enqueue`
unfoldable pub enqueue : Deps → Text → Job → Io (Unit {0})
unfolding entry_fields
enqueue d job_type job = call (λ w. tt) (enqueued d (entry_fields job_type job))

-- `Add`
unfoldable pub add : Deps → Text → Job → Io (Unit {0})
unfolding ensure_key enqueue
add d job_type job =
    if is_blank job.id
    then fail no_job_id
    else (ensure_key d (d.signer.durable job.id) >>= λ key.
        enqueue d job_type (record job { input = d.seal key job.input }))
