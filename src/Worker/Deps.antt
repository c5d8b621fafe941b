-- ===== src/Worker/Deps.antt =====
-- What the worker takes from elsewhere, and the data of internal/queue that it passes around.
use cold_harbour.Common.{
  ℕ, ◌^◌, ◌≡◌, Bool, false, ◌&&◌, not, Option, none, some, List, [], ◌∷◌, Text, codes, ltb, leb,
  ◌==◌, text_eq, if◌then◌else◌, zero, suc,
}
use cold_harbour.Policy.{ℤ, pos, negsuc}
use cold_harbour.Journal.{Hashes}
use cold_harbour.Worker.Stream.{StreamId, stream_id_string, all_decimal, decimal_value, is_blank}
use cold_harbour.Worker.Retries.{Fields, Lanes, same_id}
use cold_harbour.Worker.Retries.Orderly.{Fresh}
use cold_harbour.Worker.Purge.{Signer, CrashPoint}

-- A value of a JSON object: a string, or the text of anything else.
pub data Value : Type 0 where
  string raw : Text → Value

abbrev pub Object : Type 0
Object = List (Text × Value)

-- What a job's runner does: it ends with an output, given by its JSON text, or with an error; or it
-- saves a checkpoint and goes on. When the save fails, it ends with that error, as both runners of the
-- repository do.
pub data Run : Type 0 where
  output : Text → Run
  broken : Run
  save : ℕ → Text → Run → Run

-- `runner.JobRunner`, with the saved step and map that its checkpoint recorder shows it.
pub record Runner : Type 0 where
  pub job_type : Text
  pub start : Object → Option (ℤ × Text) → Run

-- `Hooks`; a hook that is missing answers `false`.
pub record Hooks : Type 0 where
  pub crash_after_step1 : Text → Bool
  pub crash_after_record : Text → Bool
  pub crash_after_key_destroy : Text → Bool
  pub fail : Text → Bool

-- The UUIDs and the purge signature; SHA-256 of a body; what the columns of the journal keep and take; the signature of an output; a fresh key; AES-GCM;
-- the decoder of a JSON object; the JSON of an error; the registry of runners; the identifier that `XADD`
-- gives a new entry; and the hooks.
pub record Deps : Type 0 where
  pub signer : Signer
  pub checksum_of : Text → Text
  pub stored_time : ℕ → ℕ
  pub uuid_text : Text → Option Text
  pub is_tenant : Text → Bool
  pub is_text : Text → Bool
  pub sign_output : Text → Text → Text → Text
  pub new_key : ℕ → Text
  pub seal : Text → Text → Text
  pub unseal : Text → Text → Option Text
  pub decode : Text → Option Object
  pub error_body : Text → Text
  pub registry : Text → Option Runner
  pub fresh_id : Lanes → StreamId → StreamId
  pub hooks : Hooks
  -- What was sealed with a key is opened with it.
  pub seal_opens : (key plain : Text) → unseal key (seal key plain) ≡ some plain
  -- `XADD` never gives an identifier that an entry has, or had before.
  pub fresh_differs :
      (l : Lanes) (old : StreamId)
      → (same_id (fresh_id l old) old ≡ false) × Fresh (fresh_id l old) l.main

abbrev pub hashes : Deps → Hashes
hashes d = record {
  durable = d.signer.durable;
  checksum_of = d.checksum_of;
  stored_time = d.stored_time;
  uuid_text = d.uuid_text;
  is_tenant = d.is_tenant;
  is_text = d.is_text;
}

-- `Job`, without the type, which the worker reads from the fields.
pub record Job : Type 0 where
  pub id : Text
  pub input : Text
  pub tenant_id : Text

-- `claimed`
pub record Claimed : Type 0 where
  pub entry : StreamId
  pub job : Job
  pub crash : CrashPoint
  pub fail : Bool
  pub fields : Fields

-- A field of an entry; empty if it is missing, as in Go.
unfoldable pub field : Text → Fields → Text
field name [] = []
field name ((k, v) ∷ rest) = let later = field name rest in if text_eq k name then v else later

abbrev pub or_default : Text → Text → Text
or_default [] d = d
or_default (c ∷ cs) d = c ∷ cs

pub data ParsedJob : Type 0 where
  job_of : Job → ParsedJob
  missing_input missing_tenant : ParsedJob

-- `parseJob`
unfoldable pub parse_job : StreamId → Fields → ParsedJob
unfolding field stream_id_string
parse_job entry fields =
    let input = field (codes "input") fields in
    let tenant = field (codes "tenant_id") fields in
    if is_blank input
    then missing_input
    else if is_blank tenant
    then missing_tenant
    else job_of (record {
      id = or_default (field (codes "id") fields) (stream_id_string entry);
      input = input;
      tenant_id = tenant;
    })

-- `strconv.Atoi`: a sign, and digits of a 64-bit number.
abbrev pub positive : Text → Option ℤ
positive ds =
    if not (is_blank ds) && all_decimal ds && ltb (decimal_value 0 ds) (2 ^ 63)
    then some (pos (decimal_value 0 ds))
    else none

abbrev pub negate : ℕ → ℤ
negate zero = pos 0
negate (suc n) = negsuc n

abbrev pub negative : Text → Option ℤ
negative ds =
    if not (is_blank ds) && all_decimal ds && leb (decimal_value 0 ds) (2 ^ 63)
    then some (negate (decimal_value 0 ds))
    else none

unfoldable pub atoi : Text → Option ℤ
unfolding all_decimal decimal_value
atoi [] = none
atoi (c ∷ cs) =
    if c == b'-' then negative cs else if c == b'+' then positive cs else positive (c ∷ cs)

-- `jobInput`: the object that the input is, or one that holds it, with the tenant.
abbrev pub object_or : Text → Option Object → Object
object_or text none = (codes "input", string text) ∷ []
object_or text (some o) = o

unfoldable pub put_field : Text → Value → Object → Object
put_field name v [] = (name, v) ∷ []
put_field name v ((k, u) ∷ rest) =
    let later = put_field name v rest in if text_eq k name then (k, v) ∷ rest else (k, u) ∷ later

unfoldable pub job_input : Deps → Text → Text → Object
unfolding put_field
job_input d text [] = object_or text (d.decode text)
job_input d text (c ∷ cs) =
    put_field (codes "tenantId") (string (c ∷ cs)) (object_or text (d.decode text))
