-- ===== src/Sentinel/Settings.antt =====
-- cmd/sentinel/policy.go: where the policy in force comes from, its cache on disk, and the loop that asks
-- for it again.
pub mod InForce
pub mod Outage
use cold_harbour.Common.{
  ℕ, ◌^◌, ◌≡◌, Bool, true, false, Option, none, some, List, [], ◌∷◌, ◌++◌, Text, codes,
  if◌then◌else◌, ◌==◌, take,
}
use cold_harbour.Detect.Span.{Kind}
use cold_harbour.Detect.Apply.{Mode, other}
use cold_harbour.Policy.{ℤ, pos, FailPolicy, Doc, Parsed, accepted, rejected, parse, at_least_one}
use cold_harbour.Sentinel.Handoff.{or_redact}
use cold_harbour.Sentinel.Mask.{or_closed}

-- `maskSettings`
pub record MaskSettings : Type 0 where
  pub max_inline : ℤ
  pub kinds : List Kind
  pub mode : Mode
  pub fail_policy : FailPolicy
  pub etag : Text
  pub version : ℤ

-- `settingsFrom`
unfoldable pub settings_from : Doc → Text → MaskSettings
settings_from doc etag = record {
  max_inline = if at_least_one doc.max_inline_bytes then doc.max_inline_bytes else pos 65536;
  kinds = doc.detectors;
  mode = or_redact doc.mode;
  fail_policy = or_closed doc.fail_policy;
  etag = etag;
  version = doc.version;
}

-- The answer of the control plane: its status, the header `ETag` and the body.
pub record PolicyResponse : Type 0 where
  pub status : ℕ
  pub etag : Text
  pub body : Text

-- encoding/json: the decoder of a policy, and the text of a cached one with its decoder.
pub record Json : Type 0 where
  pub decode : Text → Option Doc
  pub encode_cache : Text → Doc → Text
  pub decode_cache : Text → Option (Text × Doc)
  -- A document that was decoded is read back from the cache it is written to.
  pub cache_decodes :
      (raw etag : Text) (doc : Doc)
      → decode raw ≡ some doc
      → decode_cache (encode_cache etag doc) ≡ some (etag, doc)

pub data Fetched : Type 0 where
  fetched : Doc → Text → Fetched
  unchanged : Text → Fetched
  not_fetched : Fetched

-- How the write of the cache ends; a text that is cut short is no JSON object.
pub data Write (j : Json) : Type 0 where
  written not_written : Write j
  cut_short : (t : Text) → j.decode_cache t ≡ none → Write j

-- The policy file of the command line.
pub data FileDoc : Type 0 where
  no_file bad_file : FileDoc
  file_doc : Doc → FileDoc

-- `Doc{}`
abbrev pub empty_doc : Doc
empty_doc = record {
  version = pos 0;
  detectors = [];
  mode = other [];
  fail_policy = FailPolicy.other [];
  max_inline_bytes = pos 0;
}

abbrev pub fetched_as : Text → Parsed → Fetched
fetched_as etag (accepted doc) = fetched doc etag
fetched_as etag (rejected f) = not_fetched

abbrev pub doc_of : Parsed → FileDoc
doc_of (accepted doc) = file_doc doc
doc_of (rejected f) = bad_file

abbrev pub doc_of_file : FileDoc → Option (Text × Doc)
doc_of_file (file_doc doc) = some ([], doc)
doc_of_file _ = none

abbrev pub or_else : Option (Text × Doc) → Option (Text × Doc) → Option (Text × Doc)
or_else none x = x
or_else (some p) x = some p

module _ (j : Json) where
  -- `fetchPolicy`, on the answer to its request, which holds `etag` as `If-None-Match` if it is not empty.
  unfoldable pub fetch_policy : Text → Option PolicyResponse → Fetched
  fetch_policy etag none = not_fetched
  fetch_policy etag (some r) =
      if r.status == 304
      then unchanged etag
      else if r.status == 200
      then fetched_as r.etag (parse j.decode (take (2 ^ 20) r.body))
      else not_fetched

  -- `writeCache`, by the directory and what is on the disk.
  unfoldable pub write_cache : Text → Doc → Text → Write j → Option Text → Option Text
  write_cache [] doc etag w disk = disk
  write_cache (c ∷ cs) doc etag written disk = some (j.encode_cache etag doc)
  write_cache (c ∷ cs) doc etag not_written disk = disk
  write_cache (c ∷ cs) doc etag (cut_short t h) disk = some t

  abbrev pub decoded_cache : Option Text → Option (Text × Doc)
  decoded_cache none = none
  decoded_cache (some t) = j.decode_cache t

  -- `readCache`
  unfoldable pub read_cache : Text → Option Text → Option (Text × Doc)
  read_cache [] disk = none
  read_cache (c ∷ cs) disk = decoded_cache disk

  -- `readDoc`, on the file's contents.
  unfoldable pub read_doc : Option Text → FileDoc
  read_doc none = bad_file
  read_doc (some raw) = doc_of (parse j.decode raw)

  -- `loadInitial` with a control plane; a status 304 to a request without an ETag would give `Doc{}`.
  unfoldable pub load_from :
      Text → Fetched → FileDoc → Write j → Option Text → Option (Text × Doc) × Option Text
  unfolding write_cache read_cache
  load_from dir (fetched doc etag) file w disk = (some (etag, doc), write_cache dir doc etag w disk)
  load_from dir (unchanged etag) file w disk =
      (some (etag, empty_doc), write_cache dir empty_doc etag w disk)
  load_from dir not_fetched file w disk = (or_else (read_cache dir disk) (doc_of_file file), disk)

  abbrev pub file_of : Option (Option Text) → FileDoc
  file_of none = no_file
  file_of (some contents) = read_doc contents

  unfoldable pub load_with :
      Text
      → Text
      → FileDoc
      → Option PolicyResponse
      → Write j
      → Option Text
      → Option (Text × Doc) × Option Text
  unfolding load_from fetch_policy
  load_with url dir bad_file r w disk = (none, disk)
  load_with [] dir file r w disk = (doc_of_file file, disk)
  load_with (c ∷ cs) dir file r w disk = load_from dir (fetch_policy [] r) file w disk

  -- `loadInitial`, with the contents of the policy file, if one is named and can be read, and the answer
  -- to its request: the policy and its ETag, or an error; and the disk.
  unfoldable pub load_initial :
      Text
      → Text
      → Option (Option Text)
      → Option PolicyResponse
      → Write j
      → Option Text
      → Option (Text × Doc) × Option Text
  unfolding load_with read_doc
  load_initial url dir contents r w disk = load_with url dir (file_of contents) r w disk

  -- `poll`, on one tick: the settings in force, and the disk.
  unfoldable pub polled :
      Text → Fetched → Write j → MaskSettings → Option Text → MaskSettings × Option Text
  unfolding settings_from write_cache
  polled dir (fetched doc etag) w st disk =
      (settings_from doc etag, write_cache dir doc etag w disk)
  polled dir _ w st disk = (st, disk)

  unfoldable pub poll_once :
      Text
      → Option PolicyResponse
      → Write j
      → MaskSettings
      → Option Text
      → MaskSettings × Option Text
  unfolding fetch_policy polled
  poll_once dir r w st disk = polled dir (fetch_policy st.etag r) w st disk
