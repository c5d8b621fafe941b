-- ===== src/Sentinel/Settings/InForce.antt =====
-- Which policies come into force.
use cold_harbour.Common.{
  ◌≡◌, ◌≢◌, refl, sym, subst, ◌∙◌, Bool, true, false, Option, none, some, [], ◌∷◌, Text, ◌==◌,
  arith, take, ◌^◌, if◌then◌else◌,
}
use cold_harbour.Detect.Apply.{Mode, redact, partial, tokenize, other}
use cold_harbour.Policy.{
  FailPolicy, closed, inline, open_lines, Doc, Parsed, accepted, rejected, parse, mode_allowed,
  fail_policy_allowed,
}
use cold_harbour.Policy.Validation.{
  IsValid, parse-accepted, room-at_least_one, OneOf-mode_allowed, OneOf-fail_policy_allowed,
}
use cold_harbour.Sentinel.Handoff.{or_redact}
use cold_harbour.Sentinel.Mask.{or_closed}
use cold_harbour.Sentinel.Settings.{
  MaskSettings, settings_from, PolicyResponse, Json, Fetched, fetched, unchanged, not_fetched,
  Write, written, not_written, cut_short, FileDoc, no_file, bad_file, file_doc, fetched_as,
  fetch_policy, write_cache, decoded_cache, read_cache, doc_of, read_doc, doc_of_file, or_else,
  load_from, file_of, load_with, load_initial, polled, poll_once,
}

-- The settings are those of a document that `Parse` accepts: the defaults for what is missing are not
-- used.
pub record Usable (st : MaskSettings) : Type 0 where
  pub doc : Doc
  pub is_valid : IsValid doc
  pub max_inline : st.max_inline ≡ doc.max_inline_bytes
  pub kinds : st.kinds ≡ doc.detectors
  pub mode : st.mode ≡ doc.mode
  pub fail_policy : st.fail_policy ≡ doc.fail_policy
  pub version : st.version ≡ doc.version

or_redact-allowed : (m : Mode) → mode_allowed m ≡ true → or_redact m ≡ m
unfolding mode_allowed
or_redact-allowed redact h = refl
or_redact-allowed partial h = refl
or_redact-allowed tokenize h = refl
or_redact-allowed (other t) h = absurd (ground arith)

or_closed-allowed : (p : FailPolicy) → fail_policy_allowed p ≡ true → or_closed p ≡ p
unfolding fail_policy_allowed
or_closed-allowed closed h = refl
or_closed-allowed inline h = refl
or_closed-allowed open_lines h = refl
or_closed-allowed (FailPolicy.other t) h = absurd (ground arith)

settings_from-Usable : (doc : Doc) (etag : Text) → IsValid doc → Usable (settings_from doc etag)
unfolding settings_from
settings_from-Usable doc etag v = record {
  doc = doc;
  is_valid = v;
  max_inline = rw (room-at_least_one doc.max_inline_bytes v.room);
  kinds = refl;
  mode = or_redact-allowed doc.mode (OneOf-mode_allowed doc.mode v.mode);
  fail_policy =
      or_closed-allowed doc.fail_policy (OneOf-fail_policy_allowed doc.fail_policy v.fail_policy);
  version = refl;
}

none-some : {A : Type 0} {a : A} → none ≢ some a
none-some e = cc

module _ (j : Json) where
  ValidOr : Option (Text × Doc) → Type 0
  ValidOr none = Unit
  ValidOr (some (etag, doc)) = IsValid doc

  -- What the cache holds, if it can be read, is a document that `Parse` accepts.
  abbrev pub Trusted : Option Text → Type 0
  Trusted disk = (etag : Text) (doc : Doc) → decoded_cache j disk ≡ some (etag, doc) → IsValid doc

  abbrev pub FromJson : Doc → Type 0
  FromJson doc = (raw : Text) × (j.decode raw ≡ some doc)

  ValidFetched : Fetched → Type 0
  ValidFetched (fetched doc etag) = IsValid doc × FromJson doc
  ValidFetched _ = Unit

  write_cache-Trusted :
      (dir : Text) (doc : Doc) (etag : Text) (w : Write j) (disk : Option Text)
      → IsValid doc × FromJson doc
      → Trusted disk
      → Trusted (write_cache j dir doc etag w disk)
  unfolding write_cache ValidOr
  write_cache-Trusted [] doc etag w disk v h = h
  write_cache-Trusted (c ∷ cs) doc etag written disk v h = λ e d same.
      let (raw, from) = v.1 in subst ValidOr (sym (j.cache_decodes raw etag doc from) ∙ same) v.0
  write_cache-Trusted (c ∷ cs) doc etag not_written disk v h = h
  write_cache-Trusted (c ∷ cs) doc etag (cut_short t broken) disk v h =
      λ e d same. absurd (none-some (sym broken ∙ same))

  parsed-Valid :
      (etag raw : Text) (x : Parsed)
      → parse j.decode raw ≡ x
      → ValidFetched (fetched_as etag x) × ValidOr (doc_of_file (doc_of x))
  unfolding ValidFetched ValidOr
  parsed-Valid etag raw (accepted doc) e =
      let (decoded, v) = (parse-accepted j.decode raw doc).0 e in ((v, (raw, decoded)), v)
  parsed-Valid etag raw (rejected f) e = (tt, tt)

  if-Valid :
      (b : Bool) (x y : Fetched)
      → ValidFetched x
      → ValidFetched y
      → ValidFetched (if b then x else y)
  if-Valid true x y g k = g
  if-Valid false x y g k = k

  fetch_policy-Valid :
      (etag : Text) (r : Option PolicyResponse) → ValidFetched (fetch_policy j etag r)
  unfolding fetch_policy ValidFetched
  fetch_policy-Valid etag none = tt
  fetch_policy-Valid etag (some r) =
      let raw = take (2 ^ 20) r.body in
      if-Valid (r.status == 304) (unchanged etag) _ tt (
        if-Valid (r.status == 200) _ not_fetched
          (parsed-Valid r.etag raw (parse j.decode raw) refl).0 tt)

  pub fetched-FromJson :
      (etag : Text) (r : Option PolicyResponse) (doc : Doc) (etag' : Text)
      → fetch_policy j etag r ≡ fetched doc etag'
      → IsValid doc × FromJson doc
  unfolding ValidFetched
  fetched-FromJson etag r doc etag' e = subst ValidFetched e (fetch_policy-Valid etag r)

  read_cache-Valid :
      (dir : Text) (disk : Option Text) → Trusted disk → ValidOr (read_cache j dir disk)
  unfolding read_cache ValidOr
  read_cache-Valid [] disk h = tt
  read_cache-Valid (c ∷ cs) disk h = go (decoded_cache j disk) refl
    where
      go : (x : Option (Text × Doc)) → decoded_cache j disk ≡ x → ValidOr x
      go none e = tt
      go (some (etag, doc)) e = h etag doc e

  file_of-Valid : (contents : Option (Option Text)) → ValidOr (doc_of_file (file_of j contents))
  unfolding read_doc ValidOr
  file_of-Valid none = tt
  file_of-Valid (some none) = tt
  file_of-Valid (some (some raw)) = (parsed-Valid [] raw (parse j.decode raw) refl).1

  or_else-Valid : (x y : Option (Text × Doc)) → ValidOr x → ValidOr y → ValidOr (or_else x y)
  or_else-Valid none y g k = k
  or_else-Valid (some p) y g k = g

  -- HTTP: a server answers 304 only to a request that holds `If-None-Match`.
  abbrev pub Conditional : Option PolicyResponse → Type 0
  Conditional r = (etag : Text) → fetch_policy j [] r ≢ unchanged etag

  load_from-Valid :
      (dir : Text) (f : Fetched) (file : FileDoc) (w : Write j) (disk : Option Text)
      → ((etag : Text) → f ≢ unchanged etag)
      → ValidFetched f
      → ValidOr (doc_of_file file)
      → Trusted disk
      → let done = load_from j dir f file w disk in ValidOr done.0 × Trusted done.1
  unfolding load_from ValidFetched ValidOr
  load_from-Valid dir (fetched doc etag) file w disk n v g h =
      (v.0, write_cache-Trusted dir doc etag w disk v h)
  load_from-Valid dir (unchanged etag) file w disk n v g h = absurd (n etag refl)
  load_from-Valid dir not_fetched file w disk n v g h =
      (or_else-Valid (read_cache j dir disk) (doc_of_file file) (read_cache-Valid dir disk h) g, h)

  load_with-Valid :
      (url dir : Text) (file : FileDoc) (r : Option PolicyResponse) (w : Write j)
      (disk : Option Text)
      → Conditional r
      → ValidOr (doc_of_file file)
      → Trusted disk
      → let done = load_with j url dir file r w disk in ValidOr done.0 × Trusted done.1
  unfolding load_with ValidOr
  load_with-Valid url dir bad_file r w disk n g h = (tt, h)
  load_with-Valid [] dir no_file r w disk n g h = (g, h)
  load_with-Valid [] dir (file_doc doc) r w disk n g h = (g, h)
  load_with-Valid (c ∷ cs) dir no_file r w disk n g h =
      load_from-Valid dir (fetch_policy j [] r) no_file w disk n (fetch_policy-Valid [] r) g h
  load_with-Valid (c ∷ cs) dir (file_doc doc) r w disk n g h =
      load_from-Valid dir (fetch_policy j [] r) (file_doc doc) w disk n (fetch_policy-Valid [] r) g
        h

  polled-Usable :
      (dir : Text) (f : Fetched) (w : Write j) (st : MaskSettings) (disk : Option Text)
      → ValidFetched f
      → Usable st
      → Trusted disk
      → let done = polled j dir f w st disk in Usable done.0 × Trusted done.1
  unfolding polled ValidFetched
  polled-Usable dir (fetched doc etag) w st disk v u h =
      (settings_from-Usable doc etag v.0, write_cache-Trusted dir doc etag w disk v h)
  polled-Usable dir (unchanged etag) w st disk v u h = (u, h)
  polled-Usable dir not_fetched w st disk v u h = (u, h)

  -- A process from its start on: `loadInitial`, then `poll` tick by tick.
  pub data Serves (url dir : Text) : MaskSettings → Option Text → Type 0 where
    loaded :
        (contents : Option (Option Text)) (r : Option PolicyResponse) (w : Write j)
        (disk : Option Text) (etag : Text) (doc : Doc) (disk' : Option Text)
        → Conditional r
        → Trusted disk
        → load_initial j url dir contents r w disk ≡ (some (etag, doc), disk')
        → Serves url dir (settings_from doc etag) disk'
    ticked :
        (st : MaskSettings) (disk : Option Text) (r : Option PolicyResponse) (w : Write j)
        → Serves url dir st disk
        → Serves url dir (poll_once j dir r w st disk).0 (poll_once j dir r w st disk).1

  Serves-Usable :
      {url dir : Text} {st : MaskSettings} {disk : Option Text}
      → Serves url dir st disk
      → Usable st × Trusted disk
  unfolding load_initial poll_once ValidOr
  Serves-Usable {url} {dir} (loaded contents r w disk etag doc disk' n h e) =
      let (v, h') =
        subst (λ t. ValidOr t.0 × Trusted t.1) e
          (load_with-Valid url dir (file_of j contents) r w disk n (file_of-Valid contents) h) in
      (settings_from-Usable doc etag v, h')
  Serves-Usable {url} {dir} (ticked st disk r w s) =
      let (u, h) = Serves-Usable s in
      polled-Usable dir (fetch_policy j st.etag r) w st disk (fetch_policy-Valid st.etag r) u h

-- If the cache on disk holds a document that `Parse` accepts, or nothing that decodes, when a process
-- starts, and no server answers 304 to its first request: then in all its life, whatever the answers and
-- however writes of the cache end, the settings in force are those of a document that `Parse` accepts, no
-- default used, and the cache is as it was required to be.
pub settings_in_force :
    (j : Json) (url dir : Text) (st : MaskSettings) (disk : Option Text)
    → Serves j url dir st disk
    → Usable st × Trusted j disk
settings_in_force j url dir st disk s = Serves-Usable j s
