-- ===== src/Api/Links.antt =====
-- internal/api/delivery.go: links under which the output of a job is shown a limited number of occurrences.
pub mod Bounded
use cold_harbour.Common.{
  ℕ, suc, ◌+◌, ◌*◌, ◌^◌, Bool, true, false, ◌&&◌, ◌||◌, not, Option, none, some, List, [], ◌∷◌,
  ◌++◌, Text, codes, ltb, leb, ◌==◌, if◌then◌else◌, text_eq, update_text,
}
use cold_harbour.Journal.{JobRow, StoredOutput, JournalDb}
use cold_harbour.Worker.Stream.{is_blank, all_decimal, decimal_value}
use cold_harbour.Worker.Stores.{Fault, fine, lost, no_reply}

-- A row of `delivery_links`.
pub record Link : Type 0 where
  pub job_id : Text
  pub tenant : Text
  pub expires_at : ℕ
  pub max_views : ℕ
  pub view_count : ℕ

-- `job_accepts`, the journal's tables, `delivery_links` by `token_hash` and `delivery_link_accesses`.
pub record LinkDb : Type 0 where
  pub accepted : Text → Text → Bool
  pub journal : JournalDb
  pub links : Text → Option Link
  pub accesses : List Text

-- What the row of an output and its job's row give.
pub record Delivered : Type 0 where
  pub result : Text
  pub tenant_id : Text
  pub signature : Text
  pub signing_key_id : Text

pub data LinkReply : Type 0 where
  created : Text → Text → ℕ → LinkReply
  shown : Delivered → LinkReply
  bad_field : Text → LinkReply
  not_found gone forbidden no_output unavailable : LinkReply

-- The calls that may fail.
pub data Query : Type 0 where
  find_job find_output draw_token insert_row start find_link read_output count_view log_access
        commit :
      Query

-- `parseInstant`, the digest in hex, the UUID of a job, and what a time column keeps of a time.
pub record LinkDeps : Type 0 where
  pub parse_instant : Text → Option ℕ
  pub sha256_hex : Text → Text
  pub durable : Text → ℕ
  pub stored_time : ℕ → ℕ

-- Thirty days in nanoseconds.
abbrev pub longest_life : ℕ
longest_life = 30 * 24 * 3600 * 1000000000

abbrev pub works : Fault → Bool
works fine = true
works _ = false

-- `parseViews`: with a minus before it, no number is at least one.
unfoldable pub parse_views : Text → Option ℕ
unfolding all_decimal decimal_value
parse_views raw =
    let digits = unsigned raw in
    let n = decimal_value 0 digits in
    if is_blank digits || not (all_decimal digits) || ltb n 1 || ltb 100 n then none else some n
  where
    unsigned : Text → Text
    unsigned [] = []
    unsigned (c ∷ cs) = if c == b'+' then cs else c ∷ cs

abbrev pub has_output : Text → Text → Option StoredOutput → Bool
has_output id tenant none = false
has_output id tenant (some o) = text_eq o.tenant_id tenant

-- The join of `outputs` and `jobs`, both of the link's tenant.
unfoldable pub joined : Text → Option StoredOutput → Option JobRow → Option Delivered
joined tenant (some o) (some j) =
    if text_eq o.tenant_id tenant && text_eq j.tenant_id tenant
    then some (record {
      result = o.body;
      tenant_id = o.tenant_id;
      signature = j.output_signature;
      signing_key_id = j.signing_key_id;
    })
    else none
joined tenant _ _ = none

-- The two statements that a view writes.
abbrev pub viewed : Text → Link → LinkDb → LinkDb
viewed hash link db = record db {
  links = update_text db.links hash (some (record link { view_count = suc link.view_count }));
  accesses = db.accesses ++ hash ∷ [];
}

module _ (d : LinkDeps) where
  -- `parseExpiry`
  unfoldable pub parse_expiry : ℕ → Text → Option ℕ
  parse_expiry now raw = elim (d.parse_instant raw) [
    | none ↦ none
    | some at ↦ if ltb now at && leb at (now + longest_life) then some at else none
  ]

  abbrev pub with_link : Text → Link → LinkDb → LinkDb
  with_link token link db = record db {
    links = update_text db.links (d.sha256_hex token) (some link);
  }

  -- The `INSERT` of a link; `token_hash` is the primary key.
  unfoldable pub insert_link :
      Text → Text → Link → Option Link → Fault → LinkDb → LinkReply × LinkDb
  insert_link token expiry link none fine db =
      (created token expiry link.max_views, with_link token link db)
  insert_link token expiry link none no_reply db = (unavailable, with_link token link db)
  insert_link token expiry link _ _ db = (unavailable, db)

  module _ (calls : Query → Fault) (now : ℕ) where
    unfoldable pub create_for :
        Text → Text → Text → Text → Option ℕ → Option ℕ → LinkDb → LinkReply × LinkDb
    unfolding insert_link
    create_for token id tenant expiry none views db = (bad_field (codes "expiresAt"), db)
    create_for token id tenant expiry (some at) none db = (bad_field (codes "maxViews"), db)
    create_for token id tenant expiry (some at) (some views) db =
        let link : Link = record {
          job_id = id;
          tenant = tenant;
          expires_at = d.stored_time at;
          max_views = views;
          view_count = 0;
        } in
        if not (works (calls find_output) && has_output id tenant (db.journal.outputs id))
        then (no_output, db)
        else if not (works (calls draw_token))
        then (unavailable, db)
        else insert_link token expiry link (db.links (d.sha256_hex token)) (calls insert_row) db

    unfoldable pub create_read :
        Text → Text → Text → Option (Text → Text) → LinkDb → LinkReply × LinkDb
    unfolding create_for parse_expiry parse_views
    create_read token id tenant none db = (bad_field (codes "expiresAt"), db)
    create_read token id tenant (some body) db =
        let expiry = body (codes "expiresAt") in
        create_for token id tenant expiry (parse_expiry now expiry)
          (parse_views (body (codes "maxViews"))) db

    -- `createLink`, with the token that it draws and the body that `readJSON` reads.
    unfoldable pub create_link :
        Text → Text → Text → Option (Text → Text) → LinkDb → LinkReply × LinkDb
    unfolding create_read
    create_link token id tenant body db =
        if works (calls find_job) && db.accepted id tenant
        then create_read token id tenant body db
        else (not_found, db)

    -- The end of the transaction: without its answer it may be written all the same.
    unfoldable pub commit_view : Text → Link → Delivered → Fault → LinkDb → LinkReply × LinkDb
    commit_view hash link o fine db = (shown o, viewed hash link db)
    commit_view hash link o lost db = (unavailable, db)
    commit_view hash link o no_reply db = (unavailable, viewed hash link db)

    unfoldable pub show_output : Text → Link → Option Delivered → LinkDb → LinkReply × LinkDb
    unfolding commit_view
    show_output hash link none db = (no_output, db)
    show_output hash link (some o) db =
        if works (calls count_view) && works (calls log_access)
        then commit_view hash link o (calls commit) db
        else (unavailable, db)

    unfoldable pub open_found : Text → Option Link → LinkDb → LinkReply × LinkDb
    unfolding show_output joined
    open_found hash none db = (not_found, db)
    open_found hash (some link) db =
        let row =
          joined link.tenant (db.journal.outputs link.job_id)
            (db.journal.jobs (d.durable link.job_id)) in
        if leb link.expires_at now
        then (gone, db)
        else if leb link.max_views link.view_count
        then (forbidden, db)
        else if works (calls read_output)
        then show_output hash link row db
        else (unavailable, db)

    -- `openLink`
    unfoldable pub open_link : Text → LinkDb → LinkReply × LinkDb
    unfolding open_found
    open_link token db =
        let hash = d.sha256_hex token in
        if works (calls start) && works (calls find_link)
        then open_found hash (db.links hash) db
        else (unavailable, db)
