-- ===== src/Api/Links/Bounded.antt =====
-- internal/api/delivery.go: how often the output behind a link is shown.
use cold_harbour.Common.{
  ℕ, suc, ◌≤◌, ◌≡◌, refl, ap, subst, ◌∙◌, Bool, ◌&&◌, not, Option, none, some, List, [], ◌∷◌, ◌++◌,
  Text, codes, leb, if◌then◌else◌, text_eq, text_eq-eq, Bool-cases, if-cases, inl, inr, arith,
}
use cold_harbour.Journal.{JournalDb}
use cold_harbour.Worker.Stores.{Fault, fine, lost, no_reply}
use cold_harbour.Api.Links.{
  Link, LinkDb, LinkDeps, Delivered, LinkReply, shown, Query, parse_views, insert_link, create_for,
  create_read, create_link, commit_view, show_output, open_found, open_link, works, has_output,
  find_output, draw_token, insert_row, find_job, viewed, with_link, count_view, log_access,
  read_output, start, find_link, commit,
}

-- How often a text stands in a list.
unfoldable pub occurrences : Text → List Text → ℕ
occurrences h [] = 0
occurrences h (t ∷ ts) = let rest = occurrences h ts in if text_eq h t then suc rest else rest

occurrences-snoc :
    (h t : Text) (ts : List Text) → occurrences h (ts ++ t ∷ []) ≡ occurrences h (t ∷ ts)
unfolding occurrences
occurrences-snoc h t [] = refl
occurrences-snoc h t (s ∷ ts) = let tail = occurrences-snoc h t ts in ground (arith, tail)

abbrev pub views : Option Link → ℕ
views none = 0
views (some l) = l.view_count

abbrev pub limit : Option Link → ℕ
limit none = 0
limit (some l) = l.max_views

-- The links whose output was given out, by their hashes.
unfoldable pub seen_after : Text → LinkReply → List Text → List Text
seen_after hash (shown o) seen = hash ∷ seen
seen_after hash _ seen = seen

-- The tables that creating and opening links lead to, from none; other requests change the rest.
pub data Reach (d : LinkDeps) : List Text → LinkDb → Type 0 where
  empty : (db : LinkDb) → db.links ≡ (λ h. none) → db.accesses ≡ [] → Reach d [] db
  link_made :
      {seen : List Text} {db : LinkDb}
      → Reach d seen db
      → (calls : Query → Fault) (now : ℕ) (token id tenant : Text) (body : Option (Text → Text))
      → Reach d seen (create_link d calls now token id tenant body db).1
  link_opened :
      {seen : List Text} {db : LinkDb}
      → Reach d seen db
      → (calls : Query → Fault) (now : ℕ) (token : Text)
      → Reach d
          (seen_after (d.sha256_hex token) (open_link d calls now token db).0 seen)
          (open_link d calls now token db).1
  elsewhere :
      {seen : List Text} {db : LinkDb}
      → Reach d seen db
      → (accepted : Text → Text → Bool) (journal : JournalDb)
      → Reach d seen (record db { accepted = accepted; journal = journal })

-- One link's numbers: what was given out, what was logged, what was counted, and the limit.
abbrev pub Within : Text → List Text → Option Link → List Text → Type 0
Within h seen o accesses =
    (occurrences h seen ≤ views o)
    × (occurrences h accesses ≡ views o)
    × (views o ≤ limit o)
    × (limit o ≤ 100)

abbrev Fits : List Text → LinkDb → Type 0
Fits seen db = (h : Text) → Within h seen (db.links h) db.accesses

parse_views-bounded : (raw : Text) (n : ℕ) → parse_views raw ≡ some n → n ≤ 100
unfolding parse_views
parse_views-bounded raw n e = ground arith

with_link-Fits :
    (d : LinkDeps) (token : Text) (link : Link) (seen : List Text) (db : LinkDb)
    → db.links (d.sha256_hex token) ≡ none
    → link.view_count ≡ 0
    → link.max_views ≤ 100
    → Fits seen db
    → Fits seen (with_link d token link db)
with_link-Fits d token link seen db free zero small fits h =
    elim (Bool-cases (text_eq h (d.sha256_hex token))) [
      | inl e ↦
          let same = text_eq-eq h (d.sha256_hex token) e in
          let before =
            subst (λ o. Within h seen o db.accesses) (ap (λ t. db.links t) same ∙ free) (fits h) in
          rw e (omega arith, omega arith, omega arith, small)
      | inr e ↦ rw e (fits h)
    ]

viewed-Fits :
    (hash : Text) (link : Link) (seen : List Text) (db : LinkDb)
    → db.links hash ≡ some link
    → suc link.view_count ≤ link.max_views
    → Fits seen db
    → Fits (hash ∷ seen) (viewed hash link db)
unfolding occurrences
viewed-Fits hash link seen db there room fits h =
    let snoc = occurrences-snoc h hash db.accesses in
    elim (Bool-cases (text_eq h hash)) [
      | inl e ↦
          let same = text_eq-eq h hash e in
          let before =
            subst (λ o. Within h seen o db.accesses) (ap (λ t. db.links t) same ∙ there) (fits h) in
          rw (snoc, e) (omega arith, omega arith, room, before.3)
      | inr e ↦ rw (snoc, e) (fits h)
    ]

unseen-Fits : (hash : Text) (seen : List Text) (db : LinkDb) → Fits (hash ∷ seen) db → Fits seen db
unfolding occurrences
unseen-Fits hash seen db fits h =
    let (_, logged, within, small) = fits h in
    let fewer : occurrences h seen ≤ occurrences h (hash ∷ seen) = ground arith in
    (omega arith, logged, within, small)

module _ (d : LinkDeps) (seen : List Text) (db : LinkDb) (fits : Fits seen db) where
  -- After a link is made, nothing more has been given out.
  record Made (r : LinkReply × LinkDb) : Type 0 where
    made : Fits seen r.1

  as_before-Made : (r : LinkReply) → Made (r, db)
  as_before-Made r = record { made = fits }

  insert_link-Made :
      (token expiry : Text) (link : Link) (o : Option Link) (f : Fault)
      → db.links (d.sha256_hex token) ≡ o
      → link.view_count ≡ 0
      → link.max_views ≤ 100
      → Made (insert_link d token expiry link o f db)
  unfolding insert_link
  insert_link-Made token expiry link none fine free zero small = record {
    made = with_link-Fits d token link seen db free zero small fits;
  }
  insert_link-Made token expiry link none no_reply free zero small = record {
    made = with_link-Fits d token link seen db free zero small fits;
  }
  insert_link-Made token expiry link none lost free zero small = as_before-Made _
  insert_link-Made token expiry link (some old) fine free zero small = as_before-Made _
  insert_link-Made token expiry link (some old) lost free zero small = as_before-Made _
  insert_link-Made token expiry link (some old) no_reply free zero small = as_before-Made _

  module _ (calls : Query → Fault) (now : ℕ) where
    create_for-Made :
        (token id tenant expiry : Text) (at n : Option ℕ)
        → ((v : ℕ) → n ≡ some v → v ≤ 100)
        → Made (create_for d calls now token id tenant expiry at n db)
    unfolding create_for
    create_for-Made token id tenant expiry none n small = as_before-Made _
    create_for-Made token id tenant expiry (some at) none small = as_before-Made _
    create_for-Made token id tenant expiry (some at) (some v) small =
        if-cases Made
          (not (works (calls find_output) && has_output id tenant (db.journal.outputs id))) _ _
          (λ e. as_before-Made _)
          (λ e.
            if-cases Made (not (works (calls draw_token))) _ _ (λ e. as_before-Made _)
              (λ e. insert_link-Made token expiry _ _ (calls insert_row) refl refl (small v refl)))

    create_read-Made :
        (token id tenant : Text) (body : Option (Text → Text))
        → Made (create_read d calls now token id tenant body db)
    unfolding create_read
    create_read-Made token id tenant none = as_before-Made _
    create_read-Made token id tenant (some body) =
        create_for-Made token id tenant _ _ _ (parse_views-bounded (body (codes "maxViews")))

    create_link-Made :
        (token id tenant : Text) (body : Option (Text → Text))
        → Made (create_link d calls now token id tenant body db)
    unfolding create_link
    create_link-Made token id tenant body =
        if-cases Made (works (calls find_job) && db.accepted id tenant) _ _
          (λ e. create_read-Made token id tenant body) (λ e. as_before-Made _)

    -- After a link is opened, what it shows has been given out once more.
    record Opened (hash : Text) (r : LinkReply × LinkDb) : Type 0 where
      opened : Fits (seen_after hash r.0 seen) r.1

    module _ (hash : Text) where
      commit_view-Opened :
          (link : Link) (o : Delivered) (f : Fault)
          → db.links hash ≡ some link
          → suc link.view_count ≤ link.max_views
          → Opened hash (commit_view d calls now hash link o f db)
      unfolding commit_view seen_after
      commit_view-Opened link o fine there room = record {
        opened = viewed-Fits hash link seen db there room fits;
      }
      commit_view-Opened link o lost there room = record { opened = fits }
      commit_view-Opened link o no_reply there room =
          let counted = viewed-Fits hash link seen db there room fits in
          record { opened = unseen-Fits hash seen (viewed hash link db) counted }

      show_output-Opened :
          (link : Link) (o : Option Delivered)
          → db.links hash ≡ some link
          → suc link.view_count ≤ link.max_views
          → Opened hash (show_output d calls now hash link o db)
      unfolding show_output seen_after
      show_output-Opened link none there room = record { opened = fits }
      show_output-Opened link (some o) there room =
          if-cases (Opened hash) (works (calls count_view) && works (calls log_access)) _ _
            (λ e. commit_view-Opened link o (calls commit) there room)
            (λ e. record { opened = fits })

      open_found-Opened :
          (o : Option Link) → db.links hash ≡ o → Opened hash (open_found d calls now hash o db)
      unfolding open_found seen_after
      open_found-Opened none there = record { opened = fits }
      open_found-Opened (some link) there =
          if-cases (Opened hash) (leb link.expires_at now) _ _ (λ e. record { opened = fits })
            (λ e.
              if-cases (Opened hash) (leb link.max_views link.view_count) _ _
                (λ e. record { opened = fits })
                (λ full.
                  if-cases (Opened hash) (works (calls read_output)) _ _
                    (λ e. show_output-Opened link _ there (ground (arith, full)))
                    (λ e. record { opened = fits })))

    open_link-Opened : (token : Text) → Opened (d.sha256_hex token) (open_link d calls now token db)
    unfolding open_link seen_after
    open_link-Opened token =
        if-cases (Opened (d.sha256_hex token)) (works (calls start) && works (calls find_link)) _ _
          (λ e. open_found-Opened (d.sha256_hex token) _ refl) (λ e. record { opened = fits })

-- However links are made and opened, by whom and when, and whatever calls fail: the output behind a
-- link has been given out no more often than the link counts views, each counted view is in the log
-- of accesses, and the views are at most the link's `max_views`, which is at most a hundred. A token
-- without a link has given nothing out.
pub link_views-bounded :
    (d : LinkDeps) (seen : List Text) (db : LinkDb)
    → Reach d seen db
    → (hash : Text) → Within hash seen (db.links hash) db.accesses
unfolding occurrences
link_views-bounded d _ db (empty _ links log) hash =
    rw (links, log) (omega arith, refl, omega arith, omega arith)
link_views-bounded d _ _ (link_made {seen} {db} r calls now token id tenant body) hash =
    (create_link-Made d seen db (link_views-bounded d seen db r) calls now token id tenant
        body).made
      hash
link_views-bounded d _ _ (link_opened {seen} {db} r calls now token) hash =
    (open_link-Opened d seen db (link_views-bounded d seen db r) calls now token).opened hash
link_views-bounded d _ _ (elsewhere {seen} {db} r accepted journal) hash =
    link_views-bounded d seen db r hash
