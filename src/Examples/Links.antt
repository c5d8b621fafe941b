-- ===== src/Examples/Links.antt =====
-- Runs of the model of the delivery links on concrete inputs.
use cold_harbour.Common.{◌≡◌, refl, true, some, none, [], Text, codes, text_eq, if◌then◌else◌}
use cold_harbour.Journal.{JobRow, StoredOutput, completed}
use cold_harbour.Worker.Stores.{Fault, fine}
use cold_harbour.Api.Links.{
  LinkDb, LinkDeps, Query, shown, forbidden, gone, create_link, open_link, parse_views,
}
use cold_harbour.Api.Links.Bounded.{
  Within, seen_after, empty, link_made, link_opened, link_views-bounded,
}

abbrev deps : LinkDeps
deps = record {
  parse_instant = λ t. some 5000;
  sha256_hex = λ t. t;
  durable = λ t. 2;
  stored_time = λ t. t;
}

abbrev job_row : JobRow
job_row = record {
  stored = record {
    id = 2;
    job_type = codes "redact";
    final_state = completed;
    checksum = [];
    created_at = 10;
    completed_at = 20;
  };
  tenant_id = codes "acme";
  output_signature = codes "sig";
  signing_key_id = codes "k1";
}

abbrev output : StoredOutput
output = record { final_state = completed; body = codes "out"; tenant_id = codes "acme" }

abbrev tables : LinkDb
tables = record {
  accepted = λ job tenant. true;
  journal = record { jobs = λ id. some job_row; outputs = λ job. some output };
  links = λ hash. none;
  accesses = [];
}

abbrev all_fine : Query → Fault
all_fine q = fine

-- One view is asked for.
abbrev form : Text → Text
form t = if text_eq t (codes "maxViews") then codes "1" else []

abbrev token : Text
token = codes "t1"

abbrev linked : LinkDb
linked = (create_link deps all_fine 1000 token (codes "j1") (codes "acme") (some form) tables).1

-- The first view is shown, the second refused; a link that has expired is gone.
link_replies :
    let (first, after) = open_link deps all_fine 2000 token linked in
    (first
      ≡ shown (record {
        result = codes "out";
        tenant_id = codes "acme";
        signature = codes "sig";
        signing_key_id = codes "k1";
      }))
    × ((open_link deps all_fine 2001 token after).0 ≡ forbidden)
    × ((open_link deps all_fine 5000 token linked).0 ≡ gone)
unfolding open_link create_link
link_replies = (refl, refl, refl)

views_read :
    (parse_views (codes "+100") ≡ some 100)
    × (parse_views (codes "101") ≡ none)
    × (parse_views (codes "-1") ≡ none)
    × (parse_views (codes "0") ≡ none)
unfolding parse_views
views_read = (refl, refl, refl, refl)

link_views-bounded_example :
    let (first, after) = open_link deps all_fine 2000 token linked in
    Within token (seen_after token first []) (after.links token) after.accesses
link_views-bounded_example =
    let start =
      link_made (empty tables refl refl) all_fine 1000 token (codes "j1") (codes "acme")
        (some form) in
    let opened = open_link deps all_fine 2000 token linked in
    link_views-bounded deps (seen_after token opened.0 []) opened.1
      (link_opened start all_fine 2000 token) token
