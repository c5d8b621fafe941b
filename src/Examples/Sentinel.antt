-- ===== src/Examples/Sentinel.antt =====
-- Runs of the model of the sentinel on concrete inputs.
use cold_harbour.Common.{
  ◌≡◌, refl, true, false, none, some, List, [], ◌∷◌, ◌++◌, Text, codes, arith, map, ltb,
  if◌then◌else◌, Option,
}
use cold_harbour.Detect.Apply.{redact, no_counts}
use cold_harbour.Policy.{Doc, default_doc, pos, closed, inline, parse}
use cold_harbour.Sentinel.Handoff.{
  MaskResult, Handoff, Outside, new_handoff, handle, mask_kinds, held_line, dropped_line, post,
}
use cold_harbour.Sentinel.Handoff.Breaker.{Sound, Spent, handle-Sound}
use cold_harbour.Sentinel.Handoff.Steps.{
  Reach, here, next, line_handled, breaker_reached, breaker_recloses,
}
use cold_harbour.Sentinel.Mask.{mask_with}
use cold_harbour.Sentinel.Mask.Shown.{Shown, mask_with-Shown}
use cold_harbour.Sentinel.Window.{
  Node, flush_start, record_line, put_back, refused, not_built, EventBatch,
}
use cold_harbour.Sentinel.Window.Conserved.{
  Run, started, line, taken, refused_batch, unbuilt_batch, with_batch, Balanced, counters_conserved,
  nothing, with_line, new_node,
}
use cold_harbour.Sentinel.Settings.{
  Json, MaskSettings, PolicyResponse, settings_from, fetch_policy, poll_once, load_initial, written,
  not_written,
}
use cold_harbour.Sentinel.Settings.InForce.{
  Serves, loaded, ticked, Usable, Trusted, settings_in_force,
}
use cold_harbour.Sentinel.Lines.{to_newline, at_end, read_lines, ended, trim_right}
use cold_harbour.Sentinel.Lines.Whole.{complete_lines, left_over, content, if_any, read_lines-once}
use cold_harbour.Sentinel.Report.{
  Tree, file, dir, branch, empty, no_report, run_scan, risk_score, clean,
}
use cold_harbour.Sentinel.Report.Totals.{run_scan-hidden, run_scan-Agrees, Agrees, spans_in}

-- A control plane that is down for its first five requests, and then takes every job.
abbrev outside : Outside
outside = record {
  sha256 = λ t. t;
  request =
      λ n url key body. if ltb n 5 then none else some (record { status = 200; body = codes "j7" });
  job_id_of = λ t. some t;
}

abbrev fresh : Handoff
fresh = new_handoff (codes "http://cp") (codes "key") false

abbrev tripped : Handoff
tripped = record fresh { failures = 5; is_open = true; allow_probe = true; posts = 5 }

-- Five requests fail, the breaker opens, and the line is dropped.
first_line :
    handle outside (codes "a line") closed mask_kinds redact fresh true
    ≡ some (dropped_line, tripped)
unfolding handle
first_line = refl

fresh-Sound : Sound fresh
fresh-Sound = breaker_reached outside (codes "http://cp") (codes "key") false fresh here

reached : Reach outside fresh tripped
reached =
    next here (line_handled (codes "a line") closed mask_kinds redact true dropped_line first_line)

handle-Sound_example :
    (r : MaskResult) × (h' : Handoff) × (handle outside
        (codes "a line")
        closed
        mask_kinds
        redact
        fresh
        true
      ≡ some (r, h'))
    × Sound h'
    × Spent fresh h'
handle-Sound_example =
    handle-Sound outside (codes "a line") closed mask_kinds redact fresh true fresh-Sound

breaker_reached_example : Sound tripped
breaker_reached_example =
    breaker_reached outside (codes "http://cp") (codes "key") false tripped reached

breaker_recloses_example :
    (h1 : Handoff) × (h2 : Handoff) × Reach outside tripped h1
    × (handle outside (codes "more") closed mask_kinds redact h1 true
        ≡ some (held_line (codes "j7"), h2))
    × (h2.is_open ≡ false)
    × (h2.failures ≡ 0)
unfolding post
breaker_recloses_example =
    breaker_recloses outside (codes "http://cp") (codes "key") false tripped (codes "more") closed
      mask_kinds redact (codes "j7") reached refl refl refl

mask_with-Shown_example :
    (r : MaskResult) × (h' : Handoff) × (mask_with outside
        (codes "a line")
        (pos 3)
        false
        []
        redact
        fresh
        inline
        true
      ≡ some (r, h'))
    × Sound h'
    × Shown outside (codes "a line") inline [] redact fresh h' r
mask_with-Shown_example =
    mask_with-Shown outside (codes "a line") (pos 3) [] redact fresh inline true fresh-Sound

abbrev one_held : MaskResult
one_held = held_line (codes "j7")

abbrev after_line : Node
after_line = record_line (new_node (codes "n") 0) one_held true

abbrev batch : EventBatch
batch = record {
  node_id = codes "n";
  from = 0;
  to = 9;
  policy_version = pos 1;
  counts = no_counts;
  held = 1;
  dropped = 0;
  fail_open = 1;
}

-- A line is counted, its batch is refused and put back.
refused_once :
    Run
      (codes "n")
      0
      (put_back (flush_start after_line 9 (pos 1)) batch refused)
      (with_line nothing one_held true)
      nothing
      nothing
unfolding record_line flush_start
refused_once = refused_batch (taken (line started one_held true) refl 9 (pos 1)) batch refl

-- And another one that is lost, since its request cannot be built.
abbrev unbuilt : Node
unbuilt = put_back (flush_start after_line 9 (pos 1)) batch not_built

counters_conserved_example :
    Balanced unbuilt (with_line nothing one_held true) nothing (with_batch nothing batch)
unfolding record_line flush_start
counters_conserved_example =
    counters_conserved (codes "n") 0 unbuilt (with_line nothing one_held true) nothing
      (with_batch nothing batch)
      (unbuilt_batch (taken (line started one_held true) refl 9 (pos 1)) batch refl)

same_doc :
    (etag : Text) (doc : Doc)
    → some default_doc ≡ some doc
    → ◌≡◌ {A = Option (Text × Doc)} (some (etag, default_doc)) (some (etag, doc))
same_doc etag doc e = cc

-- Every text is the default policy; the cache is written as its ETag and holds it.
abbrev json : Json
json = record {
  decode = λ t. some default_doc;
  encode_cache = λ etag doc. etag;
  decode_cache = λ t. some (t, default_doc);
  cache_decodes = λ raw etag doc e. same_doc etag doc e;
}

abbrev answer : PolicyResponse
answer = record { status = 200; etag = codes "v2"; body = [] }

abbrev at_start : MaskSettings
at_start = settings_from default_doc []

from_file :
    load_initial json [] (codes "d") (some (some [])) none not_written none
    ≡ (some ([], default_doc), none)
unfolding load_initial parse default_doc
from_file = refl

serving : Serves json [] (codes "d") at_start none
unfolding fetch_policy
serving =
    loaded (some (some [])) none not_written none [] default_doc none (λ etag e. cc)
      (λ etag doc e. cc) from_file

settings_in_force_example :
    let (st, disk) = poll_once json (codes "d") (some answer) written at_start none in
    Usable st × Trusted json disk
settings_in_force_example =
    settings_in_force json [] (codes "d") _ _ (ticked at_start none (some answer) written serving)

-- During an outage a poll fails, and the sentinel is started again with a policy file: the cached policy
-- stays.
abbrev polled_once : MaskSettings × Option Text
polled_once = poll_once json (codes "d") (some answer) written at_start none

abbrev reads : List Text
reads = codes "one\r" ∷ codes "" ∷ []

read_lines-once_example :
    let whole = content (map to_newline reads ++ at_end (codes "two") ∷ []) in
    read_lines (λ l. true) false [] (map to_newline reads ++ at_end (codes "two") ∷ [])
    ≡ (map trim_right (complete_lines [] whole) ++ if_any (left_over [] whole), ended)
read_lines-once_example =
    read_lines-once reads (codes "two") [] []
      ((λ e. omega arith, (λ e. omega arith, (λ e. omega arith, (λ e. omega arith, tt)))), (tt, tt))
      (λ e. omega arith, (λ e. omega arith, (λ e. omega arith, tt)))

-- The last line is kept as it is.
three_lines :
    read_lines (λ l. true) false [] (map to_newline reads ++ at_end (codes "two\r") ∷ [])
    ≡ (codes "one" ∷ [] ∷ codes "two\r" ∷ [], ended)
unfolding read_lines
three_lines = refl

abbrev here_dir : Tree
here_dir = dir (codes ".") (branch (file (codes "app.log") none) empty)

run_scan-hidden_example : (run_scan here_dir ≡ no_report) × (risk_score (run_scan here_dir) ≡ clean)
run_scan-hidden_example =
    run_scan-hidden (codes ".") (branch (file (codes "app.log") none) empty) refl

run_scan-Agrees_example : Agrees (run_scan here_dir) (spans_in here_dir)
run_scan-Agrees_example = run_scan-Agrees here_dir
