-- ===== src/Sentinel/Window.antt =====
-- cmd/sentinel/events.go: counters of a node, sent to the control plane in batches.
--
-- The loop that sends runs beside the lines that are counted, so a batch is taken, sent and put back in
-- separate steps.
pub mod Conserved
use cold_harbour.Common.{
  ℕ, suc, ◌+◌, Bool, true, false, Option, none, some, List, [], ◌∷◌, Text, if◌then◌else◌, ltb,
}
use cold_harbour.Detect.Apply.{Counts, no_counts}
use cold_harbour.Policy.{ℤ}
use cold_harbour.Sentinel.Handoff.{MaskResult, Handoff}

-- `windowCounters`; a time is a number, and a kind that the map does not have counts nothing.
pub record WindowCounters : Type 0 where
  pub from : ℕ
  pub counts : Counts
  pub held : ℕ
  pub dropped : ℕ

-- `newWindowCounters`
abbrev pub new_window : ℕ → WindowCounters
new_window at = record { from = at; counts = no_counts; held = 0; dropped = 0 }

abbrev pub if_one : Bool → ℕ → ℕ
if_one b n = if b then suc n else n

-- `windowCounters.add`
unfoldable pub add_result : WindowCounters → MaskResult → WindowCounters
add_result w r = record w {
  counts = λ k. w.counts k + r.counts k;
  held = if_one r.held w.held;
  dropped = if_one r.dropped w.dropped;
}

-- `eventBatch`; the entries that `take` leaves out are zero.
pub record EventBatch : Type 0 where
  pub node_id : Text
  pub from : ℕ
  pub to : ℕ
  pub policy_version : ℤ
  pub counts : Counts
  pub held : ℕ
  pub dropped : ℕ
  pub fail_open : ℕ

-- `windowCounters.take`
unfoldable pub take_batch : WindowCounters → ℕ → ℕ → Text → ℤ → EventBatch × WindowCounters
take_batch w to fail_open node version = (
  record {
    node_id = node;
    from = w.from;
    to = to;
    policy_version = version;
    counts = w.counts;
    held = w.held;
    dropped = w.dropped;
    fail_open = fail_open;
  },
  record { from = to; counts = no_counts; held = 0; dropped = 0 },
)

-- `windowCounters.restore`
unfoldable pub restore_batch : WindowCounters → EventBatch → WindowCounters
restore_batch w b = record {
  from = if ltb b.from w.from then b.from else w.from;
  counts = λ k. w.counts k + b.counts k;
  held = w.held + b.held;
  dropped = w.dropped + b.dropped;
}

-- The counters of a node, with the batch that is on its way.
pub record Node : Type 0 where
  pub node_id : Text
  pub window : WindowCounters
  pub fail_open : ℕ
  pub on_way : Option EventBatch

-- `flush` up to its request.
unfoldable pub flush_start : Node → ℕ → ℤ → Node
unfolding take_batch
flush_start n now version =
    let (batch, window) = take_batch n.window now n.fail_open n.node_id version in
    record n { window = window; fail_open = 0; on_way = some batch }

-- How `flush` ends: its request cannot be built; it is refused or fails; it is answered with 200.
pub data Sent : Type 0 where
  not_built refused accepted : Sent

-- `flush` after its batch is taken.
unfoldable pub put_back : Node → EventBatch → Sent → Node
unfolding restore_batch
put_back n b not_built = record n { on_way = none }
put_back n b accepted = record n { on_way = none }
put_back n b refused = record n {
  window = restore_batch n.window b;
  fail_open = n.fail_open + b.fail_open;
  on_way = none;
}

-- `handoff` and `record` on one line of the log.
unfoldable pub record_line : Node → MaskResult → Bool → Node
unfolding add_result
record_line n r passed = record n {
  window = add_result n.window r;
  fail_open = if_one passed n.fail_open;
}
