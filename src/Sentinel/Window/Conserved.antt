-- ===== src/Sentinel/Window/Conserved.antt =====
-- Where the lines counted by a node end up, whatever batches are refused or cannot be built, and whatever
-- lines come while a batch is on its way.
use cold_harbour.Common.{ℕ, ◌+◌, ◌≡◌, refl, Bool, Option, none, some, Text, arith, ap}
use cold_harbour.Detect.Span.{Kind}
use cold_harbour.Detect.Apply.{Counts, no_counts}
use cold_harbour.Policy.{ℤ}
use cold_harbour.Sentinel.Handoff.{MaskResult}
use cold_harbour.Sentinel.Window.{
  new_window, if_one, add_result, EventBatch, Node, flush_start, accepted, refused, not_built,
  put_back, record_line, take_batch, restore_batch,
}

-- Sums over lines, or over batches.
pub record Tally : Type 0 where
  pub counts : Counts
  pub held : ℕ
  pub dropped : ℕ
  pub fail_open : ℕ

abbrev pub nothing : Tally
nothing = record { counts = no_counts; held = 0; dropped = 0; fail_open = 0 }

abbrev pub with_line : Tally → MaskResult → Bool → Tally
with_line t r passed = record {
  counts = λ k. t.counts k + r.counts k;
  held = if_one r.held t.held;
  dropped = if_one r.dropped t.dropped;
  fail_open = if_one passed t.fail_open;
}

abbrev pub with_batch : Tally → EventBatch → Tally
with_batch t b = record {
  counts = λ k. t.counts k + b.counts k;
  held = t.held + b.held;
  dropped = t.dropped + b.dropped;
  fail_open = t.fail_open + b.fail_open;
}

abbrev pub new_node : Text → ℕ → Node
new_node name at = record { node_id = name; window = new_window at; fail_open = 0; on_way = none }

-- What a node does, with the sums over the lines seen, over the batches accepted, and over the batches whose
-- request could not be built, which `flush` does not put back. One batch at most is on its way, since one
-- goroutine sends them in turn.
pub data Run (name : Text) (at : ℕ) : Node → Tally → Tally → Tally → Type 0 where
  started : Run name at (new_node name at) nothing nothing nothing
  line :
      {n : Node} {seen done lost : Tally}
      → Run name at n seen done lost
      → (r : MaskResult) (passed : Bool)
      → Run name at (record_line n r passed) (with_line seen r passed) done lost
  taken :
      {n : Node} {seen done lost : Tally}
      → Run name at n seen done lost
      → n.on_way ≡ none
      → (now : ℕ) (version : ℤ) → Run name at (flush_start n now version) seen done lost
  accepted_batch :
      {n : Node} {seen done lost : Tally}
      → Run name at n seen done lost
      → (b : EventBatch) → n.on_way ≡ some b
      → Run name at (put_back n b accepted) seen (with_batch done b) lost
  refused_batch :
      {n : Node} {seen done lost : Tally}
      → Run name at n seen done lost
      → (b : EventBatch) → n.on_way ≡ some b
      → Run name at (put_back n b refused) seen done lost
  unbuilt_batch :
      {n : Node} {seen done lost : Tally}
      → Run name at n seen done lost
      → (b : EventBatch) → n.on_way ≡ some b
      → Run name at (put_back n b not_built) seen done (with_batch lost b)

-- A counter of the batch that is on its way.
abbrev pub under_way : Option EventBatch → (EventBatch → ℕ) → ℕ
under_way none f = 0
under_way (some b) f = f b

pub record Balanced (n : Node) (seen done lost : Tally) : Type 0 where
  pub counts :
      (k : Kind)
      → seen.counts k
        ≡ done.counts k + lost.counts k + (n.window.counts k + under_way n.on_way (λ b. b.counts k))
  pub held : seen.held ≡ done.held + lost.held + (n.window.held + under_way n.on_way (λ b. b.held))
  pub dropped :
      seen.dropped
      ≡ done.dropped + lost.dropped + (n.window.dropped + under_way n.on_way (λ b. b.dropped))
  pub fail_open :
      seen.fail_open
      ≡ done.fail_open + lost.fail_open + (n.fail_open + under_way n.on_way (λ b. b.fail_open))

Run-Balanced :
    {name : Text} {at : ℕ} {n : Node} {seen done lost : Tally}
    → Run name at n seen done lost
    → Balanced n seen done lost
unfolding record_line flush_start put_back add_result take_batch restore_batch
Run-Balanced started = record { counts = λ k. refl; held = refl; dropped = refl; fail_open = refl }
Run-Balanced (line g r passed) = record {
  counts = λ k. omega (arith, (Run-Balanced g).counts k);
  held = ground (arith, (Run-Balanced g).held);
  dropped = ground (arith, (Run-Balanced g).dropped);
  fail_open = ground (arith, (Run-Balanced g).fail_open);
}
Run-Balanced (taken g e now version) = record {
  counts = λ k. omega (arith, (Run-Balanced g).counts k, ap (λ o. under_way o (λ b. b.counts k)) e);
  held = omega (arith, (Run-Balanced g).held, ap (λ o. under_way o (λ b. b.held)) e);
  dropped = omega (arith, (Run-Balanced g).dropped, ap (λ o. under_way o (λ b. b.dropped)) e);
  fail_open = omega (arith, (Run-Balanced g).fail_open, ap (λ o. under_way o (λ b. b.fail_open)) e);
}
Run-Balanced (accepted_batch g b e) = record {
  counts = λ k. omega (arith, (Run-Balanced g).counts k, ap (λ o. under_way o (λ b. b.counts k)) e);
  held = omega (arith, (Run-Balanced g).held, ap (λ o. under_way o (λ b. b.held)) e);
  dropped = omega (arith, (Run-Balanced g).dropped, ap (λ o. under_way o (λ b. b.dropped)) e);
  fail_open = omega (arith, (Run-Balanced g).fail_open, ap (λ o. under_way o (λ b. b.fail_open)) e);
}
Run-Balanced (refused_batch g b e) = record {
  counts = λ k. omega (arith, (Run-Balanced g).counts k, ap (λ o. under_way o (λ b. b.counts k)) e);
  held = omega (arith, (Run-Balanced g).held, ap (λ o. under_way o (λ b. b.held)) e);
  dropped = omega (arith, (Run-Balanced g).dropped, ap (λ o. under_way o (λ b. b.dropped)) e);
  fail_open = omega (arith, (Run-Balanced g).fail_open, ap (λ o. under_way o (λ b. b.fail_open)) e);
}
Run-Balanced (unbuilt_batch g b e) = record {
  counts = λ k. omega (arith, (Run-Balanced g).counts k, ap (λ o. under_way o (λ b. b.counts k)) e);
  held = omega (arith, (Run-Balanced g).held, ap (λ o. under_way o (λ b. b.held)) e);
  dropped = omega (arith, (Run-Balanced g).dropped, ap (λ o. under_way o (λ b. b.dropped)) e);
  fail_open = omega (arith, (Run-Balanced g).fail_open, ap (λ o. under_way o (λ b. b.fail_open)) e);
}

-- However lines come and batches are taken, accepted, refused or not built: for each kind, and for the lines
-- held, dropped and passed on, the number over all lines is the sum of those in the batches accepted, in the
-- batches whose request could not be built, in the window, and in the batch that is on its way. So only the
-- batches that could not be built are lost, and no line is counted twice.
pub counters_conserved :
    (name : Text) (at : ℕ) (n : Node) (seen done lost : Tally)
    → Run name at n seen done lost
    → Balanced n seen done lost
counters_conserved name at n seen done lost run = Run-Balanced run
