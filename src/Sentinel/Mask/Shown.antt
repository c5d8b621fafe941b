-- ===== src/Sentinel/Mask/Shown.antt =====
-- What maskWith may write for a line.
use cold_harbour.Worker.Stream.{is_blank}
use cold_harbour.Common.{
  ℕ, zero, suc, ◌≡◌, refl, sym, ap, ◌∙◌, subst, Bool, true, false, Option, none, some, List, [],
  ◌∷◌, Text, if◌then◌else◌, leb, not, ◌&&◌, length, Bool-cases, inl, inr,
}
use cold_harbour.Detect.Span.{Kind}
use cold_harbour.Detect.Apply.{Mode, no_counts, redact, partial, tokenize, other}
use cold_harbour.Policy.{ℤ, FailPolicy, inline, open_lines, closed}
use cold_harbour.Worker.Stream.{is_blank}
use cold_harbour.Sentinel.Handoff.{
  MaskResult, Handoff, Outside, plain_line, dropped_line, held_line, or_redact, or_mask_kinds,
  handle, apply_fail_policy, retried, loop_item, probed, post, failed_once, breaker_limit, replied,
  enqueue_line,
}
use cold_harbour.Sentinel.Handoff.Breaker.{Sound, handle-Sound}
use cold_harbour.Sentinel.Mask.{mask_with, mask_line_with, masked_line, or_closed, is_longer}

-- The line masked; or held as a job; or dropped; or, if the policy and the flag of the process allow it,
-- the line itself, which is counted.
pub data Shown (o : Outside) (line : Text) (p : FailPolicy) (kinds : List Kind) (mode : Mode)
    (h h' : Handoff) : MaskResult → Type 0 where
  masked :
      h'.fail_open_count ≡ h.fail_open_count
      → Shown o line p kinds mode h h' (masked_line o line (or_mask_kinds kinds) (or_redact mode))
  held :
      (job : Text)
      → h'.fail_open_count ≡ h.fail_open_count
      → Shown o line p kinds mode h h' (held_line job)
  dropped : h'.fail_open_count ≡ h.fail_open_count → Shown o line p kinds mode h h' dropped_line
  passed :
      p ≡ open_lines
      → h.allow_fail_open ≡ true
      → h'.fail_open_count ≡ suc h.fail_open_count
      → Shown o line p kinds mode h h' (plain_line line no_counts)

record Kept (h h' : Handoff) : Type 0 where
  allowed : h'.allow_fail_open ≡ h.allow_fail_open
  counted : h'.fail_open_count ≡ h.fail_open_count

-- Setting the probe touches neither.
probe-Kept :
    (g h : Handoff) (probe b : Bool)
    → Kept g h
    → Kept g (if b then record h { allow_probe = probe } else h)
probe-Kept g h probe true k = record { allowed = k.allowed; counted = k.counted }
probe-Kept g h probe false k = k

OnReply : Handoff → Option (Option Text × Handoff) → Type 0
OnReply h none = Unit
OnReply h (some (r, h')) = Kept h h'

module _ (o : Outside) where
  probed-Kept : (g h : Handoff) (r : Option Text) → Kept g h → Kept g (probed h r).1
  probed-Kept g h none k = record { allowed = k.allowed; counted = k.counted }
  probed-Kept g h (some job) k = record { allowed = k.allowed; counted = k.counted }

  if-OnReply :
      (h : Handoff) (b : Bool) (x y : Option (Option Text × Handoff))
      → OnReply h x
      → OnReply h y
      → OnReply h (if b then x else y)
  if-OnReply h true x y g k = g
  if-OnReply h false x y g k = k

  retried-Kept :
      (g : Handoff) (fuel : ℕ) (h : Handoff) (line : Text) (answer : Option Text)
      → Kept g h
      → OnReply g (retried o fuel h line answer)
  unfolding retried OnReply
  retried-Kept g zero h line answer k = tt
  retried-Kept g (suc fuel) h line (some job) k = record {
    allowed = k.allowed;
    counted = k.counted;
  }
  retried-Kept g (suc fuel) h line none k =
      if-OnReply g (leb breaker_limit (suc h.failures)) _ _
        (record { allowed = k.allowed; counted = k.counted })
        (retried-Kept g fuel (failed_once h) line (post o (failed_once h) line)
          (record { allowed = k.allowed; counted = k.counted }))

  loop_item-Kept : (g h : Handoff) (line : Text) → Kept g h → OnReply g (loop_item o h line)
  unfolding loop_item OnReply
  loop_item-Kept g h line k =
      if-OnReply g h.is_open (some (probed h (post o h line))) _ (probed-Kept g h (post o h line) k)
        (retried-Kept g breaker_limit h line (post o h line) k)

  open-Shown :
      (line : Text) (kinds : List Kind) (mode : Mode) (h g : Handoff) (b : Bool)
      → g.allow_fail_open ≡ b
      → Kept h g
      → let done : MaskResult × Handoff =
          (if b
            then (plain_line line no_counts, record g { fail_open_count = suc g.fail_open_count })
            else (dropped_line, g)) in
        Shown o line open_lines kinds mode h done.1 done.0
  open-Shown line kinds mode h g true t k =
      passed refl (sym k.allowed ∙ t) (ap (λ n. suc n) k.counted)
  open-Shown line kinds mode h g false t k = dropped k.counted

  policy-Shown :
      (line : Text) (p : FailPolicy) (kinds : List Kind) (mode : Mode) (h g : Handoff)
      → Kept h g
      → let done = apply_fail_policy o line p kinds mode g in
        Shown o line p kinds mode h done.1 done.0
  unfolding apply_fail_policy
  policy-Shown line inline kinds mode h g k = masked k.counted
  policy-Shown line open_lines kinds mode h g k =
      open-Shown line kinds mode h g g.allow_fail_open refl k
  policy-Shown line _ kinds mode h g k = dropped k.counted

  module _ (line : Text) (p : FailPolicy) (kinds : List Kind) (mode : Mode) where
    OnResult : Handoff → Option (MaskResult × Handoff) → Type 0
    OnResult h none = Unit
    OnResult h (some (r, h')) = Shown o line p kinds mode h h' r

    if-OnResult :
        (h : Handoff) (b : Bool) (x y : Option (MaskResult × Handoff))
        → OnResult h x
        → OnResult h y
        → OnResult h (if b then x else y)
    if-OnResult h true x y g k = g
    if-OnResult h false x y g k = k

    policy-OnResult :
        (h g : Handoff) → Kept h g → OnResult h (some (apply_fail_policy o line p kinds mode g))
    unfolding OnResult
    policy-OnResult h g k = policy-Shown line p kinds mode h g k

    replied-OnResult :
        (h : Handoff) (x : Option (Option Text × Handoff))
        → OnReply h x
        → OnResult h (replied o line p kinds mode x)
    unfolding replied OnResult OnReply
    replied-OnResult h none k = tt
    replied-OnResult h (some (some job, g)) k = held job k.counted
    replied-OnResult h (some (none, g)) k = policy-OnResult h g k

    enqueue_line-OnResult :
        (h g : Handoff) (room : Bool)
        → Kept h g
        → OnResult h (enqueue_line o line p kinds mode g room)
    unfolding enqueue_line
    enqueue_line-OnResult h g true k =
        replied-OnResult h (loop_item o g line) (loop_item-Kept h g line k)
    enqueue_line-OnResult h g false k =
        policy-OnResult h (if g.is_open then record g { allow_probe = true } else g)
          (probe-Kept h g true g.is_open k)

    handle-OnResult : (h : Handoff) (room : Bool) → OnResult h (handle o line p kinds mode h room)
    unfolding handle
    handle-OnResult h room =
        let still : Kept h h = record { allowed = refl; counted = refl } in
        let policy = policy-OnResult h h still in
        if-OnResult h (is_blank h.base_url) _ _ policy (
          if-OnResult h (h.is_open && not h.allow_probe) _ _ policy (
            enqueue_line-OnResult h (if h.is_open then record h { allow_probe = false } else h) room
              (probe-Kept h h false h.is_open still)))

or_mask_kinds-again :
    (kinds : List Kind) → or_mask_kinds (or_mask_kinds kinds) ≡ or_mask_kinds kinds
or_mask_kinds-again [] = refl
or_mask_kinds-again (k ∷ ks) = refl

or_redact-again : (mode : Mode) → or_redact (or_redact mode) ≡ or_redact mode
or_redact-again (other []) = refl
or_redact-again (other (c ∷ cs)) = refl
or_redact-again redact = refl
or_redact-again partial = refl
or_redact-again tokenize = refl

or_closed-open_lines : (p : FailPolicy) → or_closed p ≡ open_lines → p ≡ open_lines
or_closed-open_lines open_lines e = refl
or_closed-open_lines closed e = e
or_closed-open_lines inline e = e
or_closed-open_lines (FailPolicy.other []) e = cc
or_closed-open_lines (FailPolicy.other (c ∷ cs)) e = e

-- The empty arguments stand for their defaults.
defaults-Shown :
    {o : Outside} {line : Text} {p : FailPolicy} {kinds : List Kind} {mode : Mode} {h h' : Handoff}
    {r : MaskResult}
    → Shown o line (or_closed p) (or_mask_kinds kinds) (or_redact mode) h h' r
    → Shown o line p kinds mode h h' r
defaults-Shown {p = p} {kinds = kinds} {mode = mode} (masked e) =
    rw (or_mask_kinds-again kinds, or_redact-again mode) (masked e)
defaults-Shown (held job e) = held job e
defaults-Shown (dropped e) = dropped e
defaults-Shown {p = p} (passed e t n) = passed (or_closed-open_lines p e) t n

-- From a state that a breaker can be in, `maskWith` on a line that is not shadowed returns, in such a
-- state, and writes one of four things: the line as `Apply` masks it, the notice that it is held, the
-- notice that it is dropped, or, only if the policy is `open` and the process allows it, the line itself,
-- and then the counter of such lines goes up by one; otherwise the counter stays.
pub mask_with-Shown :
    (o : Outside) (line : Text) (max_inline : ℤ) (kinds : List Kind) (mode : Mode) (h : Handoff)
    (p : FailPolicy) (room : Bool)
    → Sound h
    → (r : MaskResult) × (h' : Handoff) × (mask_with o line max_inline false kinds mode h p room
        ≡ some (r, h'))
      × Sound h'
      × Shown o line p kinds mode h h' r
unfolding mask_with mask_line_with OnResult
mask_with-Shown o line max_inline kinds mode h p room s =
    let ks = or_mask_kinds kinds in
    let m = or_redact mode in
    let q = or_closed p in
    elim (Bool-cases (is_longer (length line) max_inline)) [
      | inl t ↦
          let (r, h', e, sound, _) = handle-Sound o line q ks m h room s in
          (
            r,
            h',
            rw t e,
            sound,
            defaults-Shown
                (subst (OnResult o line q ks m h) e (handle-OnResult o line q ks m h room)),
          )
      | inr t ↦ (masked_line o line ks m, h, rw t, s, masked refl)
    ]
