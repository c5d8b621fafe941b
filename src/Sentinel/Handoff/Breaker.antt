-- ===== src/Sentinel/Handoff/Breaker.antt =====
-- The circuit breaker: its loop ends, its counter is bounded, and it can always close again.
use cold_harbour.Common.{
  ℕ, zero, suc, ◌+◌, ◌≤◌, ◌<◌, ◌≡◌, refl, Bool, true, false, Option, none, some, List, Text, arith,
  inl, inr, ◌⊎◌, Bool-cases, leb, if◌then◌else◌, sym, ◌∙◌, subst, ◌&&◌, not,
}
use cold_harbour.Detect.Span.{Kind}
use cold_harbour.Detect.Apply.{Mode}
use cold_harbour.Policy.{FailPolicy, inline, open_lines}
use cold_harbour.Sentinel.Handoff.{
  MaskResult, Handoff, Outside, post, apply_fail_policy, failed_once, retried, loop_item,
  breaker_limit, probed, replied, enqueue_line, handle, is_blank,
}

-- A closed breaker has seen fewer failures in a row than its limit, no breaker more.
pub record Few (h : Handoff) : Type 0 where
  pub closed_few : h.is_open ≡ false → h.failures < 5
  pub bounded : h.failures ≤ 5

-- And an open one lets a line through, or a timer is running after which it will.
pub record Sound (h : Handoff) : Type 0 where
  pub few : Few h
  pub probe : h.is_open ≡ true → (h.allow_probe ≡ true) ⊎ (0 < h.timers)

-- A call: five requests at most, and one if the breaker was open.
pub record Spent (h h' : Handoff) : Type 0 where
  pub most : h'.posts ≤ h.posts + 5
  pub once : h.is_open ≡ true → h'.posts ≤ suc h.posts

-- Equal but for the lines let through.
record Alike (h h' : Handoff) : Type 0 where
  failures : h'.failures ≡ h.failures
  is_open : h'.is_open ≡ h.is_open
  allow_probe : h'.allow_probe ≡ h.allow_probe
  timers : h'.timers ≡ h.timers
  posts : h'.posts ≡ h.posts

Alike-Sound : (h h' : Handoff) → Alike h h' → Sound h → Sound h'
Alike-Sound h h' a s = record {
  few = record {
    closed_few = λ e. rw a.failures (s.few.closed_few (sym a.is_open ∙ e));
    bounded = rw a.failures s.few.bounded;
  };
  probe = λ e. elim (s.probe (sym a.is_open ∙ e)) [
    | inl p ↦ inl (a.allow_probe ∙ p)
    | inr n ↦ inr (rw a.timers n)
  ];
}

Alike-Spent : (g h h' : Handoff) → Alike h h' → Spent g h → Spent g h'
Alike-Spent g h h' a s = record { most = rw a.posts s.most; once = λ e. rw a.posts (s.once e) }

abbrev same : (h : Handoff) (n : ℕ) → Alike h (record h { fail_open_count = n })
same h n = record {
  failures = refl;
  is_open = refl;
  allow_probe = refl;
  timers = refl;
  posts = refl;
}

if-Alike :
    (h : Handoff) (b : Bool) (x y : MaskResult × Handoff)
    → Alike h x.1
    → Alike h y.1
    → Alike h (if b then x else y).1
if-Alike h true x y g k = g
if-Alike h false x y g k = k

module _ (o : Outside) where
  apply_fail_policy-Alike :
      (line : Text) (p : FailPolicy) (kinds : List Kind) (mode : Mode) (h : Handoff)
      → Alike h (apply_fail_policy o line p kinds mode h).1
  unfolding apply_fail_policy
  apply_fail_policy-Alike line inline kinds mode h = same h h.fail_open_count
  apply_fail_policy-Alike line open_lines kinds mode h =
      if-Alike h h.allow_fail_open _ _ (same h (suc h.fail_open_count)) (same h h.fail_open_count)
  apply_fail_policy-Alike line _ kinds mode h = same h h.fail_open_count

  probed-Sound :
      (h : Handoff) (answer : Option Text)
      → Few h
      → h.is_open ≡ true
      → Sound (probed h answer).1 × ((probed h answer).1.posts ≡ suc h.posts)
  probed-Sound h (some job) few t = (
    record {
      few = record { closed_few = λ _. omega arith; bounded = omega arith };
      probe = λ c. absurd (ground arith);
    },
    refl,
  )
  probed-Sound h none few t = (
    record {
      few = record { closed_few = few.closed_few; bounded = few.bounded };
      probe = λ c. inr (omega arith);
    },
    refl,
  )

  -- The loop on one item ends before its fuel does.
  retried-Sound :
      (fuel : ℕ) (h : Handoff) (line : Text) (answer : Option Text)
      → h.is_open ≡ false
      → h.failures < 5
      → 5 ≤ h.failures + fuel
      → (r : Option Text) × (h' : Handoff) × (retried o fuel h line answer ≡ some (r, h'))
        × Sound h'
        × (h'.posts ≤ h.posts + fuel)
  unfolding retried
  retried-Sound zero h line answer e few enough = absurd (omega arith)
  retried-Sound (suc fuel) h line (some job) e few enough = (
    some job,
    _,
    refl,
    record {
      few = record { closed_few = λ _. omega arith; bounded = omega arith };
      probe = λ t. absurd (ground arith);
    },
    omega arith,
  )
  retried-Sound (suc fuel) h line none e few enough =
      elim (Bool-cases (leb breaker_limit (suc h.failures))) [
        | inl t ↦ rw t (
          none,
          record (failed_once h) { is_open = true; allow_probe = true },
          refl,
          record {
            few = record { closed_few = λ c. absurd (ground arith); bounded = omega arith };
            probe = λ _. inl refl;
          },
          omega arith,
        )
        | inr t ↦
            let (r, h', same, sound, spent) =
              retried-Sound fuel (failed_once h) line (post o (failed_once h) line) e (ground arith)
                (omega arith) in
            rw t (r, h', same, sound, omega arith)
      ]

  turn-Sound :
      (h : Handoff) (line : Text) (b : Bool)
      → h.is_open ≡ b
      → Few h
      → (r : Option Text) × (h' : Handoff) × ((if b
            then some (probed h (post o h line))
            else retried o breaker_limit h line (post o h line))
          ≡ some (r, h'))
        × Sound h'
        × Spent h h'
  turn-Sound h line true t few =
      let (sound, one) = probed-Sound h (post o h line) few t in
      (
        (probed h (post o h line)).0,
        (probed h (post o h line)).1,
        refl,
        sound,
        record { most = omega arith; once = λ _. omega arith },
      )
  turn-Sound h line false t few =
      let (r, h', e, s, n) =
        retried-Sound 5 h line (post o h line) t (few.closed_few t) (omega arith) in
      (r, h', e, s, record { most = n; once = λ c. absurd (ground arith) })

  -- What an answered call gives back: the line held, or the fail policy.
  Ends : Handoff → Option (MaskResult × Handoff) → Type 0
  Ends h x = (r : MaskResult) × (h' : Handoff) × (x ≡ some (r, h')) × Sound h' × Spent h h'

  policy-Ends :
      (g h : Handoff) (line : Text) (p : FailPolicy) (kinds : List Kind) (mode : Mode)
      → Sound h
      → Spent g h
      → Ends g (some (apply_fail_policy o line p kinds mode h))
  unfolding Ends
  policy-Ends g h line p kinds mode s n =
      let alike = apply_fail_policy-Alike line p kinds mode h in
      let (r, h') = apply_fail_policy o line p kinds mode h in
      (r, h', refl, Alike-Sound h h' alike s, Alike-Spent g h h' alike n)

  replied-Ends :
      (g : Handoff) (line : Text) (p : FailPolicy) (kinds : List Kind) (mode : Mode)
      (r : Option Text) (h : Handoff)
      → Sound h
      → Spent g h
      → Ends g (replied o line p kinds mode (some (r, h)))
  unfolding replied Ends
  replied-Ends g line p kinds mode (some job) h s n = (_, h, refl, s, n)
  replied-Ends g line p kinds mode none h s n = policy-Ends g h line p kinds mode s n

  -- A queue without room leaves an open breaker with its probe.
  refused_probe-Sound :
      (h : Handoff) (b : Bool)
      → h.is_open ≡ b
      → Few h
      → let h' = (if b then record h { allow_probe = true } else h) in Sound h' × Spent h h'
  refused_probe-Sound h true t few = (
    record {
      few = record { closed_few = few.closed_few; bounded = few.bounded };
      probe = λ _. inl refl;
    },
    record { most = omega arith; once = λ _. omega arith },
  )
  refused_probe-Sound h false t few = (
    record { few = few; probe = λ c. absurd (ground arith) },
    record { most = omega arith; once = λ _. omega arith },
  )

  enqueue_line-Ends :
      (line : Text) (p : FailPolicy) (kinds : List Kind) (mode : Mode) (h : Handoff) (room : Bool)
      → Few h
      → Ends h (enqueue_line o line p kinds mode h room)
  unfolding enqueue_line loop_item
  enqueue_line-Ends line p kinds mode h true few =
      let (r, h', e, s, n) = turn-Sound h line h.is_open refl few in
      subst (λ x. Ends h (replied o line p kinds mode x)) (sym e)
        (replied-Ends h line p kinds mode r h' s n)
  enqueue_line-Ends line p kinds mode h false few =
      let (s, n) = refused_probe-Sound h h.is_open refl few in
      policy-Ends h (if h.is_open then record h { allow_probe = true } else h) line p kinds mode s n

  -- The probe is taken before the line is queued.
  taken_probe-Ends :
      (line : Text) (p : FailPolicy) (kinds : List Kind) (mode : Mode) (h : Handoff) (room b : Bool)
      → Few h
      → Ends h (
          enqueue_line o line p kinds mode (if b then record h { allow_probe = false } else h) room)
  unfolding Ends
  taken_probe-Ends line p kinds mode h room true few =
      let (r, h', e, s, n) =
        enqueue_line-Ends line p kinds mode (record h { allow_probe = false }) room
          (record { closed_few = few.closed_few; bounded = few.bounded }) in
      (r, h', e, s, record { most = n.most; once = n.once })
  taken_probe-Ends line p kinds mode h room false few =
      enqueue_line-Ends line p kinds mode h room few

  if-Ends :
      (h : Handoff) (b : Bool) (x y : Option (MaskResult × Handoff))
      → Ends h x
      → Ends h y
      → Ends h (if b then x else y)
  if-Ends h true x y g k = g
  if-Ends h false x y g k = k

  -- From a state that a breaker can be in, `handle` returns: its loop ends, after five requests at most
  -- and after one if the breaker was open; and the state it leaves is again such a state.
  pub handle-Sound :
      (line : Text) (p : FailPolicy) (kinds : List Kind) (mode : Mode) (h : Handoff) (room : Bool)
      → Sound h
      → (r : MaskResult) × (h' : Handoff) × (handle o line p kinds mode h room ≡ some (r, h'))
        × Sound h'
        × Spent h h'
  unfolding handle Ends
  handle-Sound line p kinds mode h room s =
      let still : Spent h h = record { most = omega arith; once = λ _. omega arith } in
      let policy = policy-Ends h h line p kinds mode s still in
      if-Ends h (is_blank h.base_url) _ _ policy (
        if-Ends h (h.is_open && not h.allow_probe) _ _ policy
          (taken_probe-Ends line p kinds mode h room h.is_open s.few))
