-- ===== src/Sentinel/Handoff/Steps.antt =====
-- The hand-off as it runs: lines come, and timers fire.
use cold_harbour.Common.{
  ◌-◌, ◌<◌, ◌≡◌, refl, sym, ap, subst, ◌∙◌, Bool, true, false, Option, none, some, List, Text,
  arith, inl, suc, inr,
}
use cold_harbour.Detect.Span.{Kind}
use cold_harbour.Detect.Apply.{Mode}
use cold_harbour.Policy.{FailPolicy}
use cold_harbour.Worker.Stream.{is_blank}
use cold_harbour.Sentinel.Handoff.{
  MaskResult, Handoff, Outside, new_handoff, post, handle, held_line, enqueue_line, loop_item,
  replied,
}
use cold_harbour.Sentinel.Handoff.Breaker.{Sound, handle-Sound}

abbrev pub fired : Handoff → Handoff
fired h = record h { allow_probe = true; timers = h.timers - 1 }

-- A line is handled, or the function of a timer runs.
pub data Step (o : Outside) : Handoff → Handoff → Type 0 where
  line_handled :
      {h h' : Handoff}
      → (line : Text) (p : FailPolicy) (kinds : List Kind) (mode : Mode) (room : Bool)
        (r : MaskResult)
      → handle o line p kinds mode h room ≡ some (r, h')
      → Step o h h'
  timer_fired : {h : Handoff} → 0 < h.timers → Step o h (fired h)

pub data Reach (o : Outside) (start : Handoff) : Handoff → Type 0 where
  here : Reach o start start
  next : {h h' : Handoff} → Reach o start h → Step o h h' → Reach o start h'

state_or : Handoff → Option (MaskResult × Handoff) → Handoff
state_or h none = h
state_or h (some (r, h')) = h'

Step-Sound : {o : Outside} {h h' : Handoff} → Step o h h' → Sound h → Sound h'
unfolding state_or
Step-Sound {o} {h} {h'} (line_handled line p kinds mode room r e) s =
    let (_, h2, e2, s2, _) = handle-Sound o line p kinds mode h room s in
    subst Sound (ap (state_or h) (sym e2 ∙ e)) s2
Step-Sound {o} {h} {h'} (timer_fired some_left) s = record {
  few = record { closed_few = s.few.closed_few; bounded = s.few.bounded };
  probe = λ _. inl refl;
}

Reach-Sound : {o : Outside} {start h : Handoff} → Sound start → Reach o start h → Sound h
Reach-Sound s here = s
Reach-Sound s (next r t) = Step-Sound t (Reach-Sound s r)

new_handoff-Sound : (url key : Text) (allowed : Bool) → Sound (new_handoff url key allowed)
new_handoff-Sound url key allowed = record {
  few = record { closed_few = λ _. omega arith; bounded = omega arith };
  probe = λ c. absurd (ground arith);
}

-- In every state that a hand-off reaches from its start: the counter of failures is at most five, and
-- below five while the breaker is closed; and an open breaker lets a line through, or has a timer running
-- after which it will.
pub breaker_reached :
    (o : Outside) (url key : Text) (allowed : Bool) (h : Handoff)
    → Reach o (new_handoff url key allowed) h
    → Sound h
breaker_reached o url key allowed h r = Reach-Sound (new_handoff-Sound url key allowed) r

-- With a probe allowed, a line that the control plane takes closes the breaker.
Closes : Outside → Text → FailPolicy → List Kind → Mode → Text → Handoff → Type 0
Closes o line p kinds mode job h =
    post o h line ≡ some job
    → (h' : Handoff) × (handle o line p kinds mode h true ≡ some (held_line job, h'))
      × (h'.is_open ≡ false)
      × (h'.failures ≡ 0)

probe-Closes :
    (o : Outside) (line : Text) (p : FailPolicy) (kinds : List Kind) (mode : Mode) (h : Handoff)
    (job : Text)
    → is_blank h.base_url ≡ false
    → Closes o line p kinds mode job (record h { is_open = true; allow_probe = true })
unfolding Closes handle enqueue_line loop_item replied post
probe-Closes o line p kinds mode h job url taken = (
  record h { failures = 0; is_open = false; allow_probe = false; posts = suc h.posts },
  rw (url, taken),
  refl,
  refl,
)

probed-Closes :
    (o : Outside) (line : Text) (p : FailPolicy) (kinds : List Kind) (mode : Mode) (h : Handoff)
    (job : Text)
    → is_blank h.base_url ≡ false
    → h.is_open ≡ true
    → h.allow_probe ≡ true
    → Closes o line p kinds mode job h
probed-Closes o line p kinds mode h job url t probe =
    subst (λ b. Closes o line p kinds mode job (record h { allow_probe = b })) (sym probe)
      (subst (λ a. Closes o line p kinds mode job (record h { is_open = a; allow_probe = true }))
        (sym t) (probe-Closes o line p kinds mode h job url))

-- From every state that a hand-off reaches, with the breaker open, at most the firing of a timer leads to
-- one in which a line, if the queue takes it and the control plane answers the next request with a job, is
-- held under that job, and closes the breaker with its counter at zero.
pub breaker_recloses :
    (o : Outside) (url key : Text) (allowed : Bool) (h : Handoff) (line : Text) (p : FailPolicy)
    (kinds : List Kind) (mode : Mode) (job : Text)
    → Reach o (new_handoff url key allowed) h
    → is_blank h.base_url ≡ false
    → h.is_open ≡ true
    → post o h line ≡ some job
    → (h1 : Handoff) × (h2 : Handoff) × Reach o h h1
      × (handle o line p kinds mode h1 true ≡ some (held_line job, h2))
      × (h2.is_open ≡ false)
      × (h2.failures ≡ 0)
unfolding Closes post
breaker_recloses o url key allowed h line p kinds mode job r named t taken =
    elim ((breaker_reached o url key allowed h r).probe t) [
      | inl probe ↦
          let (h2, held, shut, zeroed) =
            probed-Closes o line p kinds mode h job named t probe taken in
          (h, h2, here, held, shut, zeroed)
      | inr left ↦
          let (h2, held, shut, zeroed) =
            probed-Closes o line p kinds mode (fired h) job named t refl taken in
          (fired h, h2, next here (timer_fired left), held, shut, zeroed)
    ]
