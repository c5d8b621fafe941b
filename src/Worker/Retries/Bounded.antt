-- ===== src/Worker/Retries/Bounded.antt =====
-- A job is tried three times, and the dead letters hold no input.
use cold_harbour.Common.{
  ℕ, ◌≡◌, refl, sym, ◌∙◌, ap, Bool, true, false, not, Option, none, some, List, [], ◌∷◌, Text,
  codes, arith, text_eq, ltb, All, Bool-cases, inl, inr, ◌↔◌, update_text-same, All-snoc,
}
use cold_harbour.Worker.Stream.{StreamId}
use cold_harbour.Worker.Retries.{
  Fields, Lanes, retry, bury, without_input, bury_fields, attempt, try_again, give_up, settle,
  is_last_try,
}

abbrev pub NoInput : Fields → Type 0
NoInput = All (λ f. text_eq f.0 (codes "input") ≡ false)

without_input-NoInput : (fs : Fields) → NoInput (without_input fs)
unfolding without_input
without_input-NoInput [] = tt
without_input-NoInput ((key, text) ∷ rest) = elim (Bool-cases (text_eq key (codes "input"))) [
  | inl e ↦ rw e (without_input-NoInput rest)
  | inr e ↦ rw e (e, without_input-NoInput rest)
]

bury_fields-NoInput :
    (dead : List Fields) (fs : Fields)
    → All NoInput dead
    → NoInput fs
    → All NoInput (bury_fields dead fs)
unfolding bury_fields
bury_fields-NoInput dead [] h k = h
bury_fields-NoInput dead (f ∷ fs) h k = All-snoc NoInput dead (f ∷ fs) h k

-- Whether it buries the job or not, `settle` leaves no input among the dead letters, if there was none.
pub settle-NoInput :
    (l : Lanes) (fresh : StreamId) (job : Text) (entry : StreamId) (force : Bool) (fields : Fields)
    → All NoInput l.dead
    → All NoInput (settle l fresh job entry force fields).1.dead
unfolding settle try_again give_up
settle-NoInput l fresh job entry true fields h =
    bury_fields-NoInput l.dead (without_input fields) h (without_input-NoInput fields)
settle-NoInput l fresh job entry false fields h =
    elim (Bool-cases (ltb (attempt (l.retries job)) 3)) [
      | inl e ↦ rw e h
      | inr e ↦
          rw e (bury_fields-NoInput l.dead (without_input fields) h (without_input-NoInput fields))
    ]

settle-retry :
    (l : Lanes) (fresh : StreamId) (job : Text) (entry : StreamId) (fields : Fields) (n : ℕ)
    → attempt (l.retries job) ≡ n
    → ltb n 3 ≡ true
    → ((settle l fresh job entry false fields).0 ≡ (retry, n))
      × ((settle l fresh job entry false fields).1.retries job ≡ some n)
unfolding settle try_again
settle-retry l fresh job entry fields n e small =
    rw (e, small) (refl, update_text-same l.retries job (some n))

settle-bury :
    (l : Lanes) (fresh : StreamId) (job : Text) (entry : StreamId) (fields : Fields) (n : ℕ)
    → attempt (l.retries job) ≡ n
    → ltb n 3 ≡ false
    → ((settle l fresh job entry false fields).0 ≡ (bury, n))
      × ((settle l fresh job entry false fields).1.retries job ≡ none)
unfolding settle give_up
settle-bury l fresh job entry fields n e large =
    rw (e, large) (refl, update_text-same l.retries job none)

pub attempt-is_last_try : (o : Option ℕ) → ltb (attempt o) 3 ≡ not (is_last_try o)
unfolding attempt is_last_try
attempt-is_last_try none = refl
attempt-is_last_try (some n) = ground arith

-- `settle` without force buries a job exactly when the counter that it finds meets the test by which
-- `fail` takes this for the last try.
pub settle-is_last_try :
    (l : Lanes) (fresh : StreamId) (job : Text) (entry : StreamId) (fields : Fields)
    → ((settle l fresh job entry false fields).0.0 ≡ bury) ↔ (is_last_try (l.retries job) ≡ true)
settle-is_last_try l fresh job entry fields =
    let n = attempt (l.retries job) in
    let last = attempt-is_last_try (l.retries job) in
    elim (Bool-cases (ltb n 3)) [
      | inl small ↦
          let (tried, _) = settle-retry l fresh job entry fields n refl small in (λ e. cc, λ e. cc)
      | inr large ↦
          let (buried, _) = settle-bury l fresh job entry fields n refl large in
          (λ e. let q = sym last ∙ large in ground arith, λ e. ap (λ t. t.0) buried)
    ]

-- A job that fails is tried three times: from no counter, the first two calls of `settle` without force
-- ask for another try and count it, the third buries the job and forgets the counter.
pub settle_three :
    (l : Lanes) (job : Text) (a b c x y z : StreamId) (fields : Fields)
    → l.retries job ≡ none
    → let first = settle l x job a false fields in
      let second = settle first.1 y job b false fields in
      let third = settle second.1 z job c false fields in
      (first.0 ≡ (retry, 1))
      × (second.0 ≡ (retry, 2))
      × (third.0 ≡ (bury, 3))
      × (third.1.retries job ≡ none)
unfolding attempt
settle_three l job a b c x y z fields e =
    let first = settle l x job a false fields in
    let second = settle first.1 y job b false fields in
    let (tried, once) = settle-retry l x job a fields 1 (ap attempt e) refl in
    let (tried', twice) = settle-retry first.1 y job b fields 2 (ap attempt once) refl in
    let (buried, gone) = settle-bury second.1 z job c fields 3 (ap attempt twice) refl in
    (tried, tried', buried, gone)
