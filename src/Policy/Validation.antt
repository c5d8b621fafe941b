-- ===== src/Policy/Validation.antt =====
-- Which documents `Parse` accepts.
use cold_harbour.Common.{
  ℕ, zero, suc, ◌≤◌, false, ◌≡◌, ◌≢◌, ◌⊎◌, inl, inr, refl, true, false, Option, some, List, [], ◌∷◌,
  Text, arith, All, Any, ◌↔◌, Option-cases, ap, ◌∙◌, subst,
}
use cold_harbour.Detect.Span.{Kind, email, phone_us, phone_in, ssn, aadhaar, pan, credit_card, ip}
use cold_harbour.Detect.Apply.{Mode, redact, partial, tokenize}
use cold_harbour.Policy.{
  ℤ, pos, negsuc, FailPolicy, closed, inline, open_lines, Doc, accepted, rejected, detectors_field,
  is_known, all_known, mode_allowed, fail_policy_allowed, at_least_one, validate, parse, is_empty,
}

-- Is it in the list?
abbrev pub OneOf : {A : Type 0} → A → List A → Type 0
OneOf a listed = Any (λ t. a ≡ t) listed

-- What a policy may say, apart from the code's tests: its kinds, modes and fail policies, and a limit of
-- one byte or more.
abbrev pub known_kinds : List Kind
known_kinds = email ∷ phone_us ∷ phone_in ∷ ssn ∷ aadhaar ∷ pan ∷ []

pub record IsValid (doc : Doc) : Type 0 where
  pub some_detector : doc.detectors ≢ []
  pub known : All (λ k. OneOf k known_kinds) doc.detectors
  pub mode : OneOf doc.mode (redact ∷ partial ∷ [])
  pub fail_policy : OneOf doc.fail_policy (closed ∷ inline ∷ open_lines ∷ [])
  pub room : (n : ℕ) × (doc.max_inline_bytes ≡ pos n) × (1 ≤ n)

is_known-OneOf : (k : Kind) → is_known k ≡ true → OneOf k known_kinds
unfolding is_known
is_known-OneOf email h = inl refl
is_known-OneOf phone_us h = inr (inl refl)
is_known-OneOf phone_in h = inr (inr (inl refl))
is_known-OneOf ssn h = inr (inr (inr (inl refl)))
is_known-OneOf aadhaar h = inr (inr (inr (inr (inl refl))))
is_known-OneOf pan h = inr (inr (inr (inr (inr (inl refl)))))
is_known-OneOf credit_card h = absurd (ground arith)
is_known-OneOf ip h = absurd (ground arith)
is_known-OneOf (Kind.other t) h = absurd (ground arith)

OneOf-is_known : (k : Kind) → OneOf k known_kinds → is_known k ≡ true
unfolding is_known
OneOf-is_known k (inl e) = rw e refl
OneOf-is_known k (inr (inl e)) = rw e refl
OneOf-is_known k (inr (inr (inl e))) = rw e refl
OneOf-is_known k (inr (inr (inr (inl e)))) = rw e refl
OneOf-is_known k (inr (inr (inr (inr (inl e))))) = rw e refl
OneOf-is_known k (inr (inr (inr (inr (inr (inl e)))))) = rw e refl
OneOf-is_known k (inr (inr (inr (inr (inr (inr e)))))) = absurd e

mode_allowed-OneOf : (m : Mode) → mode_allowed m ≡ true → OneOf m (redact ∷ partial ∷ [])
unfolding mode_allowed
mode_allowed-OneOf redact h = inl refl
mode_allowed-OneOf partial h = inr (inl refl)
mode_allowed-OneOf tokenize h = absurd (ground arith)
mode_allowed-OneOf (Mode.other t) h = absurd (ground arith)

pub OneOf-mode_allowed : (m : Mode) → OneOf m (redact ∷ partial ∷ []) → mode_allowed m ≡ true
unfolding mode_allowed
OneOf-mode_allowed m (inl e) = rw e refl
OneOf-mode_allowed m (inr (inl e)) = rw e refl
OneOf-mode_allowed m (inr (inr e)) = absurd e

fail_policy_allowed-OneOf :
    (p : FailPolicy) → fail_policy_allowed p ≡ true → OneOf p (closed ∷ inline ∷ open_lines ∷ [])
unfolding fail_policy_allowed
fail_policy_allowed-OneOf closed h = inl refl
fail_policy_allowed-OneOf inline h = inr (inl refl)
fail_policy_allowed-OneOf open_lines h = inr (inr (inl refl))
fail_policy_allowed-OneOf (FailPolicy.other t) h = absurd (ground arith)

pub OneOf-fail_policy_allowed :
    (p : FailPolicy) → OneOf p (closed ∷ inline ∷ open_lines ∷ []) → fail_policy_allowed p ≡ true
unfolding fail_policy_allowed
OneOf-fail_policy_allowed p (inl e) = rw e refl
OneOf-fail_policy_allowed p (inr (inl e)) = rw e refl
OneOf-fail_policy_allowed p (inr (inr (inl e))) = rw e refl
OneOf-fail_policy_allowed p (inr (inr (inr e))) = absurd e

at_least_one-room : (z : ℤ) → at_least_one z ≡ true → (n : ℕ) × (z ≡ pos n) × (1 ≤ n)
unfolding at_least_one
at_least_one-room (pos zero) h = absurd (ground arith)
at_least_one-room (pos (suc n)) h = (suc n, refl, omega arith)
at_least_one-room (negsuc n) h = absurd (ground arith)

at_least_one-pos : (n : ℕ) → 1 ≤ n → at_least_one (pos n) ≡ true
unfolding at_least_one
at_least_one-pos zero h = absurd (omega arith)
at_least_one-pos (suc n) h = refl

pub room-at_least_one : (z : ℤ) → (n : ℕ) × (z ≡ pos n) × (1 ≤ n) → at_least_one z ≡ true
room-at_least_one z (n, e, h) = rw e (at_least_one-pos n h)

all_known-All : (ks : List Kind) → all_known ks ≡ true → All (λ k. OneOf k known_kinds) ks
unfolding all_known
all_known-All [] h = tt
all_known-All (k ∷ ks) h =
    let (first, rest) : (is_known k ≡ true) × (all_known ks ≡ true) = ground arith in
    (is_known-OneOf k first, all_known-All ks rest)

All-all_known : (ks : List Kind) → All (λ k. OneOf k known_kinds) ks → all_known ks ≡ true
unfolding all_known
All-all_known [] h = refl
All-all_known (k ∷ ks) h = rw (OneOf-is_known k h.0) (All-all_known ks h.1)

is_empty-false : (ks : List Kind) → is_empty ks ≡ false → ks ≢ []
unfolding is_empty
is_empty-false [] h = cc
is_empty-false (k ∷ ks) h = λ e. cc

not-is_empty : (ks : List Kind) → ks ≢ [] → is_empty ks ≡ false
unfolding is_empty
not-is_empty [] h = absurd (h refl)
not-is_empty (k ∷ ks) h = refl

-- The code's tests, all passed.
abbrev Passes : Doc → Type 0
Passes doc =
    (is_empty doc.detectors ≡ false)
    × (all_known doc.detectors ≡ true)
    × (mode_allowed doc.mode ≡ true)
    × (fail_policy_allowed doc.fail_policy ≡ true)
    × (at_least_one doc.max_inline_bytes ≡ true)

validate-Passes : (doc doc' : Doc) → validate doc ≡ accepted doc' → (doc ≡ doc') × Passes doc
unfolding validate
validate-Passes doc doc' h = ground arith

validate-IsValid : (doc doc' : Doc) → validate doc ≡ accepted doc' → (doc ≡ doc') × IsValid doc
validate-IsValid doc doc' h =
    let (same, (full, known, mode, fail, room)) = validate-Passes doc doc' h in
    (
      same,
      record {
        some_detector = is_empty-false doc.detectors full;
        known = all_known-All doc.detectors known;
        mode = mode_allowed-OneOf doc.mode mode;
        fail_policy = fail_policy_allowed-OneOf doc.fail_policy fail;
        room = at_least_one-room doc.max_inline_bytes room;
      },
    )

IsValid-validate : (doc : Doc) → IsValid doc → validate doc ≡ accepted doc
unfolding validate
IsValid-validate doc v = rw (
  not-is_empty doc.detectors v.some_detector,
  All-all_known doc.detectors v.known,
  OneOf-mode_allowed doc.mode v.mode,
  OneOf-fail_policy_allowed doc.fail_policy v.fail_policy,
  room-at_least_one doc.max_inline_bytes v.room,
)

module _ (decode : Text → Option Doc) (raw : Text) (doc : Doc) where
  forth : parse decode raw ≡ accepted doc → (decode raw ≡ some doc) × IsValid doc
  unfolding parse
  forth h = elim (Option-cases (decode raw)) [
    | inl e ↦ ground arith
    | inr (d, e) ↦
        let (same, valid) = validate-IsValid d doc (rw (e, parse) at h) in
        (e ∙ ap some same, subst IsValid same valid)
  ]

  back : (decode raw ≡ some doc) × IsValid doc → parse decode raw ≡ accepted doc
  unfolding parse
  back (e, v) = rw (e, parse) (IsValid-validate doc v)

unknown : (ks : List Kind) → Any (λ k. (k ≡ credit_card) ⊎ (k ≡ ip)) ks → all_known ks ≡ false
unfolding all_known
unknown [] h = absurd h
unknown (k ∷ ks) (inl (inl e)) = rw e
unknown (k ∷ ks) (inl (inr e)) = rw e
unknown (k ∷ ks) (inr h) = ground (arith, unknown ks h)

-- `Parse` accepts a text exactly when it decodes to a document with at least one detector, each of
-- them one of the six known kinds, the mode `redact` or `partial`, one of the three fail policies, and a line limit of one or more;
-- it then returns that document.
pub parse-accepted :
    (decode : Text → Option Doc) (raw : Text) (doc : Doc)
    → (parse decode raw ≡ accepted doc) ↔ ((decode raw ≡ some doc) × IsValid doc)
parse-accepted decode raw doc = (forth decode raw doc, back decode raw doc)

rejects :
    (doc : Doc)
    → Any (λ k. (k ≡ credit_card) ⊎ (k ≡ ip)) doc.detectors
    → validate doc ≡ rejected detectors_field
unfolding validate
rejects doc asks = ground (arith, unknown doc.detectors asks)

-- A text that decodes to a document with the card detector or the address detector among its detectors
-- is refused by `Parse` with the field error "detectors", whatever else it says.
pub parse_rejects_card_or_ip :
    (decode : Text → Option Doc) (raw : Text) (doc : Doc)
    → decode raw ≡ some doc
    → Any (λ k. (k ≡ credit_card) ⊎ (k ≡ ip)) doc.detectors
    → parse decode raw ≡ rejected detectors_field
unfolding parse
parse_rejects_card_or_ip decode raw doc e asks = rw (e, parse) (rejects doc asks)
