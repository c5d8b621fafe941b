-- ===== src/Detect/Regex/Bounds.antt =====
-- Every match lies in the text, is not empty, and begins where the one before it ended or later.
use cold_harbour.Common.{
  ℕ, zero, suc, ◌+◌, ◌-◌, ◌≤◌, ◌<◌, ◌≡◌, Bool, Option, none, some, List, [], ◌∷◌, Text, arith,
  length, min, Option-cases, inl, inr,
}
use cold_harbour.Detect.Regex.{
  Regex, empty, set, seq, alt, many, boundary, Rest, match_set, match_many, match_from, accept,
  find_from, find_all,
}

-- The length of the shortest text that the pattern can match.
abbrev pub min_length : Regex → ℕ
min_length empty = 0
min_length (set p) = 1
min_length (seq a b) = min_length a + min_length b
min_length (alt a b) = min (min_length a) (min_length b)
min_length (many p) = 0
min_length boundary = 0

-- A rest that goes at least `n` further and stays in the text.
abbrev Within : ℕ → Rest → Type 0
Within n k =
    (pos e : ℕ) (prev : Option ℕ) (cs : Text)
    → k pos prev cs ≡ some e
    → (pos + n ≤ e) × (e ≤ pos + length cs)

Within-le : (n m : ℕ) (k : Rest) → m ≤ n → Within n k → Within m k
Within-le n m k l w pos e prev cs h = let p = w pos e prev cs h in omega arith

match_set-Within : (p : ℕ → Bool) (n : ℕ) (k : Rest) → Within n k → Within (suc n) (match_set p k)
unfolding match_set
match_set-Within p n k w pos e prev [] h = cc
match_set-Within p n k w pos e prev (c ∷ cs) h = ground (arith, w (suc pos) e (some c) cs)

match_many-Within : (p : ℕ → Bool) (n : ℕ) (k : Rest) → Within n k → Within n (match_many p k)
unfolding match_many
match_many-Within p n k w pos e prev [] h = w pos e prev [] h
match_many-Within p n k w pos e prev (c ∷ cs) h =
    ground (arith, w pos e prev (c ∷ cs), match_many-Within p n k w (suc pos) e (some c) cs)

match_from-Within :
    (r : Regex) (n : ℕ) (k : Rest) → Within n k → Within (min_length r + n) (match_from r k)
unfolding match_from
match_from-Within empty n k w = Within-le n (0 + n) k (omega arith) w
match_from-Within (set p) n k w =
    Within-le (suc n) (1 + n) (match_set p k) (omega arith) (match_set-Within p n k w)
match_from-Within (seq a b) n k w =
    Within-le (min_length a + (min_length b + n)) (min_length a + min_length b + n)
      (match_from a (match_from b k)) (omega arith)
      (match_from-Within a (min_length b + n) (match_from b k) (match_from-Within b n k w))
match_from-Within (alt a b) n k w = λ pos e prev cs h.
    ground (arith, match_from-Within a n k w pos e prev cs, match_from-Within b n k w pos e prev cs)
match_from-Within (many p) n k w =
    Within-le n (0 + n) (match_many p k) (omega arith) (match_many-Within p n k w)
match_from-Within boundary n k w = λ pos e prev cs h. ground (arith, w pos e prev cs)

accept-Within : Within 0 accept
accept-Within pos e prev cs h = ground arith

-- Matches in order, apart, not empty, from `lo` to `hi`.
abbrev pub Located : ℕ → ℕ → List (ℕ × ℕ) → Type 0
Located lo hi [] = Unit {0}
Located lo hi ((a, b) ∷ ls) = (lo ≤ a) × (a < b) × (b ≤ hi) × Located b hi ls

Located-le :
    (lo lo' hi hi' : ℕ) (ls : List (ℕ × ℕ))
    → lo' ≤ lo
    → hi ≤ hi'
    → Located lo hi ls
    → Located lo' hi' ls
Located-le lo lo' hi hi' [] h g l = tt
Located-le lo lo' hi hi' ((a, b) ∷ ls) h g l =
    (omega arith, l.1, omega arith, Located-le b b hi hi' ls (omega arith) g l.3)

find_from-Located :
    (r : Regex) (skip pos : ℕ) (prev : Option ℕ) (cs : Text)
    → 0 < min_length r
    → Located (pos + skip) (pos + length cs) (find_from r skip pos prev cs)
unfolding find_from
find_from-Located r skip pos prev [] h = tt
find_from-Located r (suc skip) pos prev (c ∷ cs) h =
    Located-le _ _ _ _ (find_from r skip (suc pos) (some c) cs) (omega arith) (omega arith)
      (find_from-Located r skip (suc pos) (some c) cs h)
find_from-Located r zero pos prev (c ∷ cs) h =
    elim (Option-cases (match_from r accept pos prev (c ∷ cs))) [
      | inl e ↦
          rw (e, find_from)
            (Located-le _ _ _ _ (find_from r 0 (suc pos) (some c) cs) (omega arith) (omega arith)
              (find_from-Located r 0 (suc pos) (some c) cs h))
      | inr (b, e) ↦
          let w = match_from-Within r 0 accept accept-Within pos b prev (c ∷ cs) e in
          rw (e, find_from)
            (
              omega arith,
              omega arith,
              omega arith,
              Located-le _ _ _ _ (find_from r (b - pos - 1) (suc pos) (some c) cs) (omega arith)
                  (omega arith) (find_from-Located r (b - pos - 1) (suc pos) (some c) cs h),
            )
    ]

-- For every text and every pattern whose shortest match is not empty, the matches of
-- `FindAllStringIndex` are not empty, lie inside the text, and follow one another without overlap.
pub find_all-Located :
    (r : Regex) (s : Text) → 0 < min_length r → Located 0 (length s) (find_all r s)
unfolding find_all
find_all-Located r s h =
    Located-le _ _ _ _ (find_from r 0 0 none s) (omega arith) (omega arith)
      (find_from-Located r 0 0 none s h)
