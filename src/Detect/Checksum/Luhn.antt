-- ===== src/Detect/Checksum/Luhn.antt =====
-- The Luhn sum: every change of one digit is caught.
use cold_harbour.Common.{
  ℕ, ◌+◌, ◌-◌, ◌%◌, ◌≡◌, ap, ◌∙◌, Bool, not, [], ◌∷◌, ◌++◌, Text, arith, ◌==◌, All, true, false,
  reverse, All-append, ◌<◌, reverse-All, ◌≢◌, reverse-middle, Bool-cases, inr, inl,
}
use cold_harbour.Detect.Regex.{is_digit}
use cold_harbour.Detect.Checksum.Dihedral.{IsDigit, IsDigit-lt, IsDigit-injective}
use cold_harbour.Detect.Checksum.{luhn_digit, luhn_fold, luhn_ok}

-- The sum that the loop adds up, and whether it doubles the digit behind `xs`.
total : Bool → Text → ℕ
total alternate [] = 0
total alternate (b ∷ bs) = luhn_digit alternate (b - b'0') + total (not alternate) bs

turn : Bool → Text → Bool
turn alternate [] = alternate
turn alternate (b ∷ bs) = turn (not alternate) bs

total-append :
    (xs ys : Text) (alternate : Bool)
    → total alternate (xs ++ ys) ≡ total alternate xs + total (turn alternate xs) ys
unfolding total turn
total-append [] ys alternate = omega arith
total-append (x ∷ xs) ys alternate = omega (arith, total-append xs ys (not alternate))

luhn_fold-total :
    (bs : Text) (sum : ℕ) (alternate : Bool)
    → All IsDigit bs
    → luhn_fold sum alternate bs ≡ ((sum + total alternate bs) % 10 == 0)
unfolding luhn_fold total is_digit
luhn_fold-total [] sum alternate h = ap (λ t. t % 10 == 0) (omega arith)
luhn_fold-total (b ∷ bs) sum alternate h = rw h.0 (
    luhn_fold-total bs (sum + luhn_digit alternate (b - b'0')) (not alternate) h.1
    ∙ ap (λ t. t % 10 == 0) (omega arith))

luhn_digit-lt : (alternate : Bool) (n : ℕ) → n < 10 → luhn_digit alternate n < 10
unfolding luhn_digit
luhn_digit-lt false n h = h
luhn_digit-lt true n h = ground arith

luhn_digit-injective :
    (alternate : Bool) (m n : ℕ)
    → m < 10
    → n < 10
    → luhn_digit alternate m ≡ luhn_digit alternate n
    → m ≡ n
unfolding luhn_digit
luhn_digit-injective false m n p q e = e
luhn_digit-injective true m n p q e = ground arith

same_rest :
    (x y u v : ℕ) → u < 10 → v < 10 → (x + (u + y)) % 10 ≡ 0 → (x + (v + y)) % 10 ≡ 0 → u ≡ v
same_rest x y u v p q e f = omega arith

-- The sum of a number around its digit `a`, counted from the last digit.
ok-total :
    (pre : Text) (a : ℕ) (post : Text)
    → All IsDigit pre
    → IsDigit a
    → All IsDigit post
    → luhn_ok (pre ++ a ∷ post) ≡ true
    → let turned = turn false (reverse post) in
      (total false (reverse post)
          + (luhn_digit turned (a - b'0') + total (not turned) (reverse pre)))
        % 10
      ≡ 0
unfolding luhn_ok total
ok-total pre a post hp ha hq ok =
    let back = reverse post ++ a ∷ reverse pre in
    let digits =
      All-append IsDigit (reverse post) (a ∷ reverse pre) (reverse-All IsDigit post hq)
        (ha, reverse-All IsDigit pre hp) in
    let e =
      ap (luhn_fold 0 false) (reverse-middle pre a post) ∙ luhn_fold-total back 0 false digits in
    ground (arith, e, ok, total-append (reverse post) (a ∷ reverse pre) false)

-- Changing one digit of a number of digits that passes `luhnOK` makes it fail, wherever the digit
-- stands.
pub luhn_ok_one_digit :
    (pre : Text) (a b : ℕ) (post : Text)
    → All IsDigit pre
    → IsDigit a
    → IsDigit b
    → All IsDigit post
    → a ≢ b
    → luhn_ok (pre ++ a ∷ post) ≡ true
    → luhn_ok (pre ++ b ∷ post) ≡ false
luhn_ok_one_digit pre a b post hp ha hb hq ne ok = elim (Bool-cases (luhn_ok (pre ++ b ∷ post))) [
  | inr e ↦ e
  | inl e ↦
      let turned = turn false (reverse post) in
      let a-lt = IsDigit-lt a ha in
      let b-lt = IsDigit-lt b hb in
      absurd (
        ne (
          IsDigit-injective a b ha hb (
            luhn_digit-injective turned _ _ a-lt b-lt (
              same_rest (total false (reverse post)) (total (not turned) (reverse pre)) _ _
                (luhn_digit-lt turned _ a-lt) (luhn_digit-lt turned _ b-lt)
                (ok-total pre a post hp ha hq ok) (ok-total pre b post hp hb hq e)))))
]
