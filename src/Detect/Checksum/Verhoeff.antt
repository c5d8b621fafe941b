-- ===== src/Detect/Checksum/Verhoeff.antt =====
-- The Verhoeff scheme: a check digit always fits, and every change of one digit and every swap of
-- two neighbours is caught.
use cold_harbour.Common.{
  ℕ, suc, ◌-◌, ◌<◌, ◌≡◌, ◌≢◌, sym, ap, ◌∙◌, true, false, [], ◌∷◌, ◌++◌, Text, arith, All, get_or,
  reverse, reverse-middle, reverse-All, length, Bool-cases, inl, inr, ◌≡⟨◌⟩◌, ◌∎, codes,
}
use cold_harbour.Detect.Checksum.Dihedral.{
  IsDigit, zero_mult, perm_zero, inv-lt, inv_mult, digit_byte,
}
use cold_harbour.Detect.Checksum.Loop.{
  step-lt, fold-lt, step-injective, steps-swap, fold-mult, fold_cancel, ok-middle, ok-middle₂,
}
use cold_harbour.Detect.Checksum.{
  mult, perm, verhoeff_inv, verhoeff_step, verhoeff_fold, verhoeff_ok, verhoeff_check,
}

-- For every payload of digits, the digit that `verhoeffCheck` returns completes it: the payload with
-- that digit behind it passes `verhoeffOK`.
pub verhoeff_check-ok :
    (payload : Text)
    → All IsDigit payload
    → verhoeff_ok (payload ++ verhoeff_check payload ∷ []) ≡ true
unfolding verhoeff_ok verhoeff_check
verhoeff_check-ok payload h =
    let back = reverse payload in
    let c = verhoeff_fold 0 1 back in
    let c-lt = fold-lt back 0 1 (omega arith) (reverse-All IsDigit payload h) in
    let inv = get_or verhoeff_inv c 0 in
    let inv-small = inv-lt c c-lt in
    let digit = get_or (codes "0123456789") inv 0 in
    let e : verhoeff_fold 0 0 (digit ∷ back) ≡ 0 =
      verhoeff_fold (mult 0 (perm 0 (digit - b'0'))) 1 back
      ≡⟨ ap (λ t. verhoeff_fold (mult 0 (perm 0 t)) 1 back)
          (omega (arith, digit_byte inv inv-small)) ⟩
        verhoeff_fold (mult 0 (perm 0 inv)) 1 back
      ≡⟨ ap (λ t. verhoeff_fold t 1 back)
          (ap (mult 0) (perm_zero inv inv-small) ∙ zero_mult inv inv-small) ⟩
        verhoeff_fold inv 1 back
      ≡⟨ fold-mult back inv 1 inv-small (reverse-All IsDigit payload h) ⟩ mult inv c
      ≡⟨ inv_mult c c-lt ⟩ 0 ∎ in
    ground (arith, ap (verhoeff_fold 0 0) (reverse-middle payload digit []), e)

-- Changing one digit of a number of digits that passes `verhoeffOK` makes it fail, wherever the digit
-- stands.
pub verhoeff_ok_one_digit :
    (pre : Text) (a b : ℕ) (post : Text)
    → All IsDigit pre
    → IsDigit a
    → IsDigit b
    → All IsDigit post
    → a ≢ b
    → verhoeff_ok (pre ++ a ∷ post) ≡ true
    → verhoeff_ok (pre ++ b ∷ post) ≡ false
verhoeff_ok_one_digit pre a b post hp ha hb hq ne ok =
    elim (Bool-cases (verhoeff_ok (pre ++ b ∷ post))) [
      | inr e ↦ e
      | inl e ↦ absurd (
          ne (
            same
              (unfold verhoeff_fold in (ok-middle pre a post ok ∙ sym (ok-middle pre b post e)))))
    ]
  where
    c : ℕ
    c = verhoeff_fold 0 0 (reverse post)

    j : ℕ
    j = length (reverse post)

    c-lt : c < 10
    c-lt = fold-lt (reverse post) 0 0 (omega arith) (reverse-All IsDigit post hq)

    same :
        verhoeff_fold (verhoeff_step c j (a - b'0')) (suc j) (reverse pre)
          ≡ verhoeff_fold (verhoeff_step c j (b - b'0')) (suc j) (reverse pre)
        → a ≡ b
    same e = step-injective c j a b c-lt ha hb (
        fold_cancel (reverse pre) _ _ (suc j) (step-lt c j a c-lt ha) (step-lt c j b c-lt hb)
          (reverse-All IsDigit pre hp) e)

-- Swapping two different neighbouring digits of a number of digits that passes `verhoeffOK` makes it
-- fail.
pub verhoeff_ok_swap :
    (pre : Text) (a b : ℕ) (post : Text)
    → All IsDigit pre
    → IsDigit a
    → IsDigit b
    → All IsDigit post
    → a ≢ b
    → verhoeff_ok (pre ++ a ∷ b ∷ post) ≡ true
    → verhoeff_ok (pre ++ b ∷ a ∷ post) ≡ false
verhoeff_ok_swap pre a b post hp ha hb hq ne ok =
    elim (Bool-cases (verhoeff_ok (pre ++ b ∷ a ∷ post))) [
      | inr e ↦ e
      | inl e ↦ absurd (
          ne (
            same (
              unfold verhoeff_fold in
              (ok-middle₂ pre a b post ok ∙ sym (ok-middle₂ pre b a post e)))))
    ]
  where
    c : ℕ
    c = verhoeff_fold 0 0 (reverse post)

    j : ℕ
    j = length (reverse post)

    c-lt : c < 10
    c-lt = fold-lt (reverse post) 0 0 (omega arith) (reverse-All IsDigit post hq)

    two : ℕ → ℕ → ℕ
    two x y = verhoeff_step (verhoeff_step c j (x - b'0')) (suc j) (y - b'0')

    two-lt : (x y : ℕ) → IsDigit x → IsDigit y → two x y < 10
    two-lt x y hx hy = step-lt (verhoeff_step c j (x - b'0')) (suc j) y (step-lt c j x c-lt hx) hy

    same :
        verhoeff_fold (two b a) (suc (suc j)) (reverse pre)
          ≡ verhoeff_fold (two a b) (suc (suc j)) (reverse pre)
        → a ≡ b
    same e = steps-swap c j a b c-lt ha hb (
        fold_cancel (reverse pre) _ _ (suc (suc j)) (two-lt b a hb ha) (two-lt a b ha hb)
          (reverse-All IsDigit pre hp) e)
