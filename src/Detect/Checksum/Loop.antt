-- ===== src/Detect/Checksum/Loop.antt =====
-- The loop that `verhoeffOK` and `verhoeffCheck` share, and what it makes of a digit inside a number.
use cold_harbour.Common.{
  ℕ, suc, ◌+◌, ◌-◌, ◌%◌, ◌<◌, ◌≡◌, sym, ap, ◌∙◌, true, [], ◌∷◌, ◌++◌, Text, arith, All, reverse,
  reverse-middle, length, ◌≡⟨◌⟩◌, ◌∎, subst, reverse-cons, append_assoc,
}
use cold_harbour.Detect.Checksum.Dihedral.{
  IsDigit, IsDigit-lt, IsDigit-injective, mult-lt, mult_assoc, mult_cancel, mult_cancel_right,
  zero_mult, mult_zero, perm-lt, perm_injective, swap_changes,
}
use cold_harbour.Detect.Checksum.{mult, perm, verhoeff_step, verhoeff_fold, verhoeff_ok}

pub step-lt : (c j b : ℕ) → c < 10 → IsDigit b → verhoeff_step c j (b - b'0') < 10
unfolding verhoeff_step
step-lt c j b p h = mult-lt c _ p (perm-lt (j % 8) (b - b'0') (omega arith) (IsDigit-lt b h))

pub fold-lt : (bs : Text) (c j : ℕ) → c < 10 → All IsDigit bs → verhoeff_fold c j bs < 10
unfolding verhoeff_fold
fold-lt [] c j p h = p
fold-lt (b ∷ bs) c j p h =
    fold-lt bs (verhoeff_step c j (b - b'0')) (suc j) (step-lt c j b p h.0) h.1

pub step-mult :
    (c j b : ℕ)
    → c < 10
    → IsDigit b
    → verhoeff_step c j (b - b'0') ≡ mult c (verhoeff_step 0 j (b - b'0'))
unfolding verhoeff_step
step-mult c j b p h =
    ap (mult c) (sym (zero_mult _ (perm-lt (j % 8) (b - b'0') (omega arith) (IsDigit-lt b h))))

pub step-injective :
    (c j a b : ℕ)
    → c < 10
    → IsDigit a
    → IsDigit b
    → verhoeff_step c j (a - b'0') ≡ verhoeff_step c j (b - b'0')
    → a ≡ b
unfolding verhoeff_step
step-injective c j a b p ha hb e =
    let r = j % 8 in
    let r-lt : r < 8 = omega arith in
    let a-lt = IsDigit-lt a ha in
    let b-lt = IsDigit-lt b hb in
    IsDigit-injective a b ha hb (
      perm_injective r _ _ r-lt a-lt b-lt
        (mult_cancel c _ _ p (perm-lt r _ r-lt a-lt) (perm-lt r _ r-lt b-lt) e))

pub steps-swap :
    (c j a b : ℕ)
    → c < 10
    → IsDigit a
    → IsDigit b
    → verhoeff_step (verhoeff_step c j (b - b'0')) (suc j) (a - b'0')
      ≡ verhoeff_step (verhoeff_step c j (a - b'0')) (suc j) (b - b'0')
    → a ≡ b
unfolding verhoeff_step
steps-swap c j a b p ha hb e =
    let next : suc j % 8 ≡ (j % 8 + 1) % 8 = omega arith in
    let r-lt : j % 8 < 8 = omega arith in
    let s-lt : suc j % 8 < 8 = omega arith in
    let a-lt = IsDigit-lt a ha in
    let b-lt = IsDigit-lt b hb in
    let pa = perm-lt (j % 8) _ r-lt a-lt in
    let pb = perm-lt (j % 8) _ r-lt b-lt in
    let qa = perm-lt (suc j % 8) _ s-lt a-lt in
    let qb = perm-lt (suc j % 8) _ s-lt b-lt in
    let e' =
      mult_cancel c _ _ p (mult-lt _ _ pb qa) (mult-lt _ _ pa qb)
        (sym (mult_assoc c _ _ p pb qa) ∙ e ∙ mult_assoc c _ _ p pa qb) in
    IsDigit-injective a b ha hb (
      swap_changes (j % 8) _ _ r-lt a-lt b-lt (
        subst
          (λ t.
            mult (perm (j % 8) (a - b'0')) (perm t (b - b'0'))
            ≡ mult (perm (j % 8) (b - b'0')) (perm t (a - b'0')))
          next (sym e')))

-- A start value factors out of the loop.
pub fold-mult :
    (bs : Text) (c j : ℕ)
    → c < 10
    → All IsDigit bs
    → verhoeff_fold c j bs ≡ mult c (verhoeff_fold 0 j bs)
unfolding verhoeff_fold
fold-mult [] c j p h = sym (mult_zero c p)
fold-mult (b ∷ bs) c j p h =
    let s = verhoeff_step 0 j (b - b'0') in
    let s-lt = step-lt 0 j b (omega arith) h.0 in
    let rest = verhoeff_fold 0 (suc j) bs in
    verhoeff_fold (verhoeff_step c j (b - b'0')) (suc j) bs
    ≡⟨ ap (λ t. verhoeff_fold t (suc j) bs) (step-mult c j b p h.0) ⟩
      verhoeff_fold (mult c s) (suc j) bs
    ≡⟨ fold-mult bs (mult c s) (suc j) (mult-lt c s p s-lt) h.1 ⟩ mult (mult c s) rest
    ≡⟨ mult_assoc c s rest p s-lt (fold-lt bs 0 (suc j) (omega arith) h.1) ⟩ mult c (mult s rest)
    ≡⟨ ap (mult c) (sym (fold-mult bs s (suc j) s-lt h.1)) ⟩ mult c (verhoeff_fold s (suc j) bs) ∎

-- So the loop tells two start values apart.
pub fold_cancel :
    (bs : Text) (c d j : ℕ)
    → c < 10
    → d < 10
    → All IsDigit bs
    → verhoeff_fold c j bs ≡ verhoeff_fold d j bs
    → c ≡ d
fold_cancel bs c d j p q h e =
    mult_cancel_right (verhoeff_fold 0 j bs) c d (fold-lt bs 0 j (omega arith) h) p q
      (sym (fold-mult bs c j p h) ∙ e ∙ fold-mult bs d j q h)

pub fold-append :
    (xs ys : Text) (c j : ℕ)
    → verhoeff_fold c j (xs ++ ys) ≡ verhoeff_fold (verhoeff_fold c j xs) (j + length xs) ys
unfolding verhoeff_fold
fold-append [] ys c j = ap (λ t. verhoeff_fold c t ys) (omega arith)
fold-append (x ∷ xs) ys c j =
    fold-append xs ys (verhoeff_step c j (x - b'0')) (suc j)
    ∙ ap (λ t. verhoeff_fold (verhoeff_fold (verhoeff_step c j (x - b'0')) (suc j) xs) t ys)
        (omega arith)

-- `verhoeffOK` as the loop in which the digits after `a` come first.
pub ok-middle :
    (pre : Text) (a : ℕ) (post : Text)
    → verhoeff_ok (pre ++ a ∷ post) ≡ true
    → verhoeff_fold (verhoeff_fold 0 0 (reverse post)) (length (reverse post)) (a ∷ reverse pre) ≡ 0
unfolding verhoeff_ok
ok-middle pre a post h =
    let e =
      ap (verhoeff_fold 0 0) (reverse-middle pre a post)
      ∙ fold-append (reverse post) (a ∷ reverse pre) 0 0 in
    ground (arith, e)

pub ok-middle₂ :
    (pre : Text) (a b : ℕ) (post : Text)
    → verhoeff_ok (pre ++ a ∷ b ∷ post) ≡ true
    → verhoeff_fold (verhoeff_fold 0 0 (reverse post)) (length (reverse post)) (b ∷ a ∷ reverse pre)
      ≡ 0
unfolding verhoeff_ok
ok-middle₂ pre a b post h =
    let e =
      ap (verhoeff_fold 0 0) (
        reverse-middle pre a (b ∷ post)
        ∙ ap (λ t. t ++ a ∷ reverse pre) (reverse-cons b post)
        ∙ append_assoc (reverse post) (b ∷ []) (a ∷ reverse pre))
      ∙ fold-append (reverse post) (b ∷ a ∷ reverse pre) 0 0 in
    ground (arith, e)
