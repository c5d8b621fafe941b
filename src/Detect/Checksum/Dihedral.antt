-- ===== src/Detect/Checksum/Dihedral.antt =====
-- The laws of the two Verhoeff tables on digits, each read off by checking every digit.
use cold_harbour.Common.{
  ℕ, ◌+◌, ◌-◌, ◌%◌, ◌<◌, ◌≡◌, refl, true, not, ◌||◌, codes, arith, ltb, ◌==◌, get_or, holds_below,
  holds_below_sound₂, holds_below_sound₃,
}
use cold_harbour.Detect.Regex.{is_digit}
use cold_harbour.Detect.Checksum.{mult, perm, verhoeff_inv}

abbrev pub IsDigit : ℕ → Type 0
IsDigit c = is_digit c ≡ true

pub IsDigit-lt : (c : ℕ) → IsDigit c → c - b'0' < 10
unfolding is_digit
IsDigit-lt c h = ground arith

pub IsDigit-injective : (a b : ℕ) → IsDigit a → IsDigit b → a - b'0' ≡ b - b'0' → a ≡ b
unfolding is_digit
IsDigit-injective a b h k e = ground arith

mult-lt_table : holds_below 10 (λ a. holds_below 10 (λ b. ltb (mult a b) 10)) ≡ true
unfolding holds_below mult
mult-lt_table = refl

pub mult-lt : (a b : ℕ) → a < 10 → b < 10 → mult a b < 10
mult-lt a b p q =
    let t = holds_below_sound₂ 10 10 (λ a b. ltb (mult a b) 10) a b mult-lt_table p q in
    ground arith

mult_assoc_table :
    holds_below 10
      (λ a. holds_below 10 (λ b. holds_below 10 (λ c. mult (mult a b) c == mult a (mult b c))))
    ≡ true
unfolding holds_below mult
mult_assoc_table = refl

pub mult_assoc : (a b c : ℕ) → a < 10 → b < 10 → c < 10 → mult (mult a b) c ≡ mult a (mult b c)
mult_assoc a b c p q r =
    let t =
      holds_below_sound₃ 10 10 10 (λ a b c. mult (mult a b) c == mult a (mult b c)) a b c
        mult_assoc_table p q r in
    ground arith

mult_cancel_table :
    holds_below 10
      (λ c. holds_below 10 (λ a. holds_below 10 (λ b. (not (mult c a == mult c b) || a == b))))
    ≡ true
unfolding holds_below mult
mult_cancel_table = refl

pub mult_cancel : (c a b : ℕ) → c < 10 → a < 10 → b < 10 → mult c a ≡ mult c b → a ≡ b
mult_cancel c a b p q r e =
    let t =
      holds_below_sound₃ 10 10 10 (λ c a b. not (mult c a == mult c b) || a == b) c a b
        mult_cancel_table p q r in
    ground arith

mult_cancel_right_table :
    holds_below 10
      (λ c. holds_below 10 (λ a. holds_below 10 (λ b. (not (mult a c == mult b c) || a == b))))
    ≡ true
unfolding holds_below mult
mult_cancel_right_table = refl

pub mult_cancel_right : (c a b : ℕ) → c < 10 → a < 10 → b < 10 → mult a c ≡ mult b c → a ≡ b
mult_cancel_right c a b p q r e =
    let t =
      holds_below_sound₃ 10 10 10 (λ c a b. not (mult a c == mult b c) || a == b) c a b
        mult_cancel_right_table p q r in
    ground arith

zero_mult_table : holds_below 10 (λ a. holds_below 1 (λ b. mult 0 a == a)) ≡ true
unfolding holds_below mult
zero_mult_table = refl

pub zero_mult : (a : ℕ) → a < 10 → mult 0 a ≡ a
zero_mult a p =
    let t = holds_below_sound₂ 10 1 (λ a b. mult 0 a == a) a 0 zero_mult_table p (omega arith) in
    ground arith

mult_zero_table : holds_below 10 (λ a. holds_below 1 (λ b. mult a 0 == a)) ≡ true
unfolding holds_below mult
mult_zero_table = refl

pub mult_zero : (a : ℕ) → a < 10 → mult a 0 ≡ a
mult_zero a p =
    let t = holds_below_sound₂ 10 1 (λ a b. mult a 0 == a) a 0 mult_zero_table p (omega arith) in
    ground arith

perm_zero_table : holds_below 10 (λ a. holds_below 1 (λ b. perm 0 a == a)) ≡ true
unfolding holds_below perm
perm_zero_table = refl

pub perm_zero : (a : ℕ) → a < 10 → perm 0 a ≡ a
perm_zero a p =
    let t = holds_below_sound₂ 10 1 (λ a b. perm 0 a == a) a 0 perm_zero_table p (omega arith) in
    ground arith

inv_mult_table :
    holds_below 10 (λ a. holds_below 1 (λ b. (mult (get_or verhoeff_inv a 0) a == 0))) ≡ true
unfolding holds_below mult
inv_mult_table = refl

inv-lt_table : holds_below 10 (λ a. holds_below 1 (λ b. (ltb (get_or verhoeff_inv a 0) 10))) ≡ true
unfolding holds_below
inv-lt_table = refl

perm-lt_table : holds_below 8 (λ j. holds_below 10 (λ a. ltb (perm j a) 10)) ≡ true
unfolding holds_below perm
perm-lt_table = refl

pub perm-lt : (j a : ℕ) → j < 8 → a < 10 → perm j a < 10
perm-lt j a p q =
    let t = holds_below_sound₂ 8 10 (λ j a. ltb (perm j a) 10) j a perm-lt_table p q in ground arith

perm_injective_table :
    holds_below 8
      (λ j. holds_below 10 (λ a. holds_below 10 (λ b. (not (perm j a == perm j b) || a == b))))
    ≡ true
unfolding holds_below perm
perm_injective_table = refl

pub perm_injective : (j a b : ℕ) → j < 8 → a < 10 → b < 10 → perm j a ≡ perm j b → a ≡ b
perm_injective j a b p q r e =
    let t =
      holds_below_sound₃ 8 10 10 (λ j a b. not (perm j a == perm j b) || a == b) j a b
        perm_injective_table p q r in
    ground arith

swap_table :
    holds_below 8 (λ j. holds_below 10 (λ a. holds_below 10 (λ b.
      (not (mult (perm j a) (perm ((j + 1) % 8) b) == mult (perm j b) (perm ((j + 1) % 8) a))
        || a == b))))
    ≡ true
unfolding holds_below perm mult
swap_table = refl

pub swap_changes :
    (j a b : ℕ)
    → j < 8
    → a < 10
    → b < 10
    → mult (perm j a) (perm ((j + 1) % 8) b) ≡ mult (perm j b) (perm ((j + 1) % 8) a)
    → a ≡ b
swap_changes j a b p q r e =
    let t =
      holds_below_sound₃ 8 10 10
        (λ j a b.
          not (mult (perm j a) (perm ((j + 1) % 8) b) == mult (perm j b) (perm ((j + 1) % 8) a))
          || a == b)
        j a b swap_table p q r in
    ground arith

pub inv-lt : (a : ℕ) → a < 10 → get_or verhoeff_inv a 0 < 10
inv-lt a p =
    let t =
      holds_below_sound₂ 10 1 (λ a b. ltb (get_or verhoeff_inv a 0) 10) a 0 inv-lt_table p
        (omega arith) in
    ground arith

pub inv_mult : (a : ℕ) → a < 10 → mult (get_or verhoeff_inv a 0) a ≡ 0
inv_mult a p =
    let t =
      holds_below_sound₂ 10 1 (λ a b. mult (get_or verhoeff_inv a 0) a == 0) a 0 inv_mult_table p
        (omega arith) in
    ground arith

digit_byte_table :
    holds_below 10 (λ a. holds_below 1 (λ b. get_or (codes "0123456789") a 0 == a + b'0')) ≡ true
unfolding holds_below
digit_byte_table = refl

pub digit_byte : (a : ℕ) → a < 10 → get_or (codes "0123456789") a 0 ≡ a + b'0'
digit_byte a p =
    let t =
      holds_below_sound₂ 10 1 (λ a b. get_or (codes "0123456789") a 0 == a + b'0') a 0
        digit_byte_table p (omega arith) in
    ground arith
