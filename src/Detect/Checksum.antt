-- ===== src/Detect/Checksum.antt =====
-- internal/detect/india.go and creditcard.go: the digits of a match, the Verhoeff check digit of an
-- Aadhaar number and the Luhn sum of a card number.
pub mod Dihedral
pub mod Loop
pub mod Verhoeff
pub mod Luhn
use cold_harbour.Common.{
  ℕ, zero, suc, ◌+◌, ◌-◌, ◌*◌, ◌%◌, Bool, true, false, not, List, [], ◌∷◌, Text, codes, ltb, ◌==◌,
  if◌then◌else◌, get_or, reverse, reverse,
}
use cold_harbour.Detect.Regex.{is_digit}

unfoldable pub digits_only : Text → Text
unfolding is_digit
digits_only [] = []
digits_only (c ∷ cs) = if is_digit c then c ∷ digits_only cs else digits_only cs

abbrev pub verhoeff_d : List (List ℕ)
verhoeff_d =
    (0 ∷ 1 ∷ 2 ∷ 3 ∷ 4 ∷ 5 ∷ 6 ∷ 7 ∷ 8 ∷ 9 ∷ [])
    ∷ (1 ∷ 2 ∷ 3 ∷ 4 ∷ 0 ∷ 6 ∷ 7 ∷ 8 ∷ 9 ∷ 5 ∷ [])
    ∷ (2 ∷ 3 ∷ 4 ∷ 0 ∷ 1 ∷ 7 ∷ 8 ∷ 9 ∷ 5 ∷ 6 ∷ [])
    ∷ (3 ∷ 4 ∷ 0 ∷ 1 ∷ 2 ∷ 8 ∷ 9 ∷ 5 ∷ 6 ∷ 7 ∷ [])
    ∷ (4 ∷ 0 ∷ 1 ∷ 2 ∷ 3 ∷ 9 ∷ 5 ∷ 6 ∷ 7 ∷ 8 ∷ [])
    ∷ (5 ∷ 9 ∷ 8 ∷ 7 ∷ 6 ∷ 0 ∷ 4 ∷ 3 ∷ 2 ∷ 1 ∷ [])
    ∷ (6 ∷ 5 ∷ 9 ∷ 8 ∷ 7 ∷ 1 ∷ 0 ∷ 4 ∷ 3 ∷ 2 ∷ [])
    ∷ (7 ∷ 6 ∷ 5 ∷ 9 ∷ 8 ∷ 2 ∷ 1 ∷ 0 ∷ 4 ∷ 3 ∷ [])
    ∷ (8 ∷ 7 ∷ 6 ∷ 5 ∷ 9 ∷ 3 ∷ 2 ∷ 1 ∷ 0 ∷ 4 ∷ [])
    ∷ (9 ∷ 8 ∷ 7 ∷ 6 ∷ 5 ∷ 4 ∷ 3 ∷ 2 ∷ 1 ∷ 0 ∷ [])
    ∷ []

abbrev pub verhoeff_p : List (List ℕ)
verhoeff_p =
    (0 ∷ 1 ∷ 2 ∷ 3 ∷ 4 ∷ 5 ∷ 6 ∷ 7 ∷ 8 ∷ 9 ∷ [])
    ∷ (1 ∷ 5 ∷ 7 ∷ 6 ∷ 2 ∷ 8 ∷ 3 ∷ 0 ∷ 9 ∷ 4 ∷ [])
    ∷ (5 ∷ 8 ∷ 0 ∷ 3 ∷ 7 ∷ 9 ∷ 6 ∷ 1 ∷ 4 ∷ 2 ∷ [])
    ∷ (8 ∷ 9 ∷ 1 ∷ 6 ∷ 0 ∷ 4 ∷ 3 ∷ 5 ∷ 2 ∷ 7 ∷ [])
    ∷ (9 ∷ 4 ∷ 5 ∷ 3 ∷ 1 ∷ 2 ∷ 6 ∷ 8 ∷ 7 ∷ 0 ∷ [])
    ∷ (4 ∷ 2 ∷ 8 ∷ 6 ∷ 5 ∷ 7 ∷ 3 ∷ 9 ∷ 0 ∷ 1 ∷ [])
    ∷ (2 ∷ 7 ∷ 9 ∷ 3 ∷ 8 ∷ 0 ∷ 6 ∷ 4 ∷ 1 ∷ 5 ∷ [])
    ∷ (7 ∷ 0 ∷ 4 ∷ 6 ∷ 9 ∷ 1 ∷ 3 ∷ 2 ∷ 5 ∷ 8 ∷ [])
    ∷ []

abbrev pub verhoeff_inv : List ℕ
verhoeff_inv = 0 ∷ 4 ∷ 3 ∷ 2 ∷ 1 ∷ 5 ∷ 6 ∷ 7 ∷ 8 ∷ 9 ∷ []

-- `verhoeffD[c][d]`. The callers pass digits, so no index is out of range.
unfoldable pub mult : ℕ → ℕ → ℕ
mult c d = get_or (get_or verhoeff_d c []) d 0

-- `verhoeffP[j][d]`
unfoldable pub perm : ℕ → ℕ → ℕ
perm j d = get_or (get_or verhoeff_p j []) d 0

unfoldable pub verhoeff_step : ℕ → ℕ → ℕ → ℕ
verhoeff_step c j d = mult c (perm (j % 8) d)

-- Both loops run from the last digit to the first, with `j` growing: over the reversed text.
unfoldable pub verhoeff_fold : ℕ → ℕ → Text → ℕ
unfolding verhoeff_step
verhoeff_fold c j [] = c
verhoeff_fold c j (b ∷ bs) = verhoeff_fold (verhoeff_step c j (b - b'0')) (suc j) bs

unfoldable pub verhoeff_ok : Text → Bool
unfolding verhoeff_fold
verhoeff_ok digits = verhoeff_fold 0 0 (reverse digits) == 0

unfoldable pub verhoeff_check : Text → ℕ
unfolding verhoeff_fold
verhoeff_check payload =
    get_or (codes "0123456789") (get_or verhoeff_inv (verhoeff_fold 0 1 (reverse payload)) 0) 0

-- `if alternate { n *= 2; if n > 9 { n -= 9 } }`
unfoldable pub luhn_digit : Bool → ℕ → ℕ
luhn_digit false n = n
luhn_digit true n = if ltb 9 (n * 2) then n * 2 - 9 else n * 2

-- The loop from the last digit to the first; `n < 0` is a byte below '0'.
unfoldable pub luhn_fold : ℕ → Bool → Text → Bool
unfolding luhn_digit is_digit
luhn_fold sum alternate [] = sum % 10 == 0
luhn_fold sum alternate (b ∷ bs) =
    let rest = luhn_fold (sum + luhn_digit alternate (b - b'0')) (not alternate) bs in
    if is_digit b then rest else false

unfoldable pub luhn_ok : Text → Bool
unfolding luhn_fold
luhn_ok digits = luhn_fold 0 false (reverse digits)
