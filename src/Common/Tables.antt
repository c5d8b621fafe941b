-- ===== src/Common/Tables.antt =====
-- Facts about small numbers by checking every value, and the reversal of a text around one item.
use cold_harbour.Common.Tests.{if◌then◌else◌}
use Prim.Native.Nat.{ℕ, zero, suc, ◌<◌}
use mathlib.Core.Path.{◌≡◌, ap, ◌∙◌}
use mathlib.Core.Bool.{Bool, true, false}
use mathlib.Core.List.{List, [], ◌∷◌, ◌++◌, reverse, reverse-append, reverse-cons, append_assoc}
use native.Mathlib.Omega.{arith}
use cold_harbour.Common.Lists.{All}
use cold_harbour.Common.Sort.{All-snoc}

-- A test of every number under a bound, largest first.
unfoldable pub holds_below : ℕ → (ℕ → Bool) → Bool
holds_below zero test = true
holds_below (suc bound) test = if test bound then holds_below bound test else false

pub holds_below_sound :
    (bound : ℕ) (test : ℕ → Bool) (i : ℕ)
    → holds_below bound test ≡ true
    → i < bound
    → test i ≡ true
unfolding holds_below
holds_below_sound (suc bound) test i passed small = ground (arith, holds_below_sound bound test i)
holds_below_sound zero test i passed small = absurd (omega arith)

-- The same for two and three numbers.
pub holds_below_sound₂ :
    (n m : ℕ) (p : ℕ → ℕ → Bool) (x y : ℕ)
    → holds_below n (λ a. holds_below m (p a)) ≡ true
    → x < n
    → y < m
    → p x y ≡ true
holds_below_sound₂ n m p x y h hx hy =
    holds_below_sound m (p x) y (holds_below_sound n (λ a. holds_below m (p a)) x h hx) hy

pub holds_below_sound₃ :
    (n m l : ℕ) (p : ℕ → ℕ → ℕ → Bool) (x y z : ℕ)
    → holds_below n (λ a. holds_below m (λ b. holds_below l (p a b))) ≡ true
    → x < n
    → y < m
    → z < l
    → p x y z ≡ true
holds_below_sound₃ n m l p x y z h hx hy hz =
    holds_below_sound l (p x y) z
      (holds_below_sound₂ n m (λ a b. holds_below l (p a b)) x y h hx hy) hz

pub reverse-middle {ℓ} :
    {A : Type ℓ} (xs : List A) (a : A) (ys : List A)
    → reverse (xs ++ a ∷ ys) ≡ reverse ys ++ a ∷ reverse xs
reverse-middle xs a ys =
    reverse-append xs (a ∷ ys)
    ∙ ap (λ t. t ++ reverse xs) (reverse-cons a ys)
    ∙ append_assoc (reverse ys) (a ∷ []) (reverse xs)

pub reverse-All : {A : Type 0} (P : A → Type 0) (xs : List A) → All P xs → All P (reverse xs)
reverse-All P [] h = tt
reverse-All P (x ∷ xs) h =
    rw (reverse-cons x xs) (All-snoc P (reverse xs) x (reverse-All P xs h.1) h.0)
