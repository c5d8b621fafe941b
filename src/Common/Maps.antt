-- ===== src/Common/Maps.antt =====
-- Equality of texts as a test, and maps changed at one key.
use Prim.Native.Nat.{ℕ}
use mathlib.Core.Path.{◌≡◌, refl}
use mathlib.Core.Logic.{◌⊎◌, inl, inr}
use mathlib.Core.Bool.{true}
use mathlib.Core.List.{[], ◌∷◌}
use native.Mathlib.Omega.{arith}
use cold_harbour.Common.Tests.{Bool-cases, ◌==◌}
use cold_harbour.Common.Lists.{Text, text_eq, update, update_text}

pub text_eq_refl : (t : Text) → text_eq t t ≡ true
text_eq_refl [] = refl
text_eq_refl (c ∷ cs) = ground (arith, text_eq_refl cs)

pub text_eq-eq : (s t : Text) → text_eq s t ≡ true → s ≡ t
text_eq-eq [] [] h = refl
text_eq-eq [] (c ∷ t) h = cc
text_eq-eq (c ∷ s) [] h = cc
text_eq-eq (c ∷ s) (d ∷ t) h = ground (arith, text_eq-eq s t)

module _ {A : Type 0} where
  pub update-cases :
      (f : ℕ → A) (k : ℕ) (v : A) (j : ℕ)
      → (update f k v j ≡ f j) ⊎ ((j ≡ k) × (update f k v j ≡ v))
  update-cases f k v j = elim (Bool-cases (j == k)) [
    | inl e ↦ inr (ground arith, rw e refl)
    | inr e ↦ inl (rw e refl)
  ]

  pub update-same : (f : ℕ → A) (k : ℕ) (v : A) → update f k v k ≡ v
  update-same f k v = ground arith

  pub update_text-cases :
      (f : Text → A) (k : Text) (v : A) (j : Text)
      → (update_text f k v j ≡ f j) ⊎ ((j ≡ k) × (update_text f k v j ≡ v))
  update_text-cases f k v j = elim (Bool-cases (text_eq j k)) [
    | inl e ↦ inr (text_eq-eq j k e, rw e refl)
    | inr e ↦ inl (rw e refl)
  ]

  pub update_text-same : (f : Text → A) (k : Text) (v : A) → update_text f k v k ≡ v
  update_text-same f k v = rw (text_eq_refl k) refl
