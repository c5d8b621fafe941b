-- ===== src/Common/Sort.antt =====
-- `sort.Slice` by a strict order: an insertion sort. Where the order leaves no ties but equal items
-- every sorting algorithm gives this list.
use mathlib.Core.Path.{◌≡◌, subst}
use mathlib.Core.Logic.{◌⊎◌, inl, inr}
use mathlib.Core.Bool.{Bool}
use mathlib.Core.List.{List, [], ◌∷◌, ◌++◌}
use cold_harbour.Common.Tests.{if◌then◌else◌, Bool-cases}
use cold_harbour.Common.Lists.{All}

module _ {ℓ} {A : Type ℓ} where
  unfoldable pub insert_by : (A → A → Bool) → A → List A → List A
  insert_by less x [] = x ∷ []
  insert_by less x (y ∷ ys) = if less y x then y ∷ insert_by less x ys else x ∷ y ∷ ys

  unfoldable pub sort : (A → A → Bool) → List A → List A
  sort less [] = []
  sort less (x ∷ xs) = insert_by less x (sort less xs)

  -- Some item satisfies `P`.
  abbrev pub Any : (A → Type 0) → List A → Type 0
  Any P [] = ⊥
  Any P (x ∷ xs) = P x ⊎ Any P xs

  module _ (P : A → Type 0) where
    pub All-snoc : (xs : List A) (x : A) → All P xs → P x → All P (xs ++ x ∷ [])
    All-snoc [] x h p = (p, tt)
    All-snoc (y ∷ ys) x h p = (h.0, All-snoc ys x h.1 p)

    pub Any-append : (xs ys : List A) → Any P xs → Any P (xs ++ ys)
    Any-append [] ys h = absurd h
    Any-append (x ∷ xs) ys (inl p) = inl p
    Any-append (x ∷ xs) ys (inr h) = inr (Any-append xs ys h)

    pub Any-snoc : (xs : List A) (x : A) → P x → Any P (xs ++ x ∷ [])
    Any-snoc [] x p = inl p
    Any-snoc (y ∷ ys) x p = inr (Any-snoc ys x p)

    module _ (less : A → A → Bool) where
      pub insert_by-All : (x : A) (xs : List A) → P x → All P xs → All P (insert_by less x xs)
      unfolding insert_by
      insert_by-All x [] p h = (p, tt)
      insert_by-All x (y ∷ ys) p h = elim (Bool-cases (less y x)) [
        | inl e ↦ rw e (h.0, insert_by-All x ys p h.1)
        | inr e ↦ rw e (p, h)
      ]

      pub sort-All : (xs : List A) → All P xs → All P (sort less xs)
      unfolding sort
      sort-All [] h = tt
      sort-All (x ∷ xs) h = insert_by-All x (sort less xs) h.0 (sort-All xs h.1)

      insert_by-Any_self : (x : A) (xs : List A) → P x → Any P (insert_by less x xs)
      unfolding insert_by
      insert_by-Any_self x [] p = inl p
      insert_by-Any_self x (y ∷ ys) p = elim (Bool-cases (less y x)) [
        | inl e ↦ rw e (inr (insert_by-Any_self x ys p))
        | inr e ↦ rw e (inl p)
      ]

      insert_by-Any : (x : A) (xs : List A) → Any P xs → Any P (insert_by less x xs)
      unfolding insert_by
      insert_by-Any x [] h = absurd h
      insert_by-Any x (y ∷ ys) (inl p) = elim (Bool-cases (less y x)) [
        | inl e ↦ rw e (inl p)
        | inr e ↦ rw e (inr (inl p))
      ]
      insert_by-Any x (y ∷ ys) (inr h) = elim (Bool-cases (less y x)) [
        | inl e ↦ rw e (inr (insert_by-Any x ys h))
        | inr e ↦ rw e (inr (inr h))
      ]

      pub sort-Any : (xs : List A) → Any P xs → Any P (sort less xs)
      unfolding sort
      sort-Any (x ∷ xs) (inl p) = insert_by-Any_self x (sort less xs) p
      sort-Any (x ∷ xs) (inr h) = insert_by-Any x (sort less xs) (sort-Any xs h)
      sort-Any [] h = absurd h

pub All-append :
    {A : Type 0} (P : A → Type 0) (xs ys : List A) → All P xs → All P ys → All P (xs ++ ys)
All-append P [] ys hx hy = hy
All-append P (x ∷ xs) ys (first, later) hy = (first, All-append P xs ys later hy)

pub Any-append_right : {A : Type 0} (P : A → Type 0) (xs ys : List A) → Any P ys → Any P (xs ++ ys)
Any-append_right P [] ys h = h
Any-append_right P (x ∷ xs) ys h = inr (Any-append_right P xs ys h)

pub All-Any :
    {A : Type 0} (P : A → Type 0) (xs : List A) (x : A) → All P xs → Any (λ y. y ≡ x) xs → P x
All-Any P [] x a h = absurd h
All-Any P (y ∷ ys) x a (inl e) = subst P e a.0
All-Any P (y ∷ ys) x a (inr h) = All-Any P ys x a.1 h
