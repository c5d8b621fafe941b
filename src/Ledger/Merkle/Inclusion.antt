-- ===== src/Ledger/Merkle/Inclusion.antt =====
-- Every leaf of a Merkle tree has an inclusion proof.
use cold_harbour.Common.{
  ℕ, zero, suc, ◌≤◌, ◌<◌, ◌≡◌, refl, Bool, true, false, List, [], ◌∷◌, ◌++◌, Text, length,
  if◌then◌else◌, get_or, arith, map, sym, ap, text_eq_refl,
}
use cold_harbour.Ledger.Merkle.{
  pair_up, reduce, first_or_zeros, merkle_root, climb, verify_inclusion_proof,
}

abbrev pub half : ℕ → ℕ
half zero = 0
half (suc zero) = 0
half (suc (suc i)) = suc (half i)

-- The hash that the one at position `i` is hashed with, and whether it stands on the left.
abbrev pub sibling_at : List Text → ℕ → Text × Bool
sibling_at [] i = ([], false)
sibling_at (a ∷ []) i = (a, false)
sibling_at (a ∷ b ∷ rest) zero = (b, false)
sibling_at (a ∷ b ∷ rest) (suc zero) = (a, true)
sibling_at (a ∷ b ∷ rest) (suc (suc i)) = sibling_at rest i

module _ (sha256 : Text → Text) where
  -- The siblings of position `i` and its ancestors, up to the root.
  abbrev pub path : ℕ → List Text → ℕ → List (Text × Bool)
  path zero xs i = []
  path (suc fuel) [] i = []
  path (suc fuel) (a ∷ []) i = []
  path (suc fuel) (a ∷ b ∷ rest) i =
      sibling_at (a ∷ b ∷ rest) i ∷ path fuel (pair_up sha256 (a ∷ b ∷ rest)) (half i)

  abbrev parent : Text → Text × Bool → Text
  parent t (s, left) = if left then sha256 (s ++ t) else sha256 (t ++ s)

  pair_up-get_or :
      (xs : List Text) (i : ℕ) (d : Text)
      → i < length xs
      → get_or (pair_up sha256 xs) (half i) d ≡ parent (get_or xs i d) (sibling_at xs i)
  pair_up-get_or [] i d h = absurd (omega arith)
  pair_up-get_or (a ∷ []) zero d h = refl
  pair_up-get_or (a ∷ []) (suc i) d h = absurd (omega arith)
  pair_up-get_or (a ∷ b ∷ rest) zero d h = refl
  pair_up-get_or (a ∷ b ∷ rest) (suc zero) d h = refl
  pair_up-get_or (a ∷ b ∷ rest) (suc (suc i)) d h = pair_up-get_or rest i d (omega arith)

  half-length : (xs : List Text) (i : ℕ) → i < length xs → half i < length (pair_up sha256 xs)
  half-length [] i h = absurd (omega arith)
  half-length (a ∷ []) zero h = omega arith
  half-length (a ∷ []) (suc i) h = absurd (omega arith)
  half-length (a ∷ b ∷ rest) zero h = omega arith
  half-length (a ∷ b ∷ rest) (suc zero) h = omega arith
  half-length (a ∷ b ∷ rest) (suc (suc i)) h = omega (arith, half-length rest i (omega arith))

  length-pair_up : (xs : List Text) → length (pair_up sha256 xs) ≤ length xs
  length-pair_up [] = omega arith
  length-pair_up (a ∷ []) = omega arith
  length-pair_up (a ∷ b ∷ rest) = omega (arith, length-pair_up rest)

  climb-path :
      (fuel : ℕ) (xs : List Text) (i : ℕ) (d : Text)
      → length xs ≤ fuel
      → i < length xs
      → climb sha256
          (get_or xs i d)
          (map (λ s. s.0) (path fuel xs i))
          (map (λ s. s.1) (path fuel xs i))
        ≡ first_or_zeros sha256 (reduce sha256 fuel xs)
  climb-path zero xs i d f h = absurd (omega arith)
  climb-path (suc fuel) [] i d f h = absurd (omega arith)
  climb-path (suc fuel) (a ∷ []) zero d f h = refl
  climb-path (suc fuel) (a ∷ []) (suc i) d f h = absurd (omega arith)
  climb-path (suc fuel) (a ∷ b ∷ rest) i d f h =
      let xs = a ∷ b ∷ rest in
      let up =
        climb-path fuel (pair_up sha256 xs) (half i) d (omega (arith, length-pair_up rest))
          (half-length xs i h) in
      rw (sym (pair_up-get_or xs i d h)) up

  length-map : {A B : Type 0} (f : A → B) (xs : List A) → length (map f xs) ≡ length xs
  length-map f [] = refl
  length-map f (x ∷ xs) = ap suc (length-map f xs)

  -- `VerifyInclusionProof` accepts, for every leaf of a list and against the list's `MerkleRoot`, the
  -- siblings on the leaf's way to the root with the sides they stand on, as many as the tree is high.
  pub verify_inclusion_proof-merkle_root :
      (leaves : List Text) (i : ℕ) (d : Text)
      → i < length leaves
      → let way = path (length leaves) leaves i in
        verify_inclusion_proof sha256
          (get_or leaves i d)
          (map (λ s. s.0) way)
          (map (λ s. s.1) way)
          (merkle_root sha256 leaves)
        ≡ true
  unfolding verify_inclusion_proof merkle_root
  verify_inclusion_proof-merkle_root leaves i d h =
      let way = path (length leaves) leaves i in
      ground (
        arith,
        length-map (λ s. s.0) way,
        length-map (λ s. s.1) way,
        climb-path (length leaves) leaves i d (omega arith) h,
        text_eq_refl (merkle_root sha256 leaves),
      )
