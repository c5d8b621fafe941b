-- ===== src/Ledger/Merkle.antt =====
-- internal/ledger/merkle.go: the Merkle root of a list of leaf hashes, and the check of an inclusion
-- proof.
pub mod Inclusion
use cold_harbour.Common.{
  ℕ, zero, suc, Bool, false, not, List, [], ◌∷◌, ◌++◌, Text, text_eq, length, ◌==◌, if◌then◌else◌,
}
use cold_harbour.Ledger.{zeros}

module _ (sha256 : Text → Text) where
  -- One turn of the outer loop: neighbours are hashed together, a last one without a neighbour with
  -- itself.
  abbrev pub pair_up : List Text → List Text
  pair_up [] = []
  pair_up (a ∷ []) = sha256 (a ++ a) ∷ []
  pair_up (a ∷ b ∷ rest) = sha256 (a ++ b) ∷ pair_up rest

  -- `for len(current) > 1`, with fuel: the list that is left.
  abbrev pub reduce : ℕ → List Text → List Text
  reduce zero current = current
  reduce (suc fuel) [] = []
  reduce (suc fuel) (a ∷ []) = a ∷ []
  reduce (suc fuel) (a ∷ b ∷ rest) = reduce fuel (pair_up (a ∷ b ∷ rest))

  -- `current[0]`; the loop leaves one hash.
  abbrev pub first_or_zeros : List Text → Text
  first_or_zeros [] = zeros
  first_or_zeros (a ∷ rest) = a

  unfoldable pub merkle_root : List Text → Text
  merkle_root leaves = first_or_zeros (reduce (length leaves) leaves)

  -- The loop of `VerifyInclusionProof` over `siblings` and `isLeft`.
  abbrev pub climb : Text → List Text → List Bool → Text
  climb current (s ∷ siblings) (left ∷ is_left) =
      climb (if left then sha256 (s ++ current) else sha256 (current ++ s)) siblings is_left
  climb current siblings is_left = current

  unfoldable pub verify_inclusion_proof : Text → List Text → List Bool → Text → Bool
  verify_inclusion_proof leaf siblings is_left root =
      if not (length siblings == length is_left)
      then false
      else text_eq (climb leaf siblings is_left) root
