-- ===== src/Ledger/Chain.antt =====
-- Appending keeps a chain that verifies.
use cold_harbour.Common.{ℕ, suc, ◌≡◌, refl, List, [], ◌∷◌, Text, arith, text_eq-eq, text_eq_refl}
use cold_harbour.Ledger.{canonical, Platform, Row, normalize_at, ok, entry_hash, verify_from}

pub normalize_at_idem : (at : ℕ) → normalize_at (normalize_at at) ≡ normalize_at at
unfolding normalize_at
normalize_at_idem at = omega arith

-- The rows of a chain from number `expect` on, `prev` being the hash before it.
abbrev pub IsChain : Platform → Text → ℕ → List Row → Type 0
IsChain p prev expect [] = Unit {0}
IsChain p prev expect (r ∷ rs) =
    (r.seq ≡ expect)
    × (r.prev_hash ≡ prev)
    × (r.entry_hash ≡ entry_hash p prev r.kind (canonical p r.payload) (normalize_at r.at))
    × IsChain p r.entry_hash (suc expect) rs

-- What the loop returns at the end of a chain.
abbrev pub chain_end : Text → ℕ → List Row → Text × ℕ
chain_end last n [] = (last, n)
chain_end last n (r ∷ rs) = chain_end r.entry_hash r.seq rs

module _ (p : Platform) where
  pub verify_from-IsChain :
      (prev : Text) (expect : ℕ) (last : Text) (n : ℕ) (rows : List Row) (end : Text × ℕ)
      → verify_from p prev expect last n rows ≡ ok end
      → IsChain p prev expect rows × (end ≡ chain_end last n rows)
  unfolding verify_from
  verify_from-IsChain prev expect last n [] end h = ground arith
  verify_from-IsChain prev expect last n (r ∷ rs) end h = ground (
    arith,
    verify_from-IsChain r.entry_hash (suc expect) r.entry_hash r.seq rs end,
    text_eq-eq r.prev_hash prev,
    text_eq-eq r.entry_hash (entry_hash p prev r.kind (canonical p r.payload) (normalize_at r.at)),
  )

  pub IsChain-verify_from :
      (prev : Text) (expect : ℕ) (last : Text) (n : ℕ) (rows : List Row)
      → IsChain p prev expect rows
      → verify_from p prev expect last n rows ≡ ok (chain_end last n rows)
  unfolding verify_from
  IsChain-verify_from prev expect last n [] c = refl
  IsChain-verify_from prev expect last n (r ∷ rs) c = ground (
    arith,
    IsChain-verify_from r.entry_hash (suc expect) r.entry_hash r.seq rs c.3,
    text_eq_refl prev,
    text_eq_refl (entry_hash p prev r.kind (canonical p r.payload) (normalize_at r.at)),
  )
