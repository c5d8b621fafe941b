-- ===== src/Ledger/Tamper.antt =====
-- Two chains that verify with one head hold the same entries, or SHA-256 has a collision at hand.
use cold_harbour.Common.{
  ℕ, suc, ◌≡◌, ◌≢◌, refl, sym, ◌∙◌, subst, false, some, List, [], ◌∷◌, ◌++◌, Text, arith, text_eq,
  Bool-cases, inl, inr, length, ◌⊎◌, map, Any, text_eq-eq, text_eq_refl,
}
use cold_harbour.Ledger.{
  canonical, Platform, Row, Head, Db, zeros, normalize_at, ok, entry_hash, check_head, verify_rows,
  verify,
}
use cold_harbour.Ledger.Chain.{IsChain, chain_end}
use cold_harbour.Ledger.Append.{verify_rows-IsChain, chain_end-seq}

-- What a row's hash covers besides the row before it.
abbrev pub body : Platform → Row → Text
body p r = r.kind ++ (canonical p r.payload ++ p.format_at (normalize_at r.at))

-- The texts that the rows' hashes are taken of, the first after the hash `prev`.
abbrev pub covered : Platform → Text → List Row → List Text
covered p prev [] = []
covered p prev (r ∷ rs) = (prev ++ body p r) ∷ covered p r.entry_hash rs

-- A text of the one list and a different text of the other with one digest.
abbrev pub Collision : (Text → Text) → List Text → List Text → Type 0
Collision sha256 xs ys =
    (s t : Text) × Any (λ x. x ≡ s) xs × Any (λ y. y ≡ t) ys × (s ≢ t) × (sha256 s ≡ sha256 t)

text-decide : (s t : Text) → (s ≡ t) ⊎ (s ≢ t)
text-decide s t = elim (Bool-cases (text_eq s t)) [
  | inl e ↦ inl (text_eq-eq s t e)
  | inr e ↦
      inr (λ same.
        let loop = text_eq_refl t in let e' = subst (λ x. text_eq x t ≡ false) same e in cc)
]

-- Texts that begin with parts of one length.
append-injective : (s t u v : Text) → length s ≡ length t → s ++ u ≡ t ++ v → (s ≡ t) × (u ≡ v)
append-injective [] [] u v h e = (refl, e)
append-injective [] (d ∷ t) u v h e = absurd (omega arith)
append-injective (c ∷ s) [] u v h e = absurd (omega arith)
append-injective (c ∷ s) (d ∷ t) u v h e = ground (arith, append-injective s t u v)

chain_end-hash :
    (rows : List Row) (last : Text) (n k : ℕ)
    → (chain_end last n rows).0 ≡ (chain_end last k rows).0
chain_end-hash [] last n k = refl
chain_end-hash (r ∷ rs) last n k = refl

module _ (p : Platform) where
  entry_hash-length :
      (prev kind payload : Text) (at : ℕ) → length (entry_hash p prev kind payload at) ≡ 32
  unfolding entry_hash
  entry_hash-length prev kind payload at = p.digest_length _

  -- Equal digests of what two rows cover: the same texts, or a collision.
  same_body :
      (prev prev' : Text) (r s : Row)
      → length prev ≡ length prev'
      → entry_hash p prev r.kind (canonical p r.payload) (normalize_at r.at)
        ≡ entry_hash p prev' s.kind (canonical p s.payload) (normalize_at s.at)
      → Collision p.sha256 ((prev ++ body p r) ∷ []) ((prev' ++ body p s) ∷ [])
        ⊎ ((prev ≡ prev') × (body p r ≡ body p s))
  unfolding entry_hash
  same_body prev prev' r s l e = elim (text-decide (prev ++ body p r) (prev' ++ body p s)) [
    | inl same ↦ inr (append-injective prev prev' (body p r) (body p s) l same)
    | inr differs ↦ inl (prev ++ body p r, prev' ++ body p s, inl refl, inl refl, differs, e)
  ]

  Collision-later :
      (x y : Text) (xs ys : List Text)
      → Collision p.sha256 xs ys
      → Collision p.sha256 (x ∷ xs) (y ∷ ys)
  Collision-later x y xs ys (s, t, inx, iny, differs, same) =
      (s, t, inr inx, inr iny, differs, same)

  Collision-here :
      (x y : Text) (xs ys : List Text)
      → Collision p.sha256 (x ∷ []) (y ∷ [])
      → Collision p.sha256 (x ∷ xs) (y ∷ ys)
  Collision-here x y xs ys (s, t, inl hx, inl hy, differs, same) =
      (s, t, inl hx, inl hy, differs, same)
  Collision-here x y xs ys (s, t, inr out, iny, differs, same) = absurd out
  Collision-here x y xs ys (s, t, inl hx, inr out, differs, same) = absurd out

  same_bodies :
      (rs ss : List Row) (prev prev' : Text) (expect expect' : ℕ)
      → length prev ≡ 32
      → length prev' ≡ 32
      → IsChain p prev expect rs
      → IsChain p prev' expect' ss
      → length rs ≡ length ss
      → (chain_end prev 0 rs).0 ≡ (chain_end prev' 0 ss).0
      → Collision p.sha256 (covered p prev rs) (covered p prev' ss)
        ⊎ ((prev ≡ prev') × (map (body p) rs ≡ map (body p) ss))
  same_bodies [] [] prev prev' x x' l l' c c' n e = inr (e, refl)
  same_bodies [] (s ∷ ss) prev prev' x x' l l' c c' n e = absurd (omega arith)
  same_bodies (r ∷ rs) [] prev prev' x x' l l' c c' n e = absurd (omega arith)
  same_bodies (r ∷ rs) (s ∷ ss) prev prev' x x' l l' c c' n e =
      let lr : length r.entry_hash ≡ 32 =
        rw c.2 (entry_hash-length prev r.kind (canonical p r.payload) (normalize_at r.at)) in
      let ls : length s.entry_hash ≡ 32 =
        rw c'.2 (entry_hash-length prev' s.kind (canonical p s.payload) (normalize_at s.at)) in
      let ends : (chain_end r.entry_hash 0 rs).0 ≡ (chain_end s.entry_hash 0 ss).0 =
        chain_end-hash rs r.entry_hash 0 r.seq ∙ e ∙ chain_end-hash ss s.entry_hash s.seq 0 in
      elim (same_bodies rs ss r.entry_hash s.entry_hash (suc x) (suc x') lr ls c.3 c'.3
        (omega arith) ends) [
          | inl found ↦ inl (Collision-later _ _ _ _ found)
          | inr (hashes, rest) ↦
              elim (same_body prev prev' r s (l ∙ sym l') (sym c.2 ∙ hashes ∙ c'.2)) [
                | inl found ↦ inl (Collision-here _ _ _ _ found)
                | inr (before, first) ↦ inr (before, cc)
              ]
        ]

  -- What a head row that fits says of the end of a chain.
  head_fits :
      (rows : List Row) (h : Head)
      → IsChain p zeros 1 rows
      → check_head p (some h) (chain_end [] 0 rows) ≡ ok tt
      → (h.seq ≡ length rows) × (h.hash ≡ (chain_end [] 0 rows).0)
  unfolding check_head
  head_fits rows h c e =
      ground (arith, chain_end-seq p rows zeros [] 0 c, text_eq-eq h.hash (chain_end [] 0 rows).0)

  ends_from_zeros :
      (rs ss : List Row)
      → length rs ≡ length ss
      → (chain_end [] 0 rs).0 ≡ (chain_end [] 0 ss).0
      → (chain_end zeros 0 rs).0 ≡ (chain_end zeros 0 ss).0
  ends_from_zeros [] [] n e = refl
  ends_from_zeros [] (s ∷ ss) n e = absurd (omega arith)
  ends_from_zeros (r ∷ rs) [] n e = absurd (omega arith)
  ends_from_zeros (r ∷ rs) (s ∷ ss) n e = e

  -- Where two databases verify for a tenant with the same head row, the tenant's entries (kind,
  -- canonical payload and time, joined) are the same in both, in number, order and content; or a text
  -- that one ledger's hashes cover and a different text that the other's cover have one SHA-256 digest.
  pub verify-tamper :
      (db db' : Db) (tenant : ℕ) (h : Head)
      → verify p db tenant ≡ ok tt
      → verify p db' tenant ≡ ok tt
      → db.heads tenant ≡ some h
      → db'.heads tenant ≡ some h
      → Collision p.sha256 (covered p zeros (db.rows tenant)) (covered p zeros (db'.rows tenant))
        ⊎ (map (body p) (db.rows tenant) ≡ map (body p) (db'.rows tenant))
  verify-tamper db db' tenant h v v' e e' =
      let (c, fits) =
        verify_rows-IsChain p (db.rows tenant) (some h)
          (subst (λ t. verify_rows p (db.rows tenant) t ≡ ok tt) e (unfold verify in v)) in
      let (c', fits') =
        verify_rows-IsChain p (db'.rows tenant) (some h)
          (subst (λ t. verify_rows p (db'.rows tenant) t ≡ ok tt) e' (unfold verify in v')) in
      let (number, hash) = head_fits (db.rows tenant) h c fits in
      let (number', hash') = head_fits (db'.rows tenant) h c' fits' in
      let n : length (db.rows tenant) ≡ length (db'.rows tenant) = sym number ∙ number' in
      elim (same_bodies (db.rows tenant) (db'.rows tenant) zeros zeros 1 1 refl refl c c' n
        (ends_from_zeros (db.rows tenant) (db'.rows tenant) n (sym hash ∙ hash'))) [
          | inl found ↦ inl found
          | inr (before, same) ↦ inr same
        ]
