-- ===== src/Ledger/Append.antt =====
-- Appending to a chain that verifies.
use cold_harbour.Common.{
  ℕ, suc, ◌+◌, ◌<◌, ◌≡◌, refl, sym, ap, ◌∙◌, subst, false, Option, none, some, List, [], ◌∷◌, ◌++◌,
  Text, arith, ◌==◌, insert_by, Bool-cases, inl, inr, length, ◌⊎◌, update, text_eq-eq, text_eq_refl,
}
use cold_harbour.Ledger.{
  canonical, Platform, Row, Head, Db, zeros, normalize_at, row_before, has_seq, head_or_new, Result,
  ok, err, previous, next_row, append, check_head, verify_from, verify_rows, verify, VerifyError,
}
use cold_harbour.Ledger.Json.{JsonValue, has_minus_zero}
use cold_harbour.Ledger.Chain.{
  IsChain, chain_end, normalize_at_idem, verify_from-IsChain, IsChain-verify_from,
}

Result-cases :
    {A : Type 0} (r : Result A) → ((e : VerifyError) × (r ≡ err e)) ⊎ ((a : A) × (r ≡ ok a))
Result-cases (ok a) = inr (a, refl)
Result-cases (err e) = inl (e, refl)

module _ (p : Platform) where
  canonical-out :
      (raw out : Text) (v : JsonValue)
      → p.decode raw ≡ some v
      → p.encode v ≡ some out
      → canonical p raw ≡ out
  unfolding canonical
  canonical-out raw out v d e = rw (d, canonical) (rw e refl)

  -- The canonical form of a JSON text without -0 is read back from the column.
  canonical-jsonb :
      (payload stored : Text) (v : JsonValue)
      → p.decode payload ≡ some v
      → has_minus_zero v ≡ false
      → p.jsonb (canonical p payload) ≡ some stored
      → canonical p stored ≡ canonical p payload
  canonical-jsonb payload stored v d plain e =
      let (t, out) = p.encodes payload v d in
      let written : canonical p payload ≡ t = canonical-out payload t v d out in
      let again = p.decodes_again payload t v d out in
      let kept : p.decode stored ≡ some v =
        p.reads_back t stored v again out plain (ap p.jsonb (sym written) ∙ e) in
      canonical-out stored t v kept out ∙ sym written

  pub chain_end-seq :
      (rows : List Row) (prev last : Text) (n : ℕ)
      → IsChain p prev (suc n) rows
      → (chain_end last n rows).1 ≡ n + length rows
  chain_end-seq [] prev last n c = omega arith
  chain_end-seq (r ∷ rs) prev last n c =
      rw c.0 (omega (arith, chain_end-seq rs r.entry_hash r.entry_hash (suc n) c.3))

  insert-last :
      (rows : List Row) (prev : Text) (n : ℕ) (row : Row)
      → IsChain p prev (suc n) rows
      → n + length rows < row.seq
      → insert_by row_before row rows ≡ rows ++ row ∷ []
  unfolding insert_by
  insert-last [] prev n row c h = refl
  insert-last (r ∷ rs) prev n row c h = ground (arith, insert-last rs r.entry_hash (suc n) row c.3)

  has_seq-last :
      (rows : List Row) (prev : Text) (n k : ℕ)
      → IsChain p prev (suc n) rows
      → n + length rows < k
      → has_seq k rows ≡ false
  unfolding has_seq
  has_seq-last [] prev n k c h = refl
  has_seq-last (r ∷ rs) prev n k c h = ground (arith, has_seq-last rs r.entry_hash (suc n) k c.3)

  IsChain-snoc :
      (rows : List Row) (prev : Text) (n : ℕ) (row : Row)
      → IsChain p prev (suc n) rows
      → IsChain p (chain_end prev n rows).0 (suc (n + length rows)) (row ∷ [])
      → IsChain p prev (suc n) (rows ++ row ∷ [])
  IsChain-snoc [] prev n row c l = (l.0 ∙ omega arith, l.1, l.2, tt)
  IsChain-snoc (r ∷ rs) prev n row c l =
      let shifted : n + suc (length rs) ≡ suc n + length rs = omega arith in
      let l' =
        subst
          (λ t. IsChain p (chain_end r.entry_hash t rs).0 (suc (n + suc (length rs))) (row ∷ []))
          c.0 l in
      (
        c.0,
        c.1,
        c.2,
        IsChain-snoc rs r.entry_hash (suc n) row c.3 (
            subst (λ t. IsChain p (chain_end r.entry_hash (suc n) rs).0 (suc t) (row ∷ [])) shifted
              l'),
      )

  chain_end-snoc :
      (rows : List Row) (last : Text) (n : ℕ) (row : Row)
      → chain_end last n (rows ++ row ∷ []) ≡ (row.entry_hash, row.seq)
  chain_end-snoc [] last n row = refl
  chain_end-snoc (r ∷ rs) last n row = chain_end-snoc rs r.entry_hash r.seq row

  -- The head that the transaction reads belongs to the chain's last row.
  previous-chain_end :
      (rows : List Row) (head : Option Head)
      → IsChain p zeros 1 rows
      → check_head p head (chain_end [] 0 rows) ≡ ok tt
      → (previous p (head_or_new head) ≡ (chain_end zeros 0 rows).0)
        × ((head_or_new head).seq ≡ length rows)
  unfolding check_head
  previous-chain_end [] none c h = (refl, refl)
  previous-chain_end [] (some x) c h = ground arith
  previous-chain_end (r ∷ rs) none c h = ground (arith, chain_end-seq (r ∷ rs) zeros [] 0 c)
  previous-chain_end (r ∷ rs) (some x) c h =
      ground
        (arith, chain_end-seq (r ∷ rs) zeros [] 0 c, text_eq-eq x.hash (chain_end [] 0 (r ∷ rs)).0)

  pub verify_rows-IsChain :
      (rows : List Row) (head : Option Head)
      → verify_rows p rows head ≡ ok tt
      → IsChain p zeros 1 rows × (check_head p head (chain_end [] 0 rows) ≡ ok tt)
  unfolding verify_rows
  verify_rows-IsChain rows head v = elim (Result-cases (verify_from p zeros 1 [] 0 rows)) [
    | inl (e, bad) ↦ absurd (let v' = (rw (bad, verify_rows) at v) in cc)
    | inr (end, good) ↦
        let (chain, same) = verify_from-IsChain p zeros 1 [] 0 rows end good in
        let v' = (rw (good, verify_rows) at v) in
        (chain, subst (λ t. check_head p head t ≡ ok tt) same v')
  ]

  IsChain-verify_rows :
      (rows : List Row) (head : Option Head)
      → IsChain p zeros 1 rows
      → check_head p head (chain_end [] 0 rows) ≡ ok tt
      → verify_rows p rows head ≡ ok tt
  unfolding verify_rows
  IsChain-verify_rows rows head c h = rw (IsChain-verify_from p zeros 1 [] 0 rows c, verify_rows) h

  -- A row made by `Append` continues the chain, and the head row that goes with it fits.
  next_row-IsChain :
      (rows : List Row) (head : Option Head) (kind payload stored : Text) (at : ℕ)
      → IsChain p zeros 1 rows
      → check_head p head (chain_end [] 0 rows) ≡ ok tt
      → canonical p stored ≡ payload
      → let row = next_row p (head_or_new head) kind payload stored (normalize_at at) in
        IsChain p zeros 1 (rows ++ row ∷ [])
  next_row-IsChain rows head kind payload stored at c h e =
      let (before, number) = previous-chain_end rows head c h in
      IsChain-snoc rows zeros 0 _ c
        (omega arith, before, rw (before, e, normalize_at_idem at) refl, tt)

  new_head-check :
      (rows : List Row) (row : Row)
      → check_head p
          (some (record { seq = row.seq; hash = row.entry_hash }))
          (chain_end [] 0 (rows ++ row ∷ []))
        ≡ ok tt
  unfolding check_head
  new_head-check rows row =
      ground (arith, chain_end-snoc rows [] 0 row, text_eq_refl row.entry_hash)

  -- The database after an append that succeeds.
  abbrev appended : Db → ℕ → Text → Text → Text → ℕ → Db
  appended db tenant kind payload stored at =
      let row =
        next_row p (head_or_new (db.heads tenant)) kind (canonical p payload) stored
          (normalize_at at) in
      record {
        rows = update db.rows tenant (db.rows tenant ++ row ∷ []);
        heads = update db.heads tenant (some (record { seq = row.seq; hash = row.entry_hash }));
      }

  append-appended :
      (db : Db) (tenant : ℕ) (kind payload stored : Text) (at : ℕ)
      → verify p db tenant ≡ ok tt
      → p.jsonb (canonical p payload) ≡ some stored
      → append p db tenant kind payload at ≡ some (appended db tenant kind payload stored at)
  unfolding append verify
  append-appended db tenant kind payload stored at v e =
      let (chain, fits) = verify_rows-IsChain (db.rows tenant) (db.heads tenant) v in
      let (before, number) = previous-chain_end (db.rows tenant) (db.heads tenant) chain fits in
      let row =
        next_row p (head_or_new (db.heads tenant)) kind (canonical p payload) stored
          (normalize_at at) in
      rw (e, append)
        (rw
          (has_seq-last (db.rows tenant) zeros 0 (suc (head_or_new (db.heads tenant)).seq) chain
            (omega arith))
          (rw (insert-last (db.rows tenant) zeros 0 row chain (omega arith)) refl))

  appended-verify :
      (db : Db) (tenant : ℕ) (kind payload stored : Text) (v : JsonValue) (at other : ℕ)
      → verify p db tenant ≡ ok tt
      → p.decode payload ≡ some v
      → has_minus_zero v ≡ false
      → p.jsonb (canonical p payload) ≡ some stored
      → verify p db other ≡ ok tt
      → verify p (appended db tenant kind payload stored at) other ≡ ok tt
  unfolding verify
  appended-verify db tenant kind payload stored v at other good d plain e w =
      elim (Bool-cases (other == tenant)) [
        | inr differs ↦ rw differs w
        | inl same ↦
            let (chain, fits) = verify_rows-IsChain (db.rows tenant) (db.heads tenant) good in
            let row =
              next_row p (head_or_new (db.heads tenant)) kind (canonical p payload) stored
                (normalize_at at) in
            rw same (
              IsChain-verify_rows (db.rows tenant ++ row ∷ [])
                (some (record { seq = row.seq; hash = row.entry_hash }))
                (next_row-IsChain (db.rows tenant) (db.heads tenant) kind (canonical p payload)
                  stored at chain fits (canonical-jsonb payload stored v d plain e))
                (new_head-check (db.rows tenant) row))
      ]

  -- On a tenant's ledger that verifies, `Append` of a payload that is JSON without a number -0, and
  -- that the JSONB column takes, succeeds. It adds one row of that kind and payload behind the others, with the next number, and touches no other tenant's
  -- rows; and every ledger that verified before, this one or another, verifies after it.
  pub append-verify :
      (db : Db) (tenant : ℕ) (kind payload stored : Text) (v : JsonValue) (at other : ℕ)
      → verify p db tenant ≡ ok tt
      → verify p db other ≡ ok tt
      → p.decode payload ≡ some v
      → has_minus_zero v ≡ false
      → p.jsonb (canonical p payload) ≡ some stored
      → (db' : Db) × (row : Row) × (append p db tenant kind payload at ≡ some db')
        × (db'.rows ≡ update db.rows tenant (db.rows tenant ++ row ∷ []))
        × (row.kind ≡ kind)
        × (row.payload ≡ stored)
        × (row.seq ≡ suc (length (db.rows tenant)))
        × (verify p db' other ≡ ok tt)
  append-verify db tenant kind payload stored v at other good w d plain e =
      let (chain, fits) =
        verify_rows-IsChain (db.rows tenant) (db.heads tenant) (unfold verify in good) in
      let (before, number) = previous-chain_end (db.rows tenant) (db.heads tenant) chain fits in
      (
        appended db tenant kind payload stored at,
        next_row p (head_or_new (db.heads tenant)) kind (canonical p payload) stored
            (normalize_at at),
        append-appended db tenant kind payload stored at good e,
        refl,
        refl,
        refl,
        omega arith,
        appended-verify db tenant kind payload stored v at other good d plain e w,
      )
