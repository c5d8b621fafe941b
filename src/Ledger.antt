-- ===== src/Ledger.antt =====
-- internal/ledger: the hash-chained audit ledger of each tenant. `ledger.go` appends to it in a
-- transaction, `verify.go` checks a chain; `merkle.go` is the child `Merkle`.
pub mod Json
pub mod Chain
pub mod Append
pub mod Tamper
pub mod Merkle
use cold_harbour.Common.{
  ℕ, zero, suc, ◌+◌, ◌-◌, ◌%◌, ◌≡◌, Bool, true, false, ◌&&◌, ◌||◌, not, Option, none, some, List,
  [], ◌∷◌, ◌++◌, Text, ltb, ◌==◌, if◌then◌else◌, text_eq, replicate, insert_by, length, update,
}
use cold_harbour.Ledger.Json.{JsonValue, has_minus_zero}

-- What the ledger takes from elsewhere: SHA-256, encoding/json (`none` is an error of `Unmarshal` or of
-- `Marshal`), the RFC 3339 print of a time, and what a JSONB column gives back for a payload (`none`: it
-- refuses it).
pub record Platform : Type 0 where
  pub sha256 : Text → Text
  pub decode : Text → Option JsonValue
  pub encode : JsonValue → Option Text
  pub format_at : ℕ → Text
  pub jsonb : Text → Option Text
  -- A digest has 32 bytes.
  pub digest_length : (t : Text) → length (sha256 t) ≡ 32
  -- `Marshal` has no error on what `Unmarshal` gives, and `Unmarshal` reads it back.
  pub encodes :
      (raw : Text) (v : JsonValue) → decode raw ≡ some v → (t : Text) × (encode v ≡ some t)
  pub decodes_again :
      (raw t : Text) (v : JsonValue) → decode raw ≡ some v → encode v ≡ some t → decode t ≡ some v
  -- The column keeps the value of a text that `Marshal` wrote, but that it has no -0.
  pub reads_back :
      (t q : Text) (v : JsonValue)
      → decode t ≡ some v
      → encode v ≡ some t
      → has_minus_zero v ≡ false
      → jsonb t ≡ some q
      → decode q ≡ some v

-- A row of `audit_ledger`; `at` counts nanoseconds.
pub record Row : Type 0 where
  pub seq : ℕ
  pub prev_hash : Text
  pub entry_hash : Text
  pub kind : Text
  pub payload : Text
  pub at : ℕ

pub record Head : Type 0 where
  pub seq : ℕ
  pub hash : Text

-- The two tables: by tenant, the rows in the order of `seq`, and the row of `ledger_heads`.
pub record Db : Type 0 where
  pub rows : ℕ → List Row
  pub heads : ℕ → Option Head

abbrev pub zeros : Text
zeros = replicate 32 0

-- `at.UTC().Truncate(time.Microsecond)`
unfoldable pub normalize_at : ℕ → ℕ
normalize_at at = at - at % 1000

abbrev pub row_before : Row → Row → Bool
row_before a b = ltb a.seq b.seq

-- The primary key: is there a row of this number?
unfoldable pub has_seq : ℕ → List Row → Bool
has_seq n [] = false
has_seq n (r ∷ rs) = r.seq == n || has_seq n rs

-- The head row that the transaction reads after `INSERT … ON CONFLICT DO NOTHING`.
abbrev pub head_or_new : Option Head → Head
head_or_new none = record { seq = 0; hash = zeros }
head_or_new (some h) = h

pub data VerifyError : Type 0 where
  bad_seq bad_prev bad_entry bad_head : ℕ → VerifyError
  no_head : VerifyError

pub data Result {ℓ} (A : Type ℓ) : Type ℓ where
  ok : A → Result A
  err : VerifyError → Result A

module _ (p : Platform) where
  open p use {sha256, decode, encode, format_at, jsonb}

  -- `canonicalPayload`: what is no JSON stays as it is.
  unfoldable pub canonical : Text → Text
  canonical raw = elim (decode raw) [
    | none ↦ raw
    | some v ↦ elim (encode v) [ none ↦ raw | some out ↦ out ]
  ]

  unfoldable pub entry_hash : Text → Text → Text → ℕ → Text
  entry_hash prev kind payload at = sha256 (prev ++ (kind ++ (payload ++ format_at at)))

  -- `if seq == 0 { prev = Zeros() }`
  abbrev pub previous : Head → Text
  previous h = if h.seq == 0 then zeros else h.hash

  abbrev pub next_row : Head → Text → Text → Text → ℕ → Row
  next_row h kind payload stored at = record {
    seq = suc h.seq;
    prev_hash = previous h;
    entry_hash = entry_hash (previous h) kind payload at;
    kind = kind;
    payload = stored;
    at = at;
  }

  -- `Append` and `AppendSQL`; `none` is an error, which rolls the transaction back.
  unfoldable pub append : Db → ℕ → Text → Text → ℕ → Option Db
  unfolding has_seq canonical
  append db tenant kind payload at =
      let h = head_or_new (db.heads tenant) in
      elim (jsonb (canonical payload)) [
        | none ↦ none
        | some stored ↦
            let row = next_row h kind (canonical payload) stored (normalize_at at) in
            if has_seq (suc h.seq) (db.rows tenant)
            then none
            else some (record {
              rows = update db.rows tenant (insert_by row_before row (db.rows tenant));
              heads =
                  update db.heads tenant (some (record { seq = suc h.seq; hash = row.entry_hash }));
            })
      ]

  -- The loop of `Verify`: the last entry's hash and number, from the hash and number so far.
  unfoldable pub verify_from : Text → ℕ → Text → ℕ → List Row → Result (Text × ℕ)
  unfolding entry_hash normalize_at canonical
  verify_from prev expect last n [] = ok (last, n)
  verify_from prev expect last n (r ∷ rs) =
      let rest = verify_from r.entry_hash (suc expect) r.entry_hash r.seq rs in
      let sum = entry_hash prev r.kind (canonical r.payload) (normalize_at r.at) in
      if not (r.seq == expect)
      then err (bad_seq r.seq)
      else if not (text_eq r.prev_hash prev)
      then err (bad_prev r.seq)
      else if not (text_eq r.entry_hash sum)
      then err (bad_entry r.seq)
      else rest

  -- The comparison with `ledger_heads`.
  unfoldable pub check_head : Option Head → Text × ℕ → Result (Unit {0})
  check_head none (last, n) = if n == 0 then ok tt else err no_head
  check_head (some h) (last, n) =
      if h.seq == n && text_eq h.hash last then ok tt else err (bad_head h.seq)

  unfoldable pub verify_rows : List Row → Option Head → Result (Unit {0})
  unfolding verify_from check_head
  verify_rows rows head = elim (verify_from zeros 1 [] 0 rows) [
    | err e ↦ err e
    | ok end ↦ check_head head end
  ]

  unfoldable pub verify : Db → ℕ → Result (Unit {0})
  unfolding verify_rows
  verify db tenant = verify_rows (db.rows tenant) (db.heads tenant)
