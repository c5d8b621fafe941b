-- ===== src/Keys/Life.antt =====
-- A key from its creation to its revocation.
use cold_harbour.Common.{
  ℕ, ◌≡◌, refl, ◌∙◌, false, not, none, some, List, ◌∷◌, Text, ◌==◌, ◌&&◌, ◌⊎◌, Bool, text_eq,
  text_eq-eq, arith, text_eq_refl, Bool-cases, inl, inr, true, ap,
}
use cold_harbour.Worker.Stream.{is_blank}
use cold_harbour.Keys.{
  ApiKey, KeysDb, KeyPlatform, prefix_of, find_prefix, authenticate, full_key, key_row, create,
  revoke,
}
use cold_harbour.Keys.Rows.{
  IsPrefix, same_number, Intact, prefix_of-full_key, authenticate-found, create-rows, revoke-rows,
  sets, revoked_row, map_row, find_prefix-revoke_rows, find_prefix-behind,
}

-- What else happens to the keys: others are created, and keys are revoked, of those that `may` names by
-- their tenant and identifier.
pub data Run (p : KeyPlatform) (may : ℕ → ℕ → Bool) (db : KeysDb) : KeysDb → Type 0 where
  here : Run p may db db
  then_created :
      {db1 : KeysDb}
      → Run p may db db1
      → (tenant : ℕ) (name role : Text) (id : ℕ) (prefix secret : Text) (now : ℕ) (db2 : KeysDb)
      → create p db1 tenant name role id prefix secret now ≡ some db2
      → Run p may db db2
  then_revoked :
      {db1 : KeysDb}
      → Run p may db db1
      → (tenant id now : ℕ) (db2 : KeysDb) → may tenant id ≡ true
      → revoke p db1 tenant id now ≡ some db2
      → Run p may db db2

Run-Intact :
    {p : KeyPlatform} {may : ℕ → ℕ → Bool} {db db' : KeysDb}
    → Run p may db db'
    → Intact p.platform db.ledger
    → Intact p.platform db'.ledger
Run-Intact here good = good
Run-Intact {p} (then_created {db1} g tenant name role id prefix secret now db2 made) good =
    (create-rows p db1 db2 tenant name role id prefix secret now made).2 (Run-Intact g good)
Run-Intact {p} (then_revoked {db1} g tenant id now db2 may revoked) good =
    (revoke-rows p db1 db2 tenant id now revoked).1 (Run-Intact g good)

-- A row that the revocations leave alone is found in every later state.
Run-found :
    {p : KeyPlatform} {may : ℕ → ℕ → Bool} {db db' : KeysDb}
    → Run p may db db'
    → (k : ApiKey) (prefix : Text)
    → ((tenant id : ℕ) → may tenant id ≡ true → sets tenant id k ≡ false)
    → find_prefix prefix db.api_keys ≡ some k
    → find_prefix prefix db'.api_keys ≡ some k
Run-found here k prefix spared found = found
Run-found {p} (then_created {db1} g tenant name role id own secret now db2 made) k prefix spared
      found =
    let (free, rows, _) = create-rows p db1 db2 tenant name role id own secret now made in
    ap (find_prefix prefix) rows
    ∙ find_prefix-behind prefix (key_row p id tenant name role own secret) k db1.api_keys free
        (Run-found g k prefix spared found)
Run-found {p} (then_revoked {db1} g tenant id now db2 may revoked) k prefix spared found =
    let (rows, _) = revoke-rows p db1 db2 tenant id now revoked in
    ap (find_prefix prefix) rows
    ∙ find_prefix-revoke_rows tenant id now prefix db1.api_keys
    ∙ ap (map_row (revoked_row tenant id now)) (Run-found g k prefix spared found)
    ∙ rw (spared tenant id may) refl

-- All but the key itself.
abbrev pub but : ℕ → ℕ → ℕ → ℕ → Bool
but tenant id other_tenant other_id = not (id == other_id && tenant == other_tenant)

abbrev pub any_key : ℕ → ℕ → Bool
any_key tenant id = true

but-sets :
    (k : ApiKey) (tenant id : ℕ) → but k.tenant k.id tenant id ≡ true → sets tenant id k ≡ false
but-sets k tenant id h = ground arith

find_prefix-first : (k : ApiKey) (ks : List ApiKey) → find_prefix k.prefix (k ∷ ks) ≡ some k
unfolding find_prefix
find_prefix-first k ks = rw (text_eq_refl k.prefix) refl

-- A key that `Create` makes, with a prefix as `newPrefix` makes it, in a database whose ledgers all verify.
-- However other keys are created and revoked afterwards: the whole key authenticates as its tenant with its
-- role; another text with its prefix does not authenticate, unless it has the same SHA-256 digest. Once its tenant has
-- revoked it, no text with its prefix authenticates, however keys are created and revoked from then on; and
-- all ledgers still verify.
pub key_life :
    (p : KeyPlatform) (db db1 db2 db3 db4 : KeysDb) (tenant : ℕ) (name role : Text) (id : ℕ)
    (prefix secret : Text) (now later : ℕ)
    → IsPrefix prefix
    → is_blank (p.encode secret) ≡ false
    → Intact p.platform db.ledger
    → create p db tenant name role id prefix secret now ≡ some db1
    → Run p (but tenant id) db1 db2
    → revoke p db2 tenant id later ≡ some db3
    → Run p any_key db3 db4
    → (header : Text) → prefix_of header ≡ some prefix
    → (authenticate p db2 (full_key p prefix secret)
        ≡ some (record { tenant_id = tenant; key_id = id; role = role }))
      × ((p.platform.sha256 header ≡ p.platform.sha256 (full_key p prefix secret))
          ⊎ (authenticate p db2 header ≡ none))
      × (authenticate p db4 header ≡ none)
      × Intact p.platform db4.ledger
key_life p db db1 db2 db3 db4 tenant name role id prefix secret now later h filled good made lives
      revoked goes_on header named =
    let k = key_row p id tenant name role prefix secret in
    let gone = record k { revoked_at = some later } in
    let full = full_key p prefix secret in
    let (_, rows1, safe1) = create-rows p db db1 tenant name role id prefix secret now made in
    let (rows3, safe3) = revoke-rows p db2 db3 tenant id later revoked in
    let found =
      Run-found lives k prefix (but-sets k)
        (ap (find_prefix prefix) rows1 ∙ find_prefix-first k db.api_keys) in
    let found3 : find_prefix prefix db3.api_keys ≡ some gone =
      ap (find_prefix prefix) rows3
      ∙ find_prefix-revoke_rows tenant id later prefix db2.api_keys
      ∙ ap (map_row (revoked_row tenant id later)) found
      ∙ rw (same_number id, same_number tenant) refl in
    let found4 = Run-found goes_on gone prefix (λ t i any. ground arith) found3 in
    let sum = p.platform.sha256 header in
    (
      authenticate-found p db2 k prefix full found (prefix_of-full_key p prefix secret h filled)
          ∙ rw (text_eq_refl k.key_hash) refl,
      elim (Bool-cases (text_eq sum k.key_hash)) [
        | inl same ↦ inl (text_eq-eq sum k.key_hash same)
        | inr differs ↦ inr (authenticate-found p db2 k prefix header found named ∙ rw differs refl)
      ],
      authenticate-found p db4 gone prefix header found4 named ∙ refl,
      Run-Intact goes_on (safe3 (Run-Intact lives (safe1 good))),
    )
