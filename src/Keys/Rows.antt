-- ===== src/Keys/Rows.antt =====
-- What `Create` and `Revoke` do to the table of keys and to the ledgers, and which row a key is found in.
use cold_harbour.Common.{
  ℕ, ◌≡◌, ◌≢◌, refl, sym, subst, ◌∙◌, false, Option, none, some, List, [], ◌∷◌, ◌++◌, Text, codes,
  All, ◌==◌, ◌&&◌, Bool, if◌then◌else◌, text_eq, text_eq-eq, arith, length, Bool-cases,
  Option-cases, inl, inr, true, ap,
}
use cold_harbour.Ledger.{Platform, Db, ok, append, verify, canonical}
use cold_harbour.Ledger.Json.{JsonValue, object, strings, has_minus_zero}
use cold_harbour.Ledger.Append.{append-verify}
use cold_harbour.Worker.Stream.{is_blank}
use cold_harbour.Keys.{
  ApiKey, KeysDb, KeyPlatform, append_marshalled, append_strings, created_payload, cut_underscore,
  prefix_of, find_prefix, has_hash, is_none, admitted, authenticate, full_key, key_row, with_ledger,
  create, revoke, revoke_rows, can_revoke,
}

-- A prefix as `newPrefix` makes it: eight characters of base32.
pub record IsPrefix (prefix : Text) : Type 0 where
  pub eight : length prefix ≡ 8
  pub plain : All (λ c. c ≢ 95) prefix

is_underscore-false : (c : ℕ) → c ≢ 95 → (c == 95) ≡ false
is_underscore-false c h = ground arith

cut_underscore-plain :
    (before behind : Text)
    → All (λ c. c ≢ 95) before
    → cut_underscore (before ++ 95 ∷ behind) ≡ some (before, behind)
unfolding cut_underscore
cut_underscore-plain [] behind h = refl
cut_underscore-plain (c ∷ cs) behind h =
    rw (is_underscore-false c h.0, cut_underscore-plain cs behind h.1)

none-some : {A : Type 0} {a : A} → none ≢ some a
none-some e = cc

some-some : {A : Type 0} {a b : A} → some a ≡ some b → a ≡ b
some-some e = cc

pub same_number : (n : ℕ) → (n == n) ≡ true
same_number n = ground arith

-- Every tenant's ledger verifies.
abbrev pub Intact : Platform → Db → Type 0
Intact p db = (tenant : ℕ) → verify p db tenant ≡ ok tt

append-Intact :
    (p : Platform) (db db' : Db) (tenant : ℕ) (kind payload : Text) (v : JsonValue) (at : ℕ)
    → p.decode payload ≡ some v
    → has_minus_zero v ≡ false
    → append p db tenant kind payload at ≡ some db'
    → Intact p db
    → Intact p db'
unfolding append
append-Intact p db db' tenant kind payload v at d plain e good other =
    elim (Option-cases (p.jsonb (canonical p payload))) [
      | inl refused ↦ absurd (none-some (rw (refused, append) at e))
      | inr (stored, takes) ↦
          let (db2, row, added, _, _, _, _, fine) =
            append-verify p db tenant kind payload stored v at other (good tenant) (good other) d
              plain takes in
          subst (λ t. verify p t other ≡ ok tt) (some-some (sym added ∙ e)) fine
    ]

append_marshalled-Intact :
    (p : KeyPlatform) (db db' : Db) (tenant : ℕ) (kind : Text) (ms : List (Text × Text))
    (x : Option Text) (now : ℕ)
    → p.platform.encode (object (strings ms)) ≡ x
    → append_marshalled p db tenant kind x now ≡ some db'
    → Intact p.platform db
    → Intact p.platform db'
append_marshalled-Intact p db db' tenant kind ms none now out e good = absurd (none-some e)
append_marshalled-Intact p db db' tenant kind ms (some payload) now out e good =
    let (v, d, plain) = p.strings_decode ms payload out in
    append-Intact p.platform db db' tenant kind payload v now d plain e good

with_ledger-some :
    (keys : List ApiKey) (x : Option Db) (db : KeysDb)
    → with_ledger keys x ≡ some db
    → (db.api_keys ≡ keys) × (x ≡ some db.ledger)
with_ledger-some keys none db e = absurd (none-some e)
with_ledger-some keys (some ledger) db e = (cc, cc)

module _ (p : KeyPlatform) where
  pub prefix_of-full_key :
      (prefix secret : Text)
      → IsPrefix prefix
      → is_blank (p.encode secret) ≡ false
      → prefix_of (full_key p prefix secret) ≡ some prefix
  unfolding prefix_of cut_underscore
  prefix_of-full_key prefix secret h filled =
      rw (cut_underscore-plain prefix (p.encode secret) h.plain, h.eight, filled)

  pub authenticate-found :
      (db : KeysDb) (k : ApiKey) (prefix header : Text)
      → find_prefix prefix db.api_keys ≡ some k
      → prefix_of header ≡ some prefix
      → authenticate p db header ≡ admitted (p.platform.sha256 header) k
  unfolding authenticate
  authenticate-found db k prefix header found named = rw (named, authenticate) (rw found refl)

  -- `Create` adds the row, whose prefix is new, and a ledger entry, or nothing.
  pub create-rows :
      (db db' : KeysDb) (tenant : ℕ) (name role : Text) (id : ℕ) (prefix secret : Text) (now : ℕ)
      → create p db tenant name role id prefix secret now ≡ some db'
      → (find_prefix prefix db.api_keys ≡ none)
        × (db'.api_keys ≡ key_row p id tenant name role prefix secret ∷ db.api_keys)
        × (Intact p.platform db.ledger → Intact p.platform db'.ledger)
  unfolding create
  create-rows db db' tenant name role id prefix secret now e =
      let k = key_row p id tenant name role prefix secret in
      elim (Option-cases (find_prefix prefix db.api_keys)) [
        | inr (old, taken) ↦ absurd (none-some (rw (taken, create) at e))
        | inl free ↦ elim (Bool-cases (has_hash k.key_hash db.api_keys)) [
          | inl twice ↦ absurd (none-some (rw (free, twice, create) at e))
          | inr new ↦
              let (rows, log) =
                with_ledger-some (k ∷ db.api_keys)
                  (append_strings p db.ledger tenant (codes "key_created") (created_payload p k)
                    now)
                  db' (rw (free, new, create) at e) in
              (
                free,
                rows,
                append_marshalled-Intact p db.ledger db'.ledger tenant (codes "key_created")
                    (created_payload p k) _ now refl log,
              )
        ]
      ]

  pub revoke-rows :
      (db db' : KeysDb) (tenant id now : ℕ)
      → revoke p db tenant id now ≡ some db'
      → (db'.api_keys ≡ revoke_rows tenant id now db.api_keys)
        × (Intact p.platform db.ledger → Intact p.platform db'.ledger)
  unfolding revoke
  revoke-rows db db' tenant id now e = elim (Bool-cases (can_revoke tenant id db.api_keys)) [
    | inr t ↦ absurd (none-some (rw (t, revoke) at e))
    | inl t ↦
        let payload = (codes "id", p.print_id id) ∷ [] in
        let (rows, log) =
          with_ledger-some (revoke_rows tenant id now db.api_keys)
            (append_strings p db.ledger tenant (codes "key_revoked") payload now) db'
            (rw (t, revoke) at e) in
        (
          rows,
          append_marshalled-Intact p db.ledger db'.ledger tenant (codes "key_revoked") payload _ now
              refl log,
        )
  ]

-- Does a revocation set this row?
abbrev pub sets : ℕ → ℕ → ApiKey → Bool
sets tenant id k = k.id == id && k.tenant == tenant && is_none k.revoked_at

abbrev pub revoked_row : ℕ → ℕ → ℕ → ApiKey → ApiKey
revoked_row tenant id now k = if sets tenant id k then record k { revoked_at = some now } else k

abbrev pub map_row : (ApiKey → ApiKey) → Option ApiKey → Option ApiKey
map_row f none = none
map_row f (some k) = some (f k)

pub find_prefix-revoke_rows :
    (tenant id now : ℕ) (prefix : Text) (ks : List ApiKey)
    → find_prefix prefix (revoke_rows tenant id now ks)
      ≡ map_row (revoked_row tenant id now) (find_prefix prefix ks)
unfolding find_prefix revoke_rows
find_prefix-revoke_rows tenant id now prefix [] = refl
find_prefix-revoke_rows tenant id now prefix (k ∷ ks) =
    let rest = find_prefix-revoke_rows tenant id now prefix ks in
    elim (Bool-cases (sets tenant id k)) [
      | inl t ↦ elim (Bool-cases (text_eq k.prefix prefix)) [
        | inl s ↦ rw (t, s) (rw t refl)
        | inr s ↦ rw (t, s) rest
      ]
      | inr t ↦ elim (Bool-cases (text_eq k.prefix prefix)) [
        | inl s ↦ rw (t, s) (rw t refl)
        | inr s ↦ rw (t, s) rest
      ]
    ]

-- A row under another prefix hides nothing.
pub find_prefix-behind :
    (prefix : Text) (new k : ApiKey) (ks : List ApiKey)
    → find_prefix new.prefix ks ≡ none
    → find_prefix prefix ks ≡ some k
    → find_prefix prefix (new ∷ ks) ≡ some k
unfolding find_prefix
find_prefix-behind prefix new k ks free found = elim (Bool-cases (text_eq new.prefix prefix)) [
  | inl same ↦ absurd (
      none-some (sym free ∙ ap (λ t. find_prefix t ks) (text_eq-eq new.prefix prefix same) ∙ found))
  | inr differs ↦ rw differs found
]
