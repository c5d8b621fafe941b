-- ===== src/Keys.antt =====
-- internal/keys/keys.go: the API keys of the tenants.
pub mod Rows
pub mod Life
use cold_harbour.Common.{
  ℕ, Bool, true, false, ◌&&◌, ◌||◌, not, Option, none, some, List, [], ◌∷◌, ◌++◌, Text, codes,
  if◌then◌else◌, ◌==◌, text_eq, length, ◌≡◌, All, ◌≢◌,
}
use cold_harbour.Ledger.{Platform, Db, append}
use cold_harbour.Ledger.Json.{JsonValue, object, strings, has_minus_zero}
use cold_harbour.Worker.Stream.{is_blank}

-- A row of `api_keys`; `prefix` and `key_hash` are unique among them.
pub record ApiKey : Type 0 where
  pub id : ℕ
  pub tenant : ℕ
  pub name : Text
  pub prefix : Text
  pub key_hash : Text
  pub role : Text
  pub revoked_at : Option ℕ

pub record KeysDb : Type 0 where
  pub api_keys : List ApiKey
  pub ledger : Db

pub record Principal : Type 0 where
  pub tenant_id : ℕ
  pub key_id : ℕ
  pub role : Text

-- The ledger's platform; base64 of a secret, which is not empty; the print of an identifier.
pub record KeyPlatform : Type 0 where
  pub platform : Platform
  pub encode : Text → Text
  pub print_id : ℕ → Text
  -- `Marshal` of a map of strings writes JSON that has no number.
  pub strings_decode :
      (ms : List (Text × Text)) (t : Text)
      → platform.encode (object (strings ms)) ≡ some t
      → (v : JsonValue) × (platform.decode t ≡ some v) × (has_minus_zero v ≡ false)

-- `strings.SplitN` at an underscore: what stands before and behind the first.
unfoldable pub cut_underscore : Text → Option (Text × Text)
cut_underscore [] = none
cut_underscore (c ∷ cs) =
    let rest = cut_underscore cs in
    if c == b'_'
    then some ([], cs)
    else elim rest [ none ↦ none | some (before, behind) ↦ some (c ∷ before, behind) ]

abbrev pub checked_prefix : Text → Option (Text × Text) → Option Text
checked_prefix head none = none
checked_prefix head (some (prefix, secret)) =
    if text_eq head (codes "ch") && length prefix == 8 && not (is_blank secret)
    then some prefix
    else none

abbrev pub prefix_after : Option (Text × Text) → Option Text
prefix_after none = none
prefix_after (some (head, rest)) = checked_prefix head (cut_underscore rest)

-- `Prefix`
unfoldable pub prefix_of : Text → Option Text
unfolding cut_underscore
prefix_of full = prefix_after (cut_underscore full)

unfoldable pub find_prefix : Text → List ApiKey → Option ApiKey
find_prefix prefix [] = none
find_prefix prefix (k ∷ ks) =
    let rest = find_prefix prefix ks in if text_eq k.prefix prefix then some k else rest

unfoldable pub has_hash : Text → List ApiKey → Bool
has_hash hash [] = false
has_hash hash (k ∷ ks) = let rest = has_hash hash ks in text_eq k.key_hash hash || rest

abbrev pub is_none {ℓ} : {A : Type ℓ} → Option A → Bool
is_none none = true
is_none (some a) = false

-- The row that was found, by its revocation and its hash.
abbrev pub admitted : Text → ApiKey → Option Principal
admitted sum k =
    if is_none k.revoked_at && text_eq sum k.key_hash
    then some (record { tenant_id = k.tenant; key_id = k.id; role = k.role })
    else none

-- The row is set; an `UPDATE` that meets none is an error.
unfoldable pub revoke_rows : ℕ → ℕ → ℕ → List ApiKey → List ApiKey
revoke_rows tenant id now [] = []
revoke_rows tenant id now (k ∷ ks) =
    let rest = revoke_rows tenant id now ks in
    if k.id == id && k.tenant == tenant && is_none k.revoked_at
    then record k { revoked_at = some now } ∷ rest
    else k ∷ rest

unfoldable pub can_revoke : ℕ → ℕ → List ApiKey → Bool
can_revoke tenant id [] = false
can_revoke tenant id (k ∷ ks) =
    let rest = can_revoke tenant id ks in
    (k.id == id && k.tenant == tenant && is_none k.revoked_at) || rest

abbrev pub with_ledger : List ApiKey → Option Db → Option KeysDb
with_ledger keys none = none
with_ledger keys (some ledger) = some (record { api_keys = keys; ledger = ledger })

module _ (p : KeyPlatform) where
  -- `json.Marshal` of a map, in the order of its keys, and the append of what it gives.
  abbrev pub append_marshalled : Db → ℕ → Text → Option Text → ℕ → Option Db
  append_marshalled ledger tenant kind none now = none
  append_marshalled ledger tenant kind (some payload) now =
      append p.platform ledger tenant kind payload now

  abbrev pub created_payload : ApiKey → List (Text × Text)
  created_payload k =
      (codes "id", p.print_id k.id)
      ∷ (codes "name", k.name)
      ∷ (codes "prefix", k.prefix)
      ∷ (codes "role", k.role)
      ∷ []

  abbrev pub append_strings : Db → ℕ → Text → List (Text × Text) → ℕ → Option Db
  append_strings ledger tenant kind ms now =
      append_marshalled ledger tenant kind (p.platform.encode (object (strings ms))) now

  abbrev pub admitted_row : Text → Option ApiKey → Option Principal
  admitted_row header none = none
  admitted_row header (some k) = admitted (p.platform.sha256 header) k

  abbrev pub looked_up : KeysDb → Text → Option Text → Option Principal
  looked_up db header none = none
  looked_up db header (some prefix) = admitted_row header (find_prefix prefix db.api_keys)

  -- `Authenticate`
  unfoldable pub authenticate : KeysDb → Text → Option Principal
  unfolding prefix_of find_prefix
  authenticate db header = looked_up db header (prefix_of header)

  abbrev pub full_key : Text → Text → Text
  full_key prefix secret = codes "ch_" ++ (prefix ++ (codes "_" ++ p.encode secret))

  abbrev pub key_row : ℕ → ℕ → Text → Text → Text → Text → ApiKey
  key_row id tenant name role prefix secret = record {
    id = id;
    tenant = tenant;
    name = name;
    prefix = prefix;
    key_hash = p.platform.sha256 (full_key prefix secret);
    role = role;
    revoked_at = none;
  }

  -- `Create`, with the identifier that the database makes, the prefix of `newPrefix` and the random secret;
  -- `none` is an error, which rolls the transaction back.
  unfoldable pub create : KeysDb → ℕ → Text → Text → ℕ → Text → Text → ℕ → Option KeysDb
  unfolding find_prefix has_hash
  create db tenant name role id prefix secret now =
      let k = key_row id tenant name role prefix secret in
      if not (is_none (find_prefix prefix db.api_keys)) || has_hash k.key_hash db.api_keys
      then none
      else with_ledger (k ∷ db.api_keys)
          (append_strings db.ledger tenant (codes "key_created") (created_payload k) now)

  -- `Revoke`
  unfoldable pub revoke : KeysDb → ℕ → ℕ → ℕ → Option KeysDb
  unfolding revoke_rows can_revoke
  revoke db tenant id now =
      if can_revoke tenant id db.api_keys
      then with_ledger (revoke_rows tenant id now db.api_keys) (
          append_strings db.ledger tenant (codes "key_revoked") ((codes "id", p.print_id id) ∷ [])
            now)
      else none
