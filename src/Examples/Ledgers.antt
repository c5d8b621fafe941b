-- ===== src/Examples/Ledgers.antt =====
-- Runs of the model of internal/ledger on concrete inputs, with a stand-in for SHA-256.
use cold_harbour.Common.{
  ◌≡◌, refl, sym, ap, subst, ◌∙◌, false, true, none, some, List, [], ◌∷◌, ◌++◌, Text, arith, length,
  length-append, length-take, take, drop, ◌⊎◌, map, codes, insert_by, update, Option, ℕ,
}
use cold_harbour.Keys.{
  KeyPlatform, KeysDb, create, revoke, authenticate, full_key, find_prefix, has_hash, can_revoke,
  revoke_rows, prefix_of,
}
use cold_harbour.Keys.Rows.{IsPrefix, Intact}
use cold_harbour.Keys.Life.{here, then_created, then_revoked, key_life}
use cold_harbour.Ledger.Json.{JsonValue, string, object, strings, has_minus_zero}
use cold_harbour.Ledger.{
  canonical, Platform, Row, Db, zeros, normalize_at, has_seq, ok, err, append, verify_from,
  verify_rows, verify, check_head, next_row, head_or_new, bad_entry, bad_head, entry_hash,
}
use cold_harbour.Ledger.Append.{append-verify}
use cold_harbour.Ledger.Tamper.{Collision, covered, body, verify-tamper}
use cold_harbour.Ledger.Merkle.{merkle_root, verify_inclusion_proof}
use cold_harbour.Ledger.Merkle.Inclusion.{path, verify_inclusion_proof-merkle_root}

-- The 32 bytes behind the first 32, padded.
abbrev pad : Text → Text
pad t = take 32 (drop 32 t ++ zeros)

-- A stand-in for JSON: every text is a string, and an object is written as `{}`.
abbrev write : JsonValue → Option Text
write (string t) = some t
write _ = some (codes "{}")

text_of : {raw : Text} {v : JsonValue} → some (string raw) ≡ some v → string raw ≡ v
text_of e = cc

write_encodes :
    (raw : Text) (v : JsonValue) → some (string raw) ≡ some v → (t : Text) × (write v ≡ some t)
write_encodes raw v e = subst (λ u. (t : Text) × (write u ≡ some t)) (text_of e) (raw, refl)

write_again :
    (raw t : Text) (v : JsonValue)
    → some (string raw) ≡ some v
    → write v ≡ some t
    → some (string t) ≡ some v
write_again raw t v d e =
    let same : some raw ≡ some t = subst (λ u. write u ≡ some t) (sym (text_of d)) e in
    let texts : raw ≡ t = cc in ap (λ x. some (string x)) (sym texts) ∙ d

column_reads :
    (t q : Text) (v : JsonValue)
    → some (string t) ≡ some v
    → write v ≡ some t
    → has_minus_zero v ≡ false
    → some t ≡ some q
    → some (string q) ≡ some v
column_reads t q v d e plain kept =
    let texts : t ≡ q = cc in ap (λ x. some (string x)) (sym texts) ∙ d

abbrev plain : Platform
plain = record {
  sha256 = pad;
  decode = λ t. some (string t);
  encode = write;
  format_at = λ at. at ∷ [];
  jsonb = λ t. some t;
  digest_length =
      λ t. omega (arith, length-take 32 (drop 32 t ++ zeros), length-append (drop 32 t) zeros);
  encodes = write_encodes;
  decodes_again = write_again;
  reads_back = column_reads;
}

abbrev empty : Db
empty = record { rows = λ t. []; heads = λ t. none }

abbrev first_row : Row
first_row = next_row plain (head_or_new none) (codes "pii") (codes "{}") (codes "{}") 3000

abbrev one_row : Db
one_row = record {
  rows = update empty.rows 7 (first_row ∷ []);
  heads = update empty.heads 7 (some (record { seq = 1; hash = first_row.entry_hash }));
}

append_first : append plain empty 7 (codes "pii") (codes "{}") 3456 ≡ some one_row
unfolding append canonical has_seq normalize_at insert_by
append_first = refl

one_row_ok : verify plain one_row 7 ≡ ok tt
unfolding verify verify_rows verify_from check_head entry_hash normalize_at canonical
one_row_ok = refl

-- A row changed in place is found.
changed_row :
    verify_rows plain (record first_row { kind = codes "pis" } ∷ []) (one_row.heads 7)
    ≡ err (bad_entry 1)
unfolding verify_rows verify_from check_head entry_hash normalize_at canonical
changed_row = refl

-- A last row removed is found.
removed_row : verify_rows plain [] (one_row.heads 7) ≡ err (bad_head 1)
unfolding verify_rows verify_from check_head entry_hash normalize_at canonical
removed_row = refl

append-verify_example :
    (db' : Db) × (row : Row) × (append plain one_row 7 (codes "job") (codes "[]") 5001 ≡ some db')
    × (db'.rows ≡ update one_row.rows 7 (one_row.rows 7 ++ row ∷ []))
    × (row.kind ≡ codes "job")
    × (row.payload ≡ codes "[]")
    × (row.seq ≡ 2)
    × (verify plain db' 8 ≡ ok tt)
unfolding verify verify_rows verify_from check_head entry_hash normalize_at canonical has_minus_zero
append-verify_example =
    append-verify plain one_row 7 (codes "job") (codes "[]") (codes "[]") (string (codes "[]")) 5001
      8 refl refl refl refl refl

verify-tamper_example :
    Collision pad (covered plain zeros (one_row.rows 7)) (covered plain zeros (one_row.rows 7))
    ⊎ (map (body plain) (one_row.rows 7) ≡ map (body plain) (one_row.rows 7))
unfolding verify verify_rows verify_from check_head entry_hash normalize_at canonical
verify-tamper_example =
    verify-tamper plain one_row one_row 7 (record { seq = 1; hash = first_row.entry_hash }) refl
      refl refl refl

abbrev leaves : List Text
leaves = codes "a" ∷ codes "b" ∷ codes "c" ∷ []

abbrev join : Text → Text
join t = b'(' ∷ t ++ b')' ∷ []

merkle_root_three : merkle_root join leaves ≡ codes "((ab)(cc))"
unfolding merkle_root
merkle_root_three = refl

verify_inclusion_proof-merkle_root_example :
    let way = path join (length leaves) leaves 2 in
    verify_inclusion_proof join
      (codes "c")
      (map (λ s. s.0) way)
      (map (λ s. s.1) way)
      (merkle_root join leaves)
    ≡ true
verify_inclusion_proof-merkle_root_example =
    verify_inclusion_proof-merkle_root join leaves 2 [] (omega arith)

strings_plain :
    (ms : List (Text × Text)) (t : Text)
    → write (object (strings ms)) ≡ some t
    → (v : JsonValue) × (some (string t) ≡ some v) × (has_minus_zero v ≡ false)
unfolding has_minus_zero
strings_plain ms t e = (string t, refl, refl)

abbrev key_platform : KeyPlatform
key_platform = record {
  platform = plain;
  encode = λ t. 65 ∷ t;
  print_id = λ id. id ∷ [];
  strings_decode = strings_plain;
}

abbrev no_keys : KeysDb
no_keys = record { api_keys = []; ledger = empty }

abbrev keys_or : Option KeysDb → KeysDb
keys_or none = no_keys
keys_or (some db) = db

abbrev first_secret : Text
first_secret = codes "0123456789012345678901234567890"

abbrev other_secret : Text
other_secret = codes "0123456789012345678901234567891"

abbrev first_prefix : Text
first_prefix = codes "ABCDEFGH"

abbrev made : Option KeysDb
made = create key_platform no_keys 7 (codes "ci") (codes "app") 3 first_prefix first_secret 1000

abbrev other_made : Option KeysDb
other_made =
    create key_platform (keys_or made) 7 (codes "ops") (codes "app") 4 (codes "ZZZZZZZZ")
      other_secret 1500

abbrev other_revoked : Option KeysDb
other_revoked = revoke key_platform (keys_or other_made) 7 4 1800

abbrev gone : Option KeysDb
gone = revoke key_platform (keys_or other_revoked) 7 3 2000

-- Another key is made and revoked between the making and the revocation of the first.
all_done :
    (made ≡ some (keys_or made))
    × (other_made ≡ some (keys_or other_made))
    × (other_revoked ≡ some (keys_or other_revoked))
    × (gone ≡ some (keys_or gone))
unfolding create revoke append canonical has_seq normalize_at insert_by find_prefix has_hash
    can_revoke revoke_rows strings
all_done = (refl, refl, refl, refl)

empty_ok : (tenant : ℕ) → verify plain empty tenant ≡ ok tt
unfolding verify verify_rows verify_from check_head
empty_ok tenant = refl

plain_prefix : IsPrefix (codes "ABCDEFGH")
plain_prefix = record {
  eight = refl;
  plain = (
    λ e. omega arith,
    (
      λ e. omega arith,
      (
        λ e. omega arith,
        (
          λ e. omega arith,
          (λ e. omega arith, (λ e. omega arith, (λ e. omega arith, (λ e. omega arith, tt)))),
        ),
      ),
    ),
  );
}

abbrev first_key : Text
first_key = full_key key_platform first_prefix first_secret

key_life_example :
    (authenticate key_platform (keys_or other_revoked) first_key
      ≡ some (record { tenant_id = 7; key_id = 3; role = codes "app" }))
    × ((pad first_key ≡ pad first_key)
        ⊎ (authenticate key_platform (keys_or other_revoked) first_key ≡ none))
    × (authenticate key_platform (keys_or gone) first_key ≡ none)
    × Intact plain (keys_or gone).ledger
unfolding prefix_of
key_life_example =
    key_life key_platform no_keys (keys_or made) (keys_or other_revoked) (keys_or gone)
      (keys_or gone) 7 (codes "ci") (codes "app") 3 first_prefix first_secret 1000 2000 plain_prefix
      refl empty_ok all_done.0
      (then_revoked
        (then_created here 7 (codes "ops") (codes "app") 4 (codes "ZZZZZZZZ") other_secret 1500
          (keys_or other_made) all_done.1)
        7 4 1800 (keys_or other_revoked) refl all_done.2)
      all_done.3 here first_key refl
