-- ===== src/Ledger/Json.antt =====
-- The values that encoding/json reads into a Go `any`, as `canonicalPayload` of internal/ledger/ledger.go
-- does.
use cold_harbour.Common.{ℕ, ◌^◌, Bool, false, ◌||◌, List, [], ◌∷◌, Text, ◌==◌}

-- A number is a float64, given by its bits; the members of an object stand in the order of their names.
mutual
  pub data JsonValue : Type 0 where
    null : JsonValue
    boolean : Bool → JsonValue
    number : ℕ → JsonValue
    string : Text → JsonValue
    array : JsonValues → JsonValue
    object : JsonMembers → JsonValue

  pub data JsonValues : Type 0 where
    no_values : JsonValues
    value_then : JsonValue → JsonValues → JsonValues

  pub data JsonMembers : Type 0 where
    no_members : JsonMembers
    member_then : Text → JsonValue → JsonMembers → JsonMembers

-- Is there a number -0 in it? Its sign bit alone is set.
unfoldable mutual
  pub has_minus_zero : JsonValue → Bool
  has_minus_zero null = false
  has_minus_zero (boolean b) = false
  has_minus_zero (number bits) = bits == 2 ^ 63
  has_minus_zero (string t) = false
  has_minus_zero (array vs) = some_minus_zero vs
  has_minus_zero (object ms) = member_minus_zero ms

  pub some_minus_zero : JsonValues → Bool
  some_minus_zero no_values = false
  some_minus_zero (value_then v vs) = has_minus_zero v || some_minus_zero vs

  pub member_minus_zero : JsonMembers → Bool
  member_minus_zero no_members = false
  member_minus_zero (member_then name v ms) = has_minus_zero v || member_minus_zero ms

-- A `map[string]string` as a value.
unfoldable pub strings : List (Text × Text) → JsonMembers
strings [] = no_members
strings ((name, text) ∷ rest) = member_then name (string text) (strings rest)
