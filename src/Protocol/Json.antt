-- ===== src/Protocol/Json.antt =====
-- src/protocol/results.ts, `JsonValue`. Numbers are natural; fractions and negative numbers are left
-- out, since no modelled code computes with a number that stands in a payload.
use by_framework_ts.Common.{ℕ, Text, Bool, List, [], ◌∷◌}

mutual
  pub data JsonValue : Type 0 where
    null : JsonValue
    text : Text → JsonValue
    num : ℕ → JsonValue
    bool : Bool → JsonValue
    arr : Items → JsonValue
    obj : Fields → JsonValue

  pub data Items : Type 0 where
    nil : Items
    cons : JsonValue → Items → Items

  pub data Fields : Type 0 where
    end : Fields
    field : Text → JsonValue → Fields → Fields

-- `Record<string, JsonValue>`
abbrev pub JsonRecord : Type 0
JsonRecord = List (Text × JsonValue)

-- The value of an object literal.
abbrev pub fields : JsonRecord → Fields
fields [] = end
fields ((k, v) ∷ o) = field k v (fields o)
