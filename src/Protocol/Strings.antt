-- ===== src/Protocol/Strings.antt =====
-- JavaScript's `String(value)`, `value || other` and `toUpperCase()`, for decoded JSON.
use by_framework_ts.Common.{
  ℕ, zero, suc, ◌+◌, ◌-◌, ◌/◌, ◌%◌, ltb, leb, Text, codes, is_empty, Bool, true, false, not, ◌&&◌,
  ◌==◌, [], ◌∷◌, ◌++◌, Option, none, some, if◌then◌else◌,
}
use by_framework_ts.Protocol.Json.{JsonValue, Items, null, text, num, bool, arr, obj, nil, cons}

-- The digits of a number, on fuel: no number below 10 ^ fuel has more digits.
unfoldable pub digits : ℕ → ℕ → Text
digits zero n = []
digits (suc fuel) n =
    let rest = digits fuel (n / 10) in
    if ltb n 10 then (48 + n) ∷ [] else rest ++ (48 + n % 10) ∷ []

unfoldable pub decimal : ℕ → Text
unfolding digits
decimal n = digits (suc n) n

-- null is '' among the items that are joined.
unfoldable pub unless_null : JsonValue → Text → Text
unless_null null t = []
unless_null _ t = t

unfoldable mutual
  pub string_of : JsonValue → Text
  string_of null = codes "null"
  string_of (text s) = s
  string_of (num n) = decimal n
  string_of (bool true) = codes "true"
  string_of (bool false) = codes "false"
  string_of (arr xs) = joined_items xs
  string_of (obj o) = codes "[object Object]"

  -- `items.join(',')`
  pub joined_items : Items → Text
  joined_items nil = []
  joined_items (cons x nil) = unless_null x (string_of x)
  joined_items (cons x (cons y xs)) =
      unless_null x (string_of x) ++ codes "," ++ joined_items (cons y xs)

-- Whether a value counts as true; `undefined`, which is `none`, does not.
unfoldable pub is_truthy_json : Option JsonValue → Bool
is_truthy_json none = false
is_truthy_json (some null) = false
is_truthy_json (some (text s)) = not (is_empty s)
is_truthy_json (some (num n)) = not (n == 0)
is_truthy_json (some (bool b)) = b
is_truthy_json (some _) = true

-- `value || other`
unfoldable pub or_json : Option JsonValue → Option JsonValue → Option JsonValue
or_json a b = if is_truthy_json a then a else b

-- `String(value || other)`
unfoldable pub string_or : Option JsonValue → Text → Text
string_or none other = other
string_or (some v) other = if is_truthy_json (some v) then string_of v else other

-- `toUpperCase()` on the letters of ASCII. No other character becomes one of the letters of the
-- words that the code compares the result with.
unfoldable pub to_upper_case : Text → Text
to_upper_case [] = []
to_upper_case (c ∷ s) = (if leb 97 c && leb c 122 then c - 32 else c) ∷ to_upper_case s
