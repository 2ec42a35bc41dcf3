-- ===== src/Redis/Data.antt =====
-- The contents of a Redis server, and the effect of each command on them.
use by_framework_ts.Common.{
  ℕ, Text, text_eq, Bool, false, ◌&&◌, List, [], ◌∷◌, ◌++◌, Option, none, some, leb, if◌then◌else◌,
  is_some,
}
use by_framework_ts.Redis.Keys.{Key, key_eq}
use by_framework_ts.Redis.Values.{Value, number}

pub record Data : Type 0 where
  -- The score of a member of a sorted set.
  pub zset : Key → Text → Option ℕ
  pub str : Key → Option Value
  pub hash : Key → Text → Option Value
  -- The members of a set.
  pub members : Key → Text → Bool
  -- The entries of a stream, oldest first.
  pub stream : Key → List Value

abbrev pub at_key {ℓ} : {A : Type ℓ} → Key → A → (Key → A) → Key → A
at_key k a f j = if key_eq k j then a else f j

abbrev pub at_field {ℓ} : {A : Type ℓ} → Key → Text → A → (Key → Text → A) → Key → Text → A
at_field k m a f j n = if key_eq k j && text_eq m n then a else f j n

abbrev pub put_entry : Key → Text → Option ℕ → Data → Data
put_entry k m score d = record d { zset = at_field k m score d.zset }

abbrev pub outside : ℕ → ℕ → Option ℕ → Option ℕ
outside lo hi none = none
outside lo hi (some score) = if leb lo score && leb score hi then none else some score

abbrev pub drop_range : Key → ℕ → ℕ → Data → Data
drop_range k lo hi d = record d {
  zset = λ j m. if key_eq k j then outside lo hi (d.zset j m) else d.zset j m;
}

abbrev pub put_str : Key → Option Value → Data → Data
put_str k v d = record d { str = at_key k v d.str }

abbrev pub put_field : Key → Text → Option Value → Data → Data
put_field k f v d = record d { hash = at_field k f v d.hash }

abbrev pub add_stream : Key → Value → Data → Data
add_stream k v d = record d { stream = at_key k (d.stream k ++ v ∷ []) d.stream }

abbrev pub put_member : Key → Text → Bool → Data → Data
put_member k m b d = record d { members = at_field k m b d.members }

-- DEL of a key that holds a set, and of one that holds a hash.
abbrev pub clear_members : Key → Data → Data
clear_members k d = record d { members = at_key k (λ m. false) d.members }

abbrev pub clear_fields : Key → Data → Data
clear_fields k d = record d { hash = at_key k (λ f. none) d.hash }

abbrev pub count_entry : Option ℕ → ℕ
count_entry none = 0
count_entry (some score) = 1

-- SET … NX
abbrev pub put_absent : Key → Value → Data → Data
put_absent k v d = if is_some (d.str k) then d else put_str k (some v) d

-- The number in a hash field, as HINCRBY reads it.
abbrev pub number_at : Option Value → ℕ
number_at (some (number n)) = n
number_at _ = 0
