-- ===== src/ResumeMetadata.antt =====
-- src/resume_metadata.ts: the metadata that a resumed execution's handler reads.
use by_framework_ts.Common.{
  Text, text_eq, text_eq_iff, codes, ◌≡◌, refl, Bool, List, [], ◌∷◌, Option, none, some, arith,
  if◌then◌else◌, includes, lookup, insert, lookup-insert, spread, lookup-spread, IsObject, or_else,
}

-- `FRAMEWORK_HOP_METADATA_KEYS`
abbrev pub framework_hop_metadata_keys : List Text
framework_hop_metadata_keys =
    codes "trace_parent_span_id"
    ∷ codes "framework_parent_span_id"
    ∷ codes "langfuse_parent_observation_id"
    ∷ []

unfoldable pub is_hop_key : Text → Bool
is_hop_key key = includes text_eq framework_hop_metadata_keys key

module _ {ℓ} {V : Type ℓ} where
  -- The loop over the stored entries, from the object built so far.
  restore : List (Text × V) → List (Text × V) → List (Text × V)
  restore merged [] = merged
  restore merged ((key, value) ∷ stored) =
      restore (if is_hop_key key then merged else insert key value merged) stored

  abbrev or_empty : Option (List (Text × V)) → List (Text × V)
  or_empty none = []
  or_empty (some o) = o

  unfoldable pub merge_resume_metadata :
      Option (List (Text × V)) → Option (List (Text × V)) → List (Text × V)
  unfolding restore
  merge_resume_metadata stored incoming = spread (restore [] (or_empty stored)) (or_empty incoming)

  abbrev unless_hop : Text → Option V → Option V
  unless_hop key v = if is_hop_key key then none else v

  lookup-restore :
      (k : Text) (merged stored : List (Text × V))
      → IsObject stored
      → lookup k (restore merged stored)
        ≡ or_else (unless_hop k (lookup k stored)) (lookup k merged)
  unfolding restore lookup
  lookup-restore k merged [] h = ground arith
  lookup-restore k merged ((j, v) ∷ stored) h = ground (
    arith,
    text_eq_iff j k,
    lookup-insert j k v merged,
    lookup-restore k (insert j v merged) stored h.1,
    lookup-restore k merged stored h.1,
    h.0,
  )

lookup_nil {ℓ} : {V : Type ℓ} (k : Text) → lookup {V = V} k [] ≡ none
unfolding lookup
lookup_nil k = refl

-- For metadata that has every key once: a resumed handler reads every key of the waking message with
-- the value that the message has, and besides them every key that its execution was dispatched with,
-- unless it is one of the framework's per-hop keys, which are never restored.
pub lookup-merge_resume_metadata {ℓ} :
    {V : Type ℓ} (k : Text) (stored incoming : List (Text × V))
    → IsObject stored
    → IsObject incoming
    → lookup k (merge_resume_metadata (some stored) (some incoming))
      ≡ or_else (lookup k incoming) (if is_hop_key k then none else lookup k stored)
unfolding merge_resume_metadata
lookup-merge_resume_metadata {V} k stored incoming h i = ground (
  arith,
  lookup-spread k (restore [] stored) incoming i,
  lookup-restore k [] stored h,
  lookup_nil {V = V} k,
)
