-- ===== src/Common/Objects.antt =====
-- Objects with string keys, as association lists in insertion order.
use mathlib.Core.Path.{◌≡◌, refl}
use mathlib.Core.Option.{Option, none, some}
use mathlib.Core.List.{List, [], ◌∷◌}
use native.Mathlib.Omega.{arith}
use by_framework_ts.Common.Tests.{if◌then◌else◌}
use by_framework_ts.Common.Texts.{Text, text_eq, text_eq_iff}

module _ {ℓ} {V : Type ℓ} where
  -- `o[k]`; the last write of a key is the only one that the list holds.
  unfoldable pub lookup : Text → List (Text × V) → Option V
  lookup k [] = none
  lookup k ((j, v) ∷ o) = if text_eq j k then some v else lookup k o

  -- `o[k] = v`: an existing key keeps its place.
  unfoldable pub insert : Text → V → List (Text × V) → List (Text × V)
  insert k v [] = (k, v) ∷ []
  insert k v ((j, w) ∷ o) = if text_eq j k then (k, v) ∷ o else (j, w) ∷ insert k v o

  -- `{...o, ...p}`
  unfoldable pub spread : List (Text × V) → List (Text × V) → List (Text × V)
  spread o [] = o
  spread o ((k, v) ∷ p) = spread (insert k v o) p

  pub lookup-insert :
      (k j : Text) (v : V) (o : List (Text × V))
      → lookup j (insert k v o) ≡ (if text_eq k j then some v else lookup j o)
  unfolding lookup insert
  lookup-insert k j v [] = refl
  lookup-insert k j v ((i, w) ∷ o) =
      ground (arith, text_eq_iff k j, text_eq_iff i k, text_eq_iff i j, lookup-insert k j v o)

  -- Every key of the list once.
  abbrev pub IsObject : List (Text × V) → Type ℓ
  IsObject [] = Unit
  IsObject ((k, v) ∷ o) = (lookup k o ≡ none) × IsObject o

  abbrev pub or_else : Option V → Option V → Option V
  or_else none o = o
  or_else (some v) o = some v

  -- The right operand of a spread wins.
  pub lookup-spread :
      (j : Text) (o p : List (Text × V))
      → IsObject p
      → lookup j (spread o p) ≡ or_else (lookup j p) (lookup j o)
  unfolding lookup spread
  lookup-spread j o [] h = refl
  lookup-spread j o ((k, v) ∷ p) h =
      ground
        (arith, text_eq_iff k j, lookup-insert k j v o, lookup-spread j (insert k v o) p h.1, h.0)
