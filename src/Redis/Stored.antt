-- ===== src/Redis/Stored.antt =====
-- What the server in memory keeps under a key: association lists without an order of their own, and
-- lists of members.
use by_framework_ts.Common.{
  Text, text_eq, text_eq_iff, ◌≡◌, refl, false, List, [], ◌∷◌, none, arith, if◌then◌else◌, lookup,
  includes, IsObject,
}

module _ {ℓ} {V : Type ℓ} where
  unfoldable pub erase : Text → List (Text × V) → List (Text × V)
  erase m [] = []
  erase m ((n, v) ∷ z) = if text_eq m n then erase m z else (n, v) ∷ erase m z

  pub lookup-erase :
      (m n : Text) (z : List (Text × V))
      → lookup n (erase m z) ≡ (if text_eq m n then none else lookup n z)
  unfolding lookup erase
  lookup-erase m n [] = ground arith
  lookup-erase m n ((x, v) ∷ z) =
      ground (arith, text_eq_iff m x, text_eq_iff x n, text_eq_iff m n, lookup-erase m n z)

  -- Each key once, with the value that is in force.
  unfoldable pub entries : List (Text × V) → List (Text × V)
  entries [] = []
  entries ((m, v) ∷ z) = (m, v) ∷ erase m (entries z)

  pub lookup-entries : (n : Text) (z : List (Text × V)) → lookup n (entries z) ≡ lookup n z
  unfolding lookup entries
  lookup-entries n [] = refl
  lookup-entries n ((m, v) ∷ z) = ground (arith, lookup-erase m n (entries z), lookup-entries n z)

  erase-IsObject : (m : Text) (z : List (Text × V)) → IsObject z → IsObject (erase m z)
  unfolding erase
  erase-IsObject m [] h = h
  erase-IsObject m ((n, v) ∷ z) h = ground (arith, lookup-erase m n z, erase-IsObject m z h.1)

  pub entries-IsObject : (z : List (Text × V)) → IsObject (entries z)
  unfolding entries
  entries-IsObject [] = tt
  entries-IsObject ((m, v) ∷ z) = ground (
    arith,
    text_eq_iff m m,
    lookup-erase m m (entries z),
    erase-IsObject m (entries z) (entries-IsObject z),
  )

unfoldable pub without : Text → List Text → List Text
without m [] = []
without m (n ∷ ns) = if text_eq n m then without m ns else n ∷ without m ns

pub includes-without :
    (m n : Text) (ns : List Text)
    → includes text_eq (without m ns) n ≡ (if text_eq m n then false else includes text_eq ns n)
unfolding without
includes-without m n [] = ground arith
includes-without m n (x ∷ ns) =
    ground (arith, text_eq_iff m n, text_eq_iff x m, text_eq_iff x n, includes-without m n ns)
