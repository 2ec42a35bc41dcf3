-- ===== src/Liveness/WaitIndex/Escaping.antt =====
-- Escaping by two passes of split and join is a substitution character by character, which the
-- scanner undoes.
use by_framework_ts.Common.{
  ℕ, Text, ◌≡◌, refl, false, List, [], ◌∷◌, ◌++◌, arith, ◌==◌, if◌then◌else◌, Bool-cases, inl, inr,
}
use mathlib.Core.List.{append_assoc, append-nil}
use by_framework_ts.Liveness.WaitIndex.{
  separator, escape, split_on, cons_head, join, escape_field, split_loop,
}

-- One pass: every `c` becomes `r`.
replace : ℕ → Text → Text → Text
replace c r [] = []
replace c r (x ∷ s) = let rest = replace c r s in if x == c then r ++ rest else x ∷ rest

split_on-cons : (c : ℕ) (s : Text) → (t : Text) × (ts : List Text) × (split_on c s ≡ t ∷ ts)
unfolding split_on
split_on-cons c [] = ([], [], refl)
split_on-cons c (x ∷ s) =
    let (t, ts, e) = split_on-cons c s in
    elim (Bool-cases (x == c)) [ inl h ↦ ([], t ∷ ts, rw (h, e)) | inr h ↦ (x ∷ t, ts, rw (h, e)) ]

join-cons_head :
    (r : Text) (x : ℕ) (t : Text) (ts : List Text)
    → join r (cons_head x (t ∷ ts)) ≡ x ∷ join r (t ∷ ts)
unfolding join
join-cons_head r x t [] = refl
join-cons_head r x t (u ∷ ts) = refl

join-split_on : (c : ℕ) (r s : Text) → join r (split_on c s) ≡ replace c r s
unfolding join split_on replace
join-split_on c r [] = refl
join-split_on c r (x ∷ s) =
    let (t, ts, e) = split_on-cons c s in
    ground (arith, e, join-cons_head r x t ts, join-split_on c r s)

escape_field-replace :
    (v : Text)
    → escape_field v
      ≡ replace separator (escape ∷ separator ∷ []) (replace escape (escape ∷ escape ∷ []) v)
unfolding escape_field
escape_field-replace v = rw (
  join-split_on escape (escape ∷ escape ∷ []) v,
  join-split_on separator (escape ∷ separator ∷ []) (replace escape (escape ∷ escape ∷ []) v),
)

-- One character at a time.
escape_field-cons :
    (x : ℕ) (v : Text)
    → escape_field (x ∷ v) ≡ (
        if x == escape
        then escape ∷ escape ∷ escape_field v
        else if x == separator
        then escape ∷ separator ∷ escape_field v
        else x ∷ escape_field v)
unfolding replace
escape_field-cons x v = ground (arith, escape_field-replace v, escape_field-replace (x ∷ v))

escape_field-nil : escape_field [] ≡ []
unfolding escape_field split_on join
escape_field-nil = refl

-- The scanner reads an escaped field back, whatever follows it.
pub split_loop-escape_field :
    (fields : List Text) (current v rest : Text)
    → split_loop fields current false (escape_field v ++ rest)
      ≡ split_loop fields (current ++ v) false rest
unfolding split_loop
split_loop-escape_field fields current [] rest = rw (escape_field-nil, append-nil current) refl
split_loop-escape_field fields current (x ∷ v) rest = ground (
  arith,
  escape_field-cons x v,
  split_loop-escape_field fields (current ++ x ∷ []) v rest,
  append_assoc current (x ∷ []) v,
)
