-- ===== src/Redis/Async.antt =====
-- Asynchronous code as functions from the state of the world to a reply and the next state.
use by_framework_ts.Common.{ok, err, ◌≡◌, refl, ◌⊎◌, inl, inr}
use by_framework_ts.Redis.Env.{Reply}

abbrev pub Async : Type 0 → Type 0 → Type 0
Async S A = S → Reply A × S

infixl 5 ◌>>=◌ ◌>>◌
abbrev pub ◌>>=◌ : {S A B : Type 0} → Async S A → (A → Async S B) → Async S B
◌>>=◌ m f s = elim (m s).0 [ ok a ↦ f a (m s).1 | err e ↦ (err e, (m s).1) ]

abbrev pub ◌>>◌ : {S A B : Type 0} → Async S A → Async S B → Async S B
m >> n = m >>= λ _. n

abbrev pub return : {S A : Type 0} → A → Async S A
return a s = (ok a, s)

-- `throw`
abbrev pub throw : {S A : Type 0} → Async S A
throw s = (err tt, s)

-- `try { … } catch { … }`
abbrev pub try_catch : {S A : Type 0} → Async S A → Async S A → Async S A
try_catch m handler s = elim (m s).0 [ ok a ↦ (ok a, (m s).1) | err e ↦ handler (m s).1 ]

-- Reading the world: the clock, a new id.
abbrev pub reads : {S A : Type 0} → (S → A) → Async S A
reads f s = (ok (f s), s)

pub Reply-cases : {A : Type 0} (r : Reply A) → ((a : A) × (r ≡ ok a)) ⊎ (r ≡ err tt)
Reply-cases (ok a) = inl (a, refl)
Reply-cases (err tt) = inr refl
