-- ===== src/Base/Results.antt =====
-- Rust's `Result`, and a call that may also panic.
use mathlib.Core.Path.{◌≡◌, refl}
use mathlib.Core.Logic.{◌⊎◌, inl, inr}
use mathlib.Core.Bool.{Bool, true, false}
use native.Mathlib.Omega.{arith}
use mathlib.Core.Option.{Option, none, some}

pub data Result {ℓ} (E : Type 0) (A : Type ℓ) : Type ℓ where
  ok : A → Result E A
  err : E → Result E A

-- The operator `?`.
infixl 5 ◌>>=◌ ◌>>◌
abbrev pub ◌>>=◌ {ℓ κ} :
    {E : Type 0} {A : Type ℓ} {B : Type κ} → Result E A → (A → Result E B) → Result E B
ok a >>= f = f a
err e >>= f = err e

abbrev pub ◌>>◌ {ℓ} : {E : Type 0} {B : Type ℓ} → Result E (Unit {0}) → Result E B → Result E B
m >> k = m >>= λ _. k

abbrev pub guard : {E : Type 0} → Bool → E → Result E (Unit {0})
guard true e = ok tt
guard false e = err e

abbrev pub ok_or {ℓ} : {E : Type 0} {A : Type ℓ} → Option A → E → Result E A
ok_or none e = err e
ok_or (some a) e = ok a

abbrev pub map_err {ℓ} : {E F : Type 0} {A : Type ℓ} → Result E A → (E → F) → Result F A
map_err (ok a) f = ok a
map_err (err e) f = err (f e)

-- What a call that may panic leaves: a value, an error of its `Result`, or an unwinding thread.
pub data Outcome {ℓ} (E : Type 0) (A : Type ℓ) : Type ℓ where
  returns : A → Outcome E A
  rejects : E → Outcome E A
  panics : Outcome E A

abbrev pub and_then {ℓ κ} :
    {E : Type 0} {A : Type ℓ} {B : Type κ} → Outcome E A → (A → Outcome E B) → Outcome E B
and_then (returns a) f = f a
and_then (rejects e) f = rejects e
and_then panics f = panics

-- A `Result` that the caller passes on by `?`.
abbrev pub or_return {ℓ κ} :
    {E : Type 0} {A : Type ℓ} {B : Type κ} → Result E A → (A → Outcome E B) → Outcome E B
or_return (ok a) f = f a
or_return (err e) f = rejects e

pub Result-cases {ℓ} :
    {E : Type 0} {A : Type ℓ} (r : Result E A) → ((e : E) × (r ≡ err e)) ⊎ ((a : A) × (r ≡ ok a))
Result-cases (ok a) = inr (a, refl)
Result-cases (err e) = inl (e, refl)

-- A chain that ends well: each part did.
pub bind-eq_ok {ℓ κ} :
    {E : Type 0} {A : Type ℓ} {B : Type κ} (m : Result E A) (f : A → Result E B) (b : B)
    → m >>= f ≡ ok b
    → (a : A) × (m ≡ ok a) × (f a ≡ ok b)
bind-eq_ok (ok a) f b h = (a, refl, h)
bind-eq_ok (err e) f b h = absurd (ground (arith, h))

pub map_err-eq_ok {ℓ} :
    {E F : Type 0} {A : Type ℓ} (m : Result E A) (f : E → F) (a : A) → map_err m f ≡ ok a → m ≡ ok a
map_err-eq_ok (ok x) f a h = ground (arith, h)
map_err-eq_ok (err e) f a h = absurd (ground (arith, h))

pub ok-bind {ℓ κ} :
    {E : Type 0} {A : Type ℓ} {B : Type κ} (m : Result E A) (f : A → Result E B) (a : A) (b : B)
    → m ≡ ok a
    → f a ≡ ok b
    → m >>= f ≡ ok b
ok-bind m f a b h k = rw h k

pub ok-map_err {ℓ} :
    {E F : Type 0} {A : Type ℓ} (m : Result E A) (f : E → F) (a : A) → m ≡ ok a → map_err m f ≡ ok a
ok-map_err m f a h = rw h refl
