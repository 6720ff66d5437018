-- ===== src/Common/Outcome.antt =====
-- How a call ends: a value, a thrown exception of the library, or undefined behaviour (`fault`).
use mathlib.Core.Path.{◌≡◌, refl}
use mathlib.Core.Bool.{Bool, true, false}
use libspl.Common.Tests.{if◌then◌else◌}
use mathlib.Core.Option.{Option, none, some}

-- The exceptions of include/exception.h, include/string_conversions.h, include/json.h and
-- include/thread_pool.h that the models throw, and the number 0 that the hash table throws.
pub data Exception : Type 0 where
  string_not_numeric invalid_argument out_of_range timeout json_decode element_not_found int_zero
        task_rejected :
      Exception

pub data Run {ℓ} (A : Type ℓ) : Type ℓ where
  ok : A → Run A
  throw : Exception → Run A
  fault : Run A

abbrev pub or_fault {ℓ} : {A : Type ℓ} → Option A → Run A
or_fault (some a) = ok a
or_fault none = fault

infixl 5 ◌>>=◌
abbrev pub ◌>>=◌ {ℓ μ} : {A : Type ℓ} {C : Type μ} → Run A → (A → Run C) → Run C
fault >>= next = fault
throw e >>= next = throw e
ok a >>= next = next a

-- what holds of the value, where there is one
abbrev pub Ensures {ℓ κ} : {A : Type ℓ} → (A → Type κ) → Run A → Type κ
Ensures P (ok a) = P a
Ensures P (throw e) = Unit
Ensures P fault = Unit

pub Ensures-bind {ℓ κ μ} :
    {A : Type ℓ} {B : Type κ} (P : B → Type μ) (m : Run A) (f : A → Run B)
    → ((a : A) → m ≡ ok a → Ensures P (f a))
    → Ensures P (m >>= f)
Ensures-bind P (ok a) f h = h a refl
Ensures-bind P (throw e) f h = tt
Ensures-bind P fault f h = tt

-- a value of which P holds, or an exception, but nothing undefined
abbrev pub Returns {ℓ} : {A : Type ℓ} → (A → Type 0) → Run A → Type 0
Returns P (ok a) = P a
Returns P (throw e) = Unit
Returns P fault = ⊥

pub Returns-bind {ℓ κ} :
    {A : Type ℓ} {B : Type κ} (P : A → Type 0) (Q : B → Type 0) (m : Run A) (f : A → Run B)
    → Returns P m
    → ((a : A) → P a → Returns Q (f a))
    → Returns Q (m >>= f)
Returns-bind P Q (ok a) f h next = next a h
Returns-bind P Q (throw e) f h next = tt
Returns-bind P Q fault f h next = absurd h

pub Returns-map {ℓ} :
    {A : Type ℓ} (P Q : A → Type 0) (m : Run A) → Returns P m → ((a : A) → P a → Q a) → Returns Q m
Returns-map P Q (ok a) h f = f a h
Returns-map P Q (throw e) h f = tt
Returns-map P Q fault h f = absurd h

pub Ensures-if {ℓ κ} :
    {A : Type ℓ} (P : A → Type κ) (b : Bool) (m n : Run A)
    → Ensures P m
    → Ensures P n
    → Ensures P (if b then m else n)
Ensures-if P true m n h k = h
Ensures-if P false m n h k = k

pub Ensures-map {ℓ κ μ} :
    {A : Type ℓ} (P : A → Type κ) (Q : A → Type μ) (m : Run A)
    → Ensures P m
    → ((a : A) → P a → Q a)
    → Ensures Q m
Ensures-map P Q (ok a) h f = f a h
Ensures-map P Q (throw e) h f = tt
Ensures-map P Q fault h f = tt

pub Ensures-next {ℓ κ μ ν} :
    {A : Type ℓ} {B : Type κ} (P : A → Type μ) (Q : B → Type ν) (m : Run A) (f : A → Run B)
    → Ensures P m
    → ((a : A) → P a → Ensures Q (f a))
    → Ensures Q (m >>= f)
Ensures-next P Q (ok a) f h next = next a h
Ensures-next P Q (throw e) f h next = tt
Ensures-next P Q fault f h next = tt

pub Returns-both {ℓ} :
    {A : Type ℓ} (P Q : A → Type 0) (m : Run A)
    → Returns P m
    → Ensures Q m
    → Returns (λ a. P a × Q a) m
Returns-both P Q (ok a) h k = (h, k)
Returns-both P Q (throw e) h k = tt
Returns-both P Q fault h k = h

pub Returns-Ensures {ℓ} : {A : Type ℓ} (P : A → Type 0) (m : Run A) → Returns P m → Ensures P m
Returns-Ensures P (ok a) h = h
Returns-Ensures P (throw e) h = tt
Returns-Ensures P fault h = absurd h
