-- ===== src/Prelude/Results.antt =====
-- What holds of the result of an `Option` computation, if it has one.
use mathlib.Core.Path.{◌≡◌, refl, subst}
use mathlib.Core.Option.{Option, none, some, some-injective}
use mathlib.Core.Bool.{Bool, true, false}
use libubus_jni.Prelude.Tests.{◌>>=◌, if◌then◌else◌}

pub data Ensures {ℓ κ} {A : Type ℓ} (P : A → Type κ) : Option A → Type (ℓ ⊔ κ) where
  fault : Ensures P none
  ensured : {a : A} → P a → Ensures P (some a)

pub >>=-Ensures {ℓ κ μ ν} :
    {A : Type ℓ} {B : Type κ} {P : A → Type μ} {Q : B → Type ν} {m : Option A} {f : A → Option B}
    → Ensures P m
    → ((a : A) → P a → Ensures Q (f a))
    → Ensures Q (m >>= f)
>>=-Ensures fault k = fault
>>=-Ensures (ensured {a = a} h) k = k a h

pub Ensures-mono {ℓ κ μ} :
    {A : Type ℓ} {P : A → Type κ} {Q : A → Type μ} {m : Option A}
    → Ensures P m
    → ((a : A) → P a → Q a)
    → Ensures Q m
Ensures-mono fault k = fault
Ensures-mono (ensured {a = a} h) k = ensured (k a h)

pub Ensures-some {ℓ κ} :
    {A : Type ℓ} {P : A → Type κ} {a : A} {m : Option A} → Ensures P m → m ≡ some a → P a
Ensures-some {P = P} fault e = cc
Ensures-some {P = P} (ensured h) e = subst P (some-injective _ _ e) h

pub if-Ensures {ℓ κ} :
    {A : Type ℓ} {P : A → Type κ} (b : Bool) {m n : Option A}
    → Ensures P m
    → Ensures P n
    → Ensures P (if b then m else n)
if-Ensures true h k = h
if-Ensures false h k = k

-- The first part of a bind of which nothing need be known.
pub Ensures-any {ℓ} : {A : Type ℓ} (m : Option A) → Ensures (λ _. Unit {0}) m
Ensures-any none = fault
Ensures-any (some a) = ensured tt

pub Ensures-both {ℓ κ μ} :
    {A : Type ℓ} {P : A → Type κ} {Q : A → Type μ} {m : Option A}
    → Ensures P m
    → Ensures Q m
    → Ensures (λ a. P a × Q a) m
Ensures-both {m = none} p q = fault
Ensures-both {P = P} {Q = Q} {m = some a} p q = ensured (Ensures-some p refl, Ensures-some q refl)
