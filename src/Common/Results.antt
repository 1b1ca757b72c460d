-- ===== src/Common/Results.antt =====
-- What a method that may throw returns: a value, or the exception.
use mathlib.Core.Path.{◌≡◌, refl}
use mathlib.Core.Logic.{◌≢◌, ◌⊎◌, inl, inr}
use mathlib.Core.Bool.{Bool, true, false}

pub data Result (E A : Type 0) : Type 0 where
  ok : A → Result E A
  err : E → Result E A

module _ {E : Type 0} where
  infixl 5 ◌>>=◌ ◌>>◌
  abbrev pub ◌>>=◌ : {A B : Type 0} → Result E A → (A → Result E B) → Result E B
  err e >>= next = err e
  ok a >>= next = next a

  abbrev pub ◌>>◌ : {B : Type 0} → Result E (Unit {0}) → Result E B → Result E B
  m >> next = m >>= λ done. next

  -- `if (test) throw e`
  abbrev pub throw_if : Bool → E → Result E (Unit {0})
  throw_if false e = ok tt
  throw_if true e = err e

  pub >>=-eq-ok :
      {A B : Type 0} (m : Result E A) (next : A → Result E B) {b : B}
      → (m >>= next) ≡ ok b
      → (a : A) × (m ≡ ok a) × (next a ≡ ok b)
  >>=-eq-ok (err e) next h = cc
  >>=-eq-ok (ok a) next h = (a, refl, h)

pub ok-injective : {E A : Type 0} {a b : A} → ◌≡◌ {A = Result E A} (ok a) (ok b) → a ≡ b
ok-injective e = cc

pub Result-cases :
    {E A : Type 0} (r : Result E A) → ((a : A) × (r ≡ ok a)) ⊎ ((e : E) × (r ≡ err e))
Result-cases (ok a) = inl (a, refl)
Result-cases (err e) = inr (e, refl)

-- No exception, and a value.
abbrev pub is_ok : {E A : Type 0} → Result E A → Bool
is_ok (ok a) = true
is_ok (err e) = false

pub err-ne-ok : {E A : Type 0} {e : E} {a : A} → ◌≢◌ {A = Result E A} (err e) (ok a)
err-ne-ok h = cc

-- What follows a guard that let the call through.
pub throw_if-ok :
    {E B : Type 0} (test : Bool) (e : E) (k : Result E B) {b : B}
    → (throw_if test e >> k) ≡ ok b
    → (test ≡ false) × (k ≡ ok b)
throw_if-ok true e k h = absurd (err-ne-ok h)
throw_if-ok false e k h = (refl, h)

-- The call does not throw, and `Q` holds of what it returns.
abbrev pub Returns : {E A : Type 0} → (A → Type 0) → Result E A → Type 0
Returns Q (ok a) = Q a
Returns Q (err e) = ⊥

pub Returns-intro :
    {E A : Type 0} (Q : A → Type 0) (m : Result E A) {a : A} → m ≡ ok a → Q a → Returns Q m
Returns-intro Q m e q = rw e q

pub Returns-elim :
    {E A : Type 0} (Q : A → Type 0) (m : Result E A) → Returns Q m → (a : A) × (m ≡ ok a) × Q a
Returns-elim Q (ok a) h = (a, refl, h)
Returns-elim Q (err e) h = absurd h

pub Returns-bind :
    {E A B : Type 0} (P : A → Type 0) (Q : B → Type 0) (m : Result E A) (f : A → Result E B)
    → Returns P m
    → ((a : A) → m ≡ ok a → P a → Returns Q (f a))
    → Returns Q (m >>= f)
Returns-bind P Q (ok a) f h k = k a refl h
Returns-bind P Q (err e) f h k = absurd h

-- What holds of the value, if the call does not throw.
abbrev pub IfOk : {E A : Type 0} → (A → Type 0) → Result E A → Type 0
IfOk Q (ok a) = Q a
IfOk Q (err e) = Unit

pub IfOk-bind :
    {E A B : Type 0} (P : A → Type 0) (Q : B → Type 0) (m : Result E A) (next : A → Result E B)
    → IfOk P m
    → ((a : A) → P a → IfOk Q (next a))
    → IfOk Q (m >>= next)
IfOk-bind P Q (ok a) next h k = k a h
IfOk-bind P Q (err e) next h k = tt

pub IfOk-map :
    {E A : Type 0} {P Q : A → Type 0} (f : (a : A) → P a → Q a) (m : Result E A)
    → IfOk P m
    → IfOk Q m
IfOk-map f (ok a) h = f a h
IfOk-map f (err e) h = tt

pub IfOk-intro :
    {E A : Type 0} (Q : A → Type 0) (m : Result E A) → ((a : A) → m ≡ ok a → Q a) → IfOk Q m
IfOk-intro Q (ok a) k = k a refl
IfOk-intro Q (err e) k = tt

-- A call that returns, and what holds if it does.
pub Returns-IfOk :
    {E A : Type 0} (P Q : A → Type 0) (m : Result E A) → Returns P m → IfOk Q m → Returns Q m
Returns-IfOk P Q (ok a) h k = k
Returns-IfOk P Q (err e) h k = absurd h

-- A check that lets the call through does not touch what follows.
pub IfOk-after :
    {E A B : Type 0} (Q : B → Type 0) (m : Result E A) (next : A → Result E B)
    → ((a : A) → IfOk Q (next a))
    → IfOk Q (m >>= next)
IfOk-after Q (ok a) next h = h a
IfOk-after Q (err e) next h = tt

-- What a guard that let the call through has tested.
pub throw_if-IfOk :
    {E : Type 0} (test : Bool) (e : E) → IfOk (λ done. test ≡ false) (throw_if test e)
throw_if-IfOk false e = refl
throw_if-IfOk true e = tt
