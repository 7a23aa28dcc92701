-- ===== src/Prelude/Results.antt =====
-- A call that may raise: the value, or the error that it raised.
use mathlib.Core.Path.{◌≡◌, refl}
use mathlib.Core.Bool.{Bool, true, false}
use mathlib.Core.Option.{Option, none, some}

pub data Result {ℓ} (E : Type ℓ) (A : Type ℓ) : Type ℓ where
  err : E → Result E A
  ok : A → Result E A

-- The rest of a body runs on the value of a call, and is left out where the call raises.
abbrev pub ◌>>=◌ {ℓ} : {E A B : Type ℓ} → Result E A → (A → Result E B) → Result E B
err error >>= rest = err error
ok value >>= rest = rest value

-- `if value is None: raise error`
abbrev pub found {ℓ} : {E A : Type ℓ} → Option A → E → Result E A
found (some value) error = ok value
found none error = err error

-- `if not test: raise error`
abbrev pub guard : {E : Type 0} → Bool → E → Result E (Unit {0})
guard false error = err error
guard true error = ok tt

-- A call for its checks alone.
abbrev pub ◌>>◌ {ℓ} : {E A B : Type ℓ} → Result E A → Result E B → Result E B
call >> rest = call >>= λ _. rest

infixl 5 ◌>>=◌
infixl 5 ◌>>◌
-- Inversion of a successful call.
pub >>=-eq-ok {ℓ} :
    {E A B : Type ℓ} (m : Result E A) (f : A → Result E B) {b : B}
    → (m >>= f) ≡ ok b
    → (a : A) × (m ≡ ok a) × (f a ≡ ok b)
>>=-eq-ok (err error) f h = cc
>>=-eq-ok (ok value) f h = (value, refl, h)

pub found-eq-ok {ℓ} : {E A : Type ℓ} (o : Option A) (e : E) {a : A} → found o e ≡ ok a → o ≡ some a
found-eq-ok (some a) e h = cc
found-eq-ok none e h = cc

pub guard-eq-ok : {E : Type 0} (b : Bool) (e : E) {u : Unit {0}} → guard b e ≡ ok u → b ≡ true
guard-eq-ok true e h = refl
guard-eq-ok false e h = cc
