-- ===== src/Common/Results.antt =====
-- An operation that raises, as a value: the exceptions of an app are its type `E`.
use mathlib.Core.Path.{◌≡◌, refl}
use mathlib.Core.Bool.{Bool, true, false}
use mathlib.Core.Option.{Option, none, some}

pub data Result {ℓ} (E : Type 0) (A : Type ℓ) : Type ℓ where
  ok : A → Result E A
  err : E → Result E A

-- `if bad: raise e`
abbrev pub raise_if : {E : Type 0} → Bool → E → Result E (Unit {0})
raise_if t e = elim t [ false ↦ ok tt | true ↦ err e ]

-- A query whose `None` is refused.
abbrev pub or_raise {ℓ} : {E : Type 0} {A : Type ℓ} → Option A → E → Result E A
or_raise o e = elim o [ some a ↦ ok a | none ↦ err e ]

-- The statements of a service, one after the other, up to the first that raises.
infixl 5 ◌>>=◌ ◌>>◌
abbrev pub ◌>>=◌ {ℓ κ} :
    {E : Type 0} {A : Type ℓ} {B : Type κ} (m : Result E A) (next : A → Result E B) → Result E B
m >>= next = elim m [ err e ↦ err e | ok a ↦ next a ]

abbrev pub ◌>>◌ {ℓ} : {E : Type 0} {B : Type ℓ} → Result E (Unit {0}) → Result E B → Result E B
m >> rest = elim m [ err e ↦ err e | ok done ↦ rest ]

-- The first part of a service that succeeded, and the rest of it.
pub >>=-eq-ok {ℓ κ} :
    {E : Type 0} {B : Type κ} {b : B} {A : Type ℓ} (first : Result E A) (rest : A → Result E B)
    (succeeded : (first >>= rest) ≡ ok b)
    → (a : A) × (first ≡ ok a) × (rest a ≡ ok b)
>>=-eq-ok (err e) rest stopped = absurd (cc)
>>=-eq-ok (ok a) rest went_on = (a, refl, went_on)

-- A guard that let the rest run did not hold.
pub raise_if-eq-ok {ℓ} :
    {E : Type 0} {B : Type ℓ} (t : Bool) (e : E) (k : Result E B) {b : B}
    → (raise_if t e >> k) ≡ ok b
    → (t ≡ false) × (k ≡ ok b)
raise_if-eq-ok true e k h = absurd (cc)
raise_if-eq-ok false e k h = (refl, h)

pub >>-eq-ok {ℓ} :
    {E : Type 0} {B : Type ℓ} (check : Result E (Unit {0})) (k : Result E B) {b : B}
    → (check >> k) ≡ ok b
    → (check ≡ ok tt) × (k ≡ ok b)
>>-eq-ok (ok tt) k h = (refl, h)
>>-eq-ok (err e) k h = absurd (cc)

pub or_raise-eq-ok {ℓ κ} :
    {E : Type 0} {A : Type ℓ} {B : Type κ} (o : Option A) (e : E) (f : A → Result E B) {b : B}
    → (or_raise o e >>= f) ≡ ok b
    → (a : A) × (o ≡ some a) × (f a ≡ ok b)
or_raise-eq-ok none e f h = absurd (cc)
or_raise-eq-ok (some a) e f h = (a, refl, h)

-- What a service returned, with the tables after it.
pub ok-pair {ℓ κ} :
    {E : Type 0} {A : Type ℓ} {B : Type κ} {a a' : A} {b b' : B}
    → ◌≡◌ {A = Result E (A × B)} (ok (a, b)) (ok (a', b'))
    → (a' ≡ a) × (b' ≡ b)
ok-pair h = (cc, cc)
