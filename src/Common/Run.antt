-- ===== src/Common/Run.antt =====
-- What a run of a piece of C code ends with: its value, or the reason why there is none.
use Prim.Native.Nat.{ℕ}
use mathlib.Core.Path.{◌≡◌, refl, subst}
use mathlib.Core.Logic.{◌≢◌}
use mathlib.Core.Bool.{Bool, true, false}

-- `exit` is the call with its status. `out_of_fuel` is the model's own: a loop went through all the
-- rounds that its fuel allows. The others are undefined behaviour or a failed assertion.
pub data Stop : Type 0 where
  exit : ℕ → Stop
  out_of_bounds uninitialised int_overflow null_deref div_by_zero assertion out_of_fuel : Stop

pub data Run {ℓ} (A : Type ℓ) : Type ℓ where
  ok : A → Run A
  stop : Stop → Run A

infixl 5 ◌>>=◌ ◌>>◌
abbrev pub ◌>>=◌ {ℓ κ} : {A : Type ℓ} {B : Type κ} → Run A → (A → Run B) → Run B
ok a >>= f = f a
stop s >>= f = stop s

abbrev pub ◌>>◌ {ℓ} : {B : Type ℓ} → Run (Unit {0}) → Run B → Run B
m >> k = m >>= λ _. k

-- The code goes on only if the test holds.
abbrev pub require : Bool → Stop → Run (Unit {0})
require true s = ok tt
require false s = stop s

-- Inversion of a bind that gave a value.
pub >>=-eq-ok {ℓ κ} :
    {A : Type ℓ} {B : Type κ} (first : Run A) (rest : A → Run B) {b : B}
    → (first >>= rest) ≡ ok b
    → (a : A) × (first ≡ ok a) × (rest a ≡ ok b)
>>=-eq-ok (stop s) rest returned = cc
>>=-eq-ok (ok a) rest returned = (a, refl, returned)

-- The run does not stop for want of fuel.
abbrev pub Ends {ℓ} : {A : Type ℓ} → Run A → Type ℓ
Ends m = m ≢ stop out_of_fuel

pub >>=-Ends {ℓ κ} :
    {A : Type ℓ} {B : Type κ} (m : Run A) (f : A → Run B)
    → Ends m
    → ((a : A) → Ends (f a))
    → Ends (m >>= f)
>>=-Ends (ok a) f h k = k a
>>=-Ends (stop s) f h k = λ e. h (cc)

pub ok-Ends {ℓ} : {A : Type ℓ} (a : A) → Ends (ok a)
ok-Ends a = λ e. cc

-- The result, if there is one, satisfies `P`.
abbrev pub Returns {ℓ κ} : {A : Type ℓ} → (A → Type κ) → Run A → Type κ
Returns P (ok a) = P a
Returns P (stop s) = Unit

pub >>=-Returns {ℓ κ μ} :
    {A : Type ℓ} {B : Type κ} (P : B → Type μ) (m : Run A) (f : A → Run B)
    → ((a : A) → m ≡ ok a → Returns P (f a))
    → Returns P (m >>= f)
>>=-Returns P (ok a) f h = h a refl
>>=-Returns P (stop s) f h = tt

pub Returns-eq-ok {ℓ κ} :
    {A : Type ℓ} (P : A → Type κ) (m : Run A) {a : A} → Returns P m → m ≡ ok a → P a
Returns-eq-ok P (ok a') {a} h e = subst P (ok-injective e) h
  where
    ok-injective : ok a' ≡ ok a → a' ≡ a
    ok-injective e' = cc
Returns-eq-ok P (stop s) h e = absurd (cc)

pub Returns-of {ℓ κ} :
    {A : Type ℓ} (P : A → Type κ) (m : Run A) → ((a : A) → m ≡ ok a → P a) → Returns P m
Returns-of P (ok a) h = h a refl
Returns-of P (stop s) h = tt

pub Returns-map {ℓ κ μ} :
    {A : Type ℓ} (P : A → Type κ) (Q : A → Type μ) (m : Run A)
    → ((a : A) → P a → Q a)
    → Returns P m
    → Returns Q m
Returns-map P Q (ok a) f h = f a h
Returns-map P Q (stop s) f h = tt
