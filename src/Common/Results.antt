-- ===== src/Common/Results.antt =====
-- Exceptions: what a function that may throw returns, and the actions on a state that may throw.
use Prim.Native.String.{String}
use mathlib.Core.Path.{◌≡◌, refl, ap}
use native.Mathlib.Omega.{arith}
use mathlib.Core.Logic.{◌⊎◌, inl, inr}
use mathlib.Core.Bool.{Bool, true, false}

-- A value, or the message of a `std::runtime_error`.
pub data Result {ℓ} (A : Type ℓ) : Type ℓ where
  ok : A → Result A
  thrown : String → Result A

-- An action: the result and the state that it leaves, also when it throws.
abbrev pub Act : Type 0 → Type 0 → Type 0
Act S A = S → Result A × S

abbrev pub pure : {S A : Type 0} → A → Act S A
pure a s = (ok a, s)

abbrev pub throw : {S A : Type 0} → String → Act S A
throw e s = (thrown e, s)

abbrev pub then_do : {S A B : Type 0} → (Result A × S) → (A → Act S B) → Result B × S
then_do (ok a, s) f = f a s
then_do (thrown e, s) f = (thrown e, s)

infixl 5 ◌>>=◌ ◌>>◌
abbrev pub ◌>>=◌ : {S A B : Type 0} → Act S A → (A → Act S B) → Act S B
◌>>=◌ m f s = then_do (m s) f

abbrev pub ◌>>◌ : {S A B : Type 0} → Act S A → Act S B → Act S B
◌>>◌ m k s = then_do (m s) (λ _. k)

-- The test of an error condition.
abbrev pub require : {S : Type 0} → Bool → String → Act S (Unit {0})
require true e s = (ok tt, s)
require false e s = (thrown e, s)

-- An action that throws nothing, and one that gives nothing.
abbrev pub lift : {S A : Type 0} → (S → A × S) → Act S A
lift f s = let (a, t) = f s in (ok a, t)

abbrev pub modify : {S : Type 0} → (S → S) → Act S (Unit {0})
modify f s = (ok tt, f s)

-- The first action of a sequence that goes through.
pub >>=-ok :
    {S A B : Type 0}
    → (m : Act S A) (f : A → Act S B) (s t : S) (a : A) → m s ≡ (ok a, t)
    → (m >>= f) s ≡ f a t
>>=-ok m f s t a e = rw e refl

pub Result-cases {ℓ} :
    {A : Type ℓ} (r : Result A) → ((a : A) × (r ≡ ok a)) ⊎ ((e : String) × (r ≡ thrown e))
Result-cases (ok a) = inl (a, refl)
Result-cases (thrown e) = inr (e, refl)

-- Two continuations that agree on the results that the first action gives.
pub then_do-agree :
    {S A B : Type 0}
    → (r : Result A) (t : S) (f g : A → Act S B) → ((a : A) → r ≡ ok a → f a t ≡ g a t)
    → then_do (r, t) f ≡ then_do (r, t) g
then_do-agree (ok a) t f g h = h a refl
then_do-agree (thrown e) t f g h = refl

-- The value of a sequence that ends in `pure`.
pub then_do-pure :
    {S A : Type 0}
    → (r : Result (Unit {0})) (t : S) (g : S → S) (x a : A) (P : A → Type 0) → P x
    → (then_do (r, t) (λ _ u. (ok x, g u))).0 ≡ ok a
    → P a
then_do-pure (ok _) t g x a P p h = ground (arith, p, h)
then_do-pure (thrown e) t g x a P p h = ground (arith, h)

-- A test that is passed.
pub then_do-require :
    {S A : Type 0}
    → (b : Bool) (e : String) (s : S) (k : Act S A) (a : A)
    → (then_do (require b e s) (λ _. k)).0 ≡ ok a
    → (k s).0 ≡ ok a
then_do-require true e s k a h = h
then_do-require false e s k a h = ground (arith, h)

-- What came before the last action of a sequence that goes through.
pub then_do-ok :
    {S A B : Type 0}
    → (r : Result A) (t : S) (f : A → Act S B) (b : B) → (then_do (r, t) f).0 ≡ ok b
    → (a : A) × (r ≡ ok a) × ((f a t).0 ≡ ok b)
then_do-ok (ok a) t f b h = (a, refl, h)
then_do-ok (thrown e) t f b h = ground (arith, h)

abbrev value_or {ℓ} : {A : Type ℓ} → A → Result A → A
value_or a (ok x) = x
value_or a (thrown e) = a

pub ok-injective {ℓ} : {A : Type ℓ} (a b : A) → ok a ≡ ok b → a ≡ b
ok-injective a b h = ap (value_or a) h
