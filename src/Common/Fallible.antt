-- ===== src/Common/Fallible.antt =====
-- Functions that may throw and change no state, in sequence.
use Prim.Native.String.{String}
use mathlib.Core.Bool.{Bool, true, false}
use mathlib.Core.Path.{◌≡◌, refl, ap}
use mathlib.Core.Option.{Option, none, some, some-injective, none-ne-some}
use friscv_soc.Common.Tests.{if◌then◌else◌}
use friscv_soc.Common.Results.{Result, ok, thrown}

infixl 5 ◌>>=◌ ◌>>◌
abbrev pub ◌>>=◌ : {A B : Type 0} → Result A → (A → Result B) → Result B
ok a >>= f = f a
thrown e >>= f = thrown e

abbrev pub ◌>>◌ : {B : Type 0} → Result (Unit {0}) → Result B → Result B
m >> k = m >>= λ _. k

-- The test of an error condition.
abbrev pub guard : Bool → String → Result (Unit {0})
guard true e = ok tt
guard false e = thrown e

-- A result without its message.
abbrev pub accepted : {A : Type 0} → Result A → Option A
accepted (ok a) = some a
accepted (thrown e) = none

abbrev pub when : {A : Type 0} → Bool → Option A → Option A
when b o = if b then o else none

abbrev pub mapped : {A B : Type 0} → (A → B) → Option A → Option B
mapped f none = none
mapped f (some a) = some (f a)

pub accepted-guard :
    {B : Type 0}
    → (b : Bool) (e : String) (k : Result B) → accepted (guard b e >> k) ≡ when b (accepted k)
accepted-guard true e k = refl
accepted-guard false e k = refl

pub accepted-map :
    {A B : Type 0}
    → (r : Result A) (f : A → B) → accepted (r >>= λ a. ok (f a)) ≡ mapped f (accepted r)
accepted-map (ok a) f = refl
accepted-map (thrown e) f = refl

pub accepted-ok : {A : Type 0} → (r : Result A) (a : A) → accepted r ≡ some a → r ≡ ok a
accepted-ok (ok x) a h = ap ok (some-injective x a h)
accepted-ok (thrown e) a h = absurd (none-ne-some a h)
