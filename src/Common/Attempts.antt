-- ===== src/Common/Attempts.antt =====
-- Actions on a state that give a value or give up with a reason, in sequence.
use mathlib.Core.Path.{◌≡◌, refl, ap}
use mathlib.Core.Bool.{Bool, true, false}
use native.Mathlib.Omega.{arith}

pub data Attempt (E A : Type 0) : Type 0 where
  done : A → Attempt E A
  gave_up : E → Attempt E A

abbrev pub Run : Type 0 → Type 0 → Type 0 → Type 0
Run S E A = S → Attempt E A × S

abbrev pub on_done : {S E A B : Type 0} → (Attempt E A × S) → (A → Run S E B) → Attempt E B × S
on_done (done a, s) f = f a s
on_done (gave_up e, s) f = (gave_up e, s)

infixl 5 ◌>>=◌ ◌>>◌
abbrev pub ◌>>=◌ : {S E A B : Type 0} → Run S E A → (A → Run S E B) → Run S E B
◌>>=◌ m f s = on_done (m s) f

abbrev pub ◌>>◌ : {S E A B : Type 0} → Run S E A → Run S E B → Run S E B
◌>>◌ m k s = on_done (m s) (λ _. k)

abbrev pub pure : {S E A : Type 0} → A → Run S E A
pure a s = (done a, s)

abbrev pub check : {S E : Type 0} → Bool → E → Run S E (Unit {0})
check true e s = (done tt, s)
check false e s = (gave_up e, s)

-- The reason that a caller gives for its callee.
abbrev pub because : {E A B : Type 0} → E → Attempt B A → Attempt E A
because e (done a) = done a
because e (gave_up _) = gave_up e

abbrev pub or_error : {S E A B : Type 0} → E → Run S B A → Run S E A
or_error e m s = let (r, t) = m s in (because e r, t)

-- What came before the last action of a sequence that gives a value.
pub on_done-done :
    {S E A B : Type 0}
    → (r : Attempt E A) (t : S) (f : A → Run S E B) (b : B) → (on_done (r, t) f).0 ≡ done b
    → (a : A) × (r ≡ done a) × ((f a t).0 ≡ done b)
on_done-done (done a) s f b h = (a, refl, h)
on_done-done (gave_up e) s f b h = ground (arith, h)

pub because-done :
    {E A B : Type 0} → (e : E) (r : Attempt B A) (a : A) → because e r ≡ done a → r ≡ done a
because-done e (done x) a h = ground (arith, h)
because-done e (gave_up _) a h = ground (arith, h)

pub check-done :
    {S E : Type 0} → (b : Bool) (e : E) (s : S) (u : Unit {0}) → (check b e s).0 ≡ done u → b ≡ true
check-done true e s u h = refl
check-done false e s u h = ground (arith, h)

abbrev value_or : {E A : Type 0} → A → Attempt E A → A
value_or a (done x) = x
value_or a (gave_up _) = a

pub done-injective : {E A : Type 0} → (a b : A) → ◌≡◌ {A = Attempt E A} (done a) (done b) → a ≡ b
done-injective a b h = ap (value_or a) h

pub check-state : {S E : Type 0} → (b : Bool) (e : E) (s : S) → (check b e s).1 ≡ s
check-state true e s = refl
check-state false e s = refl
