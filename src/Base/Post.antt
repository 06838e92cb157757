-- ===== src/Base/Post.antt =====
-- Postconditions: what holds of the value that a step returns, if it returns one.
use mathlib.Core.Path.{◌≡◌, refl, subst}
use mathlib.Core.Bool.{Bool, true, false}
use os22_crisologo_minichell.Base.Tests.{if◌then◌else◌}
use os22_crisologo_minichell.Base.Machine.{Outcome, ok, panic, fault, ◌>>=◌}

abbrev pub Ensures : {A : Type 0} → (A → Type 0) → Outcome A → Type 0
Ensures P (ok x) = P x
Ensures P panic = Unit {0}
Ensures P fault = Unit {0}

pub Ensures-bind :
    {A B : Type 0} (P : A → Type 0) (Q : B → Type 0) (m : Outcome A) (f : A → Outcome B)
    → Ensures P m
    → ((x : A) → P x → Ensures Q (f x))
    → Ensures Q (m >>= f)
Ensures-bind P Q (ok x) f p g = g x p
Ensures-bind P Q panic f p g = tt
Ensures-bind P Q fault f p g = tt

pub Ensures-if :
    {A : Type 0} (P : A → Type 0) (b : Bool) (m n : Outcome A)
    → (b ≡ true → Ensures P m)
    → (b ≡ false → Ensures P n)
    → Ensures P (if b then m else n)
Ensures-if P true m n p q = p refl
Ensures-if P false m n p q = q refl

pub Ensures-of :
    {A : Type 0} (P : A → Type 0) (m : Outcome A) → ((x : A) → m ≡ ok x → P x) → Ensures P m
Ensures-of P (ok x) h = h x refl
Ensures-of P panic h = tt
Ensures-of P fault h = tt

pub Ensures-ok :
    {A : Type 0} (P : A → Type 0) (m : Outcome A) {x : A} → Ensures P m → m ≡ ok x → P x
Ensures-ok P m p e = subst (Ensures P) e p

-- A first step of which nothing is asked.
pub Ensures-then :
    {A B : Type 0} (Q : B → Type 0) (m : Outcome A) (f : A → Outcome B)
    → ((x : A) → Ensures Q (f x))
    → Ensures Q (m >>= f)
Ensures-then Q (ok x) f g = g x
Ensures-then Q panic f g = tt
Ensures-then Q fault f g = tt
