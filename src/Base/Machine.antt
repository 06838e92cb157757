-- ===== src/Base/Machine.antt =====
-- The machine's constants (arch/mips/include/vm.h, kern/errno.h), 32-bit arithmetic, and the ways
-- in which a kernel function can end.
use Prim.Native.Nat.{ℕ, ◌+◌, ◌-◌, ◌*◌, ◌/◌, ◌%◌, ◌^◌}
use mathlib.Core.Path.{◌≡◌, refl}
use mathlib.Core.Logic.{◌⊎◌, inl, inr}
use mathlib.Core.Bool.{Bool, true, false}

abbrev pub page_size : ℕ
page_size = 4096

abbrev pub kseg0 : ℕ
kseg0 = 0x80000000

-- `v & PAGE_FRAME`, for a 32-bit `v`
abbrev pub page_align : ℕ → ℕ
page_align v = v / 4096 * 4096

abbrev pub add32 : ℕ → ℕ → ℕ
add32 a b = (a + b) % 2 ^ 32

abbrev pub sub32 : ℕ → ℕ → ℕ
sub32 a b = (a + 2 ^ 32 - b) % 2 ^ 32

abbrev pub mul32 : ℕ → ℕ → ℕ
mul32 a b = a * b % 2 ^ 32

abbrev pub enosys : ℕ
enosys = 1

abbrev pub efault : ℕ
efault = 6

abbrev pub einval : ℕ
einval = 8

abbrev pub enoexec : ℕ
enoexec = 13

abbrev pub eio : ℕ
eio = 32

abbrev pub enospc : ℕ
enospc = 36

abbrev pub efbig : ℕ
efbig = 38

-- `panic` is a call of panic() or a failed KASSERT; `fault` is a step that C leaves undefined, such
-- as a read through NULL or past the end of an array.
pub data Outcome (A : Type 0) : Type 0 where
  ok : A → Outcome A
  panic : Outcome A
  fault : Outcome A

infixl 5 ◌>>=◌ ◌>>◌
abbrev pub ◌>>=◌ : {A B : Type 0} → Outcome A → (A → Outcome B) → Outcome B
ok a >>= f = f a
panic >>= f = panic
fault >>= f = fault

abbrev pub ◌>>◌ : {B : Type 0} → Outcome (Unit {0}) → Outcome B → Outcome B
m >> k = m >>= λ _. k

-- KASSERT
abbrev pub kassert : Bool → Outcome (Unit {0})
kassert true = ok tt
kassert false = panic

-- A sequence that returns has had a first step that returned.
pub >>=-eq-ok :
    {A B : Type 0} (first : Outcome A) (rest : A → Outcome B) {r : B}
    → (first >>= rest) ≡ ok r
    → (x : A) × (first ≡ ok x) × (rest x ≡ ok r)
>>=-eq-ok fault rest h = cc
>>=-eq-ok panic rest h = cc
>>=-eq-ok (ok x) rest h = (x, refl, h)

-- An error to return, or a value to go on with.
pub data Got (A : Type 0) : Type 0 where
  err : ℕ → Got A
  got : A → Got A

pub Got-cases : {A : Type 0} (g : Got A) → ((e : ℕ) × (g ≡ err e)) ⊎ ((a : A) × (g ≡ got a))
Got-cases (err e) = inl (e, refl)
Got-cases (got a) = inr (a, refl)
