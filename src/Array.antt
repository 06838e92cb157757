-- ===== src/Array.antt =====
-- lib/array.c and the inline functions of include/array.h: arrays of pointers that grow. What kmalloc
-- gives for a number of bytes is a parameter: NULL, or a block with the pointers that happen to be
-- in it. The block has the bytes asked for and no more: an access past them is a fault, where the code
-- would overwrite the kernel heap.
pub mod Grow
pub mod Forever
pub mod Remove
pub mod Refine
use os22_crisologo_minichell.Base.{
  ℕ, zero, suc, ◌+◌, ◌-◌, ◌/◌, ◌||◌, ◌&&◌, fault, ◌>>=◌, Option, none, some, ltb, leb, ◌==◌,
  if◌then◌else◌, add32, mul32, Outcome, ok, ◌>>◌, kassert,
}

-- `cap` is the number of pointers that the block behind `v` has room for.
pub record Array : Type 0 where
  pub num : ℕ
  pub max : ℕ
  pub cap : ℕ
  pub v : ℕ → ℕ

abbrev pub Kmalloc : Type 0
Kmalloc = ℕ → Option (ℕ → ℕ)

abbrev pub enomem : ℕ
enomem = 3

abbrev pub array_init : Array
array_init = record { num = 0; max = 0; cap = 0; v = λ i. 0 }

-- the loop that looks for the new capacity; `none` when the fuel does not reach its end
unfoldable pub grow : (fuel num newmax : ℕ) → Option ℕ
grow zero num newmax = none
grow (suc fuel) num newmax =
    let rest = grow fuel num (if newmax == 0 then 4 else mul32 newmax 2) in
    if ltb newmax num then rest else some newmax

-- memcpy of the first `n` pointers
abbrev pub copied : ℕ → (ℕ → ℕ) → (ℕ → ℕ) → ℕ → ℕ
copied n from to i = if ltb i n then from i else to i

-- the pointers in `n * sizeof(void *)` bytes, a number that wraps around
abbrev pub in_bytes : ℕ → ℕ
in_bytes n = mul32 n 4 / 4

-- The new block of `newmax` pointers, with the old ones copied into it.
abbrev pub moved_to : Kmalloc → (newmax : ℕ) → Array → Outcome (ℕ × Array)
moved_to kmalloc newmax a = elim (kmalloc (mul32 newmax 4)) [
  | none ↦ ok (enomem, a)
  | some block ↦
      if leb (in_bytes a.num) a.cap && leb (in_bytes a.num) (in_bytes newmax)
      then ok (
        0,
        record a { v = copied (in_bytes a.num) a.v block; max = newmax; cap = in_bytes newmax },
      )
      else fault
]

unfoldable pub array_preallocate :
    (fuel : ℕ) → Kmalloc → (num : ℕ) → Array → Option (Outcome (ℕ × Array))
unfolding grow
array_preallocate fuel kmalloc num a =
    if ltb a.max num
    then elim (grow fuel num a.max) [ none ↦ none | some newmax ↦ some (moved_to kmalloc newmax a) ]
    else some (ok (0, a))

unfoldable pub array_setsize :
    (fuel : ℕ) → Kmalloc → (num : ℕ) → Array → Option (Outcome (ℕ × Array))
unfolding array_preallocate
array_setsize fuel kmalloc num a = elim (array_preallocate fuel kmalloc num a) [
  | none ↦ none
  | some out ↦
      some
        (out >>= λ (result, a'). ok (result, if result == 0 then record a' { num = num } else a'))
]

unfoldable pub array_get : ℕ → Array → Outcome ℕ
array_get index a = kassert (ltb index a.num) >> (if ltb index a.cap then ok (a.v index) else fault)

abbrev pub store : ℕ → ℕ → Array → Array
store i x a = record a { v = λ j. if i == j then x else a.v j }

-- v[i] = x
unfoldable pub store_at : ℕ → ℕ → Array → Outcome Array
store_at i x a = if ltb i a.cap then ok (store i x a) else fault

unfoldable pub array_set : (index val : ℕ) → Array → Outcome Array
unfolding store_at
array_set index val a = kassert (ltb index a.num) >> store_at index val a

-- The result, and the array with `val` at its end.
unfoldable pub array_add : (fuel : ℕ) → Kmalloc → (val : ℕ) → Array → Option (Outcome (ℕ × Array))
unfolding store_at
array_add fuel kmalloc val a = elim (array_setsize fuel kmalloc (add32 a.num 1) a) [
  | none ↦ none
  | some out ↦ some (
      out >>= λ (result, a').
      if result == 0 then (store_at a.num val a' >>= λ a''. ok (0, a'')) else ok (result, a'))
]

-- the number of pointers behind `index`
abbrev pub behind : ℕ → Array → ℕ
behind index a = in_bytes (a.num - (index + 1))

-- memmove of the pointers behind `index` to where they stand one lower
abbrev pub closed_up : ℕ → Array → ℕ → ℕ
closed_up index a i =
    if ltb i index then a.v i else if ltb i (index + behind index a) then a.v (i + 1) else a.v i

unfoldable pub array_remove : (index : ℕ) → Array → Outcome Array
array_remove index a = do
  kassert (leb a.num a.max)
  kassert (ltb index a.num)
  (if behind index a == 0 || leb (index + 1 + behind index a) a.cap
      then ok (record a { v = closed_up index a; num = a.num - 1 })
      else fault)
