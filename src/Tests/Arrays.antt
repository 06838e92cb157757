-- ===== src/Tests/Arrays.antt =====
-- An array of two pointers.
use os22_crisologo_minichell.Base.{
  ℕ, zero, suc, ◌+◌, ◌<◌, ◌≡◌, ◌^◌, refl, arith, none, some, List, [], ◌∷◌, length, get_elem?,
}
use os22_crisologo_minichell.Array.{Array, Kmalloc, array_init, array_preallocate}
use os22_crisologo_minichell.Array.Refine.{Represents, add, Does, run-Does}
use os22_crisologo_minichell.Array.Forever.{array_preallocate-forever}

-- memory is never short
abbrev kmalloc : Kmalloc
kmalloc bytes = some (λ i. 0xdeadbeef)

abbrev two : Array
two = record { num = 2; max = 2; cap = 2; v = λ i. i + 5 }

abbrev pointers : List ℕ
pointers = 5 ∷ 6 ∷ []

two-Represents : Represents two pointers
two-Represents = record { counted = refl; room = omega arith; block = omega arith; each = at }
  where
    at : (i : ℕ) → i < length pointers → get_elem? pointers i ≡ some (i + 5)
    at zero l = refl
    at (suc zero) l = refl
    at (suc (suc i)) l = absurd (omega (arith, l))

run-Does_example : Does kmalloc (add 7) two pointers
run-Does_example = run-Does kmalloc (add 7) two-Represents (omega arith)

array_preallocate-forever_example : array_preallocate 100 kmalloc (2 ^ 31 + 1) array_init ≡ none
array_preallocate-forever_example = array_preallocate-forever kmalloc (2 ^ 31 + 1) (omega arith) 100
