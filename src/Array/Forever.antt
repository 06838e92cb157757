-- ===== src/Array/Forever.antt =====
-- Capacities double in 32 bits: 0, 4, 8, ..., 2 ^ 31, and then 0 again.
use os22_crisologo_minichell.Base.{
  ℕ, zero, suc, ◌+◌, ◌%◌, ◌^◌, ◌<◌, ◌≡◌, refl, true, none, arith, ltb, leb, ◌==◌, if◌then◌else◌,
  mul32, eq_of_==, ◌∙◌,
}
use os22_crisologo_minichell.Bitmap.Alloc.{all_below, below_lem}
use os22_crisologo_minichell.Array.{grow, Kmalloc, array_init, array_preallocate}
use os22_crisologo_minichell.Array.Grow.{doubled}

abbrev capacity : ℕ → ℕ
capacity zero = 0
capacity (suc k) = doubled k 4

abbrev next : ℕ → ℕ
next m = if m == 0 then 4 else mul32 m 2

next_table : all_below 31 (λ k. next (capacity k) == capacity ((k + 1) % 31)) ≡ true
unfolding all_below doubled
next_table = refl

size_table : all_below 31 (λ k. leb (capacity k) (2 ^ 31)) ≡ true
unfolding all_below doubled
size_table = refl

grow_on :
    (fuel num m m' : ℕ) → ltb m num ≡ true → next m ≡ m' → grow (suc fuel) num m ≡ grow fuel num m'
unfolding grow
grow_on fuel num m m' y e = rw (y, e) refl

below : (num m : ℕ) → 2 ^ 31 < num → leb m (2 ^ 31) ≡ true → ltb m num ≡ true
below num m l h = ground (arith, l, h)

grow_cycle : (fuel num k : ℕ) → 2 ^ 31 < num → k < 31 → grow fuel num (capacity k) ≡ none
unfolding grow
grow_cycle zero num k l b = refl
grow_cycle (suc fuel) num k l b =
    let step =
      grow_on fuel num (capacity k) (capacity ((k + 1) % 31))
        (below num (capacity k) l (below_lem 31 (λ j. leb (capacity j) (2 ^ 31)) k size_table b))
        (eq_of_== _ _
          (below_lem 31 (λ j. next (capacity j) == capacity ((j + 1) % 31)) k next_table b)) in
    step ∙ grow_cycle fuel num ((k + 1) % 31) l (omega arith)

-- For more than 2 ^ 31 pointers array_preallocate of an empty array never ends, however many turns its
-- loop is given.
pub array_preallocate-forever :
    (kmalloc : Kmalloc) (num : ℕ)
    → 2 ^ 31 < num
    → (fuel : ℕ) → array_preallocate fuel kmalloc num array_init ≡ none
unfolding array_preallocate
array_preallocate-forever kmalloc num l fuel =
    let g : grow fuel num 0 ≡ none = grow_cycle fuel num 0 l (omega arith) in
    let y : ltb 0 num ≡ true = ground (arith, l) in rw (y, g, array_preallocate) refl
