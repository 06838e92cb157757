-- ===== src/Tests/Bits.antt =====
-- A bitmap of 8 bits, of which the first three are set.
use os22_crisologo_minichell.Base.{
  ℕ, zero, suc, ◌/◌, ◌<◌, ◌≤◌, ◌≡◌, ◌⊎◌, refl, arith, true, false, none, some, [], ◌∷◌, get_elem?,
  Option-cases, lt_of_get_elem?, ok, panic, inl, inr,
}
use os22_crisologo_minichell.Bitmap.{
  Bitmap, has_bit, bitmap_alloc, bitmap_mark, bitmap_unmark, bitmap_isset,
}
use os22_crisologo_minichell.Bitmap.Alloc.{IsWf, bit_at, Allocated, bitmap_alloc_lem}
use os22_crisologo_minichell.Bitmap.Marks.{bitmap_unmark-mark}

abbrev eight : Bitmap
eight = record { nbits = 8; v = 7 ∷ [] }

eight_bytes : (k word : ℕ) → get_elem? eight.v k ≡ some word → word < 256
eight_bytes zero word g = ground arith
eight_bytes (suc k) word g = ground arith

eight_leftover : (i : ℕ) → 8 ≤ i → bit_at eight.v i ≡ true
unfolding bit_at
eight_leftover i h = elim (Option-cases (get_elem? eight.v (i / 8))) [
  | inl e ↦ ground (arith, e)
  | inr (x, g) ↦ absurd (omega (arith, lt_of_get_elem? eight.v (i / 8) g))
]

eight-IsWf : IsWf eight
eight-IsWf = record { size = refl; bytes = eight_bytes; leftover = eight_leftover }

fifth_clear : bitmap_isset 5 eight ≡ ok false
unfolding bitmap_isset has_bit
fifth_clear = refl

bitmap_alloc_lem_example :
    ((bitmap_alloc eight ≡ ok (none, eight)) × ((j : ℕ) → bit_at eight.v j ≡ true))
    ⊎ ((i : ℕ) × (b' : Bitmap) × (bitmap_alloc eight ≡ ok (some i, b')) × Allocated eight i b')
bitmap_alloc_lem_example = bitmap_alloc_lem eight-IsWf

bitmap_unmark-mark_example :
    (b' : Bitmap) × (bitmap_mark 5 eight ≡ ok b')
    × (bitmap_isset 5 b' ≡ ok true)
    × (bitmap_mark 5 b' ≡ panic)
    × (bitmap_unmark 5 b' ≡ ok eight)
bitmap_unmark-mark_example = bitmap_unmark-mark 5 eight-IsWf (omega arith) fifth_clear
