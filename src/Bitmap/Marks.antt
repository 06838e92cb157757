-- ===== src/Bitmap/Marks.antt =====
-- bitmap_mark and bitmap_unmark.
use os22_crisologo_minichell.Base.{
  ℕ, zero, suc, ◌/◌, ◌%◌, ◌<◌, ◌≡◌, refl, ap, ◌∙◌, Bool, true, false, some, List, [], ◌∷◌, arith,
  ◌==◌, if◌then◌else◌, get_elem?, set, ok, panic, Option-cases, get_elem?-set_self, lt_of_get_elem?,
  inl, inr,
}
use os22_crisologo_minichell.Bitmap.{
  Bitmap, has_bit, with_bit, without_bit, bitmap_mark, bitmap_unmark, bitmap_isset,
}
use os22_crisologo_minichell.Bitmap.Alloc.{IsWf, has_bit-with_bit, all_below, below_lem}

set-set_self :
    (v : List ℕ) (k new word : ℕ) → get_elem? v k ≡ some word → set (set v k new) k word ≡ v
set-set_self [] k new word g = ground arith
set-set_self (x ∷ xs) zero new word g = ground arith
set-set_self (x ∷ xs) (suc k) new word g = ap (λ ys. x ∷ ys) (set-set_self xs k new word g)

abbrev undone : ℕ → ℕ → Bool
undone o word = if has_bit word o then true else without_bit (with_bit word o) o == word

undo_table : all_below 8 (λ o. all_below 256 (λ word. undone o word)) ≡ true
unfolding all_below has_bit with_bit without_bit
undo_table = refl

without-with_bit :
    (word o : ℕ)
    → word < 256
    → o < 8
    → has_bit word o ≡ false
    → without_bit (with_bit word o) o ≡ word
without-with_bit word o h l e =
    let t = below_lem 256 (undone o) word (below_lem 8 _ o undo_table l) h in ground (arith, t)

-- In a well formed bitmap, bitmap_mark of a clear bit in range returns, bitmap_isset then finds the
-- bit set, a second bitmap_mark panics, and bitmap_unmark gives back the bitmap as it was.
pub bitmap_unmark-mark :
    {b : Bitmap} (i : ℕ)
    → IsWf b
    → i < b.nbits
    → bitmap_isset i b ≡ ok false
    → (b' : Bitmap) × (bitmap_mark i b ≡ ok b')
      × (bitmap_isset i b' ≡ ok true)
      × (bitmap_mark i b' ≡ panic)
      × (bitmap_unmark i b' ≡ ok b)
unfolding bitmap_mark bitmap_unmark bitmap_isset
bitmap_unmark-mark {b} i w l h = elim (Option-cases (get_elem? b.v (i / 8))) [
  | inl e ↦ absurd (ground arith)
  | inr (word, g) ↦
      let clear : has_bit word (i % 8) ≡ false = ground arith in
      let small = w.bytes (i / 8) word g in
      let is_set : has_bit (with_bit word (i % 8)) (i % 8) ≡ true =
        has_bit-with_bit word (i % 8) (i % 8) small (omega arith) (omega arith) ∙ ground arith in
      let undo = without-with_bit word (i % 8) small (omega arith) clear in
      let there =
        get_elem?-set_self b.v (i / 8) (with_bit word (i % 8)) (lt_of_get_elem? b.v (i / 8) g) in
      (
        record b { v = set b.v (i / 8) (with_bit word (i % 8)) },
        ground (arith, g, clear),
        ground (arith, there, is_set),
        ground (arith, there, is_set),
        ground (arith, there, is_set)
            ∙ ap (λ x. ok (record b { v = x }))
                (ap (set (set b.v (i / 8) (with_bit word (i % 8))) (i / 8)) undo
                  ∙ set-set_self b.v (i / 8) (with_bit word (i % 8)) word g),
      )
]
