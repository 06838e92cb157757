-- ===== src/Sfs/Marks.antt =====
-- The bits of the free map: what bitmap_unmark and bitmap_isset do to them and say of them.
use os22_crisologo_minichell.Base.{
  ℕ, ◌/◌, ◌%◌, ◌<◌, ◌≡◌, refl, subst, ◌∙◌, Bool, true, false, some, List, arith, ◌==◌,
  if◌then◌else◌, get_elem?, set, ok, get_elem?-set_self, get_elem?-set_ne, lt_of_get_elem?,
  length-set, get_elem?-of_lt,
}
use os22_crisologo_minichell.Bitmap.{Bitmap, has_bit, without_bit, bitmap_unmark, bitmap_isset}
use os22_crisologo_minichell.Bitmap.Alloc.{
  IsWf, bit_at, all_below, below_lem, same, same_lem, bytes-set,
}
use native.Mathlib.Decide.{ℕ_discrete}

abbrev bit_ok : ℕ → ℕ → ℕ → Bool
bit_ok word o k = same (has_bit (without_bit word o) k) (if o == k then false else has_bit word k)

bit_table : all_below 8 (λ o. all_below 8 (λ k. all_below 256 (λ word. bit_ok word o k))) ≡ true
unfolding all_below has_bit without_bit
bit_table = refl

has_bit-without_bit :
    (word o k : ℕ)
    → word < 256
    → o < 8
    → k < 8
    → has_bit (without_bit word o) k ≡ (if o == k then false else has_bit word k)
has_bit-without_bit word o k h p q =
    same_lem _ _ (below_lem 256 _ word (below_lem 8 _ k (below_lem 8 _ o bit_table p) q) h)

without_bit-small : (word o : ℕ) → word < 256 → without_bit word o < 256
unfolding without_bit
without_bit-small word o h = ground (arith, h)

bit_at-unset :
    (v : List ℕ) (i j word : ℕ)
    → get_elem? v (i / 8) ≡ some word
    → word < 256
    → bit_at (set v (i / 8) (without_bit word (i % 8))) j ≡ (if i == j then false else bit_at v j)
unfolding bit_at
bit_at-unset v i j word g w = elim (ℕ_discrete (i / 8) (j / 8)) [
  | yes p ↦ ground (
    arith,
    p,
    g,
    subst
        (λ k.
          get_elem? (set v (i / 8) (without_bit word (i % 8))) k ≡ some (without_bit word (i % 8)))
        p (get_elem?-set_self v (i / 8) (without_bit word (i % 8)) (lt_of_get_elem? v (i / 8) g)),
    has_bit-without_bit word (i % 8) (j % 8) w (omega arith) (omega arith),
  )
  | no n ↦ ground (arith, get_elem?-set_ne v (i / 8) (j / 8) (without_bit word (i % 8)) n)
]

-- What bitmap_unmark has done.
pub record Unmarked (b : Bitmap) (i : ℕ) (b' : Bitmap) : Type 0 where
  pub size : b'.nbits ≡ b.nbits
  pub now : (j : ℕ) → bit_at b'.v j ≡ (if i == j then false else bit_at b.v j)
  pub wf : IsWf b'

module _ {b : Bitmap} (w : IsWf b) where
  in_bytes : (i : ℕ) → i < b.nbits → (word : ℕ) × (get_elem? b.v (i / 8) ≡ some word)
  in_bytes i l = get_elem?-of_lt b.v (i / 8) (omega (arith, w.size, l))

  pub bitmap_isset_lem : (i : ℕ) → i < b.nbits → bitmap_isset i b ≡ ok (bit_at b.v i)
  unfolding bitmap_isset bit_at
  bitmap_isset_lem i l = let (word, g) = in_bytes i l in rw (g, bitmap_isset, bit_at) refl

  pub bitmap_unmark_lem :
      (i : ℕ)
      → i < b.nbits
      → bit_at b.v i ≡ true
      → (b' : Bitmap) × (bitmap_unmark i b ≡ ok b') × Unmarked b i b'
  unfolding bitmap_unmark bit_at
  bitmap_unmark_lem i l s =
      let (word, g) = in_bytes i l in
      let set_now : has_bit word (i % 8) ≡ true = rw (g, bit_at) at s in
      let small = w.bytes (i / 8) word g in
      (
        record b { v = set b.v (i / 8) (without_bit word (i % 8)) },
        ground (arith, l, g, set_now),
        record {
          size = refl;
          now = λ j. bit_at-unset b.v i j word g small;
          wf = record {
            size = length-set b.v (i / 8) (without_bit word (i % 8)) ∙ w.size;
            bytes =
                bytes-set b.v (i / 8) (without_bit word (i % 8)) w.bytes
                  (without_bit-small word (i % 8) small);
            leftover =
                λ j r. bit_at-unset b.v i j word g small ∙ ground (arith, l, r, w.leftover j r);
          };
        },
      )
