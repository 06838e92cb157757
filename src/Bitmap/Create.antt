-- ===== src/Bitmap/Create.antt =====
-- bitmap_create: the bits of a new bitmap.
use os22_crisologo_minichell.Base.{
  ℕ, zero, suc, ◌+◌, ◌-◌, ◌*◌, ◌/◌, ◌%◌, ◌<◌, ◌≤◌, ◌≡◌, ◌≢◌, refl, subst, ◌∙◌, inl, inr, true,
  false, not, some, List, arith, leb, ltb, length, replicate, get_elem?, set, length-set,
  get_elem?-set-cases, get_elem?-of_lt, ok, Option-cases, Bool-cases, get_elem?-set_self,
  get_elem?-set_ne, lt_of_get_elem?,
}
use native.Mathlib.Decide.{ℕ_discrete}
use os22_crisologo_minichell.Bitmap.{
  Bitmap, words_for, has_bit, with_bit, mark_from, mark_leftover, bitmap_create,
}
use os22_crisologo_minichell.Bitmap.Alloc.{IsWf, bit_at, all_below, below_lem, same, same_lem}

length-replicate : (n x : ℕ) → length (replicate n x) ≡ n
length-replicate zero x = refl
length-replicate (suc n) x = omega (arith, length-replicate n x)

get_elem?-replicate : (n x k : ℕ) {y : ℕ} → get_elem? (replicate n x) k ≡ some y → y ≡ x
get_elem?-replicate zero x k h = ground arith
get_elem?-replicate (suc n) x zero h = ground arith
get_elem?-replicate (suc n) x (suc k) h = get_elem?-replicate n x k h

-- the last byte, of which `o` bits are used
abbrev last_byte : ℕ → ℕ
last_byte o = mark_from o (8 - o) 0

last_table : all_below 8 (λ o. all_below 8 (λ k. same (has_bit (last_byte o) k) (leb o k))) ≡ true
unfolding all_below has_bit with_bit mark_from
last_table = refl

has_bit-last_byte : (o k : ℕ) → o < 8 → k < 8 → has_bit (last_byte o) k ≡ leb o k
has_bit-last_byte o k p q =
    same_lem _ _ (
      below_lem 8 (λ j. same (has_bit (last_byte o) j) (leb o j)) k (below_lem 8 _ o last_table p)
        q)

small_table : all_below 8 (λ o. ltb (last_byte o) 256) ≡ true
unfolding all_below has_bit with_bit mark_from
small_table = refl

zero_table : all_below 8 (λ j. not (has_bit 0 j)) ≡ true
unfolding all_below has_bit
zero_table = refl

has_bit-zero : (k : ℕ) → k < 8 → has_bit 0 k ≡ false
has_bit-zero k h = ground (arith, below_lem 8 (λ j. not (has_bit 0 j)) k zero_table h)

-- A new bitmap.
pub record Created (b : Bitmap) : Type 0 where
  pub wf : IsWf b
  pub clear : (i : ℕ) → i < b.nbits → bit_at b.v i ≡ false

module _ (nbits : ℕ) where
  abbrev blank : List ℕ
  blank = replicate (words_for nbits) 0

  blank-clear : (i : ℕ) → i / 8 < words_for nbits → bit_at blank i ≡ false
  unfolding bit_at
  blank-clear i l =
      let (y, g) =
        get_elem?-of_lt blank (i / 8) (omega (arith, length-replicate (words_for nbits) 0)) in
      ground (arith, g, get_elem?-replicate (words_for nbits) 0 (i / 8) g, has_bit-zero (i % 8))

  past_end : (v : List ℕ) (i : ℕ) → length v ≤ i / 8 → bit_at v i ≡ true
  unfolding bit_at
  past_end v i h = elim (Option-cases (get_elem? v (i / 8))) [
    | inl e ↦ ground (arith, e)
    | inr (x, g) ↦ absurd (omega (arith, lt_of_get_elem? v (i / 8) g))
  ]

  whole-Created : words_for nbits ≡ nbits / 8 → Created (record { nbits = nbits; v = blank })
  whole-Created e = record {
    wf = record {
      size = length-replicate (words_for nbits) 0;
      bytes = λ k x g. omega (arith, get_elem?-replicate (words_for nbits) 0 k g);
      leftover = λ i h. past_end blank i (omega (arith, length-replicate (words_for nbits) 0));
    };
    clear = λ i h. blank-clear i (omega arith);
  }

  module _ (partial : words_for nbits ≡ nbits / 8 + 1) where
    -- the array with the byte of the leftover bits
    abbrev marked : List ℕ
    marked = set blank (nbits / 8) (last_byte (nbits % 8))

    last_at : get_elem? marked (nbits / 8) ≡ some (last_byte (nbits % 8))
    last_at =
        get_elem?-set_self blank (nbits / 8) (last_byte (nbits % 8))
          (omega (arith, length-replicate (words_for nbits) 0))

    -- a bit of the last byte, and a bit of any other
    marked-last : (i : ℕ) → nbits / 8 ≡ i / 8 → bit_at marked i ≡ leb nbits i
    unfolding bit_at
    marked-last i e =
        let g : get_elem? marked (i / 8) ≡ some (last_byte (nbits % 8)) =
          subst (λ k. get_elem? marked k ≡ some (last_byte (nbits % 8))) e last_at in
        ground (arith, g, has_bit-last_byte (nbits % 8) (i % 8) (omega arith) (omega arith))

    marked-other : (i : ℕ) → nbits / 8 ≢ i / 8 → bit_at marked i ≡ bit_at blank i
    unfolding bit_at
    marked-other i n =
        ground (arith, get_elem?-set_ne blank (nbits / 8) (i / 8) (last_byte (nbits % 8)) n)

    marked-size : length marked ≡ words_for nbits
    marked-size = length-set blank (nbits / 8) _ ∙ length-replicate (words_for nbits) 0

    marked-bytes : (k x : ℕ) → get_elem? marked k ≡ some x → x < 256
    marked-bytes k x g = elim (get_elem?-set-cases blank (nbits / 8) k _ g) [
      | inl (p, q) ↦
          ground (arith, q, below_lem 8 (λ o. ltb (last_byte o) 256) (nbits % 8) small_table)
      | inr (n, g') ↦ omega (arith, get_elem?-replicate (words_for nbits) 0 k g')
    ]

    marked-Created : Created (record { nbits = nbits; v = marked })
    marked-Created = record {
      wf = record { size = marked-size; bytes = marked-bytes; leftover = leftover };
      clear = clear;
    }
      where
        leftover : (i : ℕ) → nbits ≤ i → bit_at marked i ≡ true
        leftover i h = elim (ℕ_discrete (nbits / 8) (i / 8)) [
          | yes e ↦ ground (arith, marked-last i e)
          | no n ↦ past_end marked i (omega (arith, marked-size))
        ]

        clear : (i : ℕ) → i < nbits → bit_at marked i ≡ false
        clear i h = elim (ℕ_discrete (nbits / 8) (i / 8)) [
          | yes e ↦ ground (arith, marked-last i e)
          | no n ↦ marked-other i n ∙ blank-clear i (omega arith)
        ]

    mark_leftover-marked :
        mark_leftover (record { nbits = nbits; v = blank })
        ≡ ok (record { nbits = nbits; v = marked })
    unfolding mark_leftover
    mark_leftover-marked =
        let (y, g) =
          get_elem?-of_lt blank (nbits / 8) (omega (arith, length-replicate (words_for nbits) 0)) in
        let z = get_elem?-replicate (words_for nbits) 0 (nbits / 8) g in
        let ix : words_for nbits - 1 ≡ nbits / 8 = omega arith in
        let over : nbits - nbits / 8 * 8 ≡ nbits % 8 = omega arith in
        let used : 0 < nbits % 8 = omega arith in
        let room : nbits % 8 < 8 = omega arith in rw (ix, over) (ground (arith, g, z, used, room))

-- When kmalloc gives both blocks, bitmap_create of any number of bits returns a well formed bitmap of
-- that many bits, all of them clear.
pub bitmap_create_lem :
    (nbits : ℕ)
    → (b : Bitmap) × (bitmap_create nbits true true ≡ ok (some b)) × (b.nbits ≡ nbits) × Created b
unfolding bitmap_create
bitmap_create_lem nbits = elim (Bool-cases (ltb (nbits / 8) (words_for nbits))) [
  | inl e ↦
      let p : words_for nbits ≡ nbits / 8 + 1 = ground arith in
      (
        record { nbits = nbits; v = marked nbits p },
        ground (arith, e, mark_leftover-marked nbits p),
        refl,
        marked-Created nbits p,
      )
  | inr e ↦
      let p : words_for nbits ≡ nbits / 8 = ground arith in
      (record { nbits = nbits; v = blank nbits }, ground (arith, e), refl, whole-Created nbits p)
]
