-- ===== src/Bitmap/Alloc.antt =====
-- bitmap_alloc: the bit that it returns, and the bits that it leaves as they are.
use os22_crisologo_minichell.Base.{
  ℕ, zero, suc, ◌+◌, ◌-◌, ◌*◌, ◌/◌, ◌%◌, ◌<◌, ◌≤◌, ◌≡◌, ◌≢◌, refl, sym, ap, subst, ◌∙◌, ◌⊎◌, inl,
  inr, Bool, true, false, not, ◌&&◌, none, some, List, arith, ltb, ◌==◌, if◌then◌else◌, length,
  get_elem?, set, ok, Bool-cases, Option-cases, get_elem?-of_lt, get_elem?-set_self,
  get_elem?-set_ne, lt_of_get_elem?, length-set, get_elem?-set-cases,
}
use os22_crisologo_minichell.Bitmap.{
  Bitmap, words_for, has_bit, with_bit, free_offset, alloc_in, alloc_from, bitmap_alloc,
}
use native.Mathlib.Decide.{ℕ_discrete}

unfoldable pub all_below : ℕ → (ℕ → Bool) → Bool
all_below zero p = true
all_below (suc n) p = p n && all_below n p

pub below_lem : (n : ℕ) (p : ℕ → Bool) (x : ℕ) → all_below n p ≡ true → x < n → p x ≡ true
unfolding all_below
below_lem zero p x h l = absurd (omega arith)
below_lem (suc n) p x h l = ground (arith, below_lem n p x)

-- whether two truth values are the same
abbrev pub same : Bool → Bool → Bool
same true c = c
same false c = not c

pub same_lem : (b c : Bool) → same b c ≡ true → b ≡ c
same_lem true c h = sym h
same_lem false true h = ground arith
same_lem false false h = refl

abbrev bit_ok : ℕ → ℕ → ℕ → Bool
bit_ok word o k = same (has_bit (with_bit word o) k) (if o == k then true else has_bit word k)

bit_table : all_below 8 (λ o. all_below 8 (λ k. all_below 256 (λ word. bit_ok word o k))) ≡ true
unfolding all_below has_bit with_bit
bit_table = refl

pub has_bit-with_bit :
    (word o k : ℕ)
    → word < 256
    → o < 8
    → k < 8
    → has_bit (with_bit word o) k ≡ (if o == k then true else has_bit word k)
has_bit-with_bit word o k h p q =
    same_lem _ _ (below_lem 256 _ word (below_lem 8 _ k (below_lem 8 _ o bit_table p) q) h)

-- WORD_ALLBITS is the byte that has every bit.
full_table : all_below 8 (λ o. has_bit 255 o) ≡ true
unfolding all_below has_bit
full_table = refl

abbrev all_bits : ℕ → Bool
all_bits word = all_below 8 (λ o. has_bit word o)

only_full : all_below 255 (λ word. not (all_bits word)) ≡ true
unfolding all_below has_bit
only_full = refl

-- The bit of the index.
unfoldable pub bit_at : List ℕ → ℕ → Bool
bit_at v i = elim (get_elem? v (i / 8)) [ none ↦ true | some word ↦ has_bit word (i % 8) ]

free_offset-some :
    (word o n : ℕ) {r : ℕ}
    → free_offset word o n ≡ some r
    → (r < o + n) × (has_bit word r ≡ false) × ((k : ℕ) → o ≤ k → k < r → has_bit word k ≡ true)
unfolding free_offset
free_offset-some word o zero h = ground arith
free_offset-some word o (suc n) {r} h = elim (Bool-cases (has_bit word o)) [
  | inr e ↦
      subst
        (λ x.
          (x < o + suc n)
          × (has_bit word x ≡ false)
          × ((k : ℕ) → o ≤ k → k < x → has_bit word k ≡ true))
        {x = o} (ground arith) (omega arith, e, λ k p q. absurd (omega arith))
  | inl e ↦
      let (l, f, b) = free_offset-some word (o + 1) n {r = r} (ground arith) in
      (omega arith, f, λ k p q. later e b k p q)
]
  where
    later :
        has_bit word o ≡ true
        → ((k : ℕ) → o + 1 ≤ k → k < r → has_bit word k ≡ true)
        → (k : ℕ) → o ≤ k
        → k < r
        → has_bit word k ≡ true
    later e b k p q = elim (ℕ_discrete o k) [
      | yes same_bit ↦ subst (λ j. has_bit word j ≡ true) same_bit e
      | no other ↦ b k (omega arith) q
    ]

free_offset-none :
    (word o n : ℕ)
    → free_offset word o n ≡ none
    → (k : ℕ) → o ≤ k
    → k < o + n
    → has_bit word k ≡ true
unfolding free_offset
free_offset-none word o zero h k p q = absurd (omega arith)
free_offset-none word o (suc n) h k p q = elim (Bool-cases (has_bit word o)) [
  | inr e ↦ absurd (ground arith)
  | inl e ↦ elim (ℕ_discrete o k) [
    | yes same_bit ↦ subst (λ j. has_bit word j ≡ true) same_bit e
    | no other ↦ free_offset-none word (o + 1) n (ground arith) k (omega arith) (omega arith)
  ]
]

-- A byte that is not WORD_ALLBITS has a bit that is not set.
free_offset-found : (word : ℕ) → word < 255 → (o : ℕ) × (free_offset word 0 8 ≡ some o)
unfolding all_below
free_offset-found word h = elim (Option-cases (free_offset word 0 8)) [
  | inr (o, e) ↦ (o, e)
  | inl e ↦
      let t = free_offset-none word 0 8 e in
      absurd (
        ground (
          arith,
          below_lem 255 (λ x. not (all_bits x)) word only_full h,
          t 0 (omega arith) (omega arith),
          t 1 (omega arith) (omega arith),
          t 2 (omega arith) (omega arith),
          t 3 (omega arith) (omega arith),
          t 4 (omega arith) (omega arith),
          t 5 (omega arith) (omega arith),
          t 6 (omega arith) (omega arith),
          t 7 (omega arith) (omega arith),
        ))
]

-- A bitmap as bitmap_create makes it: one byte for 8 bits, and every leftover bit set.
pub record IsWf (b : Bitmap) : Type 0 where
  pub size : length b.v ≡ words_for b.nbits
  pub bytes : (k word : ℕ) → get_elem? b.v k ≡ some word → word < 256
  pub leftover : (i : ℕ) → b.nbits ≤ i → bit_at b.v i ≡ true

-- What setting the bit `i` does to the bits.
bit_at-set :
    (v : List ℕ) (ix o i word : ℕ)
    → get_elem? v ix ≡ some word
    → word < 256
    → o < 8
    → bit_at (set v ix (with_bit word o)) i ≡ (if ix * 8 + o == i then true else bit_at v i)
unfolding bit_at
bit_at-set v ix o i word g w l = elim (ℕ_discrete ix (i / 8)) [
  | yes p ↦
      subst
        (λ k.
          elim (get_elem? (set v ix (with_bit word o)) k) [
            | none ↦ true
            | some x ↦ has_bit x (i % 8)
          ]
          ≡ (if ix * 8 + o == i
              then true
              else elim (get_elem? v k) [ none ↦ true | some x ↦ has_bit x (i % 8) ]))
        p
        (ground (
          arith,
          g,
          get_elem?-set_self v ix (with_bit word o) (lt_of_get_elem? v ix g),
          has_bit-with_bit word o (i % 8) w l (omega arith),
        ))
  | no n ↦ ground (arith, get_elem?-set_ne v ix (i / 8) (with_bit word o) n)
]

small_table : all_below 8 (λ o. all_below 256 (λ word. ltb (with_bit word o) 256)) ≡ true
unfolding all_below has_bit with_bit
small_table = refl

with_bit-small : (word o : ℕ) → word < 256 → o < 8 → with_bit word o < 256
with_bit-small word o h l =
    let t = below_lem 256 (λ x. ltb (with_bit x o) 256) word (below_lem 8 _ o small_table l) h in
    ground arith

pub bytes-set :
    (v : List ℕ) (ix new : ℕ)
    → ((k word : ℕ) → get_elem? v k ≡ some word → word < 256)
    → new < 256
    → (k word : ℕ) → get_elem? (set v ix new) k ≡ some word
    → word < 256
bytes-set v ix new h l k word g = elim (get_elem?-set-cases v ix k new g) [
  | inl (p, q) ↦ ground (arith, q)
  | inr (n, g') ↦ h k word g'
]

-- What bitmap_alloc has done when it returns the index `i`.
pub record Allocated (b : Bitmap) (i : ℕ) (b' : Bitmap) : Type 0 where
  pub in_range : i < b.nbits
  pub size : b'.nbits ≡ b.nbits
  pub was_clear : bit_at b.v i ≡ false
  pub least : (j : ℕ) → j < i → bit_at b.v j ≡ true
  pub now : (j : ℕ) → bit_at b'.v j ≡ (if i == j then true else bit_at b.v j)
  pub wf : IsWf b'

module _ {b : Bitmap} (w : IsWf b) where
  -- the bit `o` of the byte `ix`
  bit_at-byte :
      (ix o word : ℕ)
      → get_elem? b.v ix ≡ some word
      → o < 8
      → bit_at b.v (ix * 8 + o) ≡ has_bit word o
  unfolding bit_at
  bit_at-byte ix o word g l =
      let p : (ix * 8 + o) / 8 ≡ ix = omega arith in
      let q : (ix * 8 + o) % 8 ≡ o = omega arith in rw (p, g, q, bit_at) refl

  alloc_in-Allocated :
      (ix word : ℕ)
      → get_elem? b.v ix ≡ some word
      → word ≢ 255
      → ((j : ℕ) → j < ix * 8 → bit_at b.v j ≡ true)
      → (i : ℕ) × (b' : Bitmap) × (alloc_in ix word b ≡ ok (some i, b')) × Allocated b i b'
  unfolding alloc_in
  alloc_in-Allocated ix word g ne before =
      let small = w.bytes ix word g in
      let (o, e) = free_offset-found word (omega arith) in
      let (l, f, all_before) = free_offset-some word 0 8 e in
      let clear : bit_at b.v (ix * 8 + o) ≡ false = bit_at-byte ix o word g (omega arith) ∙ f in
      let range : ix * 8 + o < b.nbits = in_bounds ix o clear in
      (
        ix * 8 + o,
        record b { v = set b.v ix (with_bit word o) },
        ground (arith, e, range),
        record {
          in_range = range;
          size = refl;
          was_clear = clear;
          least = least ix o word g before (omega arith) all_before;
          now = λ j. bit_at-set b.v ix o j word g small (omega arith);
          wf = record {
            size = length-set b.v ix (with_bit word o) ∙ w.size;
            bytes =
                bytes-set b.v ix (with_bit word o) w.bytes
                  (with_bit-small word o small (omega arith));
            leftover = λ j h.
                ground (arith, bit_at-set b.v ix o j word g small (omega arith), w.leftover j h);
          };
        },
      )
    where
      in_bounds : (ix o : ℕ) → bit_at b.v (ix * 8 + o) ≡ false → ix * 8 + o < b.nbits
      in_bounds ix o c = elim (Bool-cases (ltb (ix * 8 + o) b.nbits)) [
        | inl e ↦ ground arith
        | inr e ↦ absurd (ground (arith, w.leftover (ix * 8 + o)))
      ]

      least :
          (ix o word : ℕ)
          → get_elem? b.v ix ≡ some word
          → ((j : ℕ) → j < ix * 8 → bit_at b.v j ≡ true)
          → o < 8
          → ((k : ℕ) → 0 ≤ k → k < o → has_bit word k ≡ true)
          → (j : ℕ) → j < ix * 8 + o
          → bit_at b.v j ≡ true
      least ix o word g before l all_before j h = elim (Bool-cases (ltb j (ix * 8))) [
        | inl e ↦ before j (ground arith)
        | inr e ↦
            let small : ix * 8 ≤ j = ground arith in
            subst (λ m. bit_at b.v m ≡ true) {x = ix * 8 + (j - ix * 8)} (omega arith)
              (bit_at-byte ix (j - ix * 8) word g (omega arith)
                ∙ all_before (j - ix * 8) (omega arith) (omega arith))
      ]

  -- the loop from the byte `ix` on, when every bit before it is set
  alloc_from-cases :
      (ix n : ℕ)
      → ix + n ≡ length b.v
      → ((j : ℕ) → j < ix * 8 → bit_at b.v j ≡ true)
      → ((alloc_from ix n b ≡ ok (none, b)) × ((j : ℕ) → bit_at b.v j ≡ true))
        ⊎ ((i : ℕ) × (b' : Bitmap) × (alloc_from ix n b ≡ ok (some i, b')) × Allocated b i b')
  unfolding alloc_from
  alloc_from-cases ix zero e before = inl (refl, λ j. all_set j)
    where
      all_set : (j : ℕ) → bit_at b.v j ≡ true
      all_set j = elim (Bool-cases (ltb j (ix * 8))) [
        | inl l ↦ before j (ground arith)
        | inr l ↦ w.leftover j (ground (arith, w.size))
      ]
  alloc_from-cases ix (suc n) e before =
      let (word, g) = get_elem?-of_lt b.v ix (omega arith) in
      elim (ℕ_discrete word 255) [
        | no ne ↦
            let (i, b', q, a) = alloc_in-Allocated ix word g ne before in
            inr (i, b', ground (arith, g, q, ne), a)
        | yes full ↦
            elim (alloc_from-cases (ix + 1) n (omega arith) (further ix word g full before)) [
              | inl (q, all_set) ↦ inl (ground (arith, g, full, q), all_set)
              | inr (i, b', q, a) ↦ inr (i, b', ground (arith, g, full, q), a)
            ]
      ]
    where
      further :
          (ix word : ℕ)
          → get_elem? b.v ix ≡ some word
          → word ≡ 255
          → ((j : ℕ) → j < ix * 8 → bit_at b.v j ≡ true)
          → (j : ℕ) → j < (ix + 1) * 8
          → bit_at b.v j ≡ true
      further ix word g full before j h = elim (Bool-cases (ltb j (ix * 8))) [
        | inl l ↦ before j (ground arith)
        | inr l ↦
            let small : ix * 8 ≤ j = ground arith in
            subst (λ m. bit_at b.v m ≡ true) {x = ix * 8 + (j - ix * 8)} (omega arith)
              (bit_at-byte ix (j - ix * 8) word g (omega arith)
                ∙ (ap (λ x. has_bit x (j - ix * 8)) full
                    ∙ below_lem 8 (λ o. has_bit 255 o) (j - ix * 8) full_table (omega arith)))
      ]

-- bitmap_alloc of a well formed bitmap always returns: ENOSPC and the unchanged bitmap if every bit
-- is set, and otherwise the least index whose bit is clear, which lies in range. That bit is then
-- set, every other bit is as before, and the bitmap is well formed.
pub bitmap_alloc_lem :
    {b : Bitmap}
    → IsWf b
    → ((bitmap_alloc b ≡ ok (none, b)) × ((j : ℕ) → bit_at b.v j ≡ true))
      ⊎ ((i : ℕ) × (b' : Bitmap) × (bitmap_alloc b ≡ ok (some i, b')) × Allocated b i b')
unfolding bitmap_alloc
bitmap_alloc_lem {b} w =
    alloc_from-cases w 0 (words_for b.nbits) (omega (arith, w.size)) (λ j h. absurd (omega arith))
