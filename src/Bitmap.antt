-- ===== src/Bitmap.antt =====
-- lib/bitmap.c: a fixed number of bits in an array of bytes. The two blocks that bitmap_create asks
-- kmalloc for are parameters, as whether kmalloc returns them.
pub mod Alloc
pub mod Marks
pub mod Create
use os22_crisologo_minichell.Base.{
  ℕ, zero, suc, ◌+◌, ◌-◌, ◌*◌, ◌/◌, ◌%◌, ◌^◌, Bool, true, false, not, Option, none, some, List, ltb,
  ◌==◌, if◌then◌else◌, get_elem?, set, replicate, Outcome, ok, panic, fault, ◌>>=◌, ◌>>◌, kassert,
}

pub record Bitmap : Type 0 where
  pub nbits : ℕ
  pub v : List ℕ

-- DIVROUNDUP(nbits, BITS_PER_WORD)
abbrev pub words_for : ℕ → ℕ
words_for nbits = (nbits + 7) / 8

-- `(word & (1 << offset)) != 0`
unfoldable pub has_bit : ℕ → ℕ → Bool
has_bit word offset = word / 2 ^ offset % 2 == 1

-- `word | (1 << offset)`
unfoldable pub with_bit : ℕ → ℕ → ℕ
unfolding has_bit
with_bit word offset = if has_bit word offset then word else word + 2 ^ offset

-- `word & ~(1 << offset)`
unfoldable pub without_bit : ℕ → ℕ → ℕ
unfolding has_bit
without_bit word offset = if has_bit word offset then word - 2 ^ offset else word

-- the loop that marks the leftover bits `offset`, ..., `offset + n - 1`
unfoldable pub mark_from : ℕ → ℕ → ℕ → ℕ
unfolding with_bit
mark_from offset zero word = word
mark_from offset (suc n) word = mark_from (offset + 1) n (with_bit word offset)

-- the last byte of a bitmap whose bits do not fill it
unfoldable pub mark_leftover : Bitmap → Outcome Bitmap
unfolding mark_from
mark_leftover b =
    let ix = words_for b.nbits - 1 in
    let overbits = b.nbits - ix * 8 in
    do
      kassert (b.nbits / 8 == ix)
      kassert (ltb 0 overbits)
      kassert (ltb overbits 8)
      elim (get_elem? b.v ix) [
        | none ↦ fault
        | some word ↦ ok (record b { v = set b.v ix (mark_from overbits (8 - overbits) word) })
      ]

-- `none` is a NULL of bitmap_create, `has_header` and `has_words` whether kmalloc succeeds.
unfoldable pub bitmap_create : (nbits : ℕ) (has_header has_words : Bool) → Outcome (Option Bitmap)
unfolding mark_leftover
bitmap_create nbits false has_words = ok none
bitmap_create nbits true false = ok none
bitmap_create nbits true true =
    let b : Bitmap = record { nbits = nbits; v = replicate (words_for nbits) 0 } in
    if ltb (nbits / 8) (words_for nbits)
    then mark_leftover b >>= (λ b'. ok (some b'))
    else ok (some b)

-- the loop over the offsets `offset`, ..., `offset + n - 1` of one byte
unfoldable pub free_offset : ℕ → ℕ → ℕ → Option ℕ
unfolding has_bit
free_offset word offset zero = none
free_offset word offset (suc n) =
    if has_bit word offset then free_offset word (offset + 1) n else some offset

-- the byte `ix`, which is not WORD_ALLBITS
unfoldable pub alloc_in : ℕ → ℕ → Bitmap → Outcome (Option ℕ × Bitmap)
unfolding free_offset with_bit
alloc_in ix word b = elim (free_offset word 0 8) [
  | none ↦ panic
  | some offset ↦ do
    kassert (ltb (ix * 8 + offset) b.nbits)
    ok (some (ix * 8 + offset), record b { v = set b.v ix (with_bit word offset) })
]

-- the loop over the bytes `ix`, ..., `ix + n - 1`; `none` is ENOSPC
unfoldable pub alloc_from : ℕ → ℕ → Bitmap → Outcome (Option ℕ × Bitmap)
unfolding alloc_in
alloc_from ix zero b = ok (none, b)
alloc_from ix (suc n) b =
    let rest = alloc_from (ix + 1) n b in
    elim (get_elem? b.v ix) [
      | none ↦ fault
      | some word ↦ if word == 255 then rest else alloc_in ix word b
    ]

unfoldable pub bitmap_alloc : Bitmap → Outcome (Option ℕ × Bitmap)
unfolding alloc_from
bitmap_alloc b = alloc_from 0 (words_for b.nbits) b

unfoldable pub bitmap_mark : ℕ → Bitmap → Outcome Bitmap
unfolding has_bit with_bit
bitmap_mark index b = kassert (ltb index b.nbits) >> elim (get_elem? b.v (index / 8)) [
  | none ↦ fault
  | some word ↦ do
    kassert (not (has_bit word (index % 8)))
    ok (record b { v = set b.v (index / 8) (with_bit word (index % 8)) })
]

unfoldable pub bitmap_unmark : ℕ → Bitmap → Outcome Bitmap
unfolding has_bit without_bit
bitmap_unmark index b = kassert (ltb index b.nbits) >> elim (get_elem? b.v (index / 8)) [
  | none ↦ fault
  | some word ↦ do
    kassert (has_bit word (index % 8))
    ok (record b { v = set b.v (index / 8) (without_bit word (index % 8)) })
]

-- bitmap_isset tests no bound.
unfoldable pub bitmap_isset : ℕ → Bitmap → Outcome Bool
unfolding has_bit
bitmap_isset index b = elim (get_elem? b.v (index / 8)) [
  | none ↦ fault
  | some word ↦ ok (has_bit word (index % 8))
]
