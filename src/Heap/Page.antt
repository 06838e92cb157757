-- ===== src/Heap/Page.antt =====
-- A page of blocks: what is free, what is given out, and how a block moves between the two.
use os22_crisologo_minichell.Base.{
  ℕ, zero, suc, ◌+◌, ◌*◌, ◌/◌, ◌%◌, ◌^◌, ◌<◌, ◌≤◌, ◌≡◌, ◌≢◌, refl, sym, subst, ◌∙◌, ◌⊎◌, inl, inr,
  List, [], ◌∷◌, ◌==◌, if◌then◌else◌, arith, count, length,
}
use os22_crisologo_minichell.Heap.{Pageref, invalid_offset, pr_pageaddr, pr_blocktype, sizes, put}
use os22_crisologo_minichell.Heap.Subpage.{fill_words}

-- The free list from the address on holds the blocks at these offsets.
abbrev pub Linked : (ℕ → ℕ) → ℕ → ℕ → List ℕ → Type 0
Linked words page addr [] = addr ≡ 0
Linked words page addr (o ∷ os) = (addr ≡ page + o) × Linked words page (words (page + o)) os

-- The address of the first free block, or NULL.
abbrev pub first_free : Pageref → ℕ
first_free ref =
    if ref.freelist_offset == invalid_offset then 0 else pr_pageaddr ref + ref.freelist_offset

-- The blocks at `os` are free, linked in this order, and those at `us` are given out: together they
-- are as many as the page has, each at a multiple of the size.
pub record IsPage (words : ℕ → ℕ) (ref : Pageref) (os us : List ℕ) : Type 0 where
  pub valid_type : pr_blocktype ref < 8
  pub nonzero : 0 < pr_pageaddr ref
  pub in_range : pr_pageaddr ref + 4096 ≤ 2 ^ 32
  pub linked : Linked words (pr_pageaddr ref) (first_free ref) os
  pub places : (o : ℕ) → 0 < count o os + count o us → o + sizes (pr_blocktype ref) ≤ 4096
  pub multiples : (o : ℕ) → 0 < count o os + count o us → o % sizes (pr_blocktype ref) ≡ 0
  pub once : (o : ℕ) → count o os + count o us ≤ 1
  pub counted : ref.nfree ≡ length os
  pub total : length os + length us ≡ 4096 / sizes (pr_blocktype ref)

-- A property of every block type.
pub each_type :
    (P : ℕ → Type 0) → P 0 → P 1 → P 2 → P 3 → P 4 → P 5 → P 6 → P 7 → (b : ℕ) → b < 8 → P b
each_type P p0 p1 p2 p3 p4 p5 p6 p7 zero l = p0
each_type P p0 p1 p2 p3 p4 p5 p6 p7 (suc zero) l = p1
each_type P p0 p1 p2 p3 p4 p5 p6 p7 (suc (suc zero)) l = p2
each_type P p0 p1 p2 p3 p4 p5 p6 p7 (suc (suc (suc zero))) l = p3
each_type P p0 p1 p2 p3 p4 p5 p6 p7 (suc (suc (suc (suc zero)))) l = p4
each_type P p0 p1 p2 p3 p4 p5 p6 p7 (suc (suc (suc (suc (suc zero))))) l = p5
each_type P p0 p1 p2 p3 p4 p5 p6 p7 (suc (suc (suc (suc (suc (suc zero)))))) l = p6
each_type P p0 p1 p2 p3 p4 p5 p6 p7 (suc (suc (suc (suc (suc (suc (suc zero))))))) l = p7
each_type P p0 p1 p2 p3 p4 p5 p6 p7 (suc (suc (suc (suc (suc (suc (suc (suc b)))))))) l =
    absurd (omega arith)

-- What the code relies on of a size.
abbrev pub IsSize : ℕ → Type 0
IsSize s = (16 ≤ s) × (s ≤ 2048) × (s / 4 * 4 ≡ s) × (4096 / s ≤ 256)

pub sizes-IsSize : (b : ℕ) → b < 8 → IsSize (sizes b)
sizes-IsSize =
    each_type (λ b. IsSize (sizes b)) (ground arith) (ground arith) (ground arith) (ground arith)
      (ground arith) (ground arith) (ground arith) (ground arith)

-- What is apart at one size.
abbrev Apart : ℕ → Type 0
Apart s = (x y : ℕ) → x % s ≡ 0 → y % s ≡ 0 → x ≢ y → (x + s ≤ y) ⊎ (y + s ≤ x)

-- Two blocks at different multiples of the size do not overlap.
pub sizes-Apart : (b : ℕ) → b < 8 → Apart (sizes b)
sizes-Apart =
    each_type (λ b. Apart (sizes b)) (λ x y ex ey ne. ground (arith, ex, ey))
      (λ x y ex ey ne. ground (arith, ex, ey)) (λ x y ex ey ne. ground (arith, ex, ey))
      (λ x y ex ey ne. ground (arith, ex, ey)) (λ x y ex ey ne. ground (arith, ex, ey))
      (λ x y ex ey ne. ground (arith, ex, ey)) (λ x y ex ey ne. ground (arith, ex, ey))
      (λ x y ex ey ne. ground (arith, ex, ey))

pub Linked-kept :
    (words words' : ℕ → ℕ) (page addr : ℕ) (os : List ℕ)
    → ((o : ℕ) → 0 < count o os → words' (page + o) ≡ words (page + o))
    → Linked words page addr os
    → Linked words' page addr os
Linked-kept words words' page addr [] same l = l
Linked-kept words words' page addr (o ∷ os) same l = (
  l.0,
  subst (λ a. Linked words' page a os) (sym (same o (ground arith)))
      (Linked-kept words words' page (words (page + o)) os (λ i q. same i (ground arith)) l.1),
)

pub fill_words-outside :
    (words : ℕ → ℕ) (addr n x : ℕ)
    → (x < addr) ⊎ (addr + 4 * n ≤ x)
    → fill_words words addr n x ≡ words x
unfolding fill_words
fill_words-outside words addr zero x out = refl
fill_words-outside words addr (suc n) x out =
    fill_words-outside (put words addr 0xdeadbeef) (addr + 4) n x (ground (arith, out))
    ∙ ground (arith, out)

-- The free list after a block: at its end, or at a block.
pub Linked-cases :
    (words : ℕ → ℕ) (page addr : ℕ) (os : List ℕ)
    → Linked words page addr os
    → ((addr ≡ 0) × (length os ≡ 0))
      ⊎ ((o : ℕ) × (addr ≡ page + o) × (0 < count o os) × (0 < length os))
Linked-cases words page addr [] l = inl (l, refl)
Linked-cases words page addr (o ∷ os) l = inr (o, l.0, ground arith, ground arith)
