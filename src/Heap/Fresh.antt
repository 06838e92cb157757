-- ===== src/Heap/Fresh.antt =====
-- A fresh page: the loop of subpage_kmalloc links all its blocks.
use os22_crisologo_minichell.Base.{
  ℕ, zero, suc, ◌+◌, ◌-◌, ◌*◌, ◌/◌, ◌%◌, ◌^◌, ◌<◌, ◌≤◌, ◌≡◌, ◌≢◌, refl, sym, subst, ◌∙◌, List, [],
  ◌∷◌, ◌==◌, arith, count, length, Bool-cases, inl, inr, ◌⊎◌,
}
use os22_crisologo_minichell.Heap.{Pageref, pr_pageaddr, pr_blocktype, mkpab, sizes, put}
use os22_crisologo_minichell.Heap.Subpage.{link_blocks}
use os22_crisologo_minichell.Heap.Page.{
  Linked, Linked-kept, first_free, IsPage, sizes-IsSize, each_type,
}

-- The offsets of the first `n` blocks, the last one first.
unfoldable pub blocks : ℕ → ℕ → List ℕ
blocks size zero = []
blocks size (suc n) = n * size ∷ blocks size n

next_block : (n size : ℕ) → suc n * size ≡ n * size + size
next_block n size = ground arith

blocks-below : (size n o : ℕ) → 0 < size → 0 < count o (blocks size n) → o < n * size
unfolding blocks
blocks-below size zero o s l = absurd (omega arith)
blocks-below size (suc n) o s l = elim (Bool-cases (n * size == o)) [
  | inl e ↦ ground (arith, e, next_block n size)
  | inr e ↦ ground (arith, e, next_block n size, blocks-below size n o s (ground (arith, e, l)))
]

blocks-places : (size n o : ℕ) → 0 < count o (blocks size n) → (k : ℕ) × (k < n) × (o ≡ k * size)
unfolding blocks
blocks-places size zero o l = absurd (omega arith)
blocks-places size (suc n) o l = elim (Bool-cases (n * size == o)) [
  | inl e ↦ (n, omega arith, ground (arith, e))
  | inr e ↦
      let (k, m, q) = blocks-places size n o (ground (arith, e, l)) in (k, omega (arith, m), q)
]

blocks-once : (size n o : ℕ) → 0 < size → count o (blocks size n) ≤ 1
unfolding blocks
blocks-once size zero o s = omega arith
blocks-once size (suc n) o s = elim (Bool-cases (n * size == o)) [
  | inl e ↦ ground (arith, e, blocks-below size n o s)
  | inr e ↦ ground (arith, e, blocks-once size n o s)
]

length-blocks : (size n : ℕ) → length (blocks size n) ≡ n
unfolding blocks
length-blocks size zero = refl
length-blocks size (suc n) = ground (arith, length-blocks size n)

-- One round of the loop.
Linked-next :
    (page size k : ℕ) (words : ℕ → ℕ)
    → 0 < size
    → Linked words page (page + k * size) (blocks size (suc k))
    → Linked
        (put words (page + suc k * size) (page + k * size))
        page
        (page + suc k * size)
        (blocks size (suc (suc k)))
unfolding blocks
Linked-next page size k words s l =
    let words' = put words (page + suc k * size) (page + k * size) in
    (
      refl,
      subst (λ a. Linked words' page a (blocks size (suc k))) (ground arith)
          (Linked-kept words words' page (page + k * size) (blocks size (suc k))
            (λ o c. ground (arith, blocks-below size (suc k) o s c)) l),
    )

link_blocks-Linked :
    (page size k n m : ℕ) (words : ℕ → ℕ)
    → 0 < size
    → m ≡ k + n
    → Linked words page (page + k * size) (blocks size (suc k))
    → Linked (link_blocks page size (k + 1) n words) page (page + m * size) (blocks size (suc m))
unfolding link_blocks
link_blocks-Linked page size k zero m words s e l =
    subst (λ i. Linked words page (page + i * size) (blocks size (suc i))) (omega (arith, e)) l
link_blocks-Linked page size k (suc n) m words s e l =
    let i : suc k ≡ k + 1 = omega arith in
    let j : k ≡ k + 1 - 1 = omega arith in
    link_blocks-Linked page size (k + 1) n m
      (put words (page + (k + 1) * size) (page + (k + 1 - 1) * size)) s (omega (arith, e))
      (subst
        (λ a.
          Linked (put words (page + a * size) (page + (k + 1 - 1) * size)) page (page + a * size)
            (blocks size (suc a)))
        i
        (subst
          (λ b.
            Linked (put words (page + suc k * size) (page + b * size)) page (page + suc k * size)
              (blocks size (suc (suc k))))
          j (Linked-next page size k words s l)))

-- The memory and the pageref of a fresh page.
abbrev pub fresh_words : (ℕ → ℕ) → ℕ → ℕ → ℕ → ℕ
fresh_words words prpage size = link_blocks prpage size 1 (4096 / size - 1) (put words prpage 0)

abbrev pub fresh_ref : ℕ → ℕ → Pageref
fresh_ref prpage blktype = record {
  pageaddr_and_blocktype = mkpab prpage blktype;
  freelist_offset = (4096 / sizes blktype - 1) * sizes blktype;
  nfree = 4096 / sizes blktype;
}

abbrev pub Fits : ℕ → Type 0
Fits s =
    (2 ≤ 4096 / s)
    × ((4096 / s - 1) * s < 4096)
    × ((k : ℕ) → k < 4096 / s → (k * s + s ≤ 4096) × (k * s % s ≡ 0))

pub sizes-Fits : (b : ℕ) → b < 8 → Fits (sizes b)
sizes-Fits =
    each_type (λ b. Fits (sizes b))
      (ground arith, ground arith, λ k l. (omega (arith, l), omega arith))
      (ground arith, ground arith, λ k l. (omega (arith, l), omega arith))
      (ground arith, ground arith, λ k l. (omega (arith, l), omega arith))
      (ground arith, ground arith, λ k l. (omega (arith, l), omega arith))
      (ground arith, ground arith, λ k l. (omega (arith, l), omega arith))
      (ground arith, ground arith, λ k l. (omega (arith, l), omega arith))
      (ground arith, ground arith, λ k l. (omega (arith, l), omega arith))
      (ground arith, ground arith, λ k l. (omega (arith, l), omega arith))

pub fresh-pageaddr :
    (prpage b : ℕ) → b < 8 → prpage % 4096 ≡ 0 → pr_pageaddr (fresh_ref prpage b) ≡ prpage
fresh-pageaddr prpage b valid aligned = ground (arith, aligned, valid)

pub fresh-blocktype : (prpage b : ℕ) → b < 8 → pr_blocktype (fresh_ref prpage b) ≡ b
fresh-blocktype prpage b valid = ground (arith, valid)

link_blocks-outside :
    (page size k n x : ℕ) (words : ℕ → ℕ)
    → ((j : ℕ) → j < k + n → page + j * size ≢ x)
    → link_blocks page size k n words x ≡ words x
unfolding link_blocks
link_blocks-outside page size k zero x words out = refl
link_blocks-outside page size k (suc n) x words out =
    link_blocks-outside page size (k + 1) n x (put words (page + k * size) (page + (k - 1) * size))
      (λ j l. out j (omega (arith, l)))
    ∙ ground (arith, out k (omega arith))

-- The loop changes nothing outside the page.
pub fresh_words-outside :
    (words : ℕ → ℕ) (prpage b x : ℕ)
    → b < 8
    → (x < prpage) ⊎ (prpage + 4096 ≤ x)
    → fresh_words words prpage (sizes b) x ≡ words x
fresh_words-outside words prpage b x valid out =
    let fits = sizes-Fits b valid in
    let range = sizes-IsSize b valid in
    link_blocks-outside prpage (sizes b) 1 (4096 / sizes b - 1) x (put words prpage 0)
      (λ j l e. ground (arith, out, range, fits.2 j (omega (arith, l, fits.0)), e))
    ∙ ground (arith, out)

module _ (words : ℕ → ℕ) (prpage b : ℕ) (valid : b < 8) (aligned : prpage % 4096 ≡ 0)
    (some_page : 0 < prpage) (below : prpage < 2 ^ 32) where
  fresh-Linked :
      Linked
        (fresh_words words prpage (sizes b))
        prpage
        (prpage + (4096 / sizes b - 1) * sizes b)
        (blocks (sizes b) (4096 / sizes b))
  unfolding blocks
  fresh-Linked =
      let fits = sizes-Fits b valid in
      let last : suc (4096 / sizes b - 1) ≡ 4096 / sizes b = omega (arith, fits) in
      subst
        (λ n.
          Linked (fresh_words words prpage (sizes b)) prpage
            (prpage + (4096 / sizes b - 1) * sizes b) (blocks (sizes b) n))
        last
        (link_blocks-Linked prpage (sizes b) 0 (4096 / sizes b - 1) (4096 / sizes b - 1)
          (put words prpage 0) (omega (arith, sizes-IsSize b valid)) (omega arith)
          (refl, ground arith))

  first-fresh : first_free (fresh_ref prpage b) ≡ prpage + (4096 / sizes b - 1) * sizes b
  first-fresh = ground (arith, fresh-pageaddr prpage b valid aligned, sizes-Fits b valid)

  block-fits :
      (o : ℕ)
      → 0 < count o (blocks (sizes b) (4096 / sizes b))
      → (o + sizes b ≤ 4096) × (o % sizes b ≡ 0)
  block-fits o l =
      let (k, m, e) = blocks-places (sizes b) (4096 / sizes b) o l in
      let fits = (sizes-Fits b valid).2 k m in (rw e fits.0, rw e fits.1)

  -- After the loop all blocks of the page are free.
  pub fresh-IsPage :
      IsPage
        (fresh_words words prpage (sizes b))
        (fresh_ref prpage b)
        (blocks (sizes b) (4096 / sizes b))
        []
  fresh-IsPage = record {
    valid_type = ground (arith, fresh-blocktype prpage b valid, valid);
    nonzero = ground (arith, fresh-pageaddr prpage b valid aligned, some_page);
    in_range = ground (arith, fresh-pageaddr prpage b valid aligned, aligned, below);
    linked =
        subst
          (λ a.
            Linked (fresh_words words prpage (sizes b)) (pr_pageaddr (fresh_ref prpage b)) a
              (blocks (sizes b) (4096 / sizes b)))
          (sym first-fresh)
          (subst
            (λ a.
              Linked (fresh_words words prpage (sizes b)) a
                (prpage + (4096 / sizes b - 1) * sizes b) (blocks (sizes b) (4096 / sizes b)))
            (sym (fresh-pageaddr prpage b valid aligned)) fresh-Linked);
    places = λ o l. rw (fresh-blocktype prpage b valid) (block-fits o (omega (arith, l))).0;
    multiples = λ o l. rw (fresh-blocktype prpage b valid) (block-fits o (omega (arith, l))).1;
    once = λ o.
        omega
          (arith, blocks-once (sizes b) (4096 / sizes b) o (omega (arith, sizes-IsSize b valid)));
    counted = sym (length-blocks (sizes b) (4096 / sizes b));
    total =
        rw (fresh-blocktype prpage b valid)
          (omega (arith, length-blocks (sizes b) (4096 / sizes b)));
  }
