-- ===== src/Heap/Alloc.antt =====
-- kmalloc from a page that has a free block.
use os22_crisologo_minichell.Base.{
  ℕ, ◌+◌, ◌-◌, ◌<◌, ◌≤◌, ◌≡◌, refl, subst, List, [], ◌∷◌, ◌==◌, arith, count, length, Bool-cases,
  inl, inr, ◌⊎◌, ok, none, some, ltb, leb,
}
use os22_crisologo_minichell.Heap.{
  Pages, Pageref, Heap, pr_pageaddr, pr_blocktype, sizes, put, blocktype, size_from,
}
use os22_crisologo_minichell.Heap.Subpage.{usable, take_block, subpage_kmalloc, kmalloc}
use os22_crisologo_minichell.Heap.Page.{IsPage, each_type}
use os22_crisologo_minichell.Heap.Take.{ref_taken, ref_taken-IsPage, take_block-first}
use os22_crisologo_minichell.Heap.Wf.{IsHeap, IsHeap-apart, changed-IsHeap}

-- The size is enough, and the one before it is not.
abbrev pub IsLeast : ℕ → ℕ → Type 0
IsLeast sz t = (sz ≤ sizes t) × (t < 8) × ((t ≡ 0) ⊎ (sizes (t - 1) < sz))

type_for : (sz : ℕ) → sz ≤ 2048 → (t : ℕ) × IsLeast sz t
type_for sz l = elim (Bool-cases (leb sz 16)) [
  | inl e0 ↦ (0, ground (arith, e0))
  | inr e0 ↦ elim (Bool-cases (leb sz 32)) [
    | inl e1 ↦ (1, ground (arith, e1))
    | inr e1 ↦ elim (Bool-cases (leb sz 64)) [
      | inl e2 ↦ (2, ground (arith, e2))
      | inr e2 ↦ elim (Bool-cases (leb sz 128)) [
        | inl e3 ↦ (3, ground (arith, e3))
        | inr e3 ↦ elim (Bool-cases (leb sz 256)) [
          | inl e4 ↦ (4, ground (arith, e4))
          | inr e4 ↦ elim (Bool-cases (leb sz 512)) [
            | inl e5 ↦ (5, ground (arith, e5))
            | inr e5 ↦ elim (Bool-cases (leb sz 1024)) [
              | inl e6 ↦ (6, ground (arith, e6))
              | inr e6 ↦ (7, ground arith)
            ]
          ]
        ]
      ]
    ]
  ]
]

pub blocktype-IsLeast : (t : ℕ) → t < 8 → (sz : ℕ) → IsLeast sz t → blocktype sz ≡ ok t
unfolding blocktype size_from
blocktype-IsLeast =
    each_type (λ t. (sz : ℕ) → IsLeast sz t → blocktype sz ≡ ok t) (λ sz l. ground (arith, l))
      (λ sz l. ground (arith, l)) (λ sz l. ground (arith, l)) (λ sz l. ground (arith, l))
      (λ sz l. ground (arith, l)) (λ sz l. ground (arith, l)) (λ sz l. ground (arith, l))
      (λ sz l. ground (arith, l))

-- For a size of at most 2048, blocktype returns the least block type whose size is enough.
pub blocktype_lem : (sz : ℕ) → sz ≤ 2048 → (t : ℕ) × (blocktype sz ≡ ok t) × IsLeast sz t
blocktype_lem sz l =
    let (t, least) = type_for sz l in (t, blocktype-IsLeast t least.1 sz least, least)

-- The search for a page with a free block.
pub usable-cases :
    (refs : ℕ → Pageref) (t : ℕ) (prs : List ℕ)
    → ((i : ℕ) → 0 < count i prs → pr_blocktype (refs i) ≡ t)
    → ((usable refs t prs ≡ ok none) × ((i : ℕ) → 0 < count i prs → (refs i).nfree ≡ 0))
      ⊎ ((pr : ℕ) × (usable refs t prs ≡ ok (some pr)) × (0 < count pr prs) × (0 < (refs pr).nfree))
unfolding usable
usable-cases refs t [] typed = inl (refl, λ i l. absurd (omega (arith, l)))
usable-cases refs t (p ∷ prs) typed =
    let here : pr_blocktype (refs p) ≡ t = typed p (ground arith) in
    elim (Bool-cases (ltb 0 (refs p).nfree)) [
      | inl e ↦ inr (p, ground (arith, here, e), ground arith, ground (arith, e))
      | inr e ↦ elim (usable-cases refs t prs (λ i l. typed i (ground (arith, l)))) [
        | inl (q, all) ↦ inl (
          ground (arith, here, e, q),
          λ i l. elim (Bool-cases (p == i)) [
            | inl s ↦ ground (arith, s, e)
            | inr s ↦ all i (ground (arith, s, l))
          ],
        )
        | inr (pr, q, c, n) ↦ inr (pr, ground (arith, here, e, q), ground (arith, c), n)
      ]
    ]

-- The address is that of a block of a page in `h`, large enough, that was free and is now given out:
-- it overlaps no block that was given out before.
pub record Gives {S : Type 0} (h : Heap S) (free used : ℕ → List ℕ) (sz addr : ℕ)
    (refs' : ℕ → Pageref) : Type 0 where
  pub pr : ℕ
  pub o : ℕ
  pub os : List ℕ
  pub known : 0 < count pr h.allbase
  pub was_free : free pr ≡ o ∷ os
  pub at : addr ≡ pr_pageaddr (h.refs pr) + o
  pub large : sz ≤ sizes (pr_blocktype (h.refs pr))
  pub heap : IsHeap (record h { refs = refs' }) (put free pr os) (put used pr (o ∷ used pr))
  pub same : (q : ℕ) → (refs' q).pageaddr_and_blocktype ≡ (h.refs q).pageaddr_and_blocktype
  pub separate :
      (q y : ℕ)
      → 0 < count q h.allbase
      → 0 < count y (used q)
      → (addr + sizes (pr_blocktype (h.refs pr)) ≤ pr_pageaddr (h.refs q) + y)
        ⊎ (pr_pageaddr (h.refs q) + y + sizes (pr_blocktype (h.refs q)) ≤ addr)

not_empty : (xs : List ℕ) → 0 < length xs → (x : ℕ) × (ys : List ℕ) × (xs ≡ x ∷ ys)
not_empty [] l = absurd (omega (arith, l))
not_empty (x ∷ xs) l = (x, xs, refl)

module _ {S : Type 0} (h : Heap S) (free used : ℕ → List ℕ) (w : IsHeap h free used) where
  -- The first free block of a page is given out.
  pub take_block-Gives :
      (sz t pr : ℕ)
      → 0 < count pr (h.sizebases t)
      → 0 < (h.refs pr).nfree
      → sz ≤ sizes t
      → (addr : ℕ) × (refs' : ℕ → Pageref) × (take_block pr h
          ≡ ok (addr, record h { refs = refs' }))
        × Gives h free used sz addr refs'
  take_block-Gives sz t pr c n l =
      let (known, typed) = w.sized t pr c in
      let p = w.page pr known in
      let (o, os, split) = not_empty (free pr) (omega (arith, n, p.counted)) in
      let p' : IsPage h.words (h.refs pr) (o ∷ os) (used pr) =
        subst (λ xs. IsPage h.words (h.refs pr) xs (used pr)) split p in
      (
        pr_pageaddr (h.refs pr) + o,
        put h.refs pr (ref_taken h.words (h.refs pr) o),
        take_block-first h pr o os (used pr) p',
        record {
          pr = pr;
          o = o;
          os = os;
          known = known;
          was_free = split;
          at = refl;
          large = rw typed l;
          heap =
              changed-IsHeap h free used w pr known h.words (ref_taken h.words (h.refs pr) o) os
                (o ∷ used pr) (ref_taken-IsPage h pr o os (used pr) p') refl (λ x out. refl);
          same = λ q. ground arith;
          separate = λ q y lq ly.
              IsHeap-apart h free used w pr o q y known lq (ground (arith, split))
                (omega (arith, ly))
                (elim (Bool-cases (pr == q)) [
                  | inl e ↦ inr (λ s. ground (arith, s, e, ly, p'.once o))
                  | inr e ↦ inl (ground (arith, e))
                ]);
        },
      )

  -- Let the pages of the allocator be well formed, let the size be less than 2048 bytes, and let
  -- some page of the least block size that is enough have a free block. Then kmalloc, without
  -- asking for a page, returns a block that is large enough and was free, and that overlaps no
  -- block given out before; it is given out afterwards, all others are as before, and the pages
  -- stay well formed.
  pub kmalloc-Gives :
      (pages : Pages S) (sz t p : ℕ)
      → sz < 2048
      → IsLeast sz t
      → 0 < count p (h.sizebases t)
      → 0 < (h.refs p).nfree
      → (addr : ℕ) × (refs' : ℕ → Pageref) × (kmalloc pages sz h
          ≡ ok (addr, record h { refs = refs' }))
        × Gives h free used sz addr refs'
  unfolding kmalloc subpage_kmalloc
  kmalloc-Gives pages sz t p l least c n =
      elim (usable-cases h.refs t (h.sizebases t) (λ i k. (w.sized t i k).1)) [
        | inl (q, all) ↦ absurd (omega (arith, n, all p c))
        | inr (pr, q, k, m) ↦
            let (addr, refs', e, g) = take_block-Gives sz t pr k m least.0 in
            (addr, refs', ground (arith, blocktype-IsLeast t least.1 sz least, q, e), g)
      ]
