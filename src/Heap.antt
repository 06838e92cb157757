-- ===== src/Heap.antt =====
-- vm/kmalloc.c: the subpage allocator, with the debugging modes off as the file has them. A pageref is
-- named by its address, and a list that runs through the pagerefs is the list of their addresses. The
-- words of the heap pages are memory; the pagerefs have pages of their own and are kept apart.
pub mod Subpage
pub mod Page
pub mod Take
pub mod Put
pub mod Fresh
pub mod Wf
pub mod Lists
pub mod Alloc
pub mod Release
use os22_crisologo_minichell.Base.{
  ℕ, zero, suc, ◌+◌, ◌-◌, ◌*◌, ◌/◌, ◌%◌, ◌^◌, Bool, true, false, not, ◌&&◌, ◌||◌, Option, none,
  some, List, [], ◌∷◌, ◌==◌, ltb, leb, if◌then◌else◌, get_elem?, add32, sub32, Outcome, ok, panic,
  fault, ◌>>=◌, ◌>>◌, kassert,
}

pub record Pageref : Type 0 where
  pub pageaddr_and_blocktype : ℕ
  pub freelist_offset : ℕ
  pub nfree : ℕ

abbrev pub invalid_offset : ℕ
invalid_offset = 0xffff

abbrev pub pr_pageaddr : Pageref → ℕ
pr_pageaddr pr = pr.pageaddr_and_blocktype / 4096 * 4096

abbrev pub pr_blocktype : Pageref → ℕ
pr_blocktype pr = pr.pageaddr_and_blocktype % 4096

abbrev pub mkpab : ℕ → ℕ → ℕ
mkpab pa blk = pa / 4096 * 4096 + blk % 4096

-- A page of pagerefs, NULL as 0, with the bits of each word of its bitmap.
pub record KheapRoot : Type 0 where
  pub page : ℕ
  pub pagerefs_inuse : ℕ → ℕ → Bool
  pub numinuse : ℕ

pub record Heap (S : Type 0) : Type 0 where
  pub kheaproots : ℕ → KheapRoot
  pub refs : ℕ → Pageref
  pub sizebases : ℕ → List ℕ
  pub allbase : List ℕ
  pub words : ℕ → ℕ
  pub state : S

-- What kmalloc.c calls for whole pages: alloc_kpages returns an address or 0. Both run with the
-- allocator's lock released and may call kmalloc and kfree, so that they may change the whole heap.
pub record Pages (S : Type 0) : Type 0 where
  pub alloc_kpages : ℕ → Heap S → Outcome (ℕ × Heap S)
  pub free_kpages : ℕ → Heap S → Outcome (Heap S)

abbrev pub npagerefs_per_page : ℕ
npagerefs_per_page = 256

abbrev pub num_pagerefpages : ℕ
num_pagerefpages = 16

abbrev pub nsizes : ℕ
nsizes = 8

abbrev pub size_table : List ℕ
size_table = 16 ∷ 32 ∷ 64 ∷ 128 ∷ 256 ∷ 512 ∷ 1024 ∷ 2048 ∷ []

-- sizes[blktype]; the code reads it at a block type only
abbrev pub sizes : ℕ → ℕ
sizes blktype = elim (get_elem? size_table blktype) [ none ↦ 0 | some s ↦ s ]

-- one element of an array, or one field of all structures, assigned
abbrev pub put {ℓ} : {A : Type ℓ} → (ℕ → A) → ℕ → A → ℕ → A
put f a v x = if a == x then v else f x

-- The index of the size from `i` on that is large enough.
unfoldable pub size_from : List ℕ → ℕ → ℕ → Outcome ℕ
size_from [] clientsz i = panic
size_from (s ∷ ss) clientsz i = if leb clientsz s then ok i else size_from ss clientsz (i + 1)

unfoldable pub blocktype : ℕ → Outcome ℕ
unfolding size_from
blocktype clientsz = size_from size_table clientsz 0

-- The first bit of the word that is clear, from bit `j` on.
unfoldable pub clear_bit : (ℕ → Bool) → ℕ → ℕ → Option ℕ
clear_bit word j zero = none
clear_bit word j (suc n) = if word j then clear_bit word (j + 1) n else some j

-- The first clear bit of the words from `i` on; a word that is full is passed over.
unfoldable pub clear_word : (ℕ → ℕ → Bool) → ℕ → ℕ → Option (ℕ × ℕ)
unfolding clear_bit
clear_word inuse i zero = none
clear_word inuse i (suc n) = elim (clear_bit (inuse i) 0 32) [
  | none ↦ clear_word inuse (i + 1) n
  | some j ↦ some (i, j)
]

-- The root, word and bit of the first pageref that is not in use.
unfoldable pub clear_ref : (ℕ → KheapRoot) → ℕ → ℕ → Option (ℕ × ℕ × ℕ)
unfolding clear_word
clear_ref roots whichroot zero = none
clear_ref roots whichroot (suc n) =
    let rest = clear_ref roots (whichroot + 1) n in
    if leb 256 (roots whichroot).numinuse
    then rest
    else elim (clear_word (roots whichroot).pagerefs_inuse 0 8) [
      | none ↦ rest
      | some (i, j) ↦ some (whichroot, i, j)
    ]

-- The pageref's bit, set or cleared, and the number in use.
abbrev pub with_inuse : ℕ → ℕ → Bool → ℕ → KheapRoot → KheapRoot
with_inuse i j b n root = record root {
  pagerefs_inuse = put root.pagerefs_inuse i (put (root.pagerefs_inuse i) j b);
  numinuse = n;
}

module _ {S : Type 0} (pages : Pages S) where
  -- The page for a root that has none. If the root has one when alloc_kpages is back, the new page is
  -- given back.
  unfoldable pub allocpagerefpage : ℕ → Heap S → Outcome (Heap S)
  allocpagerefpage whichroot h =
      kassert ((h.kheaproots whichroot).page == 0)
      >> (pages.alloc_kpages 1 h >>= λ (va, h1).
          if va == 0
          then ok h1
          else kassert (va % 4096 == 0)
            >> (if not ((h1.kheaproots whichroot).page == 0)
                then (pages.free_kpages va h1 >>= λ h2.
                    kassert (not ((h2.kheaproots whichroot).page == 0)) >> ok h2)
                else ok (record h1 {
                  kheaproots =
                      put h1.kheaproots whichroot (record (h1.kheaproots whichroot) { page = va });
                })))

  -- The pageref that was found is taken; its page is allocated where it is missing.
  unfoldable pub take_ref : ℕ → ℕ → ℕ → Heap S → Outcome (ℕ × Heap S)
  unfolding allocpagerefpage
  take_ref whichroot i j h = do
    let root = h.kheaproots whichroot
    let h' = record h {
      kheaproots = put h.kheaproots whichroot (with_inuse i j true (root.numinuse + 1) root);
    }
    h'' ← (if root.page == 0 then allocpagerefpage whichroot h' else ok h')
    let page = (h''.kheaproots whichroot).page
    ok (if page == 0 then 0 else page + (i * 32 + j) * 16, h'')

  -- allocpageref returns the address of a pageref, or NULL as 0.
  unfoldable pub allocpageref : Heap S → Outcome (ℕ × Heap S)
  unfolding take_ref clear_ref
  allocpageref h = elim (clear_ref h.kheaproots 0 num_pagerefpages) [
    | none ↦ ok (0, h)
    | some (whichroot, i, j) ↦ take_ref whichroot i j h
  ]

module _ {S : Type 0} where
  -- The root whose page holds the pageref gives it back.
  unfoldable pub free_ref_from : ℕ → ℕ → ℕ → Heap S → Outcome (Heap S)
  free_ref_from p whichroot zero h = panic
  free_ref_from p whichroot (suc n) h =
      let root = h.kheaproots whichroot in
      let rest = free_ref_from p (whichroot + 1) n h in
      let j = (p - root.page) / 16 in
      if root.page == 0
      then kassert (root.numinuse == 0) >> rest
      else if leb root.page p && ltb j npagerefs_per_page
      then kassert (root.pagerefs_inuse (j / 32) (j % 32))
        >> kassert (ltb 0 root.numinuse)
        >> ok (record h {
          kheaproots =
              put h.kheaproots whichroot
                (with_inuse (j / 32) (j % 32) false (root.numinuse - 1) root);
        })
      else rest

  unfoldable pub freepageref : ℕ → Heap S → Outcome (Heap S)
  unfolding free_ref_from
  freepageref p h = free_ref_from p 0 num_pagerefpages h
