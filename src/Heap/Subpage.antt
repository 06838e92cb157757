-- ===== src/Heap/Subpage.antt =====
-- vm/kmalloc.c: blocks taken from a page and given back, kmalloc and kfree.
use os22_crisologo_minichell.Base.{
  ℕ, zero, suc, ◌+◌, ◌-◌, ◌*◌, ◌/◌, ◌%◌, ◌^◌, Bool, true, false, not, ◌&&◌, ◌||◌, Option, none,
  some, List, [], ◌∷◌, ◌==◌, ltb, leb, if◌then◌else◌, add32, sub32, Outcome, ok, ◌>>=◌, ◌>>◌,
  kassert,
}
use os22_crisologo_minichell.Heap.{
  Pages, Pageref, Heap, invalid_offset, pr_pageaddr, pr_blocktype, mkpab, sizes, put, blocktype,
  allocpageref, freepageref, nsizes,
}

-- `n` words from `addr` on become 0xdeadbeef.
unfoldable pub fill_words : (ℕ → ℕ) → ℕ → ℕ → ℕ → ℕ
fill_words words addr zero = words
fill_words words addr (suc n) = fill_words (put words addr 0xdeadbeef) (addr + 4) n

abbrev pub fill_deadbeef : (ℕ → ℕ) → ℕ → ℕ → ℕ → ℕ
fill_deadbeef words vptr len = fill_words words vptr (len / 4)

-- The first occurrence of the pageref leaves the list.
unfoldable pub unlink : ℕ → List ℕ → List ℕ
unlink pr [] = []
unlink pr (x ∷ xs) = if x == pr then xs else x ∷ unlink pr xs

-- The first page of the list with a free block; each page on the way has to be of this block type.
unfoldable pub usable : (ℕ → Pageref) → ℕ → List ℕ → Outcome (Option ℕ)
usable refs blktype [] = ok none
usable refs blktype (pr ∷ prs) =
    let rest = usable refs blktype prs in
    kassert (pr_blocktype (refs pr) == blktype)
    >> (if ltb 0 (refs pr).nfree then ok (some pr) else rest)

-- The first page of the list that the address lies on; each page on the way has a valid block type.
unfoldable pub page_of : (ℕ → Pageref) → ℕ → List ℕ → Outcome (Option ℕ)
page_of refs ptraddr [] = ok none
page_of refs ptraddr (pr ∷ prs) =
    let rest = page_of refs ptraddr prs in
    let prpage = pr_pageaddr (refs pr) in
    kassert (ltb (pr_blocktype (refs pr)) nsizes)
    >> (if leb prpage ptraddr && ltb ptraddr (prpage + 4096) then ok (some pr) else rest)

-- The loop over the blocks of a fresh page from block `i` on: each points at the one before it.
unfoldable pub link_blocks : ℕ → ℕ → ℕ → ℕ → (ℕ → ℕ) → ℕ → ℕ
link_blocks page size i zero words = words
link_blocks page size i (suc n) words =
    link_blocks page size (i + 1) n (put words (page + i * size) (page + (i - 1) * size))

module _ {S : Type 0} where
  -- doalloc: the first free block of the page is taken.
  unfoldable pub take_block : ℕ → Heap S → Outcome (ℕ × Heap S)
  take_block pr h = do
    let ref = h.refs pr
    let prpage = pr_pageaddr ref
    a ← kassert (ltb ref.freelist_offset 4096)
    let fla = prpage + ref.freelist_offset
    let next = h.words fla
    let nfree = ref.nfree - 1
    b ← kassert (if next == 0 then nfree == 0 else ltb 0 nfree && ltb (sub32 next prpage) 4096)
    let offset = if next == 0 then invalid_offset else sub32 next prpage
    let ref' = record ref { freelist_offset = offset; nfree = nfree }
    ok (fla, record h { refs = put h.refs pr ref' })

  -- A fresh page becomes a page of free blocks, in front of both lists. Its last block is `nfree - 1`
  -- sizes behind the first, as the code asserts.
  unfoldable pub add_page : ℕ → ℕ → ℕ → Heap S → Heap S
  unfolding link_blocks
  add_page pr prpage blktype h =
      let size = sizes blktype in
      let nfree = 4096 / size in
      record h {
        words = link_blocks prpage size 1 (nfree - 1) (put h.words prpage 0);
        refs = put h.refs pr (record {
          pageaddr_and_blocktype = mkpab prpage blktype;
          freelist_offset = (nfree - 1) * size;
          nfree = nfree;
        });
        sizebases = put h.sizebases blktype (pr ∷ h.sizebases blktype);
        allbase = pr ∷ h.allbase;
      }

  unfoldable pub remove_lists : ℕ → ℕ → Heap S → Outcome (Heap S)
  unfolding unlink
  remove_lists pr blktype h =
      kassert (ltb blktype nsizes)
      >> ok (record h {
        sizebases = put h.sizebases blktype (unlink pr (h.sizebases blktype));
        allbase = unlink pr h.allbase;
      })

  -- The block at the offset goes to the front of the page's free list.
  unfoldable pub put_block : ℕ → ℕ → Heap S → Outcome (Heap S)
  unfolding fill_words
  put_block pr offset h = do
    let ref = h.refs pr
    let fla = pr_pageaddr ref + offset
    let size = sizes (pr_blocktype ref)
    let words = fill_deadbeef h.words fla size
    let next =
        if ref.freelist_offset == invalid_offset then 0 else pr_pageaddr ref + ref.freelist_offset
    a ← kassert (ref.freelist_offset == invalid_offset || not (fla == next))
    let nfree = (ref.nfree + 1) % 2 ^ 16
    let ref' = record ref { freelist_offset = offset; nfree = nfree }
    b ← kassert (leb nfree (4096 / size))
    ok (record h { words = put words fla next; refs = put h.refs pr ref' })

module _ {S : Type 0} (pages : Pages S) where
  -- The page for the block type gets its pageref; where there is none, it goes back.
  unfoldable pub adopt_page : ℕ → ℕ → Heap S → Outcome (ℕ × Heap S)
  unfolding take_block add_page
  adopt_page prpage blktype h =
      kassert (prpage % 4096 == 0)
      >> (allocpageref pages h >>= λ (pr, h').
          if pr == 0
          then (pages.free_kpages prpage h' >>= λ h''. ok (0, h''))
          else take_block pr (add_page pr prpage blktype h'))

  -- A new page of the block type, and its first block.
  unfoldable pub new_block : ℕ → Heap S → Outcome (ℕ × Heap S)
  unfolding adopt_page
  new_block blktype h = pages.alloc_kpages 1 h >>= λ (prpage, h').
      if prpage == 0 then ok (0, h') else adopt_page prpage blktype h'

  unfoldable pub subpage_kmalloc : ℕ → Heap S → Outcome (ℕ × Heap S)
  unfolding new_block
  subpage_kmalloc sz h = do
    blktype ← blocktype sz
    found ← usable h.refs blktype (h.sizebases blktype)
    elim found [ none ↦ new_block blktype h | some pr ↦ take_block pr h ]

  -- A page all of whose blocks are free is given back.
  unfoldable pub drop_page : ℕ → Heap S → Outcome (Heap S)
  unfolding remove_lists
  drop_page pr h = do
    let ref = h.refs pr
    h1 ← remove_lists pr (pr_blocktype ref) h
    h2 ← freepageref pr h1
    pages.free_kpages (pr_pageaddr ref) h2

  -- subpage_kfree returns whether the address is on one of the allocator's pages.
  unfoldable pub subpage_kfree : ℕ → Heap S → Outcome (Bool × Heap S)
  unfolding drop_page put_block
  subpage_kfree ptraddr h = do
    found ← page_of h.refs ptraddr h.allbase
    elim found [
      | none ↦ ok (false, h)
      | some pr ↦ do
        let ref = h.refs pr
        let offset = ptraddr - pr_pageaddr ref
        let size = sizes (pr_blocktype ref)
        a ← kassert (ltb offset 4096 && offset % size == 0)
        h1 ← put_block pr offset h
        h2 ← (if (h1.refs pr).nfree == 4096 / size then drop_page pr h1 else ok h1)
        ok (true, h2)
    ]

  unfoldable pub kmalloc : ℕ → Heap S → Outcome (ℕ × Heap S)
  unfolding subpage_kmalloc
  kmalloc sz h =
      if leb 2048 sz
      then (pages.alloc_kpages (add32 sz 4095 / 4096) h >>= λ (address, h').
          kassert (address % 4096 == 0) >> ok (address, h'))
      else subpage_kmalloc sz h

  -- An address that the subpage allocator does not know is a block of whole pages.
  unfoldable pub kfree : ℕ → Heap S → Outcome (Heap S)
  unfolding subpage_kfree
  kfree ptr h =
      if ptr == 0
      then ok h
      else subpage_kfree ptr h >>= λ (known, h').
          if known then ok h' else kassert (ptr % 4096 == 0) >> pages.free_kpages ptr h'
