-- ===== src/Heap/Lists.antt =====
-- The lists of pages: a page put in front, and a page taken out.
use os22_crisologo_minichell.Base.{
  ℕ, ◌-◌, ◌/◌, ◌%◌, ◌^◌, ◌<◌, ◌≡◌, ◌≢◌, List, [], ◌∷◌, ◌==◌, if◌then◌else◌, arith, count,
  Bool-cases, inl, inr, ok,
}
use os22_crisologo_minichell.Heap.{Heap, pr_pageaddr, pr_blocktype, sizes, put}
use os22_crisologo_minichell.Heap.Subpage.{add_page, unlink, remove_lists}
use os22_crisologo_minichell.Heap.Fresh.{
  blocks, fresh_words, fresh-IsPage, fresh-pageaddr, fresh-blocktype, fresh_words-outside,
}
use os22_crisologo_minichell.Heap.Wf.{IsHeap, IsPage-kept}

module _ {S : Type 0} (h : Heap S) (free used : ℕ → List ℕ) (w : IsHeap h free used)
    (pr prpage t : ℕ) (valid : t < 8) (aligned : prpage % 4096 ≡ 0) (some_page : 0 < prpage)
    (below : prpage < 2 ^ 32) (new_ref : count pr h.allbase ≡ 0)
    (new_page : (i : ℕ) → 0 < count i h.allbase → pr_pageaddr (h.refs i) ≢ prpage) where
  -- A page and a pageref that the allocator does not have become a page of free blocks.
  pub add_page-IsHeap :
      IsHeap
        (add_page pr prpage t h)
        (put free pr (blocks (sizes t) (4096 / sizes t)))
        (put used pr [])
  unfolding add_page
  add_page-IsHeap =
      let at = fresh-pageaddr prpage t valid aligned in
      let typed = fresh-blocktype prpage t valid in
      record {
        page = λ i l. elim (Bool-cases (pr == i)) [
          | inl e ↦ rw e (fresh-IsPage h.words prpage t valid aligned some_page below)
          | inr e ↦ rw e (
              IsPage-kept h.words (fresh_words h.words prpage (sizes t)) (h.refs i) (free i)
                (used i)
                (λ x a b.
                  fresh_words-outside h.words prpage t x valid
                    (ground (arith, aligned, new_page i (ground (arith, e, l)), a, b)))
                (w.page i (ground (arith, e, l))))
        ];
        apart = λ i j li lj ne. ground (arith, at, new_page i, new_page j, w.apart i j, ne, li, lj);
        sized = λ s i l. elim (Bool-cases (t == s)) [
          | inl e ↦ ground (arith, e, l, typed, w.sized s i, new_ref)
          | inr e ↦ ground (arith, e, l, typed, w.sized s i, new_ref)
        ];
        listed = λ i l. elim (Bool-cases (pr == i)) [
          | inl e ↦ rw (e, typed) (ground (arith, e))
          | inr e ↦ rw e (ground (arith, w.listed i (ground (arith, l, e))))
        ];
        all_once = λ i. ground (arith, w.all_once i, new_ref);
        size_once = λ s i. elim (Bool-cases (t == s)) [
          | inl e ↦ ground (arith, e, w.sized t i, w.size_once t i, new_ref)
          | inr e ↦ ground (arith, e, w.size_once s i)
        ];
      }

-- How often an element stands in the list without the first occurrence of `o`.
pub count-without :
    (o : ℕ) (us : List ℕ) (i : ℕ) → count i (unlink o us) ≡ count i us - (if o == i then 1 else 0)
unfolding unlink
count-without o [] i = ground arith
count-without o (u ∷ us) i = elim (Bool-cases (u == o)) [
  | inl e ↦ ground (arith, e)
  | inr e ↦ ground (arith, e, count-without o us i)
]

-- The lists without the page.
abbrev pub without_page : {S : Type 0} → Heap S → ℕ → Heap S
without_page h pr = record h {
  sizebases =
      put h.sizebases (pr_blocktype (h.refs pr))
        (unlink pr (h.sizebases (pr_blocktype (h.refs pr))));
  allbase = unlink pr h.allbase;
}

module _ {S : Type 0} (h : Heap S) (free used : ℕ → List ℕ) (w : IsHeap h free used) (pr : ℕ)
    (known : 0 < count pr h.allbase) where
  pub remove_lists-ok : remove_lists pr (pr_blocktype (h.refs pr)) h ≡ ok (without_page h pr)
  unfolding remove_lists
  remove_lists-ok = let p = w.page pr known in ground (arith, p.valid_type)

  -- how often a pageref stands in a list of one size then
  size_without :
      (t i : ℕ)
      → count i ((without_page h pr).sizebases t)
        ≡ count i (h.sizebases t) - (if i == pr then 1 else 0)
  size_without t i = elim (Bool-cases (pr_blocktype (h.refs pr) == t)) [
    | inl e ↦
        let same : pr_blocktype (h.refs pr) ≡ t = ground (arith, e) in
        rw (e, same) (ground (arith, count-without pr (h.sizebases t) i))
    | inr e ↦ rw e (ground (arith, w.sized t i, e))
  ]

  -- Without the page, the others are as before, and the pageref stands in no list.
  pub without_page-IsHeap : IsHeap (without_page h pr) free used
  without_page-IsHeap = record {
    page = λ i l. w.page i (ground (arith, l, count-without pr h.allbase i));
    apart = λ i j li lj ne.
        w.apart i j (ground (arith, li, count-without pr h.allbase i))
          (ground (arith, lj, count-without pr h.allbase j)) ne;
    sized = λ s i l.
        ground
          (arith, l, size_without s i, w.sized s i, w.size_once s i, count-without pr h.allbase i);
    listed = λ i l. ground (
      arith,
      l,
      size_without (pr_blocktype (h.refs i)) i,
      w.listed i,
      w.all_once i,
      count-without pr h.allbase i,
    );
    all_once = λ i. ground (arith, w.all_once i, count-without pr h.allbase i);
    size_once = λ s i. ground (arith, size_without s i, w.size_once s i);
  }
