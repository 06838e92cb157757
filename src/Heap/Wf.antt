-- ===== src/Heap/Wf.antt =====
-- The whole allocator: its pages, and the blocks of each that are free or given out.
use os22_crisologo_minichell.Base.{
  ℕ, ◌+◌, ◌<◌, ◌≤◌, ◌≡◌, ◌≢◌, sym, subst, List, ◌==◌, arith, count, Bool-cases, inl, inr, ◌⊎◌,
}
use os22_crisologo_minichell.Heap.{Pageref, Heap, pr_pageaddr, pr_blocktype, sizes, put}
use os22_crisologo_minichell.Heap.Page.{Linked-kept, first_free, IsPage, sizes-IsSize, sizes-Apart}

-- `free pr` and `used pr` are the offsets of the blocks of the page of `pr` that are free or given
-- out. Each page stands in the list of its block type, and no two pagerefs have one page.
pub record IsHeap {S : Type 0} (h : Heap S) (free used : ℕ → List ℕ) : Type 0 where
  pub page : (pr : ℕ) → 0 < count pr h.allbase → IsPage h.words (h.refs pr) (free pr) (used pr)
  pub apart :
      (p q : ℕ)
      → 0 < count p h.allbase
      → 0 < count q h.allbase
      → p ≢ q
      → pr_pageaddr (h.refs p) ≢ pr_pageaddr (h.refs q)
  pub sized :
      (t pr : ℕ)
      → 0 < count pr (h.sizebases t)
      → (0 < count pr h.allbase) × (pr_blocktype (h.refs pr) ≡ t)
  pub listed :
      (pr : ℕ) → 0 < count pr h.allbase → 0 < count pr (h.sizebases (pr_blocktype (h.refs pr)))
  pub all_once : (pr : ℕ) → count pr h.allbase ≤ 1
  pub size_once : (t pr : ℕ) → count pr (h.sizebases t) ≤ 1

-- Two different blocks, free or given out, do not overlap, on one page or on two.
pub IsHeap-apart :
    {S : Type 0} (h : Heap S) (free used : ℕ → List ℕ)
    → IsHeap h free used
    → (p x q y : ℕ) → 0 < count p h.allbase
    → 0 < count q h.allbase
    → 0 < count x (free p) + count x (used p)
    → 0 < count y (free q) + count y (used q)
    → (p ≢ q) ⊎ (x ≢ y)
    → (pr_pageaddr (h.refs p) + x + sizes (pr_blocktype (h.refs p)) ≤ pr_pageaddr (h.refs q) + y)
      ⊎ (pr_pageaddr (h.refs q) + y + sizes (pr_blocktype (h.refs q)) ≤ pr_pageaddr (h.refs p) + x)
IsHeap-apart h free used w p x q y lp lq lx ly other =
    let wp = w.page p lp in
    let wq = w.page q lq in
    elim (Bool-cases (p == q)) [
      | inl e ↦
          let same : p ≡ q = ground (arith, e) in
          let ly' : 0 < count y (free p) + count y (used p) =
            subst (λ i. 0 < count y (free i) + count y (used i)) (sym same) ly in
          let far : (pr_pageaddr (h.refs p) + x + sizes (pr_blocktype (h.refs p))
                ≤ pr_pageaddr (h.refs p) + y)
              ⊎ (pr_pageaddr (h.refs p) + y + sizes (pr_blocktype (h.refs p))
                  ≤ pr_pageaddr (h.refs p) + x) =
            ground (
              arith,
              sizes-Apart (pr_blocktype (h.refs p)) wp.valid_type x y
                  (wp.multiples x (omega (arith, lx))) (wp.multiples y (omega (arith, ly')))
                  (ground (arith, other, same)),
            ) in
          subst
            (λ i.
              (pr_pageaddr (h.refs p) + x + sizes (pr_blocktype (h.refs p))
                ≤ pr_pageaddr (h.refs i) + y)
              ⊎ (pr_pageaddr (h.refs i) + y + sizes (pr_blocktype (h.refs i))
                  ≤ pr_pageaddr (h.refs p) + x))
            same far
      | inr e ↦ ground (
        arith,
        w.apart p q lp lq (ground (arith, e)),
        wp.places x (omega (arith, lx)),
        wq.places y (omega (arith, ly)),
      )
    ]

-- A page keeps its blocks when the memory changes elsewhere.
pub IsPage-kept :
    (words words' : ℕ → ℕ) (ref : Pageref) (os us : List ℕ)
    → ((x : ℕ) → pr_pageaddr ref ≤ x → x < pr_pageaddr ref + 4096 → words' x ≡ words x)
    → IsPage words ref os us
    → IsPage words' ref os us
IsPage-kept words words' ref os us same w = record {
  valid_type = w.valid_type;
  nonzero = w.nonzero;
  in_range = w.in_range;
  linked =
      Linked-kept words words' (pr_pageaddr ref) (first_free ref) os
        (λ o l. same (pr_pageaddr ref + o) (omega arith) (
          ground
            (arith, w.places o (omega (arith, l)), sizes-IsSize (pr_blocktype ref) w.valid_type)))
        w.linked;
  places = w.places;
  multiples = w.multiples;
  once = w.once;
  counted = w.counted;
  total = w.total;
}

module _ {S : Type 0} (h : Heap S) (free used : ℕ → List ℕ) (w : IsHeap h free used) (pr : ℕ)
    (known : 0 < count pr h.allbase) where
  -- A page whose pageref and blocks change, but not its address and its type.
  pub changed-IsHeap :
      (words : ℕ → ℕ) (ref : Pageref) (os us : List ℕ)
      → IsPage words ref os us
      → ref.pageaddr_and_blocktype ≡ (h.refs pr).pageaddr_and_blocktype
      → ((x : ℕ)
          → (x < pr_pageaddr (h.refs pr)) ⊎ (pr_pageaddr (h.refs pr) + 4096 ≤ x)
          → words x ≡ h.words x)
      → IsHeap
          (record h { words = words; refs = put h.refs pr ref })
          (put free pr os)
          (put used pr us)
  changed-IsHeap words ref os us p same outside = record {
    page = λ i l. elim (Bool-cases (pr == i)) [
      | inl e ↦ rw e p
      | inr e ↦ rw e (
          IsPage-kept h.words words (h.refs i) (free i) (used i)
            (λ x a b. outside x (ground (arith, w.apart pr i known l (ground (arith, e)), a, b)))
            (w.page i l))
    ];
    apart = λ i j li lj ne. ground (arith, same, w.apart i j li lj ne);
    sized = λ t i l. ground (arith, same, w.sized t i l);
    listed = λ i l. elim (Bool-cases (pr == i)) [
      | inl e ↦ ground (arith, e, same, w.listed i l)
      | inr e ↦ ground (arith, e, w.listed i l)
    ];
    all_once = w.all_once;
    size_once = w.size_once;
  }
