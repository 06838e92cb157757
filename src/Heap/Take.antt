-- ===== src/Heap/Take.antt =====
-- A free block is given out.
use os22_crisologo_minichell.Base.{
  ℕ, ◌+◌, ◌-◌, ◌≤◌, ◌≡◌, subst, inl, inr, List, ◌∷◌, ◌==◌, if◌then◌else◌, sub32, ok, arith,
}
use os22_crisologo_minichell.Heap.{Pageref, Heap, invalid_offset, pr_pageaddr, pr_blocktype, put}
use os22_crisologo_minichell.Heap.Subpage.{take_block}
use os22_crisologo_minichell.Heap.Page.{Linked, Linked-cases, first_free, IsPage, sizes-IsSize}

-- What take_block leaves of the pageref of a page whose first free block is followed by `os`.
abbrev pub ref_taken : (ℕ → ℕ) → Pageref → ℕ → Pageref
ref_taken words ref o =
    let next = words (pr_pageaddr ref + o) in
    record ref {
      freelist_offset = if next == 0 then invalid_offset else sub32 next (pr_pageaddr ref);
      nfree = ref.nfree - 1;
    }

module _ {S : Type 0} (h : Heap S) (pr o : ℕ) (os us : List ℕ)
    (w : IsPage h.words (h.refs pr) (o ∷ os) us) where
  page_range : o + 16 ≤ 4096
  page_range = ground (arith, w.places o, sizes-IsSize (pr_blocktype (h.refs pr)) w.valid_type)

  front : (h.refs pr).freelist_offset ≡ o
  front = ground (arith, w.linked, w.nonzero, page_range)

  -- take_block gives the first free block.
  pub take_block-first :
      take_block pr h
      ≡ ok (
        pr_pageaddr (h.refs pr) + o,
        record h { refs = put h.refs pr (ref_taken h.words (h.refs pr) o) },
      )
  unfolding take_block
  take_block-first =
      let range = sizes-IsSize (pr_blocktype (h.refs pr)) w.valid_type in
      elim (Linked-cases h.words (pr_pageaddr (h.refs pr)) (h.words (pr_pageaddr (h.refs pr) + o))
        os w.linked.1) [
          | inl (e, n) ↦ rw front (ground (arith, e, n, page_range, w.counted))
          | inr (i, e, c, n) ↦ rw front (
              ground
                (arith, e, c, n, page_range, w.counted, w.in_range, w.places i, range, w.nonzero))
        ]

  first_free-taken :
      h.words (pr_pageaddr (h.refs pr) + o) ≡ first_free (ref_taken h.words (h.refs pr) o)
  first_free-taken =
      let range = sizes-IsSize (pr_blocktype (h.refs pr)) w.valid_type in
      elim (Linked-cases h.words (pr_pageaddr (h.refs pr)) (h.words (pr_pageaddr (h.refs pr) + o))
        os w.linked.1) [
          | inl (e, n) ↦ ground (arith, e)
          | inr (i, e, c, n) ↦ ground (arith, e, c, w.in_range, w.places i, range, w.nonzero)
        ]

  pub ref_taken-IsPage : IsPage h.words (ref_taken h.words (h.refs pr) o) os (o ∷ us)
  ref_taken-IsPage = record {
    valid_type = w.valid_type;
    nonzero = w.nonzero;
    in_range = w.in_range;
    linked = subst (λ a. Linked h.words (pr_pageaddr (h.refs pr)) a os) first_free-taken w.linked.1;
    places = λ i q. w.places i (ground (arith, q));
    multiples = λ i q. w.multiples i (ground (arith, q));
    once = λ i. ground (arith, w.once i);
    counted = ground (arith, w.counted);
    total = ground (arith, w.total);
  }
