-- ===== src/Heap/Put.antt =====
-- A block that was given out comes back.
use os22_crisologo_minichell.Base.{
  ℕ, ◌+◌, ◌/◌, ◌%◌, ◌^◌, ◌<◌, ◌≤◌, ◌≡◌, subst, ◌⊎◌, inl, inr, List, [], ◌∷◌, ◌==◌, if◌then◌else◌,
  ok, arith, count, length, Bool-cases,
}
use os22_crisologo_minichell.Heap.{Pageref, Heap, pr_pageaddr, pr_blocktype, sizes, put}
use os22_crisologo_minichell.Heap.Subpage.{fill_deadbeef, put_block, unlink}
use os22_crisologo_minichell.Heap.Page.{
  Linked, Linked-cases, Linked-kept, first_free, IsPage, sizes-IsSize, sizes-Apart,
  fill_words-outside,
}

-- What put_block leaves of the memory and of the pageref.
abbrev pub words_put : (ℕ → ℕ) → Pageref → ℕ → ℕ → ℕ
words_put words ref o =
    let fla = pr_pageaddr ref + o in
    put (fill_deadbeef words fla (sizes (pr_blocktype ref))) fla (first_free ref)

abbrev pub ref_put : Pageref → ℕ → Pageref
ref_put ref o = record ref { freelist_offset = o; nfree = (ref.nfree + 1) % 2 ^ 16 }

-- Outside the block the memory is as before.
pub words_put-outside :
    (words : ℕ → ℕ) (ref : Pageref) (o x : ℕ)
    → pr_blocktype ref < 8
    → (x < pr_pageaddr ref + o) ⊎ (pr_pageaddr ref + o + sizes (pr_blocktype ref) ≤ x)
    → words_put words ref o x ≡ words x
words_put-outside words ref o x l out =
    let range = sizes-IsSize (pr_blocktype ref) l in
    let filled =
      fill_words-outside words (pr_pageaddr ref + o) (sizes (pr_blocktype ref) / 4) x
        (ground (arith, out, range)) in
    ground (arith, out, range, filled)

-- The list without its first occurrence of an element that it has.
pub count-unlink :
    (o : ℕ) (us : List ℕ)
    → 0 < count o us
    → ((i : ℕ) → count i us ≡ count i (unlink o us) + (if o == i then 1 else 0))
      × (length us ≡ length (unlink o us) + 1)
unfolding unlink
count-unlink o [] l = absurd (omega arith)
count-unlink o (u ∷ us) l = elim (Bool-cases (u == o)) [
  | inl e ↦ (λ i. ground (arith, e), ground (arith, e))
  | inr e ↦
      let (c, n) = count-unlink o us (ground (arith, e, l)) in
      (λ i. ground (arith, e, c i), ground (arith, e, n))
]

module _ {S : Type 0} (h : Heap S) (pr o : ℕ) (os us : List ℕ)
    (w : IsPage h.words (h.refs pr) os us) (given : 0 < count o us) where
  -- put_block of a block that is given out returns.
  pub put_block-ok :
      put_block pr o h
      ≡ ok (record h {
        words = words_put h.words (h.refs pr) o;
        refs = put h.refs pr (ref_put (h.refs pr) o);
      })
  unfolding put_block
  put_block-ok =
      let range = sizes-IsSize (pr_blocktype (h.refs pr)) w.valid_type in
      let (c, n) = count-unlink o us given in
      elim (Linked-cases h.words (pr_pageaddr (h.refs pr)) (first_free (h.refs pr)) os w.linked) [
        | inl (e, m) ↦ ground (arith, e, m, n, range, w.counted, w.total, w.nonzero)
        | inr (i, e, m, k) ↦ ground (arith, e, m, n, range, w.counted, w.total, w.once i, given)
      ]

  -- The other free blocks keep their links.
  words_put-kept :
      (i : ℕ)
      → 0 < count i os
      → words_put h.words (h.refs pr) o (pr_pageaddr (h.refs pr) + i)
        ≡ h.words (pr_pageaddr (h.refs pr) + i)
  words_put-kept i l =
      let apart =
        sizes-Apart (pr_blocktype (h.refs pr)) w.valid_type i o (w.multiples i (ground (arith, l)))
          (w.multiples o (ground (arith, given))) (λ e. ground (arith, l, given, e, w.once i)) in
      words_put-outside h.words (h.refs pr) o (pr_pageaddr (h.refs pr) + i) w.valid_type
        (ground (arith, apart))

  pub ref_put-IsPage :
      IsPage (words_put h.words (h.refs pr) o) (ref_put (h.refs pr) o) (o ∷ os) (unlink o us)
  ref_put-IsPage =
      let range = sizes-IsSize (pr_blocktype (h.refs pr)) w.valid_type in
      let (c, n) = count-unlink o us given in
      record {
        valid_type = w.valid_type;
        nonzero = w.nonzero;
        in_range = w.in_range;
        linked = (
          ground (arith, range, w.places o (ground (arith, given))),
          subst (λ a. Linked (words_put h.words (h.refs pr) o) (pr_pageaddr (h.refs pr)) a os)
              (ground arith)
              (Linked-kept h.words (words_put h.words (h.refs pr) o) (pr_pageaddr (h.refs pr))
                (first_free (h.refs pr)) os words_put-kept w.linked),
        );
        places = λ i q. w.places i (ground (arith, q, c i));
        multiples = λ i q. w.multiples i (ground (arith, q, c i));
        once = λ i. ground (arith, w.once i, c i);
        counted = ground (arith, w.counted, w.total, n, range);
        total = ground (arith, w.total, n);
      }
