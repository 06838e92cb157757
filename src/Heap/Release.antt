-- ===== src/Heap/Release.antt =====
-- kfree of a block of a page that has other blocks given out.
use os22_crisologo_minichell.Base.{
  ℕ, ◌+◌, ◌<◌, ◌≤◌, ◌≡◌, ◌≢◌, refl, List, [], ◌∷◌, ◌==◌, arith, count, length, Bool-cases, inl, inr,
  ok, some, panic, subst,
}
use os22_crisologo_minichell.Heap.{Pages, Pageref, Heap, pr_pageaddr, pr_blocktype, put}
use os22_crisologo_minichell.Heap.Subpage.{page_of, put_block, subpage_kfree, kfree, unlink}
use os22_crisologo_minichell.Heap.Page.{sizes-IsSize}
use os22_crisologo_minichell.Heap.Put.{
  ref_put, words_put, ref_put-IsPage, put_block-ok, words_put-outside,
}
use os22_crisologo_minichell.Heap.Wf.{IsHeap, changed-IsHeap}

-- The search for the page of an address finds the one page that it lies on.
page_of-found :
    (refs : ℕ → Pageref) (pr addr : ℕ) (prs : List ℕ)
    → 0 < count pr prs
    → ((i : ℕ) → 0 < count i prs → pr_blocktype (refs i) < 8)
    → ((i : ℕ) → 0 < count i prs → pr ≢ i → pr_pageaddr (refs pr) ≢ pr_pageaddr (refs i))
    → pr_pageaddr (refs pr) ≤ addr
    → addr < pr_pageaddr (refs pr) + 4096
    → page_of refs addr prs ≡ ok (some pr)
unfolding page_of
page_of-found refs pr addr [] c typed apart lo hi = absurd (omega (arith, c))
page_of-found refs pr addr (p ∷ prs) c typed apart lo hi =
    let here : pr_blocktype (refs p) < 8 = typed p (ground arith) in
    elim (Bool-cases (p == pr)) [
      | inl e ↦ let same : p ≡ pr = ground (arith, e) in ground (arith, same, here, lo, hi)
      | inr e ↦
          let rest =
            page_of-found refs pr addr prs (ground (arith, e, c))
              (λ i l. typed i (ground (arith, l))) (λ i l. apart i (ground (arith, l))) lo hi in
          let other = apart p (ground arith) (ground (arith, e)) in
          ground (arith, rest, other, here, lo, hi)
    ]

-- The pages after the block has come back.
abbrev pub after_put : {S : Type 0} → Heap S → ℕ → ℕ → Heap S
after_put h pr o = record h {
  words = words_put h.words (h.refs pr) o;
  refs = put h.refs pr (ref_put (h.refs pr) o);
}

module _ {S : Type 0} (h : Heap S) (free used : ℕ → List ℕ) (w : IsHeap h free used) (pr o : ℕ)
    (known : 0 < count pr h.allbase) (given : 0 < count o (used pr)) where
  in_page : o + 16 ≤ 4096
  in_page =
      let p = w.page pr known in
      ground (
        arith,
        p.places o (omega (arith, given)),
        sizes-IsSize (pr_blocktype (h.refs pr)) p.valid_type,
      )

  pub page_of-block : page_of h.refs (pr_pageaddr (h.refs pr) + o) h.allbase ≡ ok (some pr)
  page_of-block =
      page_of-found h.refs pr (pr_pageaddr (h.refs pr) + o) h.allbase known
        (λ i l. let p = w.page i l in p.valid_type) (λ i l ne. w.apart pr i known l ne)
        (omega arith) (omega (arith, in_page))

  pub after_put-IsHeap :
      IsHeap (after_put h pr o) (put free pr (o ∷ free pr)) (put used pr (unlink o (used pr)))
  after_put-IsHeap =
      let p = w.page pr known in
      changed-IsHeap h free used w pr known (words_put h.words (h.refs pr) o)
        (ref_put (h.refs pr) o) (o ∷ free pr) (unlink o (used pr))
        (ref_put-IsPage h pr o (free pr) (used pr) p given) refl
        (λ x out.
          words_put-outside h.words (h.refs pr) o x p.valid_type
            (ground (arith, out, p.places o (omega (arith, given)))))

  -- kfree of a block that is given out returns, where its page has another such block: the block is
  -- then the first free one of its page, the other blocks are as before, and the pages stay well formed.
  pub kfree-block :
      (pages : Pages S)
      → 2 ≤ length (used pr)
      → (kfree pages (pr_pageaddr (h.refs pr) + o) h ≡ ok (after_put h pr o))
        × IsHeap (after_put h pr o) (put free pr (o ∷ free pr)) (put used pr (unlink o (used pr)))
  unfolding kfree subpage_kfree
  kfree-block pages two =
      let p = w.page pr known in
      let range = sizes-IsSize (pr_blocktype (h.refs pr)) p.valid_type in
      (
        ground (
          arith,
          page_of-block,
          put_block-ok h pr o (free pr) (used pr) p given,
          p.nonzero,
          in_page,
          p.multiples o (omega (arith, given)),
          p.counted,
          p.total,
          range,
        ),
        after_put-IsHeap,
      )

  put_block-head : put_block pr o (after_put h pr o) ≡ panic
  unfolding put_block
  put_block-head = ground (arith, in_page)

  -- A second kfree of the block, directly after the first one, panics.
  pub kfree-twice :
      (pages : Pages S) → kfree pages (pr_pageaddr (h.refs pr) + o) (after_put h pr o) ≡ panic
  unfolding kfree subpage_kfree
  kfree-twice pages =
      let p = w.page pr known in
      let v = after_put-IsHeap in
      let same : (i : ℕ)
          → ((after_put h pr o).refs i).pageaddr_and_blocktype ≡ (h.refs i).pageaddr_and_blocktype =
        λ i. ground arith in
      let at : page_of (after_put h pr o).refs (pr_pageaddr (h.refs pr) + o) h.allbase
          ≡ ok (some pr) =
        page_of-found (after_put h pr o).refs pr (pr_pageaddr (h.refs pr) + o) h.allbase known
          (λ i l. let q = v.page i l in q.valid_type) (λ i l ne. v.apart pr i known l ne)
          (ground (arith, same pr)) (ground (arith, same pr, in_page)) in
      ground (
        arith,
        at,
        put_block-head,
        p.nonzero,
        in_page,
        same pr,
        p.multiples o (omega (arith, given)),
      )

  -- In well formed pages, after kfree of a block that is given out, of a page that has another
  -- such block, has returned, a second kfree of the block panics.
  pub kfree-kfree :
      (pages : Pages S)
      → 1 < length (used pr)
      → {h' : Heap S} → kfree pages (pr_pageaddr (h.refs pr) + o) h ≡ ok h'
      → kfree pages (pr_pageaddr (h.refs pr) + o) h' ≡ panic
  kfree-kfree pages two e =
      subst (λ x. kfree pages (pr_pageaddr (h.refs pr) + o) x ≡ panic)
        (cc ((kfree-block pages two).0, e)) (kfree-twice pages)
