-- ===== src/Tests/Blocks.antt =====
-- An allocator that has no page yet, over pages that are given out in order.
use os22_crisologo_minichell.Base.{
  panic, ℕ, ◌≡◌, refl, arith, if◌then◌else◌, List, [], ◌∷◌, ok, false, ltb, inr, ◌+◌, ◌*◌,
}
use os22_crisologo_minichell.Heap.{Pageref, Pages, Heap, put}
use os22_crisologo_minichell.Heap.Subpage.{unlink, add_page, kmalloc, kfree}
use os22_crisologo_minichell.Heap.Fresh.{blocks, fresh_words, fresh_ref}
use os22_crisologo_minichell.Heap.Take.{ref_taken, ref_taken-IsPage}
use os22_crisologo_minichell.Heap.Lists.{add_page-IsHeap}
use os22_crisologo_minichell.Heap.Alloc.{Gives, kmalloc-Gives}
use os22_crisologo_minichell.Heap.Wf.{IsHeap, changed-IsHeap}
use os22_crisologo_minichell.Heap.Release.{kfree-kfree, after_put, kfree-block}

-- The state is the number of pages given out: 0x80001000 is the first of 8.
abbrev in_order : Pages ℕ
in_order = record {
  alloc_kpages = λ n h.
      if ltb h.state 8
      then ok (0x80001000 + h.state * 4096, record h { state = h.state + 1 })
      else ok (0, h);
  free_kpages = λ a h. ok h;
}

abbrev no_heap : Heap ℕ
no_heap = record {
  kheaproots = λ r. record { page = 0; pagerefs_inuse = λ i j. false; numinuse = 0 };
  refs = λ p. record { pageaddr_and_blocktype = 0; freelist_offset = 0; nfree = 0 };
  sizebases = λ t. [];
  allbase = [];
  words = λ a. 0;
  state = 0;
}

abbrev nothing : ℕ → List ℕ
nothing p = []

no_heap-IsHeap : IsHeap no_heap nothing nothing
no_heap-IsHeap = record {
  page = λ p l. absurd (omega (arith, l));
  apart = λ p q l. absurd (omega (arith, l));
  sized = λ t p l. absurd (omega (arith, l));
  listed = λ p l. absurd (omega (arith, l));
  all_once = λ p. omega arith;
  size_once = λ t p. omega arith;
}

-- One page of two blocks, whose pageref is at 0x80002000.
abbrev one_page : Heap ℕ
one_page = record no_heap {
  words = fresh_words no_heap.words 0x80001000 2048;
  refs = put no_heap.refs 0x80002000 (fresh_ref 0x80001000 7);
  sizebases = put no_heap.sizebases 7 (0x80002000 ∷ []);
  allbase = 0x80002000 ∷ [];
}

one_page-IsHeap :
    IsHeap one_page (put nothing 0x80002000 (2048 ∷ 0 ∷ [])) (put nothing 0x80002000 [])
unfolding add_page blocks
one_page-IsHeap =
    add_page-IsHeap no_heap nothing nothing no_heap-IsHeap 0x80002000 0x80001000 7 (omega arith)
      refl (omega arith) (omega arith) refl (λ i l. absurd (omega (arith, l)))

-- Both blocks are given out.
abbrev one_given : Heap ℕ
one_given = record one_page {
  refs = put one_page.refs 0x80002000 (ref_taken one_page.words (one_page.refs 0x80002000) 2048);
}

one_given-IsHeap :
    IsHeap one_given
      (put (put nothing 0x80002000 (2048 ∷ 0 ∷ [])) 0x80002000 (0 ∷ []))
      (put (put nothing 0x80002000 []) 0x80002000 (2048 ∷ []))
one_given-IsHeap =
    changed-IsHeap one_page (put nothing 0x80002000 (2048 ∷ 0 ∷ [])) (put nothing 0x80002000 [])
      one_page-IsHeap 0x80002000 (omega arith) one_page.words
      (ref_taken one_page.words (one_page.refs 0x80002000) 2048) (0 ∷ []) (2048 ∷ [])
      (ref_taken-IsPage one_page 0x80002000 2048 (0 ∷ []) []
        (one_page-IsHeap.page 0x80002000 (omega arith)))
      refl (λ x out. refl)

-- The block that is left is given out.
kmalloc-Gives_example :
    (addr : ℕ) × (refs' : ℕ → Pageref) × (kmalloc in_order 1500 one_given
      ≡ ok (addr, record one_given { refs = refs' }))
    × Gives one_given
        (put (put nothing 0x80002000 (2048 ∷ 0 ∷ [])) 0x80002000 (0 ∷ []))
        (put (put nothing 0x80002000 []) 0x80002000 (2048 ∷ []))
        1500
        addr
        refs'
kmalloc-Gives_example =
    kmalloc-Gives one_given (put (put nothing 0x80002000 (2048 ∷ 0 ∷ [])) 0x80002000 (0 ∷ []))
      (put (put nothing 0x80002000 []) 0x80002000 (2048 ∷ [])) one_given-IsHeap in_order 1500 7
      0x80002000 (omega arith) (omega arith, omega arith, inr (omega arith)) (omega arith)
      (omega arith)

abbrev two_given : Heap ℕ
two_given = record one_given {
  refs = put one_given.refs 0x80002000 (ref_taken one_given.words (one_given.refs 0x80002000) 0);
}

abbrev all_used : ℕ → List ℕ
all_used = put (put (put nothing 0x80002000 []) 0x80002000 (2048 ∷ [])) 0x80002000 (0 ∷ 2048 ∷ [])

abbrev none_free : ℕ → List ℕ
none_free = put (put (put nothing 0x80002000 (2048 ∷ 0 ∷ [])) 0x80002000 (0 ∷ [])) 0x80002000 []

two_given-IsHeap : IsHeap two_given none_free all_used
two_given-IsHeap =
    changed-IsHeap one_given (put (put nothing 0x80002000 (2048 ∷ 0 ∷ [])) 0x80002000 (0 ∷ []))
      (put (put nothing 0x80002000 []) 0x80002000 (2048 ∷ [])) one_given-IsHeap 0x80002000
      (omega arith) one_given.words (ref_taken one_given.words (one_given.refs 0x80002000) 0) []
      (0 ∷ 2048 ∷ [])
      (ref_taken-IsPage one_given 0x80002000 0 [] (2048 ∷ [])
        (one_given-IsHeap.page 0x80002000 (omega arith)))
      refl (λ x out. refl)

kfree-block_example :
    (kfree in_order 0x80001800 two_given ≡ ok (after_put two_given 0x80002000 2048))
    × IsHeap
        (after_put two_given 0x80002000 2048)
        (put none_free 0x80002000 (2048 ∷ none_free 0x80002000))
        (put all_used 0x80002000 (unlink 2048 (all_used 0x80002000)))
kfree-block_example =
    kfree-block two_given none_free all_used two_given-IsHeap 0x80002000 2048 (omega arith)
      (omega arith) in_order (omega arith)

kfree-kfree_example : kfree in_order 0x80001800 (after_put two_given 0x80002000 2048) ≡ panic
kfree-kfree_example =
    kfree-kfree two_given none_free all_used two_given-IsHeap 0x80002000 2048 (omega arith)
      (omega arith) in_order (omega arith) {h' = after_put two_given 0x80002000 2048}
      kfree-block_example.0
