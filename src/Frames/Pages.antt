-- ===== src/Frames/Pages.antt =====
-- alloc_pages: the frames that it takes for a user page.
use os22_crisologo_minichell.Base.{
  ℕ, zero, suc, ◌+◌, ◌<◌, ◌≤◌, ◌≡◌, refl, ap, ◌∙◌, Bool, true, false, some, List, [], ◌∷◌, arith,
  length, get_elem?, set, count, length-set, get_elem?-set_self, lt_of_get_elem?, kseg0, add32, ok,
}
use os22_crisologo_minichell.PageTable.{Entry, filled, add_pt}
use os22_crisologo_minichell.Vm.{Vm}
use os22_crisologo_minichell.Frames.{taken, alloc_pages}
use os22_crisologo_minichell.Frames.Wf.{IsWf, free_at-set, UserPages-set}
use os22_crisologo_minichell.Frames.Alloc.{
  after_alloc, head_entry, alloc_kpages-cons, after_alloc-IsWf,
}

-- A valid entry is replaced by a valid one for a user page.
refilled-IsWf :
    {vm : Vm} (i : ℕ) {old : Entry} (e : Entry)
    → IsWf vm
    → get_elem? vm.pg i ≡ some old
    → old.valid ≡ true
    → e.valid ≡ true
    → e.page_number < 0x80000
    → IsWf (record vm { pg = set vm.pg i e })
refilled-IsWf {vm} i {old} e w g v v' u =
    let l : i < length vm.pg = lt_of_get_elem? vm.pg i g in
    record {
      started = w.started;
      small = omega (arith, w.small, length-set vm.pg i e);
      listed = λ j. ground (arith, w.listed j, g, v, free_at-set vm.pg i j e l);
      usable = w.usable;
      user = UserPages-set vm.pg i e w.user u;
      tlb = w.tlb;
    }

module _ (vaddr pid : ℕ) (dirty : Bool) (user : vaddr < kseg0) where
  -- the state after one round
  abbrev after_page : ℕ → List ℕ → Entry → Vm → Vm
  after_page i rest e vm = record (after_alloc i rest e vm) {
    pg =
        set (after_alloc i rest e vm).pg i
          (filled (taken e (add32 vm.pt_counter 1)) vaddr pid dirty);
  }

  alloc_pages-round :
      (n i : ℕ) (rest : List ℕ) {e : Entry} {vm : Vm}
      → IsWf vm
      → vm.frame_list ≡ i ∷ rest
      → get_elem? vm.pg i ≡ some e
      → e.valid ≡ false
      → 0 < i
      → alloc_pages (suc n) vaddr pid dirty vm
        ≡ alloc_pages n vaddr pid dirty (after_page i rest e vm)
  unfolding alloc_pages add_pt
  alloc_pages-round n i rest {e} {vm} w h g v pos =
      let l : i < length vm.pg = lt_of_get_elem? vm.pg i g in
      let there = get_elem?-set_self vm.pg i (taken e (add32 vm.pt_counter 1)) l in
      ground (arith, w.started, w.small, alloc_kpages-cons w h e g v, l, there)

  -- What alloc_pages of `n` frames gives.
  abbrev pub Gives : ℕ → Vm → Type 0
  Gives n vm =
      (vm' : Vm) × (alloc_pages n vaddr pid dirty vm ≡ ok (0, vm'))
      × IsWf vm'
      × (length vm'.frame_list + n ≡ length vm.frame_list)

  next_page :
      (n : ℕ) (vm : Vm) (fl : List ℕ)
      → IsWf vm
      → vm.frame_list ≡ fl
      → suc n ≤ length fl
      → ((x : Vm) → IsWf x → n ≤ length x.frame_list → Gives n x)
      → Gives (suc n) vm
  next_page n vm [] w e k again = absurd (omega arith)
  next_page n vm (i ∷ rest) w e k again =
      let (d, g, v, z) = head_entry w e in
      let there =
        get_elem?-set_self vm.pg i (taken d (add32 vm.pt_counter 1)) (lt_of_get_elem? vm.pg i g) in
      let w' =
        refilled-IsWf i (filled (taken d (add32 vm.pt_counter 1)) vaddr pid dirty)
          (after_alloc-IsWf w e d g) there refl refl (omega arith) in
      let (vm', q, r, s) = again (after_page i rest d vm) w' (omega arith) in
      (
        vm',
        alloc_pages-round n i rest w e g v ((w.usable i (ground (arith, ap (count i) e))).0) ∙ q,
        r,
        omega (arith, ap length e, s),
      )

  -- From a well formed state and for a user address, alloc_pages of as many frames as the frame list
  -- has, or fewer, returns 0 and a well formed state whose frame list is that many frames shorter.
  pub alloc_pages-IsWf : (n : ℕ) (vm : Vm) → IsWf vm → n ≤ length vm.frame_list → Gives n vm
  unfolding alloc_pages
  alloc_pages-IsWf zero vm w h = (vm, rw w.started refl, w, omega arith)
  alloc_pages-IsWf (suc n) vm w h =
      next_page n vm vm.frame_list w refl h (λ x v k. alloc_pages-IsWf n x v k)
