-- ===== src/Frames/Free.antt =====
-- free_kpages, and what it gives back to alloc_kpages.
use os22_crisologo_minichell.Base.{
  ℕ, ◌+◌, ◌-◌, ◌*◌, ◌/◌, ◌<◌, ◌≡◌, refl, subst, inl, inr, true, false, some, ◌∷◌, arith, ◌==◌,
  Bool-cases, length, get_elem?, set, length-set, get_elem?-set_self, lt_of_get_elem?, kseg0, sub32,
  mul32, page_align, ok, panic,
}
use os22_crisologo_minichell.PageTable.{Entry}
use os22_crisologo_minichell.Tlb.Count
use os22_crisologo_minichell.Vm.{Vm, zero_fill}
use os22_crisologo_minichell.Frames.{freed, tlb_without, alloc_kpages, free_kpages}
use os22_crisologo_minichell.Frames.Wf.{IsWf, free_at-set, UserPages-set}
use os22_crisologo_minichell.Frames.Alloc.{after_alloc, alloc_kpages-cons}

-- The state after the frame `i`, whose entry was `e`, has been freed.
abbrev pub after_free : ℕ → Entry → Vm → Vm
after_free i e vm = record vm {
  tlb = tlb_without e vm.tlb;
  pg = set vm.pg i (freed e);
  memory = zero_fill (i * 4096) 4096 vm.memory;
  frame_list = i ∷ vm.frame_list;
  node_blocks = vm.node_blocks - 1;
}

module _ {vm : Vm} (i : ℕ) {e : Entry} (w : IsWf vm) (g : get_elem? vm.pg i ≡ some e) where
  -- free_kpages of a frame that is in use, with a block left for the list's node
  pub free_kpages-after_free :
      e.valid ≡ true
      → 0 < vm.node_blocks
      → free_kpages (kseg0 + i * 4096) vm ≡ ok (after_free i e vm)
  unfolding free_kpages
  free_kpages-after_free v room =
      let l : i < length vm.pg = lt_of_get_elem? vm.pg i g in
      let p : page_align (kseg0 + i * 4096) ≡ kseg0 + i * 4096 = omega arith in
      let q : sub32 (kseg0 + i * 4096) kseg0 ≡ i * 4096 = omega (arith, w.small) in
      let n : i * 4096 / 4096 ≡ i = omega arith in
      rw (w.started, p, q, n) (ground (arith, l, g, v, room, length-set vm.pg i (freed e)))

  -- free_kpages of a frame whose entry is not valid
  pub free_kpages-panic : e.valid ≡ false → free_kpages (kseg0 + i * 4096) vm ≡ panic
  unfolding free_kpages
  free_kpages-panic v =
      let l : i < length vm.pg = lt_of_get_elem? vm.pg i g in
      let p : page_align (kseg0 + i * 4096) ≡ kseg0 + i * 4096 = omega arith in
      let q : sub32 (kseg0 + i * 4096) kseg0 ≡ i * 4096 = omega (arith, w.small) in
      let n : i * 4096 / 4096 ≡ i = omega arith in rw (w.started, p, q, n) (ground (arith, l, g, v))

  tlb_without-IsWf : Count.IsWf (tlb_without e vm.tlb)
  tlb_without-IsWf = elim (Bool-cases (e.pid == 0)) [
    | inl z ↦ rw z w.tlb
    | inr n ↦
        rw n
          (Count.remove_tlb_v1-IsWf (mul32 e.page_number 4096) (omega (arith, w.user i e g)) w.tlb)
  ]

  pub after_free-IsWf : e.valid ≡ true → 0 < i → i * 4096 < vm.pg_base → IsWf (after_free i e vm)
  after_free-IsWf v pos below =
      let l : i < length vm.pg = lt_of_get_elem? vm.pg i g in
      record {
        started = w.started;
        small = omega (arith, w.small, length-set vm.pg i (freed e));
        listed = λ j. ground (arith, w.listed j, g, v, free_at-set vm.pg i j (freed e) l);
        usable = λ j p. ground (arith, w.usable j);
        user = UserPages-set vm.pg i (freed e) w.user (omega arith);
        tlb = tlb_without-IsWf;
      }

-- In a well formed state with a block left for the list's node, free_kpages of a valid frame above 0
-- and below the page table returns, and the state is well formed again. The next alloc_kpages of one
-- frame then returns that very frame, and leaves the frame list as it was before free_kpages.
pub alloc-free_kpages :
    {vm : Vm} (i : ℕ) {e : Entry}
    → IsWf vm
    → get_elem? vm.pg i ≡ some e
    → e.valid ≡ true
    → 0 < i
    → i * 4096 < vm.pg_base
    → 0 < vm.node_blocks
    → (vm' vm'' : Vm) × (free_kpages (kseg0 + i * 4096) vm ≡ ok vm')
      × IsWf vm'
      × (alloc_kpages 1 vm' ≡ ok (kseg0 + i * 4096, vm''))
      × (vm''.frame_list ≡ vm.frame_list)
      × (vm''.node_blocks ≡ vm.node_blocks)
alloc-free_kpages {vm} i {e} w g v pos below room =
    let w' = after_free-IsWf i w g v pos below in
    let g' = get_elem?-set_self vm.pg i (freed e) (lt_of_get_elem? vm.pg i g) in
    (
      after_free i e vm,
      after_alloc i vm.frame_list (freed e) (after_free i e vm),
      free_kpages-after_free i w g v room,
      w',
      alloc_kpages-cons w' refl (freed e) g' refl,
      refl,
      omega arith,
    )

-- In a well formed state with a heap block left for the list's node, after a successful
-- free_kpages of a frame above 0 and below the page table a second free_kpages of the same frame
-- panics.
pub free_kpages_twice :
    {vm vm' : Vm} (i : ℕ) {e : Entry}
    → IsWf vm
    → get_elem? vm.pg i ≡ some e
    → 0 < i
    → i * 4096 < vm.pg_base
    → 0 < vm.node_blocks
    → free_kpages (kseg0 + i * 4096) vm ≡ ok vm'
    → free_kpages (kseg0 + i * 4096) vm' ≡ panic
free_kpages_twice {vm} {vm'} i {e} w g pos below room h = elim (Bool-cases e.valid) [
  | inr v ↦ cc (free_kpages-panic i w g v)
  | inl v ↦
      subst (λ x. free_kpages (kseg0 + i * 4096) x ≡ panic)
        (cc (free_kpages-after_free i w g v room))
        (free_kpages-panic i (after_free-IsWf i w g v pos below)
          (get_elem?-set_self vm.pg i (freed e) (lt_of_get_elem? vm.pg i g)) refl)
]
