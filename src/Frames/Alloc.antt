-- ===== src/Frames/Alloc.antt =====
-- alloc_kpages of one frame.
use os22_crisologo_minichell.Base.{
  refl, ℕ, ◌⊎◌, ◌+◌, ◌*◌, ◌<◌, ◌≡◌, ap, inl, inr, true, false, some, List, [], ◌∷◌, arith,
  Option-cases, length, get_elem?, set, count, length-set, lt_of_get_elem?, kseg0, add32, ok, ◌≤◌,
}
use os22_crisologo_minichell.PageTable.{Entry}
use os22_crisologo_minichell.Vm.{Vm, zero_fill}
use os22_crisologo_minichell.Frames.{taken, alloc_kpages}
use os22_crisologo_minichell.Frames.Wf.{IsWf, free_at-set, UserPages-set}

-- The state after the frame `i`, whose entry was `e`, has been taken off the list.
abbrev pub after_alloc : ℕ → List ℕ → Entry → Vm → Vm
after_alloc i rest e vm = record vm {
  pg = set vm.pg i (taken e (add32 vm.pt_counter 1));
  pt_counter = add32 vm.pt_counter 1;
  frame_list = rest;
  node_blocks = vm.node_blocks + 1;
  memory = zero_fill (i * 4096) 4096 vm.memory;
}

-- When no frame is free, alloc_kpages of one frame returns 0 and changes nothing.
pub alloc_kpages-nil :
    (vm : Vm) → vm.started ≡ true → vm.frame_list ≡ [] → alloc_kpages 1 vm ≡ ok (0, vm)
unfolding alloc_kpages
alloc_kpages-nil vm s h = rw (s, h)

module _ {vm : Vm} {i : ℕ} {rest : List ℕ} (w : IsWf vm) (h : vm.frame_list ≡ i ∷ rest) where
  head_count : count i vm.frame_list ≡ 1 + count i rest
  head_count = ground (arith, ap (count i) h)

  -- the first frame of the list exists and is not valid
  pub head_entry :
      (e : Entry) × (get_elem? vm.pg i ≡ some e) × (e.valid ≡ false) × (count i rest ≡ 0)
  head_entry = elim (Option-cases (get_elem? vm.pg i)) [
    | inl n ↦ absurd (ground (arith, w.listed i, head_count))
    | inr (e, g) ↦
        (e, g, ground (arith, w.listed i, head_count), ground (arith, w.listed i, head_count))
  ]

  head_usable : (0 < i) × (i * 4096 < vm.pg_base)
  head_usable = w.usable i (omega (arith, head_count))

  pub alloc_kpages-cons :
      (e : Entry)
      → get_elem? vm.pg i ≡ some e
      → e.valid ≡ false
      → alloc_kpages 1 vm ≡ ok (kseg0 + i * 4096, after_alloc i rest e vm)
  unfolding alloc_kpages
  alloc_kpages-cons e g v =
      let l : i < length vm.pg = lt_of_get_elem? vm.pg i g in
      rw (w.started, h) (ground (arith, l, g, v, head_usable, w.small))

  pub after_alloc-IsWf : (e : Entry) → get_elem? vm.pg i ≡ some e → IsWf (after_alloc i rest e vm)
  after_alloc-IsWf e g =
      let l : i < length vm.pg = lt_of_get_elem? vm.pg i g in
      let here = head_entry in
      record {
        started = w.started;
        small = omega (arith, w.small, length-set vm.pg i (taken e (add32 vm.pt_counter 1)));
        listed = λ j. ground (
          arith,
          w.listed j,
          ap (count j) h,
          head_entry,
          free_at-set vm.pg i j (taken e (add32 vm.pt_counter 1)) l,
        );
        usable = λ j p. w.usable j (ground (arith, ap (count j) h));
        user = UserPages-set vm.pg i (taken e (add32 vm.pt_counter 1)) w.user (omega arith);
        tlb = w.tlb;
      }

-- What alloc_kpages of one frame has done when it returns the kernel address of the frame `i`.
pub record Taken (vm : Vm) (i : ℕ) (vm' : Vm) : Type 0 where
  pub rest : List ℕ
  pub entry : Entry
  pub was_first : vm.frame_list ≡ i ∷ rest
  pub was : get_elem? vm.pg i ≡ some entry
  pub was_free : entry.valid ≡ false
  pub after : vm' ≡ after_alloc i rest entry vm
  pub wf : IsWf vm'

-- In a well formed state alloc_kpages of one frame always returns: 0 and the unchanged state if the
-- frame list is empty, and otherwise the kernel address of the first frame of the list, which had no
-- valid entry; that frame's bytes are then 0, all other bytes are as before, and the state is well
-- formed again.
pub alloc_kpages_one :
    {vm : Vm}
    → IsWf vm
    → ((vm.frame_list ≡ []) × (alloc_kpages 1 vm ≡ ok (0, vm)))
      ⊎ ((i : ℕ) × (vm' : Vm) × (alloc_kpages 1 vm ≡ ok (kseg0 + i * 4096, vm'))
          × Taken vm i vm'
          × ((a : ℕ) → i * 4096 ≤ a → a < i * 4096 + 4096 → vm'.memory a ≡ 0)
          × ((a : ℕ) → (a < i * 4096) ⊎ (i * 4096 + 4096 ≤ a) → vm'.memory a ≡ vm.memory a))
alloc_kpages_one {vm} w = cases vm.frame_list refl
  where
    cases :
        (fl : List ℕ)
        → vm.frame_list ≡ fl
        → ((vm.frame_list ≡ []) × (alloc_kpages 1 vm ≡ ok (0, vm)))
          ⊎ ((i : ℕ) × (vm' : Vm) × (alloc_kpages 1 vm ≡ ok (kseg0 + i * 4096, vm'))
              × Taken vm i vm'
              × ((a : ℕ) → i * 4096 ≤ a → a < i * 4096 + 4096 → vm'.memory a ≡ 0)
              × ((a : ℕ) → (a < i * 4096) ⊎ (i * 4096 + 4096 ≤ a) → vm'.memory a ≡ vm.memory a))
    cases [] h = inl (h, alloc_kpages-nil vm w.started h)
    cases (i ∷ rest) h =
        let (e, g, v, z) = head_entry w h in
        inr (
          i,
          after_alloc i rest e vm,
          alloc_kpages-cons w h e g v,
          record {
            rest = rest;
            entry = e;
            was_first = h;
            was = g;
            was_free = v;
            after = refl;
            wf = after_alloc-IsWf w h e g;
          },
          λ a l u. ground arith,
          λ a o. ground arith,
        )
