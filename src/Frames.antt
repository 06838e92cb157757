-- ===== src/Frames.antt =====
-- Physical frames: lib/list.c, vm/coremap.c, and alloc_kpages and free_kpages of vm/kmalloc.c, with
-- alloc_pages of vm/vm.c and page_replacement of vm/pt.c on top.
-- A node's memory comes from kmalloc and goes back by kfree: a counter of the blocks of its size that
-- are left stands for that heap. A page of blocks is asked for when none is left; none is given back,
-- as when blocks of other uses keep every page of the heap. The spinlock is not modelled: each call
-- runs alone.
pub mod Wf
pub mod Alloc
pub mod Free
pub mod Size
pub mod Keeps
pub mod Pages
use os22_crisologo_minichell.Base.{
  ℕ, zero, suc, ◌+◌, ◌-◌, ◌/◌, ◌%◌, ◌^◌, Bool, true, false, not, List, [], ◌∷◌, ◌++◌, none, some,
  ltb, leb, ◌==◌, if◌then◌else◌, length, get_elem?, set, kseg0, page_align, add32, sub32, mul32,
  Outcome, ok, panic, fault, ◌>>=◌, ◌>>◌, kassert,
}
use os22_crisologo_minichell.PageTable.{Entry, add_pt}
use os22_crisologo_minichell.Tlb.{Tlb, remove_tlb_v1}
use os22_crisologo_minichell.Ram.{ram_stealmem}
use os22_crisologo_minichell.Vm.{Vm, zero_fill}

-- enum positionList; any other number is `other_position`.
pub data Position : Type 0 where
  add_top add_bottom other_position : Position

-- The loop of check_free_frame, with `rounds` left. It looks at the first node in every round.
unfoldable pub check_loop : Bool → ℕ → ℕ → ℕ
check_loop last zero size = size
check_loop last (suc rounds) size = if last then size else check_loop last rounds (size + 1)

unfoldable pub check_free_frame : ℕ → List ℕ → ℕ
unfolding check_loop
check_free_frame npages [] = 0
check_free_frame npages (f ∷ []) = check_loop true (npages - 1) 1
check_free_frame npages (f ∷ g ∷ fs) = check_loop false (npages - 1) 1

-- The entry of a frame that has just been taken; victim_counter is a uint16_t.
abbrev pub taken : Entry → ℕ → Entry
taken e counter = record e {
  valid = true;
  pid = 0;
  page_number = 0;
  victim_counter = counter % 2 ^ 16;
}

-- `addr` after the round that takes the frame `index`: set in the first round only.
unfoldable pub first_addr : Vm → ℕ → ℕ → Outcome ℕ
first_addr vm index addr =
    if addr == 0
    then (if leb vm.pg_base (mul32 index 4096)
        then panic
        else if mul32 index 4096 == 0
        then panic
        else ok (mul32 index 4096))
    else ok addr

-- One round of the loop of alloc_kpages.
unfoldable pub take_frame : List ℕ → ℕ → Vm → Outcome (ℕ × Vm)
unfolding first_addr
take_frame [] addr vm = fault
take_frame (index ∷ rest) addr vm = do
  kassert (ltb index (length vm.pg))
  elim (get_elem? vm.pg index) [
    | none ↦ fault
    | some e ↦ if e.valid then panic else do
      addr ← first_addr vm index addr
      ok (
        addr,
        record vm {
          pg = set vm.pg index (taken e (add32 vm.pt_counter 1));
          pt_counter = add32 vm.pt_counter 1;
          frame_list = rest;
          node_blocks = vm.node_blocks + 1;
        },
      )
  ]

unfoldable pub take_frames : ℕ → ℕ → Vm → Outcome (ℕ × Vm)
unfolding take_frame
take_frames zero addr vm = ok (addr, vm)
take_frames (suc n) addr vm = do
  (addr, vm) ← take_frame vm.frame_list addr vm
  take_frames n addr vm

-- alloc_kpages before vm_bootstrap has run
alloc_early : ℕ → Vm → Outcome (ℕ × Vm)
alloc_early npages vm =
    let (addr, ram) = ram_stealmem npages vm.ram in
    if addr == 0 then panic else ok (add32 addr kseg0, record vm { ram = ram })

-- The frames taken, and the first of them filled with zeros.
unfoldable pub alloc_frames : ℕ → Vm → Outcome (ℕ × Vm)
unfolding take_frames
alloc_frames npages vm = do
  (addr, vm) ← take_frames npages 0 vm
  ok (add32 addr kseg0, record vm { memory = zero_fill addr 4096 vm.memory })

-- alloc_kpages after vm_bootstrap: the size is a uint8_t.
unfoldable pub alloc_started : ℕ → Vm → Outcome (ℕ × Vm)
unfolding alloc_frames check_free_frame
alloc_started npages vm =
    let size = check_free_frame npages vm.frame_list % 256 in
    if size == 0 then ok (0, vm) else if size == npages then alloc_frames npages vm else panic

-- A kernel address, or 0 when no frame is free.
unfoldable pub alloc_kpages : ℕ → Vm → Outcome (ℕ × Vm)
unfolding alloc_early alloc_started
alloc_kpages npages vm =
    kassert (ltb npages 10)
    >> (if vm.started then alloc_started npages vm else alloc_early npages vm)

-- The nodes of a page of the kernel heap: 4096 bytes in blocks of 16.
abbrev nodes_per_page : ℕ
nodes_per_page = 256

-- kmalloc of a node when no block is left: the first of a new page, which alloc_kpages takes off the
-- list of free frames. NULL is a panic of addToFrameList.
unfoldable pub new_node_page : Vm → Outcome Vm
new_node_page vm = alloc_kpages 1 vm >>= λ (addr, vm').
    if addr == 0
    then panic
    else ok (record vm' { node_blocks = vm'.node_blocks + (nodes_per_page - 1) })

-- kmalloc of a node
unfoldable pub kmalloc_node : Vm → Outcome Vm
kmalloc_node vm = elim (vm.node_blocks) [
  | zero ↦ new_node_page vm
  | suc n ↦ ok (record vm { node_blocks = n })
]

abbrev push_front : ℕ → Vm → Vm
push_front value vm = record vm { frame_list = value ∷ vm.frame_list }

-- addToFrameList(value, addTOP)
unfoldable pub add_first : ℕ → Vm → Outcome (ℕ × Vm)
unfolding kmalloc_node
add_first value vm = do
  vm ← kmalloc_node vm
  kassert (leb value (length vm.pg))
  ok (0, push_front value vm)

-- On an empty list addBOTTOM calls addToFrameList again, and its own node stays unused.
add_last : ℕ → List ℕ → Vm → Outcome (ℕ × Vm)
unfolding add_first
add_last value [] vm = add_first value vm
add_last value (f ∷ fs) vm = ok (0, record vm { frame_list = (f ∷ fs) ++ (value ∷ []) })

unfoldable pub add_to_frame_list : ℕ → Position → Vm → Outcome (ℕ × Vm)
unfolding add_first add_last kmalloc_node
add_to_frame_list value add_top vm = add_first value vm
add_to_frame_list value add_bottom vm = do
  vm ← kmalloc_node vm
  kassert (leb value (length vm.pg))
  add_last value vm.frame_list vm
add_to_frame_list value other_position vm = do
  vm ← kmalloc_node vm
  kassert (leb value (length vm.pg))
  ok (1, vm)

-- The entry of a frame that has just been freed.
abbrev pub freed : Entry → Entry
freed e = record e { valid = false; pid = 0; page_number = 0 }

-- The TLB after free_kpages: a user page is removed from it.
abbrev pub tlb_without : Entry → Tlb → Tlb
tlb_without e t = if e.pid == 0 then t else remove_tlb_v1 (mul32 e.page_number 4096) t

-- free_kpages of the frame `index`, at the kernel address `paddr`
unfoldable pub free_frame : ℕ → ℕ → Vm → Outcome Vm
unfolding add_first
free_frame index paddr vm = do
  kassert (ltb index (length vm.pg))
  elim (get_elem? vm.pg index) [
    | none ↦ fault
    | some e ↦ if not e.valid then panic else do
      (code, vm) ← add_first index (record vm {
        tlb = tlb_without e vm.tlb;
        pg = set vm.pg index (freed e);
        memory = zero_fill (sub32 paddr kseg0) 4096 vm.memory;
      })
      ok vm
  ]

unfoldable pub free_kpages : ℕ → Vm → Outcome Vm
unfolding free_frame
free_kpages paddr vm =
    if not vm.started then ok vm else free_frame (sub32 (page_align paddr) kseg0 / 4096) paddr vm

unfoldable pub page_replacement : ℕ → Vm → Outcome (ℕ × Vm)
unfolding free_kpages
page_replacement page_num vm = do
  vm ← free_kpages (add32 (mul32 page_num 4096) kseg0) vm
  ok (0, vm)

-- alloc_pages: `npages` times one frame, each entered for the same address.
unfoldable pub alloc_pages : ℕ → ℕ → ℕ → Bool → Vm → Outcome (ℕ × Vm)
alloc_pages zero vaddr pid dirty vm = do kassert vm.started; ok (0, vm)
alloc_pages (suc n) vaddr pid dirty vm = do
  kassert vm.started
  (paddr, vm) ← alloc_kpages 1 vm
  if paddr == 0 then panic else do
    pg ← add_pt vm.pg (sub32 paddr kseg0 / 4096) vaddr pid dirty
    alloc_pages n vaddr pid dirty (record vm { pg = pg })
