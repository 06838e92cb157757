-- ===== src/Space.antt =====
-- vm/addrspace.c: the address space of a process over the frames. Memory for the structure itself
-- comes from kmalloc; a new one holds what was in that memory where as_create sets nothing.
pub mod Region
pub mod Destroy
pub mod Activate
use os22_crisologo_minichell.Base.{
  ℕ, zero, suc, ◌+◌, ◌-◌, ◌*◌, ◌/◌, ◌%◌, ◌^◌, Bool, true, false, not, ◌&&◌, Option, none, some,
  List, ltb, ◌==◌, if◌then◌else◌, length, get_elem?, kseg0, add32, mul32, Outcome, ok, panic, fault,
  ◌>>=◌, ◌>>◌, kassert,
}
use os22_crisologo_minichell.Segments.{AddrSpace}
use os22_crisologo_minichell.PageTable.{Entry}
use os22_crisologo_minichell.Tlb.{Tlb, add_tlb, invalidate_tlb}
use os22_crisologo_minichell.Vm.{Vm}
use os22_crisologo_minichell.Frames.{free_kpages, alloc_pages}

abbrev pub max_code_pages : ℕ
max_code_pages = 16

abbrev pub max_data_pages : ℕ
max_data_pages = 100

-- `memory` is what the new block holds; `none` is a NULL from kmalloc.
unfoldable pub as_create : Option AddrSpace → Outcome AddrSpace
as_create none = panic
as_create (some memory) = ok (record memory {
  vbase_code = 0;
  npages_code = 0;
  vbase_data = 0;
  npages_data = 0;
  vbase_bss = 0;
  vbase_stack = 0;
})

-- The new address space is empty, whatever the old one holds.
unfoldable pub as_copy : AddrSpace → Option AddrSpace → Outcome AddrSpace
as_copy old memory = as_create memory

-- the test of as_destroy
abbrev pub is_owned : ℕ → Entry → Bool
is_owned pid e = e.pid == pid && e.valid

-- The loop of as_destroy over the `n` indices from `i` on.
unfoldable pub destroy_from : ℕ → ℕ → ℕ → Vm → Outcome Vm
destroy_from pid i zero vm = ok vm
destroy_from pid i (suc n) vm = elim (get_elem? vm.pg i) [
  | none ↦ fault
  | some e ↦
      (if is_owned pid e then free_kpages (add32 (mul32 i 4096) kseg0) vm else ok vm)
      >>= destroy_from pid (i + 1) n
]

unfoldable pub as_destroy : ℕ → Vm → Outcome Vm
unfolding destroy_from
as_destroy pid vm = do
  vm ← destroy_from pid 0 (length vm.pg) vm
  ok (record vm { tlb = invalidate_tlb vm.tlb })

-- `TLB_PID = curproc->pid`: the variable is a _Bool.
abbrev pub to_bool : ℕ → ℕ
to_bool pid = if pid == 0 then 0 else 1

-- The result is TLB_PID and the TLB.
unfoldable pub as_activate : Option AddrSpace → ℕ → ℕ → Tlb → ℕ × Tlb
as_activate none pid tlb_pid t = (tlb_pid, t)
as_activate (some space) pid tlb_pid t =
    if pid == tlb_pid then (tlb_pid, t) else (to_bool pid, invalidate_tlb t)

-- `if (freeTLBEntries) addTLB(...)`
unfoldable pub cache_page : ℕ → ℕ → Vm → Outcome Vm
cache_page pid addr vm =
    if vm.tlb.free == 0
    then ok vm
    else (add_tlb vm.pg addr pid vm.tlb >>= (λ t. ok (record vm { tlb = t })))

-- One round of the loops of as_define_region: a page, and a TLB slot if one is free.
unfoldable pub define_page : ℕ → ℕ → Vm → Outcome Vm
unfolding cache_page
define_page pid addr vm = do
  (err, vm) ← alloc_pages 1 addr pid true vm
  (if err == 0 then cache_page pid addr vm else panic)

-- the rounds `i`, ..., `i + n - 1`
unfoldable pub define_pages : ℕ → ℕ → ℕ → ℕ → Vm → Outcome Vm
unfolding define_page
define_pages pid base i zero vm = ok vm
define_pages pid base i (suc n) vm =
    define_page pid (add32 base (mul32 i 4096)) vm >>= define_pages pid base (i + 1) n

-- `memsize/PAGE_SIZE + 1`, as a uint16_t
abbrev pub pages_for : ℕ → ℕ
pages_for memsize = (memsize / 4096 + 1) % 2 ^ 16

unfoldable pub code_region : ℕ → ℕ → AddrSpace → AddrSpace
code_region vaddr memsize space = record space {
  vbase_code = vaddr;
  npages_code = pages_for memsize;
  npages_code_loaded =
      if ltb max_code_pages (pages_for memsize) then max_code_pages else pages_for memsize;
}

-- MAX_PAGES_PER_PROCESS - (as_npages_code_loaded - MAX_STACK_SEGMENT_PAGES), as a uint16_t
unfoldable pub data_region : ℕ → ℕ → AddrSpace → AddrSpace
data_region vaddr memsize space = record space {
  vbase_data = vaddr;
  npages_data = pages_for memsize;
  npages_data_loaded =
      if ltb max_data_pages (pages_for memsize)
      then (136 + 2 ^ 16 - space.npages_code_loaded) % 2 ^ 16
      else pages_for memsize;
}

unfoldable pub as_define_region :
    ℕ → ℕ → ℕ → (readable writeable executable : Bool) → AddrSpace → Vm → Outcome (AddrSpace × Vm)
unfolding code_region data_region define_pages
as_define_region pid vaddr memsize readable writeable true space vm = do
  let space' = code_region vaddr memsize space
  vm ← define_pages pid vaddr 0 space'.npages_code_loaded vm
  ok (space', vm)
as_define_region pid vaddr memsize readable false false space vm = panic
as_define_region pid vaddr memsize false true false space vm = panic
as_define_region pid vaddr memsize true true false space vm = do
  let space' = data_region vaddr memsize space
  vm ← define_pages pid vaddr 0 space'.npages_data_loaded vm
  ok (space', vm)

-- One page for the stack, at the end of the data segment.
unfoldable pub as_prepare_load : ℕ → AddrSpace → Vm → Outcome (AddrSpace × Vm)
as_prepare_load pid space vm = do
  let base = add32 space.vbase_data (4096 * space.npages_data)
  (err, vm) ← alloc_pages 1 base pid true vm
  (if err == 0 then ok (record space { vbase_stack = base }, vm) else panic)

-- The initial stack pointer.
unfoldable pub as_define_stack : AddrSpace → Outcome ℕ
as_define_stack space = kassert (not (space.vbase_stack == 0)) >> ok space.vbase_stack
