-- ===== src/Fault.antt =====
-- vm_fault of vm/vm.c. The process is a parameter: its address space and pid, what vfs_open returns
-- for its executable, and load_elf at a page of it; so are the swap file's results. The timing of the
-- fault (gettime) is not modelled.
pub mod Tally
pub mod Served
use os22_crisologo_minichell.Base.{
  ℕ, ◌+◌, ◌*◌, ◌/◌, Bool, true, false, not, List, Option, none, some, ltb, ◌==◌, if◌then◌else◌,
  kseg0, efault, einval, page_align, add32, sub32, mul32, Outcome, ok, panic, fault, ◌>>=◌, ◌>>◌,
}
use os22_crisologo_minichell.Segments.{AddrSpace, is_code_segment, is_data_segment}
use os22_crisologo_minichell.PageTable.{
  Entry, Kind, code_kind, data_kind, page_search, add_pt, victim_page_search,
}
use os22_crisologo_minichell.Tlb.{add_tlb, is_positive}
use os22_crisologo_minichell.Vm.{Vm, Stats}
use os22_crisologo_minichell.Frames.{alloc_kpages, free_kpages}
use os22_crisologo_minichell.Swap.{Io, swapfile_checkv1, swap_out, swap_in}

-- VM_FAULT_READ, VM_FAULT_WRITE, VM_FAULT_READONLY, and any other number
pub data FaultType : Type 0 where
  fault_read fault_write fault_readonly fault_other : FaultType

-- vm_fault returns an int, or ends the process by sys__exit(0).
pub data Answer : Type 0 where
  code : ℕ → Answer
  exits : Answer

-- `open_result` is that of vfs_open(curproc->p_name); `load start vm` is load_elf(v, _, start, 1).
pub record Process : Type 0 where
  pub space : Option AddrSpace
  pub pid : ℕ
  pub open_result : ℕ
  pub load : ℕ → Vm → Outcome (ℕ × Vm)
  pub io_out : Io
  pub io_in : Io

abbrev with_stats : (Stats → Stats) → Vm → Vm
with_stats f vm = record vm { stats = f vm.stats }

-- TLB_Faults++, and the counter for a free or a full TLB
unfoldable pub count_fault : ℕ → Stats → Stats
count_fault free s =
    if free == 0
    then record s {
      tlb_faults = add32 s.tlb_faults 1;
      tlb_faults_wreplace = add32 s.tlb_faults_wreplace 1;
    }
    else record s {
      tlb_faults = add32 s.tlb_faults 1;
      tlb_faults_wfree = add32 s.tlb_faults_wfree 1;
    }

unfoldable pub uncount_fault : ℕ → Stats → Stats
uncount_fault free s =
    if free == 0
    then record s {
      tlb_faults = sub32 s.tlb_faults 1;
      tlb_faults_wreplace = sub32 s.tlb_faults_wreplace 1;
    }
    else record s {
      tlb_faults = sub32 s.tlb_faults 1;
      tlb_faults_wfree = sub32 s.tlb_faults_wfree 1;
    }

unfoldable pub count_reload : Stats → Stats
count_reload s = record s { tlb_reloads = add32 s.tlb_reloads 1 }

unfoldable pub count_elf : Stats → Stats
count_elf s = record s { pf_elf = add32 s.pf_elf 1; pf_disk = add32 s.pf_disk 1 }

unfoldable pub count_swap : Stats → Stats
count_swap s = record s { pf_swapfile = add32 s.pf_swapfile 1; pf_disk = add32 s.pf_disk 1 }

unfoldable pub count_swap_write : Stats → Stats
count_swap_write s = record s { sf_writes = add32 s.sf_writes 1 }

-- `victim_page * PAGE_SIZE + MIPS_KSEG0`, where noEntryFound is -1
unfoldable pub victim_addr : Option ℕ → ℕ
victim_addr none = add32 (mul32 0xffffffff 4096) kseg0
victim_addr (some v) = add32 (mul32 v 4096) kseg0

module _ (p : Process) (space : AddrSpace) where
  -- vfs_open, load_elf and the counters after addPT
  unfoldable pub from_elf : ℕ → Vm → Outcome (Answer × Vm)
  unfolding count_elf
  from_elf addr vm =
      if p.open_result == 0
      then p.load addr vm >>= (λ (err, vm).
        ok (if err == 0 then (code 0, with_stats count_elf vm) else (code err, vm)))
      else ok (code p.open_result, vm)

  -- addPT of the new frame, and the page from the executable
  unfoldable pub load_page : ℕ → ℕ → Vm → Outcome (Answer × Vm)
  unfolding from_elf
  load_page addr frame_addr vm = do
    pg ← add_pt vm.pg (sub32 frame_addr kseg0 / 4096) (page_align addr) p.pid true
    from_elf addr (record vm { pg = pg })

  -- the victim among the code pages is dropped
  unfoldable pub drop_code : Option ℕ → Vm → Outcome (ℕ × Vm)
  drop_code none vm = panic
  drop_code (some v) vm = do vm ← free_kpages (add32 (mul32 v 4096) kseg0) vm; alloc_kpages 1 vm

  unfoldable pub code_frame : Vm → Outcome (ℕ × Vm)
  unfolding drop_code
  code_frame vm = do
    (addr, vm) ← alloc_kpages 1 vm
    (if addr == 0
        then drop_code (victim_page_search code_kind space p.pid vm.pg) vm
        else ok (addr, vm))

  -- the victim among the data pages is swapped out; the result of swapOut is not looked at
  unfoldable pub evict_data : Option ℕ → Vm → Outcome (ℕ × Vm)
  unfolding victim_addr count_swap_write
  evict_data v vm = do
    (err, vm) ← swap_out p.io_out (victim_addr v) vm
    alloc_kpages 1 (with_stats count_swap_write vm)

  unfoldable pub data_frame : Vm → Outcome (ℕ × Vm)
  unfolding evict_data
  data_frame vm = do
    (addr, vm) ← alloc_kpages 1 vm
    (if addr == 0
        then evict_data (victim_page_search data_kind space p.pid vm.pg) vm
        else ok (addr, vm))

  -- The same on a write fault, which panics when there is no victim.
  unfoldable pub evict_found : Option ℕ → Vm → Outcome (ℕ × Vm)
  unfolding evict_data
  evict_found none vm = panic
  evict_found (some v) vm = evict_data (some v) vm

  unfoldable pub data_frame_write : Vm → Outcome (ℕ × Vm)
  unfolding evict_found
  data_frame_write vm = do
    (addr, vm) ← alloc_kpages 1 vm
    (if addr == 0
        then evict_found (victim_page_search data_kind space p.pid vm.pg) vm
        else ok (addr, vm))

  -- swapIn of the slot, with the counters; its result is not looked at
  unfoldable pub bring_in : ℕ → Vm → Outcome (Answer × Vm)
  unfolding count_swap_write count_swap
  bring_in index vm = do
    (err, vm) ← swap_in p.io_in index (with_stats count_swap_write vm)
    ok (code 0, with_stats count_swap vm)

  -- The page is in the swap file: the victim goes out and the page comes in. A failing swapOut makes a
  -- read fault return 1 and a write fault return 0; here `on_error` is that number.
  unfoldable pub exchange : ℕ → ℕ → Vm → Outcome (Answer × Vm)
  unfolding bring_in victim_addr
  exchange on_error index vm = do
    (err, vm) ← swap_out p.io_out (victim_addr (victim_page_search data_kind space p.pid vm.pg)) vm
    (if err == 0 then bring_in index vm else ok (code on_error, vm))

  unfoldable pub read_data : Option ℕ → ℕ → Vm → Outcome (Answer × Vm)
  unfolding data_frame load_page exchange
  read_data none addr vm = do (frame_addr, vm) ← data_frame vm; load_page addr frame_addr vm
  read_data (some index) addr vm = exchange 1 index vm

  unfoldable pub write_data : Option ℕ → ℕ → Vm → Outcome (Answer × Vm)
  unfolding data_frame_write load_page exchange
  write_data none addr vm = do (frame_addr, vm) ← data_frame_write vm; load_page addr frame_addr vm
  write_data (some index) addr vm = exchange 0 index vm

  unfoldable pub read_code : ℕ → Vm → Outcome (Answer × Vm)
  unfolding code_frame load_page
  read_code addr vm = do (frame_addr, vm) ← code_frame vm; load_page addr frame_addr vm

  -- addTLB for a page that is present
  unfoldable pub reload : ℕ → Vm → Outcome (Answer × Vm)
  unfolding count_reload
  reload addr vm = do
    tlb ← add_tlb vm.pg addr p.pid vm.tlb
    ok (code 0, with_stats count_reload (record vm { tlb = tlb }))

  -- VM_FAULT_READ of a page that pageSearch does not find, or finds in frame 0
  unfoldable pub read_absent : ℕ → Vm → Outcome (Answer × Vm)
  unfolding read_code read_data
  read_absent addr vm =
      if is_code_segment addr space
      then read_code (page_align addr) vm
      else if is_data_segment addr space
      then read_data (swapfile_checkv1 vm.sf_list (addr / 4096) p.pid) (page_align addr) vm
      else ok (code einval, vm)

  unfoldable pub write_absent : ℕ → Vm → Outcome (Answer × Vm)
  unfolding write_data
  write_absent addr vm =
      if is_code_segment addr space
      then panic
      else if is_data_segment addr space
      then write_data (swapfile_checkv1 vm.sf_list (addr / 4096) p.pid) (page_align addr) vm
      else ok (code 1, vm)

  -- the switch of vm_fault
  unfoldable pub handle : FaultType → ℕ → Vm → Outcome (Answer × Vm)
  unfolding read_absent write_absent reload uncount_fault
  handle fault_readonly addr vm = ok (exits, with_stats (uncount_fault vm.tlb.free) vm)
  handle fault_read addr vm =
      if is_positive (page_search vm.pg addr)
      then reload (page_align addr) vm
      else read_absent addr vm
  handle fault_write addr vm = elim (page_search vm.pg addr) [
    | none ↦ write_absent addr vm
    | some i ↦ reload addr vm
  ]
  handle fault_other addr vm = ok (code einval, vm)

unfoldable pub vm_fault : Process → FaultType → ℕ → Vm → Outcome (Answer × Vm)
unfolding handle count_fault
vm_fault p kind addr vm = elim (p.space) [
  | none ↦ ok (code efault, vm)
  | some space ↦ handle p space kind addr (with_stats (count_fault vm.tlb.free) vm)
]
