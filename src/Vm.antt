-- ===== src/Vm.antt =====
-- The state of the VM system: the variables of vm/pt.c, vm_tlb.c, swapfile.c and vmstats.c, physical
-- memory and the swap file's bytes.
use os22_crisologo_minichell.Base.{ℕ, Bool, List, ◌+◌, ◌-◌, leb, ltb, if◌then◌else◌}
use os22_crisologo_minichell.PageTable.{Entry}
use os22_crisologo_minichell.Tlb.{Tlb}
use os22_crisologo_minichell.Ram.{Ram}

-- struct list_param
pub record SwapSlot : Type 0 where
  pub p_number : ℕ
  pub p_pid : ℕ
  pub p_offset : ℕ
  pub dirty : Bool

-- The counters of vm/vmstats.c. TLB_Invalidations stands in the TLB's record.
pub record Stats : Type 0 where
  pub tlb_faults : ℕ
  pub tlb_faults_wfree : ℕ
  pub tlb_faults_wreplace : ℕ
  pub tlb_reloads : ℕ
  pub pf_zeroed : ℕ
  pub pf_disk : ℕ
  pub pf_elf : ℕ
  pub pf_swapfile : ℕ
  pub sf_writes : ℕ

-- `pg` is main_PG, with PAGETABLE_ENTRY entries, and `pg_base` the physical address of that array.
-- `frame_list` holds the frame numbers of the linked list, first node first. `node_blocks` is the
-- number of blocks that kmalloc has left for its nodes. `memory` and `disk` give the byte at a
-- physical address and at an offset of the swap file.
pub record Vm : Type 0 where
  pub pg : List Entry
  pub pg_base : ℕ
  pub pt_counter : ℕ
  pub frame_list : List ℕ
  pub node_blocks : ℕ
  pub tlb : Tlb
  pub sf_list : List SwapSlot
  pub memory : ℕ → ℕ
  pub disk : ℕ → ℕ
  pub ram : Ram
  pub started : Bool
  pub stats : Stats

-- `memset(base, 0, n)`
abbrev pub zero_fill : ℕ → ℕ → (ℕ → ℕ) → ℕ → ℕ
zero_fill base n m a = if leb base a then (if ltb a (base + n) then 0 else m a) else m a

-- `n` bytes from `from` in `src` copied to `to` in `dst`
abbrev pub copy_bytes : (ℕ → ℕ) → ℕ → (ℕ → ℕ) → ℕ → ℕ → ℕ → ℕ
copy_bytes src from dst to n a =
    if leb to a then (if ltb a (to + n) then src (from + (a - to)) else dst a) else dst a
