-- ===== src/Swap.antt =====
-- vm/swapfile.c: the table of the swap file's pages, and the moves of a page to the file and back.
-- The file itself is a parameter: what vfs_open and the transfer return. A transfer that returns 0
-- has moved the whole page, and one that returns an error has moved nothing.
pub mod Out
pub mod RoundTrip
pub mod Keeps
use os22_crisologo_minichell.Base.{
  ℕ, zero, suc, ◌+◌, ◌/◌, Bool, false, not, ◌&&◌, List, [], ◌∷◌, Option, none, some, ltb, ◌==◌,
  if◌then◌else◌, get_elem?, set, find_from, kseg0, sub32, mul32, Outcome, ok, panic, fault, ◌>>=◌,
}
use os22_crisologo_minichell.PageTable.{Entry, add_pt}
use os22_crisologo_minichell.Tlb.{add_tlb}
use os22_crisologo_minichell.Vm.{SwapSlot, Vm, copy_bytes}
use os22_crisologo_minichell.Frames.{alloc_kpages, free_kpages}

-- SWAPFILE_SIZE: 9 * 1024 * 1024 / 4096
abbrev pub swapfile_size : ℕ
swapfile_size = 2304

-- -1 as an int
abbrev pub minus_one : ℕ
minus_one = 0xffffffff

-- The results of vfs_open and of VOP_READ or VOP_WRITE in one call.
pub record Io : Type 0 where
  pub open_result : ℕ
  pub transfer_result : ℕ

abbrev pub empty_slot : ℕ → SwapSlot
empty_slot i = record { p_number = 0; p_pid = 0; p_offset = i; dirty = false }

unfoldable pub empty_slots : ℕ → ℕ → List SwapSlot
empty_slots i zero = []
empty_slots i (suc n) = empty_slot i ∷ empty_slots (i + 1) n

unfoldable pub swapfile_init : Io → Vm → Outcome Vm
unfolding empty_slots
swapfile_init io vm =
    if io.open_result == 0 then ok (record vm { sf_list = empty_slots 0 swapfile_size }) else panic

-- the test of sf_pageSearch
abbrev pub holds_swapped : ℕ → ℕ → SwapSlot → Bool
holds_swapped page pid s = page == s.p_number && pid == s.p_pid

unfoldable pub sf_page_search : List SwapSlot → ℕ → ℕ → Option ℕ
sf_page_search sf page pid = find_from (holds_swapped page pid) sf 0

-- the test of sf_freeSearch
abbrev pub is_free_slot : SwapSlot → Bool
is_free_slot s = s.p_number == 0 && s.p_pid == 0

unfoldable pub sf_free_search : List SwapSlot → Option ℕ
sf_free_search sf = find_from is_free_slot sf 0

unfoldable pub swapfile_checkv1 : List SwapSlot → ℕ → ℕ → Option ℕ
unfolding sf_page_search
swapfile_checkv1 sf page pid = elim (sf_page_search sf page pid) [ none ↦ none | some i ↦ some i ]

-- The slot of a page that has been written out.
abbrev pub swapped : Entry → SwapSlot → SwapSlot
swapped e s = record s { p_number = e.page_number; p_pid = e.pid; dirty = e.dirty }

abbrev pub cleared : SwapSlot → SwapSlot
cleared s = record s { p_number = 0; p_pid = 0; dirty = false }

-- swapOut from the table's update on: the page at `addr` has been written to the slot `s`.
unfoldable pub record_out : ℕ → ℕ → SwapSlot → Vm → Outcome (ℕ × Vm)
record_out addr index s vm = elim (get_elem? vm.pg (sub32 addr kseg0 / 4096)) [
  | none ↦ fault
  | some e ↦ do
    vm ← free_kpages addr (record vm { sf_list = set vm.sf_list index (swapped e s) })
    ok (0, vm)
]

-- swapOut of the frame at the kernel address `addr`
unfoldable pub swap_out : Io → ℕ → Vm → Outcome (ℕ × Vm)
unfolding sf_free_search record_out
swap_out io addr vm = elim (sf_free_search vm.sf_list) [
  | none ↦ panic
  | some index ↦ elim (get_elem? vm.sf_list index) [
    | none ↦ fault
    | some s ↦
        if ltb 0 io.open_result
        then panic
        else if not (io.transfer_result == 0)
        then ok (minus_one, vm)
        else record_out addr index s (record vm {
          disk = copy_bytes vm.memory (sub32 addr kseg0) vm.disk (mul32 s.p_offset 4096) 4096;
        })
  ]
]

-- swapIn from vfs_open on: the page of the slot `s` is read into the frame at `addr`.
unfoldable pub read_in : Io → ℕ → ℕ → SwapSlot → Vm → Outcome (ℕ × Vm)
read_in io addr index s vm =
    if ltb 0 io.open_result
    then panic
    else if not (io.transfer_result == 0)
    then ok (minus_one, vm)
    else ok (
      0,
      record vm {
        memory = copy_bytes vm.disk (mul32 s.p_offset 4096) vm.memory (sub32 addr kseg0) 4096;
        sf_list = set vm.sf_list index (cleared s);
      },
    )

-- swapIn after its frame has been allocated
unfoldable pub map_in : Io → ℕ → ℕ → SwapSlot → Vm → Outcome (ℕ × Vm)
unfolding read_in
map_in io addr index s vm = do
  pg ← add_pt vm.pg (sub32 addr kseg0 / 4096) (mul32 s.p_number 4096) s.p_pid s.dirty
  tlb ← add_tlb pg (mul32 s.p_number 4096) s.p_pid vm.tlb
  read_in io addr index s (record vm { pg = pg; tlb = tlb })

unfoldable pub swap_in : Io → ℕ → Vm → Outcome (ℕ × Vm)
unfolding map_in
swap_in io index vm = do
  (addr, vm) ← alloc_kpages 1 vm
  if addr == 0
      then panic
      else elim (get_elem? vm.sf_list index) [ none ↦ fault | some s ↦ map_in io addr index s vm ]
