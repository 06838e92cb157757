-- ===== src/Boot.antt =====
-- vm_bootstrap of vm/vm.c: the page table is laid out at the top of memory, the frames below the
-- kernel's end and those of the table are reserved, and the others are put on the frame list.
pub mod Layout
pub mod Wf
use os22_crisologo_minichell.Base.{
  ℕ, zero, suc, ◌+◌, ◌-◌, ◌*◌, ◌/◌, Bool, true, false, Option, none, some, List, [], ◌∷◌, ◌==◌,
  if◌then◌else◌, get_elem?, set, replicate, page_align, sub32, mul32, Outcome, ok, panic, ◌>>=◌,
  ◌>>◌,
}
use os22_crisologo_minichell.PageTable.{Entry}
use os22_crisologo_minichell.Tlb.{Tlb, num_tlb, invalid_slots}
use os22_crisologo_minichell.Ram.{ram_getsize, ram_getfirstfree}
use os22_crisologo_minichell.Vm.{Vm}
use os22_crisologo_minichell.Frames.{add_bottom, add_to_frame_list}
use os22_crisologo_minichell.Swap.{Io, swapfile_init}

-- `PTLR`, sizeof(struct invertedPT)
abbrev pub ptlr : ℕ
ptlr = 12

-- an entry after memset
abbrev pub empty_entry : Entry
empty_entry = record { dirty = false; valid = false; pid = 0; page_number = 0; victim_counter = 0 }

-- The three assignments of a reserving loop. Its indices are in range, by `Layout`.
unfoldable pub reserve : List Entry → ℕ → List Entry
reserve pg i = elim (get_elem? pg i) [
  | none ↦ pg
  | some e ↦ set pg i (record e { page_number = 0; pid = 0; valid = true })
]

-- the entries 0, ..., n - 1
unfoldable pub reserve_low : ℕ → List Entry → List Entry
unfolding reserve
reserve_low zero pg = pg
reserve_low (suc n) pg = reserve (reserve_low n pg) n

-- the entries `entries - 1`, ..., `entries - n`
unfoldable pub reserve_high : ℕ → ℕ → List Entry → List Entry
unfolding reserve
reserve_high entries zero pg = pg
reserve_high entries (suc n) pg = reserve (reserve_high entries n pg) (entries - 1 - n)

-- the frames `i`, ..., `i + n - 1`
unfoldable pub fill_from : ℕ → ℕ → Vm → Outcome Vm
fill_from i zero vm = ok vm
fill_from i (suc n) vm = do
  (err, vm) ← add_to_frame_list i add_bottom vm
  (if err == 0 then fill_from (i + 1) n vm else panic)

-- the loop that fills the TLB with invalid entries
unfoldable pub boot_tlb : Tlb → Tlb
boot_tlb t = record t { slots = invalid_slots 0 num_tlb; free = num_tlb }

-- the physical address of main_PG, for a memory of the given size
abbrev pub location : ℕ → ℕ
location size = page_align (sub32 size (mul32 (size / 4096) ptlr))

-- the number of frames that main_PG takes
abbrev pub table_frames : ℕ → ℕ
table_frames size = sub32 size (location size) / 4096

-- The state before the frame list is filled.
unfoldable pub laid_out : Vm → Vm
unfolding reserve_low reserve_high boot_tlb ram_getsize ram_getfirstfree
laid_out vm =
    let size = ram_getsize vm.ram in
    let (first, ram) = ram_getfirstfree vm.ram in
    record vm {
      pg =
          reserve_high (size / 4096) (table_frames size)
            (reserve_low (first / 4096) (replicate (size / 4096) empty_entry));
      pg_base = location size;
      tlb = boot_tlb vm.tlb;
      ram = ram;
    }

unfoldable pub vm_bootstrap : Io → Vm → Outcome Vm
unfolding ram_getsize
vm_bootstrap io vm = do
  booted ← swapfile_init io (laid_out vm)
  fill_from (vm.ram.firstpaddr / 4096)
      (ram_getsize vm.ram / 4096 - table_frames (ram_getsize vm.ram) - vm.ram.firstpaddr / 4096)
      (record booted { started = true })
