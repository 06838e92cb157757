-- ===== src/Tests/Program.antt =====
-- A small executable, and the loads of its pages at the concrete machine.
use os22_crisologo_minichell.Base.{
  ℕ, ◌+◌, ◌≡◌, refl, arith, true, none, some, List, [], ◌∷◌, get_elem?, ok, inl, ◌>>=◌, ◌++◌,
  if◌then◌else◌, ◌==◌, find_from, false, got,
}
use os22_crisologo_minichell.Elf.{
  ElfFile, Phdr, to_ehdr, read_struct, is_loadable, read_phdr, sort_phdr, note_bss, load_elf,
  load_pages, define_from, prepare, load_from, load_one, load_segment, after_read, clean_code,
}
use os22_crisologo_minichell.Elf.Headers.{headers}
use os22_crisologo_minichell.Elf.Part.{load_elf-part}
use os22_crisologo_minichell.Elf.Bss.{load_elf-skips_data}
use os22_crisologo_minichell.Segments.{
  AddrSpace, is_data_segment, is_code_segment, is_bss_segment, in_segment,
}
use os22_crisologo_minichell.PageTable.{
  page_search, victim_page_search, victim_loop, better, is_candidate, add_pt,
}
use os22_crisologo_minichell.Tlb.{
  remove_tlb_v1, tlb_probe, holds_vpage, invalidate_tlb, invalid_slots, invalid_slot, release,
  add_tlb, find_frame, install, is_valid, write_checked, entry_lo,
}
use os22_crisologo_minichell.Frames.{
  free_kpages, free_frame, add_first, kmalloc_node, alloc_kpages, alloc_started, alloc_frames,
  check_free_frame, check_loop, take_frames, take_frame, first_addr,
}
use os22_crisologo_minichell.Swap.{
  swap_out, sf_free_search, record_out, swap_in, map_in, read_in, swapfile_checkv1, sf_page_search,
}
use os22_crisologo_minichell.Fault.{
  Process, Answer, exits, fault_read, count_fault, count_swap, count_swap_write, vm_fault, handle,
  read_absent, read_data, exchange, victim_addr, bring_in,
}
use os22_crisologo_minichell.Vm.{Vm}
use os22_crisologo_minichell.Fault.Tally.{Tally}
use os22_crisologo_minichell.Fault.Served.{Done}
use os22_crisologo_minichell.Elf.Keeps.{ReadKeeps}
use os22_crisologo_minichell.Elf.Fault.{with_elf, vm_fault-load_elf}
use os22_crisologo_minichell.Tests.State.{good_io, result_or, space, machine}

-- the file header, from byte 0 on
abbrev file_header : List ℕ
file_header =
    0x7f ∷ 69 ∷ 76 ∷ 70 ∷ 1 ∷ 2 ∷ 1 ∷ 0 ∷ 0 ∷ 0 ∷ 0 ∷ 0 ∷ 0 ∷ 0 ∷ 0 ∷ 0 ∷ 0 ∷ 2 ∷ 0 ∷ 8 ∷ 0 ∷ 0 ∷ 0
    ∷ 1 ∷ 0 ∷ 0x40 ∷ 0 ∷ 0 ∷ 0 ∷ 0 ∷ 0 ∷ 52 ∷ 0 ∷ 0 ∷ 0 ∷ 0 ∷ 0 ∷ 0 ∷ 0 ∷ 0 ∷ 0 ∷ 52 ∷ 0 ∷ 32 ∷ 0
    ∷ 2 ∷ 0 ∷ 0 ∷ 0 ∷ 0 ∷ 0 ∷ 0 ∷ []

-- the headers of a code segment of 2 KiB and a data segment of two pages
abbrev code_header : List ℕ
code_header =
    0 ∷ 0 ∷ 0 ∷ 1 ∷ 0 ∷ 0 ∷ 0x10 ∷ 0 ∷ 0 ∷ 0x40 ∷ 0 ∷ 0 ∷ 0 ∷ 0 ∷ 0 ∷ 0 ∷ 0 ∷ 0 ∷ 8 ∷ 0 ∷ 0 ∷ 0 ∷ 8
    ∷ 0 ∷ 0 ∷ 0 ∷ 0 ∷ 5 ∷ 0 ∷ 0 ∷ 0 ∷ 0 ∷ []

abbrev data_header : List ℕ
data_header =
    0 ∷ 0 ∷ 0 ∷ 1 ∷ 0 ∷ 0 ∷ 0x20 ∷ 0 ∷ 0x10 ∷ 0 ∷ 0 ∷ 0 ∷ 0 ∷ 0 ∷ 0 ∷ 0 ∷ 0 ∷ 0 ∷ 0x18 ∷ 0 ∷ 0 ∷ 0
    ∷ 0x20 ∷ 0 ∷ 0 ∷ 0 ∷ 0 ∷ 6 ∷ 0 ∷ 0 ∷ 0 ∷ 0 ∷ []

abbrev byte_at : List ℕ → ℕ → ℕ
byte_at bytes a = elim (get_elem? bytes a) [ none ↦ 0 | some b ↦ b ]

-- a file that can be read at every offset
abbrev file_of : List ℕ → ElfFile
file_of bytes = record {
  read = λ off len. (0, 0, λ a. byte_at bytes (off + a));
  read_user = λ code off addr size len vm. ok (0, 0, vm);
}

abbrev contents : List ℕ
contents = file_header ++ (code_header ++ data_header)

abbrev program : ElfFile
program = file_of contents

abbrev bytes : ℕ → ℕ
bytes a = byte_at contents (0 + a)

abbrev code_seg : Phdr
code_seg = record {
  p_type = 1;
  p_offset = 0x1000;
  p_vaddr = 0x400000;
  p_filesz = 0x800;
  p_memsz = 0x800;
  p_flags = 5;
}

abbrev data_seg : Phdr
data_seg = record {
  p_type = 1;
  p_offset = 0x2000;
  p_vaddr = 0x10000000;
  p_filesz = 0x1800;
  p_memsz = 0x2000;
  p_flags = 6;
}

program_read : read_struct program 0 52 ≡ got bytes
unfolding read_struct
program_read = refl

program_loadable : is_loadable (to_ehdr bytes) ≡ true
unfolding is_loadable
program_loadable = refl

segments :
    headers program (to_ehdr bytes) 0 (to_ehdr bytes).e_phnum ≡ got (code_seg ∷ data_seg ∷ [])
unfolding headers read_phdr read_struct sort_phdr
segments = refl

-- the machine's address space after the whole program has been loaded
abbrev loaded_space : AddrSpace
loaded_space = record space { vbase_bss = 0x10000002 }

load_elf-part_example : load_elf 2 program 0x10000000 1 loaded_space machine ≡ (
    load_pages 2 program 0x10000000 1 data_seg loaded_space machine >>= λ r.
    ok (if r.0 == 0 then some 0x400000 else none, (r.0, r.1, r.2)))
unfolding is_data_segment is_code_segment is_bss_segment in_segment
load_elf-part_example =
    load_elf-part 2 program 0x10000000 1 (omega arith) bytes program_read program_loadable
      (code_seg ∷ data_seg ∷ []) segments loaded_space machine (code_seg ∷ []) data_seg [] refl
      (refl, tt) refl tt (inl (omega arith))

-- The second page of the data segment has 2 KiB in the file, which are not read.
load_elf-skips_data_example :
    load_elf 2 program 0x10001000 1 (note_bss 0x10000000 0x1800 space) machine
    ≡ ok (some 0x400000, (0, note_bss 0x10000000 0x1800 space, machine))
unfolding is_data_segment is_code_segment in_segment
load_elf-skips_data_example =
    load_elf-skips_data 2 program 0x10001000 1 0x10000000 0x1800 space machine bytes
      (code_seg ∷ data_seg ∷ []) program_read program_loadable segments refl refl (omega arith)
      (omega arith) refl refl

-- the machine before any page of process 2 has been swapped out
abbrev swap_empty : Vm
swap_empty = record machine {
  sf_list = record { p_number = 0; p_pid = 0; p_offset = 0; dirty = false } ∷ [];
}

abbrev owner : Process
owner = record {
  space = some (record space { vbase_bss = 0x10002000 });
  pid = 2;
  open_result = 0;
  load = λ start vm. ok (0, vm);
  io_out = good_io;
  io_in = good_io;
}

program_reads : (n : ℕ) → ReadKeeps (Tally n) program
program_reads n code off addr size len vm t = t

swap_empty-Tally : Tally 0 swap_empty.stats
swap_empty-Tally = record { faults = refl; disk = refl; served = refl }

-- a read of the second page of the data segment
abbrev read_elf : Answer × Vm
read_elf =
    result_or (vm_fault (with_elf owner program) fault_read 0x10001008 swap_empty)
      (exits, swap_empty)

read_elf_ok : vm_fault (with_elf owner program) fault_read 0x10001008 swap_empty ≡ ok read_elf
unfolding count_fault count_swap count_swap_write vm_fault handle read_absent read_data exchange
    victim_addr bring_in page_search find_from is_data_segment is_code_segment in_segment
    victim_page_search victim_loop better is_candidate add_pt swap_out sf_free_search record_out
    swap_in map_in read_in swapfile_checkv1 sf_page_search free_kpages free_frame add_first
    kmalloc_node alloc_kpages alloc_started alloc_frames check_free_frame check_loop take_frames
    take_frame first_addr remove_tlb_v1 tlb_probe holds_vpage invalidate_tlb invalid_slots
    invalid_slot release add_tlb find_frame install is_valid write_checked entry_lo load_elf
    define_from prepare load_from load_one load_pages load_segment after_read clean_code note_bss
    read_phdr read_struct sort_phdr is_loadable is_bss_segment
read_elf_ok = refl

vm_fault-load_elf_example : Done 0 read_elf
vm_fault-load_elf_example =
    vm_fault-load_elf 0 owner program fault_read 0x10001008 swap_empty program_reads (λ e. refl)
      read_elf_ok swap_empty-Tally
