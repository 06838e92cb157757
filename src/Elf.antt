-- ===== src/Elf.antt =====
-- syscall/loadelf.c: load_segment and load_elf over the headers of include/elf.h. The file is a
-- parameter: what VOP_READ gives into kernel memory, and what it does to the VM system when it reads
-- into user memory, where it may fault on the user's pages.
pub mod Headers
pub mod Part
pub mod Bss
pub mod Regions
pub mod Keeps
pub mod Fault
use os22_crisologo_minichell.Base.{
  ℕ, zero, suc, ◌+◌, ◌*◌, ◌/◌, ◌%◌, ◌^◌, Bool, true, false, not, ◌&&◌, Option, none, some, List,
  ◌==◌, ltb, if◌then◌else◌, add32, sub32, mul32, enoexec, get_elem?, set, Outcome, ok, panic, fault,
  ◌>>=◌, Got, err, got, Got-cases,
}
use os22_crisologo_minichell.Segments.{AddrSpace, is_code_segment, is_data_segment, is_bss_segment}
use os22_crisologo_minichell.PageTable.{Entry, page_search}
use os22_crisologo_minichell.Tlb.{add_tlb, remove_tlb_v1}
use os22_crisologo_minichell.Vm.{Vm}
use os22_crisologo_minichell.Space.{
  as_define_region, as_prepare_load, max_code_pages, max_data_pages,
}

-- `read offset length` is VOP_READ into kernel memory: its result, the bytes it did not read, and
-- those it read. `read_user` is VOP_READ into user memory: whether it is code, the offset, the
-- address, the length of the memory and the bytes to read.
pub record ElfFile : Type 0 where
  pub read : ℕ → ℕ → ℕ × ℕ × (ℕ → ℕ)
  pub read_user : Bool → ℕ → ℕ → ℕ → ℕ → Vm → Outcome (ℕ × ℕ × Vm)

-- big-endian fields
abbrev pub be16 : (ℕ → ℕ) → ℕ → ℕ
be16 m a = m a * 256 + m (a + 1)

abbrev pub be32 : (ℕ → ℕ) → ℕ → ℕ
be32 m a = be16 m a * 65536 + be16 m (a + 2)

pub record Ehdr : Type 0 where
  pub e_ident : ℕ → ℕ
  pub e_type : ℕ
  pub e_machine : ℕ
  pub e_version : ℕ
  pub e_entry : ℕ
  pub e_phoff : ℕ
  pub e_phentsize : ℕ
  pub e_phnum : ℕ

pub record Phdr : Type 0 where
  pub p_type : ℕ
  pub p_offset : ℕ
  pub p_vaddr : ℕ
  pub p_filesz : ℕ
  pub p_memsz : ℕ
  pub p_flags : ℕ

abbrev pub to_ehdr : (ℕ → ℕ) → Ehdr
to_ehdr m = record {
  e_ident = m;
  e_type = be16 m 16;
  e_machine = be16 m 18;
  e_version = be32 m 20;
  e_entry = be32 m 24;
  e_phoff = be32 m 28;
  e_phentsize = be16 m 42;
  e_phnum = be16 m 44;
}

abbrev pub to_phdr : (ℕ → ℕ) → Phdr
to_phdr m = record {
  p_type = be32 m 0;
  p_offset = be32 m 4;
  p_vaddr = be32 m 8;
  p_filesz = be32 m 16;
  p_memsz = be32 m 20;
  p_flags = be32 m 24;
}

-- A read into kernel memory, and its two checks.
unfoldable pub read_struct : ElfFile → ℕ → ℕ → Got (ℕ → ℕ)
read_struct file offset len =
    let (result, resid, bytes) = file.read offset len in
    if result == 0 then (if resid == 0 then got bytes else err enoexec) else err result

-- A 32-bit big-endian MIPS executable of ELF version 1.
unfoldable pub is_loadable : Ehdr → Bool
is_loadable eh =
    eh.e_ident 0 == 0x7f
    && eh.e_ident 1 == 69
    && eh.e_ident 2 == 76
    && eh.e_ident 3 == 70
    && eh.e_ident 4 == 1
    && eh.e_ident 5 == 2
    && eh.e_ident 6 == 1
    && eh.e_version == 1
    && eh.e_type == 2
    && eh.e_machine == 8

-- The switch on p_type: PT_NULL, PT_PHDR and PT_MIPS_REGINFO are passed over, PT_LOAD is taken.
unfoldable pub sort_phdr : Phdr → Got (Option Phdr)
sort_phdr ph =
    if ph.p_type == 0
    then got none
    else if ph.p_type == 6
    then got none
    else if ph.p_type == 0x70000000
    then got none
    else if ph.p_type == 1
    then got (some ph)
    else err enoexec

-- The program header `i`, if it is to be loaded.
unfoldable pub read_phdr : ElfFile → Ehdr → ℕ → Got (Option Phdr)
unfolding read_struct sort_phdr
read_phdr file eh i = elim (read_struct file (add32 eh.e_phoff (mul32 i eh.e_phentsize)) 32) [
  | err e ↦ err e
  | got bytes ↦ sort_phdr (to_phdr bytes)
]

abbrev pub flag : ℕ → ℕ → Bool
flag bit flags = flags / bit % 2 == 1

-- What the loops return: the result, the address space and the VM system.
abbrev pub Loaded : Type 0
Loaded = ℕ × AddrSpace × Vm

-- `if (result) return result;`
abbrev pub continue : Loaded → (AddrSpace → Vm → Outcome Loaded) → Outcome Loaded
continue (result, space, vm) rest = if result == 0 then rest space vm else ok (result, space, vm)

-- The first page of the bss segment, set once.
unfoldable pub note_bss : ℕ → ℕ → AddrSpace → AddrSpace
note_bss vaddr filesize space =
    if is_data_segment vaddr space
    then (if space.vbase_bss == 0
        then record space { vbase_bss = add32 (add32 space.vbase_data (filesize / 4096)) 1 }
        else space)
    else space

-- main_PG[index].Dirty = 0
abbrev pub set_clean : List Entry → ℕ → List Entry
set_clean pg i = elim (get_elem? pg i) [
  | none ↦ pg
  | some e ↦ set pg i (record e { dirty = false })
]

-- A code page that has been loaded is clean again.
unfoldable pub clean_code : ℕ → AddrSpace → Vm → Vm
clean_code vaddr space vm =
    if is_code_segment vaddr space
    then elim (page_search vm.pg vaddr) [
      | none ↦ vm
      | some i ↦ record vm { pg = set_clean vm.pg i }
    ]
    else vm

-- load_segment after VOP_READ: the page's TLB entry is renewed, and a short read is an error.
unfoldable pub after_read : ℕ → ℕ → AddrSpace → ℕ × ℕ × Vm → Outcome Loaded
unfolding clean_code
after_read pid vaddr space (result, resid, vm) =
    if result == 0
    then (let vm1 = clean_code vaddr space (record vm { tlb = remove_tlb_v1 vaddr vm.tlb }) in
        add_tlb vm1.pg vaddr pid vm1.tlb >>= λ t.
        ok (if resid == 0 then 0 else enoexec, space, record vm1 { tlb = t }))
    else ok (result, space, vm)

-- load_segment: `pid` is curproc->pid.
unfoldable pub load_segment :
    ℕ → ElfFile → (offset vaddr memsize filesize : ℕ) → Bool → AddrSpace → Vm → Outcome Loaded
unfolding note_bss after_read
load_segment pid file offset vaddr memsize filesize is_executable space vm =
    let filesize' = if ltb memsize filesize then memsize else filesize in
    file.read_user is_executable offset vaddr memsize filesize' vm
    >>= after_read pid vaddr (note_bss vaddr filesize' space)

-- p_memsz when the whole program is loaded: of a segment of many pages, only those that are in memory.
unfoldable pub resident_memsz : Phdr → AddrSpace → ℕ
resident_memsz ph space =
    if ph.p_vaddr == space.vbase_code
    then (if ltb max_code_pages (ph.p_filesz / 4096)
        then mul32 space.npages_code_loaded 4096
        else ph.p_memsz)
    else if ph.p_vaddr == space.vbase_data
    then (if ltb max_data_pages (ph.p_filesz / 4096)
        then mul32 space.npages_data_loaded 4096
        else ph.p_memsz)
    else ph.p_memsz

-- `npages` pages of the segment from `start` on.
unfoldable pub load_pages :
    ℕ → ElfFile → (start npages : ℕ) → Phdr → AddrSpace → Vm → Outcome Loaded
unfolding load_segment
load_pages pid file start npages ph space vm =
    load_segment pid file (add32 ph.p_offset (sub32 start ph.p_vaddr)) start (mul32 npages 4096)
      (mul32 npages 4096) (flag 1 ph.p_flags) space vm

-- One segment: whole when `start` is 0, else the part that was asked for, if it is the segment's.
unfoldable pub load_one : ℕ → ElfFile → (start npages : ℕ) → Phdr → AddrSpace → Vm → Outcome Loaded
unfolding load_segment resident_memsz load_pages
load_one pid file start npages ph space vm =
    if start == 0
    then load_segment pid file ph.p_offset ph.p_vaddr (resident_memsz ph space) ph.p_filesz
        (flag 1 ph.p_flags) space vm
    else if is_code_segment start space
    then (if is_code_segment ph.p_vaddr space
        then load_pages pid file start npages ph space vm
        else ok (0, space, vm))
    else if is_data_segment start space
        && is_data_segment ph.p_vaddr space
        && not (is_bss_segment start space)
    then load_pages pid file start npages ph space vm
    else ok (0, space, vm)

-- The second loop, from header `i` on.
unfoldable pub load_from :
    ℕ → ElfFile → Ehdr → (start npages i n : ℕ) → AddrSpace → Vm → Outcome Loaded
unfolding load_one read_phdr
load_from pid file eh start npages i zero space vm = ok (0, space, vm)
load_from pid file eh start npages i (suc n) space vm = elim (read_phdr file eh i) [
  | err e ↦ ok (e, space, vm)
  | got none ↦ load_from pid file eh start npages (i + 1) n space vm
  | got (some ph) ↦ load_one pid file start npages ph space vm >>= λ r.
      continue r (load_from pid file eh start npages (i + 1) n)
]

-- The first loop: the headers are checked, and the regions defined when `start` is 0.
unfoldable pub define_from : ℕ → ElfFile → Ehdr → (start i n : ℕ) → AddrSpace → Vm → Outcome Loaded
unfolding read_phdr
define_from pid file eh start i zero space vm = ok (0, space, vm)
define_from pid file eh start i (suc n) space vm = elim (read_phdr file eh i) [
  | err e ↦ ok (e, space, vm)
  | got none ↦ define_from pid file eh start (i + 1) n space vm
  | got (some ph) ↦
      let rest = define_from pid file eh start (i + 1) n in
      if start == 0
      then (as_define_region pid ph.p_vaddr ph.p_memsz (flag 4 ph.p_flags) (flag 2 ph.p_flags)
            (flag 1 ph.p_flags) space vm
          >>= λ (space', vm'). rest space' vm')
      else rest space vm
]

-- as_prepare_load before the whole program is loaded
unfoldable pub prepare : ℕ → ℕ → AddrSpace → Vm → Outcome Loaded
prepare pid start space vm =
    if start == 0
    then (as_prepare_load pid space vm >>= λ (space', vm'). ok (0, space', vm'))
    else ok (0, space, vm)

-- load_elf returns the entry point beside the result; `none` where it sets none.
unfoldable pub load_elf :
    ℕ → ElfFile → (start npages : ℕ) → AddrSpace → Vm → Outcome (Option ℕ × Loaded)
unfolding read_struct is_loadable define_from prepare load_from
load_elf pid file start npages space vm = elim (read_struct file 0 52) [
  | err e ↦ ok (none, (e, space, vm))
  | got bytes ↦
      let eh = to_ehdr bytes in
      if is_loadable eh
      then (define_from pid file eh start 0 eh.e_phnum space vm >>= λ r.
          continue r (prepare pid start) >>= λ r'.
          continue r' (load_from pid file eh start npages 0 eh.e_phnum) >>= λ r''.
          ok (if r''.0 == 0 then some eh.e_entry else none, (r''.0, r''.1, r''.2)))
      else ok (none, (enoexec, space, vm))
]
