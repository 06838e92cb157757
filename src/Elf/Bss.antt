-- ===== src/Elf/Bss.antt =====
-- Where the bss segment is taken to start, and what a later load does there.
use os22_crisologo_minichell.Base.{
  ℕ, ◌+◌, ◌*◌, ◌/◌, ◌^◌, ◌<◌, ◌≤◌, ◌≡◌, refl, true, false, some, List, [], ◌∷◌, arith, ok, add32,
  got,
}
use os22_crisologo_minichell.Segments.{AddrSpace, is_code_segment, is_data_segment, is_bss_segment}
use os22_crisologo_minichell.Vm.{Vm}
use os22_crisologo_minichell.Elf.{
  ElfFile, Phdr, to_ehdr, read_struct, is_loadable, note_bss, load_elf,
}
use os22_crisologo_minichell.Elf.Headers.{headers}
use os22_crisologo_minichell.Elf.Part.{NoneTakes, load_elf-nothing}

bss_takes :
    (start : ℕ) (space : AddrSpace) (phs : List Phdr)
    → is_code_segment start space ≡ false
    → is_bss_segment start space ≡ true
    → NoneTakes start space phs
bss_takes start space [] c b = tt
bss_takes start space (ph ∷ phs) c b = (ground (arith, c, b), bss_takes start space phs c b)

-- What load_segment notes.
abbrev with_bss : ℕ → AddrSpace → AddrSpace
with_bss filesize space = record space {
  vbase_bss = add32 (add32 space.vbase_data (filesize / 4096)) 1;
}

note_bss-set :
    (vaddr filesize : ℕ) (space : AddrSpace)
    → is_data_segment vaddr space ≡ true
    → space.vbase_bss ≡ 0
    → note_bss vaddr filesize space ≡ with_bss filesize space
unfolding note_bss
note_bss-set vaddr filesize space dv z = rw (dv, z, note_bss) refl

bss-past :
    (start filesize : ℕ) (space : AddrSpace)
    → space.vbase_data + space.npages_data * 4096 + filesize / 4096 + 1 < 2 ^ 32
    → space.vbase_data + filesize / 4096 + 1 ≤ start
    → is_data_segment start space ≡ true
    → is_bss_segment start (with_bss filesize space) ≡ true
unfolding is_data_segment is_bss_segment
bss-past start filesize space room past ds = ground (arith, room, past, ds)

-- After the data segment has been loaded with `filesize` bytes of the file, every address of it that
-- is not code and is more than filesize / 4096 bytes, not pages, past its start counts as bss, if the
-- sums do not wrap: a later load there reads nothing and returns 0, however many bytes the file has.
pub load_elf-skips_data :
    (pid : ℕ) (file : ElfFile) (start npages vaddr filesize : ℕ) (space : AddrSpace) (vm : Vm)
    (m : ℕ → ℕ) (phs : List Phdr)
    → read_struct file 0 52 ≡ got m
    → is_loadable (to_ehdr m) ≡ true
    → headers file (to_ehdr m) 0 (to_ehdr m).e_phnum ≡ got phs
    → is_data_segment vaddr space ≡ true
    → space.vbase_bss ≡ 0
    → space.vbase_data + space.npages_data * 4096 + filesize / 4096 + 1 < 2 ^ 32
    → space.vbase_data + filesize / 4096 + 1 ≤ start
    → is_data_segment start space ≡ true
    → is_code_segment start space ≡ false
    → load_elf pid file start npages (note_bss vaddr filesize space) vm
      ≡ ok (some (to_ehdr m).e_entry, (0, note_bss vaddr filesize space, vm))
unfolding is_code_segment
load_elf-skips_data pid file start npages vaddr filesize space vm m phs r l hs dv z room past ds
      cs =
    let set = note_bss-set vaddr filesize space dv z in
    let bss : is_bss_segment start (note_bss vaddr filesize space) ≡ true =
      rw set (bss-past start filesize space room past ds) in
    load_elf-nothing pid file start npages (omega (arith, past)) m r l phs hs
      (note_bss vaddr filesize space) vm
      (bss_takes start (note_bss vaddr filesize space) phs (rw set cs) bss)
