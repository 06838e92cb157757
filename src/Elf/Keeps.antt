-- ===== src/Elf/Keeps.antt =====
-- load_elf keeps every property of the statistics that reading into user memory keeps.
use os22_crisologo_minichell.Base.{
  ◌*◌, ℕ, zero, suc, ◌+◌, ◌≡◌, sym, subst, Bool, true, Option, none, some, ◌==◌, if◌then◌else◌,
  arith, ok, panic, Outcome, inl, inr, Ensures, Ensures-then, mul32, add32, sub32, ltb, Ensures-if,
  Ensures-bind, Got-cases,
}
use os22_crisologo_minichell.Segments.{AddrSpace, is_code_segment}
use os22_crisologo_minichell.Vm.{Vm, Stats}
use os22_crisologo_minichell.Frames.{alloc_pages}
use os22_crisologo_minichell.Tlb.{add_tlb, remove_tlb_v1}
use os22_crisologo_minichell.Elf.{
  ElfFile, Ehdr, Phdr, read_phdr, to_ehdr, read_struct, is_loadable, note_bss, clean_code,
  after_read, flag, resident_memsz, load_segment, load_pages, load_one, load_from, define_from,
  prepare, Loaded, continue, load_elf,
}
use os22_crisologo_minichell.Space.{as_define_region, as_prepare_load}
use os22_crisologo_minichell.Elf.Regions.{
  OfVm, OfPair, OfLoaded, alloc_pages-keeps, as_define_region-keeps,
}

clean_code-stats :
    (vaddr : ℕ) (space : AddrSpace) (vm : Vm) → (clean_code vaddr space vm).stats ≡ vm.stats
unfolding clean_code
clean_code-stats vaddr space vm = ground arith

module _ (T : Stats → Type 0) where
  clean_code-keeps :
      (vaddr : ℕ) (space : AddrSpace) (vm : Vm) → (OfVm T) vm → (OfVm T) (clean_code vaddr space vm)
  unfolding clean_code
  clean_code-keeps vaddr space vm t = subst T (sym (clean_code-stats vaddr space vm)) t

  prepare-keeps :
      (pid start : ℕ) (space : AddrSpace) (vm : Vm)
      → (OfVm T) vm
      → Ensures (OfLoaded T) (prepare pid start space vm)
  unfolding prepare as_prepare_load
  prepare-keeps pid start space vm t =
      let base = add32 space.vbase_data (4096 * space.npages_data) in
      Ensures-if (OfLoaded T) (start == 0) _ (ok (0, space, vm))
        (λ e.
          Ensures-bind (OfPair T) (OfLoaded T) (as_prepare_load pid space vm) _
            (Ensures-bind (OfPair T) (OfPair T) (alloc_pages 1 base pid true vm) _
              (alloc_pages-keeps T 1 base pid true vm t)
              (λ (failed, v) k. Ensures-if (OfPair T) (failed == 0) _ panic (λ z. k) (λ z. tt)))
            (λ x k. k))
        (λ e. t)

  continue-keeps :
      (r : Loaded) (rest : AddrSpace → Vm → Outcome Loaded)
      → (OfLoaded T) r
      → ((s : AddrSpace) (v : Vm) → (OfVm T) v → Ensures (OfLoaded T) (rest s v))
      → Ensures (OfLoaded T) (continue r rest)
  continue-keeps (result, space, vm) rest t k =
      Ensures-if (OfLoaded T) (result == 0) (rest space vm) (ok (result, space, vm))
        (λ e. k space vm t) (λ e. t)

  -- Reading into user memory keeps it, though it may fault on the user's pages.
  abbrev pub ReadKeeps : ElfFile → Type 0
  ReadKeeps file =
      (x : Bool) (offset vaddr len n : ℕ) (vm : Vm)
      → (OfVm T) vm
      → Ensures (λ (r : ℕ × ℕ × Vm). T r.2.stats) (file.read_user x offset vaddr len n vm)

  module _ (pid : ℕ) (file : ElfFile) (reads : ReadKeeps file) where
    after_read-keeps :
        (vaddr : ℕ) (space : AddrSpace) (r : ℕ × ℕ × Vm)
        → T r.2.stats
        → Ensures (OfLoaded T) (after_read pid vaddr space r)
    unfolding after_read
    after_read-keeps vaddr space (result, resid, vm) t =
        let vm1 = clean_code vaddr space (record vm { tlb = remove_tlb_v1 vaddr vm.tlb }) in
        Ensures-if (OfLoaded T) (result == 0) _ (ok (result, space, vm))
          (λ e.
            Ensures-then (OfLoaded T) (add_tlb vm1.pg vaddr pid vm1.tlb) _ (λ u.
              clean_code-keeps vaddr space (record vm { tlb = remove_tlb_v1 vaddr vm.tlb }) t))
          (λ e. t)

    load_segment-keeps :
        (offset vaddr memsize filesize : ℕ) (x : Bool) (space : AddrSpace) (vm : Vm)
        → (OfVm T) vm
        → Ensures (OfLoaded T) (load_segment pid file offset vaddr memsize filesize x space vm)
    unfolding load_segment
    load_segment-keeps offset vaddr memsize filesize x space vm t =
        let n = if ltb memsize filesize then memsize else filesize in
        Ensures-bind (λ (r : ℕ × ℕ × Vm). T r.2.stats) (OfLoaded T)
          (file.read_user x offset vaddr memsize n vm)
          (after_read pid vaddr (note_bss vaddr n space)) (reads x offset vaddr memsize n vm t)
          (λ r k. after_read-keeps vaddr (note_bss vaddr n space) r k)

    load_one-keeps :
        (start npages : ℕ) (ph : Phdr) (space : AddrSpace) (vm : Vm)
        → (OfVm T) vm
        → Ensures (OfLoaded T) (load_one pid file start npages ph space vm)
    unfolding load_one load_pages
    load_one-keeps start npages ph space vm t =
        let part =
          load_segment-keeps (add32 ph.p_offset (sub32 start ph.p_vaddr)) start (mul32 npages 4096)
            (mul32 npages 4096) (flag 1 ph.p_flags) space vm t in
        Ensures-if (OfLoaded T) (start == 0) _ _
          (λ e.
            load_segment-keeps ph.p_offset ph.p_vaddr (resident_memsz ph space) ph.p_filesz
              (flag 1 ph.p_flags) space vm t)
          (λ e.
            Ensures-if (OfLoaded T) (is_code_segment start space) _ _
              (λ c.
                Ensures-if (OfLoaded T) (is_code_segment ph.p_vaddr space) _ (ok (0, space, vm))
                  (λ f. part) (λ f. t))
              (λ c. Ensures-if (OfLoaded T) _ _ (ok (0, space, vm)) (λ f. part) (λ f. t)))

    load_from-keeps :
        (eh : Ehdr) (start npages i n : ℕ) (space : AddrSpace) (vm : Vm)
        → (OfVm T) vm
        → Ensures (OfLoaded T) (load_from pid file eh start npages i n space vm)
    unfolding load_from
    load_from-keeps eh start npages i zero space vm t = t
    load_from-keeps eh start npages i (suc n) space vm t = elim (Got-cases (read_phdr file eh i)) [
      | inl (e, q) ↦ rw (q, load_from) t
      | inr (none, q) ↦ rw (q, load_from) (load_from-keeps eh start npages (i + 1) n space vm t)
      | inr (some ph, q) ↦
          rw (q, load_from)
            (Ensures-bind (OfLoaded T) (OfLoaded T) (load_one pid file start npages ph space vm) _
              (load_one-keeps start npages ph space vm t)
              (λ r k.
                continue-keeps r (load_from pid file eh start npages (i + 1) n) k
                  (λ s v j. load_from-keeps eh start npages (i + 1) n s v j)))
    ]

    define_from-keeps :
        (eh : Ehdr) (start i n : ℕ) (space : AddrSpace) (vm : Vm)
        → (OfVm T) vm
        → Ensures (OfLoaded T) (define_from pid file eh start i n space vm)
    unfolding define_from
    define_from-keeps eh start i zero space vm t = t
    define_from-keeps eh start i (suc n) space vm t = elim (Got-cases (read_phdr file eh i)) [
      | inl (e, q) ↦ rw (q, define_from) t
      | inr (none, q) ↦ rw (q, define_from) (define_from-keeps eh start (i + 1) n space vm t)
      | inr (some ph, q) ↦
          rw (q, define_from)
            (Ensures-if (OfLoaded T) (start == 0) _ _
              (λ e.
                Ensures-bind (OfPair T) (OfLoaded T)
                  (as_define_region pid ph.p_vaddr ph.p_memsz (flag 4 ph.p_flags)
                    (flag 2 ph.p_flags) (flag 1 ph.p_flags) space vm)
                  _
                  (as_define_region-keeps T pid ph.p_vaddr ph.p_memsz (flag 4 ph.p_flags)
                    (flag 2 ph.p_flags) (flag 1 ph.p_flags) space vm t)
                  (λ (s, v) k. define_from-keeps eh start (i + 1) n s v k))
              (λ e. define_from-keeps eh start (i + 1) n space vm t))
    ]

    pub load_elf-keeps :
        (start npages : ℕ) (space : AddrSpace) (vm : Vm)
        → (OfVm T) vm
        → Ensures
            (λ (r : Option ℕ × Loaded). (OfLoaded T) r.1)
            (load_elf pid file start npages space vm)
    unfolding load_elf
    load_elf-keeps start npages space vm t = elim (Got-cases (read_struct file 0 52)) [
      | inl (e, q) ↦ rw (q, load_elf) t
      | inr (m, q) ↦
          let eh = to_ehdr m in
          rw (q, load_elf)
            (Ensures-if (λ (r : Option ℕ × Loaded). (OfLoaded T) r.1) (is_loadable eh) _ _
              (λ e.
                Ensures-bind (OfLoaded T) (λ r. (OfLoaded T) r.1)
                  (define_from pid file eh start 0 eh.e_phnum space vm) _
                  (define_from-keeps eh start 0 eh.e_phnum space vm t)
                  (λ r k.
                    Ensures-bind (OfLoaded T) (λ r. (OfLoaded T) r.1)
                      (continue r (prepare pid start)) _
                      (continue-keeps r (prepare pid start) k
                        (λ s v j. prepare-keeps pid start s v j))
                      (λ r' k'.
                        Ensures-bind (OfLoaded T) (λ r. (OfLoaded T) r.1)
                          (continue r' (load_from pid file eh start npages 0 eh.e_phnum)) _
                          (continue-keeps r' (load_from pid file eh start npages 0 eh.e_phnum) k'
                            (λ s v j. load_from-keeps eh start npages 0 eh.e_phnum s v j))
                          (λ r'' k''. k''))))
              (λ e. t))
    ]
