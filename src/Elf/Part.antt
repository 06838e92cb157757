-- ===== src/Elf/Part.antt =====
-- A part of the program loaded on demand: which segment is read, and when nothing is.
use os22_crisologo_minichell.Base.{
  ltb, sub32, >>=-eq-ok, ℕ, ◌≡◌, ◌≢◌, refl, sym, ap, ◌∙◌, Bool, true, false, not, ◌&&◌, none, some,
  List, [], ◌∷◌, ◌++◌, ◌==◌, if◌then◌else◌, arith, ok, panic, fault, Outcome, ◌>>=◌, inl, inr, ◌⊎◌,
  Bool-cases, enoexec, mul32, add32, got,
}
use os22_crisologo_minichell.Segments.{AddrSpace, is_code_segment, is_data_segment, is_bss_segment}
use os22_crisologo_minichell.Tlb.{add_tlb, remove_tlb_v1}
use os22_crisologo_minichell.Vm.{Vm}
use os22_crisologo_minichell.Elf.{
  ElfFile, Phdr, to_ehdr, read_struct, is_loadable, note_bss, load_segment, load_pages, load_one,
  Loaded, continue, prepare, load_elf, flag, after_read, clean_code, define_from,
}
use os22_crisologo_minichell.Elf.Headers.{
  headers, checked, load_all, define_from-headers, load_from-headers,
}

-- The segment is the one that the address asks for.
abbrev pub takes : ℕ → AddrSpace → Phdr → Bool
takes start space ph =
    if is_code_segment start space
    then is_code_segment ph.p_vaddr space
    else is_data_segment start space
      && is_data_segment ph.p_vaddr space
      && not (is_bss_segment start space)

abbrev pub NoneTakes : ℕ → AddrSpace → List Phdr → Type 0
NoneTakes start space [] = Unit
NoneTakes start space (ph ∷ phs) = (takes start space ph ≡ false) × NoneTakes start space phs

-- The start of the bss segment is known, or not asked for.
abbrev pub BssSet : ℕ → AddrSpace → Type 0
BssSet start space = (space.vbase_bss ≢ 0) ⊎ (is_data_segment start space ≡ false)

ok-space :
    {r r' : ℕ} {s s' : AddrSpace} {v v' : Vm}
    → ◌≡◌ {A = Outcome Loaded} (ok (r, s, v)) (ok (r', s', v'))
    → s ≡ s'
ok-space e = cc

-- A step after which nothing is left to do.
continue-last :
    (space : AddrSpace) (m : Outcome Loaded) (rest : AddrSpace → Vm → Outcome Loaded)
    → ((r : ℕ) (s : AddrSpace) (v : Vm) → m ≡ ok (r, s, v) → s ≡ space)
    → ((v : Vm) → rest space v ≡ ok (0, space, v))
    → (m >>= λ r. continue r rest) ≡ m
continue-last space panic rest same done = refl
continue-last space fault rest same done = refl
continue-last space (ok (r, s, v)) rest same done =
    let e : s ≡ space = same r s v refl in
    elim (Bool-cases (r == 0)) [
      | inl z ↦ rw (z, e) (done v ∙ ground (arith, z))
      | inr z ↦ rw z refl
    ]

module _ (pid : ℕ) (file : ElfFile) (start npages : ℕ) (later : start ≢ 0) where
  load_one-skips :
      (space : AddrSpace) (vm : Vm) (ph : Phdr)
      → takes start space ph ≡ false
      → load_one pid file start npages ph space vm ≡ ok (0, space, vm)
  unfolding load_one
  load_one-skips space vm ph t = ground (arith, later, t)

  load_one-takes :
      (space : AddrSpace) (vm : Vm) (ph : Phdr)
      → takes start space ph ≡ true
      → load_one pid file start npages ph space vm ≡ load_pages pid file start npages ph space vm
  unfolding load_one
  load_one-takes space vm ph t = ground (arith, later, t)

  load_all-skips :
      (space : AddrSpace) (vm : Vm) (phs : List Phdr)
      → NoneTakes start space phs
      → load_all pid file start npages phs space vm ≡ ok (0, space, vm)
  unfolding load_all
  load_all-skips space vm [] n = refl
  load_all-skips space vm (ph ∷ phs) n =
      rw (load_one-skips space vm ph n.0) (load_all-skips space vm phs n.1)

  note_bss-same :
      (space : AddrSpace) (filesize : ℕ)
      → BssSet start space
      → note_bss start filesize space ≡ space
  unfolding note_bss
  note_bss-same space filesize b = ground (arith, b)

  after_read-space :
      (vaddr : ℕ) (space : AddrSpace) (x : ℕ × ℕ × Vm) (r : ℕ) (s : AddrSpace) (v : Vm)
      → after_read pid vaddr space x ≡ ok (r, s, v)
      → s ≡ space
  unfolding after_read
  after_read-space vaddr space (result, resid, vm) r s v h = elim (Bool-cases (result == 0)) [
    | inl z ↦
        let vm1 = clean_code vaddr space (record vm { tlb = remove_tlb_v1 vaddr vm.tlb }) in
        let (t, e, f) =
          >>=-eq-ok (add_tlb vm1.pg vaddr pid vm1.tlb)
            (λ t. ok (if resid == 0 then 0 else enoexec, space, record vm1 { tlb = t }))
            (rw (z, after_read) at h) in
        sym (ok-space f)
    | inr z ↦ sym (ok-space (rw (z, after_read) at h))
  ]

  -- The address space is as before.
  load_pages-space :
      (space : AddrSpace) (vm : Vm) (ph : Phdr)
      → BssSet start space
      → (r : ℕ) (s : AddrSpace) (v : Vm)
      → load_pages pid file start npages ph space vm ≡ ok (r, s, v)
      → s ≡ space
  unfolding load_pages load_segment
  load_pages-space space vm ph b r s v h =
      let size = mul32 npages 4096 in
      let fs = if ltb size size then size else size in
      let (x, q, rest) =
        >>=-eq-ok
          (file.read_user (flag 1 ph.p_flags) (add32 ph.p_offset (sub32 start ph.p_vaddr)) start
            size fs vm)
          (after_read pid start (note_bss start fs space)) h in
      after_read-space start (note_bss start fs space) x r s v rest ∙ note_bss-same space fs b

  load_all-takes :
      (space : AddrSpace) (vm : Vm) (us : List Phdr) (ph : Phdr) (vs : List Phdr)
      → NoneTakes start space us
      → takes start space ph ≡ true
      → NoneTakes start space vs
      → BssSet start space
      → load_all pid file start npages (us ++ (ph ∷ vs)) space vm
        ≡ load_pages pid file start npages ph space vm
  unfolding load_all
  load_all-takes space vm [] ph vs nu t nv b = rw (load_one-takes space vm ph t) (
      continue-last space (load_pages pid file start npages ph space vm)
        (load_all pid file start npages vs) (load_pages-space space vm ph b)
        (λ v. load_all-skips space v vs nv))
  load_all-takes space vm (u ∷ us) ph vs nu t nv b =
      rw (load_one-skips space vm u nu.0) (load_all-takes space vm us ph vs nu.1 t nv b)

  module _ (m : ℕ → ℕ) (read : read_struct file 0 52 ≡ got m)
      (loadable : is_loadable (to_ehdr m) ≡ true) (phs : List Phdr)
      (segments : headers file (to_ehdr m) 0 (to_ehdr m).e_phnum ≡ got phs) (space : AddrSpace)
      (vm : Vm) where
    load_elf-all : load_elf pid file start npages space vm ≡ (
        load_all pid file start npages phs space vm >>= λ r.
        ok (if r.0 == 0 then some (to_ehdr m).e_entry else none, (r.0, r.1, r.2)))
    unfolding load_elf
    load_elf-all =
        let eh = to_ehdr m in
        let not_start : (start == 0) ≡ false = ground (arith, later) in
        let d : define_from pid file eh start 0 eh.e_phnum space vm ≡ ok (0, space, vm) =
          define_from-headers pid file eh start 0 eh.e_phnum space vm later
          ∙ ap (λ g. ok (checked g space vm)) segments in
        let l = load_from-headers pid file eh start npages 0 eh.e_phnum space vm phs segments in
        rw (read, loadable, d, not_start, prepare, l, load_elf) refl

    -- A later load, of a file that is an executable whose segment headers can be read, reads from the one segment that
    -- the address asks for, if the start of the bss segment is set, and returns what that read returns,
    -- with the entry point when there was no error.
    pub load_elf-part :
        (us : List Phdr) (ph : Phdr) (vs : List Phdr)
        → phs ≡ us ++ (ph ∷ vs)
        → NoneTakes start space us
        → takes start space ph ≡ true
        → NoneTakes start space vs
        → BssSet start space
        → load_elf pid file start npages space vm ≡ (
            load_pages pid file start npages ph space vm >>= λ r.
            ok (if r.0 == 0 then some (to_ehdr m).e_entry else none, (r.0, r.1, r.2)))
    load_elf-part us ph vs split nu t nv b =
        let one = load_all-takes space vm us ph vs nu t nv b in load_elf-all ∙ rw (split, one) refl

    -- If no segment is the one asked for, it reads nothing and returns 0.
    pub load_elf-nothing :
        NoneTakes start space phs
        → load_elf pid file start npages space vm ≡ ok (some (to_ehdr m).e_entry, (0, space, vm))
    load_elf-nothing n = load_elf-all ∙ rw (load_all-skips space vm phs n) refl
