-- ===== src/Elf/Headers.antt =====
-- The program headers as a list, and the loops of load_elf over it.
use mathlib.Core.Path.{fun_ext}
use os22_crisologo_minichell.Base.{
  add32, mul32, ℕ, zero, suc, ◌+◌, ◌≡◌, ◌≢◌, refl, sym, ap, ◌∙◌, false, none, some, List, [], ◌∷◌,
  ◌==◌, arith, ok, Outcome, ◌>>=◌, inl, inr, Got, err, got, Got-cases,
}
use os22_crisologo_minichell.Segments.{AddrSpace}
use os22_crisologo_minichell.Vm.{Vm}
use os22_crisologo_minichell.Elf.{
  ElfFile, Ehdr, Phdr, read_phdr, read_struct, sort_phdr, to_phdr, load_one, Loaded, continue,
  load_from, define_from,
}

abbrev pub with_header : Phdr → Got (List Phdr) → Got (List Phdr)
with_header ph (err e) = err e
with_header ph (got phs) = got (ph ∷ phs)

-- The error of a header from `i` on, or the headers that are to be loaded.
unfoldable pub headers : ElfFile → Ehdr → ℕ → ℕ → Got (List Phdr)
headers file eh i zero = got []
headers file eh i (suc n) = elim (read_phdr file eh i) [
  | err e ↦ err e
  | got none ↦ headers file eh (i + 1) n
  | got (some ph) ↦ with_header ph (headers file eh (i + 1) n)
]

-- The segments one after the other, up to the first error.
unfoldable pub load_all :
    ℕ → ElfFile → (start npages : ℕ) → List Phdr → AddrSpace → Vm → Outcome Loaded
load_all pid file start npages [] space vm = ok (0, space, vm)
load_all pid file start npages (ph ∷ phs) space vm =
    load_one pid file start npages ph space vm >>= λ r.
    continue r (load_all pid file start npages phs)

-- What the first loop returns when no region is defined.
abbrev pub checked : Got (List Phdr) → AddrSpace → Vm → Loaded
checked (err e) space vm = (e, space, vm)
checked (got phs) space vm = (0, space, vm)

checked-with_header :
    (ph : Phdr) (g : Got (List Phdr)) (space : AddrSpace) (vm : Vm)
    → checked (with_header ph g) space vm ≡ checked g space vm
checked-with_header ph (err e) space vm = refl
checked-with_header ph (got phs) space vm = refl

with_header-got :
    (ph : Phdr) (g : Got (List Phdr)) (phs : List Phdr)
    → with_header ph g ≡ got phs
    → (rest : List Phdr) × (g ≡ got rest) × (phs ≡ ph ∷ rest)
with_header-got ph (err e) phs q = absurd (ground (arith, q))
with_header-got ph (got rest) phs q = (rest, refl, ground (arith, q))

-- The first loop of a later load only reads the headers.
pub define_from-headers :
    (pid : ℕ) (file : ElfFile) (eh : Ehdr) (start i n : ℕ) (space : AddrSpace) (vm : Vm)
    → start ≢ 0
    → define_from pid file eh start i n space vm ≡ ok (checked (headers file eh i n) space vm)
unfolding define_from headers
define_from-headers pid file eh start i zero space vm ne = refl
define_from-headers pid file eh start i (suc n) space vm ne =
    elim (Got-cases (read_phdr file eh i)) [
      | inl (e, q) ↦ rw (q, define_from, headers) refl
      | inr (none, q) ↦
          rw (q, define_from, headers) (define_from-headers pid file eh start (i + 1) n space vm ne)
      | inr (some ph, q) ↦
          let later : (start == 0) ≡ false = ground (arith, ne) in
          rw (q, later, define_from, headers)
            (define_from-headers pid file eh start (i + 1) n space vm ne
              ∙ ap ok (sym (checked-with_header ph (headers file eh (i + 1) n) space vm)))
    ]

-- The second loop loads the segments in order.
pub load_from-headers :
    (pid : ℕ) (file : ElfFile) (eh : Ehdr) (start npages i n : ℕ) (space : AddrSpace) (vm : Vm)
    (phs : List Phdr)
    → headers file eh i n ≡ got phs
    → load_from pid file eh start npages i n space vm ≡ load_all pid file start npages phs space vm
unfolding load_from headers load_all
load_from-headers pid file eh start npages i zero space vm [] q = refl
load_from-headers pid file eh start npages i zero space vm (ph ∷ phs) q = ground (arith, q)
load_from-headers pid file eh start npages i (suc n) space vm phs q =
    elim (Got-cases (read_phdr file eh i)) [
      | inl (e, r) ↦ absurd (ground (arith, rw (r, headers) at q))
      | inr (none, r) ↦
          rw (r, load_from)
            (load_from-headers pid file eh start npages (i + 1) n space vm phs
              (rw (r, headers) at q))
      | inr (some ph, r) ↦
          let (rest, t, e) =
            with_header-got ph (headers file eh (i + 1) n) phs (rw (r, headers) at q) in
          rw (r, e, load_from, load_all)
            (ap (λ k. load_one pid file start npages ph space vm >>= λ x. continue x k)
              (fun_ext (λ s.
                fun_ext (λ v. load_from-headers pid file eh start npages (i + 1) n s v rest t))))
    ]

sort_phdr-err : (ph : Phdr) (e : ℕ) → sort_phdr ph ≡ err e → e ≢ 0
unfolding sort_phdr
sort_phdr-err ph e q = ground (arith, q)

read_struct-err : (file : ElfFile) (offset len e : ℕ) → read_struct file offset len ≡ err e → e ≢ 0
unfolding read_struct
read_struct-err file offset len e q = ground (arith, q)

read_phdr-err : (file : ElfFile) (eh : Ehdr) (i e : ℕ) → read_phdr file eh i ≡ err e → e ≢ 0
unfolding read_phdr
read_phdr-err file eh i e q =
    let offset = add32 eh.e_phoff (mul32 i eh.e_phentsize) in
    elim (Got-cases (read_struct file offset 32)) [
      | inl (x, r) ↦ ground (arith, read_struct-err file offset 32 x r, rw (r, read_phdr) at q)
      | inr (m, r) ↦ sort_phdr-err (to_phdr m) e (rw (r, read_phdr) at q)
    ]

with_header-err : (ph : Phdr) (g : Got (List Phdr)) (e : ℕ) → with_header ph g ≡ err e → g ≡ err e
with_header-err ph (err x) e q = q
with_header-err ph (got rest) e q = absurd (ground (arith, q))

-- An error of a header is not 0.
pub headers-err :
    (file : ElfFile) (eh : Ehdr) (i n : ℕ) (e : ℕ) → headers file eh i n ≡ err e → e ≢ 0
unfolding headers
headers-err file eh i zero e q = ground (arith, q)
headers-err file eh i (suc n) e q = elim (Got-cases (read_phdr file eh i)) [
  | inl (x, r) ↦ ground (arith, read_phdr-err file eh i x r, rw (r, headers) at q)
  | inr (none, r) ↦ headers-err file eh (i + 1) n e (rw (r, headers) at q)
  | inr (some ph, r) ↦
      headers-err file eh (i + 1) n e
        (with_header-err ph (headers file eh (i + 1) n) e (rw (r, headers) at q))
]
