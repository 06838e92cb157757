-- ===== src/Space/Region.antt =====
-- as_define_region keeps the frame allocator and the TLB well formed.
use os22_crisologo_minichell.Base.{
  ℕ, zero, suc, ◌+◌, ◌*◌, ◌<◌, ◌≤◌, ◌≡◌, refl, ap, subst, inl, inr, Bool, true, false, List, [],
  ◌∷◌, arith, ◌==◌, length, kseg0, add32, mul32, ok, panic, >>=-eq-ok, Bool-cases,
}
use os22_crisologo_minichell.Segments.{AddrSpace}
use os22_crisologo_minichell.Tlb.{add_tlb}
use os22_crisologo_minichell.Tlb.Count.{add_tlb-IsWf}
use os22_crisologo_minichell.Vm.{Vm}
use os22_crisologo_minichell.Frames.{alloc_pages}
use os22_crisologo_minichell.Frames.Wf.{IsWf}
use os22_crisologo_minichell.Frames.Alloc.{alloc_kpages-nil}
use os22_crisologo_minichell.Frames.Pages.{alloc_pages-IsWf}
use os22_crisologo_minichell.Space.{
  cache_page, define_page, define_pages, code_region, data_region, as_define_region,
}

-- With no frame left, alloc_pages panics.
alloc_pages-nil :
    (vaddr pid : ℕ) (dirty : Bool) (vm : Vm)
    → IsWf vm
    → vm.frame_list ≡ []
    → alloc_pages 1 vaddr pid dirty vm ≡ panic
unfolding alloc_pages
alloc_pages-nil vaddr pid dirty vm w e = ground (arith, w.started, alloc_kpages-nil vm w.started e)

one_page-IsWf :
    (vaddr pid : ℕ) (dirty : Bool) (vm : Vm) (fl : List ℕ) (r : ℕ × Vm)
    → vaddr < kseg0
    → IsWf vm
    → vm.frame_list ≡ fl
    → alloc_pages 1 vaddr pid dirty vm ≡ ok r
    → IsWf r.1
one_page-IsWf vaddr pid dirty vm [] r u w e h = absurd (cc (alloc_pages-nil vaddr pid dirty vm w e))
one_page-IsWf vaddr pid dirty vm (f ∷ fs) r u w e h =
    let (vm', q, w', l) = alloc_pages-IsWf vaddr pid dirty u 1 vm w (ground (arith, ap length e)) in
    subst (λ (x : ℕ × Vm). IsWf x.1) {x = (0, vm')} {y = r} (ground arith) w'

cache_page-IsWf :
    (pid addr : ℕ) (vm : Vm) {vm' : Vm} → IsWf vm → cache_page pid addr vm ≡ ok vm' → IsWf vm'
unfolding cache_page
cache_page-IsWf pid addr vm {vm'} w h = elim (Bool-cases (vm.tlb.free == 0)) [
  | inl z ↦ subst IsWf (ground arith) w
  | inr n ↦
      let (t, e, q) =
        >>=-eq-ok (add_tlb vm.pg addr pid vm.tlb) (λ t. ok (record vm { tlb = t })) {r = vm'}
          (rw n at h) in
      subst IsWf {x = record vm { tlb = t }} (ground arith) (record {
        started = w.started;
        small = w.small;
        listed = w.listed;
        usable = w.usable;
        user = w.user;
        tlb = add_tlb-IsWf vm.pg addr pid w.tlb e;
      })
]

define_page-IsWf :
    (pid addr : ℕ) (vm : Vm) {vm' : Vm}
    → addr < kseg0
    → IsWf vm
    → define_page pid addr vm ≡ ok vm'
    → IsWf vm'
unfolding define_page
define_page-IsWf pid addr vm u w h =
    let (x, e, q) = >>=-eq-ok (alloc_pages 1 addr pid true vm) _ h in
    let w' = one_page-IsWf addr pid true vm vm.frame_list x u w refl e in
    elim (Bool-cases (x.0 == 0)) [
      | inl z ↦ cache_page-IsWf pid addr x.1 w' (rw z at q)
      | inr n ↦ absurd (ground arith)
    ]

define_pages-IsWf :
    (pid base i n : ℕ) (vm : Vm) {vm' : Vm}
    → base + (i + n) * 4096 ≤ kseg0
    → IsWf vm
    → define_pages pid base i n vm ≡ ok vm'
    → IsWf vm'
unfolding define_pages
define_pages-IsWf pid base i zero vm l w h = subst IsWf (ground arith) w
define_pages-IsWf pid base i (suc n) vm l w h =
    let (x, e, q) = >>=-eq-ok (define_page pid (add32 base (mul32 i 4096)) vm) _ h in
    define_pages-IsWf pid base (i + 1) n x (omega arith)
      (define_page-IsWf pid (add32 base (mul32 i 4096)) vm (omega arith) w e) q

code_pages :
    (vaddr memsize : ℕ) (space : AddrSpace)
    → (code_region vaddr memsize space).npages_code_loaded ≤ 16
unfolding code_region
code_pages vaddr memsize space = ground arith

data_pages :
    (vaddr memsize : ℕ) (space : AddrSpace)
    → space.npages_code_loaded ≤ 16
    → (data_region vaddr memsize space).npages_data_loaded ≤ 136
unfolding data_region
data_pages vaddr memsize space h = ground arith

-- From a well formed state, when at most 16 code pages count as loaded and the 136 pages from `vaddr` on
-- are user pages, a successful as_define_region leaves a well formed state, whatever the flags.
pub as_define_region-IsWf :
    (pid vaddr memsize : ℕ) (readable writeable executable : Bool) (space : AddrSpace) (vm : Vm)
    {r : AddrSpace × Vm}
    → space.npages_code_loaded ≤ 16
    → vaddr + 136 * 4096 ≤ kseg0
    → IsWf vm
    → as_define_region pid vaddr memsize readable writeable executable space vm ≡ ok r
    → IsWf r.1
unfolding as_define_region
as_define_region-IsWf pid vaddr memsize readable writeable true space vm s l w h =
    let n = (code_region vaddr memsize space).npages_code_loaded in
    let (x, e, q) = >>=-eq-ok (define_pages pid vaddr 0 n vm) _ h in
    let w' =
      define_pages-IsWf pid vaddr 0 n vm (omega (arith, code_pages vaddr memsize space)) w e in
    subst IsWf (ground arith) w'
as_define_region-IsWf pid vaddr memsize readable false false space vm s l w h =
    absurd (ground arith)
as_define_region-IsWf pid vaddr memsize false true false space vm s l w h = absurd (ground arith)
as_define_region-IsWf pid vaddr memsize true true false space vm s l w h =
    let n = (data_region vaddr memsize space).npages_data_loaded in
    let (x, e, q) = >>=-eq-ok (define_pages pid vaddr 0 n vm) _ h in
    let w' =
      define_pages-IsWf pid vaddr 0 n vm (omega (arith, data_pages vaddr memsize space s)) w e in
    subst IsWf (ground arith) w'
