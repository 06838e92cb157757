-- ===== src/Elf/Regions.antt =====
-- What as_define_region keeps of the statistics: every property of the counters.
use os22_crisologo_minichell.Base.{
  ℕ, zero, suc, ◌+◌, sym, subst, Bool, true, false, ◌==◌, ok, panic, Ensures, Ensures-then, mul32,
  add32, sub32, ◌/◌, kseg0, Ensures-of, Ensures-if, Ensures-bind, kassert,
}
use os22_crisologo_minichell.Segments.{AddrSpace}
use os22_crisologo_minichell.Vm.{Vm, Stats}
use os22_crisologo_minichell.Frames.{alloc_pages, alloc_kpages}
use os22_crisologo_minichell.Frames.Keeps.{alloc_kpages-Keeps}
use os22_crisologo_minichell.PageTable.{add_pt}
use os22_crisologo_minichell.Tlb.{add_tlb}
use os22_crisologo_minichell.Elf.{Loaded}
use os22_crisologo_minichell.Space.{
  code_region, data_region, cache_page, define_page, define_pages, as_define_region,
}

module _ (T : Stats → Type 0) where
  -- what is kept of a state, and of a result with a state
  abbrev pub OfVm : Vm → Type 0
  OfVm vm = T vm.stats

  abbrev pub OfPair : {A : Type 0} → A × Vm → Type 0
  OfPair x = T x.1.stats

  abbrev pub OfLoaded : Loaded → Type 0
  OfLoaded x = T x.2.stats

  alloc_kpages-keeps : (vm : Vm) → OfVm vm → Ensures OfPair (alloc_kpages 1 vm)
  alloc_kpages-keeps vm t =
      Ensures-of OfPair (alloc_kpages 1 vm)
        (λ (a, v) e. let k = alloc_kpages-Keeps vm e in subst T (sym k.stats) t)

  pub alloc_pages-keeps :
      (n addr pid : ℕ) (d : Bool) (vm : Vm) → OfVm vm → Ensures OfPair (alloc_pages n addr pid d vm)
  unfolding alloc_pages
  alloc_pages-keeps zero addr pid d vm t =
      Ensures-then OfPair (kassert vm.started) (λ u. ok (0, vm)) (λ u. t)
  alloc_pages-keeps (suc n) addr pid d vm t = Ensures-then OfPair (kassert vm.started) _ (λ u.
      Ensures-bind OfPair OfPair (alloc_kpages 1 vm) _ (alloc_kpages-keeps vm t) (λ (paddr, v) k.
        Ensures-if OfPair (paddr == 0) panic _ (λ e. tt)
          (λ e.
            Ensures-then OfPair (add_pt v.pg (sub32 paddr kseg0 / 4096) addr pid d) _
              (λ pg. alloc_pages-keeps n addr pid d (record v { pg = pg }) k))))

  cache_page-keeps : (pid addr : ℕ) (vm : Vm) → OfVm vm → Ensures OfVm (cache_page pid addr vm)
  unfolding cache_page
  cache_page-keeps pid addr vm t =
      Ensures-if OfVm (vm.tlb.free == 0) (ok vm) _ (λ e. t)
        (λ e. Ensures-then OfVm (add_tlb vm.pg addr pid vm.tlb) _ (λ x. t))

  define_page-keeps : (pid addr : ℕ) (vm : Vm) → OfVm vm → Ensures OfVm (define_page pid addr vm)
  unfolding define_page
  define_page-keeps pid addr vm t =
      Ensures-bind OfPair OfVm (alloc_pages 1 addr pid true vm) _
        (alloc_pages-keeps 1 addr pid true vm t)
        (λ (failed, v) k.
          Ensures-if OfVm (failed == 0) (cache_page pid addr v) panic
            (λ e. cache_page-keeps pid addr v k) (λ e. tt))

  define_pages-keeps :
      (pid base i n : ℕ) (vm : Vm) → OfVm vm → Ensures OfVm (define_pages pid base i n vm)
  unfolding define_pages
  define_pages-keeps pid base i zero vm t = t
  define_pages-keeps pid base i (suc n) vm t =
      Ensures-bind OfVm OfVm (define_page pid (add32 base (mul32 i 4096)) vm) _
        (define_page-keeps pid (add32 base (mul32 i 4096)) vm t)
        (λ v k. define_pages-keeps pid base (i + 1) n v k)

  pub as_define_region-keeps :
      (pid vaddr memsize : ℕ) (r w x : Bool) (space : AddrSpace) (vm : Vm)
      → OfVm vm
      → Ensures OfPair (as_define_region pid vaddr memsize r w x space vm)
  unfolding as_define_region
  as_define_region-keeps pid vaddr memsize r w true space vm t =
      let n = (code_region vaddr memsize space).npages_code_loaded in
      Ensures-bind OfVm OfPair (define_pages pid vaddr 0 n vm) _
        (define_pages-keeps pid vaddr 0 n vm t) (λ v k. k)
  as_define_region-keeps pid vaddr memsize r false false space vm t = tt
  as_define_region-keeps pid vaddr memsize false true false space vm t = tt
  as_define_region-keeps pid vaddr memsize true true false space vm t =
      let n = (data_region vaddr memsize space).npages_data_loaded in
      Ensures-bind OfVm OfPair (define_pages pid vaddr 0 n vm) _
        (define_pages-keeps pid vaddr 0 n vm t) (λ v k. k)
