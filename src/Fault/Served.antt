-- ===== src/Fault/Served.antt =====
-- vm_fault keeps the sums of the statistics: a fault that it serves is counted once on each side.
use os22_crisologo_minichell.Base.{
  ℕ, suc, ◌/◌, ◌≡◌, ◌≢◌, refl, sym, subst, ◌⊎◌, inl, inr, true, Option, none, some, arith, ◌==◌,
  if◌then◌else◌, Bool-cases, Option-cases, kseg0, add32, sub32, mul32, page_align, einval, efault,
  Outcome, ok, >>=-eq-ok,
}
use os22_crisologo_minichell.Segments.{AddrSpace, is_code_segment, is_data_segment}
use os22_crisologo_minichell.PageTable.{data_kind, victim_page_search, add_pt, page_search}
use os22_crisologo_minichell.Tlb.{add_tlb, is_positive}
use os22_crisologo_minichell.Vm.{Stats, Vm}
use os22_crisologo_minichell.Frames.{alloc_kpages, free_kpages}
use os22_crisologo_minichell.Frames.Keeps.{free_kpages-Keeps, alloc_kpages-Keeps}
use os22_crisologo_minichell.Swap.{swap_out, swap_in}
use os22_crisologo_minichell.Swap.Keeps.{swap_out-stats, swap_in-stats}
use os22_crisologo_minichell.Fault.Tally.{
  Tally, count_fault-Tally, uncount_fault-Tally, count_reload-Tally, count_elf-Tally,
  count_swap-Tally, count_swap_write-Tally,
}
use os22_crisologo_minichell.Fault.{
  FaultType, fault_read, fault_write, fault_readonly, fault_other, Answer, code, exits, Process,
  count_fault, count_swap_write, count_swap, count_elf, count_reload, from_elf, load_page,
  drop_code, code_frame, evict_data, data_frame, evict_found, data_frame_write, victim_addr,
  bring_in, exchange, read_data, write_data, read_code, reload, read_absent, write_absent, handle,
  vm_fault, uncount_fault,
}

-- load_elf may itself fault on the user's page, and keeps the sums as those faults do.
abbrev pub LoadKeeps : Process → Type 0
LoadKeeps p =
    (start : ℕ) (vm : Vm) (r : ℕ × Vm) (d : ℕ)
    → p.load start vm ≡ ok r
    → Tally d vm.stats
    → Tally d r.1.stats

-- The sums after a fault: served, or counted as not served when the answer is an error.
pub record Done (d : ℕ) (r : Answer × Vm) : Type 0 where
  pub served : r.0 ≡ code 0 → Tally d r.1.stats
  pub either : Tally d r.1.stats ⊎ Tally (suc d) r.1.stats

served_now : (d : ℕ) (r : Answer × Vm) → Tally d r.1.stats → Done d r
served_now d r t = record { served = λ e. t; either = inl t }

not_served : (d n : ℕ) (vm : Vm) → n ≢ 0 → Tally (suc d) vm.stats → Done d (code n, vm)
not_served d n vm ne t = record { served = λ e. absurd (ne (ground arith)); either = inr t }

Tally-kept : (d : ℕ) {s s' : Stats} → s' ≡ s → Tally d s → Tally d s'
Tally-kept d e t = subst (Tally d) (sym e) t

module _ (d : ℕ) (p : Process) (space : AddrSpace) (loads : LoadKeeps p) where
  from_elf-Done :
      (addr : ℕ) (vm : Vm) {r : Answer × Vm}
      → from_elf p space addr vm ≡ ok r
      → Tally (suc d) vm.stats
      → Done d r
  unfolding from_elf
  from_elf-Done addr vm {r} h t = elim (Bool-cases (p.open_result == 0)) [
    | inr n ↦ subst (Done d) (ground arith) (not_served d p.open_result vm (ground arith) t)
    | inl z ↦
        let (x, e, q) = >>=-eq-ok (p.load addr vm) _ (rw z at h) in
        loaded x (loads addr vm x (suc d) e t) q
  ]
    where
      loaded :
          (x : ℕ × Vm)
          → Tally (suc d) x.1.stats
          → ◌≡◌ {A = Outcome (Answer × Vm)}
              (ok (
                if x.0 == 0
                then (code 0, record x.1 { stats = count_elf x.1.stats })
                else (code x.0, x.1)))
              (ok r)
          → Done d r
      loaded x t' q = elim (Bool-cases (x.0 == 0)) [
        | inl z ↦ subst (Done d) (ground arith) (
            served_now d (code 0, record x.1 { stats = count_elf x.1.stats })
              (count_elf-Tally d x.1.stats t'))
        | inr n ↦ subst (Done d) (ground arith) (not_served d x.0 x.1 (ground arith) t')
      ]

  load_page-Done :
      (addr frame : ℕ) (vm : Vm) {r : Answer × Vm}
      → load_page p space addr frame vm ≡ ok r
      → Tally (suc d) vm.stats
      → Done d r
  unfolding load_page
  load_page-Done addr frame vm h t =
      let (pg, e, q) =
        >>=-eq-ok (add_pt vm.pg (sub32 frame kseg0 / 4096) (page_align addr) p.pid true) _ h in
      from_elf-Done addr (record vm { pg = pg }) q t

  evict_data-Tally :
      (v : Option ℕ) (vm : Vm) (k : ℕ) {r : ℕ × Vm}
      → evict_data p space v vm ≡ ok r
      → Tally k vm.stats
      → Tally k r.1.stats
  unfolding evict_data
  evict_data-Tally v vm k h t =
      let (x, e, q) = >>=-eq-ok (swap_out p.io_out (victim_addr v) vm) _ h in
      Tally-kept k
        ((alloc_kpages-Keeps (record x.1 { stats = count_swap_write x.1.stats }) q).stats)
        (count_swap_write-Tally k x.1.stats
          (Tally-kept k (swap_out-stats p.io_out (victim_addr v) vm e) t))

  data_frame-Tally :
      (vm : Vm) (k : ℕ) {r : ℕ × Vm}
      → data_frame p space vm ≡ ok r
      → Tally k vm.stats
      → Tally k r.1.stats
  unfolding data_frame
  data_frame-Tally vm k {r} h t =
      let (x, e, q) = >>=-eq-ok (alloc_kpages 1 vm) _ h in
      let t' = Tally-kept k ((alloc_kpages-Keeps vm e).stats) t in
      elim (Bool-cases (x.0 == 0)) [
        | inl z ↦ evict_data-Tally _ x.1 k (rw z at q) t'
        | inr n ↦ Tally-kept k (ground arith) t'
      ]

  evict_found-Tally :
      (v : Option ℕ) (vm : Vm) (k : ℕ) {r : ℕ × Vm}
      → evict_found p space v vm ≡ ok r
      → Tally k vm.stats
      → Tally k r.1.stats
  unfolding evict_found
  evict_found-Tally none vm k h t = absurd (ground arith)
  evict_found-Tally (some v) vm k h t = evict_data-Tally (some v) vm k h t

  data_frame_write-Tally :
      (vm : Vm) (k : ℕ) {r : ℕ × Vm}
      → data_frame_write p space vm ≡ ok r
      → Tally k vm.stats
      → Tally k r.1.stats
  unfolding data_frame_write
  data_frame_write-Tally vm k {r} h t =
      let (x, e, q) = >>=-eq-ok (alloc_kpages 1 vm) _ h in
      let t' = Tally-kept k ((alloc_kpages-Keeps vm e).stats) t in
      elim (Bool-cases (x.0 == 0)) [
        | inl z ↦ evict_found-Tally _ x.1 k (rw z at q) t'
        | inr n ↦ Tally-kept k (ground arith) t'
      ]

  drop_code-Tally :
      (v : Option ℕ) (vm : Vm) (k : ℕ) {r : ℕ × Vm}
      → drop_code p space v vm ≡ ok r
      → Tally k vm.stats
      → Tally k r.1.stats
  unfolding drop_code
  drop_code-Tally none vm k h t = absurd (ground arith)
  drop_code-Tally (some v) vm k h t =
      let (x, e, q) = >>=-eq-ok (free_kpages (add32 (mul32 v 4096) kseg0) vm) _ h in
      Tally-kept k ((alloc_kpages-Keeps x q).stats)
        (Tally-kept k ((free_kpages-Keeps _ vm e).stats) t)

  code_frame-Tally :
      (vm : Vm) (k : ℕ) {r : ℕ × Vm}
      → code_frame p space vm ≡ ok r
      → Tally k vm.stats
      → Tally k r.1.stats
  unfolding code_frame
  code_frame-Tally vm k {r} h t =
      let (x, e, q) = >>=-eq-ok (alloc_kpages 1 vm) _ h in
      let t' = Tally-kept k ((alloc_kpages-Keeps vm e).stats) t in
      elim (Bool-cases (x.0 == 0)) [
        | inl z ↦ drop_code-Tally _ x.1 k (rw z at q) t'
        | inr n ↦ Tally-kept k (ground arith) t'
      ]

  bring_in-Done :
      (index : ℕ) (vm : Vm) {r : Answer × Vm}
      → bring_in p space index vm ≡ ok r
      → Tally (suc d) vm.stats
      → Done d r
  unfolding bring_in
  bring_in-Done index vm h t =
      let (x, e, q) =
        >>=-eq-ok (swap_in p.io_in index (record vm { stats = count_swap_write vm.stats })) _ h in
      subst (Done d) (ground arith) (
        served_now d (code 0, record x.1 { stats = count_swap x.1.stats })
          (count_swap-Tally d x.1.stats (
            Tally-kept (suc d) (swap_in-stats p.io_in index _ e)
              (count_swap_write-Tally (suc d) vm.stats t))))

  -- Where a failing swapOut is answered by 0, it is assumed to succeed.
  exchange-Done :
      (on_error index : ℕ) (vm : Vm) {r : Answer × Vm}
      → (on_error ≢ 0)
        ⊎ ((x : ℕ × Vm)
            → swap_out p.io_out (victim_addr (victim_page_search data_kind space p.pid vm.pg)) vm
              ≡ ok x
            → x.0 ≡ 0)
      → exchange p space on_error index vm ≡ ok r
      → Tally (suc d) vm.stats
      → Done d r
  unfolding exchange
  exchange-Done on_error index vm {r} safe h t =
      let (x, e, q) =
        >>=-eq-ok
          (swap_out p.io_out (victim_addr (victim_page_search data_kind space p.pid vm.pg)) vm) _
          h in
      let t' = Tally-kept (suc d) (swap_out-stats p.io_out _ vm e) t in
      elim (Bool-cases (x.0 == 0)) [
        | inl z ↦ bring_in-Done index x.1 (rw z at q) t'
        | inr n ↦ elim safe [
          | inl ne ↦ subst (Done d) (ground arith) (not_served d on_error x.1 ne t')
          | inr good ↦ absurd (ground (arith, good x e))
        ]
      ]

  read_code-Done :
      (addr : ℕ) (vm : Vm) {r : Answer × Vm}
      → read_code p space addr vm ≡ ok r
      → Tally (suc d) vm.stats
      → Done d r
  unfolding read_code
  read_code-Done addr vm h t =
      let (x, e, q) = >>=-eq-ok (code_frame p space vm) _ h in
      load_page-Done addr x.0 x.1 q (code_frame-Tally vm (suc d) e t)

  read_data-Done :
      (slot : Option ℕ) (addr : ℕ) (vm : Vm) {r : Answer × Vm}
      → read_data p space slot addr vm ≡ ok r
      → Tally (suc d) vm.stats
      → Done d r
  unfolding read_data
  read_data-Done none addr vm h t =
      let (x, e, q) = >>=-eq-ok (data_frame p space vm) _ h in
      load_page-Done addr x.0 x.1 q (data_frame-Tally vm (suc d) e t)
  read_data-Done (some index) addr vm h t = exchange-Done 1 index vm (inl (omega arith)) h t

  reload-Done :
      (addr : ℕ) (vm : Vm) {r : Answer × Vm}
      → reload p space addr vm ≡ ok r
      → Tally (suc d) vm.stats
      → Done d r
  unfolding reload
  reload-Done addr vm h t =
      let (x, e, q) = >>=-eq-ok (add_tlb vm.pg addr p.pid vm.tlb) _ h in
      subst (Done d) (ground arith) (
        served_now d (code 0, record vm { tlb = x; stats = count_reload vm.stats })
          (count_reload-Tally d vm.stats t))

  read_absent-Done :
      (addr : ℕ) (vm : Vm) {r : Answer × Vm}
      → read_absent p space addr vm ≡ ok r
      → Tally (suc d) vm.stats
      → Done d r
  unfolding read_absent
  read_absent-Done addr vm {r} h t = elim (Bool-cases (is_code_segment addr space)) [
    | inl c ↦ read_code-Done (page_align addr) vm (rw c at h) t
    | inr c ↦ elim (Bool-cases (is_data_segment addr space)) [
      | inl s ↦ read_data-Done _ (page_align addr) vm (rw (c, s) at h) t
      | inr s ↦ subst (Done d) (ground arith) (not_served d einval vm (omega arith) t)
    ]
  ]

  module _ (safe : p.io_out.transfer_result ≡ 0) where
    swap_out-code : (a : ℕ) (vm : Vm) (x : ℕ × Vm) → swap_out p.io_out a vm ≡ ok x → x.0 ≡ 0
    unfolding swap_out
    swap_out-code a vm x h = ground (arith, safe)

    write_data-Done :
        (slot : Option ℕ) (addr : ℕ) (vm : Vm) {r : Answer × Vm}
        → write_data p space slot addr vm ≡ ok r
        → Tally (suc d) vm.stats
        → Done d r
    unfolding write_data
    write_data-Done none addr vm h t =
        let (x, e, q) = >>=-eq-ok (data_frame_write p space vm) _ h in
        load_page-Done addr x.0 x.1 q (data_frame_write-Tally vm (suc d) e t)
    write_data-Done (some index) addr vm h t =
        exchange-Done 0 index vm (inr (swap_out-code _ vm)) h t

    write_absent-Done :
        (addr : ℕ) (vm : Vm) {r : Answer × Vm}
        → write_absent p space addr vm ≡ ok r
        → Tally (suc d) vm.stats
        → Done d r
    unfolding write_absent
    write_absent-Done addr vm {r} h t = elim (Bool-cases (is_code_segment addr space)) [
      | inl c ↦ absurd (ground arith)
      | inr c ↦ elim (Bool-cases (is_data_segment addr space)) [
        | inl s ↦ write_data-Done _ (page_align addr) vm (rw (c, s) at h) t
        | inr s ↦ subst (Done d) (ground arith) (not_served d 1 vm (omega arith) t)
      ]
    ]

  handle-Done :
      (kind : FaultType) (addr : ℕ) (vm : Vm) {r : Answer × Vm}
      → (kind ≡ fault_write → p.io_out.transfer_result ≡ 0)
      → handle p space kind addr vm ≡ ok r
      → Tally (suc d) vm.stats
      → Done d r
  unfolding handle
  handle-Done fault_read addr vm {r} safe h t =
      elim (Bool-cases (is_positive (page_search vm.pg addr))) [
        | inl z ↦ reload-Done (page_align addr) vm (rw z at h) t
        | inr n ↦ read_absent-Done addr vm (rw n at h) t
      ]
  handle-Done fault_write addr vm {r} safe h t = elim (Option-cases (page_search vm.pg addr)) [
    | inl z ↦ write_absent-Done (safe refl) addr vm (rw (z, handle) at h) t
    | inr (i, z) ↦ reload-Done addr vm (rw (z, handle) at h) t
  ]
  handle-Done fault_readonly addr vm {r} safe h t =
      subst (Done d) {x = (exits, record vm { stats = uncount_fault vm.tlb.free vm.stats })}
        (ground arith)
        (record {
          served = λ e. uncount_fault-Tally d vm.tlb.free vm.stats t;
          either = inl (uncount_fault-Tally d vm.tlb.free vm.stats t);
        })
  handle-Done fault_other addr vm {r} safe h t =
      subst (Done d) (ground arith) (not_served d einval vm (omega arith) t)

-- Whatever the fault, if the three sums of print_vm_stat hold with `d` faults not served, load_elf
-- keeps them, and for a write fault the swap file takes the page that is written to it, then after
-- vm_fault they hold again, with `d` or `d + 1` faults not served, and with `d` if vm_fault returns 0.
pub vm_fault-Done :
    (d : ℕ) (p : Process) (kind : FaultType) (addr : ℕ) (vm : Vm) {r : Answer × Vm}
    → LoadKeeps p
    → (kind ≡ fault_write → p.io_out.transfer_result ≡ 0)
    → vm_fault p kind addr vm ≡ ok r
    → Tally d vm.stats
    → Done d r
unfolding vm_fault
vm_fault-Done d p kind addr vm {r} loads safe h t = elim (Option-cases p.space) [
  | inl z ↦
      subst (Done d) {x = (code efault, vm)} (ground arith)
        (record { served = λ e. t; either = inl t })
  | inr (space, z) ↦
      handle-Done d p space loads kind addr (record vm { stats = count_fault vm.tlb.free vm.stats })
        safe (rw z at h) (count_fault-Tally d vm.tlb.free vm.stats t)
]
