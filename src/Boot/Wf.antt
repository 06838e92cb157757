-- ===== src/Boot/Wf.antt =====
-- vm_bootstrap establishes the invariant of the frame allocator.
use os22_crisologo_minichell.Base.{
  ℕ, ◌+◌, ◌-◌, ◌*◌, ◌/◌, ◌%◌, ◌^◌, ◌<◌, ◌≤◌, ◌≡◌, refl, sym, ap, subst, ◌∙◌, true, some, List, [],
  ◌++◌, arith, length, get_elem?, replicate, count, ok,
}
use native.Mathlib.Decide.{dec_lt}
use os22_crisologo_minichell.PageTable.{Entry}
use os22_crisologo_minichell.Tlb.{invalidate_tlb}
use os22_crisologo_minichell.Tlb.Count
use os22_crisologo_minichell.Vm.{Vm}
use os22_crisologo_minichell.Frames.Wf.{free_at, IsWf}
use os22_crisologo_minichell.Swap.{Io, swapfile_init, empty_slots}
use os22_crisologo_minichell.Boot.{
  empty_entry, reserve_low, reserve_high, boot_tlb, location, table_frames, laid_out, fill_from,
  vm_bootstrap,
}
use os22_crisologo_minichell.Boot.Layout.{
  length-reserve_low, free_at-reserve_low, length-reserve_high, free_at-reserve_high,
  length-replicate, free_at-replicate, free_at-out, AllZero, AllZero-reserve_low,
  AllZero-reserve_high, AllZero-replicate, range, count-range, fill_from-range, with_frames, extra,
}

-- A machine on which the system can start: whole pages of memory, at most 512 MB, with the kernel's
-- end between the first page and the place of the page table, an empty frame list, and a heap with a
-- block for each frame and one more.
pub record CanBoot (vm : Vm) : Type 0 where
  pub whole : vm.ram.lastpaddr % 4096 ≡ 0
  pub size : vm.ram.lastpaddr ≤ 2 ^ 29
  pub kernel : 4096 ≤ vm.ram.firstpaddr
  pub fits : vm.ram.firstpaddr ≤ location vm.ram.lastpaddr
  pub blocks : vm.ram.lastpaddr / 4096 < vm.node_blocks
  pub no_frames : vm.frame_list ≡ []
  pub pointer : vm.tlb.next_victim < 64

module _ (vm : Vm) (c : CanBoot vm) where
  entries : ℕ
  entries = vm.ram.lastpaddr / 4096

  first : ℕ
  first = vm.ram.firstpaddr / 4096

  high : ℕ
  high = table_frames vm.ram.lastpaddr

  -- the page table takes whole frames at the end of memory
  high_lem :
      (high ≤ entries)
      × (location vm.ram.lastpaddr ≡ (entries - high) * 4096)
      × (first + (entries - high - first) ≡ entries - high)
  unfolding entries first high
  high_lem = (
    omega (arith, c.whole, c.size),
    omega (arith, c.whole, c.size),
    omega (arith, c.whole, c.size, c.fits),
  )

  table : List Entry
  unfolding entries first high
  table = reserve_high entries high (reserve_low first (replicate entries empty_entry))

  length-table : length table ≡ entries
  unfolding table
  length-table =
      length-reserve_high entries high (reserve_low first (replicate entries empty_entry))
      ∙ (length-reserve_low first (replicate entries empty_entry)
          ∙ length-replicate entries empty_entry)

  -- the free entries are those between the kernel and the table
  free_at-table : (j : ℕ) → free_at table j ≡ count j (range first (entries - high - first))
  unfolding table
  free_at-table j = elim (dec_lt j entries) [
    | yes l ↦ ground (
      arith,
      free_at-reserve_high entries high (reserve_low first (replicate entries empty_entry)) j
          (high_lem.0) l,
      free_at-reserve_low first (replicate entries empty_entry) j,
      free_at-replicate entries j,
      count-range first (entries - high - first) j,
      high_lem,
    )
    | no n ↦ ground (
      arith,
      free_at-out table j (omega (arith, length-table)),
      count-range first (entries - high - first) j,
      high_lem,
    )
  ]

  -- the state that swapfile_init and the last loop start from
  boot_tlb-IsWf : Count.IsWf (boot_tlb vm.tlb)
  unfolding boot_tlb invalidate_tlb
  boot_tlb-IsWf =
      let w = (Count.invalidate_tlb-IsWf vm.tlb c.pointer).0 in
      record { size = w.size; counted = w.counted; pointer = w.pointer; parked = w.parked }

  -- the frame list of the booted system
  free_frames : List ℕ
  unfolding entries first high
  free_frames = range first (entries - high - first)

  booted-IsWf :
      (vm' : Vm)
      → vm'.started ≡ true
      → vm'.pg ≡ table
      → vm'.pg_base ≡ location vm.ram.lastpaddr
      → vm'.tlb ≡ boot_tlb vm.tlb
      → vm'.frame_list ≡ free_frames
      → IsWf vm'
  unfolding free_frames table
  booted-IsWf vm' s p b t f = record {
    started = s;
    small = ground (arith, ap length p, length-table, c.size, small);
    listed = λ j. ap (count j) f ∙ (sym (free_at-table j) ∙ ap (λ x. free_at x j) (sym p));
    usable = λ j h. in_range j (subst (λ x. 0 < count j x) f h);
    user = λ j e g. ground (arith, zero j e (subst (λ x. get_elem? x j ≡ some e) p g));
    tlb = subst Count.IsWf (sym t) boot_tlb-IsWf;
  }
    where
      small : entries ≤ 2 ^ 17
      small = omega (arith, c.size)

      zero : AllZero table
      zero =
          AllZero-reserve_high entries high (reserve_low first (replicate entries empty_entry))
            (AllZero-reserve_low first (replicate entries empty_entry) (AllZero-replicate entries))

      in_range :
          (j : ℕ)
          → 0 < count j (range first (entries - high - first))
          → (0 < j) × (j * 4096 < vm'.pg_base)
      in_range j h =
          ground (arith, count-range first (entries - high - first) j, high_lem, c.kernel, b)

swapfile_init-ok :
    (io : Io) (vm : Vm)
    → io.open_result ≡ 0
    → swapfile_init io vm ≡ ok (record vm { sf_list = empty_slots 0 2304 })
unfolding swapfile_init
swapfile_init-ok io vm o = ground (arith, o)

-- the two failing steps of vm_bootstrap in sequence
boot_steps :
    (io : Io) (vm : Vm) {b r : Vm}
    → swapfile_init io (laid_out vm) ≡ ok b
    → fill_from
        (vm.ram.firstpaddr / 4096)
        (vm.ram.lastpaddr / 4096 - table_frames vm.ram.lastpaddr - vm.ram.firstpaddr / 4096)
        (record b { started = true })
      ≡ ok r
    → vm_bootstrap io vm ≡ ok r
unfolding vm_bootstrap
boot_steps io vm e f = rw e f

-- Let memory be whole pages, at most 512 MiB, with the kernel's end at or above the first page and
-- not past the place of the page table, the frame list empty, the TLB's pointer to the next victim
-- below 64, and a free heap block for a list node for every frame of memory and one more, so that
-- no page has to be taken for nodes. When the swap file opens, vm_bootstrap returns a well formed
-- state whose frame list holds, in order, exactly the frames between the kernel's end and the page
-- table.
pub vm_bootstrap-IsWf :
    (io : Io) (vm : Vm)
    → CanBoot vm
    → io.open_result ≡ 0
    → (vm' : Vm) × (vm_bootstrap io vm ≡ ok vm')
      × IsWf vm'
      × (vm'.frame_list
          ≡ range
              (vm.ram.firstpaddr / 4096)
              (location vm.ram.lastpaddr / 4096 - vm.ram.firstpaddr / 4096))
unfolding laid_out entries first high free_frames table
vm_bootstrap-IsWf io vm c o =
    let b : Vm = record (laid_out vm) { sf_list = empty_slots 0 2304; started = true } in
    let no_list =
      ap (λ l. l ++ range (first vm c) (entries vm c - high vm c - first vm c)) c.no_frames in
    let (k, e) =
      fill_from-range (first vm c) (entries vm c - high vm c - first vm c) b
        (omega (arith, length-table vm c, high_lem vm c))
        (omega (arith, ap extra c.no_frames, c.blocks)) in
    (
      with_frames (b.frame_list ++ range (first vm c) (entries vm c - high vm c - first vm c)) k b,
      boot_steps io vm (swapfile_init-ok io (laid_out vm) o) e,
      booted-IsWf vm c _ refl refl refl refl no_list,
      no_list ∙ ap (range (first vm c)) (omega (arith, high_lem vm c)),
    )
