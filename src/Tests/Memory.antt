-- ===== src/Tests/Memory.antt =====
-- The frame allocator and as_destroy on the machine of Tests/State.antt.
use os22_crisologo_minichell.Base.{
  ℕ, zero, suc, ◌+◌, ◌*◌, ◌<◌, ◌≤◌, ◌⊎◌, ◌≡◌, refl, arith, some, [], ◌∷◌, get_elem?, kseg0, ok,
  fault, false, find_from, true, panic,
}
use os22_crisologo_minichell.Base.{false, find_from}
use os22_crisologo_minichell.Segments.{AddrSpace}
use os22_crisologo_minichell.PageTable.{add_pt}
use os22_crisologo_minichell.Tlb.{add_tlb, find_frame, install, is_valid, write_checked, entry_lo}
use os22_crisologo_minichell.Frames.{
  alloc_pages, alloc_started, alloc_frames, check_loop, take_frames, take_frame, first_addr,
}
use os22_crisologo_minichell.Frames.Pages.{Gives, alloc_pages-IsWf}
use os22_crisologo_minichell.Space.{
  as_define_region, code_region, define_pages, define_page, cache_page,
}
use os22_crisologo_minichell.Space.Region.{as_define_region-IsWf}
use os22_crisologo_minichell.Tests.State.{space, data_entry}
use os22_crisologo_minichell.PageTable.{Entry}
use os22_crisologo_minichell.Tlb.{
  remove_tlb_v1, tlb_probe, holds_vpage, invalidate_tlb, invalid_slots, invalid_slot, release,
}
use os22_crisologo_minichell.Tlb.Translate.{Coherent}
use os22_crisologo_minichell.Vm.{Vm}
use os22_crisologo_minichell.Frames.{
  add_first, kmalloc_node, free_frame, check_free_frame, alloc_kpages, free_kpages,
}
use os22_crisologo_minichell.Frames.Wf.{IsWf}
use os22_crisologo_minichell.Frames.Alloc.{Taken, alloc_kpages_one}
use os22_crisologo_minichell.Frames.Free.{
  after_free, free_kpages-after_free, free_kpages_twice, alloc-free_kpages,
}
use os22_crisologo_minichell.Frames.Size.{alloc_kpages-short}
use os22_crisologo_minichell.Space.{destroy_from, is_owned, as_destroy}
use os22_crisologo_minichell.Space.Destroy.{OwnedUsable, as_destroy_lem}
use os22_crisologo_minichell.Tests.State.{table, machine, machine-IsWf, result_or}

alloc_kpages_one_example :
    ((machine.frame_list ≡ []) × (alloc_kpages 1 machine ≡ ok (0, machine)))
    ⊎ ((i : ℕ) × (vm' : Vm) × (alloc_kpages 1 machine ≡ ok (kseg0 + i * 4096, vm'))
        × Taken machine i vm'
        × ((a : ℕ) → i * 4096 ≤ a → a < i * 4096 + 4096 → vm'.memory a ≡ 0)
        × ((a : ℕ) → (a < i * 4096) ⊎ (i * 4096 + 4096 ≤ a) → vm'.memory a ≡ machine.memory a))
alloc_kpages_one_example = alloc_kpages_one machine-IsWf

alloc-free_kpages_example :
    (vm' vm'' : Vm) × (free_kpages (kseg0 + 3 * 4096) machine ≡ ok vm')
    × IsWf vm'
    × (alloc_kpages 1 vm' ≡ ok (kseg0 + 3 * 4096, vm''))
    × (vm''.frame_list ≡ 4 ∷ 5 ∷ [])
    × (vm''.node_blocks ≡ 10)
alloc-free_kpages_example =
    alloc-free_kpages {vm = machine} 3 machine-IsWf refl refl (omega arith) (omega arith)
      (omega arith)

free_kpages_twice_example : free_kpages (kseg0 + 3 * 4096) (after_free 3 data_entry machine) ≡ panic
free_kpages_twice_example =
    free_kpages_twice {vm = machine} 3 machine-IsWf refl (omega arith) (omega arith) (omega arith)
      (free_kpages-after_free 3 machine-IsWf refl refl (omega arith))

alloc_kpages-short_example : alloc_kpages 3 machine ≡ fault
alloc_kpages-short_example = alloc_kpages-short {vm = machine} 0 machine-IsWf refl (omega arith)

abbrev no_frames : Vm
no_frames = record machine { frame_list = [] }

machine-OwnedUsable : OwnedUsable 2 machine
machine-OwnedUsable zero e g o = ground arith
machine-OwnedUsable (suc zero) e g o = ground arith
machine-OwnedUsable (suc (suc zero)) e g o = omega arith
machine-OwnedUsable (suc (suc (suc zero))) e g o = omega arith
machine-OwnedUsable (suc (suc (suc (suc zero)))) e g o = omega arith
machine-OwnedUsable (suc (suc (suc (suc (suc zero))))) e g o = omega arith
machine-OwnedUsable (suc (suc (suc (suc (suc (suc zero)))))) e g o = ground arith
machine-OwnedUsable (suc (suc (suc (suc (suc (suc (suc j))))))) e g o = ground arith

abbrev destroyed : Vm
destroyed = result_or (as_destroy 2 machine) machine

destroyed_ok : as_destroy 2 machine ≡ ok destroyed
unfolding as_destroy destroy_from free_kpages free_frame add_first kmalloc_node remove_tlb_v1
    tlb_probe find_from holds_vpage invalidate_tlb invalid_slots invalid_slot release
destroyed_ok = refl

as_destroy_lem_example :
    IsWf destroyed
    × ((j : ℕ) (e : Entry) → get_elem? destroyed.pg j ≡ some e → is_owned 2 e ≡ false)
    × ((j : ℕ) (e : Entry)
        → get_elem? table j ≡ some e
        → is_owned 2 e ≡ false
        → get_elem? destroyed.pg j ≡ some e)
    × ((q : ℕ) → Coherent destroyed.pg q destroyed.tlb.slots)
as_destroy_lem_example =
    as_destroy_lem 2 {vm = machine} machine-IsWf machine-OwnedUsable (omega arith) destroyed_ok

alloc_pages-IsWf_example : Gives 0x10003000 2 true (omega arith) 2 machine
alloc_pages-IsWf_example =
    alloc_pages-IsWf 0x10003000 2 true (omega arith) 2 machine machine-IsWf (omega arith)

-- the program's code, 100 bytes from 0x600000 on
abbrev region : AddrSpace × Vm
region = result_or (as_define_region 2 0x600000 100 true false true space machine) (space, machine)

region_ok : as_define_region 2 0x600000 100 true false true space machine ≡ ok region
unfolding as_define_region code_region define_pages define_page cache_page alloc_pages alloc_kpages
    alloc_started alloc_frames check_free_frame check_loop take_frames take_frame first_addr add_pt
    add_tlb find_frame find_from install is_valid write_checked entry_lo tlb_probe holds_vpage
    invalidate_tlb invalid_slots invalid_slot
region_ok = refl

as_define_region-IsWf_example : IsWf region.1
as_define_region-IsWf_example =
    as_define_region-IsWf 2 0x600000 100 true false true space machine (omega arith) (omega arith)
      machine-IsWf region_ok
