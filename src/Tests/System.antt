-- ===== src/Tests/System.antt =====
-- The swap file, a page fault and the start of the VM system at concrete machines.
use os22_crisologo_minichell.Base.{
  ℕ, zero, suc, ◌+◌, ◌*◌, ◌<◌, ◌≤◌, ◌⊎◌, ◌≡◌, refl, arith, false, none, some, [], ◌∷◌, get_elem?,
  kseg0, ok, find_from,
}
use os22_crisologo_minichell.Vm.{Vm, SwapSlot}
use os22_crisologo_minichell.Frames.Wf.{IsWf}
use os22_crisologo_minichell.Swap.{Io, swap_out, sf_free_search, swap_in, sf_page_search}
use os22_crisologo_minichell.Swap.Out.{IsTable, InUse, Succeeds, swap_out_lem}
use os22_crisologo_minichell.Swap.RoundTrip.{Unique, SameFrame, swap_in-swap_out}
use os22_crisologo_minichell.Boot.{vm_bootstrap}
use os22_crisologo_minichell.Boot.Layout.{range}
use os22_crisologo_minichell.Boot.Wf.{CanBoot, vm_bootstrap-IsWf}
use os22_crisologo_minichell.Tests.State.{
  data_entry, machine, machine-IsWf, fresh-Distinct, good_io, no_slots,
}

data-InUse : InUse machine 3 data_entry
data-InUse = record {
  at = refl;
  valid = refl;
  above = omega arith;
  below = omega arith;
  room = omega arith;
  user = ground arith;
  byte = omega arith;
}

slots_in_order : IsTable machine.sf_list
slots_in_order = record { size = omega arith; offsets = at }
  where
    at : (k : ℕ) (s : SwapSlot) → get_elem? machine.sf_list k ≡ some s → s.p_offset ≡ k
    at zero s g = ground arith
    at (suc zero) s g = ground arith
    at (suc (suc k)) s g = ground arith

good-Succeeds : Succeeds good_io
good-Succeeds = record { opened = refl; moved = refl }

data-Unique : Unique machine 3 data_entry
data-Unique zero b g o = ground arith
data-Unique (suc zero) b g o = ground arith
data-Unique (suc (suc zero)) b g o = ground arith
data-Unique (suc (suc (suc zero))) b g o = refl
data-Unique (suc (suc (suc (suc zero)))) b g o = ground arith
data-Unique (suc (suc (suc (suc (suc zero))))) b g o = ground arith
data-Unique (suc (suc (suc (suc (suc (suc zero)))))) b g o = ground arith
data-Unique (suc (suc (suc (suc (suc (suc (suc j))))))) b g o = ground arith

second_slot_free : sf_free_search machine.sf_list ≡ some 1
unfolding sf_free_search find_from
second_slot_free = refl

page_not_out : sf_page_search machine.sf_list 0x10000 2 ≡ none
unfolding sf_page_search find_from
page_not_out = refl

swap_out_lem_example :
    (vm' : Vm) × (swap_out good_io (kseg0 + 3 * 4096) machine ≡ ok (0, vm'))
    × IsWf vm'
    × (vm'.frame_list ≡ 3 ∷ 4 ∷ 5 ∷ [])
    × ((a : ℕ) → a < 4096 → vm'.disk (1 * 4096 + a) ≡ machine.memory (3 * 4096 + a))
    × ((o : ℕ) → (o < 1 * 4096) ⊎ (1 * 4096 + 4096 ≤ o) → vm'.disk o ≡ machine.disk o)
    × (sf_page_search vm'.sf_list 0x10000 2 ≡ some 1)
swap_out_lem_example =
    swap_out_lem {vm = machine} {i = 3} {e = data_entry} {io = good_io} 1 machine-IsWf data-InUse
      slots_in_order good-Succeeds second_slot_free page_not_out

swap_in-swap_out_example :
    (vm' vm'' : Vm) × (swap_out good_io (kseg0 + 3 * 4096) machine ≡ ok (0, vm'))
    × (swap_in good_io 1 vm' ≡ ok (0, vm''))
    × SameFrame machine 3 data_entry vm''
swap_in-swap_out_example =
    swap_in-swap_out {vm = machine} {i = 3} {e = data_entry} {io = good_io} 1 machine-IsWf
      data-InUse slots_in_order good-Succeeds data-Unique fresh-Distinct second_slot_free

abbrev bad_io : Io
bad_io = record { open_result = 0; transfer_result = 5 }

-- 32 KiB of memory, of which the kernel takes 8
abbrev small_machine : Vm
small_machine = record machine {
  ram = record { firstpaddr = 8192; lastpaddr = 32768 };
  frame_list = [];
  node_blocks = 20;
  tlb = no_slots;
  started = false;
}

small-CanBoot : CanBoot small_machine
small-CanBoot = record {
  whole = refl;
  size = omega arith;
  kernel = omega arith;
  fits = omega arith;
  blocks = omega arith;
  no_frames = refl;
  pointer = omega arith;
}

vm_bootstrap-IsWf_example :
    (vm' : Vm) × (vm_bootstrap good_io small_machine ≡ ok vm')
    × IsWf vm'
    × (vm'.frame_list ≡ 2 ∷ 3 ∷ 4 ∷ 5 ∷ 6 ∷ [])
unfolding range
vm_bootstrap-IsWf_example = vm_bootstrap-IsWf good_io small_machine small-CanBoot refl
