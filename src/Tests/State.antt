-- ===== src/Tests/State.antt =====
-- A machine of seven frames: two for the kernel, one code and one data page of process 2, two free
-- frames, and one for the page table.
use os22_crisologo_minichell.Base.{
  ℕ, zero, suc, ◌*◌, ◌≡◌, refl, arith, true, false, List, [], ◌∷◌, count, Outcome, ok, panic, fault,
}
use os22_crisologo_minichell.Segments.{AddrSpace}
use os22_crisologo_minichell.PageTable.{Entry}
use os22_crisologo_minichell.Tlb.{Tlb, invalidate_tlb}
use os22_crisologo_minichell.Tlb.Count
use os22_crisologo_minichell.Tlb.Count.{invalidate_tlb-IsWf, invalid_slots-hi}
use os22_crisologo_minichell.Tlb.Distinct.{Distinct}
use os22_crisologo_minichell.Vm.{Vm, Stats, SwapSlot}
use os22_crisologo_minichell.Frames.Wf.{IsWf, free_at, UserPages}
use os22_crisologo_minichell.Swap.{Io}

abbrev pub kernel_entry : Entry
kernel_entry = record { dirty = false; valid = true; pid = 0; page_number = 0; victim_counter = 0 }

abbrev pub code_entry : Entry
code_entry = record {
  dirty = false;
  valid = true;
  pid = 2;
  page_number = 0x400;
  victim_counter = 5;
}

abbrev pub data_entry : Entry
data_entry = record {
  dirty = true;
  valid = true;
  pid = 2;
  page_number = 0x10000;
  victim_counter = 7;
}

abbrev pub free_entry : Entry
free_entry = record { dirty = false; valid = false; pid = 0; page_number = 0; victim_counter = 0 }

abbrev pub table : List Entry
table =
    kernel_entry ∷ kernel_entry ∷ code_entry ∷ data_entry ∷ free_entry ∷ free_entry ∷ kernel_entry
    ∷ []

abbrev pub space : AddrSpace
space = record {
  vbase_code = 0x400000;
  npages_code = 1;
  npages_code_loaded = 1;
  vbase_data = 0x10000000;
  npages_data = 2;
  npages_data_loaded = 2;
  vbase_bss = 0;
  vbase_stack = 0x10002000;
}

abbrev pub no_slots : Tlb
no_slots = record { slots = []; free = 0; next_victim = 0; invalidations = 0 }

-- 64 invalid slots
abbrev pub fresh_tlb : Tlb
fresh_tlb = invalidate_tlb no_slots

abbrev pub slots_out : List SwapSlot
slots_out =
    record { p_number = 0x10001; p_pid = 2; p_offset = 0; dirty = true }
    ∷ record { p_number = 0; p_pid = 0; p_offset = 1; dirty = false }
    ∷ []

abbrev pub no_faults : Stats
no_faults = record {
  tlb_faults = 0;
  tlb_faults_wfree = 0;
  tlb_faults_wreplace = 0;
  tlb_reloads = 0;
  pf_zeroed = 0;
  pf_disk = 0;
  pf_elf = 0;
  pf_swapfile = 0;
  sf_writes = 0;
}

abbrev pub machine : Vm
machine = record {
  pg = table;
  pg_base = 6 * 4096;
  pt_counter = 8;
  frame_list = 4 ∷ 5 ∷ [];
  node_blocks = 10;
  tlb = fresh_tlb;
  sf_list = slots_out;
  memory = λ a. a;
  disk = λ o. 0;
  ram = record { firstpaddr = 0; lastpaddr = 0 };
  started = true;
  stats = no_faults;
}

abbrev pub good_io : Io
good_io = record { open_result = 0; transfer_result = 0 }

-- what a function that succeeds returns
abbrev pub result_or : {A : Type 0} → Outcome A → A → A
result_or (ok a) d = a
result_or panic d = d
result_or fault d = d

pub fresh-IsWf : Count.IsWf fresh_tlb
fresh-IsWf = (invalidate_tlb-IsWf no_slots (omega arith)).0

pub fresh-Distinct : Distinct fresh_tlb.slots
unfolding invalidate_tlb
fresh-Distinct j k r s g h e u = absurd (omega (arith, invalid_slots-hi 0 64 k s h))

machine_listed : (i : ℕ) → count i machine.frame_list ≡ free_at table i
machine_listed zero = refl
machine_listed (suc zero) = refl
machine_listed (suc (suc zero)) = refl
machine_listed (suc (suc (suc zero))) = refl
machine_listed (suc (suc (suc (suc zero)))) = refl
machine_listed (suc (suc (suc (suc (suc zero))))) = refl
machine_listed (suc (suc (suc (suc (suc (suc zero)))))) = refl
machine_listed (suc (suc (suc (suc (suc (suc (suc i))))))) = ground arith

machine_user : UserPages table
machine_user zero e g = ground arith
machine_user (suc zero) e g = ground arith
machine_user (suc (suc zero)) e g = ground arith
machine_user (suc (suc (suc zero))) e g = ground arith
machine_user (suc (suc (suc (suc zero)))) e g = ground arith
machine_user (suc (suc (suc (suc (suc zero))))) e g = ground arith
machine_user (suc (suc (suc (suc (suc (suc zero)))))) e g = ground arith
machine_user (suc (suc (suc (suc (suc (suc (suc i))))))) e g = ground arith

pub machine-IsWf : IsWf machine
machine-IsWf = record {
  started = refl;
  small = omega arith;
  listed = machine_listed;
  usable = λ i h. ground arith;
  user = machine_user;
  tlb = fresh-IsWf;
}
