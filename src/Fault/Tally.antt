-- ===== src/Fault/Tally.antt =====
-- The equations that print_vm_stat checks between the counters of vm/vmstats.c, through vm_fault.
use os22_crisologo_minichell.Base.{ℕ, suc, ◌+◌, ◌%◌, ◌^◌, ◌≡◌, arith, add32}
use os22_crisologo_minichell.Vm.{Stats}
use os22_crisologo_minichell.Fault.{
  count_fault, uncount_fault, count_reload, count_elf, count_swap, count_swap_write,
}

-- The three sums of print_vm_stat, as 32-bit numbers, where `d` faults have not been served: (b) + (c)
-- is (a), (h) + (i) is (g), and (e) + (g) + (f) + d is (a).
pub record Tally (d : ℕ) (s : Stats) : Type 0 where
  pub faults : add32 s.tlb_faults_wfree s.tlb_faults_wreplace ≡ s.tlb_faults
  pub disk : add32 s.pf_elf s.pf_swapfile ≡ s.pf_disk
  pub served : (s.tlb_reloads + s.pf_disk + s.pf_zeroed + d) % 2 ^ 32 ≡ s.tlb_faults

pub count_fault-Tally : (d free : ℕ) (s : Stats) → Tally d s → Tally (suc d) (count_fault free s)
unfolding count_fault
count_fault-Tally d free s t = ground arith

pub uncount_fault-Tally :
    (d free : ℕ) (s : Stats) → Tally (suc d) s → Tally d (uncount_fault free s)
unfolding uncount_fault
uncount_fault-Tally d free s t = ground arith

pub count_reload-Tally : (d : ℕ) (s : Stats) → Tally (suc d) s → Tally d (count_reload s)
unfolding count_reload
count_reload-Tally d s t = ground arith

pub count_elf-Tally : (d : ℕ) (s : Stats) → Tally (suc d) s → Tally d (count_elf s)
unfolding count_elf
count_elf-Tally d s t = ground arith

pub count_swap-Tally : (d : ℕ) (s : Stats) → Tally (suc d) s → Tally d (count_swap s)
unfolding count_swap
count_swap-Tally d s t = ground arith

pub count_swap_write-Tally : (d : ℕ) (s : Stats) → Tally d s → Tally d (count_swap_write s)
unfolding count_swap_write
count_swap_write-Tally d s t = ground arith
