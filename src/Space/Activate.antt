-- ===== src/Space/Activate.antt =====
-- as_activate: when the TLB is emptied.
use os22_crisologo_minichell.Base.{ℕ, ◌<◌, ◌≡◌, ◌≢◌, arith, some, List, ==-of_ne}
use os22_crisologo_minichell.Segments.{AddrSpace}
use os22_crisologo_minichell.PageTable.{Entry}
use os22_crisologo_minichell.Tlb.{Tlb}
use os22_crisologo_minichell.Tlb.Translate.{Coherent, invalidate_tlb-Coherent}
use os22_crisologo_minichell.Space.{as_activate}

-- A process of pid 2 or above is given a TLB that agrees with its page table, whatever process ran
-- before, if TLB_PID holds a value that a _Bool can hold.
pub as_activate-Coherent :
    (pg : List Entry) (space : AddrSpace) (pid tlb_pid : ℕ) (t : Tlb)
    → tlb_pid < 2
    → 1 < pid
    → Coherent pg pid (as_activate (some space) pid tlb_pid t).1.slots
unfolding as_activate
as_activate-Coherent pg space pid tlb_pid t b h =
    rw (==-of_ne pid tlb_pid (omega arith)) (invalidate_tlb-Coherent pg pid t)

-- When a process of any nonzero pid has been activated, a following activation of the process of pid
-- 1 leaves the TLB as the first process has filled it: TLB_PID is a _Bool, and holds 1 for both.
pub as_activate-stale :
    (first second : AddrSpace) (pid tlb_pid : ℕ) (t t' : Tlb)
    → pid ≢ 0
    → pid ≢ tlb_pid
    → as_activate (some second) 1 (as_activate (some first) pid tlb_pid t).0 t' ≡ (1, t')
unfolding as_activate
as_activate-stale first second pid tlb_pid t t' n d = ground arith
