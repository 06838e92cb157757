-- ===== src/Tlb.antt =====
-- vm/vm_tlb.c, over the hardware TLB as arch/mips/include/tlb.h describes it: 64 slots that are read
-- and written by index, and a probe that looks for a virtual page.
pub mod Bits
pub mod Install
pub mod Count
pub mod Translate
pub mod Distinct
pub mod Total
use os22_crisologo_minichell.Base.{
  ℕ, zero, suc, ◌+◌, ◌*◌, ◌/◌, ◌%◌, Bool, true, false, not, ◌&&◌, Option, none, some, List, [], ◌∷◌,
  ltb, ◌==◌, if◌then◌else◌, get_elem?, set, find_from, kseg0, page_align, add32, sub32, mul32,
  Outcome, ok, ◌>>=◌, panic,
}
use os22_crisologo_minichell.PageTable.{Entry}

-- ENTRYHI and ENTRYLO
pub record Slot : Type 0 where
  pub hi : ℕ
  pub lo : ℕ

-- The slots and the variables `freeTLBEntries`, `next_victim` and `TLB_Invalidations`.
pub record Tlb : Type 0 where
  pub slots : List Slot
  pub free : ℕ
  pub next_victim : ℕ
  pub invalidations : ℕ

abbrev pub num_tlb : ℕ
num_tlb = 64

abbrev pub tlblo_dirty : ℕ
tlblo_dirty = 0x400

abbrev pub tlblo_valid : ℕ
tlblo_valid = 0x200

-- `lo & TLBLO_VALID`, `lo & TLBLO_DIRTY`
unfoldable pub is_valid : Slot → Bool
is_valid s = s.lo / 0x200 % 2 == 1

unfoldable pub is_dirty : Slot → Bool
is_dirty s = s.lo / 0x400 % 2 == 1

unfoldable pub invalid_slot : ℕ → Slot
invalid_slot i = record { hi = (0x80000 + i) * 4096; lo = 0 }

unfoldable pub holds_vpage : ℕ → Slot → Bool
holds_vpage hi s = s.hi / 4096 == hi / 4096

unfoldable pub tlb_probe : List Slot → ℕ → Option ℕ
unfolding holds_vpage
tlb_probe slots hi = find_from (holds_vpage hi) slots 0

-- The test of addTLB on the page table.
abbrev pub owns_page : ℕ → ℕ → Entry → Bool
owns_page page pid e = e.valid && (e.page_number == page && e.pid == pid)

unfoldable pub find_frame : List Entry → ℕ → ℕ → Option ℕ
find_frame pg page pid = find_from (owns_page page pid) pg 0

-- ENTRYLO for a frame: its address is page aligned, so `|` is `+`.
unfoldable pub entry_lo : ℕ → Bool → ℕ
entry_lo frame dirty = mul32 frame 4096 + tlblo_valid + (if dirty then tlblo_dirty else 0)

-- The write into the slot `i` and the probe that follows it.
unfoldable pub write_checked : Tlb → ℕ → Slot → Outcome (List Slot)
unfolding tlb_probe
write_checked t i s =
    let slots' = set t.slots i s in
    elim (tlb_probe slots' s.hi) [ none ↦ panic | some k ↦ ok slots' ]

unfoldable pub tlb_get_rr_victim : Tlb → ℕ × Tlb
tlb_get_rr_victim t = (t.next_victim, record t { next_victim = (t.next_victim + 1) % num_tlb })

-- addTLB from its second loop on: a free slot, or the victim of tlb_get_rr_victim. A replaced slot
-- is always made writable.
unfoldable pub install : Tlb → ℕ → ℕ → Bool → Outcome Tlb
unfolding is_valid write_checked entry_lo tlb_get_rr_victim
install t hi frame dirty = elim (find_from (λ s. not (is_valid s)) t.slots 0) [
  | some i ↦ do
    slots' ← write_checked t i (record { hi = hi; lo = entry_lo frame dirty })
    ok (record t { slots = slots'; free = sub32 t.free 1 })
  | none ↦
      let (victim, t') = tlb_get_rr_victim t in
      do
        slots' ← write_checked t' victim (record { hi = hi; lo = entry_lo frame true })
        ok (record t' { slots = slots' })
]

-- `tlb_probe(ehi, elo) > 0`
abbrev pub is_positive : Option ℕ → Bool
is_positive none = false
is_positive (some i) = ltb 0 i

unfoldable pub add_tlb : List Entry → ℕ → ℕ → Tlb → Outcome Tlb
unfolding find_frame install tlb_probe
add_tlb pg vaddr pid t = elim (find_frame pg (vaddr / 4096) pid) [
  | none ↦ panic
  | some i ↦ elim (get_elem? pg i) [
    | none ↦ panic
    | some e ↦
        if add32 (mul32 i 4096) kseg0 == 0
        then panic
        else if is_positive (tlb_probe t.slots (page_align vaddr))
        then panic
        else install t (page_align vaddr) i e.dirty
  ]
]

-- The slot made invalid and counted as free.
unfoldable pub release : Tlb → ℕ → Tlb
unfolding invalid_slot
release t i = record t { slots = set t.slots i (invalid_slot i); free = add32 t.free 1 }

unfoldable pub remove_tlb : ℕ → Tlb → Tlb
unfolding release
remove_tlb vaddr t = elim (find_from (λ s. s.hi == page_align vaddr) t.slots 0) [
  | none ↦ t
  | some i ↦ release t i
]

unfoldable pub remove_tlb_v1 : ℕ → Tlb → Tlb
unfolding release tlb_probe
remove_tlb_v1 vaddr t = elim (tlb_probe t.slots (page_align vaddr)) [
  | none ↦ t
  | some i ↦ release t i
]

-- the loop that fills the slots `i`, ..., `i + n - 1`
unfoldable pub invalid_slots : ℕ → ℕ → List Slot
unfolding invalid_slot
invalid_slots i zero = []
invalid_slots i (suc n) = invalid_slot i ∷ invalid_slots (i + 1) n

unfoldable pub invalidate_tlb : Tlb → Tlb
unfolding invalid_slots
invalidate_tlb t = record t {
  slots = invalid_slots 0 num_tlb;
  free = num_tlb;
  invalidations = add32 t.invalidations 1;
}
