-- ===== src/Tlb/Total.antt =====
-- When addTLB returns.
use os22_crisologo_minichell.Base.{
  ℕ, ◌+◌, ◌/◌, ◌%◌, ◌^◌, ◌<◌, ◌≡◌, inl, inr, Bool, true, none, some, List, arith, Option-cases,
  length, get_elem?, set, get_elem?-set_self, lt_of_get_elem?, find_from, find-IsFirst, find_some,
  page_align, sub32, ok,
}
use os22_crisologo_minichell.PageTable.{Entry}
use os22_crisologo_minichell.Tlb.{
  Slot, Tlb, holds_vpage, tlb_probe, find_frame, write_checked, install, add_tlb,
}
use os22_crisologo_minichell.Tlb.Install.{is_invalid, slot_for}
use os22_crisologo_minichell.Tlb.Count.{IsWf}

-- The probe after a write finds the page that was written.
write_checked-ok :
    (t : Tlb) (i : ℕ) (s : Slot) → i < length t.slots → write_checked t i s ≡ ok (set t.slots i s)
unfolding write_checked
write_checked-ok t i s l =
    let (k, e, b) =
      find_some (holds_vpage s.hi) (set t.slots i s) i (get_elem?-set_self t.slots i s l)
        (ground arith) in
    ground (arith, e)

install-total :
    (t : Tlb) (hi frame : ℕ) (dirty : Bool)
    → IsWf t
    → (t' : Tlb) × (install t hi frame dirty ≡ ok t')
unfolding install
install-total t hi frame dirty w = elim (Option-cases (find_from is_invalid t.slots 0)) [
  | inl e ↦ (
    record t {
      slots = set t.slots t.next_victim (slot_for hi frame true);
      next_victim = (t.next_victim + 1) % 64;
    },
    ground (
      arith,
      e,
      write_checked-ok (record t { next_victim = (t.next_victim + 1) % 64 }) t.next_victim
          (slot_for hi frame true),
      w.size,
      w.pointer,
    ),
  )
  | inr (i, e) ↦ (
    record t { slots = set t.slots i (slot_for hi frame dirty); free = sub32 t.free 1 },
    ground (
      arith,
      e,
      write_checked-ok t i (slot_for hi frame dirty),
      lt_of_get_elem? t.slots i (find-IsFirst is_invalid t.slots e).at,
    ),
  )
]

-- addTLB returns if the process has a frame for the page, below 2 ^ 17, and no slot holds the page.
pub add_tlb-total :
    (pg : List Entry) (vaddr pid i : ℕ) (t : Tlb) {e : Entry}
    → IsWf t
    → i < 2 ^ 17
    → find_frame pg (vaddr / 4096) pid ≡ some i
    → get_elem? pg i ≡ some e
    → tlb_probe t.slots (page_align vaddr) ≡ none
    → (t' : Tlb) × (add_tlb pg vaddr pid t ≡ ok t')
unfolding add_tlb
add_tlb-total pg vaddr pid i t {e} w l f g p =
    let (t', q) = install-total t (page_align vaddr) i e.dirty w in (t', ground (arith, f, g, p, q))
