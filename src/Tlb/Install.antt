-- ===== src/Tlb/Install.antt =====
-- What a successful addTLB has done, by cases.
use os22_crisologo_minichell.Base.{
  ℕ, ◌+◌, ◌/◌, ◌%◌, ◌≡◌, inl, inr, Bool, true, false, not, some, List, arith, Option-cases, set,
  find_from, IsFirst, NoneHolds, find-IsFirst, find-NoneHolds, page_align, sub32, ok,
}
use os22_crisologo_minichell.PageTable.{Entry}
use os22_crisologo_minichell.Tlb.{
  Slot, Tlb, is_valid, tlb_probe, owns_page, entry_lo, install, is_positive, add_tlb,
}

abbrev pub is_invalid : Slot → Bool
is_invalid s = not (is_valid s)

-- the slot that is written
abbrev pub slot_for : ℕ → ℕ → Bool → Slot
slot_for hi frame dirty = record { hi = hi; lo = entry_lo frame dirty }

pub data Installed (t : Tlb) (hi frame : ℕ) (dirty : Bool) (t' : Tlb) : Type 0 where
  filled :
      (i : ℕ)
      → IsFirst is_invalid t.slots i
      → t' ≡ record t { slots = set t.slots i (slot_for hi frame dirty); free = sub32 t.free 1 }
      → Installed t hi frame dirty t'
  replaced :
      NoneHolds is_invalid t.slots
      → t' ≡ record t {
        slots = set t.slots t.next_victim (slot_for hi frame true);
        next_victim = (t.next_victim + 1) % 64;
      }
      → Installed t hi frame dirty t'

pub install-Installed :
    (t : Tlb) (hi frame : ℕ) (dirty : Bool) {t' : Tlb}
    → install t hi frame dirty ≡ ok t'
    → Installed t hi frame dirty t'
unfolding install
install-Installed t hi frame dirty h = elim (Option-cases (find_from is_invalid t.slots 0)) [
  | inl e ↦ replaced (find-NoneHolds is_invalid t.slots e) (ground arith)
  | inr (i, e) ↦ filled i (find-IsFirst is_invalid t.slots e) (ground arith)
]

-- A successful addTLB: the frame is the first that holds the page for the process, the probe before
-- the write did not find the page in a slot above 0, and the translation has been installed.
pub record AddedTlb (pg : List Entry) (vaddr pid : ℕ) (t t' : Tlb) : Type 0 where
  pub frame : ℕ
  pub first : IsFirst (owns_page (vaddr / 4096) pid) pg frame
  pub probed : is_positive (tlb_probe t.slots (page_align vaddr)) ≡ false
  pub installed : Installed t (page_align vaddr) frame first.elem.dirty t'

pub add_tlb-AddedTlb :
    (pg : List Entry) (vaddr pid : ℕ) (t : Tlb) {t' : Tlb}
    → add_tlb pg vaddr pid t ≡ ok t'
    → AddedTlb pg vaddr pid t t'
unfolding add_tlb
add_tlb-AddedTlb pg vaddr pid t {t'} h = elim (Option-cases (find_from test pg 0)) [
  | inl e ↦ absurd (ground arith)
  | inr (i, e) ↦ at i (find-IsFirst test pg e) e
]
  where
    test : Entry → Bool
    test = owns_page (vaddr / 4096) pid

    at : (i : ℕ) → IsFirst test pg i → find_from test pg 0 ≡ some i → AddedTlb pg vaddr pid t t'
    at i f e = record {
      frame = i;
      first = f;
      probed = ground (arith, f.at);
      installed = install-Installed t (page_align vaddr) i f.elem.dirty (ground (arith, f.at));
    }
