-- ===== src/Tlb/Distinct.antt =====
-- The hardware's rule that no two slots hold one page: when the code keeps it, and what a removal
-- then achieves.
use os22_crisologo_minichell.Base.{
  ℕ, zero, suc, ◌/◌, ◌<◌, ◌≤◌, ◌≡◌, ◌≢◌, inl, inr, sym, ap, subst, ◌∙◌, Bool, true, none, some,
  List, arith, Bool-cases, Option-cases, get_elem?, set, get_elem?-set_self, get_elem?-set_ne,
  lt_of_get_elem?, find_from, IsFirst, NoneHolds, find-IsFirst, find-NoneHolds, NoneHolds-find,
  kseg0, page_align, ok, get_elem?-set-cases,
}
use os22_crisologo_minichell.PageTable.{Entry}
use os22_crisologo_minichell.Tlb.{
  Slot, Tlb, is_valid, invalid_slot, holds_vpage, tlb_probe, add_tlb, remove_tlb_v1,
}
use os22_crisologo_minichell.Tlb.Install.{slot_for, Installed, filled, replaced, add_tlb-AddedTlb}
use os22_crisologo_minichell.Tlb.Count.{IsWf, count_invalid-none}
use os22_crisologo_minichell.Tlb.Bits.{invalid_slot-hi}

-- Two slots that hold the same user page are one slot.
abbrev pub Distinct : List Slot → Type 0
Distinct slots =
    (j k : ℕ) (r s : Slot)
    → get_elem? slots j ≡ some r
    → get_elem? slots k ≡ some s
    → r.hi / 4096 ≡ s.hi / 4096
    → s.hi / 4096 < 0x80000
    → j ≡ k

-- Writing a page that no other slot holds keeps the slots distinct.
Distinct-set :
    (slots : List Slot) (i : ℕ) (new : Slot)
    → Distinct slots
    → ((k : ℕ) (s : Slot)
        → get_elem? slots k ≡ some s
        → k ≢ i
        → s.hi / 4096 ≡ new.hi / 4096
        → 0x80000 ≤ new.hi / 4096)
    → Distinct (set slots i new)
Distinct-set slots i new d fresh j k r s gj gk e u = elim (get_elem?-set-cases slots i j new gj) [
  | inl (p, q) ↦ elim (get_elem?-set-cases slots i k new gk) [
    | inl (p', q') ↦ p ∙ sym p'
    | inr (n, g) ↦
        absurd
          (omega (arith, fresh k s g n (sym e ∙ ap (λ x. x.hi / 4096) q), ap (λ x. x.hi / 4096) q))
  ]
  | inr (n, g) ↦ elim (get_elem?-set-cases slots i k new gk) [
    | inl (p', q') ↦
        absurd
          (omega (arith, fresh j r g n (e ∙ ap (λ x. x.hi / 4096) q'), ap (λ x. x.hi / 4096) q'))
    | inr (n', g') ↦ d j k r s g g' e u
  ]
]

-- If the page was in no slot, addTLB keeps the slots distinct.
pub add_tlb-Distinct :
    (pg : List Entry) (vaddr pid : ℕ) (t : Tlb) {t' : Tlb}
    → tlb_probe t.slots (page_align vaddr) ≡ none
    → Distinct t.slots
    → add_tlb pg vaddr pid t ≡ ok t'
    → Distinct t'.slots
unfolding tlb_probe
add_tlb-Distinct pg vaddr pid t {t'} absent d h =
    by_case (add_tlb-AddedTlb pg vaddr pid t h).installed
  where
    fresh :
        (frame : ℕ) (dirty : Bool) (k : ℕ) (s : Slot)
        → get_elem? t.slots k ≡ some s
        → s.hi / 4096 ≡ page_align vaddr / 4096
        → ⊥
    fresh frame dirty k s g e =
        ground (arith, find-NoneHolds (holds_vpage (page_align vaddr)) t.slots absent k s g)

    by_case :
        {frame : ℕ} {dirty : Bool}
        → Installed t (page_align vaddr) frame dirty t'
        → Distinct t'.slots
    by_case {frame} {dirty} (filled i f q) =
        subst (λ x. Distinct x.slots) (sym q)
          (Distinct-set t.slots i _ d (λ k s g n e. absurd (fresh frame dirty k s g e)))
    by_case {frame} {dirty} (replaced f q) =
        subst (λ x. Distinct x.slots) (sym q)
          (Distinct-set t.slots t.next_victim _ d (λ k s g n e. absurd (fresh frame true k s g e)))

-- Where the slots are distinct, removeTLBv1 leaves no slot that holds the user page, and keeps the
-- slots distinct.
pub remove_tlb_v1-absent :
    (vaddr : ℕ) (t : Tlb)
    → vaddr < kseg0
    → Distinct t.slots
    → (tlb_probe (remove_tlb_v1 vaddr t).slots (page_align vaddr) ≡ none)
      × Distinct (remove_tlb_v1 vaddr t).slots
unfolding remove_tlb_v1
remove_tlb_v1-absent vaddr t u d = elim (Option-cases (find_from test t.slots 0)) [
  | inl e ↦ (ground arith, subst Distinct (ground arith) d)
  | inr (i, e) ↦
      (ground (arith, gone i (find-IsFirst test t.slots e)), subst Distinct (ground arith) (kept i))
]
  where
    test : Slot → Bool
    test = holds_vpage (page_align vaddr)

    kept : (i : ℕ) → Distinct (set t.slots i (invalid_slot i))
    kept i =
        Distinct-set t.slots i (invalid_slot i) d (λ k s g n e. omega (arith, invalid_slot-hi i))

    none_left : (i : ℕ) → IsFirst test t.slots i → NoneHolds test (set t.slots i (invalid_slot i))
    none_left i f m b g = elim (get_elem?-set-cases t.slots i m (invalid_slot i) g) [
      | inl (p, q) ↦ ground (arith, invalid_slot-hi i)
      | inr (n, g') ↦ elim (Bool-cases (test b)) [
        | inr no_test ↦ no_test
        | inl is_test ↦
            absurd (n (d m i b f.elem g' f.at (ground (arith, f.holds)) (ground (arith, f.holds))))
      ]
    ]

    gone :
        (i : ℕ) → IsFirst test t.slots i → find_from test (set t.slots i (invalid_slot i)) 0 ≡ none
    gone i f = NoneHolds-find test (set t.slots i (invalid_slot i)) 0 (none_left i f)

-- addTLB misses a page that slot 0 already holds, since it tests `tlb_index_probe > 0`: if slot 0 is
-- valid and some slot is free, the page then stands in slot 0 and in a later slot.
pub add_tlb-duplicate :
    (pg : List Entry) (vaddr pid : ℕ) {t t' : Tlb} {s : Slot}
    → IsWf t
    → 0 < t.free
    → get_elem? t.slots 0 ≡ some s
    → is_valid s ≡ true
    → s.hi ≡ page_align vaddr
    → add_tlb pg vaddr pid t ≡ ok t'
    → (k : ℕ) × (r : Slot) × (0 < k)
      × (get_elem? t'.slots 0 ≡ some s)
      × (get_elem? t'.slots k ≡ some r)
      × (r.hi ≡ s.hi)
add_tlb-duplicate pg vaddr pid {t} {t'} {s} w room g v p h =
    by_case (add_tlb-AddedTlb pg vaddr pid t h).installed
  where
    by_case :
        {frame : ℕ} {dirty : Bool}
        → Installed t (page_align vaddr) frame dirty t'
        → (k : ℕ) × (r : Slot) × (0 < k)
          × (get_elem? t'.slots 0 ≡ some s)
          × (get_elem? t'.slots k ≡ some r)
          × (r.hi ≡ s.hi)
    by_case {frame} {dirty} (filled zero f q) = absurd (ground (arith, f.at, f.holds))
    by_case {frame} {dirty} (filled (suc i) f q) = (
      suc i,
      slot_for (page_align vaddr) frame dirty,
      omega arith,
      ap (λ x. get_elem? x.slots 0) q ∙ (get_elem?-set_ne t.slots (suc i) 0 _ (omega arith) ∙ g),
      ap (λ x. get_elem? x.slots (suc i)) q
          ∙ get_elem?-set_self t.slots (suc i) _ (lt_of_get_elem? t.slots (suc i) f.at),
      sym p,
    )
    by_case (replaced f q) = absurd (omega (arith, w.counted, count_invalid-none t.slots f))
