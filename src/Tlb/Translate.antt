-- ===== src/Tlb/Translate.antt =====
-- The translation that addTLB installs, and the agreement of the TLB with the page table.
use os22_crisologo_minichell.Base.{
  ℕ, zero, suc, ◌/◌, ◌^◌, ◌<◌, ◌≤◌, ◌≡◌, refl, sym, ap, subst, ◌∙◌, Bool, true, some, List, [], ◌∷◌,
  arith, length, get_elem?, set, get_elem?-set_self, lt_of_get_elem?, IsFirst-find, page_align, ok,
}
use os22_crisologo_minichell.PageTable.{Entry}
use os22_crisologo_minichell.Tlb.{
  Slot, Tlb, is_valid, is_dirty, find_frame, add_tlb, invalidate_tlb,
}
use os22_crisologo_minichell.Tlb.Install.{slot_for, Installed, filled, replaced, add_tlb-AddedTlb}
use os22_crisologo_minichell.Tlb.Count.{
  IsWf, count_invalid-pos, count_invalid-none, invalid_slots-hi,
}
use os22_crisologo_minichell.Tlb.Bits.{entry_lo-valid, entry_lo-dirty, entry_lo-frame}

-- A slot that maps the page of `vaddr` to `frame`, and lets the process write if `dirty`.
pub record Maps (slots : List Slot) (vaddr frame : ℕ) (dirty : Bool) : Type 0 where
  pub index : ℕ
  pub slot : Slot
  pub at : get_elem? slots index ≡ some slot
  pub page : slot.hi ≡ page_align vaddr
  pub valid : is_valid slot ≡ true
  pub frame_of : slot.lo / 4096 ≡ frame
  pub writable : is_dirty slot ≡ dirty

Maps-set :
    (slots : List Slot) (i vaddr frame : ℕ) (dirty : Bool)
    → i < length slots
    → frame < 2 ^ 20
    → Maps (set slots i (slot_for (page_align vaddr) frame dirty)) vaddr frame dirty
Maps-set slots i vaddr frame dirty l small = record {
  index = i;
  slot = slot_for (page_align vaddr) frame dirty;
  at = get_elem?-set_self slots i _ l;
  page = refl;
  valid = entry_lo-valid _ frame dirty;
  frame_of = entry_lo-frame frame dirty small;
  writable = entry_lo-dirty _ frame dirty;
}

module _ {t t' : Tlb} {vaddr frame : ℕ} {dirty : Bool} (w : IsWf t) (small : frame < 2 ^ 20) where
  installed-Maps-free :
      Installed t (page_align vaddr) frame dirty t' → 0 < t.free → Maps t'.slots vaddr frame dirty
  installed-Maps-free (filled i f q) h =
      subst (λ x. Maps x.slots vaddr frame dirty) (sym q)
        (Maps-set t.slots i vaddr frame dirty (lt_of_get_elem? t.slots i f.at) small)
  installed-Maps-free (replaced f q) h =
      absurd (omega (arith, w.counted, count_invalid-none t.slots f))

  installed-Maps-full :
      Installed t (page_align vaddr) frame dirty t' → t.free ≡ 0 → Maps t'.slots vaddr frame true
  installed-Maps-full (filled i f q) h =
      absurd (omega (arith, w.counted, count_invalid-pos t.slots i f.at (ground (arith, f.holds))))
  installed-Maps-full (replaced f q) h =
      subst (λ x. Maps x.slots vaddr frame true) (sym q)
        (Maps-set t.slots t.next_victim vaddr frame true (omega (arith, w.size, w.pointer)) small)

-- After a successful addTLB on a table of at most 2 ^ 20 frames, a valid slot maps the page of the
-- address to the first frame that the page table gives the process for it. If a slot was free, that
-- slot is writable exactly when the page table's entry is dirty.
pub add_tlb-Maps :
    (pg : List Entry) (vaddr pid : ℕ) {t t' : Tlb}
    → IsWf t
    → length pg ≤ 2 ^ 20
    → 0 < t.free
    → add_tlb pg vaddr pid t ≡ ok t'
    → (i : ℕ) × (e : Entry) × (find_frame pg (vaddr / 4096) pid ≡ some i)
      × (get_elem? pg i ≡ some e)
      × Maps t'.slots vaddr i e.dirty
unfolding find_frame
add_tlb-Maps pg vaddr pid {t} w l free h =
    let a = add_tlb-AddedTlb pg vaddr pid t h in
    let small : a.frame < 2 ^ 20 = omega (arith, lt_of_get_elem? pg a.frame a.first.at) in
    (
      a.frame,
      a.first.elem,
      IsFirst-find _ pg a.first,
      a.first.at,
      installed-Maps-free w small a.installed free,
    )

-- If no slot was free, the page that addTLB puts in place of the victim is writable, whether or not
-- the page table's entry is dirty: a code page too.
pub add_tlb_full-Maps :
    (pg : List Entry) (vaddr pid : ℕ) {t t' : Tlb}
    → IsWf t
    → length pg ≤ 2 ^ 20
    → t.free ≡ 0
    → add_tlb pg vaddr pid t ≡ ok t'
    → (i : ℕ) × (find_frame pg (vaddr / 4096) pid ≡ some i) × Maps t'.slots vaddr i true
unfolding find_frame
add_tlb_full-Maps pg vaddr pid {t} w l full h =
    let a = add_tlb-AddedTlb pg vaddr pid t h in
    let small : a.frame < 2 ^ 20 = omega (arith, lt_of_get_elem? pg a.frame a.first.at) in
    (a.frame, IsFirst-find _ pg a.first, installed-Maps-full w small a.installed full)

-- A slot that maps a user page to the frame that the page table gives the process for that page.
abbrev pub Agrees : List Entry → ℕ → Slot → Type 0
Agrees pg pid s =
    is_valid s ≡ true → s.hi / 4096 < 0x80000 → find_frame pg (s.hi / 4096) pid ≡ some (s.lo / 4096)

-- Every slot agrees with the page table.
abbrev pub Coherent : List Entry → ℕ → List Slot → Type 0
Coherent pg pid slots = (k : ℕ) (s : Slot) → get_elem? slots k ≡ some s → Agrees pg pid s

Coherent-set :
    (pg : List Entry) (pid : ℕ) (slots : List Slot) (i : ℕ) (new : Slot)
    → Coherent pg pid slots
    → Agrees pg pid new
    → Coherent pg pid (set slots i new)
Coherent-set pg pid [] i new c a k s g = c k s g
Coherent-set pg pid (x ∷ xs) zero new c a zero s g = subst (Agrees pg pid) (ground arith) a
Coherent-set pg pid (x ∷ xs) zero new c a (suc k) s g = c (suc k) s g
Coherent-set pg pid (x ∷ xs) (suc i) new c a zero s g = c zero s g
Coherent-set pg pid (x ∷ xs) (suc i) new c a (suc k) s g =
    Coherent-set pg pid xs i new (λ m b. c (suc m) b) a k s g

module _ (pg : List Entry) (pid : ℕ) where
  Agrees-slot_for :
      (vaddr frame : ℕ) (dirty : Bool)
      → frame < 2 ^ 20
      → find_frame pg (vaddr / 4096) pid ≡ some frame
      → Agrees pg pid (slot_for (page_align vaddr) frame dirty)
  Agrees-slot_for vaddr frame dirty small e v u =
      ap (λ p. find_frame pg p pid) (omega arith)
      ∙ (e ∙ ap some (sym (entry_lo-frame frame dirty small)))

  installed-Coherent :
      {t t' : Tlb} (vaddr : ℕ) {frame : ℕ} {dirty : Bool}
      → frame < 2 ^ 20
      → find_frame pg (vaddr / 4096) pid ≡ some frame
      → Installed t (page_align vaddr) frame dirty t'
      → Coherent pg pid t.slots
      → Coherent pg pid t'.slots
  installed-Coherent {t} vaddr {frame} {dirty} small e (filled i f q) c =
      subst (λ x. Coherent pg pid x.slots) (sym q)
        (Coherent-set pg pid t.slots i _ c (Agrees-slot_for vaddr frame dirty small e))
  installed-Coherent {t} vaddr {frame} {dirty} small e (replaced f q) c =
      subst (λ x. Coherent pg pid x.slots) (sym q)
        (Coherent-set pg pid t.slots t.next_victim _ c (Agrees-slot_for vaddr frame true small e))

-- addTLB keeps the TLB in agreement with the page table of at most 2 ^ 20 frames.
pub add_tlb-Coherent :
    (pg : List Entry) (vaddr pid : ℕ) (t : Tlb) {t' : Tlb}
    → length pg ≤ 2 ^ 20
    → Coherent pg pid t.slots
    → add_tlb pg vaddr pid t ≡ ok t'
    → Coherent pg pid t'.slots
unfolding find_frame
add_tlb-Coherent pg vaddr pid t l c h =
    let a = add_tlb-AddedTlb pg vaddr pid t h in
    installed-Coherent pg pid vaddr (omega (arith, lt_of_get_elem? pg a.frame a.first.at))
      (IsFirst-find _ pg a.first) a.installed c

-- invalidate_TLB makes the TLB agree with every page table and process.
pub invalidate_tlb-Coherent :
    (pg : List Entry) (pid : ℕ) (t : Tlb) → Coherent pg pid (invalidate_tlb t).slots
unfolding invalidate_tlb
invalidate_tlb-Coherent pg pid t k s g v u = absurd (omega (arith, invalid_slots-hi 0 64 k s g))
