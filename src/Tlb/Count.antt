-- ===== src/Tlb/Count.antt =====
-- `freeTLBEntries` counts the invalid slots, through every operation of vm_tlb.c.
use os22_crisologo_minichell.Base.{
  ℕ, zero, suc, ◌+◌, ◌/◌, ◌%◌, ◌<◌, ◌≤◌, ◌≡◌, ◌⊎◌, inl, inr, refl, sym, ◌∙◌, Bool, true, false,
  some, List, [], ◌∷◌, arith, ◌==◌, if◌then◌else◌, Bool-cases, Option-cases, length, get_elem?, set,
  length-set, get_elem?-of_lt, subst, find_from, IsFirst, NoneHolds, find-IsFirst, kseg0,
  page_align, sub32, ok,
}
use os22_crisologo_minichell.PageTable.{Entry}
use os22_crisologo_minichell.Tlb.{
  Slot, Tlb, is_valid, invalid_slot, holds_vpage, add_tlb, release, remove_tlb, remove_tlb_v1,
  invalid_slots, invalidate_tlb,
}
use os22_crisologo_minichell.Tlb.Install.{
  is_invalid, slot_for, Installed, filled, replaced, add_tlb-AddedTlb,
}
use os22_crisologo_minichell.Tlb.Bits.{entry_lo-valid, invalid_slot-valid, invalid_slot-hi}

-- 1 for an invalid slot
abbrev pub cost : Slot → ℕ
cost s = if is_valid s then 0 else 1

unfoldable pub count_invalid : List Slot → ℕ
count_invalid [] = 0
count_invalid (s ∷ ss) = cost s + count_invalid ss

count_invalid-set :
    (ss : List Slot) (i : ℕ) (s : Slot) {old : Slot}
    → get_elem? ss i ≡ some old
    → count_invalid (set ss i s) + cost old ≡ count_invalid ss + cost s
unfolding count_invalid
count_invalid-set [] i s h = ground arith
count_invalid-set (x ∷ ss) zero s h = ground arith
count_invalid-set (x ∷ ss) (suc i) s h = omega (arith, count_invalid-set ss i s h)

count_invalid-le : (ss : List Slot) → count_invalid ss ≤ length ss
unfolding count_invalid
count_invalid-le [] = omega arith
count_invalid-le (s ∷ ss) = ground (arith, count_invalid-le ss)

pub count_invalid-pos :
    (ss : List Slot) (i : ℕ) {s : Slot}
    → get_elem? ss i ≡ some s
    → is_valid s ≡ false
    → 0 < count_invalid ss
unfolding count_invalid
count_invalid-pos [] i h e = ground arith
count_invalid-pos (x ∷ ss) zero h e = ground arith
count_invalid-pos (x ∷ ss) (suc i) h e = omega (arith, count_invalid-pos ss i h e)

pub count_invalid-none : (ss : List Slot) → NoneHolds is_invalid ss → count_invalid ss ≡ 0
unfolding count_invalid
count_invalid-none [] h = refl
count_invalid-none (s ∷ ss) h =
    ground (arith, h 0 s refl, count_invalid-none ss (λ m b. h (suc m) b))

-- The TLB between two operations: 64 slots, `free` counts the invalid ones, the round-robin pointer
-- is a slot, and an invalid slot holds no user page.
pub record IsWf (t : Tlb) : Type 0 where
  pub size : length t.slots ≡ 64
  pub counted : t.free ≡ count_invalid t.slots
  pub pointer : t.next_victim < 64
  pub parked :
      (k : ℕ) (s : Slot) → get_elem? t.slots k ≡ some s → is_valid s ≡ false → 0x80000 ≤ s.hi / 4096

-- Slots stay parked when a slot is written that is valid or parked itself.
parked-set :
    (ss : List Slot) (i : ℕ) (new : Slot)
    → ((k : ℕ) (s : Slot) → get_elem? ss k ≡ some s → is_valid s ≡ false → 0x80000 ≤ s.hi / 4096)
    → (is_valid new ≡ true) ⊎ (0x80000 ≤ new.hi / 4096)
    → (k : ℕ) (s : Slot) → get_elem? (set ss i new) k ≡ some s
    → is_valid s ≡ false
    → 0x80000 ≤ s.hi / 4096
parked-set [] i new h c k s g e = ground arith
parked-set (x ∷ ss) zero new h c zero s g e = ground arith
parked-set (x ∷ ss) zero new h c (suc k) s g e = h (suc k) s g e
parked-set (x ∷ ss) (suc i) new h c zero s g e = h zero s g e
parked-set (x ∷ ss) (suc i) new h c (suc k) s g e =
    parked-set ss i new (λ m b. h (suc m) b) c k s g e

module _ {t : Tlb} (w : IsWf t) where
  fill_free :
      (i : ℕ) (s : Slot) {old : Slot}
      → get_elem? t.slots i ≡ some old
      → is_valid old ≡ false
      → is_valid s ≡ true
      → IsWf (record t { slots = set t.slots i s; free = sub32 t.free 1 })
  fill_free i s g e v = record {
    size = length-set t.slots i s ∙ w.size;
    counted = ground (
      arith,
      w.counted,
      w.size,
      count_invalid-set t.slots i s g,
      count_invalid-pos t.slots i g e,
      count_invalid-le t.slots,
    );
    pointer = w.pointer;
    parked = parked-set t.slots i s w.parked (inl v);
  }

  replace :
      (s : Slot)
      → NoneHolds is_invalid t.slots
      → is_valid s ≡ true
      → IsWf
          (record t { slots = set t.slots t.next_victim s; next_victim = (t.next_victim + 1) % 64 })
  replace s full v =
      let (old, g) = get_elem?-of_lt t.slots t.next_victim (omega (arith, w.size, w.pointer)) in
      record {
        size = length-set t.slots t.next_victim s ∙ w.size;
        counted = ground (
          arith,
          w.counted,
          full t.next_victim old g,
          count_invalid-set t.slots t.next_victim s g,
        );
        pointer = omega arith;
        parked = parked-set t.slots t.next_victim s w.parked (inl v);
      }

  install-IsWf : (hi frame : ℕ) (dirty : Bool) {t' : Tlb} → Installed t hi frame dirty t' → IsWf t'
  install-IsWf hi frame dirty (filled i f q) = subst IsWf (sym q) (
      fill_free i (slot_for hi frame dirty) f.at (ground (arith, f.holds))
        (entry_lo-valid hi frame dirty))
  install-IsWf hi frame dirty (replaced f q) =
      subst IsWf (sym q) (replace (slot_for hi frame true) f (entry_lo-valid hi frame true))

  -- A slot that holds a valid entry is made invalid: one more is free.
  release-IsWf :
      (i : ℕ) {s : Slot} → get_elem? t.slots i ≡ some s → is_valid s ≡ true → IsWf (release t i)
  unfolding release
  release-IsWf i g v = record {
    size = length-set t.slots i (invalid_slot i) ∙ w.size;
    counted = ground (
      arith,
      w.counted,
      w.size,
      count_invalid-set t.slots i (invalid_slot i) g,
      count_invalid-le t.slots,
      invalid_slot-valid i,
    );
    pointer = w.pointer;
    parked =
        parked-set t.slots i (invalid_slot i) w.parked (inr (omega (arith, invalid_slot-hi i)));
  }

  -- A slot that holds a user page is valid.
  valid_of_user :
      (k : ℕ) (s : Slot) → get_elem? t.slots k ≡ some s → s.hi / 4096 < 0x80000 → is_valid s ≡ true
  valid_of_user k s g u = elim (Bool-cases (is_valid s)) [
    | inl e ↦ e
    | inr e ↦ absurd (omega (arith, w.parked k s g e))
  ]

-- addTLB keeps the TLB well formed, whether it fills a free slot or replaces a victim:
-- `freeTLBEntries` is still the number of invalid slots.
pub add_tlb-IsWf :
    (pg : List Entry) (vaddr pid : ℕ) {t t' : Tlb}
    → IsWf t
    → add_tlb pg vaddr pid t ≡ ok t'
    → IsWf t'
add_tlb-IsWf pg vaddr pid {t} w h =
    let a = add_tlb-AddedTlb pg vaddr pid t h in
    install-IsWf w (page_align vaddr) a.frame _ a.installed

-- removeTLBv1 of a user address keeps the TLB well formed, whether or not the page is held.
pub remove_tlb_v1-IsWf :
    (vaddr : ℕ) {t : Tlb} → vaddr < kseg0 → IsWf t → IsWf (remove_tlb_v1 vaddr t)
unfolding remove_tlb_v1
remove_tlb_v1-IsWf vaddr {t} u w =
    elim (Option-cases (find_from (holds_vpage (page_align vaddr)) t.slots 0)) [
      | inl e ↦ subst IsWf (ground arith) w
      | inr (i, e) ↦ subst IsWf (ground arith) (removed i (find-IsFirst _ t.slots e))
    ]
  where
    removed : (i : ℕ) → IsFirst (holds_vpage (page_align vaddr)) t.slots i → IsWf (release t i)
    removed i f = release-IsWf w i f.at (valid_of_user w i f.elem f.at (ground (arith, f.holds)))

-- The same for removeTLB.
pub remove_tlb-IsWf : (vaddr : ℕ) {t : Tlb} → vaddr < kseg0 → IsWf t → IsWf (remove_tlb vaddr t)
unfolding remove_tlb
remove_tlb-IsWf vaddr {t} u w =
    elim (Option-cases (find_from (λ s. s.hi == page_align vaddr) t.slots 0)) [
      | inl e ↦ subst IsWf (ground arith) w
      | inr (i, e) ↦ subst IsWf (ground arith) (removed i (find-IsFirst _ t.slots e))
    ]
  where
    removed : (i : ℕ) → IsFirst (λ s. s.hi == page_align vaddr) t.slots i → IsWf (release t i)
    removed i f = release-IsWf w i f.at (valid_of_user w i f.elem f.at (ground (arith, f.holds)))

count_invalid_slots :
    (i n : ℕ) → (count_invalid (invalid_slots i n) ≡ n) × (length (invalid_slots i n) ≡ n)
unfolding count_invalid invalid_slots
count_invalid_slots i zero = omega arith
count_invalid_slots i (suc n) = ground (arith, count_invalid_slots (i + 1) n, invalid_slot-valid i)

pub invalid_slots-hi :
    (i n k : ℕ) (s : Slot) → get_elem? (invalid_slots i n) k ≡ some s → 0x80000 ≤ s.hi / 4096
unfolding invalid_slots
invalid_slots-hi i zero k s g = ground arith
invalid_slots-hi i (suc n) zero s g = ground (arith, invalid_slot-hi i)
invalid_slots-hi i (suc n) (suc k) s g = invalid_slots-hi (i + 1) n k s g

-- invalidate_TLB leaves a well formed TLB with 64 free slots, whatever the slots held before.
pub invalidate_tlb-IsWf :
    (t : Tlb) → t.next_victim < 64 → IsWf (invalidate_tlb t) × ((invalidate_tlb t).free ≡ 64)
unfolding invalidate_tlb
invalidate_tlb-IsWf t h = (
  record {
    size = (count_invalid_slots 0 64).1;
    counted = sym ((count_invalid_slots 0 64).0);
    pointer = h;
    parked = λ k s g e. invalid_slots-hi 0 64 k s g;
  },
  refl,
)
