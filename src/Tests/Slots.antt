-- ===== src/Tests/Slots.antt =====
-- The TLB at a fresh table, at one that holds a page, and at a full one.
use os22_crisologo_minichell.Base.{
  ℕ, zero, suc, ◌+◌, ◌*◌, ◌<◌, ◌≡◌, refl, arith, true, none, some, List, [], ◌∷◌, get_elem?,
  find_from, ok,
}
use os22_crisologo_minichell.PageTable.{Entry}
use os22_crisologo_minichell.Tlb.{
  Slot, Tlb, is_valid, holds_vpage, tlb_probe, find_frame, entry_lo, write_checked,
  tlb_get_rr_victim, install, add_tlb, invalid_slot, invalid_slots, invalidate_tlb,
}
use os22_crisologo_minichell.Tlb.Bits.{entry_lo-valid}
use os22_crisologo_minichell.Tlb.Count.{IsWf, count_invalid, add_tlb-IsWf}
use os22_crisologo_minichell.Tlb.Translate.{
  Maps, Coherent, add_tlb-Maps, add_tlb_full-Maps, add_tlb-Coherent, invalidate_tlb-Coherent,
}
use os22_crisologo_minichell.Tlb.Distinct.{Distinct, add_tlb-Distinct, add_tlb-duplicate}
use os22_crisologo_minichell.Tlb.Total.{add_tlb-total}
use os22_crisologo_minichell.Space.{as_activate}
use os22_crisologo_minichell.Space.Activate.{as_activate-Coherent, as_activate-stale}
use os22_crisologo_minichell.Tests.State.{
  table, space, no_slots, fresh_tlb, result_or, fresh-IsWf, fresh-Distinct,
}

-- the TLB with the code page in it
abbrev cached_tlb : Tlb
cached_tlb = result_or (add_tlb table 0x400000 2 fresh_tlb) fresh_tlb

-- the same page put in once more
abbrev twice_tlb : Tlb
twice_tlb = result_or (add_tlb table 0x400000 2 cached_tlb) fresh_tlb

cached_ok : add_tlb table 0x400000 2 fresh_tlb ≡ ok cached_tlb
unfolding add_tlb find_frame find_from install is_valid write_checked entry_lo tlb_get_rr_victim
    tlb_probe holds_vpage invalidate_tlb invalid_slots invalid_slot
cached_ok = refl

twice_ok : add_tlb table 0x400000 2 cached_tlb ≡ ok twice_tlb
unfolding add_tlb find_frame find_from install is_valid write_checked entry_lo tlb_get_rr_victim
    tlb_probe holds_vpage invalidate_tlb invalid_slots invalid_slot
twice_ok = refl

abbrev code_slot : Slot
code_slot = record { hi = 0x400000; lo = 2 * 4096 + 0x200 }

code_slot_at : get_elem? cached_tlb.slots 0 ≡ some code_slot
unfolding add_tlb find_frame find_from install is_valid write_checked entry_lo tlb_get_rr_victim
    tlb_probe holds_vpage invalidate_tlb invalid_slots invalid_slot
code_slot_at = refl

fresh_free : 0 < fresh_tlb.free
unfolding invalidate_tlb
fresh_free = omega arith

cached_free : 0 < cached_tlb.free
unfolding add_tlb find_frame find_from install is_valid write_checked entry_lo tlb_get_rr_victim
    tlb_probe holds_vpage invalidate_tlb invalid_slots invalid_slot
cached_free = omega arith

-- `n` valid slots, for the user pages from `i` on
unfoldable pub valid_slots : ℕ → ℕ → List Slot
valid_slots i zero = []
valid_slots i (suc n) = record { hi = i * 4096; lo = entry_lo 3 true } ∷ valid_slots (i + 1) n

valid_slots-valid :
    (i n k : ℕ) (s : Slot) → get_elem? (valid_slots i n) k ≡ some s → is_valid s ≡ true
unfolding valid_slots
valid_slots-valid i zero k s g = ground arith
valid_slots-valid i (suc n) zero s g = ground (arith, entry_lo-valid (i * 4096) 3 true)
valid_slots-valid i (suc n) (suc k) s g = valid_slots-valid (i + 1) n k s g

-- no slot is free
abbrev full_tlb : Tlb
full_tlb = record { slots = valid_slots 0x10000 64; free = 0; next_victim = 5; invalidations = 0 }

full_size : 0 ≡ count_invalid full_tlb.slots
unfolding valid_slots count_invalid is_valid entry_lo
full_size = refl

full-IsWf : IsWf full_tlb
unfolding valid_slots
full-IsWf = record {
  size = refl;
  counted = full_size;
  pointer = omega arith;
  parked = λ k s g e. absurd (ground (arith, valid_slots-valid 0x10000 64 k s g));
}

abbrev replaced_tlb : Tlb
replaced_tlb = result_or (add_tlb table 0x400000 2 full_tlb) full_tlb

replaced_ok : add_tlb table 0x400000 2 full_tlb ≡ ok replaced_tlb
unfolding add_tlb find_frame find_from install is_valid write_checked entry_lo tlb_get_rr_victim
    tlb_probe holds_vpage valid_slots
replaced_ok = refl

add_tlb-Maps_example :
    (i : ℕ) × (e : Entry) × (find_frame table 0x400 2 ≡ some i)
    × (get_elem? table i ≡ some e)
    × Maps cached_tlb.slots 0x400000 i e.dirty
add_tlb-Maps_example = add_tlb-Maps table 0x400000 2 fresh-IsWf (omega arith) fresh_free cached_ok

add_tlb_full-Maps_example :
    (i : ℕ) × (find_frame table 0x400 2 ≡ some i) × Maps replaced_tlb.slots 0x400000 i true
add_tlb_full-Maps_example =
    add_tlb_full-Maps table 0x400000 2 full-IsWf (omega arith) refl replaced_ok

cached-IsWf : IsWf cached_tlb
cached-IsWf = add_tlb-IsWf table 0x400000 2 fresh-IsWf cached_ok

add_tlb-Coherent_example : Coherent table 2 cached_tlb.slots
add_tlb-Coherent_example =
    add_tlb-Coherent table 0x400000 2 fresh_tlb (omega arith)
      (invalidate_tlb-Coherent table 2 no_slots) cached_ok

fresh_probe : tlb_probe fresh_tlb.slots 0x400000 ≡ none
unfolding tlb_probe find_from holds_vpage invalidate_tlb invalid_slots invalid_slot
fresh_probe = refl

cached-Distinct : Distinct cached_tlb.slots
cached-Distinct = add_tlb-Distinct table 0x400000 2 fresh_tlb fresh_probe fresh-Distinct cached_ok

add_tlb-duplicate_example :
    (k : ℕ) × (r : Slot) × (0 < k)
    × (get_elem? twice_tlb.slots 0 ≡ some code_slot)
    × (get_elem? twice_tlb.slots k ≡ some r)
    × (r.hi ≡ 0x400000)
unfolding is_valid
add_tlb-duplicate_example =
    add_tlb-duplicate table 0x400000 2 cached-IsWf cached_free code_slot_at refl refl twice_ok

add_tlb-total_example : (t' : Tlb) × (add_tlb table 0x400000 2 fresh_tlb ≡ ok t')
unfolding find_frame find_from
add_tlb-total_example =
    add_tlb-total table 0x400000 2 2 fresh_tlb fresh-IsWf (omega arith) refl refl fresh_probe

as_activate-Coherent_example : Coherent table 2 (as_activate (some space) 2 1 full_tlb).1.slots
as_activate-Coherent_example =
    as_activate-Coherent table space 2 1 full_tlb (omega arith) (omega arith)

as_activate-stale_example :
    as_activate (some space) 1 (as_activate (some space) 2 0 full_tlb).0 cached_tlb
    ≡ (1, cached_tlb)
as_activate-stale_example =
    as_activate-stale space space 2 0 full_tlb cached_tlb (ground arith) (ground arith)
