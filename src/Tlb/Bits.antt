-- ===== src/Tlb/Bits.antt =====
-- The flags and the frame of the words that addTLB writes.
use os22_crisologo_minichell.Base.{ℕ, ◌+◌, ◌/◌, ◌^◌, ◌<◌, ◌≡◌, Bool, true, false, arith}
use os22_crisologo_minichell.Tlb.{is_valid, is_dirty, invalid_slot, entry_lo}

pub entry_lo-valid :
    (hi frame : ℕ) (dirty : Bool) → is_valid (record { hi = hi; lo = entry_lo frame dirty }) ≡ true
unfolding is_valid entry_lo
entry_lo-valid hi frame true = ground arith
entry_lo-valid hi frame false = ground arith

pub entry_lo-dirty :
    (hi frame : ℕ) (dirty : Bool) → is_dirty (record { hi = hi; lo = entry_lo frame dirty }) ≡ dirty
unfolding is_dirty entry_lo
entry_lo-dirty hi frame true = ground arith
entry_lo-dirty hi frame false = ground arith

pub entry_lo-frame :
    (frame : ℕ) (dirty : Bool) → frame < 2 ^ 20 → entry_lo frame dirty / 4096 ≡ frame
unfolding entry_lo
entry_lo-frame frame true h = omega arith
entry_lo-frame frame false h = omega arith

pub invalid_slot-valid : (i : ℕ) → is_valid (invalid_slot i) ≡ false
unfolding is_valid invalid_slot
invalid_slot-valid i = ground arith

pub invalid_slot-hi : (i : ℕ) → (invalid_slot i).hi / 4096 ≡ 0x80000 + i
unfolding invalid_slot
invalid_slot-hi i = omega arith
