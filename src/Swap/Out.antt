-- ===== src/Swap/Out.antt =====
-- swapOut of a frame that is in use.
use os22_crisologo_minichell.Base.{
  ◌∷◌, sym, ◌∙◌, get_elem?-set_ne, get_elem?-set_self, ◌⊎◌, find-NoneHolds, find-IsFirst, ap, ℕ,
  ◌+◌, ◌*◌, ◌/◌, ◌<◌, ◌≤◌, ◌≡◌, ◌≢◌, true, some, List, arith, length, get_elem?, set,
  lt_of_get_elem?, find_from, IsFirst, IsFirst-find, kseg0, sub32, mul32, ok, none, panic, ◌-◌,
  refl,
}
use os22_crisologo_minichell.PageTable.{Entry}
use os22_crisologo_minichell.Vm.{SwapSlot, Vm, copy_bytes}
use os22_crisologo_minichell.Frames.{free_kpages}
use os22_crisologo_minichell.Frames.Wf.{IsWf}
use os22_crisologo_minichell.Frames.Free.{after_free, free_kpages-after_free, after_free-IsWf}
use os22_crisologo_minichell.Swap.{
  Io, is_free_slot, swapped, record_out, swap_out, sf_free_search, sf_page_search, minus_one,
  holds_swapped,
}

-- A transfer that succeeds.
pub record Succeeds (io : Io) : Type 0 where
  pub opened : io.open_result ≡ 0
  pub moved : io.transfer_result ≡ 0

-- The swap table as swapfile_init lays it out: at most 2304 slots, each with its own offset.
pub record IsTable (sf : List SwapSlot) : Type 0 where
  pub size : length sf ≤ 2304
  pub offsets : (k : ℕ) (s : SwapSlot) → get_elem? sf k ≡ some s → s.p_offset ≡ k

-- The frame `i` is in use with the entry `e`, can be freed, and belongs to a user process.
pub record InUse (vm : Vm) (i : ℕ) (e : Entry) : Type 0 where
  pub at : get_elem? vm.pg i ≡ some e
  pub valid : e.valid ≡ true
  pub above : 0 < i
  pub below : i * 4096 < vm.pg_base
  pub room : 0 < vm.node_blocks
  pub user : e.pid ≢ 0
  pub byte : e.pid < 256

-- The state with the page of the frame `i` written to the slot `index`.
abbrev pub written : ℕ → Entry → ℕ → SwapSlot → Vm → Vm
written i e index s vm = record vm {
  disk = copy_bytes vm.memory (i * 4096) vm.disk (index * 4096) 4096;
  sf_list = set vm.sf_list index (swapped e s);
}

abbrev pub after_out : ℕ → Entry → ℕ → SwapSlot → Vm → Vm
after_out i e index s vm = after_free i e (written i e index s vm)

pub written-IsWf :
    (i : ℕ) (e : Entry) (index : ℕ) (s : SwapSlot) {vm : Vm}
    → IsWf vm
    → IsWf (written i e index s vm)
written-IsWf i e index s w = record {
  started = w.started;
  small = w.small;
  listed = w.listed;
  usable = w.usable;
  user = w.user;
  tlb = w.tlb;
}

swap_out-found :
    (io : Io) (addr index : ℕ) (vm : Vm) {s : SwapSlot}
    → Succeeds io
    → find_from is_free_slot vm.sf_list 0 ≡ some index
    → get_elem? vm.sf_list index ≡ some s
    → swap_out io addr vm
      ≡ record_out addr index s (record vm {
        disk = copy_bytes vm.memory (sub32 addr kseg0) vm.disk (mul32 s.p_offset 4096) 4096;
      })
unfolding swap_out
swap_out-found io addr index vm good f g = ground (arith, f, g, good.opened, good.moved)

record_out-freed :
    (addr index : ℕ) (s : SwapSlot) (vm : Vm) {e : Entry} {vm' : Vm}
    → get_elem? vm.pg (sub32 addr kseg0 / 4096) ≡ some e
    → free_kpages addr (record vm { sf_list = set vm.sf_list index (swapped e s) }) ≡ ok vm'
    → record_out addr index s vm ≡ ok (0, vm')
unfolding record_out
record_out-freed addr index s vm g h = ground (arith, g, h)

module _ {vm : Vm} {i : ℕ} {e : Entry} {io : Io} (w : IsWf vm) (u : InUse vm i e)
    (table : IsTable vm.sf_list) (good : Succeeds io) where
  pub out-IsWf : (index : ℕ) (s : SwapSlot) → IsWf (after_out i e index s vm)
  out-IsWf index s = after_free-IsWf i (written-IsWf i e index s w) u.at u.valid u.above u.below

  pub swap_out-after_out :
      (index : ℕ)
      → (f : IsFirst is_free_slot vm.sf_list index)
      → swap_out io (kseg0 + i * 4096) vm ≡ ok (0, after_out i e index f.elem vm)
  swap_out-after_out index f =
      let q : sub32 (kseg0 + i * 4096) kseg0 ≡ i * 4096 =
        omega (arith, w.small, lt_of_get_elem? vm.pg i u.at) in
      let o : mul32 f.elem.p_offset 4096 ≡ index * 4096 = omega (
        arith,
        table.offsets index f.elem f.at,
        table.size,
        lt_of_get_elem? vm.sf_list index f.at,
      ) in
      let n : i * 4096 / 4096 ≡ i = omega arith in
      let freed_ok =
        free_kpages-after_free i (written-IsWf i e index f.elem w) u.at u.valid u.room in
      swap_out-found io (kseg0 + i * 4096) index vm good (IsFirst-find is_free_slot vm.sf_list f)
        f.at
      ∙ rw (q, o)
          (record_out-freed (kseg0 + i * 4096) index f.elem _ {e = e} (rw (q, n) u.at) freed_ok)

-- In a well formed state with a free slot in a swap table as swapfile_init lays it out, when the
-- file takes the page and no slot holds the page yet: let a frame above 0 and below the page table
-- be in use by a user process whose pid fits in a byte, with a heap block left for the frame
-- list's node. Then swapOut of the frame returns 0 and a well formed state: the page stands on
-- disk byte for byte at the slot's offset, the rest of the disk is as before, the frame is the
-- first of the frame list, and the swap table finds the page under its number and pid in this
-- slot.
pub swap_out_lem :
    {vm : Vm} {i : ℕ} {e : Entry} {io : Io} (index : ℕ)
    → IsWf vm
    → InUse vm i e
    → IsTable vm.sf_list
    → Succeeds io
    → sf_free_search vm.sf_list ≡ some index
    → sf_page_search vm.sf_list e.page_number e.pid ≡ none
    → (vm' : Vm) × (swap_out io (kseg0 + i * 4096) vm ≡ ok (0, vm'))
      × IsWf vm'
      × (vm'.frame_list ≡ i ∷ vm.frame_list)
      × ((a : ℕ) → a < 4096 → vm'.disk (index * 4096 + a) ≡ vm.memory (i * 4096 + a))
      × ((o : ℕ) → (o < index * 4096) ⊎ (index * 4096 + 4096 ≤ o) → vm'.disk o ≡ vm.disk o)
      × (sf_page_search vm'.sf_list e.page_number e.pid ≡ some index)
unfolding sf_free_search sf_page_search
swap_out_lem {vm} {i} {e} index w u table good free absent = (
  after_out i e index f.elem vm,
  swap_out-after_out w u table good index f,
  out-IsWf w u table good index f.elem,
  refl,
  λ a l. ground (arith, there a),
  λ o h. ground arith,
  IsFirst-find _ (set vm.sf_list index (swapped e f.elem)) first,
)
  where
    f : IsFirst is_free_slot vm.sf_list index
    f = find-IsFirst is_free_slot vm.sf_list free

    there :
        (a : ℕ)
        → vm.memory (i * 4096 + (index * 4096 + a - index * 4096)) ≡ vm.memory (i * 4096 + a)
    there a = ap vm.memory (omega arith)

    first :
        IsFirst (holds_swapped e.page_number e.pid) (set vm.sf_list index (swapped e f.elem)) index
    first = record {
      elem = swapped e f.elem;
      at = get_elem?-set_self vm.sf_list index _ (lt_of_get_elem? vm.sf_list index f.at);
      holds = ground arith;
      before = λ m b l g.
          find-NoneHolds _ vm.sf_list absent m b
            (sym (get_elem?-set_ne vm.sf_list index m _ (omega arith)) ∙ g);
    }

-- With no free slot swapOut panics; when the transfer fails it returns -1 and changes nothing.
pub swap_out_failures :
    (io : Io) (addr : ℕ) (vm : Vm)
    → ((sf_free_search vm.sf_list ≡ none) → swap_out io addr vm ≡ panic)
      × ((index : ℕ)
          → sf_free_search vm.sf_list ≡ some index
          → io.open_result ≡ 0
          → io.transfer_result ≢ 0
          → swap_out io addr vm ≡ ok (minus_one, vm))
unfolding swap_out
swap_out_failures io addr vm = (
  λ h. ground (arith, h),
  λ index h o t. ground (arith, h, o, t, (find-IsFirst is_free_slot vm.sf_list h).at),
)
