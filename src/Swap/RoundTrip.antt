-- ===== src/Swap/RoundTrip.antt =====
-- swapOut, then swapIn of the slot that it filled.
use os22_crisologo_minichell.Base.{
  ℕ, ◌+◌, ◌-◌, ◌*◌, ◌/◌, ◌<◌, ◌≤◌, ◌≡◌, ◌≢◌, refl, sym, ap, ◌∙◌, Bool, true, false, none, some,
  List, arith, ◌==◌, length, get_elem?, set, length-set, get_elem?-set_self, get_elem?-set_ne,
  lt_of_get_elem?, IsFirst, find-IsFirst, IsFirst-find, kseg0, add32, sub32, mul32, page_align, ok,
  Bool-cases, inr, inl,
}
use os22_crisologo_minichell.PageTable.{Entry, filled, add_pt}
use os22_crisologo_minichell.Tlb.{Tlb, owns_page, find_frame, tlb_probe, add_tlb}
use os22_crisologo_minichell.Tlb.Distinct.{Distinct, remove_tlb_v1-absent}
use os22_crisologo_minichell.Tlb.Total.{add_tlb-total}
use os22_crisologo_minichell.Vm.{SwapSlot, Vm, copy_bytes}
use os22_crisologo_minichell.Frames.{taken, freed, alloc_kpages}
use os22_crisologo_minichell.Frames.Wf.{IsWf}
use os22_crisologo_minichell.Frames.Alloc.{after_alloc, alloc_kpages-cons}
use os22_crisologo_minichell.Swap.{
  Io, is_free_slot, sf_free_search, swapped, cleared, swap_out, read_in, map_in, swap_in,
}
use os22_crisologo_minichell.Swap.Out.{
  Succeeds, IsTable, InUse, after_out, out-IsWf, swap_out-after_out,
}

-- No other frame holds the page for the process.
abbrev pub Unique : Vm → ℕ → Entry → Type 0
Unique vm i e =
    (j : ℕ) (b : Entry)
    → get_elem? vm.pg j ≡ some b
    → owns_page e.page_number e.pid b ≡ true
    → j ≡ i

-- The page of the slot as it stands in the frame again.
abbrev pub back : Entry → ℕ → Entry
back e counter = filled (taken (freed e) counter) (mul32 e.page_number 4096) e.pid e.dirty

read_in-done :
    (io : Io) (addr index : ℕ) (s : SwapSlot) (vm : Vm)
    → Succeeds io
    → read_in io addr index s vm
      ≡ ok (
        0,
        record vm {
          memory = copy_bytes vm.disk (mul32 s.p_offset 4096) vm.memory (sub32 addr kseg0) 4096;
          sf_list = set vm.sf_list index (cleared s);
        },
      )
unfolding read_in
read_in-done io addr index s vm good = ground (arith, good.opened, good.moved)

map_in-read_in :
    (io : Io) (addr index : ℕ) (s : SwapSlot) (vm : Vm) {pg : List Entry} {t : Tlb}
    → add_pt vm.pg (sub32 addr kseg0 / 4096) (mul32 s.p_number 4096) s.p_pid s.dirty ≡ ok pg
    → add_tlb pg (mul32 s.p_number 4096) s.p_pid vm.tlb ≡ ok t
    → map_in io addr index s vm ≡ read_in io addr index s (record vm { pg = pg; tlb = t })
unfolding map_in
map_in-read_in io addr index s vm p q = ground (arith, p, q)

swap_in-map_in :
    (io : Io) (index addr : ℕ) (vm : Vm) {vm' : Vm} {s : SwapSlot}
    → alloc_kpages 1 vm ≡ ok (addr, vm')
    → addr ≢ 0
    → get_elem? vm'.sf_list index ≡ some s
    → swap_in io index vm ≡ map_in io addr index s vm'
unfolding swap_in
swap_in-map_in io index addr vm h n g = ground (arith, h, n, g)

add_pt-taken :
    (pg : List Entry) (i : ℕ) (d : Entry) (counter vaddr pid : ℕ) (dirty : Bool)
    → get_elem? pg i ≡ some (taken d counter)
    → add_pt pg i vaddr pid dirty ≡ ok (set pg i (filled (taken d counter) vaddr pid dirty))
unfolding add_pt
add_pt-taken pg i d counter vaddr pid dirty g = ground (arith, g)

module _ {vm : Vm} {i : ℕ} {e : Entry} {io : Io} (w : IsWf vm) (u : InUse vm i e)
    (table : IsTable vm.sf_list) (good : Succeeds io) (unique : Unique vm i e)
    (distinct : Distinct vm.tlb.slots) {index : ℕ} (f : IsFirst is_free_slot vm.sf_list index) where
  out : Vm
  out = after_out i e index f.elem vm

  -- the state after swapIn has allocated its frame, which is the one that swapOut freed
  held : Vm
  unfolding out
  held = after_alloc i vm.frame_list (freed e) out

  counter : ℕ
  counter = add32 vm.pt_counter 1

  mapped : List Entry
  unfolding counter
  mapped = set (set (set vm.pg i (freed e)) i (taken (freed e) counter)) i (back e counter)

  below_pg : i < length vm.pg
  below_pg = lt_of_get_elem? vm.pg i u.at

  alloc_held : alloc_kpages 1 out ≡ ok (kseg0 + i * 4096, held)
  unfolding held
  alloc_held =
      alloc_kpages-cons (out-IsWf w u table good index f.elem) refl (freed e)
        (get_elem?-set_self vm.pg i (freed e) below_pg) refl

  mapped-at : get_elem? mapped i ≡ some (back e counter)
  unfolding mapped
  mapped-at = get_elem?-set_self (set (set vm.pg i (freed e)) i (taken (freed e) counter)) i _ (
      omega (
        arith,
        below_pg,
        length-set vm.pg i (freed e),
        length-set (set vm.pg i (freed e)) i (taken (freed e) counter),
      ))

  add_pt-mapped :
      add_pt held.pg
        (sub32 (kseg0 + i * 4096) kseg0 / 4096)
        (mul32 e.page_number 4096)
        e.pid
        e.dirty
      ≡ ok mapped
  unfolding mapped held
  add_pt-mapped =
      let n : sub32 (kseg0 + i * 4096) kseg0 / 4096 ≡ i = omega (arith, w.small, below_pg) in
      rw n (
        add_pt-taken (set (set vm.pg i (freed e)) i (taken (freed e) counter)) i (freed e) counter
          (mul32 e.page_number 4096) e.pid e.dirty
          (get_elem?-set_self (set vm.pg i (freed e)) i _
            (omega (arith, below_pg, length-set vm.pg i (freed e)))))

  -- other frames are as they were
  mapped-other : (j : ℕ) → i ≢ j → get_elem? mapped j ≡ get_elem? vm.pg j
  unfolding mapped
  mapped-other j n =
      get_elem?-set_ne (set (set vm.pg i (freed e)) i (taken (freed e) counter)) i j _ n
      ∙ (get_elem?-set_ne (set vm.pg i (freed e)) i j _ n ∙ get_elem?-set_ne vm.pg i j _ n)

  page_back : mul32 e.page_number 4096 / 4096 ≡ e.page_number
  page_back = omega (arith, w.user i e u.at)

  found : find_frame mapped (mul32 e.page_number 4096 / 4096) e.pid ≡ some i
  unfolding find_frame
  found = rw page_back (
      IsFirst-find (owns_page e.page_number e.pid) mapped (record {
        elem = back e counter;
        at = mapped-at;
        holds = ground (arith, u.byte, page_back);
        before = λ m b l g. elim (Bool-cases (owns_page e.page_number e.pid b)) [
          | inr e' ↦ e'
          | inl e' ↦ absurd (omega (arith, unique m b (sym (mapped-other m (omega arith)) ∙ g) e'))
        ];
      }))

  not_cached : tlb_probe held.tlb.slots (page_align (mul32 e.page_number 4096)) ≡ none
  unfolding held
  not_cached =
      let n : (e.pid == 0) ≡ false = ground (arith, u.user) in
      rw n (
        (remove_tlb_v1-absent (mul32 e.page_number 4096) vm.tlb (omega (arith, w.user i e u.at))
          distinct).0)

  cached : (t : Tlb) × (add_tlb mapped (mul32 e.page_number 4096) e.pid held.tlb ≡ ok t)
  unfolding held
  cached =
      add_tlb-total mapped (mul32 e.page_number 4096) e.pid i held.tlb
        (out-IsWf w u table good index f.elem).tlb (omega (arith, w.small, below_pg)) found
        mapped-at not_cached

  -- the state that swapIn returns
  restored : Tlb → Vm
  unfolding held
  restored t = record held {
    pg = mapped;
    tlb = t;
    memory = copy_bytes held.disk (index * 4096) held.memory (i * 4096) 4096;
    sf_list = set held.sf_list index (cleared (swapped e f.elem));
  }

  swap_in-restored : swap_in io index out ≡ ok (0, restored cached.0)
  unfolding restored
  swap_in-restored =
      let q : sub32 (kseg0 + i * 4096) kseg0 ≡ i * 4096 = omega (arith, w.small, below_pg) in
      let o : mul32 f.elem.p_offset 4096 ≡ index * 4096 = omega (
        arith,
        table.offsets index f.elem f.at,
        table.size,
        lt_of_get_elem? vm.sf_list index f.at,
      ) in
      swap_in-map_in io index (kseg0 + i * 4096) out alloc_held (omega arith) (
        get_elem?-set_self vm.sf_list index (swapped e f.elem)
          (lt_of_get_elem? vm.sf_list index f.at))
      ∙ (map_in-read_in io (kseg0 + i * 4096) index (swapped e f.elem) held add_pt-mapped cached.1
          ∙ (read_in-done io (kseg0 + i * 4096) index (swapped e f.elem)
                (record held { pg = mapped; tlb = cached.0 }) good
              ∙ rw (q, o) refl))

-- What is the same in a state after a page has been swapped out of the frame `i` and in again.
pub record SameFrame (vm : Vm) (i : ℕ) (e : Entry) (vm' : Vm) : Type 0 where
  pub entry : Entry
  pub at : get_elem? vm'.pg i ≡ some entry
  pub valid : entry.valid ≡ true
  pub page_number : entry.page_number ≡ e.page_number
  pub pid : entry.pid ≡ e.pid
  pub dirty : entry.dirty ≡ e.dirty
  pub others : (j : ℕ) → i ≢ j → get_elem? vm'.pg j ≡ get_elem? vm.pg j
  pub bytes : (a : ℕ) → vm'.memory a ≡ vm.memory a
  pub frames : vm'.frame_list ≡ vm.frame_list
  pub blocks : vm'.node_blocks ≡ vm.node_blocks

-- In a well formed state with a free slot in a swap table as swapfile_init lays it out, where no
-- other frame holds the page, no two TLB slots hold one page and the file takes and gives the
-- page: let a frame above 0 and below the page table be in use by a user process whose pid fits in
-- a byte, with a heap block left for the frame list's node. Then swapOut of the frame followed by
-- swapIn of the slot that it filled both return 0. In the end the frame's entry is valid and has
-- its page number, pid and dirty bit again, every byte of memory and every other entry is as
-- before, and so are the frame list and the number of blocks for its nodes.
pub swap_in-swap_out :
    {vm : Vm} {i : ℕ} {e : Entry} {io : Io} (index : ℕ)
    → IsWf vm
    → InUse vm i e
    → IsTable vm.sf_list
    → Succeeds io
    → Unique vm i e
    → Distinct vm.tlb.slots
    → sf_free_search vm.sf_list ≡ some index
    → (vm' vm'' : Vm) × (swap_out io (kseg0 + i * 4096) vm ≡ ok (0, vm'))
      × (swap_in io index vm' ≡ ok (0, vm''))
      × SameFrame vm i e vm''
unfolding sf_free_search restored out counter
swap_in-swap_out {vm} {i} {e} {io} index w u table good unique distinct free =
    let t = (cached w u table good unique distinct f).0 in
    (
      out w u table good unique distinct f,
      restored w u table good unique distinct f t,
      swap_out-after_out w u table good index f,
      swap_in-restored w u table good unique distinct f,
      record {
        entry = back e (add32 vm.pt_counter 1);
        at = mapped-at w u table good unique distinct f;
        valid = refl;
        page_number = ground (arith, page_back w u table good unique distinct f);
        pid = omega (arith, u.byte);
        dirty = refl;
        others = mapped-other w u table good unique distinct f;
        bytes = λ a. ground (arith, there a);
        frames = refl;
        blocks = omega (arith, u.room);
      },
    )
  where
    f : IsFirst is_free_slot vm.sf_list index
    f = find-IsFirst is_free_slot vm.sf_list free

    there :
        (a : ℕ)
        → i * 4096 ≤ a
        → vm.memory (i * 4096 + (index * 4096 + (a - i * 4096) - index * 4096)) ≡ vm.memory a
    there a h = ap vm.memory (omega arith)
