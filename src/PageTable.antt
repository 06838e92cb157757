-- ===== src/PageTable.antt =====
-- vm/pt.c: the inverted page table `main_PG`, one entry for each frame of physical memory.
pub mod Search
pub mod Victim
use os22_crisologo_minichell.Base.{
  ℕ, zero, suc, ◌+◌, ◌*◌, ◌/◌, ◌%◌, Bool, true, false, not, ◌&&◌, Option, none, some, List, [], ◌∷◌,
  ltb, ◌==◌, if◌then◌else◌, get_elem?, set, find_from, page_align, mul32, Outcome, ok, panic, fault,
}
use os22_crisologo_minichell.Segments.{AddrSpace, is_code_segment, is_data_segment}

-- struct invertedPT
pub record Entry : Type 0 where
  pub dirty : Bool
  pub valid : Bool
  pub pid : ℕ
  pub page_number : ℕ
  pub victim_counter : ℕ

-- The test of pageSearch, which reads no pid.
abbrev pub holds_page : ℕ → Entry → Bool
holds_page page e = e.valid && e.page_number == page

-- `none` is noEntryFound
unfoldable pub page_search : List Entry → ℕ → Option ℕ
page_search pg addr = find_from (holds_page (addr / 4096)) pg 0

-- The entry that addPT leaves in a slot; `pid` is a uint8_t.
abbrev pub filled : Entry → ℕ → ℕ → Bool → Entry
filled e vaddr pid dirty = record e {
  page_number = page_align vaddr / 4096;
  valid = true;
  pid = pid % 256;
  dirty = dirty;
}

unfoldable pub add_pt : List Entry → ℕ → ℕ → ℕ → Bool → Outcome (List Entry)
add_pt pg frame vaddr pid dirty = elim (get_elem? pg frame) [
  | none ↦ fault
  | some e ↦
      if e.valid && not (e.page_number == 0 && e.pid == 0)
      then panic
      else ok (set pg frame (filled e vaddr pid dirty))
]

pub data Kind : Type 0 where
  code_kind data_kind : Kind

-- The address space and pid are those of `curproc`.
unfoldable pub is_candidate : Kind → AddrSpace → ℕ → Entry → Bool
is_candidate code_kind space pid e =
    e.pid == pid && is_code_segment (mul32 e.page_number 4096) space
is_candidate data_kind space pid e =
    e.pid == pid && is_data_segment (mul32 e.page_number 4096) space

-- What the loop of victim_pageSearch holds: `none` while `first`, then `min_value` and the victim.
unfoldable pub better : Option (ℕ × ℕ) → ℕ → ℕ → Option (ℕ × ℕ)
better none counter i = some (counter, i)
better (some (least, v)) counter i =
    if ltb counter least then some (counter, i) else some (least, v)

unfoldable pub victim_loop : (Entry → Bool) → List Entry → ℕ → Option (ℕ × ℕ) → Option (ℕ × ℕ)
victim_loop test [] i best = best
victim_loop test (e ∷ es) i best =
    victim_loop test es (i + 1) (if test e then better best e.victim_counter i else best)

unfoldable pub victim_page_search : Kind → AddrSpace → ℕ → List Entry → Option ℕ
unfolding victim_loop better
victim_page_search kind space pid pg = elim (victim_loop (is_candidate kind space pid) pg 0 none) [
  | none ↦ none
  | some (least, v) ↦ some v
]
