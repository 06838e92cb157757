-- ===== src/Frames/Wf.antt =====
-- The invariant of the frame allocator.
use os22_crisologo_minichell.Base.{
  ℕ, ◌*◌, ◌^◌, ◌<◌, ◌≤◌, ◌≡◌, sym, ◌∙◌, true, none, some, List, arith, ◌==◌, if◌then◌else◌, length,
  get_elem?, set, count, length-set, get_elem?-set_self, get_elem?-set_ne, lt_of_get_elem?,
}
use native.Mathlib.Decide.{ℕ_discrete}
use os22_crisologo_minichell.PageTable.{Entry}
use os22_crisologo_minichell.Tlb.Count
use os22_crisologo_minichell.Vm.{Vm}

-- 1 if the frame exists and its entry is not valid
abbrev pub free_at : List Entry → ℕ → ℕ
free_at pg i = elim (get_elem? pg i) [ none ↦ 0 | some e ↦ if e.valid then 0 else 1 ]

-- Every entry is for a user page, or for page 0.
abbrev pub UserPages : List Entry → Type 0
UserPages pg = (i : ℕ) (e : Entry) → get_elem? pg i ≡ some e → e.page_number < 0x80000

-- After vm_bootstrap: each frame stands on the frame list once if its entry is not valid and not at
-- all otherwise; a listed frame is not frame 0 and lies below the page table.
pub record IsWf (vm : Vm) : Type 0 where
  pub started : vm.started ≡ true
  pub small : length vm.pg ≤ 2 ^ 17
  pub listed : (i : ℕ) → count i vm.frame_list ≡ free_at vm.pg i
  pub usable : (i : ℕ) → 0 < count i vm.frame_list → (0 < i) × (i * 4096 < vm.pg_base)
  pub user : UserPages vm.pg
  pub tlb : Count.IsWf vm.tlb

-- A write to one entry decides the freeness of that frame alone.
pub free_at-set :
    (pg : List Entry) (i j : ℕ) (e : Entry)
    → i < length pg
    → free_at (set pg i e) j ≡ (if i == j then (if e.valid then 0 else 1) else free_at pg j)
free_at-set pg i j e h = elim (ℕ_discrete i j) [
  | yes p ↦ ground (arith, p, get_elem?-set_self pg j e (omega arith))
  | no n ↦ ground (arith, get_elem?-set_ne pg i j e n)
]

pub UserPages-set :
    (pg : List Entry) (i : ℕ) (e : Entry)
    → UserPages pg
    → e.page_number < 0x80000
    → UserPages (set pg i e)
UserPages-set pg i e u h j b g = elim (ℕ_discrete i j) [
  | yes p ↦ ground (
    arith,
    get_elem?-set_self pg i e (omega (arith, lt_of_get_elem? (set pg i e) j g, length-set pg i e)),
  )
  | no n ↦ u j b (sym (get_elem?-set_ne pg i j e n) ∙ g)
]
