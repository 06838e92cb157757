-- ===== src/PageTable/Search.antt =====
-- pageSearch and addPT: what a search finds, and what an insertion changes.
use os22_crisologo_minichell.Base.{
  ℕ, ◌/◌, ◌≡◌, sym, ◌∙◌, ◌≢◌, inl, inr, Bool, false, not, ◌&&◌, none, some, List, arith, ◌==◌,
  Option-cases, length, get_elem?, set, length-set, get_elem?-set_self, get_elem?-set_ne,
  lt_of_get_elem?, IsFirst, find-IsFirst, find-NoneHolds, IsFirst-find, ok, true, ◌<◌,
}
use os22_crisologo_minichell.PageTable.{Entry, holds_page, page_search, filled, add_pt}

-- The frame `i` has a valid entry for the page.
pub record Maps (pg : List Entry) (page i : ℕ) : Type 0 where
  pub entry : Entry
  pub at : get_elem? pg i ≡ some entry
  pub valid : entry.valid ≡ true
  pub number : entry.page_number ≡ page

not_mapped :
    (page : ℕ) (e : Entry) → holds_page page e ≡ false → e.valid ≡ true → e.page_number ≢ page
not_mapped page e h v n = ground (arith, h, v, n)

-- If pageSearch returns a frame, its entry is valid and holds the page of the address, whatever
-- its pid, and no valid entry of a lower frame holds that page; if it returns noEntryFound, no
-- valid entry holds the page.
pub page_search_lem :
    (pg : List Entry) (addr : ℕ)
    → ((i : ℕ)
        → page_search pg addr ≡ some i
        → Maps pg (addr / 4096) i × ((j : ℕ) → j < i → ¬ Maps pg (addr / 4096) j))
      × (page_search pg addr ≡ none → (j : ℕ) → ¬ Maps pg (addr / 4096) j)
unfolding page_search
page_search_lem pg addr = (
  λ i h.
      let f = find-IsFirst (holds_page (addr / 4096)) pg h in
      (
        record {
          entry = f.elem;
          at = f.at;
          valid = ground (arith, f.holds);
          number = ground (arith, f.holds);
        },
        λ j l m. not_mapped _ m.entry (f.before j m.entry l m.at) m.valid m.number,
      ),
  λ h j m.
      not_mapped _ m.entry (find-NoneHolds (holds_page (addr / 4096)) pg h j m.entry m.at) m.valid
        m.number,
)

-- What a successful addPT has done: the slot was free or the kernel's page 0, it now holds the
-- page, and no other slot has changed.
pub record Added (pg : List Entry) (frame vaddr pid : ℕ) (dirty : Bool) (pg' : List Entry)
    : Type 0 where
  pub old : Entry
  pub was : get_elem? pg frame ≡ some old
  pub free : (old.valid && not (old.page_number == 0 && old.pid == 0)) ≡ false
  pub result : pg' ≡ set pg frame (filled old vaddr pid dirty)

pub add_pt-Added :
    (pg : List Entry) (frame vaddr pid : ℕ) (dirty : Bool) {pg' : List Entry}
    → add_pt pg frame vaddr pid dirty ≡ ok pg'
    → Added pg frame vaddr pid dirty pg'
unfolding add_pt
add_pt-Added pg frame vaddr pid dirty h = elim (Option-cases (get_elem? pg frame)) [
  | inl e ↦ ground arith
  | inr (old, e) ↦ record { old = old; was = e; free = ground arith; result = ground arith }
]

module _ {pg pg' : List Entry} {frame vaddr pid : ℕ} {dirty : Bool}
    (a : Added pg frame vaddr pid dirty pg') where
  pub Added-self : get_elem? pg' frame ≡ some (filled a.old vaddr pid dirty)
  Added-self = rw a.result (get_elem?-set_self pg frame _ (lt_of_get_elem? pg frame a.was))

  pub Added-other : (j : ℕ) → frame ≢ j → get_elem? pg' j ≡ get_elem? pg j
  Added-other j ne = rw a.result (get_elem?-set_ne pg frame j _ ne)

  pub Added-length : length pg' ≡ length pg
  Added-length = rw a.result (length-set pg frame _)

-- If no valid entry holds the page of an address, then after a successful addPT for that address
-- pageSearch finds exactly the frame that was added, and every other entry is as before.
pub page_search-add_pt :
    (pg : List Entry) (frame vaddr pid : ℕ) (dirty : Bool) {pg' : List Entry}
    → page_search pg vaddr ≡ none
    → add_pt pg frame vaddr pid dirty ≡ ok pg'
    → (page_search pg' vaddr ≡ some frame)
      × ((j : ℕ) → frame ≢ j → get_elem? pg' j ≡ get_elem? pg j)
unfolding page_search
page_search-add_pt pg frame vaddr pid dirty {pg'} absent h =
    (IsFirst-find _ pg' first, Added-other a)
  where
    a : Added pg frame vaddr pid dirty pg'
    a = add_pt-Added pg frame vaddr pid dirty h

    first : IsFirst (holds_page (vaddr / 4096)) pg' frame
    first = record {
      elem = filled a.old vaddr pid dirty;
      at = Added-self a;
      holds = ground arith;
      before = λ m b l g. find-NoneHolds _ pg absent m b (sym (Added-other a m (omega arith)) ∙ g);
    }
