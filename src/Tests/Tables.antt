-- ===== src/Tests/Tables.antt =====
-- Segments, the page table and early memory at concrete tables.
use os22_crisologo_minichell.Base.{
  [], ◌∷◌, ◌<◌, ◌≢◌, get_elem?, ℕ, ◌≡◌, refl, true, none, some, NoneHolds, find_from,
}
use os22_crisologo_minichell.Segments.{is_data_segment}
use os22_crisologo_minichell.PageTable.{
  add_pt, filled, data_kind, is_candidate, page_search, victim_page_search,
}
use os22_crisologo_minichell.PageTable.Search.{Maps, page_search_lem, page_search-add_pt}
use os22_crisologo_minichell.PageTable.Victim.{IsVictim, victim_page_search_lem}
use os22_crisologo_minichell.Ram.{Ram}
use os22_crisologo_minichell.Tests.State.{
  kernel_entry, code_entry, data_entry, free_entry, table, space,
}

page_search_lem_example :
    ((i : ℕ)
      → page_search table 0x400010 ≡ some i
      → Maps table 0x400 i × ((j : ℕ) → j < i → ¬ Maps table 0x400 j))
    × (page_search table 0x400010 ≡ none → (j : ℕ) → ¬ Maps table 0x400 j)
page_search_lem_example = page_search_lem table 0x400010

page_search-add_pt_example :
    let pg' =
      kernel_entry
      ∷ kernel_entry
      ∷ code_entry
      ∷ data_entry
      ∷ filled free_entry 0x10001008 2 true
      ∷ free_entry
      ∷ kernel_entry
      ∷ [] in
    (page_search pg' 0x10001008 ≡ some 4) × ((j : ℕ) → 4 ≢ j → get_elem? pg' j ≡ get_elem? table j)
unfolding page_search add_pt find_from
page_search-add_pt_example = page_search-add_pt table 4 0x10001008 2 true refl refl

page_search_finds : page_search table 0x400010 ≡ some 2
unfolding page_search find_from
page_search_finds = refl

victim_page_search_lem_example :
    ((v : ℕ)
      → victim_page_search data_kind space 2 table ≡ some v
      → IsVictim data_kind space 2 table v)
    × (victim_page_search data_kind space 2 table ≡ none
        → NoneHolds (is_candidate data_kind space 2) table)
victim_page_search_lem_example = victim_page_search_lem data_kind space 2 table

victim_found : victim_page_search data_kind space 2 table ≡ some 3
unfolding victim_page_search is_candidate is_data_segment
victim_found = refl

abbrev early : Ram
early = record { firstpaddr = 8192; lastpaddr = 16384 }
