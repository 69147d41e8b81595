-- ===== src/Paging/Tests.antt =====
-- Runs of Paging_map, and the theorem at one of them.
use mug_os.Base.{ℕ, ◌+◌, ◌*◌, ◌^◌, ◌≡◌, refl, arith, true, false, [], ◌∷◌}
use mug_os.Paging.{
  get_index_pml4, get_index_page_directory_pointer_table, get_index_page_directory,
  get_index_page_table, get_2mb_entry_address, set_2mb_page, bytes, choose_size, mappable,
  map_entries, map_round, map_loop, paging_map,
}
use mug_os.Paging.Entries.{start_of, span, translate, all_in_tables, range}
use mug_os.Paging.Mapping.{translate-paging_map}

-- 2 MB at a physical address that is a multiple of 2 MB, for a virtual one that is not: the page that is
-- written starts below the virtual address, which so has a physical address 4 KB too high.
misaligned_test :
    translate (paging_map false (2 ^ 21) (2 ^ 21 + 2 ^ 12) 512 3).0 (2 ^ 21 + 2 ^ 12)
    ≡ (2 ^ 21 + 2 ^ 12) ∷ []
unfolding map_loop map_round map_entries mappable choose_size bytes get_index_pml4
    get_index_page_directory_pointer_table get_index_page_directory get_index_page_table
    set_2mb_page get_2mb_entry_address translate start_of span
misaligned_test = refl

-- And the last 4 KB have none.
misaligned_end_test : translate (paging_map false (2 ^ 21) (2 ^ 21 + 2 ^ 12) 512 3).0 (2 ^ 22) ≡ []
unfolding map_loop map_round map_entries mappable choose_size bytes get_index_pml4
    get_index_page_directory_pointer_table get_index_page_directory get_index_page_table
    set_2mb_page get_2mb_entry_address translate start_of span
misaligned_end_test = refl

translate-paging_map_example :
    ((paging_map false (3 * 2 ^ 21) (7 * 2 ^ 21) 514 3).1 ≡ true)
    × (all_in_tables (paging_map false (3 * 2 ^ 21) (7 * 2 ^ 21) 514 3).0 ≡ true)
    × ((v : ℕ)
        → translate (paging_map false (3 * 2 ^ 21) (7 * 2 ^ 21) 514 3).0 v
          ≡ range (7 * 2 ^ 21) (514 * 2 ^ 12) (3 * 2 ^ 21) v [])
translate-paging_map_example =
    translate-paging_map false (3 * 2 ^ 21) (7 * 2 ^ 21) 514 3 (omega arith) (omega arith)
      (λ e. absurd (ground arith)) (omega arith) (omega arith)
