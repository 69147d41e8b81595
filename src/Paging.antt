-- ===== src/Paging.antt =====
-- Kernel/Arch/x86_64/Memory/Paging.c: the entries of the tables, and the tables' runs that Paging_map fills.
mod Tests
pub mod Entries
pub mod Mapping
use mug_os.Base.{
  ℕ, zero, suc, ◌+◌, ◌-◌, ◌*◌, ◌/◌, ◌%◌, ◌^◌, min, bit_and, add64, Bool, true, false, not, ◌&&◌,
  List, [], ◌∷◌, ◌++◌, leb, ltb, ◌==◌, if◌then◌else◌,
}

-- `getIndexPML4` and its three kin: masks of 9 bits.
unfoldable pub get_index_pml4 : ℕ → ℕ
get_index_pml4 addr = addr / 2 ^ 39 % 512

unfoldable pub get_index_page_directory_pointer_table : ℕ → ℕ
get_index_page_directory_pointer_table addr = addr / 2 ^ 30 % 512

unfoldable pub get_index_page_directory : ℕ → ℕ
get_index_page_directory addr = addr / 2 ^ 21 % 512

unfoldable pub get_index_page_table : ℕ → ℕ
get_index_page_table addr = addr / 2 ^ 12 % 512

-- `get4KBEntryAddress`, `get2MBEntryAddress` and `get1GBEntryAddress`: masks of the bits below 48.
unfoldable pub get_4kb_entry_address : ℕ → ℕ
get_4kb_entry_address addr = addr % 2 ^ 48 / 2 ^ 12

unfoldable pub get_2mb_entry_address : ℕ → ℕ
get_2mb_entry_address addr = addr % 2 ^ 48 / 2 ^ 21

unfoldable pub get_1gb_entry_address : ℕ → ℕ
get_1gb_entry_address addr = addr % 2 ^ 48 / 2 ^ 30

-- The bits of `PAGE_WRITE` and the other flags of a mapping.
abbrev pub has_flag : ℕ → ℕ → Bool
has_flag flags flag = not (bit_and flags flag == 0)

-- A page's entry: the fields of `PageDescriptor4KB`, `PageDescriptor2MB` and `PageDescriptor1GB` that
-- are not always 0. In an entry of 4 KB the bit of `page_size` is `pat`.
pub record Entry : Type 0 where
  pub present : Bool
  pub writable : Bool
  pub privilege : Bool
  pub write_through : Bool
  pub cache_disabled : Bool
  pub page_size : Bool
  pub address : ℕ
  pub execute_disabled : Bool

-- What the three functions that set a page have in common.
abbrev pub set_page : Bool → ℕ → ℕ → Entry
set_page page_size address flags = record {
  present = true;
  writable = has_flag flags 1;
  privilege = has_flag flags 4;
  write_through = has_flag flags 16;
  cache_disabled = has_flag flags 8;
  page_size = page_size;
  address = address;
  execute_disabled = not (has_flag flags 2);
}

-- `set4KBPage`, `set2MBPage` and `set1GBPage`: the entry that is written.
unfoldable pub set_4kb_page : ℕ → ℕ → Entry
set_4kb_page flags addr = set_page false (get_4kb_entry_address addr) flags

unfoldable pub set_2mb_page : ℕ → ℕ → Entry
set_2mb_page flags addr = set_page true (get_2mb_entry_address addr) flags

unfoldable pub set_1gb_page : ℕ → ℕ → Entry
set_1gb_page flags addr = set_page true (get_1gb_entry_address addr) flags

-- The place of an entry: its index in each table on the way.
pub data Slot : Type 0 where
  slot_1gb : ℕ → ℕ → Slot
  slot_2mb : ℕ → ℕ → ℕ → Slot
  slot_4kb : ℕ → ℕ → ℕ → ℕ → Slot

-- What Paging_map does to the tables: it asks for one below an entry of the PML4, of a PDP or of a page
-- directory, which is allocated if it is not there, and writes entries.
pub data Effect : Type 0 where
  get_pdp : ℕ → Effect
  get_pd : ℕ → ℕ → Effect
  get_pt : ℕ → ℕ → ℕ → Effect
  page : Slot → Entry → Effect

pub data PageSize : Type 0 where
  size_1gb size_2mb size_4kb : PageSize

unfoldable pub bytes : PageSize → ℕ
bytes size_1gb = 2 ^ 30
bytes size_2mb = 2 ^ 21
bytes size_4kb = 2 ^ 12

-- The conditions of the three parts of the loop.
unfoldable pub choose_size : Bool → ℕ → ℕ → PageSize
choose_size has_1gb_pages phys remaining =
    if has_1gb_pages && (phys % 2 ^ 30 == 0) && leb (2 ^ 18) remaining
    then size_1gb
    else if (phys % 2 ^ 21 == 0) && leb (2 ^ 9) remaining
    then size_2mb
    else size_4kb

-- `mappable`.
unfoldable pub mappable : PageSize → ℕ → ℕ → ℕ
mappable size_1gb virt remaining =
    min (512 - get_index_page_directory_pointer_table virt) (remaining * 2 ^ 12 % 2 ^ 64 / 2 ^ 30)
mappable size_2mb virt remaining =
    min (512 - get_index_page_directory virt) (remaining * 2 ^ 12 % 2 ^ 64 / 2 ^ 21)
mappable size_4kb virt remaining = min (512 - get_index_page_table virt) remaining

-- The for loop over the entries of a table, from an index on.
unfoldable pub map_entries : (ℕ → Slot) → (ℕ → Entry) → ℕ → ℕ → ℕ → ℕ → List Effect
map_entries slot_at set size index zero phys = []
map_entries slot_at set size index (suc count) phys =
    page (slot_at index) (set phys)
    ∷ map_entries slot_at set size (suc index) count (add64 phys size)

-- One round, for its page size and the number of pages.
unfoldable pub map_round : PageSize → ℕ → ℕ → ℕ → ℕ → List Effect
map_round size_1gb flags phys virt count =
    let pml4 = get_index_pml4 virt in
    get_pdp pml4
    ∷ map_entries (λ i. slot_1gb pml4 i) (set_1gb_page flags) (2 ^ 30)
        (get_index_page_directory_pointer_table virt) count phys
map_round size_2mb flags phys virt count =
    let pml4 = get_index_pml4 virt in
    let pdp = get_index_page_directory_pointer_table virt in
    get_pdp pml4
    ∷ get_pd pml4 pdp
    ∷ map_entries (λ i. slot_2mb pml4 pdp i) (set_2mb_page flags) (2 ^ 21)
        (get_index_page_directory virt) count phys
map_round size_4kb flags phys virt count =
    let pml4 = get_index_pml4 virt in
    let pdp = get_index_page_directory_pointer_table virt in
    let pd = get_index_page_directory virt in
    get_pdp pml4
    ∷ get_pd pml4 pdp
    ∷ get_pt pml4 pdp pd
    ∷ map_entries (λ i. slot_4kb pml4 pdp pd i) (set_4kb_page flags) (2 ^ 12)
        (get_index_page_table virt) count phys

-- The while loop, on fuel: what it does, and whether it ended.
unfoldable pub map_loop : ℕ → Bool → ℕ → ℕ → ℕ → ℕ → List Effect × Bool
map_loop zero has_1gb_pages flags phys virt remaining = ([], remaining == 0)
map_loop (suc fuel) has_1gb_pages flags phys virt remaining =
    let size = choose_size has_1gb_pages phys remaining in
    let count = mappable size virt remaining in
    let moved = count * bytes size in
    let rest =
      map_loop fuel has_1gb_pages flags (add64 phys moved) (add64 virt moved)
        (remaining - moved / 2 ^ 12) in
    if remaining == 0 then ([], true) else (map_round size flags phys virt count ++ rest.0, rest.1)

-- `Paging_map`, whose loop ends within a round for each page.
abbrev pub paging_map : Bool → ℕ → ℕ → ℕ → ℕ → List Effect × Bool
paging_map has_1gb_pages phys virt n_pages flags =
    map_loop n_pages has_1gb_pages flags phys virt n_pages
