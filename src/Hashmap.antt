-- ===== src/Hashmap.antt =====
-- Stdlib/Heap.c, the hashmap from pages to ChunkInfo structures: open addressing that probes
-- downwards. (Stdlib/mugOS/SlabAllocator.c holds the same functions.) NULL is 0, a pointer is its
-- address, and the array that `entries` points to is a list, empty before the first growth. A while
-- loop with no bound of its own runs on fuel; `endless` says that the fuel ran out.
pub mod Walk
pub mod Invariant
pub mod Lookup
pub mod Deletion
mod Tests
use mug_os.Base.{
  ℕ, zero, suc, ◌+◌, ◌-◌, ◌*◌, ◌/◌, ◌%◌, ◌^◌, bit_and, Bool, true, false, ◌&&◌, ◌||◌, not, List, [],
  ◌∷◌, ltb, leb, ◌==◌, if◌then◌else◌, add64, sub64, u64_mod, length, get_or, set, replicate,
}

-- `entry_t` and `hashmap_t`.
pub record Entry : Type 0 where
  pub key : ℕ
  pub value : ℕ

pub record Hashmap : Type 0 where
  pub entries : List Entry
  pub total_entries : ℕ
  pub free_entries : ℕ

abbrev pub null_entry : Entry
null_entry = record { key = 0; value = 0 }

abbrev pub entry_at : List Entry → ℕ → Entry
entry_at es i = get_or es i null_entry

abbrev pub key_at : List Entry → ℕ → ℕ
key_at es i = (entry_at es i).key

-- How a loop on fuel ends.
pub data Outcome (A : Type 0) : Type 0 where
  ends : A → Outcome A
  endless : Outcome A

-- `getPage`: the address of the page of a pointer.
abbrev pub get_page : ℕ → ℕ
get_page ptr = bit_and ptr 0xffff_ffff_ffff_f000

-- `roundToPage` on `size_t`.
abbrev pub round_to_page : ℕ → ℕ
round_to_page size = add64 size 4095 / 4096

-- `(sum << 7) - sum + extra` on `uint64_t`.
abbrev pub hash_step : ℕ → ℕ → ℕ
hash_step sum extra = add64 (sub64 (sum * 2 ^ 7 % u64_mod) sum) extra

-- `hash`.
unfoldable pub hash : ℕ → ℕ
hash ptr =
    let value = ptr / 2 ^ 12 in
    let sum = hash_step value (value / 2 ^ 16) in
    let sum = hash_step sum (value / 2 ^ 32) in hash_step sum (value / 2 ^ 48)

-- `hash(p) & mask` and `(i-1) & mask`, for mask = totalEntries - 1.
unfoldable pub home : ℕ → ℕ → ℕ
home total p = bit_and (hash p) (sub64 total 1)

unfoldable pub previous : ℕ → ℕ → ℕ
previous total i = bit_and (sub64 i 1) (sub64 total 1)

-- `while (entries[i].key != NULL) i = (i-1) & mask;`
unfoldable pub probe_free : ℕ → ℕ → List Entry → ℕ → Outcome ℕ
probe_free zero total es i = endless
probe_free (suc fuel) total es i = elim (key_at es i == 0) [
  | true ↦ ends i
  | false ↦ probe_free fuel total es (previous total i)
]

-- The loop of `Hashmap_grow` over the old entries.
unfoldable pub copy_entries : ℕ → List Entry → List Entry → Outcome (List Entry)
copy_entries new_total [] new_values = ends new_values
copy_entries new_total (e ∷ old) new_values = elim (e.key == 0) [
  | true ↦ copy_entries new_total old new_values
  | false ↦ elim (probe_free new_total new_total new_values (home new_total e.key)) [
    | ends j ↦ copy_entries new_total old (set new_values j e)
    | endless ↦ endless
  ]
]

abbrev pub hashmap_default_size : ℕ
hashmap_default_size = 256

abbrev pub hashmap_max_size : ℕ
hashmap_max_size = 0x07ff_ffff_ffff_ffff

-- `Hashmap_grow`: the value returned and the map. `allocates n` says whether allocatePages(n, true)
-- gives out pages, which it clears; giving back the old pages is not part of the map.
unfoldable pub grow : (ℕ → Bool) → Hashmap → Outcome (Bool × Hashmap)
grow allocates map =
    let new_total =
      if map.total_entries == 0 then hashmap_default_size else 2 * map.total_entries in
    if ltb hashmap_max_size map.total_entries
    then ends (false, map)
    else if not (allocates (round_to_page (new_total * 16)))
    then ends (false, map)
    else elim (copy_entries new_total map.entries (replicate new_total null_entry)) [
      | ends new_values ↦ ends (
        true,
        record map {
          entries = new_values;
          free_entries = map.free_entries + (new_total - map.total_entries);
          total_entries = new_total;
        },
      )
      | endless ↦ endless
    ]

-- `hashmapTooFull`.
abbrev pub hashmap_too_full : Hashmap → Bool
hashmap_too_full map = ltb (map.free_entries * 4) map.total_entries

-- What `Hashmap_insert` does once there is room.
unfoldable pub insert_with_room : Hashmap → ℕ → ℕ → Outcome (Bool × Hashmap)
insert_with_room map ptr value =
    let p = get_page ptr in
    elim (probe_free map.total_entries map.total_entries map.entries (home map.total_entries p)) [
      | ends i ↦ ends (
        true,
        record map {
          entries = set map.entries i (record { key = p; value = value });
          free_entries = map.free_entries - 1;
        },
      )
      | endless ↦ endless
    ]

-- `Hashmap_insert`.
unfoldable pub insert : (ℕ → Bool) → Hashmap → ℕ → ℕ → Outcome (Bool × Hashmap)
insert allocates map ptr value =
    if ptr == 0
    then ends (false, map)
    else if hashmap_too_full map || (map.total_entries == 0)
    then elim (grow allocates map) [
      | ends (true, grown) ↦ insert_with_room grown ptr value
      | ends (false, same) ↦ ends (false, same)
      | endless ↦ endless
    ]
    else insert_with_room map ptr value

-- The result of `Hashmap_find`: the index of the entry, or NULL.
pub data Found : Type 0 where
  at : ℕ → Found
  absent : Found

unfoldable pub find_loop : ℕ → ℕ → List Entry → ℕ → ℕ → Outcome Found
find_loop zero total es p i = endless
find_loop (suc fuel) total es p i = elim (key_at es i == 0) [
  | true ↦ ends absent
  | false ↦ elim (key_at es i == p) [
    | true ↦ ends (at i)
    | false ↦ find_loop fuel total es p (previous total i)
  ]
]

-- `Hashmap_find`.
unfoldable pub find : Hashmap → ℕ → Outcome Found
find map ptr = elim map.entries [
  | [] ↦ ends absent
  | _ ∷ _ ↦
      find_loop map.total_entries map.total_entries map.entries (get_page ptr)
        (home map.total_entries (get_page ptr))
]

-- The three tests of `Hashmap_delete` that leave the entry at `cur` where it is.
abbrev pub stays : ℕ → ℕ → ℕ → Bool
stays cur target prev =
    (leb cur target && ltb target prev)
    || (ltb target prev && ltb prev cur)
    || (ltb prev cur && leb cur target)

-- Its do-while loop. The loop's test reads the key at `cur` after the body, so also after a move.
unfoldable pub delete_loop : ℕ → ℕ → List Entry → ℕ → ℕ → Outcome (List Entry)
delete_loop zero total es cur_index prev_index = endless
delete_loop (suc fuel) total es cur_index prev_index =
    let cur = previous total cur_index in
    let kept = stays cur (home total (key_at es cur)) prev_index in
    let es' = if kept then es else set (set es prev_index (entry_at es cur)) cur null_entry in
    let prev' = if kept then prev_index else cur in
    elim (key_at es' cur == 0) [ true ↦ ends es' | false ↦ delete_loop fuel total es' cur prev' ]

-- `Hashmap_delete`, for an entry given by its index; the assertions hold in a valid map.
unfoldable pub delete : Hashmap → ℕ → Outcome Hashmap
delete map i =
    if map.total_entries == 0
    then ends map
    else elim (delete_loop (map.total_entries + 1) map.total_entries (set map.entries i null_entry)
        i i) [
          | ends es ↦ ends (record map { entries = es; free_entries = map.free_entries + 1 })
          | endless ↦ endless
        ]
