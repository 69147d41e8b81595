-- ===== src/MemoryMap/Tests.antt =====
-- Tests of the memory map, on four entries of which two are merged.
use mug_os.Base.{◌+◌, ◌≡◌, refl, arith, some, List, [], ◌∷◌, length}
use mug_os.MemoryMap.{
  LimineEntry, usable, reserved, kernel_and_modules, MemoryMap, MemoryMapEntry, memory_usable,
  memory_reserved, memory_kernel, process_limine_memory_map, process_entries, copy_into_memory_map,
  copy_entries, get_memory_type, mmap_init, parse_limine_memory_map, parse_entries, parse_entry,
}
use mug_os.MemoryMap.Merged.{AllSupported, limine_cover, cover}
use mug_os.MemoryMap.Init.{mmap_init_lem, copy_into_memory_map-one_page}

abbrev low : LimineEntry
low = record { base = 0; extent = 0x9000; kind = usable }

abbrev others : List LimineEntry
others =
    record { base = 0x9000; extent = 0x1000; kind = usable }
    ∷ record { base = 0xf_0000; extent = 0x1_0000; kind = reserved }
    ∷ record { base = 0x20_0000; extent = 0x4_0000; kind = kernel_and_modules }
    ∷ []

supported : AllSupported (low ∷ others)
unfolding get_memory_type
supported = (
  record { known = ground arith; fits = omega arith },
  (
    record { known = ground arith; fits = omega arith },
    (
      record { known = ground arith; fits = omega arith },
      (record { known = ground arith; fits = omega arith }, tt),
    ),
  ),
)

abbrev blank : MemoryMap
blank = record {
  total_usable_memory = 0;
  first_usable_page = 0;
  last_usable_page = 0;
  kernel_address = 0;
  kernel_size = 0;
  size = 0;
  entries = [];
}

abbrev parsed : MemoryMap
parsed = record {
  total_usable_memory = 0x9000;
  first_usable_page = 0x1000;
  last_usable_page = 0x9000;
  kernel_address = 0x20_0000;
  kernel_size = 0x4_0000;
  size = 0;
  entries = [];
}

parses_blank : parse_limine_memory_map blank (low ∷ others) ≡ some parsed
unfolding parse_limine_memory_map parse_entries parse_entry
parses_blank = refl

merged_count : (process_limine_memory_map (low ∷ others)).1 ≡ 4
unfolding process_limine_memory_map process_entries
merged_count = refl

written :
    copy_into_memory_map (process_limine_memory_map (low ∷ others)).0
    ≡ some (
        record { address = 0; extent = 0x1000; kind = memory_reserved }
        ∷ record { address = 0x1000; extent = 0x9000; kind = memory_usable }
        ∷ record { address = 0xf_0000; extent = 0x1_0000; kind = memory_reserved }
        ∷ record { address = 0x20_0000; extent = 0x4_0000; kind = memory_kernel }
        ∷ [])
unfolding copy_into_memory_map copy_entries process_limine_memory_map process_entries
    get_memory_type
written = refl

mmap_init_lem_example :
    (m : MemoryMap) × ((mmap_init blank (low ∷ others) ≡ some m)
      × (m.size ≡ length m.entries)
      × (cover m.entries 0 0x9800 ≡ limine_cover (low ∷ others) 0 0x9800))
mmap_init_lem_example =
    mmap_init_lem blank parsed low others 0 0x9800 supported (λ u z. omega arith) (omega arith)
      parses_blank (λ e. absurd (omega arith)) (omega (arith, merged_count))

abbrev one_page : LimineEntry
one_page = record { base = 0; extent = 0x1000; kind = usable }

copy_into_memory_map-one_page_example :
    (ms : List MemoryMapEntry) × ((copy_into_memory_map
          (process_limine_memory_map (one_page ∷ [])).0
        ≡ some ms)
      × (length ms ≡ (process_limine_memory_map (one_page ∷ [])).1 + 1))
copy_into_memory_map-one_page_example =
    copy_into_memory_map-one_page one_page []
      (record { known = supported.0.known; fits = omega arith }, tt) refl refl refl
