-- ===== src/MemoryMap.antt =====
-- Kernel/Memory/MemoryMap.c: the map of physical memory, made from the one of the boot loader. Limine's
-- entries are a list; its constants for the type of an entry are the constructors of a data type. A
-- panic is `none`. Numbers of entries are those of an array in memory, so they do not wrap.
pub mod Merged
pub mod Copied
pub mod Init
pub mod Magnitude
mod Tests
use mug_os.Base.{
  ℕ, zero, suc, ◌+◌, ◌-◌, ◌/◌, Bool, true, false, ◌&&◌, Option, none, some, List, [], ◌∷◌, ltb, leb,
  ◌==◌, if◌then◌else◌, add64, sub64, length,
}

-- The types of limine's entries, with REMOVED_ENTRY_LIMINE, and those that no case names.
pub data LimineType : Type 0 where
  usable : LimineType
  reserved : LimineType
  acpi_reclaimable : LimineType
  acpi_nvs : LimineType
  bad_memory : LimineType
  bootloader_reclaimable : LimineType
  kernel_and_modules : LimineType
  framebuffer : LimineType
  removed_entry : LimineType
  unsupported : ℕ → LimineType

-- A number for each, to compare them.
abbrev pub limine_value : LimineType → ℕ
limine_value usable = 0
limine_value reserved = 1
limine_value acpi_reclaimable = 2
limine_value acpi_nvs = 3
limine_value bad_memory = 4
limine_value bootloader_reclaimable = 5
limine_value kernel_and_modules = 6
limine_value framebuffer = 7
limine_value removed_entry = 8
limine_value (unsupported n) = 9 + n

-- `struct limine_memmap_entry`.
pub record LimineEntry : Type 0 where
  pub base : ℕ
  pub extent : ℕ
  pub kind : LimineType

-- `enum MemoryType`, in its order.
pub data MemoryType : Type 0 where
  memory_usable : MemoryType
  memory_reserved : MemoryType
  memory_kernel : MemoryType
  memory_framebuffer : MemoryType
  memory_acpi_nvs : MemoryType
  memory_acpi_reclaimable : MemoryType
  memory_bootloader_reclaimable : MemoryType

pub record MemoryMapEntry : Type 0 where
  pub address : ℕ
  pub extent : ℕ
  pub kind : MemoryType

-- `struct MemoryMap`; `entries` are the entries written so far.
pub record MemoryMap : Type 0 where
  pub total_usable_memory : ℕ
  pub first_usable_page : ℕ
  pub last_usable_page : ℕ
  pub kernel_address : ℕ
  pub kernel_size : ℕ
  pub size : ℕ
  pub entries : List MemoryMapEntry

abbrev pub page_size : ℕ
page_size = 4096

abbrev pub mmap_max_entries : ℕ
mmap_max_entries = 128

-- What the cases of usable memory of `parseLimineMemoryMap` share: `extent` more bytes, the last page
-- of the entry, and the first page if none was found before.
abbrev pub usable_region : MemoryMap → LimineEntry → ℕ → MemoryMap
usable_region mmap cur extent = record mmap {
  total_usable_memory = add64 mmap.total_usable_memory extent;
  last_usable_page = sub64 (add64 cur.base cur.extent) page_size;
}

abbrev pub find_first : MemoryMap → Bool → ℕ → MemoryMap
find_first mmap first_not_found page =
    if first_not_found then record mmap { first_usable_page = page } else mmap

-- The length of a reclaimable entry up to the next entry.
abbrev pub clipped : LimineEntry → List LimineEntry → ℕ
clipped cur [] = cur.extent
clipped cur (next ∷ rest) =
    if leb next.base (add64 cur.base cur.extent) then sub64 next.base cur.base else cur.extent

-- One round of `parseLimineMemoryMap`; `rest` are the entries after `cur`.
unfoldable pub parse_entry :
    MemoryMap → Bool → LimineEntry → List LimineEntry → Option (MemoryMap × Bool)
parse_entry mmap first cur rest = elim cur.kind [
  | usable ↦
      let mmap₁ = usable_region mmap cur cur.extent in
      if cur.base == 0
      then some (
        find_first
            (record mmap₁ { total_usable_memory = sub64 mmap₁.total_usable_memory page_size }) first
            page_size,
        false,
      )
      else some (find_first mmap₁ first cur.base, false)
  | acpi_reclaimable ↦
      some (find_first (usable_region mmap cur (clipped cur rest)) first cur.base, false)
  | bootloader_reclaimable ↦
      some (find_first (usable_region mmap cur cur.extent) first cur.base, false)
  | kernel_and_modules ↦
      some (record mmap { kernel_address = cur.base; kernel_size = cur.extent }, first)
  | unsupported n ↦ none
  | reserved ↦ some (mmap, first)
  | acpi_nvs ↦ some (mmap, first)
  | bad_memory ↦ some (mmap, first)
  | framebuffer ↦ some (mmap, first)
  | removed_entry ↦ some (mmap, first)
]

unfoldable pub parse_entries : MemoryMap → Bool → List LimineEntry → Option MemoryMap
parse_entries mmap first [] = some mmap
parse_entries mmap first (cur ∷ rest) = elim (parse_entry mmap first cur rest) [
  | none ↦ none
  | some (mmap', first') ↦ parse_entries mmap' first' rest
]

-- `parseLimineMemoryMap`.
unfoldable pub parse_limine_memory_map : MemoryMap → List LimineEntry → Option MemoryMap
parse_limine_memory_map mmap es =
    parse_entries
      (record mmap { total_usable_memory = 0; first_usable_page = 0; last_usable_page = 0 }) true es

-- The test for two entries to be merged.
abbrev pub juxtaposed : LimineEntry → LimineEntry → Bool
juxtaposed cur next =
    (limine_value cur.kind == limine_value next.kind) && (add64 cur.base cur.extent == next.base)

-- The loop of `processLimineMemoryMap`, from the round where `cur` is entry i on.
unfoldable pub process_entries : LimineEntry → List LimineEntry → ℕ → List LimineEntry × ℕ
process_entries cur [] n = (cur ∷ [], n)
process_entries cur (next ∷ rest) n = elim (juxtaposed cur next) [
  | true ↦
      let (es, n') = process_entries (record next { kind = removed_entry }) rest (n - 1) in
      (record cur { extent = add64 cur.extent next.extent } ∷ es, n')
  | false ↦ let (es, n') = process_entries next rest n in (cur ∷ es, n')
]

abbrev pub is_usable : LimineType → Bool
is_usable usable = true
is_usable _ = false

-- `processLimineMemoryMap`: the entries it leaves, and the number it returns.
unfoldable pub process_limine_memory_map : List LimineEntry → List LimineEntry × ℕ
process_limine_memory_map [] = ([], 0)
process_limine_memory_map (cur ∷ rest) =
    let n = length (cur ∷ rest) in
    process_entries cur rest
      (if is_usable cur.kind && (cur.base == 0) && ltb page_size cur.extent then n + 1 else n)

-- `getMemoryType`.
unfoldable pub get_memory_type : LimineType → Option MemoryType
get_memory_type usable = some memory_usable
get_memory_type reserved = some memory_reserved
get_memory_type acpi_reclaimable = some memory_acpi_reclaimable
get_memory_type acpi_nvs = some memory_acpi_nvs
get_memory_type bad_memory = some memory_reserved
get_memory_type bootloader_reclaimable = some memory_bootloader_reclaimable
get_memory_type kernel_and_modules = some memory_kernel
get_memory_type framebuffer = some memory_framebuffer
get_memory_type removed_entry = none
get_memory_type (unsupported n) = none

-- The loop of `copyIntoMemoryMap`: the entries that it writes.
unfoldable pub copy_entries : List LimineEntry → Option (List MemoryMapEntry)
copy_entries [] = some []
copy_entries (cur ∷ rest) =
    let copied = copy_entries rest in
    if limine_value cur.kind == limine_value removed_entry
    then copied
    else elim (get_memory_type cur.kind) [
      | none ↦ none
      | some kind ↦ elim copied [
        | none ↦ none
        | some ms ↦ some (record { address = cur.base; extent = cur.extent; kind = kind } ∷ ms)
      ]
    ]

abbrev pub first_page : MemoryMapEntry
first_page = record { address = 0; extent = page_size; kind = memory_reserved }

-- `copyIntoMemoryMap`; there is an entry whenever it is called.
unfoldable pub copy_into_memory_map : List LimineEntry → Option (List MemoryMapEntry)
copy_into_memory_map [] = none
copy_into_memory_map (cur ∷ rest) =
    if is_usable cur.kind && (cur.base == 0)
    then elim (copy_entries
        (record cur { base = page_size; extent = sub64 cur.extent page_size } ∷ rest)) [
          | none ↦ none
          | some ms ↦ some (first_page ∷ ms)
        ]
    else copy_entries (cur ∷ rest)

-- `MMap_init`.
unfoldable pub mmap_init : MemoryMap → List LimineEntry → Option MemoryMap
mmap_init mmap limine = elim (parse_limine_memory_map mmap limine) [
  | none ↦ none
  | some parsed ↦
      if parsed.total_usable_memory == 0
      then none
      else (let (es, n) = process_limine_memory_map limine in
          if leb mmap_max_entries n then none else elim (copy_into_memory_map es) [
            | none ↦ none
            | some ms ↦ some (record parsed { size = n; entries = ms })
          ])
]

-- The loop of `getMagnitude`, on fuel.
unfoldable pub get_magnitude : ℕ → ℕ → ℕ → Option ℕ
get_magnitude zero byte_number i = none
get_magnitude (suc fuel) byte_number i = elim (leb 1024 byte_number) [
  | true ↦ get_magnitude fuel (byte_number / 1024) (i + 1)
  | false ↦ some i
]
