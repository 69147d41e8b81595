-- ===== src/MemoryMap/Init.antt =====
-- `MMap_init`: the map of memory that it returns, from limine's.
use mug_os.Base.{
  ℕ, ◌+◌, ◌≤◌, ◌<◌, ◌≡◌, ◌≢◌, refl, ap, sym, arith, Bool, true, false, ◌&&◌, none, some, List, [],
  ◌∷◌, ltb, leb, ◌==◌, if◌then◌else◌, u64_mod, length, Bool-cases, inl, inr,
}
use mug_os.MemoryMap.{
  LimineType, removed_entry, LimineEntry, MemoryMapEntry, page_size, process_entries, is_usable,
  process_limine_memory_map, get_memory_type, copy_into_memory_map,
}
use mug_os.MemoryMap.Merged.{limine_cover, cover, IsSupported, AllSupported, live, Copyable}
use mug_os.MemoryMap.Copied.{
  process_entries-live, process_entries-Copyable, process_entries-head, live-AllSupported,
  copy_usable_first, copy_other_first, Copied-back, Copied,
}
use mug_os.MemoryMap.{
  MemoryMap, mmap_init, parse_limine_memory_map, parse_entries, parse_entry, mmap_max_entries,
  usable, reserved, acpi_reclaimable, acpi_nvs, bad_memory, bootloader_reclaimable,
  kernel_and_modules, framebuffer, unsupported,
}

-- Where the first entry is split, the number starts one higher.
process_split :
    (cur : LimineEntry) (rest : List LimineEntry)
    → (is_usable cur.kind && (cur.base == 0)) ≡ true
    → page_size < cur.extent
    → process_limine_memory_map (cur ∷ rest) ≡ process_entries cur rest (length (cur ∷ rest) + 1)
unfolding process_limine_memory_map
process_split cur rest split large =
    let usable_first : is_usable cur.kind ≡ true = ground arith in
    let at_zero : (cur.base == 0) ≡ true = ground arith in
    let long : ltb page_size cur.extent ≡ true = ground arith in
    rw (usable_first, at_zero, long) refl

process_whole :
    (cur : LimineEntry) (rest : List LimineEntry)
    → (is_usable cur.kind && (cur.base == 0)) ≡ false
    → process_limine_memory_map (cur ∷ rest) ≡ process_entries cur rest (length (cur ∷ rest))
unfolding process_limine_memory_map
process_whole cur rest whole =
    let no_more : (is_usable cur.kind && (cur.base == 0) && ltb page_size cur.extent) ≡ false =
      ground arith in
    rw no_more refl

module _ (cur : LimineEntry) (rest : List LimineEntry) (t x : ℕ) (ok : IsSupported cur)
    (oks : AllSupported rest) (above : page_size ≤ x) where
  Result : List LimineEntry × ℕ → Type 0
  Result p =
      (ms : List MemoryMapEntry) × ((copy_into_memory_map p.0 ≡ some ms)
        × (length ms ≡ p.1)
        × (cover ms t x ≡ limine_cover (cur ∷ rest) t x))

  from_count :
      (n count : ℕ)
      → length rest ≤ n
      → n ≡ length (cur ∷ rest) + count
      → ((e : LimineEntry) (es : List LimineEntry)
          → Copyable (e ∷ es)
          → e.base ≡ cur.base
          → e.kind ≡ cur.kind
          → cur.extent ≤ e.extent
          → e.extent < u64_mod
          → Copied e es (count + live (e ∷ es)) t x)
      → Result (process_entries cur rest n)
  unfolding Result Copied
  from_count n count enough total copy =
      let (extent, es, (grown, small, shape)) = process_entries-head cur rest n ok.fits oks in
      let e : LimineEntry = record cur { extent = extent } in
      let copyable : Copyable (e ∷ es) =
        rw shape at (process_entries-Copyable cur rest n (inr ok.known) oks) in
      let marked = process_entries-live cur rest n oks enough in
      let all_live = live-AllSupported (cur ∷ rest) (ok, oks) in
      let left : (process_entries cur rest n).1 ≡ count + live (e ∷ es) =
        omega (arith, marked, all_live, ap live shape) in
      Copied-back cur e rest es n t x ok oks shape
        (rw left (copy e es copyable refl refl grown small))

-- Let limine's entries all be of a type that has a memory type, end below 2 ^ 64, and be in an array of
-- at least one; if the first is usable memory at address 0, let it be longer than a page. Then
-- `processLimineMemoryMap` and `copyIntoMemoryMap` succeed, the number that the first returns is the number
-- of entries that the second writes, and each address from the second page on lies in as many
-- written entries of each memory type as it lay in limine's entries of that type.
pub copy_into_memory_map-process :
    (cur : LimineEntry) (rest : List LimineEntry) (t x : ℕ)
    → AllSupported (cur ∷ rest)
    → (is_usable cur.kind ≡ true → cur.base ≡ 0 → page_size < cur.extent)
    → page_size ≤ x
    → (ms : List MemoryMapEntry) × ((copy_into_memory_map (process_limine_memory_map (cur ∷ rest)).0
          ≡ some ms)
        × (length ms ≡ (process_limine_memory_map (cur ∷ rest)).1)
        × (cover ms t x ≡ limine_cover (cur ∷ rest) t x))
unfolding Result
copy_into_memory_map-process cur rest t x (ok, oks) large above =
    elim (Bool-cases (is_usable cur.kind && (cur.base == 0))) [
      | inl split ↦
          let long : page_size < cur.extent = ground (arith, large) in
          rw (process_split cur rest split long) (
            from_count cur rest t x ok oks above (length (cur ∷ rest) + 1) 1 (omega arith) refl
              (λ e es copyable base kind grown small.
                copy_usable_first e es t x copyable (rw (base, kind) split) (omega arith) small
                  above))
      | inr whole ↦ rw (process_whole cur rest whole) (
          from_count cur rest t x ok oks above (length (cur ∷ rest)) 0 (omega arith) (omega arith)
            (λ e es copyable base kind grown small.
              rw (no_more e es) (copy_other_first e es t x copyable (rw (base, kind) whole))))
    ]
  where
    no_more : (e : LimineEntry) (es : List LimineEntry) → 0 + live (e ∷ es) ≡ live (e ∷ es)
    no_more e es = omega arith

either_some :
    (b : Bool) (x y : MemoryMap × Bool)
    → (r : MemoryMap × Bool) × ((if b then some x else some y) ≡ some r)
either_some true x y = (x, refl)
either_some false x y = (y, refl)

parses_one :
    (mmap : MemoryMap) (first : Bool) (base extent : ℕ) (kind : LimineType) (es : List LimineEntry)
    → get_memory_type kind ≢ none
    → (r : MemoryMap × Bool) × (parse_entry mmap first
          (record { base = base; extent = extent; kind = kind })
          es
        ≡ some r)
unfolding parse_entry get_memory_type
parses_one mmap first base extent usable es known = either_some (base == 0) _ _
parses_one mmap first base extent acpi_reclaimable es known = (_, refl)
parses_one mmap first base extent bootloader_reclaimable es known = (_, refl)
parses_one mmap first base extent kernel_and_modules es known = (_, refl)
parses_one mmap first base extent reserved es known = (_, refl)
parses_one mmap first base extent acpi_nvs es known = (_, refl)
parses_one mmap first base extent bad_memory es known = (_, refl)
parses_one mmap first base extent framebuffer es known = (_, refl)
parses_one mmap first base extent removed_entry es known = absurd (known refl)
parses_one mmap first base extent (unsupported n) es known = absurd (known refl)

parses :
    (mmap : MemoryMap) (first : Bool) (es : List LimineEntry)
    → AllSupported es
    → (parsed : MemoryMap) × (parse_entries mmap first es ≡ some parsed)
unfolding parse_entries
parses mmap first [] ok = (mmap, refl)
parses mmap first (e ∷ es) (ok, oks) =
    let ((mmap', first'), runs) = parses_one mmap first e.base e.extent e.kind es ok.known in
    let (parsed, rest) = parses mmap' first' es oks in (parsed, rw (parse_entries, runs) rest)

-- `parseLimineMemoryMap` does not panic on entries that are all of types that have a memory type.
pub parse_limine_memory_map_lem :
    (mmap : MemoryMap) (es : List LimineEntry)
    → AllSupported es
    → (parsed : MemoryMap) × (parse_limine_memory_map mmap es ≡ some parsed)
unfolding parse_limine_memory_map
parse_limine_memory_map_lem mmap es ok = parses _ true es ok

-- Where `MMap_init` is given entries that are all of a type that has a memory type and end below 2 ^ 64,
-- of which the first is longer than a page if it is usable memory at address 0, some usable memory is
-- found, and the entries left after the merges are fewer than MMAP_MAX_ENTRIES, it returns a map
-- whose size is its number of entries. Each address from the second page on lies in as many of
-- these of each memory type as it lay in limine's entries of that type.
pub mmap_init_lem :
    (mmap parsed : MemoryMap) (cur : LimineEntry) (rest : List LimineEntry) (t x : ℕ)
    → AllSupported (cur ∷ rest)
    → (is_usable cur.kind ≡ true → cur.base ≡ 0 → page_size < cur.extent)
    → page_size ≤ x
    → parse_limine_memory_map mmap (cur ∷ rest) ≡ some parsed
    → parsed.total_usable_memory ≢ 0
    → (process_limine_memory_map (cur ∷ rest)).1 < mmap_max_entries
    → (mmap' : MemoryMap) × ((mmap_init mmap (cur ∷ rest) ≡ some mmap')
        × (mmap'.size ≡ length mmap'.entries)
        × (cover mmap'.entries t x ≡ limine_cover (cur ∷ rest) t x))
unfolding mmap_init
mmap_init_lem mmap parsed cur rest t x ok large above parse some_memory few =
    let (ms, (runs, count, covers)) = copy_into_memory_map-process cur rest t x ok large above in
    let memory : (parsed.total_usable_memory == 0) ≡ false = ground arith in
    let room : leb mmap_max_entries (process_limine_memory_map (cur ∷ rest)).1 ≡ false =
      ground arith in
    (
      record parsed { size = (process_limine_memory_map (cur ∷ rest)).1; entries = ms },
      (rw (mmap_init, parse, memory, room, runs) refl, sym count, covers),
    )

-- Where the first entry is usable memory at address 0 of exactly one page, and all entries are of types
-- that have a memory type and end below 2 ^ 64, `copyIntoMemoryMap` writes one entry more than the
-- number that `processLimineMemoryMap` returns.
pub copy_into_memory_map-one_page :
    (cur : LimineEntry) (rest : List LimineEntry)
    → AllSupported (cur ∷ rest)
    → is_usable cur.kind ≡ true
    → cur.base ≡ 0
    → cur.extent ≡ page_size
    → (ms : List MemoryMapEntry) × ((copy_into_memory_map (process_limine_memory_map (cur ∷ rest)).0
          ≡ some ms)
        × (length ms ≡ (process_limine_memory_map (cur ∷ rest)).1 + 1))
unfolding process_limine_memory_map Copied
copy_into_memory_map-one_page cur rest (ok, oks) usable_first at_zero one_page =
    let n = length (cur ∷ rest) in
    let counted : (is_usable cur.kind && (cur.base == 0) && ltb page_size cur.extent) ≡ false =
      ground arith in
    let (extent, es, (grown, small, shape)) = process_entries-head cur rest n ok.fits oks in
    let e : LimineEntry = record cur { extent = extent } in
    let copyable : Copyable (e ∷ es) =
      rw shape at (process_entries-Copyable cur rest n (inr ok.known) oks) in
    let (ms, (runs, count, covers)) =
      copy_usable_first e es 0 page_size copyable (ground arith) (omega arith) small
        (omega arith) in
    let marked = process_entries-live cur rest n oks (omega arith) in
    let all_live = live-AllSupported (cur ∷ rest) (ok, oks) in
    rw counted (ms, (rw shape runs, omega (arith, count, marked, all_live, ap live shape)))
