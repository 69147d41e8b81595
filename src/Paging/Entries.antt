-- ===== src/Paging/Entries.antt =====
-- Which physical address each virtual one has after the entries of one table are written.
use native.Mathlib.Nat.{zero-mul}
use mug_os.Base.{
  ℕ, zero, suc, ◌+◌, ◌-◌, ◌*◌, ◌/◌, ◌%◌, ◌^◌, ◌≤◌, ◌<◌, ◌≡◌, refl, ap, sym, ◌∙◌, arith, add64, Bool,
  true, ◌&&◌, List, [], ◌∷◌, ◌++◌, leb, ltb, if◌then◌else◌,
}
use mug_os.Paging.{
  get_index_pml4, get_index_page_directory_pointer_table, get_index_page_directory,
  get_index_page_table, get_4kb_entry_address, get_2mb_entry_address, get_1gb_entry_address, Entry,
  set_4kb_page, set_2mb_page, set_1gb_page, Slot, slot_1gb, slot_2mb, slot_4kb, Effect, get_pdp,
  get_pd, get_pt, page, PageSize, size_1gb, size_2mb, size_4kb, bytes, map_entries, map_round,
}

-- The first virtual address of an entry, and how many bytes it stands for, as the processor has it.
unfoldable pub start_of : Slot → ℕ
start_of (slot_1gb pml4 pdp) = pml4 * 2 ^ 39 + pdp * 2 ^ 30
start_of (slot_2mb pml4 pdp pd) = pml4 * 2 ^ 39 + pdp * 2 ^ 30 + pd * 2 ^ 21
start_of (slot_4kb pml4 pdp pd pt) = pml4 * 2 ^ 39 + pdp * 2 ^ 30 + pd * 2 ^ 21 + pt * 2 ^ 12

unfoldable pub span : Slot → ℕ
span (slot_1gb pml4 pdp) = 2 ^ 30
span (slot_2mb pml4 pdp pd) = 2 ^ 21
span (slot_4kb pml4 pdp pd pt) = 2 ^ 12

-- The entry is one of the 512 of its table.
unfoldable pub is_in_table : Slot → Bool
is_in_table (slot_1gb pml4 pdp) = ltb pdp 512
is_in_table (slot_2mb pml4 pdp pd) = ltb pd 512
is_in_table (slot_4kb pml4 pdp pd pt) = ltb pt 512

-- All entries that were written are in their tables.
unfoldable pub all_in_tables : List Effect → Bool
all_in_tables [] = true
all_in_tables (get_pdp pml4 ∷ effects) = all_in_tables effects
all_in_tables (get_pd pml4 pdp ∷ effects) = all_in_tables effects
all_in_tables (get_pt pml4 pdp pd ∷ effects) = all_in_tables effects
all_in_tables (page slot entry ∷ effects) = is_in_table slot && all_in_tables effects

-- The physical addresses of a virtual one, one by each entry written that stands for it.
unfoldable pub translate : List Effect → ℕ → List ℕ
translate [] v = []
translate (get_pdp pml4 ∷ effects) v = translate effects v
translate (get_pd pml4 pdp ∷ effects) v = translate effects v
translate (get_pt pml4 pdp pd ∷ effects) v = translate effects v
translate (page slot entry ∷ effects) v =
    let rest = translate effects v in
    if leb (start_of slot) v && ltb v (start_of slot + span slot)
    then (entry.address * span slot + (v - start_of slot)) ∷ rest
    else rest

-- In a range of addresses that is mapped to another, one physical address more than the others.
abbrev pub range : ℕ → ℕ → ℕ → ℕ → List ℕ → List ℕ
range virt size phys v others =
    if leb virt v && ltb v (virt + size) then (phys + (v - virt)) ∷ others else others

pub range-nothing : (virt phys v : ℕ) (others : List ℕ) → range virt 0 phys v others ≡ others
range-nothing virt phys v others = ground arith

mul-split : (q c size : ℕ) → 0 < size → (q + suc c) * size ≡ q * size + size + c * size
mul-split q c size pos = grind arith

mul-split2 : (q c size : ℕ) → (suc q + c) * size ≡ q * size + size + c * size
mul-split2 q c size = grind arith

mul-next : (q size : ℕ) → suc q * size ≡ q * size + size
mul-next q size = grind arith

pub range-join :
    (virt a b phys v : ℕ) (others : List ℕ)
    → range virt a phys v (range (virt + a) b (phys + a) v others)
      ≡ range virt (a + b) phys v others
range-join virt a b phys v others = ground arith

module _ (slot_at : ℕ → Slot) (set : ℕ → Entry) (size : ℕ) (pos : 0 < size)
    (spans : (k : ℕ) → span (slot_at k) ≡ size)
    (in_table : (k : ℕ) → k < 512 → is_in_table (slot_at k) ≡ true)
    (next : (k : ℕ) → start_of (slot_at (suc k)) ≡ start_of (slot_at k) + size)
    (sets : (q : ℕ) → q * size < 2 ^ 48 → (set (q * size)).address ≡ q) where
  map_entries-range :
      (count index q v : ℕ) (effects : List Effect)
      → (q + count) * size ≤ 2 ^ 48
      → index + count ≤ 512
      → translate (map_entries slot_at set size index count (q * size) ++ effects) v
        ≡ range (start_of (slot_at index)) (count * size) (q * size) v (translate effects v)
  unfolding map_entries translate
  map_entries-range zero index q v effects fits room = sym (
      ap (λ n. range (start_of (slot_at index)) n (q * size) v (translate effects v))
        (zero-mul size)
      ∙ range-nothing (start_of (slot_at index)) (q * size) v (translate effects v))
  map_entries-range (suc count) index q v effects fits room =
      let split = mul-split q count size pos in
      let start = start_of (slot_at index) in
      let here = sets q (omega (arith, split)) in
      let moved : add64 (q * size) size ≡ suc q * size = omega (arith, mul-next q size, split) in
      let all = mul-next q size in
      let rest =
        map_entries-range count (suc index) (suc q) v effects
          (omega (arith, split, mul-split2 q count size)) (omega arith) in
      rw (here, spans index, moved, rest, next index, mul-next q size, mul-next count size)
        (range-join start size (count * size) (q * size) v (translate effects v)
          ∙ ap (λ n. range start n (q * size) v (translate effects v)) (omega arith))

  map_entries-in_tables :
      (count index phys : ℕ) (effects : List Effect)
      → index + count ≤ 512
      → all_in_tables effects ≡ true
      → all_in_tables (map_entries slot_at set size index count phys ++ effects) ≡ true
  unfolding map_entries all_in_tables
  map_entries-in_tables zero index phys effects room ok = ok
  map_entries-in_tables (suc count) index phys effects room ok =
      rw (in_table index (omega arith))
        (map_entries-in_tables count (suc index) (add64 phys size) effects (omega arith) ok)

  -- From an address and a physical address that the entry and the size give.
  map_entries-at :
      (count index virt phys v : ℕ) (effects : List Effect)
      → start_of (slot_at index) ≡ virt
      → phys / size * size ≡ phys
      → phys + count * size ≤ 2 ^ 48
      → index + count ≤ 512
      → translate (map_entries slot_at set size index count phys ++ effects) v
        ≡ range virt (count * size) phys v (translate effects v)
  map_entries-at count index virt phys v effects start whole fits room =
      let q = phys / size in
      let bound : (phys / size + count) * size ≤ 2 ^ 48 = grind arith in
      ap (λ p. translate (map_entries slot_at set size index count p ++ effects) v) (sym whole)
      ∙ map_entries-range count index q v effects bound room
      ∙ ap (λ a. range a (count * size) (q * size) v (translate effects v)) start
      ∙ ap (λ p. range virt (count * size) p v (translate effects v)) whole

-- What a round does for its page size.
abbrev pub Mapped : PageSize → ℕ → ℕ → ℕ → ℕ → Type 0
Mapped size flags phys virt count =
    ((v : ℕ) (effects : List Effect)
      → translate (map_round size flags phys virt count ++ effects) v
        ≡ range virt (count * bytes size) phys v (translate effects v))
    × ((effects : List Effect)
        → all_in_tables effects ≡ true
        → all_in_tables (map_round size flags phys virt count ++ effects) ≡ true)

module _ (flags phys virt count : ℕ) (virt_fits : virt < 2 ^ 48) where
  pub Mapped-4kb :
      virt % 2 ^ 12 ≡ 0
      → phys % 2 ^ 12 ≡ 0
      → phys + count * 2 ^ 12 ≤ 2 ^ 48
      → get_index_page_table virt + count ≤ 512
      → Mapped size_4kb flags phys virt count
  unfolding bytes map_round translate all_in_tables get_index_pml4
      get_index_page_directory_pointer_table get_index_page_directory get_index_page_table start_of
      span is_in_table set_4kb_page get_4kb_entry_address
  Mapped-4kb va pa fits room = (
    (λ v effects.
        map_entries-at
          (λ i.
            slot_4kb (get_index_pml4 virt) (get_index_page_directory_pointer_table virt)
              (get_index_page_directory virt) i)
          (set_4kb_page flags) (2 ^ 12) (omega arith) (λ k. refl) (λ k h. ground arith)
          (λ k. omega arith) (λ q lt. omega arith) count (get_index_page_table virt) virt phys v
          effects (omega arith) (omega arith) fits room),
    λ effects ok.
        map_entries-in_tables
          (λ i.
            slot_4kb (get_index_pml4 virt) (get_index_page_directory_pointer_table virt)
              (get_index_page_directory virt) i)
          (set_4kb_page flags) (2 ^ 12) (omega arith) (λ k. refl) (λ k h. ground arith)
          (λ k. omega arith) (λ q lt. omega arith) count (get_index_page_table virt) phys effects
          room ok,
  )

  pub Mapped-2mb :
      virt % 2 ^ 21 ≡ 0
      → phys % 2 ^ 21 ≡ 0
      → phys + count * 2 ^ 21 ≤ 2 ^ 48
      → get_index_page_directory virt + count ≤ 512
      → Mapped size_2mb flags phys virt count
  unfolding bytes map_round translate all_in_tables get_index_pml4
      get_index_page_directory_pointer_table get_index_page_directory start_of span is_in_table
      set_2mb_page get_2mb_entry_address
  Mapped-2mb va pa fits room = (
    (λ v effects.
        map_entries-at
          (λ i. slot_2mb (get_index_pml4 virt) (get_index_page_directory_pointer_table virt) i)
          (set_2mb_page flags) (2 ^ 21) (omega arith) (λ k. refl) (λ k h. ground arith)
          (λ k. omega arith) (λ q lt. omega arith) count (get_index_page_directory virt) virt phys v
          effects (omega arith) (omega arith) fits room),
    λ effects ok.
        map_entries-in_tables
          (λ i. slot_2mb (get_index_pml4 virt) (get_index_page_directory_pointer_table virt) i)
          (set_2mb_page flags) (2 ^ 21) (omega arith) (λ k. refl) (λ k h. ground arith)
          (λ k. omega arith) (λ q lt. omega arith) count (get_index_page_directory virt) phys
          effects room ok,
  )

  pub Mapped-1gb :
      virt % 2 ^ 30 ≡ 0
      → phys % 2 ^ 30 ≡ 0
      → phys + count * 2 ^ 30 ≤ 2 ^ 48
      → get_index_page_directory_pointer_table virt + count ≤ 512
      → Mapped size_1gb flags phys virt count
  unfolding bytes map_round translate all_in_tables get_index_pml4
      get_index_page_directory_pointer_table start_of span is_in_table set_1gb_page
      get_1gb_entry_address
  Mapped-1gb va pa fits room = (
    (λ v effects.
        map_entries-at (λ i. slot_1gb (get_index_pml4 virt) i) (set_1gb_page flags) (2 ^ 30)
          (omega arith) (λ k. refl) (λ k h. ground arith) (λ k. omega arith) (λ q lt. omega arith)
          count (get_index_page_directory_pointer_table virt) virt phys v effects (omega arith)
          (omega arith) fits room),
    λ effects ok.
        map_entries-in_tables (λ i. slot_1gb (get_index_pml4 virt) i) (set_1gb_page flags) (2 ^ 30)
          (omega arith) (λ k. refl) (λ k h. ground arith) (λ k. omega arith) (λ q lt. omega arith)
          count (get_index_page_directory_pointer_table virt) phys effects room ok,
  )
