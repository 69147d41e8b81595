-- ===== src/MemoryMap/Copied.antt =====
-- The map that `copyIntoMemoryMap` writes from the entries that `processLimineMemoryMap` leaves.
use mug_os.Base.{
  ℕ, ◌+◌, ◌-◌, ◌≤◌, ◌<◌, ◌≡◌, ◌≢◌, ◌∙◌, refl, ap, sym, arith, true, false, ◌&&◌, none, some, List,
  [], ◌∷◌, ◌==◌, add64, sub64, u64_mod, length, Bool-cases, Option-cases, inl, inr, ◌⊎◌,
}
use mug_os.MemoryMap.{
  removed_entry, limine_value, LimineEntry, MemoryMapEntry, page_size, juxtaposed, process_entries,
  is_usable, get_memory_type, copy_entries, first_page, copy_into_memory_map,
}
use mug_os.MemoryMap.Merged.{
  in_region, limine_cover, cover, IsSupported, AllSupported, live, Copyable,
  process_entries-limine_cover, process_merges, process_keeps, same_kind, not_removed,
  removed_cover,
}

-- The number returned falls by one for each entry marked as removed.
pub process_entries-live :
    (cur : LimineEntry) (rest : List LimineEntry) (n : ℕ)
    → AllSupported rest
    → length rest ≤ n
    → (process_entries cur rest n).1 + live (cur ∷ rest) ≡ n + live (process_entries cur rest n).0
unfolding live process_entries
process_entries-live cur [] n ok enough = refl
process_entries-live cur (next ∷ rest) n (ok, oks) enough =
    elim (Bool-cases (juxtaposed cur next)) [
      | inl merge ↦
          let supported : limine_value next.kind ≢ 8 = not_removed next.kind ok.known in
          rw (process_merges cur next rest n merge) (
            ground (
              arith,
              process_entries-live (record next { kind = removed_entry }) rest (n - 1) oks
                  (omega arith),
            ))
      | inr apart ↦
          rw (process_keeps cur next rest n apart)
            (omega (arith, process_entries-live next rest n oks (omega arith)))
    ]

pub process_entries-Copyable :
    (cur : LimineEntry) (rest : List LimineEntry) (n : ℕ)
    → (limine_value cur.kind ≡ 8) ⊎ (get_memory_type cur.kind ≢ none)
    → AllSupported rest
    → Copyable (process_entries cur rest n).0
unfolding process_entries
process_entries-Copyable cur [] n here ok = (here, tt)
process_entries-Copyable cur (next ∷ rest) n here (ok, oks) =
    elim (Bool-cases (juxtaposed cur next)) [
      | inl merge ↦ rw (process_merges cur next rest n merge) (
        here,
        process_entries-Copyable (record next { kind = removed_entry }) rest (n - 1) (inl refl) oks,
      )
      | inr apart ↦
          rw (process_keeps cur next rest n apart)
            (here, process_entries-Copyable next rest n (inr ok.known) oks)
    ]

-- The first entry keeps its base and its type, and may grow.
pub process_entries-head :
    (cur : LimineEntry) (rest : List LimineEntry) (n : ℕ)
    → cur.base + cur.extent < u64_mod
    → AllSupported rest
    → (extent : ℕ) × (es : List LimineEntry) × ((cur.extent ≤ extent)
        × (extent < u64_mod)
        × ((process_entries cur rest n).0 ≡ record cur { extent = extent } ∷ es))
unfolding process_entries
process_entries-head cur [] n fits ok = (cur.extent, [], (omega arith, omega arith, refl))
process_entries-head cur (next ∷ rest) n fits (ok, oks) = elim (Bool-cases (juxtaposed cur next)) [
  | inl merge ↦ (
    add64 cur.extent next.extent,
    (process_entries (record next { kind = removed_entry }) rest (n - 1)).0,
    (ground (arith, ok.fits), omega arith, ap (λ p. p.0) (process_merges cur next rest n merge)),
  )
  | inr apart ↦ (
    cur.extent,
    (process_entries next rest n).0,
    (omega arith, omega arith, ap (λ p. p.0) (process_keeps cur next rest n apart)),
  )
]

-- The copy has one entry for each that is not marked as removed, and covers the same.
pub copy_entries_lem :
    (es : List LimineEntry) (t x : ℕ)
    → Copyable es
    → (ms : List MemoryMapEntry) × ((copy_entries es ≡ some ms)
        × (length ms ≡ live es)
        × (cover ms t x ≡ limine_cover es t x))
unfolding copy_entries live cover limine_cover
copy_entries_lem [] t x ok = ([], (refl, refl, refl))
copy_entries_lem (e ∷ es) t x (ok, oks) =
    let (ms, (runs, count, covers)) = copy_entries_lem es t x oks in
    elim (Bool-cases (limine_value e.kind == 8)) [
      | inl gone ↦
          let same : e.kind ≡ removed_entry = same_kind e.kind removed_entry (ground arith) in
          (
            ms,
            (
              rw gone runs,
              rw gone (omega (arith, count)),
              rw same (omega (arith, covers, removed_cover t (in_region x e.base e.extent))),
            ),
          )
      | inr kept ↦ elim (Option-cases (get_memory_type e.kind)) [
        | inl unknown ↦ absurd (ground arith)
        | inr (kind, known) ↦ (
          record { address = e.base; extent = e.extent; kind = kind } ∷ ms,
          (
            rw (kept, known, runs) refl,
            rw kept (omega (arith, count)),
            rw known (omega (arith, covers)),
          ),
        )
      ]
    ]

-- A live first entry, and entries that the boot loader could give, all supported and none removed.
pub live-AllSupported : (es : List LimineEntry) → AllSupported es → live es ≡ length es
unfolding live
live-AllSupported [] ok = refl
live-AllSupported (e ∷ es) (ok, oks) =
    let kept : limine_value e.kind ≢ 8 = not_removed e.kind ok.known in
    ground (arith, live-AllSupported es oks)

-- The first entry without its first page covers the same addresses above that page.
first_page_cover :
    (x extent : ℕ)
    → page_size ≤ x
    → page_size ≤ extent
    → extent < u64_mod
    → in_region x page_size (sub64 extent page_size) ≡ in_region x 0 extent
first_page_cover x extent above large fits = ground arith

unfoldable pub Copied : LimineEntry → List LimineEntry → ℕ → ℕ → ℕ → Type 0
unfolding copy_into_memory_map
Copied e es count t x =
    (ms : List MemoryMapEntry) × ((copy_into_memory_map (e ∷ es) ≡ some ms)
      × (length ms ≡ count)
      × (cover ms t x ≡ limine_cover (e ∷ es) t x))

pub copy_usable_first :
    (e : LimineEntry) (es : List LimineEntry) (t x : ℕ)
    → Copyable (e ∷ es)
    → (is_usable e.kind && (e.base == 0)) ≡ true
    → page_size ≤ e.extent
    → e.extent < u64_mod
    → page_size ≤ x
    → Copied e es (1 + live (e ∷ es)) t x
unfolding Copied copy_into_memory_map live cover limine_cover
copy_usable_first e es t x ok split large small above =
    let trimmed : LimineEntry = record e { base = page_size; extent = sub64 e.extent page_size } in
    let (ms, (runs, count, covers)) = copy_entries_lem (trimmed ∷ es) t x ok in
    let at_zero : e.base ≡ 0 = ground arith in
    (
      first_page ∷ ms,
      (
        rw (split, runs) refl,
        omega (arith, count),
        ground (arith, covers, at_zero, first_page_cover x e.extent above large small),
      ),
    )

pub copy_other_first :
    (e : LimineEntry) (es : List LimineEntry) (t x : ℕ)
    → Copyable (e ∷ es)
    → (is_usable e.kind && (e.base == 0)) ≡ false
    → Copied e es (live (e ∷ es)) t x
unfolding Copied copy_into_memory_map
copy_other_first e es t x ok whole =
    let (ms, (runs, count, covers)) = copy_entries_lem (e ∷ es) t x ok in
    (ms, (rw whole runs, count, covers))

-- A copy of the entries left is a copy of those given.
pub Copied-back :
    (cur e : LimineEntry) (rest es : List LimineEntry) (n t x : ℕ)
    → IsSupported cur
    → AllSupported rest
    → (process_entries cur rest n).0 ≡ e ∷ es
    → Copied e es (process_entries cur rest n).1 t x
    → (ms : List MemoryMapEntry) × ((copy_into_memory_map (process_entries cur rest n).0 ≡ some ms)
        × (length ms ≡ (process_entries cur rest n).1)
        × (cover ms t x ≡ limine_cover (cur ∷ rest) t x))
unfolding Copied
Copied-back cur e rest es n t x ok oks shape (ms, (runs, count, covers)) = (
  ms,
  (
    rw shape runs,
    count,
    covers
        ∙ ap (λ es. limine_cover es t x) (sym shape)
        ∙ process_entries-limine_cover cur rest n t x ok.fits oks,
  ),
)
