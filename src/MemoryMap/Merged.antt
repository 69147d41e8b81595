-- ===== src/MemoryMap/Merged.antt =====
-- What `processLimineMemoryMap` and `copyIntoMemoryMap` keep: the number of entries, and of which type
-- each address is.
use mug_os.Base.{
  ℕ, zero, suc, ◌+◌, ◌-◌, ◌<◌, ◌≡◌, ◌≢◌, ◌∙◌, refl, ap, sym, arith, Bool, true, false, ◌&&◌, Option,
  none, some, List, [], ◌∷◌, ltb, leb, ◌==◌, if◌then◌else◌, add64, u64_mod, Bool-cases, inl, inr,
  ◌⊎◌,
}
use mug_os.MemoryMap.{
  LimineType, usable, reserved, acpi_reclaimable, acpi_nvs, bad_memory, bootloader_reclaimable,
  kernel_and_modules, framebuffer, removed_entry, unsupported, limine_value, LimineEntry,
  MemoryType, memory_usable, memory_reserved, memory_kernel, memory_framebuffer, memory_acpi_nvs,
  memory_acpi_reclaimable, memory_bootloader_reclaimable, MemoryMapEntry, juxtaposed,
  process_entries, get_memory_type,
}

-- The number of a memory type in the enum.
abbrev pub memory_value : MemoryType → ℕ
memory_value memory_usable = 0
memory_value memory_reserved = 1
memory_value memory_kernel = 2
memory_value memory_framebuffer = 3
memory_value memory_acpi_nvs = 4
memory_value memory_acpi_reclaimable = 5
memory_value memory_bootloader_reclaimable = 6

-- Whether an address lies in a region.
abbrev pub in_region : ℕ → ℕ → ℕ → ℕ
in_region x base extent = if leb base x && ltb x (base + extent) then 1 else 0

-- In how many entries of type `t` the address `x` lies, before and after the copy.
abbrev pub has_type : Option MemoryType → ℕ → Bool
has_type none t = false
has_type (some kind) t = memory_value kind == t

unfoldable pub limine_cover : List LimineEntry → ℕ → ℕ → ℕ
limine_cover [] t x = 0
limine_cover (e ∷ es) t x =
    (if has_type (get_memory_type e.kind) t then in_region x e.base e.extent else 0)
    + limine_cover es t x

unfoldable pub cover : List MemoryMapEntry → ℕ → ℕ → ℕ
cover [] t x = 0
cover (e ∷ es) t x =
    (if memory_value e.kind == t then in_region x e.address e.extent else 0) + cover es t x

-- Entries as the boot loader gives them: of a type that has a memory type, so not marked as removed, and
-- ending below 2 ^ 64.
pub record IsSupported (e : LimineEntry) : Type 0 where
  pub known : get_memory_type e.kind ≢ none
  pub fits : e.base + e.extent < u64_mod

abbrev pub AllSupported : List LimineEntry → Type 0
AllSupported [] = Unit {0}
AllSupported (e ∷ es) = IsSupported e × AllSupported es

-- The entries not marked as removed, and that these have a memory type.
unfoldable pub live : List LimineEntry → ℕ
live [] = 0
live (e ∷ es) = (if limine_value e.kind == limine_value removed_entry then 0 else 1) + live es

abbrev pub Copyable : List LimineEntry → Type 0
Copyable [] = Unit {0}
Copyable (e ∷ es) = ((limine_value e.kind ≡ 8) ⊎ (get_memory_type e.kind ≢ none)) × Copyable es

kind_of : ℕ → LimineType
kind_of zero = usable
kind_of (suc zero) = reserved
kind_of (suc (suc zero)) = acpi_reclaimable
kind_of (suc (suc (suc zero))) = acpi_nvs
kind_of (suc (suc (suc (suc zero)))) = bad_memory
kind_of (suc (suc (suc (suc (suc zero))))) = bootloader_reclaimable
kind_of (suc (suc (suc (suc (suc (suc zero)))))) = kernel_and_modules
kind_of (suc (suc (suc (suc (suc (suc (suc zero))))))) = framebuffer
kind_of (suc (suc (suc (suc (suc (suc (suc (suc zero)))))))) = removed_entry
kind_of (suc (suc (suc (suc (suc (suc (suc (suc (suc n))))))))) = unsupported n

kind_of-limine_value : (k : LimineType) → kind_of (limine_value k) ≡ k
unfolding kind_of
kind_of-limine_value usable = refl
kind_of-limine_value reserved = refl
kind_of-limine_value acpi_reclaimable = refl
kind_of-limine_value acpi_nvs = refl
kind_of-limine_value bad_memory = refl
kind_of-limine_value bootloader_reclaimable = refl
kind_of-limine_value kernel_and_modules = refl
kind_of-limine_value framebuffer = refl
kind_of-limine_value removed_entry = refl
kind_of-limine_value (unsupported n) = rw (nine n) refl
  where
    nine : (n : ℕ) → 9 + n ≡ suc (suc (suc (suc (suc (suc (suc (suc (suc n))))))))
    nine n = omega arith

pub same_kind : (a b : LimineType) → limine_value a ≡ limine_value b → a ≡ b
same_kind a b e = sym (kind_of-limine_value a) ∙ ap kind_of e ∙ kind_of-limine_value b

pub not_removed : (k : LimineType) → get_memory_type k ≢ none → limine_value k ≢ 8
unfolding get_memory_type
not_removed removed_entry known e = known refl
not_removed usable known e = absurd (omega arith)
not_removed reserved known e = absurd (omega arith)
not_removed acpi_reclaimable known e = absurd (omega arith)
not_removed acpi_nvs known e = absurd (omega arith)
not_removed bad_memory known e = absurd (omega arith)
not_removed bootloader_reclaimable known e = absurd (omega arith)
not_removed kernel_and_modules known e = absurd (omega arith)
not_removed framebuffer known e = absurd (omega arith)
not_removed (unsupported n) known e = absurd (omega arith)

-- Two juxtaposed entries cover what the merged one covers.
merged_cover :
    (b : Bool) (x base extent next_base next_extent : ℕ)
    → base + extent < u64_mod
    → next_base + next_extent < u64_mod
    → add64 base extent ≡ next_base
    → (if b then in_region x base (add64 extent next_extent) else 0)
      ≡ (if b then in_region x base extent else 0)
        + (if b then in_region x next_base next_extent else 0)
merged_cover b x base extent next_base next_extent fits next_fits e = ground arith

pub removed_cover :
    (t : ℕ) (n : ℕ) → (if has_type (get_memory_type removed_entry) t then n else 0) ≡ 0
unfolding get_memory_type
removed_cover t n = refl

-- One round of the loop.
pub process_merges :
    (cur next : LimineEntry) (rest : List LimineEntry) (n : ℕ)
    → juxtaposed cur next ≡ true
    → process_entries cur (next ∷ rest) n ≡ (
      record cur { extent = add64 cur.extent next.extent }
          ∷ (process_entries (record next { kind = removed_entry }) rest (n - 1)).0,
      (process_entries (record next { kind = removed_entry }) rest (n - 1)).1,
    )
unfolding process_entries
process_merges cur next rest n h = rw (h, process_entries) refl

pub process_keeps :
    (cur next : LimineEntry) (rest : List LimineEntry) (n : ℕ)
    → juxtaposed cur next ≡ false
    → process_entries cur (next ∷ rest) n
      ≡ (cur ∷ (process_entries next rest n).0, (process_entries next rest n).1)
unfolding process_entries
process_keeps cur next rest n h = rw (h, process_entries) refl

pub process_entries-limine_cover :
    (cur : LimineEntry) (rest : List LimineEntry) (n t x : ℕ)
    → cur.base + cur.extent < u64_mod
    → AllSupported rest
    → limine_cover (process_entries cur rest n).0 t x ≡ limine_cover (cur ∷ rest) t x
unfolding process_entries limine_cover
process_entries-limine_cover cur [] n t x fits ok = refl
process_entries-limine_cover cur (next ∷ rest) n t x fits (ok, oks) =
    elim (Bool-cases (juxtaposed cur next)) [
      | inl merge ↦
          let same : cur.kind ≡ next.kind = same_kind cur.kind next.kind (ground arith) in
          rw (process_merges cur next rest n merge) (
            omega (
              arith,
              process_entries-limine_cover (record next { kind = removed_entry }) rest (n - 1) t x
                  ok.fits oks,
              removed_cover t (in_region x next.base next.extent),
              merged_cover (has_type (get_memory_type cur.kind) t) x cur.base cur.extent next.base
                  next.extent fits ok.fits (ground arith),
              ap
                  (λ k.
                    if has_type (get_memory_type k) t then in_region x next.base next.extent else 0)
                  same,
            ))
      | inr apart ↦
          rw (process_keeps cur next rest n apart)
            (omega (arith, process_entries-limine_cover next rest n t x ok.fits oks))
    ]
