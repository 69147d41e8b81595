-- ===== src/Hashmap/Deletion.antt =====
-- `Hashmap_delete`: of the last entry of a run of entries in use, and of one with two entries below
-- it that share its home.
use mug_os.Base.{
  ℕ, zero, suc, ◌+◌, ◌-◌, ◌^◌, ◌≤◌, ◌<◌, ◌≡◌, ◌≢◌, ◌∙◌, refl, ap, sym, arith, ◌==◌, if◌then◌else◌,
  List, false, length, set, get_or-set, length-set,
}
use mug_os.Hashmap.{
  Entry, Hashmap, null_entry, entry_at, key_at, home, previous, find_loop, find, get_page, delete,
  delete_loop, stays, ends, at, absent,
}
use mug_os.Hashmap.Walk.{previous_lem}
use mug_os.Hashmap.Invariant.{IsValid, find_loop-present}
use mug_os.Hashmap.Lookup.{find_lem}
use native.Mathlib.Nat.{pow-le-pow_right}

-- The map that `Hashmap_delete` leaves when its loop leaves the entries `es`.
abbrev with_entries : Hashmap → List Entry → Hashmap
with_entries map es = record map { entries = es; free_entries = map.free_entries + 1 }

delete_runs :
    (map : Hashmap) (i : ℕ) (es : List Entry)
    → map.total_entries ≢ 0
    → delete_loop (map.total_entries + 1) map.total_entries (set map.entries i null_entry) i i
      ≡ ends es
    → delete map i ≡ ends (with_entries map es)
unfolding delete
delete_runs map i es some runs =
    let not_empty : (map.total_entries == 0) ≡ false = ground arith in rw (not_empty, runs) refl

-- The entries after the entry below the deleted one is moved up.
abbrev moved : ℕ → List Entry → ℕ → List Entry
moved total es i =
    set (set (set es i null_entry) i (entry_at (set es i null_entry) (previous total i)))
      (previous total i) null_entry

module _ (k : ℕ) (small : k < 64) (large : 2 ≤ k) (es : List Entry) (storage : length es ≡ 2 ^ k)
    (i : ℕ) (inside : i < 2 ^ k) where
  four : 4 ≤ 2 ^ k
  four = pow-le-pow_right {n = 2} (omega arith) large

  key_at-cleared : (j : ℕ) → j ≢ i → entry_at (set es i null_entry) j ≡ entry_at es j
  key_at-cleared j ne =
      get_or-set es i j null_entry null_entry (omega (arith, storage)) ∙ ground arith

  key_at-moved :
      (j : ℕ)
      → key_at (moved (2 ^ k) es i) j ≡ (
          if previous (2 ^ k) i == j
          then 0
          else if i == j
          then key_at es (previous (2 ^ k) i)
          else key_at es j)
  key_at-moved j = ground (
    arith,
    get_or-set (set (set es i null_entry) i (entry_at (set es i null_entry) (previous (2 ^ k) i)))
        (previous (2 ^ k) i) j null_entry null_entry,
    get_or-set (set es i null_entry) i j (entry_at (set es i null_entry) (previous (2 ^ k) i))
        null_entry,
    get_or-set es i j null_entry null_entry,
    get_or-set es i (previous (2 ^ k) i) null_entry null_entry,
    length-set es i null_entry,
    length-set (set es i null_entry) i (entry_at (set es i null_entry) (previous (2 ^ k) i)),
    storage,
    four,
    previous_lem k small i inside,
  )

  module _ (home_here : home (2 ^ k) (key_at es (previous (2 ^ k) i)) ≡ i)
      (used : key_at es (previous (2 ^ k) i) ≢ 0) where
    stays_not :
        (total : ℕ)
        → total ≡ 2 ^ k
        → stays (previous total i) (home total (key_at (set es i null_entry) (previous total i))) i
          ≡ false
    stays_not total e =
        let same : key_at (set es i null_entry) (previous (2 ^ k) i)
            ≡ key_at es (previous (2 ^ k) i) =
          ap (λ x. x.key)
            (key_at-cleared (previous (2 ^ k) i)
              (ground (arith, four, previous_lem k small i inside))) in
        rw (e, same, home_here) (ground arith)

    -- The loop ends after it has moved the entry.
    delete_loop-moves :
        (fuel total : ℕ)
        → total ≡ 2 ^ k
        → 0 < fuel
        → delete_loop fuel total (set es i null_entry) i i ≡ ends (moved total es i)
    unfolding delete_loop
    delete_loop-moves zero total e h = absurd (omega arith)
    delete_loop-moves (suc fuel) total e h =
        let free : key_at (moved total es i) (previous total i) ≡ 0 =
          rw e (key_at-moved (previous (2 ^ k) i) ∙ ground arith) in
        rw (stays_not total e, delete_loop, free, stays_not total e) refl

  length-moved : length (moved (2 ^ k) es i) ≡ 2 ^ k
  length-moved =
      length-set (set (set es i null_entry) i (entry_at (set es i null_entry) (previous (2 ^ k) i)))
        (previous (2 ^ k) i) null_entry
      ∙ length-set (set es i null_entry) i (entry_at (set es i null_entry) (previous (2 ^ k) i))
      ∙ length-set es i null_entry
      ∙ storage

find_two :
    (k : ℕ) (es : List Entry) (p : ℕ)
    → 2 ≤ k
    → key_at es (home (2 ^ k) p) ≢ 0
    → key_at es (home (2 ^ k) p) ≢ p
    → key_at es (previous (2 ^ k) (home (2 ^ k) p)) ≡ 0
    → find_loop (2 ^ k) (2 ^ k) es p (home (2 ^ k) p) ≡ ends absent
unfolding find_loop
find_two k es p large used other free = go (2 ^ k) (pow-le-pow_right {n = 2} (omega arith) large)
  where
    go : (fuel : ℕ) → 4 ≤ fuel → find_loop fuel (2 ^ k) es p (home (2 ^ k) p) ≡ ends absent
    go (suc (suc fuel)) h =
        let not_free : (key_at es (home (2 ^ k) p) == 0) ≡ false = ground arith in
        let not_p : (key_at es (home (2 ^ k) p) == p) ≡ false = ground arith in
        rw (not_free, not_p, find_loop, free) refl
    go (suc zero) h = absurd (omega arith)
    go zero h = absurd (omega arith)

-- Let three entries in use be in consecutive slots of a valid table of at least four, with the
-- first slot the home of the second and of the third page. `Hashmap_find` returns the entry of the
-- third page. After `Hashmap_delete` of the first entry, that entry is still in the table, and
-- `Hashmap_find` of its page returns NULL.
pub delete-loses :
    (k : ℕ) (map : Hashmap) (i ptr : ℕ)
    → IsValid k map
    → 2 ≤ k
    → i < 2 ^ k
    → key_at map.entries (previous (2 ^ k) i) ≢ 0
    → home (2 ^ k) (key_at map.entries (previous (2 ^ k) i)) ≡ i
    → key_at map.entries (previous (2 ^ k) (previous (2 ^ k) i)) ≡ get_page ptr
    → get_page ptr ≢ 0
    → home (2 ^ k) (get_page ptr) ≡ i
    → (find map ptr ≡ ends (at (previous (2 ^ k) (previous (2 ^ k) i))))
      × ((map' : Hashmap) × ((delete map i ≡ ends map')
            × (key_at map'.entries (previous (2 ^ k) (previous (2 ^ k) i)) ≡ get_page ptr)
            × (find map' ptr ≡ ends absent)))
delete-loses k map i ptr v large inside first home_q third ne home_r =
    let four : 4 ≤ 2 ^ k = pow-le-pow_right {n = 2} (omega arith) large in
    let p = get_page ptr in
    let cur = previous (2 ^ k) i in
    let last = previous (2 ^ k) cur in
    let cur_eq : cur ≡ (if i == 0 then 2 ^ k - 1 else i - 1) = previous_lem k v.small i inside in
    let cur_in : cur < 2 ^ k = ground (arith) in
    let last_eq : last ≡ (if cur == 0 then 2 ^ k - 1 else cur - 1) =
      previous_lem k v.small cur cur_in in
    let last_in : last < 2 ^ k = ground (arith) in
    let es' = moved (2 ^ k) map.entries i in
    let map' = with_entries map es' in
    let at_moved = key_at-moved k v.small large map.entries v.storage i inside in
    let another : key_at map.entries cur ≢ p =
      λ e. absurd (ground (arith, v.unique cur last cur_in last_in first (e ∙ sym third))) in
    let key_i : key_at es' (home (2 ^ k) p) ≡ key_at map.entries cur =
      rw home_r (at_moved i ∙ ground arith) in
    (
      find_lem k map ptr v.total v.storage
          ∙ find_loop-present k v.small map.entries p last v.reachable v.unique last_in third ne,
      (
        map',
        (
          delete_runs map i es' (λ e. absurd (omega (arith, v.total)))
              (rw v.total (
                delete_loop-moves k v.small large map.entries v.storage i inside home_q first
                  (2 ^ k + 1) (2 ^ k) refl (omega arith))),
          at_moved last ∙ ground arith,
          find_lem k map' ptr v.total (length-moved k v.small large map.entries v.storage i inside)
              ∙ find_two k es' p large (rw key_i first) (rw key_i another)
                  (rw home_r (at_moved cur ∙ ground arith)),
        ),
      ),
    )
