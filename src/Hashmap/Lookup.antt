-- ===== src/Hashmap/Lookup.antt =====
-- `Hashmap_insert` into a table with room, and `Hashmap_find` afterwards.
use mug_os.Base.{
  ℕ, zero, suc, ◌-◌, ◌^◌, ◌≤◌, ◌<◌, ◌≡◌, ◌≢◌, ◌⊎◌, ◌∙◌, refl, ap, sym, arith, Bool, ◌==◌,
  if◌then◌else◌, List, [], ◌∷◌, Bool-cases, inl, inr, true, false, length, set, get_or-set,
  length-set,
}
use mug_os.Hashmap.{
  Entry, Hashmap, null_entry, entry_at, key_at, home, probe_free, find_loop, find, insert,
  insert_with_room, hashmap_too_full, get_page, Outcome, ends, Found, at, absent,
}
use mug_os.Hashmap.Walk.{below, steps, home-lt, probe_free_first}
use mug_os.Hashmap.Invariant.{
  Reachable, Unique, IsValid, NoEntry, free_entry, count_free-set, below-steps, find_loop-present,
  find_loop-absent,
}
use mug_os.Base.Shifts.{pow-pos}
use native.Mathlib.Nat.{pow-le-pow_right}

pub find_lem :
    (k : ℕ) (map : Hashmap) (q : ℕ)
    → map.total_entries ≡ 2 ^ k
    → length map.entries ≡ 2 ^ k
    → find map q ≡ find_loop (2 ^ k) (2 ^ k) map.entries (get_page q) (home (2 ^ k) (get_page q))
unfolding find
find_lem k map q total storage = rw total (go map.entries (omega (arith, storage, pow-pos k)))
  where
    go :
        (es : List Entry)
        → 0 < length es
        → elim es as (λ _. Outcome Found) [
          | [] ↦ ends absent
          | _ ∷ _ ↦ find_loop (2 ^ k) (2 ^ k) map.entries (get_page q) (home (2 ^ k) (get_page q))
        ]
          ≡ find_loop (2 ^ k) (2 ^ k) map.entries (get_page q) (home (2 ^ k) (get_page q))
    go [] h = absurd (omega arith)
    go (e ∷ es) h = refl

-- Whether a page has an entry.
has_entry :
    (es : List Entry) (p : ℕ)
    → ((j : ℕ) × (j < length es) × (key_at es j ≡ p)) ⊎ ((j : ℕ) → j < length es → key_at es j ≢ p)
has_entry [] p = inr (λ j h. absurd (omega arith))
has_entry (e ∷ es) p = elim (Bool-cases (e.key == p)) [
  | inl here ↦ inl (0, omega arith, ground arith)
  | inr other ↦ elim (has_entry es p) [
    | inl (j, lt, holds) ↦ inl (suc j, omega arith, holds)
    | inr none ↦ inr (not_here other none)
  ]
]
  where
    not_here :
        (e.key == p) ≡ false
        → ((j : ℕ) → j < length es → key_at es j ≢ p)
        → (j : ℕ) → j < length (e ∷ es)
        → key_at (e ∷ es) j ≢ p
    not_here other none zero lt = ground arith
    not_here other none (suc j) lt = none j (omega arith)

-- The table after an entry is written to the free index where the search for it stops.
module _ (k : ℕ) (small : k < 64) (es : List Entry) (storage : length es ≡ 2 ^ k) (e : Entry)
    (m : ℕ) where
  index : ℕ
  index = below (2 ^ k) (home (2 ^ k) e.key) m

  module _ (lt : m < 2 ^ k) (used : e.key ≢ 0)
      (free : key_at es (below (2 ^ k) (home (2 ^ k) e.key) m) ≡ 0)
      (before : (c : ℕ) → c < m → key_at es (below (2 ^ k) (home (2 ^ k) e.key) c) ≢ 0) where
    index-lt : index < 2 ^ k
    unfolding index
    index-lt = ground (arith, home-lt k small e.key)

    key_at-set : (j : ℕ) → key_at (set es index e) j ≡ (if index == j then e.key else key_at es j)
    key_at-set j =
        ap (λ x. x.key) (get_or-set es index j e null_entry (omega (arith, index-lt, storage)))
        ∙ ground arith

    not_free-set : (i : ℕ) → key_at es i ≢ 0 → key_at (set es index e) i ≢ 0
    not_free-set i ne = ground (arith, key_at-set i)

    index_lem : index ≡ below (2 ^ k) (home (2 ^ k) e.key) m
    unfolding index
    index_lem = refl

    Reachable-set : Reachable k es → Reachable k (set es index e)
    Reachable-set reach j c hj ne hc = elim (Bool-cases (index == j)) [
      | inl here ↦
          let kj : key_at (set es index e) j ≡ e.key = ground (arith, key_at-set j) in
          let closer : c < steps (2 ^ k) (home (2 ^ k) e.key) j = rw kj at hc in
          rw kj (not_free-set _ (before c (ground (arith, index_lem, home-lt k small e.key))))
      | inr other ↦
          let kj : key_at (set es index e) j ≡ key_at es j = ground (arith, key_at-set j) in
          rw kj (not_free-set _ (reach j c hj (rw kj at ne) (rw kj at hc)))
    ]

    Unique-set : Unique k es → NoEntry k es e.key → Unique k (set es index e)
    Unique-set uniq none i j hi hj ne eq =
        ground (arith, key_at-set i, key_at-set j, none i hi, none j hj, uniq i j hi hj)

    free-index : key_at es index ≡ 0
    free-index = rw index_lem free

-- The map that the insertion of `e` at `i` leaves.
abbrev with_entry : Hashmap → ℕ → Entry → Hashmap
with_entry map i e = record map {
  entries = set map.entries i e;
  free_entries = map.free_entries - 1;
}

module _ (k : ℕ) (map : Hashmap) (e : Entry) (m : ℕ) (v : IsValid k map) (lt : m < 2 ^ k)
    (used : e.key ≢ 0) (free : key_at map.entries (below (2 ^ k) (home (2 ^ k) e.key) m) ≡ 0)
    (before : (c : ℕ) → c < m → key_at map.entries (below (2 ^ k) (home (2 ^ k) e.key) c) ≢ 0)
    (none : NoEntry k map.entries e.key) where
  place : ℕ
  place = index k v.small map.entries v.storage e m

  place-lt : place < 2 ^ k
  unfolding place
  place-lt = index-lt k v.small map.entries v.storage e m lt used free before

  place-key :
      (j : ℕ)
      → key_at (set map.entries place e) j ≡ (if place == j then e.key else key_at map.entries j)
  unfolding place
  place-key = key_at-set k v.small map.entries v.storage e m lt used free before

  place-free : key_at map.entries place ≡ 0
  unfolding place
  place-free = free-index k v.small map.entries v.storage e m lt used free before

  with_entry-IsValid : IsValid k (with_entry map place e)
  unfolding place
  with_entry-IsValid = record {
    small = v.small;
    total = v.total;
    storage = length-set map.entries place e ∙ v.storage;
    free_count = omega (
      arith,
      v.free_count,
      count_free-set map.entries place e (omega (arith, place-lt, v.storage)) place-free used,
    );
    reachable = Reachable-set k v.small map.entries v.storage e m lt used free before v.reachable;
    unique = Unique-set k v.small map.entries v.storage e m lt used free before v.unique none;
  }

  find-with_entry :
      (q : ℕ)
      → get_page q ≢ 0
      → 1 < map.free_entries
      → find (with_entry map place e) q
        ≡ (if get_page q == e.key then ends (at place) else find map q)
  find-with_entry q nq some_free =
      let v' = with_entry-IsValid in
      let p = get_page q in
      rw
        (
          find_lem k (with_entry map place e) q v'.total v'.storage,
          find_lem k map q v.total v.storage,
        )
        (elim (Bool-cases (p == e.key)) [
          | inl same ↦ rw same (
              find_loop-present k v.small (set map.entries place e) p place v'.reachable v'.unique
                place-lt (ground (arith, place-key place)) nq)
          | inr other ↦ rw other (elim (has_entry map.entries p) [
            | inl (j, hj, holds) ↦
                let in_table : j < 2 ^ k = rw v.storage at hj in
                find_loop-present k v.small (set map.entries place e) p j v'.reachable v'.unique
                  in_table (ground (arith, place-key j, place-free)) nq
                ∙ sym (
                    find_loop-present k v.small map.entries p j v.reachable v.unique in_table holds
                      nq)
            | inr no_entry ↦
                let (f, hf, is_free) = free_entry map.entries (omega (arith, v.free_count)) in
                let (f', hf', is_free') =
                  free_entry (set map.entries place e) (omega (arith, v'.free_count)) in
                find_loop-absent k v.small (set map.entries place e) p f'
                  (λ j hj. ground (arith, place-key j, no_entry j (omega (arith, v.storage))))
                  (omega (arith, v'.storage)) is_free'
                ∙ sym (
                    find_loop-absent k v.small map.entries p f
                      (λ j hj. no_entry j (omega (arith, v.storage))) (omega (arith, v.storage))
                      is_free)
          ])
        ])

insert_runs :
    (allocates : ℕ → Bool) (map : Hashmap) (ptr value i : ℕ)
    → ptr ≢ 0
    → hashmap_too_full map ≡ false
    → map.total_entries ≢ 0
    → probe_free map.total_entries map.total_entries map.entries
        (home map.total_entries (get_page ptr))
      ≡ ends i
    → insert allocates map ptr value
      ≡ ends (true, with_entry map i (record { key = get_page ptr; value = value }))
unfolding insert insert_with_room
insert_runs allocates map ptr value i ne room some runs =
    let not_null : (ptr == 0) ≡ false = ground arith in
    let not_empty : (map.total_entries == 0) ≡ false = ground arith in
    rw (not_null, room, not_empty, insert_with_room, runs) refl

get_page-ne : (ptr : ℕ) → get_page ptr ≢ 0 → ptr ≢ 0
get_page-ne ptr ne e = ne (rw e)

-- What `insert-find` promises, of the map and the index.
abbrev InsertsAt : (ℕ → Bool) → ℕ → Hashmap → ℕ → ℕ → ℕ → Hashmap → ℕ → Type 0
InsertsAt allocates k map ptr value q map' i =
    (insert allocates map ptr value ≡ ends (true, map'))
    × IsValid k map'
    × (entry_at map'.entries i ≡ record { key = get_page ptr; value = value })
    × (find map' q ≡ (if get_page q == get_page ptr then ends (at i) else find map q))

insert-find_place :
    (allocates : ℕ → Bool) (k : ℕ) (map : Hashmap) (ptr value q m : ℕ)
    → IsValid k map
    → hashmap_too_full map ≡ false
    → 1 < map.free_entries
    → get_page ptr ≢ 0
    → get_page q ≢ 0
    → NoEntry k map.entries (get_page ptr)
    → m < 2 ^ k
    → key_at map.entries (below (2 ^ k) (home (2 ^ k) (get_page ptr)) m) ≡ 0
    → ((c : ℕ) → c < m → key_at map.entries (below (2 ^ k) (home (2 ^ k) (get_page ptr)) c) ≢ 0)
    → probe_free (2 ^ k) (2 ^ k) map.entries (home (2 ^ k) (get_page ptr))
      ≡ ends (below (2 ^ k) (home (2 ^ k) (get_page ptr)) m)
    → (map' : Hashmap) × (i : ℕ) × InsertsAt allocates k map ptr value q map' i
insert-find_place allocates k map ptr value q m v room some_free ne nq none lt free before runs = (
  with_entry map i e,
  i,
  (
    insert_runs allocates map ptr value i (get_page-ne ptr ne) room
        (λ z. absurd (omega (arith, v.total, pow-pos k))) (rw v.total runs ∙ ap ends place_eq),
    with_entry-IsValid k map e m v lt ne free before none,
    get_or-set map.entries i i e null_entry
          (omega (arith, place-lt k map e m v lt ne free before none, v.storage))
        ∙ ground arith,
    find-with_entry k map e m v lt ne free before none q nq some_free,
  ),
)
  where
    e : Entry
    e = record { key = get_page ptr; value = value }

    i : ℕ
    i = place k map e m v lt ne free before none

    place_eq : below (2 ^ k) (home (2 ^ k) (get_page ptr)) m ≡ i
    place_eq = unfold place index in refl

-- `Hashmap_insert` of a pointer whose page is not page 0 and has no entry, into a valid table of at
-- least eight entries that is not too full, ends, returns true and keeps the table valid.
-- `Hashmap_find` of any pointer into that page then returns an entry that holds the page and the
-- value, and of any pointer into another page than it and page 0 what it returned before.
pub insert-find :
    (allocates : ℕ → Bool) (k : ℕ) (map : Hashmap) (ptr value q : ℕ)
    → IsValid k map
    → 3 ≤ k
    → hashmap_too_full map ≡ false
    → get_page ptr ≢ 0
    → get_page q ≢ 0
    → NoEntry k map.entries (get_page ptr)
    → (map' : Hashmap) × (i : ℕ) × ((insert allocates map ptr value ≡ ends (true, map'))
        × IsValid k map'
        × (entry_at map'.entries i ≡ record { key = get_page ptr; value = value })
        × (find map' q ≡ (if get_page q == get_page ptr then ends (at i) else find map q)))
insert-find allocates k map ptr value q v large room ne nq none =
    let eight : 2 ^ 3 ≤ 2 ^ k = pow-le-pow_right (omega arith) large in
    let some_free : 1 < map.free_entries = ground (arith, v.total) in
    let (f, hf, is_free) = free_entry map.entries (omega (arith, v.free_count)) in
    go f hh (omega (arith, v.storage)) is_free some_free
  where
    h : ℕ
    h = home (2 ^ k) (get_page ptr)

    hh : h < 2 ^ k
    hh = home-lt k v.small (get_page ptr)

    go :
        (f : ℕ)
        → h < 2 ^ k
        → f < 2 ^ k
        → key_at map.entries f ≡ 0
        → 1 < map.free_entries
        → (map' : Hashmap) × (i : ℕ) × InsertsAt allocates k map ptr value q map' i
    go f inside hf is_free some_free =
        let (m, lo, hi, runs, free, before) =
          probe_free_first k v.small map.entries h (2 ^ k) 0 (steps (2 ^ k) h f) hh (omega arith)
            (ground (arith, inside)) (ground arith)
            (rw (below-steps k v.small map.entries h f hh hf) is_free) in
        insert-find_place allocates k map ptr value q m v room some_free ne nq none (ground arith)
          free (λ c. before c (omega arith))
          (ap (probe_free (2 ^ k) (2 ^ k) map.entries) start ∙ runs)
      where
        start : h ≡ below (2 ^ k) h 0
        start = ground arith
