-- ===== src/Hashmap/Tests.antt =====
-- Tests of the hashmap, on tables of eight entries.
use mug_os.Base.{
  ℕ, ◌≡◌, ◌≢◌, ◌<◌, refl, arith, Bool, true, false, List, [], ◌∷◌, if◌then◌else◌, ◌==◌, replicate,
  set, leb, not, ◌||◌, ◌++◌,
}
use mug_os.Base.Bits.{holds_below, holds_below_sound}
use mug_os.Hashmap.{
  Entry, Hashmap, null_entry, entry_at, key_at, hash, home, previous, get_page, insert, find,
  find_loop, delete, delete_loop, ends, at, absent,
}
use mug_os.Hashmap.Walk.{below, steps, home-lt}
use mug_os.Hashmap.Invariant.{IsValid, count_free, Reachable, Unique, NoEntry}
use mug_os.Hashmap.Lookup.{insert-find}
use mug_os.Hashmap.Deletion.{delete-loses}

-- Three pages whose home is index 7, and the table that holds them.
abbrev full_run : List Entry
full_run =
    replicate 5 null_entry
    ++ record { key = 0x1_1000; value = 3 }
      ∷ record { key = 0x9000; value = 2 }
      ∷ record { key = 0x1000; value = 1 }
      ∷ []

abbrev three_pages : Hashmap
three_pages = record { entries = full_run; total_entries = 8; free_entries = 5 }

homes : (home 8 0x1000 ≡ 7) × (home 8 0x9000 ≡ 7) × (home 8 0x1_1000 ≡ 7)
unfolding home hash
homes = (refl, refl, refl)

abbrev reachable_test : ℕ → ℕ → Bool
reachable_test j c =
    (key_at full_run j == 0)
    || leb (steps 8 (home 8 (key_at full_run j)) j) c
    || not (key_at full_run (below 8 (home 8 (key_at full_run j)) c) == 0)

abbrev unique_test : ℕ → ℕ → Bool
unique_test i j =
    (key_at full_run i == 0) || not (key_at full_run i == key_at full_run j) || (i == j)

reach_from_test :
    (key n c other : ℕ)
    → ((key == 0) || leb n c || not (other == 0)) ≡ true
    → key ≢ 0
    → c < n
    → other ≢ 0
reach_from_test key n c other h used lt = ground arith

steps-lt : (h j : ℕ) → h < 8 → j < 8 → steps 8 h j < 8
steps-lt h j hh hj = ground arith

steps_bound : (j c : ℕ) → j < 8 → c < steps 8 (home 8 (key_at full_run j)) j → c < 8
steps_bound j c hj hc =
    omega (arith, steps-lt (home 8 (key_at full_run j)) j (home-lt 3 (omega arith) _) hj)

three_pages-Reachable : Reachable 3 full_run
unfolding holds_below home hash
three_pages-Reachable j c hj ne hc =
    let row = holds_below_sound (λ x. holds_below (reachable_test x) 8) 8 j hj refl in
    let here = holds_below_sound (reachable_test j) 8 c (steps_bound j c hj hc) row in
    reach_from_test _ _ c _ here ne hc

three_pages-Unique : Unique 3 full_run
unfolding holds_below
three_pages-Unique i j hi hj ne eq =
    let row = holds_below_sound (λ x. holds_below (unique_test x) 8) 8 i hi refl in
    let here = holds_below_sound (unique_test i) 8 j hj row in ground arith

three_pages-IsValid : IsValid 3 three_pages
unfolding count_free
three_pages-IsValid = record {
  small = omega arith;
  total = refl;
  storage = refl;
  free_count = refl;
  reachable = three_pages-Reachable;
  unique = three_pages-Unique;
}

no_fourth : NoEntry 3 full_run 0x1_9000
unfolding holds_below
no_fourth j hj =
    let other = holds_below_sound (λ x. not (key_at full_run x == 0x1_9000)) 8 j hj refl in
    ground arith

insert-find_example :
    (map' : Hashmap) × (i : ℕ) × ((insert (λ n. false) three_pages 0x1_9010 4 ≡ ends (true, map'))
      × IsValid 3 map'
      × (entry_at map'.entries i ≡ record { key = 0x1_9000; value = 4 })
      × (find map' 0x9123 ≡ (
          if get_page 0x9123 == get_page 0x1_9010 then ends (at i) else find three_pages 0x9123)))
insert-find_example =
    insert-find (λ n. false) 3 three_pages 0x1_9010 4 0x9123 three_pages-IsValid (omega arith) refl
      (λ e. absurd (omega arith)) (λ e. absurd (omega arith)) no_fourth

delete-loses_example :
    (find three_pages 0x1_1010 ≡ ends (at (previous 8 (previous 8 7))))
    × ((map' : Hashmap) × ((delete three_pages 7 ≡ ends map')
          × (key_at map'.entries (previous 8 (previous 8 7)) ≡ 0x1_1000)
          × (find map' 0x1_1010 ≡ ends absent)))
unfolding previous home hash
delete-loses_example =
    delete-loses 3 three_pages 7 0x1_1010 three_pages-IsValid (omega arith) (omega arith)
      (λ e. absurd (omega arith)) refl refl (λ e. absurd (omega arith)) refl

-- The same, run: the third page is found before the first is deleted, and not after.
lost :
    (find three_pages 0x1_1010 ≡ ends (at 5))
    × (delete three_pages 7
        ≡ ends (record {
          entries = set (set full_run 7 (record { key = 0x9000; value = 2 })) 6 null_entry;
          total_entries = 8;
          free_entries = 6;
        }))
unfolding find find_loop delete delete_loop previous home hash
lost = (refl, refl)
