-- ===== src/Paging/Mapping.antt =====
-- Which physical address each virtual one has after Paging_map.
use mug_os.Base.{
  ℕ, zero, suc, ◌+◌, ◌-◌, ◌*◌, ◌/◌, ◌%◌, ◌^◌, ◌≤◌, ◌<◌, ◌≡◌, refl, ap, ◌∙◌, arith, add64, Bool,
  true, ◌&&◌, List, [], leb, ◌==◌, if-elim,
}
use mug_os.Paging.{
  get_index_page_directory_pointer_table, get_index_page_directory, get_index_page_table, Effect,
  PageSize, size_1gb, size_2mb, size_4kb, bytes, choose_size, mappable, map_loop, paging_map,
}
use mug_os.Paging.Entries.{
  translate, all_in_tables, range, range-join, Mapped, Mapped-4kb, Mapped-2mb, Mapped-1gb,
}

-- A round of the loop.
abbrev Step : ℕ → ℕ → ℕ → ℕ → PageSize → Type 0
Step flags phys virt remaining size =
    Mapped size flags phys virt (mappable size virt remaining)
    × (0 < mappable size virt remaining * bytes size)
    × (mappable size virt remaining * bytes size ≤ remaining * 2 ^ 12)
    × ((mappable size virt remaining * bytes size) % 2 ^ 12 ≡ 0)

choose_size-elim :
    (P : PageSize → Type 0) (has_1gb_pages : Bool) (phys remaining : ℕ)
    → (has_1gb_pages ≡ true → phys % 2 ^ 30 ≡ 0 → 2 ^ 18 ≤ remaining → P size_1gb)
    → (phys % 2 ^ 21 ≡ 0 → 2 ^ 9 ≤ remaining → P size_2mb)
    → P size_4kb
    → P (choose_size has_1gb_pages phys remaining)
unfolding choose_size
choose_size-elim P has phys remaining f g h =
    if-elim P (has && (phys % 2 ^ 30 == 0) && leb (2 ^ 18) remaining) _ _
      (λ e. f (ground arith) (ground arith) (ground arith))
      (λ e.
        if-elim P ((phys % 2 ^ 21 == 0) && leb (2 ^ 9) remaining) _ _
          (λ e2. g (ground arith) (ground arith)) (λ e2. h))

choose_size-Step :
    (has_1gb_pages : Bool) (flags phys virt remaining : ℕ)
    → 0 < remaining
    → virt % 2 ^ 12 ≡ 0
    → virt % 2 ^ 21 ≡ phys % 2 ^ 21
    → (has_1gb_pages ≡ true → virt % 2 ^ 30 ≡ phys % 2 ^ 30)
    → virt + remaining * 2 ^ 12 ≤ 2 ^ 48
    → phys + remaining * 2 ^ 12 ≤ 2 ^ 48
    → Step flags phys virt remaining (choose_size has_1gb_pages phys remaining)
unfolding mappable bytes get_index_page_directory_pointer_table get_index_page_directory
    get_index_page_table
choose_size-Step has flags phys virt remaining pos va c g vl pl =
    let lt : virt < 2 ^ 48 = omega arith in
    choose_size-elim (Step flags phys virt remaining) has phys remaining
      (λ h p r. (
        Mapped-1gb flags phys virt _ lt (g h ∙ p) p (omega arith) (omega arith),
        omega arith,
        omega arith,
        omega arith,
      ))
      (λ p r. (
        Mapped-2mb flags phys virt _ lt (c ∙ p) p (omega arith) (omega arith),
        omega arith,
        omega arith,
        omega arith,
      ))
      (
        Mapped-4kb flags phys virt _ lt va (omega arith) (omega arith) (omega arith),
        omega arith,
        omega arith,
        omega arith,
      )

-- The loop has ended, and the range is mapped.
abbrev Done : ℕ → ℕ → ℕ → List Effect × Bool → Type 0
Done phys virt remaining out =
    (out.1 ≡ true)
    × (all_in_tables out.0 ≡ true)
    × ((v : ℕ) → translate out.0 v ≡ range virt (remaining * 2 ^ 12) phys v [])

nothing-left :
    (virt remaining phys v : ℕ) → remaining ≡ 0 → [] ≡ range virt (remaining * 2 ^ 12) phys v []
nothing-left virt remaining phys v e = ground arith

map_loop-Done :
    (fuel : ℕ) (has_1gb_pages : Bool) (flags phys virt remaining : ℕ)
    → remaining ≤ fuel
    → virt % 2 ^ 12 ≡ 0
    → virt % 2 ^ 21 ≡ phys % 2 ^ 21
    → (has_1gb_pages ≡ true → virt % 2 ^ 30 ≡ phys % 2 ^ 30)
    → virt + remaining * 2 ^ 12 ≤ 2 ^ 48
    → phys + remaining * 2 ^ 12 ≤ 2 ^ 48
    → Done phys virt remaining (map_loop fuel has_1gb_pages flags phys virt remaining)
unfolding map_loop translate all_in_tables
map_loop-Done zero has flags phys virt remaining enough va c g vl pl =
    let none_left : remaining ≡ 0 = omega arith in
    (ground arith, refl, λ v. nothing-left virt remaining phys v none_left)
map_loop-Done (suc fuel) has flags phys virt remaining enough va c g vl pl =
    if-elim (Done phys virt remaining) (remaining == 0) _ _
      (λ e. (refl, refl, λ v. nothing-left virt remaining phys v (ground arith)))
      (λ e.
        let pos : 0 < remaining = ground arith in
        let size = choose_size has phys remaining in
        let step = choose_size-Step has flags phys virt remaining pos va c g vl pl in
        let moved = mappable size virt remaining * bytes size in
        let fits = step.2 in
        let whole = step.3 in
        let phys2 : add64 phys moved ≡ phys + moved = omega (arith, fits) in
        let virt2 : add64 virt moved ≡ virt + moved = omega (arith, fits) in
        let left = remaining - moved / 2 ^ 12 in
        let all : moved + left * 2 ^ 12 ≡ remaining * 2 ^ 12 = omega (arith, fits, whole) in
        let rest =
          map_loop-Done fuel has flags (add64 phys moved) (add64 virt moved) left
            (omega (arith, step.1, whole)) (omega (arith, virt2, whole))
            (omega (arith, virt2, phys2, c)) (λ h. omega (arith, virt2, phys2, g h))
            (omega (arith, virt2, all)) (omega (arith, phys2, all)) in
        (
          rest.0,
          step.0.1 _ rest.1,
          λ v.
              step.0.0 v _
              ∙ ap (range virt moved phys v) (rest.2 v)
              ∙ ap (λ a. range virt moved phys v (range a (left * 2 ^ 12) (add64 phys moved) v []))
                  virt2
              ∙ ap (λ a. range virt moved phys v (range (virt + moved) (left * 2 ^ 12) a v []))
                  phys2
              ∙ range-join virt moved (left * 2 ^ 12) phys v []
              ∙ ap (λ n. range virt n phys v []) all,
        ))

-- For addresses of pages that are equal modulo 2 MB, and modulo 1 GB where the processor has pages of
-- that size, with both ranges below 2 ^ 48: the loop of Paging_map ends within a round for each page,
-- all entries that it writes are in their tables, exactly one of them stands for each virtual address of
-- the range and gives it the physical one at the same distance from the start, and none stands for any
-- other virtual address.
pub translate-paging_map :
    (has_1gb_pages : Bool) (phys virt n_pages flags : ℕ)
    → virt % 2 ^ 12 ≡ 0
    → virt % 2 ^ 21 ≡ phys % 2 ^ 21
    → (has_1gb_pages ≡ true → virt % 2 ^ 30 ≡ phys % 2 ^ 30)
    → virt + n_pages * 2 ^ 12 ≤ 2 ^ 48
    → phys + n_pages * 2 ^ 12 ≤ 2 ^ 48
    → ((paging_map has_1gb_pages phys virt n_pages flags).1 ≡ true)
      × (all_in_tables (paging_map has_1gb_pages phys virt n_pages flags).0 ≡ true)
      × ((v : ℕ)
          → translate (paging_map has_1gb_pages phys virt n_pages flags).0 v
            ≡ range virt (n_pages * 2 ^ 12) phys v [])
translate-paging_map has phys virt n_pages flags va c g vl pl =
    map_loop-Done n_pages has flags phys virt n_pages (omega arith) va c g vl pl
