-- ===== src/Ringbuffer/Tests.antt =====
-- Tests of the ring, on one of three places.
use mug_os.Base.{
  ℕ, ◌-◌, ◌^◌, ◌≡◌, ◌≢◌, ◌⊎◌, ◌++◌, refl, arith, true, false, not, none, some, [], ◌∷◌, leb,
  if◌then◌else◌,
}
use mathlib.Core.List.{tail}
use mug_os.Ringbuffer.{
  Ringbuffer, get_data_size, push_back, push_locked, is_buffer_full, push_back_overwrite, pop,
  pop_locked,
}
use mug_os.Ringbuffer.Queue.{IsValid, contents, items}
use mug_os.Ringbuffer.Order.{
  no_irq, push_back_lem, pop_lem, push_back_overwrite_lem, pop_irq, pop_interrupted,
}

abbrev two_of_three : Ringbuffer
two_of_three = record {
  size = 3;
  read_begin_index = 2;
  in_read_buffer = 2;
  buffer = 20 ∷ 0 ∷ 10 ∷ [];
  is_allocated = true;
}

two_of_three-IsValid : IsValid two_of_three
two_of_three-IsValid = record {
  some_room = omega arith;
  fits = omega arith;
  storage = omega arith;
  begin_in = omega arith;
  count_in = omega arith;
}

-- The values are read across the end of the buffer.
read_across : contents two_of_three ≡ 10 ∷ 20 ∷ []
unfolding contents items
read_across = refl

push_then_pop : (pop no_irq true (push_back no_irq two_of_three 30).1).0 ≡ some 10
unfolding pop pop_locked push_back push_locked is_buffer_full
push_then_pop = refl

push_back_lem_example :
    let (done, r') = push_back no_irq two_of_three 30 in
    (done ≡ not (leb 3 2))
    × (contents r' ≡ (if leb 3 2 then contents two_of_three else contents two_of_three ++ 30 ∷ []))
    × IsValid r'
push_back_lem_example = push_back_lem two_of_three 30 two_of_three-IsValid

pop_lem_example :
    let (value, r') = pop no_irq true two_of_three in
    (((value ≡ none) × (r' ≡ two_of_three) × ((true ≡ false) ⊎ (contents two_of_three ≡ [])))
      ⊎ ((x : ℕ) × (value ≡ some x) × (contents two_of_three ≡ x ∷ contents r')))
    × IsValid r'
pop_lem_example = pop_lem two_of_three true two_of_three-IsValid

abbrev one_of_three : Ringbuffer
one_of_three = record two_of_three { in_read_buffer = 1 }

one_of_three-IsValid : IsValid one_of_three
one_of_three-IsValid = record {
  some_room = omega arith;
  fits = omega arith;
  storage = omega arith;
  begin_in = omega arith;
  count_in = omega arith;
}

pop_interrupted_example :
    let (taken, r') = pop pop_irq true one_of_three in
    (taken ≢ none)
    × ((pop no_irq true (pop_irq one_of_three)).0 ≡ none)
    × (get_data_size r' ≡ 2 ^ 64 - 1)
    × ¬ (IsValid r')
    × (push_back no_irq r' 30 ≡ (false, r'))
unfolding get_data_size
pop_interrupted_example = pop_interrupted one_of_three 30 one_of_three-IsValid refl

push_back_overwrite_lem_example :
    let full = leb (no_irq two_of_three).size (no_irq two_of_three).in_read_buffer in
    let (done, r') = push_back_overwrite no_irq two_of_three 30 in
    (done ≡ not full)
    × (contents r'
        ≡ (if full then tail (contents (no_irq two_of_three)) else contents (no_irq two_of_three))
          ++ 30 ∷ [])
    × IsValid r'
push_back_overwrite_lem_example =
    push_back_overwrite_lem no_irq two_of_three 30 two_of_three-IsValid

abbrev full_up : Ringbuffer → Ringbuffer
full_up r = record r { in_read_buffer = r.size }

full_up-IsValid : IsValid (full_up two_of_three)
full_up-IsValid = record {
  some_room = omega arith;
  fits = omega arith;
  storage = omega arith;
  begin_in = omega arith;
  count_in = omega arith;
}
