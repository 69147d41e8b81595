-- ===== src/LinkedList/Tests.antt =====
-- Tests of the list, whose head is at address 1, with the nodes 10, 20 and 30.
use mug_os.Base.{◌≡◌, refl, arith, [], ◌∷◌}
use mug_os.LinkedList.{
  Store, null, init, push_unique, push_back, pop, pop_unique_element, pop_front_internal,
  pop_back_internal,
}
use mug_os.LinkedList.Links.{IsList}
use mug_os.LinkedList.Sequence.{init-IsList, push_back-IsList}
use mug_os.LinkedList.Taken.{pop-IsList}

abbrev zeroed : Store
zeroed = record { next = λ a. 0; prev = λ a. 0 }

abbrev none_in : Store
none_in = init zeroed 1

abbrev three_in : Store
three_in = push_back (push_back (push_back none_in 1 10) 1 20) 1 30

none_in-IsList : IsList none_in 1 []
none_in-IsList = (init-IsList zeroed 1 (ground arith)).0

three_in-IsList : IsList three_in 1 (10 ∷ 20 ∷ 30 ∷ [])
three_in-IsList =
    let one =
      push_back-IsList none_in 1 10 [] none_in-IsList (ground arith) (ground arith)
        (ground arith) in
    let two = push_back-IsList _ 1 20 (10 ∷ []) one (ground arith) (ground arith) (ground arith) in
    push_back-IsList _ 1 30 (10 ∷ 20 ∷ []) two (ground arith) (ground arith) (ground arith)

-- The list after its middle node is taken out, followed by `next` from the head.
followed :
    let m = pop three_in 1 20 in
    (m.next 1 ≡ 10) × (m.next 10 ≡ 30) × (m.next 30 ≡ 1) × (m.prev 1 ≡ 30) × (m.next 20 ≡ null)
unfolding init push_back push_unique pop pop_unique_element pop_front_internal pop_back_internal
followed = (refl, refl, refl, refl, refl)

pop-IsList_example :
    IsList (pop three_in 1 20) 1 (10 ∷ 30 ∷ [])
    × ((pop three_in 1 20).next 20 ≡ null)
    × ((pop three_in 1 20).prev 20 ≡ null)
pop-IsList_example = pop-IsList three_in 1 20 (10 ∷ []) (30 ∷ []) three_in-IsList
