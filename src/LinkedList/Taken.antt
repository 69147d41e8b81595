-- ===== src/LinkedList/Taken.antt =====
-- The three pops of the list on the sequence of its nodes.
use mug_os.Base.{ℕ, ◌≡◌, ◌≢◌, List, [], ◌∷◌, ◌++◌, arith, sym, ◌∙◌}
use mathlib.Core.List.{append-nil}
use mug_os.LinkedList.{Store, null, pop_front, pop_back, pop}
use mug_os.LinkedList.Links.{
  NotIn, NotIn-parts, NotIn-append, Distinct, IsList, Links-cut, Links-bridge, last_of, first_of,
  last_of-ne, first_of-ne,
}
use mug_os.LinkedList.Remove.{Removed, Links-Removed}

-- The fields around a node that is to be taken out, and at the ends of a list that is not empty.
record Around (m : Store) (l p n q : ℕ) : Type 0 where
  to_node : m.next p ≡ n
  back_to_node : m.prev q ≡ n
  from_node : m.next n ≡ q
  back_from_node : m.prev n ≡ p
  first_back : m.prev (m.next l) ≡ l
  last_on : m.next (m.prev l) ≡ l
  some_node : m.next l ≢ l
  not_before : n ≢ p
  not_after : n ≢ q
  not_head : n ≢ l

pop-Removed : (m : Store) (l p n q : ℕ) → Around m l p n q → Removed m (pop m l n) p n q
unfolding pop
pop-Removed m l p n q a = record {
  next_before = ground arith;
  prev_after = ground arith;
  next_old = ground arith;
  prev_old = ground arith;
  other_next = λ x xp xn. ground arith;
  other_prev = λ x xq xn. ground arith;
}

pop_front-pop :
    (m : Store) (l q : ℕ) → Around m l l (m.next l) q → pop_front m l ≡ pop m l (m.next l)
unfolding pop_front pop
pop_front-pop m l q a = ground arith

pop_back-pop : (m : Store) (l p : ℕ) → Around m l p (m.prev l) l → pop_back m l ≡ pop m l (m.prev l)
unfolding pop_back pop
pop_back-pop m l p a = ground arith

Distinct-append :
    (xs : List ℕ) (n : ℕ) (ys : List ℕ)
    → Distinct (xs ++ n ∷ ys)
    → Distinct (xs ++ ys) × NotIn n (xs ++ ys)
Distinct-append [] n ys (h, d) = (d, h)
Distinct-append (x ∷ xs) n ys (h, d) =
    let (e, k) = Distinct-append xs n ys d in
    let (left, right) = NotIn-parts x xs (n ∷ ys) h in
    ((NotIn-append x xs ys left right.1, e), ((λ e'. right.0 (sym e')), k))

NotIn-skip :
    (a : ℕ) (xs : List ℕ) (n : ℕ) (ys : List ℕ)
    → NotIn a (xs ++ n ∷ ys)
    → (a ≢ n) × NotIn a (xs ++ ys)
NotIn-skip a xs n ys h =
    let (left, right) = NotIn-parts a xs (n ∷ ys) h in (right.0, NotIn-append a xs ys left right.1)

first_inside :
    (l : ℕ) (xs : List ℕ) (n : ℕ) (ys : List ℕ)
    → NotIn l (xs ++ n ∷ ys)
    → l ≢ first_of (xs ++ n ∷ ys) l
first_inside l [] n ys h = h.0
first_inside l (x ∷ xs) n ys h = h.0

module _ (m : Store) (list node : ℕ) (xs ys : List ℕ) (h : IsList m list (xs ++ node ∷ ys)) where
  apart_node : (list ≢ node) × NotIn list (xs ++ ys)
  apart_node = NotIn-skip list xs node ys h.apart

  others : Distinct (xs ++ ys) × NotIn node (xs ++ ys)
  others = Distinct-append xs node ys h.distinct

  around : Around m list (last_of list xs) node (first_of ys list)
  around =
      let (left, right) = Links-cut m list xs node ys list h.circle in
      let (node_left, node_right) = NotIn-parts node xs ys others.1 in
      let here = Links-bridge m list xs (node ∷ ys) list h.circle in
      let after = Links-bridge m node [] ys list right in
      let at_first = Links-bridge m list [] (xs ++ node ∷ ys) list h.circle in
      let at_last = Links-bridge m list (xs ++ node ∷ ys) [] list (rw append-nil h.circle) in
      let not_head : node ≢ list = λ e. apart_node.0 (sym e) in
      record {
        to_node = here.0;
        back_to_node = after.1;
        from_node = after.0;
        back_from_node = here.1;
        first_back = rw (at_first.0) at_first.1;
        last_on = rw (at_last.1) at_last.0;
        some_node = λ e. first_inside list xs node ys h.apart (sym e ∙ at_first.0);
        not_before = last_of-ne node list xs not_head node_left;
        not_after = first_of-ne node list ys not_head node_right;
        not_head = not_head;
      }

  -- `List_pop` takes a node of the list out, wherever it stands, keeps the others in order, and
  -- leaves the links of the node NULL.
  pub pop-IsList :
      IsList (pop m list node) list (xs ++ ys)
      × ((pop m list node).next node ≡ null)
      × ((pop m list node).prev node ≡ null)
  pop-IsList =
      let gone = pop-Removed m list (last_of list xs) node (first_of ys list) around in
      let not_head : node ≢ list = λ e. apart_node.0 (sym e) in
      (
        record {
          circle =
              Links-Removed m (pop m list node) list node xs ys list gone h.circle apart_node.1
                others.0 apart_node.1 not_head not_head others.1;
          apart = apart_node.1;
          distinct = others.0;
          not_null = (h.not_null.0, (NotIn-skip null xs node ys h.not_null.1).1);
        },
        gone.next_old,
        gone.prev_old,
      )

-- `List_popFront` takes the first node out, keeps the others in order, and leaves the links of that
-- node NULL.
pub pop_front-IsList :
    (m : Store) (list x : ℕ) (xs : List ℕ)
    → IsList m list (x ∷ xs)
    → IsList (pop_front m list) list xs
      × ((pop_front m list).next x ≡ null)
      × ((pop_front m list).prev x ≡ null)
pop_front-IsList m l x xs h =
    let first : m.next l ≡ x = h.circle.0 in
    let place : Around m l l (m.next l) (first_of xs l) = rw first (around m l x [] xs h) in
    rw (pop_front-pop m l (first_of xs l) place, first) (pop-IsList m l x [] xs h)

-- `List_popBack` takes the last node out, keeps the others in order, and leaves the links of that node
-- NULL.
pub pop_back-IsList :
    (m : Store) (list x : ℕ) (xs : List ℕ)
    → IsList m list (xs ++ x ∷ [])
    → IsList (pop_back m list) list xs
      × ((pop_back m list).next x ≡ null)
      × ((pop_back m list).prev x ≡ null)
pop_back-IsList m l x xs h =
    let last : m.prev l ≡ x = (around m l x xs [] h).back_to_node in
    let place : Around m l (last_of l xs) (m.prev l) l = rw last (around m l x xs [] h) in
    rw (pop_back-pop m l (last_of l xs) place, last) (rw append-nil at (pop-IsList m l x xs [] h))

-- On an empty list the three pops do nothing.
pub pop_empty :
    (m : Store) (list node : ℕ)
    → IsList m list []
    → (pop m list node ≡ m) × (pop_front m list ≡ m) × (pop_back m list ≡ m)
unfolding pop pop_front pop_back
pop_empty m l n h = ground (arith, h.circle)
