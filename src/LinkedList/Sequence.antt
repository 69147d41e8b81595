-- ===== src/LinkedList/Sequence.antt =====
-- The operations of the list on the sequence of its nodes.
use mug_os.Base.{
  length, ◌==◌, if◌then◌else◌, true, false, ℕ, ◌≡◌, ◌≢◌, List, [], ◌∷◌, ◌++◌, arith, refl, sym, ◌∙◌,
}
use mathlib.Core.List.{append-nil}
use mug_os.LinkedList.{
  is_empty, empty, set_prev, set_next, Store, null, init, push_front, push_back,
}
use mug_os.LinkedList.Links.{
  NotIn, NotIn-append, Distinct, IsList, Links-ends, last_of, first_of, last_of-ne, first_of-ne,
}
use mug_os.LinkedList.Insert.{Inserted, Links-Inserted}

push_front-Inserted :
    (m : Store) (l n q : ℕ) → m.next l ≡ q → n ≢ l → n ≢ q → Inserted m (push_front m l n) l n q
unfolding push_front
push_front-Inserted m l n q e nl nq = record {
  next_before = ground arith;
  prev_after = ground arith;
  next_new = ground arith;
  prev_new = ground arith;
  other_next = λ x xp xn. ground arith;
  other_prev = λ x xq xn. ground arith;
}

push_back-Inserted :
    (m : Store) (l n p : ℕ)
    → m.prev l ≡ p
    → (m.next l ≡ l → p ≡ l)
    → n ≢ l
    → n ≢ p
    → Inserted m (push_back m l n) p n l
unfolding push_back
push_back-Inserted m l n p e alone nl np = record {
  next_before = ground arith;
  prev_after = ground arith;
  next_new = ground arith;
  prev_new = ground arith;
  other_next = λ x xp xn. ground arith;
  other_prev = λ x xq xn. ground arith;
}

Distinct-insert : (xs : List ℕ) (n : ℕ) → Distinct xs → NotIn n xs → Distinct (xs ++ n ∷ [])
Distinct-insert [] n d h = (tt, tt)
Distinct-insert (x ∷ xs) n (hx, d) (nx, h) =
    (NotIn-append x xs (n ∷ []) hx ((λ e. nx (sym e)), tt), Distinct-insert xs n d h)

-- `List_init` and `List_empty` make the list that holds no node, whatever the store held, and
-- `List_isEmpty` then answers true.
pub init-IsList :
    (m : Store) (list : ℕ)
    → list ≢ null
    → IsList (init m list) list []
      × IsList (empty m list) list []
      × (is_empty (init m list) list ≡ true)
unfolding init empty
init-IsList m l ne = (none_in, none_in, ground arith)
  where
    none_in : IsList (set_prev (set_next m l l) l l) l []
    none_in = record {
      circle = (ground arith, ground arith);
      apart = tt;
      distinct = tt;
      not_null = ((λ e. ne (sym e)), tt);
    }

-- `List_isEmpty` answers true on a list exactly when it holds no node.
pub is_empty-IsList :
    (m : Store) (list : ℕ) (xs : List ℕ)
    → IsList m list xs
    → is_empty m list ≡ (if length xs == 0 then true else false)
is_empty-IsList m l [] h = ground (arith, h.circle)
is_empty-IsList m l (x ∷ xs) h = ground (arith, h.circle, h.apart)

-- `List_pushFront` puts a node that is not NULL, not the head and not yet in the list in front of
-- all others.
pub push_front-IsList :
    (m : Store) (list node : ℕ) (xs : List ℕ)
    → IsList m list xs
    → node ≢ null
    → node ≢ list
    → NotIn node xs
    → IsList (push_front m list node) list (node ∷ xs)
push_front-IsList m l n xs h nn nl new = record {
  circle =
      Links-Inserted m (push_front m l n) l n [] xs l
        (push_front-Inserted m l n (first_of xs l) (Links-ends m l xs l h.circle).0 nl
          (first_of-ne n l xs nl new))
        h.circle h.apart h.distinct h.apart nl nl new;
  apart = ((λ e. nl (sym e)), h.apart);
  distinct = (new, h.distinct);
  not_null = (h.not_null.0, ((λ e. nn (sym e)), h.not_null.1));
}

-- `List_pushBack` puts a node that is not NULL, not the head and not yet in the list behind all
-- others.
pub push_back-IsList :
    (m : Store) (list node : ℕ) (xs : List ℕ)
    → IsList m list xs
    → node ≢ null
    → node ≢ list
    → NotIn node xs
    → IsList (push_back m list node) list (xs ++ node ∷ [])
push_back-IsList m l n xs h nn nl new = record {
  circle =
      Links-Inserted m (push_back m l n) l n xs [] l
        (push_back-Inserted m l n (last_of l xs) (Links-ends m l xs l h.circle).1 (alone xs h) nl
          (last_of-ne n l xs nl new))
        (rw append-nil h.circle) (rw append-nil h.apart) (rw append-nil h.distinct)
        (rw append-nil h.apart) nl nl (rw append-nil new);
  apart = NotIn-append l xs (n ∷ []) h.apart ((λ e. nl (sym e)), tt);
  distinct = Distinct-insert xs n h.distinct new;
  not_null = (h.not_null.0, NotIn-append null xs (n ∷ []) h.not_null.1 ((λ e. nn (sym e)), tt));
}
  where
    alone : (xs : List ℕ) → IsList m l xs → m.next l ≡ l → last_of l xs ≡ l
    alone [] h e = refl
    alone (x ∷ xs) h e = absurd (h.apart.0 (sym e ∙ h.circle.0))
