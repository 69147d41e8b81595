-- ===== src/LinkedList/Links.antt =====
-- Chains of nodes that point at one another both ways.
use mug_os.Base.{ℕ, ◌≡◌, ◌≢◌, List, [], ◌∷◌, ◌++◌, ◌∙◌}
use mug_os.LinkedList.{Store, null}

-- `a` is not among `xs`; the members of `xs` differ.
abbrev pub NotIn : ℕ → List ℕ → Type 0
NotIn a [] = Unit {0}
NotIn a (x ∷ xs) = (a ≢ x) × NotIn a xs

abbrev pub Distinct : List ℕ → Type 0
Distinct [] = Unit {0}
Distinct (x ∷ xs) = NotIn x xs × Distinct xs

-- From `a` the nodes `xs` lead to `z` by `next`, and back by `prev`.
abbrev pub Links : Store → ℕ → List ℕ → ℕ → Type 0
Links m a [] z = (m.next a ≡ z) × (m.prev z ≡ a)
Links m a (x ∷ xs) z = (m.next a ≡ x) × (m.prev x ≡ a) × Links m x xs z

-- The list at `list` holds the nodes `xs` in order: a circle through the head, of different nodes
-- other than the head and NULL.
pub record IsList (m : Store) (list : ℕ) (xs : List ℕ) : Type 0 where
  pub circle : Links m list xs list
  pub apart : NotIn list xs
  pub distinct : Distinct xs
  pub not_null : NotIn null (list ∷ xs)

-- Two stores agree on both fields of the nodes `xs`.
abbrev pub Same : Store → Store → List ℕ → Type 0
Same n m [] = Unit {0}
Same n m (x ∷ xs) = (n.next x ≡ m.next x) × (n.prev x ≡ m.prev x) × Same n m xs

-- A chain survives a change that spares the fields which it reads.
pub frame :
    (m n : Store) (a : ℕ) (xs : List ℕ) (z : ℕ)
    → Links m a xs z
    → n.next a ≡ m.next a
    → n.prev z ≡ m.prev z
    → Same n m xs
    → Links n a xs z
frame m n a [] z (f, b) na pz keep = (na ∙ f, pz ∙ b)
frame m n a (x ∷ xs) z (f, b, rest) na pz (nx, px, keep) =
    (na ∙ f, px ∙ b, frame m n x xs z rest nx pz keep)

pub NotIn-append : (a : ℕ) (xs ys : List ℕ) → NotIn a xs → NotIn a ys → NotIn a (xs ++ ys)
NotIn-append a [] ys h k = k
NotIn-append a (x ∷ xs) ys (ne, h) k = (ne, NotIn-append a xs ys h k)

pub NotIn-parts : (a : ℕ) (xs ys : List ℕ) → NotIn a (xs ++ ys) → NotIn a xs × NotIn a ys
NotIn-parts a [] ys h = (tt, h)
NotIn-parts a (x ∷ xs) ys (ne, h) = let (p, q) = NotIn-parts a xs ys h in ((ne, p), q)

-- The last of `a ∷ xs`, and the first of `ys` before `z`.
abbrev pub last_of : ℕ → List ℕ → ℕ
last_of a [] = a
last_of a (x ∷ xs) = last_of x xs

abbrev pub first_of : List ℕ → ℕ → ℕ
first_of [] z = z
first_of (y ∷ ys) z = y

pub last_of-ne : (n a : ℕ) (xs : List ℕ) → n ≢ a → NotIn n xs → n ≢ last_of a xs
last_of-ne n a [] ne h = ne
last_of-ne n a (x ∷ xs) ne (nx, h) = last_of-ne n x xs nx h

pub first_of-ne : (n z : ℕ) (ys : List ℕ) → n ≢ z → NotIn n ys → n ≢ first_of ys z
first_of-ne n z [] ne h = ne
first_of-ne n z (y ∷ ys) ne (ny, h) = ny

-- What the fields around a place in the chain hold.
pub Links-ends :
    (m : Store) (a : ℕ) (xs : List ℕ) (z : ℕ)
    → Links m a xs z
    → (m.next a ≡ first_of xs z) × (m.prev z ≡ last_of a xs)
Links-ends m a [] z (f, b) = (f, b)
Links-ends m a (x ∷ xs) z (f, b, rest) = (f, (Links-ends m x xs z rest).1)

pub Links-cut :
    (m : Store) (a : ℕ) (xs : List ℕ) (n : ℕ) (ys : List ℕ) (z : ℕ)
    → Links m a (xs ++ n ∷ ys) z
    → Links m a xs n × Links m n ys z
Links-cut m a [] n ys z (f, b, rest) = ((f, b), rest)
Links-cut m a (x ∷ xs) n ys z (f, b, rest) =
    let (left, right) = Links-cut m x xs n ys z rest in ((f, b, left), right)

pub Links-join :
    (m : Store) (a : ℕ) (xs : List ℕ) (n : ℕ) (ys : List ℕ) (z : ℕ)
    → Links m a xs n
    → Links m n ys z
    → Links m a (xs ++ n ∷ ys) z
Links-join m a [] n ys z (f, b) right = (f, b, right)
Links-join m a (x ∷ xs) n ys z (f, b, left) right = (f, b, Links-join m x xs n ys z left right)

-- Two chains that meet between nodes, for a list that is cut anywhere.
pub Links-bridge :
    (m : Store) (a : ℕ) (xs ys : List ℕ) (z : ℕ)
    → Links m a (xs ++ ys) z
    → (m.next (last_of a xs) ≡ first_of ys z) × (m.prev (first_of ys z) ≡ last_of a xs)
Links-bridge m a [] [] z (f, b) = (f, b)
Links-bridge m a [] (y ∷ ys) z (f, b, rest) = (f, b)
Links-bridge m a (x ∷ xs) ys z (f, b, rest) = Links-bridge m x xs ys z rest
