-- ===== src/LinkedList/Remove.antt =====
-- A node taken out from between its neighbours.
use mug_os.Base.{ℕ, ◌≡◌, ◌≢◌, List, [], ◌∷◌, ◌++◌, sym, ◌∙◌}
use mug_os.LinkedList.{Store, null}
use mug_os.LinkedList.Links.{
  NotIn, NotIn-parts, Distinct, Links, Same, frame, last_of, first_of, last_of-ne, first_of-ne,
}

-- `m'` is `m` without `n` between `p` and `q`; the links of `n` are NULL.
pub record Removed (m m' : Store) (p n q : ℕ) : Type 0 where
  pub next_before : m'.next p ≡ q
  pub prev_after : m'.prev q ≡ p
  pub next_old : m'.next n ≡ null
  pub prev_old : m'.prev n ≡ null
  pub other_next : (x : ℕ) → x ≢ p → x ≢ n → m'.next x ≡ m.next x
  pub other_prev : (x : ℕ) → x ≢ q → x ≢ n → m'.prev x ≡ m.prev x

module _ (m m' : Store) (p n q : ℕ) (r : Removed m m' p n q) where
  Same-Removed : (xs : List ℕ) → NotIn p xs → NotIn n xs → NotIn q xs → Same m' m xs
  Same-Removed [] hp hn hq = tt
  Same-Removed (x ∷ xs) (px, hp) (nx, hn) (qx, hq) = (
    r.other_next x (λ e. px (sym e)) (λ e. nx (sym e)),
    r.other_prev x (λ e. qx (sym e)) (λ e. nx (sym e)),
    Same-Removed xs hp hn hq,
  )

Links-tail_Removed :
    (m m' : Store) (a n : ℕ) (ys : List ℕ) (z : ℕ)
    → Removed m m' a n (first_of ys z)
    → Links m n ys z
    → NotIn a ys
    → Distinct ys
    → NotIn z ys
    → n ≢ z
    → NotIn n ys
    → Links m' a ys z
Links-tail_Removed m m' a n [] z r l ha d hz nz hn = (r.next_before, r.prev_after)
Links-tail_Removed m m' a n (y ∷ ys) z r (f, b, rest) (ay, ha) (hy, d) (zy, hz) nz (ny, hn) = (
  r.next_before,
  r.prev_after,
  frame m m' y ys z rest (r.other_next y (λ e. ay (sym e)) (λ e. ny (sym e)))
      (r.other_prev z zy (λ e. nz (sym e))) (Same-Removed m m' a n y r ys ha hn hy),
)

-- The chain without the node, for a node anywhere in it.
pub Links-Removed :
    (m m' : Store) (a n : ℕ) (xs ys : List ℕ) (z : ℕ)
    → Removed m m' (last_of a xs) n (first_of ys z)
    → Links m a (xs ++ n ∷ ys) z
    → NotIn a (xs ++ ys)
    → Distinct (xs ++ ys)
    → NotIn z (xs ++ ys)
    → n ≢ a
    → n ≢ z
    → NotIn n (xs ++ ys)
    → Links m' a (xs ++ ys) z
Links-Removed m m' a n [] ys z r (f, b, rest) ha d hz na nz hn =
    Links-tail_Removed m m' a n ys z r rest ha d hz nz hn
Links-Removed m m' a n (x ∷ xs) ys z r (f, b, rest) (ax, ha) (hx, d) (zx, hz) na nz (nx, hn) =
    let (x_left, x_right) = NotIn-parts x xs ys hx in
    let (a_left, a_right) = NotIn-parts a xs ys ha in
    (
      r.other_next a (last_of-ne a x xs ax a_left) (λ e. na (sym e)) ∙ f,
      r.other_prev x (first_of-ne x z ys (λ e. zx (sym e)) x_right) (λ e. nx (sym e)) ∙ b,
      Links-Removed m m' x n xs ys z r rest hx d hz nx nz hn,
    )
