-- ===== src/LinkedList/Insert.antt =====
-- A node put between two neighbours.
use mug_os.Base.{ℕ, ◌≡◌, ◌≢◌, List, [], ◌∷◌, ◌++◌, sym, ◌∙◌}
use mug_os.LinkedList.{Store}
use mug_os.LinkedList.Links.{
  NotIn, NotIn-parts, Distinct, Links, Same, frame, last_of, first_of, last_of-ne, first_of-ne,
}

-- `m'` is `m` with `n` between `p` and `q`.
pub record Inserted (m m' : Store) (p n q : ℕ) : Type 0 where
  pub next_before : m'.next p ≡ n
  pub prev_after : m'.prev q ≡ n
  pub next_new : m'.next n ≡ q
  pub prev_new : m'.prev n ≡ p
  pub other_next : (x : ℕ) → x ≢ p → x ≢ n → m'.next x ≡ m.next x
  pub other_prev : (x : ℕ) → x ≢ q → x ≢ n → m'.prev x ≡ m.prev x

module _ (m m' : Store) (p n q : ℕ) (ins : Inserted m m' p n q) where
  Same-Inserted : (xs : List ℕ) → NotIn p xs → NotIn n xs → NotIn q xs → Same m' m xs
  Same-Inserted [] hp hn hq = tt
  Same-Inserted (x ∷ xs) (px, hp) (nx, hn) (qx, hq) = (
    ins.other_next x (λ e. px (sym e)) (λ e. nx (sym e)),
    ins.other_prev x (λ e. qx (sym e)) (λ e. nx (sym e)),
    Same-Inserted xs hp hn hq,
  )

-- At the front of a chain.
Links-cons_Inserted :
    (m m' : Store) (a n : ℕ) (ys : List ℕ) (z : ℕ)
    → Inserted m m' a n (first_of ys z)
    → Links m a ys z
    → NotIn a ys
    → Distinct ys
    → NotIn z ys
    → n ≢ a
    → n ≢ z
    → NotIn n ys
    → Links m' a (n ∷ ys) z
Links-cons_Inserted m m' a n [] z i l ha d hz na nz hn =
    (i.next_before, i.prev_new, (i.next_new, i.prev_after))
Links-cons_Inserted m m' a n (y ∷ ys) z i (f, b, rest) (ay, ha) (hy, d) (zy, hz) na nz (ny, hn) = (
  i.next_before,
  i.prev_new,
  (
    i.next_new,
    i.prev_after,
    frame m m' y ys z rest (i.other_next y (λ e. ay (sym e)) (λ e. ny (sym e)))
        (i.other_prev z zy (λ e. nz (sym e))) (Same-Inserted m m' a n y i ys ha hn hy),
  ),
)

-- Anywhere in a chain.
pub Links-Inserted :
    (m m' : Store) (a n : ℕ) (xs ys : List ℕ) (z : ℕ)
    → Inserted m m' (last_of a xs) n (first_of ys z)
    → Links m a (xs ++ ys) z
    → NotIn a (xs ++ ys)
    → Distinct (xs ++ ys)
    → NotIn z (xs ++ ys)
    → n ≢ a
    → n ≢ z
    → NotIn n (xs ++ ys)
    → Links m' a (xs ++ n ∷ ys) z
Links-Inserted m m' a n [] ys z i l ha d hz na nz hn =
    Links-cons_Inserted m m' a n ys z i l ha d hz na nz hn
Links-Inserted m m' a n (x ∷ xs) ys z i (f, b, rest) (ax, ha) (hx, d) (zx, hz) na nz (nx, hn) =
    let (x_left, x_right) = NotIn-parts x xs ys hx in
    let (a_left, a_right) = NotIn-parts a xs ys ha in
    (
      i.other_next a (last_of-ne a x xs ax a_left) (λ e. na (sym e)) ∙ f,
      i.other_prev x (first_of-ne x z ys (λ e. zx (sym e)) x_right) (λ e. nx (sym e)) ∙ b,
      Links-Inserted m m' x n xs ys z i rest hx d hz nx nz hn,
    )
