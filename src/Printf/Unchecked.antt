-- ===== src/Printf/Unchecked.antt =====
-- What snprintf writes in full is what sprintf writes.
use mug_os.Base.{
  ℕ, ◌+◌, ◌≡◌, refl, ap, sym, ◌∙◌, arith, Bool, true, false, ◌&&◌, List, [], ◌∷◌, ◌++◌, some, ◌==◌,
  if◌then◌else◌, length,
}
use mug_os.Printf.Machine.{Machine, Piece, nothing, char, text, integer, after_spec, advance}
use mug_os.Printf.Memory.{
  is_boundary_exceeded, Written, unless_exceeded, null_text, put_text, put_piece, vsnprintf_loop,
  Outcome, invalid, finished, end, vsnprintf_internal, sprintf, snprintf,
}

-- A choice of what is written.
abbrev choice : Bool → Written → Written → Written
choice b x y = if b then x else y

went_on : (b : Bool) (x : Written) (cs : List ℕ) → (choice b x (cs, false)).1 ≡ true → b ≡ true
went_on true x cs done = refl
went_on false x cs done = done

cons-same :
    (stops : Bool) (c : ℕ) (rest others : Written)
    → (rest.1 ≡ true → rest ≡ others)
    → (choice stops ([], false) (c ∷ rest.0, rest.1)).1 ≡ true
    → choice stops ([], false) (c ∷ rest.0, rest.1) ≡ (c ∷ others.0, others.1)
cons-same true c rest others same done = absurd (ground arith)
cons-same false c rest others same done = ap (λ r. (c ∷ r.0, r.1)) (same done)

put_text-same :
    (size other printed : ℕ) (cs : List ℕ)
    → (put_text size true printed cs).1 ≡ true
    → put_text size true printed cs ≡ put_text other false printed cs
unfolding put_text
put_text-same size other printed [] done = refl
put_text-same size other printed (c ∷ cs) done =
    cons-same (is_boundary_exceeded size (printed + 1) true) c _ _
      (put_text-same size other (printed + 1) cs) done

unless_exceeded-same :
    (exceeded : Bool) (cs : List ℕ)
    → (unless_exceeded exceeded cs).1 ≡ true
    → unless_exceeded exceeded cs ≡ (cs, true)
unless_exceeded-same true cs done = absurd (ground arith)
unless_exceeded-same false cs done = refl

choice-same :
    (b : Bool) (x x2 y y2 : Written)
    → (x.1 ≡ true → x ≡ x2)
    → (y.1 ≡ true → y ≡ y2)
    → (choice b x y).1 ≡ true
    → (if b then x else y) ≡ (if b then x2 else y2)
choice-same true x x2 y y2 f g done = f done
choice-same false x x2 y y2 f g done = g done

put_piece-same :
    (string_at : ℕ → List ℕ) (size other printed : ℕ) (piece : Piece)
    → (put_piece string_at size true printed piece).1 ≡ true
    → put_piece string_at size true printed piece ≡ put_piece string_at other false printed piece
unfolding put_piece
put_piece-same string_at size other printed nothing done = refl
put_piece-same string_at size other printed (char c) done = unless_exceeded-same _ _ done
put_piece-same string_at size other printed (text pointer) done =
    choice-same (pointer == 0) _ _ _ _
      (unless_exceeded-same (is_boundary_exceeded size (printed + 6) true) null_text)
      (put_text-same size other printed (string_at pointer)) done
put_piece-same string_at size other printed (integer spec number) done =
    unless_exceeded-same _ _ done

-- What follows a piece.
abbrev followed : Written → (ℕ → Written) → ℕ → Written
followed out rest printed =
    let after = rest (printed + length out.0) in
    if out.1 then (out.0 ++ after.0, after.1) else (out.0, false)

append-same :
    (goes_on : Bool) (cs : List ℕ) (x y : Written)
    → (x.1 ≡ true → x ≡ y)
    → (choice goes_on (cs ++ x.0, x.1) (cs, false)).1 ≡ true
    → choice goes_on (cs ++ x.0, x.1) (cs, false) ≡ choice goes_on (cs ++ y.0, y.1) (cs, false)
append-same true cs x y same done = ap (λ r. (cs ++ r.0, r.1)) (same done)
append-same false cs x y same done = refl

followed-same :
    (out : Written) (rest others : ℕ → Written) (printed : ℕ)
    → ((rest (printed + length out.0)).1 ≡ true
        → rest (printed + length out.0) ≡ others (printed + length out.0))
    → (followed out rest printed).1 ≡ true
    → followed out rest printed ≡ followed out others printed
followed-same out rest others printed same done =
    append-same out.1 out.0 (rest (printed + length out.0)) (others (printed + length out.0)) same
      done

loop-same :
    (string_at : ℕ → List ℕ) (size other : ℕ) (m : Machine) (printed : ℕ) (format : List ℕ)
    → (vsnprintf_loop string_at size true m printed format).1 ≡ true
    → vsnprintf_loop string_at size true m printed format
      ≡ vsnprintf_loop string_at other false m printed format
unfolding vsnprintf_loop
loop-same string_at size other m printed [] done = refl
loop-same string_at size other m printed (c ∷ format) done =
    let next = advance true m c in
    let out = put_piece string_at size true printed next.1 in
    let out2 = put_piece string_at other false printed next.1 in
    let rest : ℕ → Written = λ n. vsnprintf_loop string_at size true next.0 n format in
    let others : ℕ → Written = λ n. vsnprintf_loop string_at other false next.0 n format in
    let same : put_piece string_at size true printed next.1
        ≡ put_piece string_at other false printed next.1 =
      put_piece-same string_at size other printed next.1 (went_on out.1 _ _ done) in
    let after = loop-same string_at size other next.0 (printed + length out.0) format in
    followed-same out rest others printed after done ∙ ap (λ o. followed o others printed) same

not_invalid :
    (b : Bool) (outcome : Outcome) (cs : List ℕ)
    → (if b then invalid 1 else outcome) ≡ finished cs
    → outcome ≡ finished cs
not_invalid true outcome cs done = absurd (ground arith)
not_invalid false outcome cs done = done

end-done : (written : Written) (cs : List ℕ) → end written ≡ finished cs → written.1 ≡ true
end-done (ds, true) cs done = refl
end-done (ds, false) cs done = absurd (ground arith)

-- When snprintf returns the number of chars, sprintf writes the same chars, to a buffer that has room
-- for them.
pub snprintf-sprintf :
    (string_at : ℕ → List ℕ) (size : ℕ) (format args cs : List ℕ)
    → snprintf string_at false size (some format) args ≡ finished cs
    → sprintf string_at false (some format) args ≡ finished cs
unfolding vsnprintf_internal
snprintf-sprintf string_at size format args cs done =
    let checked = vsnprintf_loop string_at size true (after_spec args) 0 format in
    let done_end = not_invalid (true && (size == 0)) (end checked) cs done in
    let same =
      loop-same string_at size 0 (after_spec args) 0 format (end-done checked cs done_end) in
    sym (ap end same) ∙ done_end
