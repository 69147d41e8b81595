-- ===== src/Printf/Bounded.antt =====
-- What vsnprintf_internal writes stays in its buffer.
use native.Mathlib.Nat.{pow-succ', pow-le-pow_right}
use mug_os.Base.{
  ℕ, suc, ◌-◌, ◌^◌, ◌≤◌, ◌<◌, ◌≡◌, ◌⊎◌, inl, inr, refl, arith, Bool, true, false, ◌&&◌, List, [],
  ◌∷◌, none, some, ◌==◌, if◌then◌else◌, switch, if-elim,
}
use mug_os.Printf.Spec.{
  SpecifierState, is_negative, Length, default_length, short_short, short, long, long_long,
}
use mug_os.Printf.Machine.{
  State, state_normal, state_flags, state_width, state_precision_sep, state_precision, state_length,
  state_length_short, state_length_long, state_spec, Machine, Piece, nothing, char, text, integer,
  first_arg, other_args, is_digit, with_digit, after_spec, conversions, convert, int_arg,
  number_arg, at_number, at_spec, at_length, at_length_short, at_length_long, at_precision,
  at_precision_sep, at_width, at_flags, at_normal, dispatch, advance,
}
use mug_os.Printf.Paddings.{IsModest}
use mug_os.Printf.Digits.{IsRadix}

-- What the width and the precision are below, after that many digits in a row.
unfoldable pub width_bound : State → ℕ → ℕ
width_bound state_normal k = 1
width_bound state_flags k = 1
width_bound state_width k = 10 ^ k
width_bound state_precision_sep k = 10 ^ 9
width_bound state_precision k = 10 ^ 9
width_bound state_length k = 10 ^ 9
width_bound state_length_short k = 10 ^ 9
width_bound state_length_long k = 10 ^ 9
width_bound state_spec k = 10 ^ 9

unfoldable pub precision_bound : State → ℕ → ℕ
precision_bound state_normal k = 10 ^ 9
precision_bound state_flags k = 10 ^ 9
precision_bound state_width k = 10 ^ 9
precision_bound state_precision_sep k = 10 ^ 9
precision_bound state_precision k = 10 ^ k
precision_bound state_length k = 10 ^ 9
precision_bound state_length_short k = 10 ^ 9
precision_bound state_length_long k = 10 ^ 9
precision_bound state_spec k = 10 ^ 9

-- One of the radices, and a sign that is an ASCII char.
unfoldable pub IsPrintable : ℕ → ℕ → Type 0
IsPrintable radix sign = IsRadix radix × (sign < 128)

-- Whether there may be no precision.
unfoldable pub may_lack : State → Bool
may_lack state_normal = true
may_lack state_flags = true
may_lack state_width = true
may_lack state_precision_sep = true
may_lack state_precision = false
may_lack state_length = true
may_lack state_length_short = true
may_lack state_length_long = true
may_lack state_spec = true

abbrev pub Below : SpecifierState → ℕ → ℕ → Bool → Type 0
Below spec w p lacks =
    (spec.width < w)
    × ((spec.precision < p) ⊎ ((lacks ≡ true) × (spec.precision ≡ 2 ^ 64 - 1)))
    × IsPrintable spec.radix spec.sign

-- Between two chars of a format.
abbrev pub Fits : Machine → ℕ → Type 0
Fits m k = Below m.spec (width_bound m.state k) (precision_bound m.state k) (may_lack m.state)

-- A number that can be printed.
unfoldable pub PieceFits : Piece → Type 0
PieceFits nothing = Unit {0}
PieceFits (char c) = Unit {0}
PieceFits (text pointer) = Unit {0}
PieceFits (integer spec number) =
    IsModest spec × IsPrintable spec.radix spec.sign × (number < 2 ^ 64)

abbrev Good : ℕ → Machine × Piece → Type 0
Good k next = Fits next.0 k × PieceFits next.1

pub fresh-Fits : (args : List ℕ) (k : ℕ) → Fits (after_spec args) k
unfolding width_bound precision_bound may_lack IsRadix IsPrintable
fresh-Fits args k = (omega arith, inr (refl, refl), (inr (inl refl), omega arith))

split_elim {ℓ} :
    {A : Type ℓ} (P : A → Type 0) (b : Bool) (s t : A)
    → P s
    → P t
    → P (elim b [ true ↦ s | false ↦ t ])
split_elim P true s t ps pt = ps
split_elim P false s t ps pt = pt

-- A switch gives the value of a row, or the default.
abbrev AllRows {ℓ} : {A : Type ℓ} → (A → Type 0) → A → List (ℕ × A) → Type 0
AllRows P default [] = P default
AllRows P default ((k, a) ∷ rows) = P a × AllRows P default rows

switch-all {ℓ} :
    {A : Type ℓ} (P : A → Type 0) (n : ℕ) (default : A) (rows : List (ℕ × A))
    → AllRows P default rows
    → P (switch n default rows)
unfolding switch
switch-all P n default [] all = all
switch-all P n default ((k, a) ∷ rows) all =
    split_elim P (n == k) a (switch n default rows) all.0 (switch-all P n default rows all.1)

power-pos : (k : ℕ) → 0 < 10 ^ k
power-pos k = omega (arith, pow-le-pow_right {n = 10} (omega arith) {i = 0} {j = k} (omega arith))

number_arg-lt : (size : Length) (s : Bool) (arg : ℕ) → number_arg size s arg < 2 ^ 64
unfolding number_arg int_arg
number_arg-lt default_length s arg = ground arith
number_arg-lt short_short s arg = ground arith
number_arg-lt short s arg = ground arith
number_arg-lt long s arg = ground arith
number_arg-lt long_long s arg = ground arith

small-IsModest : (spec : SpecifierState) → Below spec (10 ^ 9) (10 ^ 9) true → IsModest spec
unfolding IsModest
small-IsModest spec below = (omega (arith, below.0), ground (arith, below.1))

nothing-Good : (args : List ℕ) (k : ℕ) → Good k (at_number args none)
unfolding at_number PieceFits
nothing-Good args k = (fresh-Fits args k, tt)

number-Good :
    (args : List ℕ) (k : ℕ) (spec : SpecifierState)
    → Below spec (10 ^ 9) (10 ^ 9) true
    → Good k (at_number args (some spec))
unfolding at_number PieceFits
number-Good args k spec below = (
  fresh-Fits (other_args args) k,
  (small-IsModest spec below, below.2, number_arg-lt spec.size spec.number_signed (first_arg args)),
)

char-Good : (args : List ℕ) (c k : ℕ) → Good k (after_spec args, char c)
unfolding PieceFits
char-Good args c k = (fresh-Fits args k, tt)

text-Good : (args : List ℕ) (c k : ℕ) → Good k (after_spec args, text c)
unfolding PieceFits
text-Good args c k = (fresh-Fits args k, tt)

convert-Good :
    (spec : SpecifierState) (args : List ℕ) (c k : ℕ)
    → Below spec (10 ^ 9) (10 ^ 9) true
    → Good k (at_number args (convert spec c))
unfolding convert IsRadix IsPrintable
convert-Good spec args c k below =
    switch-all (λ o. Good k (at_number args o)) c none (conversions spec)
      (
        number-Good args k _ (below.0, below.1, (inr (inr refl), omega arith)),
        (
          number-Good args k _ (below.0, below.1, (inr (inl refl), below.2.1)),
          (
            number-Good args k _ (below.0, below.1, (inr (inl refl), below.2.1)),
            (
              number-Good args k _ (below.0, below.1, (inl refl, below.2.1)),
              (
                number-Good args k _ (below.0, below.1, (inr (inr refl), omega arith)),
                (
                  number-Good args k _ (below.0, below.1, (inr (inl refl), below.2.1)),
                  (
                    number-Good args k _ (below.0, below.1, (inr (inr refl), omega arith)),
                    nothing-Good args k,
                  ),
                ),
              ),
            ),
          ),
        ),
      )

spec-Good :
    (spec : SpecifierState) (args : List ℕ) (c k : ℕ)
    → Below spec (10 ^ 9) (10 ^ 9) true
    → Good k (at_spec spec args c)
unfolding at_spec
spec-Good spec args c k below =
    if-elim (Good k) (c == b'%') _ _ (λ e. char-Good args _ k)
      (λ e.
        if-elim (Good k) (c == b'c') _ _ (λ e. char-Good (other_args args) _ k)
          (λ e.
            if-elim (Good k) (c == b's') _ _ (λ e. text-Good (other_args args) _ k)
              (λ e. convert-Good spec args c k below)))

module _ (spec : SpecifierState) (args : List ℕ) (c k : ℕ)
    (below : Below spec (10 ^ 9) (10 ^ 9) true) where
  length-Good : Good k (at_length spec args c)
  unfolding at_length PieceFits width_bound precision_bound may_lack
  length-Good =
      if-elim (Good k) (c == b'h') _ _ (λ e. (below, tt))
        (λ e.
          if-elim (Good k) (c == b'l') _ _ (λ e. (below, tt)) (λ e. spec-Good spec args c k below))

  length_short-Good : Good k (at_length_short spec args c)
  unfolding at_length_short PieceFits width_bound precision_bound may_lack
  length_short-Good =
      if-elim (Good k) (c == b'h') _ _ (λ e. (below, tt)) (λ e. spec-Good spec args c k below)

  length_long-Good : Good k (at_length_long spec args c)
  unfolding at_length_long PieceFits width_bound precision_bound may_lack
  length_long-Good =
      if-elim (Good k) (c == b'l') _ _ (λ e. (below, tt)) (λ e. spec-Good spec args c k below)

  precision_sep-Good : Good k (at_precision_sep spec args c)
  unfolding at_precision_sep PieceFits width_bound precision_bound may_lack
  precision_sep-Good =
      if-elim (Good k) (c == b'.') _ _ (λ e. ((below.0, inl (power-pos k), below.2), tt))
        (λ e. length-Good)

-- How many digits in a row there are after a char.
abbrev pub next_run : ℕ → ℕ → ℕ
next_run k c = if is_digit c then suc k else 0

with_digit-lt :
    (value w c : ℕ)
    → value < 10 ^ w
    → is_digit c ≡ true
    → w < 9
    → with_digit value c < 10 ^ next_run w c
with_digit-lt value w c lt digit few =
    let power = pow-le-pow_right {n = 10} (omega arith) {i = suc w} {j = 9} (omega arith) in
    let up = pow-succ' 10 w in ground arith

module _ (spec : SpecifierState) (args : List ℕ) (c k : ℕ) (no_star : c == b'*' ≡ false)
    (few : is_digit c ≡ true → k < 9) where
  width-Good :
      Below spec (10 ^ k) (10 ^ 9) true → k ≤ 9 → Good (next_run k c) (at_width spec args c)
  unfolding at_width PieceFits width_bound precision_bound may_lack
  width-Good below le =
      let most = pow-le-pow_right {n = 10} (omega arith) {i = k} {j = 9} le in
      if-elim (Good (next_run k c)) (c == b'*') _ _ (λ e. absurd (ground arith))
        (λ e.
          if-elim (Good (next_run k c)) (is_digit c) _ _
            (λ digit.
              ((with_digit-lt spec.width k c below.0 digit (few digit), below.1, below.2), tt))
            (λ e.
              precision_sep-Good spec args c (next_run k c)
                (omega (arith, below.0), below.1, below.2)))

  precision-Good :
      Below spec (10 ^ 9) (10 ^ k) false
      → k ≤ 9
      → Good (next_run k c) (at_precision true spec args c)
  unfolding at_precision PieceFits width_bound precision_bound may_lack
  precision-Good below le =
      let most = pow-le-pow_right {n = 10} (omega arith) {i = k} {j = 9} le in
      let power = power-pos k in
      let start = if true && is_negative spec.precision then 0 else spec.precision in
      if-elim (Good (next_run k c)) (c == b'*') _ _ (λ e. absurd (ground arith))
        (λ e.
          if-elim (Good (next_run k c)) (is_digit c) _ _
            (λ digit. (
              (below.0, inl (with_digit-lt start k c (ground arith) digit (few digit)), below.2),
              tt,
            ))
            (λ e. length-Good spec args c (next_run k c) (below.0, ground arith, below.2)))

  flags-Good : Below spec 1 (10 ^ 9) true → k ≤ 9 → Good (next_run k c) (at_flags spec args c)
  unfolding at_flags IsPrintable PieceFits width_bound precision_bound may_lack
  flags-Good below le =
      if-elim (Good (next_run k c)) (c == b' ') _ _
        (λ e. ((below.0, below.1, (below.2.0, omega arith)), tt))
        (λ e.
          if-elim (Good (next_run k c)) (c == b'#') _ _ (λ e. (below, tt))
            (λ e.
              if-elim (Good (next_run k c)) (c == b'+') _ _
                (λ e. ((below.0, below.1, (below.2.0, omega arith)), tt))
                (λ e.
                  if-elim (Good (next_run k c)) (c == b'-') _ _ (λ e. (below, tt))
                    (λ e.
                      if-elim (Good (next_run k c)) (c == b'0') _ _ (λ e. (below, tt))
                        (λ e.
                          width-Good (omega (arith, below.0, power-pos k), below.1, below.2) le)))))

  normal-Good : Below spec 1 (10 ^ 9) true → Good (next_run k c) (at_normal spec args c)
  unfolding at_normal PieceFits width_bound precision_bound may_lack
  normal-Good below =
      if-elim (Good (next_run k c)) (c == b'%') _ _ (λ e. (below, tt)) (λ e. (below, tt))

  dispatch-Good :
      (state : State)
      → Below spec (width_bound state k) (precision_bound state k) (may_lack state)
      → k ≤ 9
      → Good (next_run k c) (dispatch true state spec args c)
  unfolding dispatch width_bound precision_bound may_lack
  dispatch-Good state_normal below le = normal-Good below
  dispatch-Good state_flags below le = flags-Good below le
  dispatch-Good state_width below le = width-Good below le
  dispatch-Good state_precision_sep below le = precision_sep-Good spec args c (next_run k c) below
  dispatch-Good state_precision below le = precision-Good below le
  dispatch-Good state_length below le = length-Good spec args c (next_run k c) below
  dispatch-Good state_length_short below le = length_short-Good spec args c (next_run k c) below
  dispatch-Good state_length_long below le = length_long-Good spec args c (next_run k c) below
  dispatch-Good state_spec below le = spec-Good spec args c (next_run k c) below

pub advance-Fits :
    (m : Machine) (c k : ℕ)
    → Fits m k
    → k ≤ 9
    → c == b'*' ≡ false
    → (is_digit c ≡ true → k < 9)
    → Good (next_run k c) (advance true m c)
unfolding advance
advance-Fits m c k fits le no_star few = dispatch-Good m.spec m.args c k no_star few m.state fits le

dispatch-same :
    (state : State) (spec : SpecifierState) (args : List ℕ) (c k : ℕ)
    → Below spec (width_bound state k) (precision_bound state k) (may_lack state)
    → k ≤ 9
    → dispatch false state spec args c ≡ dispatch true state spec args c
unfolding dispatch precision_bound may_lack at_precision
dispatch-same state_normal spec args c k below le = refl
dispatch-same state_flags spec args c k below le = refl
dispatch-same state_width spec args c k below le = refl
dispatch-same state_precision_sep spec args c k below le = refl
dispatch-same state_precision spec args c k below le =
    let most = pow-le-pow_right {n = 10} (omega arith) {i = k} {j = 9} le in
    let there : is_negative spec.precision ≡ false = ground arith in rw (there) refl
dispatch-same state_length spec args c k below le = refl
dispatch-same state_length_short spec args c k below le = refl
dispatch-same state_length_long spec args c k below le = refl
dispatch-same state_spec spec args c k below le = refl

-- Both functions read a char the same way then.
pub advance-same : (m : Machine) (c k : ℕ) → Fits m k → k ≤ 9 → advance false m c ≡ advance true m c
unfolding advance
advance-same m c k fits le = dispatch-same m.state m.spec m.args c k fits le
