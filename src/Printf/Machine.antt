-- ===== src/Printf/Machine.antt =====
-- Stdlib/printf.c: the state machine that reads a format, which vdprintf_internal and
-- vsnprintf_internal both contain. It is here without what a conversion writes, which is a piece.
use mug_os.Base.{
  ℕ, ◌+◌, ◌-◌, ◌*◌, ◌%◌, ◌^◌, Bool, true, false, ◌&&◌, List, [], ◌∷◌, Option, none, some, leb, ◌==◌,
  if◌then◌else◌, switch,
}
use mug_os.Printf.Spec.{
  Length, default_length, short_short, short, long, long_long, SpecifierState, fresh, is_negative,
  sign_extend,
}

-- `enum PRINTF_STATE`.
pub data State : Type 0 where
  state_normal state_flags state_width state_precision_sep state_precision : State
  state_length state_length_short state_length_long state_spec : State

-- `state`, `spec_state` and `args`. An argument is a word, for a string the pointer to it.
pub record Machine : Type 0 where
  pub state : State
  pub spec : SpecifierState
  pub args : List ℕ

-- What a char of the format gives to be written.
pub data Piece : Type 0 where
  nothing : Piece
  char : ℕ → Piece
  text : ℕ → Piece
  integer : SpecifierState → ℕ → Piece

-- `va_arg`, which without an argument is undefined and here gives 0.
unfoldable pub first_arg : List ℕ → ℕ
first_arg [] = 0
first_arg (arg ∷ args) = arg

unfoldable pub other_args : List ℕ → List ℕ
other_args [] = []
other_args (arg ∷ args) = args

abbrev pub is_digit : ℕ → Bool
is_digit c = leb b'0' c && leb c b'9'

-- `value *= 10; value += (*format - '0');`
abbrev pub with_digit : ℕ → ℕ → ℕ
with_digit value c = (value * 10 + (c - b'0')) % 2 ^ 64

-- `reset_state`.
abbrev pub after_spec : List ℕ → Machine
after_spec args = record { state = state_normal; spec = fresh; args = args }

-- The cases that print a number.
abbrev pub conversions : SpecifierState → List (ℕ × Option SpecifierState)
conversions spec =
    (b'X', some (record spec { number_signed = false; radix = 16; uppercase = true; sign = 0 }))
    ∷ (b'd', some (record spec { number_signed = true; radix = 10 }))
    ∷ (b'i', some (record spec { number_signed = true; radix = 10 }))
    ∷ (b'o', some (record spec { number_signed = false; radix = 8 }))
    ∷ (
      b'p',
      some (record spec {
        size = long_long;
        put_prefix = true;
        number_signed = false;
        radix = 16;
        sign = 0;
      }),
    )
    ∷ (b'u', some (record spec { number_signed = false; radix = 10 }))
    ∷ (b'x', some (record spec { number_signed = false; radix = 16; sign = 0; uppercase = false }))
    ∷ []

unfoldable pub convert : SpecifierState → ℕ → Option SpecifierState
convert spec c = switch c none (conversions spec)

-- `va_arg` with the type that the length and the sign select.
unfoldable pub int_arg : Bool → ℕ → ℕ
int_arg number_signed arg = if number_signed then sign_extend arg else arg % 2 ^ 32

unfoldable pub number_arg : Length → Bool → ℕ → ℕ
number_arg default_length number_signed arg = int_arg number_signed arg
number_arg short_short number_signed arg = int_arg number_signed arg
number_arg short number_signed arg = int_arg number_signed arg
number_arg long number_signed arg = arg % 2 ^ 64
number_arg long_long number_signed arg = arg % 2 ^ 64

unfoldable pub at_number : List ℕ → Option SpecifierState → Machine × Piece
at_number args none = (after_spec args, nothing)
at_number args (some spec) = (
  after_spec (other_args args),
  integer spec (number_arg spec.size spec.number_signed (first_arg args)),
)

-- `PRINTF_STATE_SPEC_`.
unfoldable pub at_spec : SpecifierState → List ℕ → ℕ → Machine × Piece
at_spec spec args c =
    if c == b'%'
    then (after_spec args, char b'%')
    else if c == b'c'
    then (after_spec (other_args args), char (first_arg args % 256))
    else if c == b's'
    then (after_spec (other_args args), text (first_arg args))
    else at_number args (convert spec c)

abbrev pub stay : State → SpecifierState → List ℕ → Machine × Piece
stay state spec args = (record { state = state; spec = spec; args = args }, nothing)

-- `PRINTF_STATE_LENGTH_`.
unfoldable pub at_length : SpecifierState → List ℕ → ℕ → Machine × Piece
at_length spec args c =
    if c == b'h'
    then stay state_length_short (record spec { size = short }) args
    else if c == b'l'
    then stay state_length_long (record spec { size = long }) args
    else at_spec spec args c

unfoldable pub at_length_short : SpecifierState → List ℕ → ℕ → Machine × Piece
at_length_short spec args c =
    if c == b'h'
    then stay state_spec (record spec { size = short_short }) args
    else at_spec spec args c

unfoldable pub at_length_long : SpecifierState → List ℕ → ℕ → Machine × Piece
at_length_long spec args c =
    if c == b'l'
    then stay state_spec (record spec { size = long_long }) args
    else at_spec spec args c

-- The digits of a precision: only vsnprintf_internal makes a negative one 0 first.
unfoldable pub at_precision : Bool → SpecifierState → List ℕ → ℕ → Machine × Piece
at_precision clamps spec args c =
    let start = if clamps && is_negative spec.precision then 0 else spec.precision in
    if c == b'*'
    then stay state_length (record spec { precision = sign_extend (first_arg args) })
        (other_args args)
    else if is_digit c
    then stay state_precision (record spec { precision = with_digit start c }) args
    else at_length spec args c

-- `PRINTF_STATE_PRECISION_SEP_`.
unfoldable pub at_precision_sep : SpecifierState → List ℕ → ℕ → Machine × Piece
at_precision_sep spec args c =
    if c == b'.'
    then stay state_precision (record spec { precision = 0 }) args
    else at_length spec args c

-- `PRINTF_STATE_WIDTH_`.
unfoldable pub at_width : SpecifierState → List ℕ → ℕ → Machine × Piece
at_width spec args c =
    if c == b'*'
    then stay state_precision_sep (record spec { width = sign_extend (first_arg args) })
        (other_args args)
    else if is_digit c
    then stay state_width (record spec { width = with_digit spec.width c }) args
    else at_precision_sep spec args c

unfoldable pub at_flags : SpecifierState → List ℕ → ℕ → Machine × Piece
at_flags spec args c =
    if c == b' '
    then stay state_flags (record spec { sign = b' ' }) args
    else if c == b'#'
    then stay state_flags (record spec { put_prefix = true }) args
    else if c == b'+'
    then stay state_flags (record spec { sign = b'+' }) args
    else if c == b'-'
    then stay state_flags (record spec { pad_right = true }) args
    else if c == b'0'
    then stay state_flags (record spec { pad_with_zeros = true }) args
    else at_width spec args c

unfoldable pub at_normal : SpecifierState → List ℕ → ℕ → Machine × Piece
at_normal spec args c =
    if c == b'%'
    then stay state_flags spec args
    else (record { state = state_normal; spec = spec; args = args }, char c)

-- `switch(state)`.
unfoldable pub dispatch : Bool → State → SpecifierState → List ℕ → ℕ → Machine × Piece
dispatch clamps state_normal spec args c = at_normal spec args c
dispatch clamps state_flags spec args c = at_flags spec args c
dispatch clamps state_width spec args c = at_width spec args c
dispatch clamps state_precision_sep spec args c = at_precision_sep spec args c
dispatch clamps state_precision spec args c = at_precision clamps spec args c
dispatch clamps state_length spec args c = at_length spec args c
dispatch clamps state_length_short spec args c = at_length_short spec args c
dispatch clamps state_length_long spec args c = at_length_long spec args c
dispatch clamps state_spec spec args c = at_spec spec args c

unfoldable pub advance : Bool → Machine → ℕ → Machine × Piece
advance clamps m c = dispatch clamps m.state m.spec m.args c
