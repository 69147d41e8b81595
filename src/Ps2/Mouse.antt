-- ===== src/Ps2/Mouse.antt =====
-- Kernel/Drivers/Input/PS2.c: the interrupt of the mouse and its packets. An int is a number below 2 ^ 32
-- in two's complement. What a packet says is logged by the code, and returned here.
use mug_os.Base.{
  ℕ, ◌+◌, ◌-◌, Bool-cases, ◌*◌, ◌/◌, ◌%◌, ◌^◌, ◌<◌, ◌≡◌, inl, inr, refl, ap, ◌∙◌, arith, Bool, true,
  not, ◌&&◌, List, [], ◌∷◌, ◌++◌, Option, none, some, leb, ltb, ◌==◌, if◌then◌else◌, bit_and,
  bit_or,
}
use mug_os.Base.Bits.{holds_below, holds_below_sound}

-- `enum PS2MouseType`.
abbrev pub mousetype_std : ℕ
mousetype_std = 0

abbrev pub mousetype_wheel : ℕ
mousetype_wheel = 3

abbrev pub mousetype_5buttons : ℕ
mousetype_5buttons = 4

-- The local variables of `handleMousePacket`.
pub record Movement : Type 0 where
  pub dx : ℕ
  pub dy : ℕ
  pub btn1 : Bool
  pub btn2 : Bool
  pub btn3 : Bool
  pub btn4 : Bool
  pub btn5 : Bool
  pub wheel : ℕ

-- The difference of a byte and a number that is at most 0x100, as an int.
abbrev pub int_difference : ℕ → ℕ → ℕ
int_difference a b = (a + 2 ^ 32 - b) % 2 ^ 32

abbrev pub is_set : ℕ → ℕ → Bool
is_set x bits = not (bit_and x bits == 0)

unfoldable pub handle_mouse_packet : ℕ → ℕ → ℕ → ℕ → ℕ → Movement
handle_mouse_packet mouse_type flags raw_dx raw_dy wheel_and_thumb_btn =
    let has_wheel = leb mousetype_wheel mouse_type in
    let has_thumb = leb mousetype_5buttons mouse_type in
    record {
      dx = int_difference raw_dx (bit_and (flags * 2 ^ 4) 0x100);
      dy = int_difference raw_dy (bit_and (flags * 2 ^ 3) 0x100);
      btn1 = is_set flags 1;
      btn2 = is_set flags 2;
      btn3 = has_wheel && is_set flags 4;
      btn4 = has_thumb && is_set wheel_and_thumb_btn 16;
      btn5 = has_thumb && is_set wheel_and_thumb_btn 32;
      wheel =
          if has_wheel
          then if is_set wheel_and_thumb_btn 8
            then bit_or wheel_and_thumb_btn 0xffff_fff8
            else bit_and wheel_and_thumb_btn 7
          else 0;
    }

-- `struct PS2Mouse` without `enabled` and its name, and the static variables of `mouseIRQ`.
pub record Mouse : Type 0 where
  pub mouse_type : ℕ
  pub packet_size : ℕ
  pub packet_index : ℕ
  pub flags : ℕ
  pub dx : ℕ
  pub dy : ℕ

-- `mouseIRQ`, with the byte that the controller has.
unfoldable pub mouse_irq : Mouse → ℕ → Option Movement × Mouse
mouse_irq m byte =
    if m.packet_index == 0
    then (none, record m { flags = byte; packet_index = m.packet_index + 1 })
    else if m.packet_index == 1
    then (none, record m { dx = byte; packet_index = m.packet_index + 1 })
    else if m.packet_index == 2
    then if ltb 3 m.packet_size
      then (none, record m { dy = byte; packet_index = m.packet_index + 1 })
      else (
        some (handle_mouse_packet m.mouse_type m.flags m.dx byte 0xff),
        record m { dy = byte; packet_index = 0 },
      )
    else if m.packet_index == 3
    then (
      some (handle_mouse_packet m.mouse_type m.flags m.dx m.dy byte),
      record m { packet_index = 0 },
    )
    else (none, m)

abbrev to_list : Option Movement → List Movement
to_list none = []
to_list (some movement) = movement ∷ []

-- The packets handled in a sequence of interrupts, in order, and the state after it.
unfoldable pub mouse_irqs : Mouse → List ℕ → List Movement × Mouse
mouse_irqs m [] = ([], m)
mouse_irqs m (byte ∷ bytes) =
    let (movement, m') = mouse_irq m byte in
    let (more, m'') = mouse_irqs m' bytes in (to_list movement ++ more, m'')

-- A packet that a mouse sends. The last byte is sent in packets of four bytes only.
pub record Packet : Type 0 where
  pub flags_byte : ℕ
  pub dx_byte : ℕ
  pub dy_byte : ℕ
  pub extra_byte : ℕ

abbrev pub packet_bytes : ℕ → Packet → List ℕ
packet_bytes size p =
    p.flags_byte ∷ p.dx_byte ∷ p.dy_byte ∷ (if ltb 3 size then p.extra_byte ∷ [] else [])

abbrev pub all_packet_bytes : ℕ → List Packet → List ℕ
all_packet_bytes size [] = []
all_packet_bytes size (p ∷ ps) = packet_bytes size p ++ all_packet_bytes size ps

abbrev pub movements : ℕ → ℕ → List Packet → List Movement
movements mouse_type size [] = []
movements mouse_type size (p ∷ ps) =
    handle_mouse_packet mouse_type p.flags_byte p.dx_byte p.dy_byte
      (if ltb 3 size then p.extra_byte else 0xff)
    ∷ movements mouse_type size ps

abbrev pub at_start : Mouse → Mouse
at_start m = record m { packet_index = 0 }

-- The bytes of the packet stay in the static variables.
abbrev stored : Mouse → Packet → Mouse
stored m p = record m { flags = p.flags_byte; dx = p.dx_byte; dy = p.dy_byte; packet_index = 0 }

one_packet :
    (m : Mouse) (p : Packet) (bytes : List ℕ)
    → mouse_irqs (at_start m) (packet_bytes m.packet_size p ++ bytes) ≡ (
      handle_mouse_packet m.mouse_type p.flags_byte p.dx_byte p.dy_byte
            (if ltb 3 m.packet_size then p.extra_byte else 0xff)
          ∷ (mouse_irqs (stored m p) bytes).0,
      (mouse_irqs (stored m p) bytes).1,
    )
unfolding mouse_irqs mouse_irq
one_packet m p bytes = elim (Bool-cases (ltb 3 m.packet_size)) [
  | inl four ↦ rw (four, mouse_irqs, mouse_irq) refl
  | inr three ↦ rw (three, mouse_irqs, mouse_irq) refl
]

-- From the start of a packet, the interrupts of the bytes of any packets handle exactly these packets, in
-- order, and end at the start of a packet, whatever the type of the mouse and its packet size: the bytes
-- are three, or four where the size is above three.
pub mouse_irqs-all_packet_bytes :
    (m : Mouse) (packets : List Packet)
    → let after = mouse_irqs (at_start m) (all_packet_bytes m.packet_size packets) in
      (after.0 ≡ movements m.mouse_type m.packet_size packets) × (after.1.packet_index ≡ 0)
unfolding mouse_irqs
mouse_irqs-all_packet_bytes m [] = (refl, refl)
mouse_irqs-all_packet_bytes m (p ∷ ps) =
    let (handled, ended) = mouse_irqs-all_packet_bytes (stored m p) ps in
    let first = one_packet m p (all_packet_bytes m.packet_size ps) in
    let movement =
      handle_mouse_packet m.mouse_type p.flags_byte p.dx_byte p.dy_byte
        (if ltb 3 m.packet_size then p.extra_byte else 0xff) in
    (ap (λ r. r.0) first ∙ ap (λ l. movement ∷ l) handled, ap (λ r. r.1.packet_index) first ∙ ended)

-- The numbers 0 to 2 ^ bits - 1 read as numbers of that many bits in two's complement, as an int.
abbrev pub sign_extended : ℕ → ℕ → ℕ
sign_extended bits n = if ltb n (2 ^ (bits - 1)) then n else n + 2 ^ 32 - 2 ^ bits

abbrev flags_test : ℕ → Bool
flags_test flags =
    (bit_and (flags * 2 ^ 4) 0x100 == flags / 2 ^ 4 % 2 * 256)
    && (bit_and (flags * 2 ^ 3) 0x100 == flags / 2 ^ 5 % 2 * 256)

flags_tested : holds_below flags_test 256 ≡ true
unfolding holds_below
flags_tested = refl

flags_bits :
    (flags : ℕ)
    → flags < 256
    → (bit_and (flags * 2 ^ 4) 0x100 ≡ flags / 2 ^ 4 % 2 * 256)
      × (bit_and (flags * 2 ^ 3) 0x100 ≡ flags / 2 ^ 5 % 2 * 256)
flags_bits flags h = ground (arith, holds_below_sound flags_test 256 flags h flags_tested)

wheel_of : ℕ → ℕ
wheel_of w = if is_set w 8 then bit_or w 0xffff_fff8 else bit_and w 7

abbrev wheel_test : ℕ → Bool
wheel_test w = wheel_of w == sign_extended 4 (w % 16)

wheel_tested : holds_below wheel_test 256 ≡ true
unfolding holds_below wheel_of
wheel_tested = refl

wheel_lem : (w : ℕ) → w < 256 → wheel_of w ≡ sign_extended 4 (w % 16)
wheel_lem w h = ground (arith, holds_below_sound wheel_test 256 w h wheel_tested)

int_difference_lem :
    (raw sign : ℕ)
    → raw < 256
    → sign < 2
    → int_difference raw (sign * 256) ≡ sign_extended 9 (raw + sign * 256)
int_difference_lem raw sign h s = ground arith

-- For bytes, the movement along each axis is its byte with the sign bit of the flags above it (bit 4 for
-- x, bit 5 for y), read as a number of nine bits in two's complement; and that of the wheel, of a mouse
-- that has one, is the low four bits of the last byte in two's complement.
pub handle_mouse_packet-signs :
    (mouse_type flags raw_dx raw_dy extra : ℕ)
    → flags < 256
    → raw_dx < 256
    → raw_dy < 256
    → extra < 256
    → let moved = handle_mouse_packet mouse_type flags raw_dx raw_dy extra in
      (moved.dx ≡ sign_extended 9 (raw_dx + flags / 2 ^ 4 % 2 * 256))
      × (moved.dy ≡ sign_extended 9 (raw_dy + flags / 2 ^ 5 % 2 * 256))
      × (moved.wheel ≡ (if leb mousetype_wheel mouse_type then sign_extended 4 (extra % 16) else 0))
unfolding handle_mouse_packet wheel_of
handle_mouse_packet-signs mouse_type flags raw_dx raw_dy extra f x y e = (
  ap (int_difference raw_dx) (flags_bits flags f).0
      ∙ int_difference_lem raw_dx (flags / 2 ^ 4 % 2) x (omega arith),
  ap (int_difference raw_dy) (flags_bits flags f).1
      ∙ int_difference_lem raw_dy (flags / 2 ^ 5 % 2) y (omega arith),
  ap (λ w. if leb mousetype_wheel mouse_type then w else 0) (wheel_lem extra e),
)
