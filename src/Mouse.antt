-- ===== src/Mouse.antt =====
-- The PS/2 mouse driver, src/drivers/mouse.c: packets of three bytes that move the pointer.
pub mod Bounds
pub mod Packet
mod Tests
use hz_os.Base.{
  ℕ, zero, suc, ◌+◌, ◌-◌, ◌*◌, ◌/◌, ◌%◌, Bool, true, false, ◌&&◌, ◌||◌, List, [], ◌∷◌,
  if◌then◌else◌, ltb, leb, ◌==◌, get_or, set,
}
use hz_os.Base.Int.{ℤ, pos, negsuc, is_neg, ◌+ℤ◌, ◌-ℤ◌}

-- mouse_state_t; the buttons are the bits of the packet's first byte.
pub record MouseState : Type 0 where
  pub x : ℤ
  pub y : ℤ
  pub left_down : ℕ
  pub right_down : ℕ
  pub middle_down : ℕ

pub record Mouse : Type 0 where
  pub state : MouseState
  pub max_x : ℤ
  pub max_y : ℤ
  pub packet : List ℕ
  pub packet_index : ℕ

-- The driver's static data.
abbrev pub start : Mouse
start = record {
  state = record { x = pos 40; y = pos 12; left_down = 0; right_down = 0; middle_down = 0 };
  max_x = pos 79;
  max_y = pos 24;
  packet = 0 ∷ 0 ∷ 0 ∷ [];
  packet_index = 0;
}

unfoldable pub mouse_set_bounds : Mouse → ℤ → ℤ → Mouse
mouse_set_bounds m width height = record m { max_x = width -ℤ pos 1; max_y = height -ℤ pos 1 }

unfoldable pub mouse_reset_position : Mouse → ℤ → ℤ → Mouse
mouse_reset_position m px py = record m {
  state = record {
    x = px;
    y = py;
    left_down = m.state.left_down;
    right_down = m.state.right_down;
    middle_down = m.state.middle_down;
  };
  packet_index = 0;
}

abbrev pub mouse_get_state : Mouse → MouseState
mouse_get_state m = m.state

-- The value of bit `i` of a byte.
abbrev pub bit : ℕ → ℕ → Bool
bit b p = b / p % 2 == 1

-- (int8_t)
abbrev pub to_int8 : ℕ → ℤ
to_int8 b = if ltb (b % 256) 128 then pos (b % 256) else negsuc (255 - b % 256)

-- `a > b` on int.
abbrev pub gt_ℤ : ℤ → ℤ → Bool
gt_ℤ (pos a) (pos b) = ltb b a
gt_ℤ (pos a) (negsuc b) = true
gt_ℤ (negsuc a) (pos b) = false
gt_ℤ (negsuc a) (negsuc b) = ltb a b

-- The two tests of a coordinate, the lower bound first.
unfoldable pub clamp : ℤ → ℤ → ℤ
clamp top v = let low = if is_neg v then pos 0 else v in if gt_ℤ low top then top else low

-- A whole packet.
unfoldable pub apply_packet : Mouse → ℕ → ℕ → ℕ → Mouse
apply_packet m b0 b1 b2 =
    let erratic = bit b0 64 || bit b0 128 in
    let dx = if erratic then pos 0 else to_int8 b1 in
    let dy = if erratic then pos 0 else to_int8 b2 in
    record m {
      state = record {
        x = clamp m.max_x (m.state.x +ℤ dx);
        y = clamp m.max_y (m.state.y -ℤ dy);
        left_down = b0 % 2;
        right_down = b0 / 2 % 2 * 2;
        middle_down = b0 / 4 % 2 * 4;
      };
    }

unfoldable pub mouse_irq_handler : Mouse → ℕ → Mouse
mouse_irq_handler m data_byte =
    let stored = record m {
      packet = set m.packet m.packet_index data_byte;
      packet_index = m.packet_index + 1;
    } in
    if m.packet_index == 0 && (if bit data_byte 8 then false else true)
    then m
    else if ltb (m.packet_index + 1) 3
    then stored
    else apply_packet (record stored { packet_index = 0 }) (get_or stored.packet 0 0)
        (get_or stored.packet 1 0) (get_or stored.packet 2 0)

unfoldable pub feed : Mouse → List ℕ → Mouse
feed m [] = m
feed m (b ∷ bs) = feed (mouse_irq_handler m b) bs
