-- ===== src/Keyboard/Tests.antt =====
-- The keyboard driver of src/drivers/keyboard.c on concrete keys.
use hz_os.Base.{◌≡◌, true, false, replicate, arith, refl}
use hz_os.Keyboard.{Keyboard, us, deliver, decode, apply_caps, line}
use hz_os.Keyboard.Line.{HasRoom, edit, calls, deliver-edit}

abbrev idle : Keyboard
idle = record {
  shift_pressed = false;
  caps_lock = true;
  num_lock = true;
  extended_scancode = false;
  current_layout = us;
  input_buffer = replicate 128 0;
  input_len = 0;
  has_callback = false;
}

idle-HasRoom : HasRoom idle
idle-HasRoom = record { size = refl; len_in = omega arith }

-- The key of 'a' under caps lock.
idle_types_capital : (decode idle 30).0 ≡ b'A'
unfolding decode apply_caps
idle_types_capital = refl

deliver-edit_example :
    (line (deliver idle b'l').1 ≡ edit (line idle) b'l')
    × ((deliver idle b'l').0 ≡ calls (line idle) b'l')
deliver-edit_example = deliver-edit idle b'l' idle-HasRoom
