-- ===== src/Keyboard.antt =====
-- The keyboard driver, src/drivers/keyboard.c: scan codes to characters, and characters to lines.
pub mod Keymaps
pub mod Decode
pub mod Line
mod Tests
use hz_os.Base.{
  ℕ, zero, suc, ◌+◌, ◌-◌, ◌%◌, Bool, true, false, ◌&&◌, ◌||◌, not, List, [], ◌∷◌, ◌++◌,
  if◌then◌else◌, ltb, leb, ◌==◌, ◌!=◌, get_or, set, take,
}
use hz_os.Keyboard.Keymaps.{keymap_us, keymap_us_shift, keymap_tr, keymap_tr_shift}

pub data Layout : Type 0 where
  us tr : Layout

-- What the driver calls: the callback, the window manager, the terminal, and command_execute.
pub data Call : Type 0 where
  callback : ℕ → Call
  wm_handle_key : ℕ → Call
  terminal_putc : ℕ → Call
  command_execute : List ℕ → Call
  prompt : Call

-- `has_callback` says that g_kb_callback is set.
pub record Keyboard : Type 0 where
  pub shift_pressed : Bool
  pub caps_lock : Bool
  pub num_lock : Bool
  pub extended_scancode : Bool
  pub current_layout : Layout
  pub input_buffer : List ℕ
  pub input_len : ℕ
  pub has_callback : Bool

abbrev pub keyboard_buffer_size : ℕ
keyboard_buffer_size = 128

abbrev pub keyboard_set_layout : Keyboard → Layout → Keyboard
keyboard_set_layout k layout = record k { current_layout = layout }

abbrev pub keyboard_get_layout : Keyboard → Layout
keyboard_get_layout k = k.current_layout

abbrev pub is_shift : ℕ → Bool
is_shift key = key == 42 || key == 54

abbrev pub keymap : Layout → Bool → List ℕ
keymap tr true = keymap_tr_shift
keymap tr false = keymap_tr
keymap us true = keymap_us_shift
keymap us false = keymap_us

-- The characters are signed in C: those from 128 on are no letters here.
unfoldable pub apply_caps : Bool → ℕ → ℕ
apply_caps caps c =
    if caps && leb b'a' c && leb c b'z'
    then c - b'a' + b'A'
    else if caps && leb b'A' c && leb c b'Z'
    then c - b'A' + b'a'
    else c

-- The part of the handler that finds the character of a scan code, 0 for none.
unfoldable pub decode : Keyboard → ℕ → ℕ × Keyboard
decode k scancode =
    if scancode == 224
    then (0, record k { extended_scancode = true })
    else if leb 128 scancode
    then (
      0,
      record k {
        shift_pressed = k.shift_pressed && not (is_shift (scancode % 128));
        extended_scancode = false;
      },
    )
    else if is_shift scancode
    then (0, record k { shift_pressed = true; extended_scancode = false })
    else if scancode == 58
    then (0, record k { caps_lock = not k.caps_lock; extended_scancode = false })
    else if scancode == 69
    then (0, record k { num_lock = not k.num_lock; extended_scancode = false })
    else if k.extended_scancode
    then (
      apply_caps k.caps_lock (if scancode == 53 then b'/' else 0),
      record k { extended_scancode = false },
    )
    else (apply_caps k.caps_lock (get_or (keymap k.current_layout k.shift_pressed) scancode 0), k)

-- The characters of the line in front of its end.
abbrev pub line : Keyboard → List ℕ
line k = take k.input_len k.input_buffer

-- keyboard_handle_command
unfoldable pub keyboard_handle_command : Keyboard → List Call
keyboard_handle_command k = if k.input_len == 0 then [] else command_execute (line k) ∷ []

-- The line's end: the NUL is written behind the characters.
abbrev pub finish : Keyboard → Keyboard
finish k = record k { input_buffer = set k.input_buffer k.input_len 0 }

-- The part of the handler from the window manager on; 10 is the newline and 8 the backspace.
unfoldable pub deliver : Keyboard → ℕ → List Call × Keyboard
deliver k c =
    if c == 10
    then (
      wm_handle_key c ∷ terminal_putc 10 ∷ keyboard_handle_command (finish k) ++ (prompt ∷ []),
      record (finish k) { input_len = 0 },
    )
    else if c == 8
    then (if ltb 0 k.input_len
        then (wm_handle_key c ∷ terminal_putc 8 ∷ [], record k { input_len = k.input_len - 1 })
        else (wm_handle_key c ∷ [], k))
    else if ltb k.input_len (keyboard_buffer_size - 1)
    then (
      wm_handle_key c ∷ [],
      record k { input_buffer = set k.input_buffer k.input_len c; input_len = k.input_len + 1 },
    )
    else (wm_handle_key c ∷ [], k)

-- The part of the handler behind the decoding.
unfoldable pub handle_char : Keyboard → ℕ → List Call × Keyboard
handle_char k c =
    if c == 0 then ([], k) else if k.has_callback then (callback c ∷ [], k) else deliver k c

unfoldable pub keyboard_irq_handler : Keyboard → ℕ → List Call × Keyboard
keyboard_irq_handler k scancode = let (c, k') = decode k scancode in handle_char k' c
