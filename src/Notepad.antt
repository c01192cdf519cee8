-- ===== src/Notepad.antt =====
-- The notepad of src/apps/notepad.c: its text, its keys and what it paints.
pub mod Paint
mod Tests
use hz_os.Base.{
  ℕ, zero, suc, ◌+◌, ◌-◌, Bool, true, false, ◌&&◌, ◌||◌, List, [], ◌∷◌, ◌++◌, if◌then◌else◌, ltb,
  leb, ◌==◌, take, length,
}

abbrev pub notepad_max_text : ℕ
notepad_max_text = 1024

-- A call of wm_draw_char.
pub record Drawn : Type 0 where
  pub x : ℕ
  pub y : ℕ
  pub char : ℕ

-- What notepad_paint has drawn, and where it stands.
pub record Painter : Type 0 where
  pub drawn : List Drawn
  pub at_x : ℕ
  pub at_y : ℕ

abbrev pub add_char : List ℕ → ℕ → List ℕ
add_char text c = if ltb (length text) (notepad_max_text - 1) then text ++ (c ∷ []) else text

-- `text` are the characters below `text_len`.
unfoldable pub notepad_key : List ℕ → ℕ → List ℕ
notepad_key text key =
    if key == 8
    then take (length text - 1) text
    else if leb 32 key && leb key 126
    then add_char text key
    else if (key == 10) || (key == 13)
    then add_char text 10
    else text

-- The width of a window is at least 12, and `x > win->width - 12` is a test of natural numbers.
unfoldable pub paint_char : ℕ → Painter → ℕ → Painter
paint_char width p c =
    if c == 10
    then record p { at_x = 4; at_y = p.at_y + 10 }
    else (let drawn = p.drawn ++ (record { x = p.at_x; y = p.at_y; char = c } ∷ []) in
        if ltb (width - 12) (p.at_x + 8)
        then record { drawn = drawn; at_x = 4; at_y = p.at_y + 10 }
        else record { drawn = drawn; at_x = p.at_x + 8; at_y = p.at_y })

unfoldable pub paint_text : ℕ → Painter → List ℕ → Painter
paint_text width p [] = p
paint_text width p (c ∷ cs) = paint_text width (paint_char width p c) cs

abbrev pub unpainted : Painter
unpainted = record { drawn = []; at_x = 4; at_y = 4 }

abbrev pub cursor_at : Painter → List Drawn
cursor_at p = p.drawn ++ (record { x = p.at_x; y = p.at_y; char = b'_' } ∷ [])

-- The characters drawn, the cursor last.
unfoldable pub notepad_paint : ℕ → List ℕ → List Drawn
notepad_paint width text = cursor_at (paint_text width unpainted text)
