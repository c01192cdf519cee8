-- ===== src/Notepad/Tests.antt =====
-- The notepad of src/apps/notepad.c at concrete inputs.
use hz_os.Base.{◌≡◌, [], ◌∷◌, ◌++◌, arith, refl}
use hz_os.Base.Text.{codes}
use hz_os.Notepad.{notepad_key, notepad_paint, paint_text, unpainted}
use hz_os.Notepad.Paint.{typed, cursor_behind, key-paint}

-- Two lines, with a character taken back.
two_lines : typed [] (b'a' ∷ b'x' ∷ 8 ∷ 13 ∷ b'b' ∷ []) ≡ b'a' ∷ 10 ∷ b'b' ∷ []
unfolding typed notepad_key
two_lines = refl

key-paint_example :
    let p = paint_text 400 unpainted (codes "a") in
    (notepad_paint 400 (codes "a")
      ≡ p.drawn ++ (record { x = p.at_x; y = p.at_y; char = b'_' } ∷ []))
    × (notepad_paint 400 (notepad_key (codes "a") b'b')
        ≡ (p.drawn ++ (record { x = p.at_x; y = p.at_y; char = b'b' } ∷ []))
          ++ (cursor_behind 400 p.at_x p.at_y ∷ []))
    × (notepad_key (notepad_key (codes "a") b'b') 8 ≡ codes "a")
key-paint_example = key-paint 400 (codes "a") b'b' (omega arith) (omega arith) refl
