-- ===== src/Notepad/Paint.antt =====
-- What the notepad of src/apps/notepad.c shows after its keys.
use hz_os.Base.{
  ℕ, ◌+◌, ◌-◌, ◌≤◌, ◌<◌, ◌≡◌, true, false, ◌&&◌, ◌||◌, List, [], ◌∷◌, ◌++◌, ltb, leb, ◌==◌,
  take-append_length, length, length-append, length-take, All, All-append, arith, refl, ap, ◌∙◌,
  Bool-cases, inl, inr, if-both, if-true, if-false, if◌then◌else◌,
}
use hz_os.Notepad.{
  Drawn, Painter, add_char, notepad_key, paint_char, paint_text, unpainted, cursor_at,
  notepad_paint,
}

-- The text after several keys.
unfoldable pub typed : List ℕ → List ℕ → List ℕ
typed text [] = text
typed text (k ∷ ks) = typed (notepad_key text k) ks

abbrev pub Fits : List ℕ → Type 0
Fits text = length text ≤ 1023

add_char-Fits : (text : List ℕ) (c : ℕ) → Fits text → Fits (add_char text c)
add_char-Fits text c h = ground (arith, length-append text (c ∷ []))

key-Fits : (text : List ℕ) (key : ℕ) → Fits text → Fits (notepad_key text key)
unfolding notepad_key
key-Fits text key h =
    if-both Fits (key == 8) (omega (arith, length-take (length text - 1) text, h)) (
      if-both Fits (leb 32 key && leb key 126) (add_char-Fits text key h)
        (if-both Fits ((key == 10) || (key == 13)) (add_char-Fits text 10 h) h))

-- Whatever keys are pressed, the text leaves room for its NUL in the 1024 bytes.
pub typed-Fits : (text keys : List ℕ) → Fits text → Fits (typed text keys)
unfolding typed
typed-Fits text [] h = h
typed-Fits text (k ∷ ks) h = typed-Fits (notepad_key text k) ks (key-Fits text k h)

paint_text-append :
    (width : ℕ) (p : Painter) (xs ys : List ℕ)
    → paint_text width p (xs ++ ys) ≡ paint_text width (paint_text width p xs) ys
unfolding paint_text
paint_text-append width p [] ys = refl
paint_text-append width p (x ∷ xs) ys = paint_text-append width (paint_char width p x) xs ys

-- A glyph of 8 pixels inside the margin of 4 pixels.
abbrev pub InMargin : ℕ → Drawn → Type 0
InMargin width d = (4 ≤ d.x) × (d.x + 12 ≤ width)

record IsPainter (width : ℕ) (p : Painter) : Type 0 where
  inside : All (InMargin width) p.drawn
  left : 4 ≤ p.at_x
  right : p.at_x + 12 ≤ width

paint_char-IsPainter :
    (width : ℕ) (p : Painter) (c : ℕ)
    → 16 ≤ width
    → IsPainter width p
    → IsPainter width (paint_char width p c)
unfolding paint_char
paint_char-IsPainter width p c w h =
    let more =
      All-append (InMargin width) p.drawn (record { x = p.at_x; y = p.at_y; char = c } ∷ [])
        h.inside ((h.left, h.right), tt) in
    if-both (IsPainter width) (c == 10)
      (record { inside = h.inside; left = omega arith; right = omega (arith, w) })
      (elim (Bool-cases (ltb (width - 12) (p.at_x + 8))) [
        | inl e ↦
            if-true (IsPainter width) _ e
              (record { inside = more; left = omega arith; right = omega (arith, w) })
        | inr e ↦
            if-false (IsPainter width) _ e
              (record { inside = more; left = omega (arith, h.left); right = ground (arith, w) })
      ])

paint_text-IsPainter :
    (width : ℕ) (p : Painter) (text : List ℕ)
    → 16 ≤ width
    → IsPainter width p
    → IsPainter width (paint_text width p text)
unfolding paint_text
paint_text-IsPainter width p [] w h = h
paint_text-IsPainter width p (c ∷ cs) w h =
    paint_text-IsPainter width (paint_char width p c) cs w (paint_char-IsPainter width p c w h)

-- In a window at least 16 pixels wide, every character of the text and the cursor are drawn
-- between the margins of 4 pixels, however long the text is.
pub paint-InMargin :
    (width : ℕ) (text : List ℕ) → 16 ≤ width → All (InMargin width) (notepad_paint width text)
unfolding notepad_paint
paint-InMargin width text w =
    let h =
      paint_text-IsPainter width unpainted text w
        (record { inside = tt; left = omega arith; right = omega (arith, w) }) in
    All-append (InMargin width) (paint_text width unpainted text).drawn _ h.inside
      ((h.left, h.right), tt)

key_appends :
    (text : List ℕ) (key : ℕ)
    → length text < 1023
    → (leb 32 key && leb key 126) ≡ true
    → notepad_key text key ≡ text ++ (key ∷ [])
unfolding notepad_key
key_appends text key room e =
    let not_back : (key == 8) ≡ false = ground (arith, e) in
    let free : ltb (length text) 1023 ≡ true = ground (arith, room) in rw (not_back, e, free) refl

back_takes : (text : List ℕ) (key : ℕ) → notepad_key (text ++ (key ∷ [])) 8 ≡ text
unfolding notepad_key
back_takes text key =
    let one_more : length (text ++ (key ∷ [])) - 1 ≡ length text =
      omega (arith, length-append text (key ∷ [])) in
    rw one_more (take-append_length text (key ∷ []))

-- The cursor behind a character that was drawn at `x` and `y`.
abbrev pub cursor_behind : ℕ → ℕ → ℕ → Drawn
cursor_behind width x y =
    if ltb (width - 12) (x + 8)
    then record { x = 4; y = y + 10; char = b'_' }
    else record { x = x + 8; y = y; char = b'_' }

char_and_cursor :
    (width : ℕ) (p : Painter) (c : ℕ)
    → (c == 10) ≡ false
    → cursor_at (paint_char width p c)
      ≡ (p.drawn ++ (record { x = p.at_x; y = p.at_y; char = c } ∷ []))
        ++ (cursor_behind width p.at_x p.at_y ∷ [])
unfolding paint_char
char_and_cursor width p c e =
    let before : List Drawn = p.drawn ++ (record { x = p.at_x; y = p.at_y; char = c } ∷ []) in
    let goal = λ (q : Painter). cursor_at q ≡ before ++ (cursor_behind width p.at_x p.at_y ∷ []) in
    if-false goal _ e
      (elim (Bool-cases (ltb (width - 12) (p.at_x + 8))) [ inl f ↦ rw f refl | inr f ↦ rw f refl ])

-- In a window at least 12 pixels wide, typing a printable character into a text of less than 1023
-- characters draws what was drawn before, then the character where the cursor stood, and the cursor
-- behind it: 8 pixels to the right, or, where no further character fits in front of the right
-- margin, at the left margin of the next line, 10 pixels lower; and the backspace key takes the
-- character back.
pub key-paint :
    (width : ℕ) (text : List ℕ) (key : ℕ)
    → 12 ≤ width
    → length text < 1023
    → (leb 32 key && leb key 126) ≡ true
    → let p = paint_text width unpainted text in
      (notepad_paint width text ≡ p.drawn ++ (record { x = p.at_x; y = p.at_y; char = b'_' } ∷ []))
      × (notepad_paint width (notepad_key text key)
          ≡ (p.drawn ++ (record { x = p.at_x; y = p.at_y; char = key } ∷ []))
            ++ (cursor_behind width p.at_x p.at_y ∷ []))
      × (notepad_key (notepad_key text key) 8 ≡ text)
unfolding notepad_paint paint_text
key-paint width text key wide room e =
    let pressed = key_appends text key room e in
    (
      refl,
      ap (notepad_paint width) pressed
          ∙ ap cursor_at (paint_text-append width unpainted text (key ∷ []))
          ∙ char_and_cursor width (paint_text width unpainted text) key (ground (arith, e)),
      ap (λ t. notepad_key t 8) pressed ∙ back_takes text key,
    )
