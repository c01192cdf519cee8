-- ===== src/Drawing.antt =====
-- Filling rectangles and drawing characters, src/gui/graphics.c and src/drivers/vesa.c.
pub mod Fill
mod Tests
use hz_os.Base.{
  ℕ, zero, suc, ◌+◌, ◌-◌, ◌*◌, ◌/◌, ◌%◌, ◌^◌, Bool, true, false, ◌&&◌, ◌||◌, List, [], ◌∷◌,
  if◌then◌else◌, ltb, leb, ◌==◌, get_or,
}
use hz_os.Base.Int.{ℤ, pos, negsuc, ◌+ℤ◌, ◌-ℤ◌, is_neg, lt_ℤ, le_ℤ, pos_part, wrap_int}

-- The pixels of a buffer of `uint32_t`, or the double words at the byte addresses of a framebuffer.
abbrev pub Pixels : Type 0
Pixels = ℕ → ℕ

abbrev pub put : Pixels → ℕ → ℕ → Pixels
put buf i color a = if a == i then color else buf a

-- How an image of `width` and `height` lies in its memory: `pitch` from row to row and `unit` from
-- pixel to pixel.
pub record Surface : Type 0 where
  pub width : ℕ
  pub height : ℕ
  pub pitch : ℕ
  pub unit : ℕ

abbrev pub place : Surface → ℕ → ℕ → ℕ
place s x y = y * s.pitch + x * s.unit

-- The length of a side that starts at `a`, cut off at 0 and at `size`.
abbrev pub low_cut : ℤ → ℤ → ℤ
low_cut a n = if is_neg a then wrap_int (n +ℤ a) else n

unfoldable pub clip_len : ℤ → ℤ → ℕ → ℤ
clip_len a n size =
    if lt_ℤ (pos size) (wrap_int (pos (pos_part a) +ℤ low_cut a n))
    then pos size -ℤ pos (pos_part a)
    else low_cut a n

-- `*row++ = color`, `n` times.
unfoldable pub fill_row : Pixels → ℕ → ℕ → ℕ → ℕ → Pixels
fill_row buf unit i zero color = buf
fill_row buf unit i (suc n) color = fill_row (put buf i color) unit (i + unit) n color

unfoldable pub fill_rows : Pixels → Surface → ℕ → ℕ → ℕ → ℕ → ℕ → Pixels
fill_rows buf s x w y zero color = buf
fill_rows buf s x w y (suc h) color =
    fill_rows (fill_row buf s.unit (place s x y) w color) s x w (suc y) h color

unfoldable pub fill_clipped : Pixels → Surface → ℤ → ℤ → ℤ → ℤ → ℕ → Pixels
fill_clipped buf s x y w h color =
    let w' = clip_len x w s.width in
    let h' = clip_len y h s.height in
    if le_ℤ w' (pos 0) || le_ℤ h' (pos 0)
    then buf
    else fill_rows buf s (pos_part x) (pos_part w') (pos_part y) (pos_part h') color

-- A buffer of `stride` pixels in a row.
abbrev pub buffer : ℕ → ℕ → Surface
buffer stride buf_h = record { width = stride; height = buf_h; pitch = stride; unit = 1 }

abbrev pub gfx_fill_rect_to_buffer : Pixels → ℤ → ℤ → ℤ → ℤ → ℕ → ℕ → ℕ → Pixels
gfx_fill_rect_to_buffer buf x y w h stride buf_h color =
    fill_clipped buf (buffer stride buf_h) x y w h color

-- The static variables of the framebuffer, whose memory is set.
pub record Vesa : Type 0 where
  pub vesa_width : ℕ
  pub vesa_height : ℕ
  pub vesa_pitch : ℕ
  pub vesa_bpp : ℕ

abbrev pub screen : Vesa → Surface
screen v = record { width = v.vesa_width; height = v.vesa_height; pitch = v.vesa_pitch; unit = 4 }

abbrev pub vesa_fill_rect : Pixels → Vesa → ℤ → ℤ → ℤ → ℤ → ℕ → Pixels
vesa_fill_rect memory v x y w h color = fill_clipped memory (screen v) x y w h color

abbrev pub vesa_clear : Pixels → Vesa → ℕ → Pixels
vesa_clear memory v color =
    vesa_fill_rect memory v (pos 0) (pos 0) (pos v.vesa_width) (pos v.vesa_height) color

abbrev pub is_on : ℕ → ℤ → Bool
is_on size a = le_ℤ (pos 0) a && lt_ℤ a (pos size)

unfoldable pub vesa_put_pixel : Pixels → Vesa → ℤ → ℤ → ℕ → Pixels
vesa_put_pixel memory v x y color =
    if is_on v.vesa_width x && is_on v.vesa_height y && (v.vesa_bpp == 32)
    then put memory (place (screen v) (pos_part x) (pos_part y)) color
    else memory

abbrev pub gfx_draw_rect : Pixels → Vesa → ℤ → ℤ → ℤ → ℤ → ℕ → Pixels
gfx_draw_rect memory v x y w h color =
    let top = vesa_fill_rect memory v x y w (pos 1) color in
    let bottom = vesa_fill_rect top v x (wrap_int (y +ℤ h -ℤ pos 1)) w (pos 1) color in
    let left = vesa_fill_rect bottom v x y (pos 1) h color in
    vesa_fill_rect left v (wrap_int (x +ℤ w -ℤ pos 1)) y (pos 1) h color

-- The columns of a glyph's row from `col` on; the glyph is that of the font.
unfoldable pub draw_bits : Pixels → ℕ → ℕ → ℤ → ℤ → ℕ → ℕ → ℕ → ℕ → Pixels
draw_bits buf stride height x py bits col zero color = buf
draw_bits buf stride height x py bits col (suc n) color =
    let px = wrap_int (x +ℤ pos col) in
    let drawn =
      if (bits / 2 ^ (7 - col) % 2 == 1) && is_on stride px && is_on height py
      then put buf (pos_part py * stride + pos_part px) color
      else buf in
    draw_bits drawn stride height x py bits (suc col) n color

unfoldable pub draw_glyph : Pixels → ℕ → ℕ → ℤ → ℤ → ℕ → List ℕ → ℕ → Pixels
draw_glyph buf stride height x y row [] color = buf
draw_glyph buf stride height x y row (bits ∷ glyph) color =
    draw_glyph (draw_bits buf stride height x (wrap_int (y +ℤ pos row)) bits 0 8 color) stride
      height x y (suc row) glyph color

-- `font` gives the eight rows of a character of font8x8_basic; a `char` from 128 on is negative.
unfoldable pub gfx_draw_char_to_buffer : (ℕ → List ℕ) → Pixels → ℤ → ℤ → ℕ → ℕ → ℕ → ℕ → Pixels
gfx_draw_char_to_buffer font buf x y stride height c color =
    if ltb 127 c then buf else draw_glyph buf stride height x y 0 (font c) color

unfoldable pub gfx_draw_string_to_buffer :
    (ℕ → List ℕ) → Pixels → ℤ → ℤ → ℕ → ℕ → List ℕ → ℕ → Pixels
gfx_draw_string_to_buffer font buf x y stride height [] color = buf
gfx_draw_string_to_buffer font buf x y stride height (c ∷ str) color =
    gfx_draw_string_to_buffer font (gfx_draw_char_to_buffer font buf x y stride height c color)
      (wrap_int (x +ℤ pos 8)) y stride height str color
