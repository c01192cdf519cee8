-- ===== src/Drawing/Tests.antt =====
-- Drawing of src/gui/graphics.c and src/drivers/vesa.c at concrete inputs.
use hz_os.Base.{ℕ, ◌≡◌, ◌&&◌, List, [], ◌∷◌, if◌then◌else◌, arith, refl}
use hz_os.Base.Int.{pos, negsuc, ◌+ℤ◌, ◌-ℤ◌, wrap_int}
use hz_os.Drawing.{
  Pixels, Vesa, place, screen, fill_clipped, fill_rows, fill_row, clip_len, gfx_fill_rect_to_buffer,
  vesa_put_pixel, vesa_fill_rect, gfx_draw_char_to_buffer, draw_glyph, draw_bits,
}
use hz_os.Drawing.Fill.{covers, fill_clipped-covers}

abbrev black : Pixels
black a = 0

abbrev small : Vesa
small = record { vesa_width = 10; vesa_height = 5; vesa_pitch = 64; vesa_bpp = 32 }

-- A rectangle that begins left of the image.
fill_clipped-covers_example :
    vesa_fill_rect black small (negsuc 1) (pos 1) (pos 4) (pos 2) 7 (place (screen small) 1 2) ≡ (
      if covers (negsuc 1) (pos 4) 1 && covers (pos 1) (pos 2) 2
      then 7
      else black (place (screen small) 1 2))
fill_clipped-covers_example =
    fill_clipped-covers (screen small) black (negsuc 1) (pos 1) (pos 4) (pos 2) 1 2 7
      (record { some_unit = omega arith; row_fits = omega arith; small = omega arith })
      (omega arith) (omega arith) (unfold ◌+ℤ◌ in omega arith) (unfold ◌+ℤ◌ in omega arith)

left_edge : gfx_fill_rect_to_buffer black (negsuc 1) (pos 1) (pos 4) (pos 2) 10 5 7 11 ≡ 7
unfolding fill_clipped fill_rows fill_row clip_len ◌+ℤ◌ ◌-ℤ◌ wrap_int
left_edge = refl

right_of_it : gfx_fill_rect_to_buffer black (negsuc 1) (pos 1) (pos 4) (pos 2) 10 5 7 12 ≡ 0
unfolding fill_clipped fill_rows fill_row clip_len ◌+ℤ◌ ◌-ℤ◌ wrap_int
right_of_it = refl

-- The first column of a glyph with one full row.
one_row : ℕ → List ℕ
one_row c = 0xFF ∷ []

glyph_corner : gfx_draw_char_to_buffer one_row black (pos 2) (pos 1) 10 5 b'A' 7 12 ≡ 7
unfolding gfx_draw_char_to_buffer draw_glyph draw_bits ◌+ℤ◌ one_row wrap_int
glyph_corner = refl

put_outside : vesa_put_pixel black small (pos 10) (pos 0) 7 40 ≡ 0
unfolding vesa_put_pixel
put_outside = refl
