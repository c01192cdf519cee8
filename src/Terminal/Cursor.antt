-- ===== src/Terminal/Cursor.antt =====
-- The cursor of src/shell/terminal.c stays on the screen.
use hz_os.Base.{
  ℕ, zero, suc, ◌-◌, ◌*◌, ◌/◌, ◌≤◌, ◌<◌, ◌≡◌, true, false, List, [], ◌∷◌, ◌++◌, if◌then◌else◌, leb,
  take, drop, replicate, length, length-append, length-take, length-drop, length-set, arith, refl,
  if-both, if-true, if-false, Bool-cases, inl, inr,
}
use hz_os.Terminal.{
  Terminal, vga_width, vga_height, vga_entry, terminal_scroll, capture, vesa_putc, vga_char,
  vga_putc, terminal_putc, terminal_write,
}

length-replicate : (n : ℕ) (v : ℕ) → length (replicate n v) ≡ n
length-replicate zero v = refl
length-replicate (suc n) v = omega (arith, length-replicate n v)

-- The text screen is in use, and the cursor is on it.
pub record InText (t : Terminal) : Type 0 where
  pub no_vesa : t.has_vesa ≡ false
  pub row_in : t.terminal_row < vga_height
  pub column_in : t.terminal_column < vga_width
  pub cells : length t.video_memory ≡ vga_height * vga_width

-- The framebuffer is in use, and the cursor is on it.
pub record InFrame (t : Terminal) : Type 0 where
  pub has_vesa : t.has_vesa ≡ true
  pub row_in : t.terminal_row < t.vesa_height / 8
  pub column_in : t.terminal_column < t.vesa_width / 8

scroll-length :
    (t : Terminal)
    → length t.video_memory ≡ vga_height * vga_width
    → length (terminal_scroll t).video_memory ≡ vga_height * vga_width
unfolding terminal_scroll
scroll-length t h = omega (
  arith,
  h,
  length-append (take ((vga_height - 1) * vga_width) (drop vga_width t.video_memory))
      (replicate vga_width (vga_entry b' ' t.terminal_color)),
  length-take ((vga_height - 1) * vga_width) (drop vga_width t.video_memory),
  length-drop vga_width t.video_memory,
  length-replicate vga_width (vga_entry b' ' t.terminal_color),
)

-- As InText, with the cursor below the last line perhaps.
abbrev Below : Terminal → Type 0
Below t =
    (t.has_vesa ≡ false)
    × (t.terminal_row ≤ vga_height)
    × (t.terminal_column < vga_width)
    × (length t.video_memory ≡ vga_height * vga_width)

vga_char-Below : (t : Terminal) (c : ℕ) → InText t → Below (vga_char t c)
unfolding vga_char
vga_char-Below t c h = grind (arith, h.no_vesa, h.row_in, h.column_in, h.cells, length-set)

vga_putc-InText : (t : Terminal) (c : ℕ) → InText t → InText (vga_putc t c)
unfolding vga_putc
vga_putc-InText t c h = go (vga_char t c) (vga_char-Below t c h)
  where
    go :
        (u : Terminal)
        → Below u
        → InText (if leb vga_height u.terminal_row then terminal_scroll u else u)
    go u b = elim (Bool-cases (leb vga_height u.terminal_row)) [
      | inl e ↦ rw e (record {
        no_vesa = unfold terminal_scroll in b.0;
        row_in = unfold terminal_scroll in ground (arith, b.1, e);
        column_in = unfold terminal_scroll in b.2;
        cells = scroll-length u b.3;
      })
      | inr e ↦
          rw e (record { no_vesa = b.0; row_in = ground (arith, e); column_in = b.2; cells = b.3 })
    ]

vesa_putc-InFrame : (t : Terminal) (c : ℕ) → InFrame t → InFrame (vesa_putc t c)
unfolding vesa_putc
vesa_putc-InFrame t c h = record {
  has_vesa = ground (arith, h.has_vesa);
  row_in = ground (arith, h.has_vesa, h.row_in);
  column_in = ground (arith, h.has_vesa, h.column_in);
}

capture-InText : (t : Terminal) (c : ℕ) → InText t → InText (capture t c)
unfolding capture
capture-InText t c h = record {
  no_vesa = ground (arith, h.no_vesa);
  row_in = ground (arith, h.row_in);
  column_in = ground (arith, h.column_in);
  cells = grind (arith, h.cells, length-set);
}

capture-InFrame : (t : Terminal) (c : ℕ) → InFrame t → InFrame (capture t c)
unfolding capture
capture-InFrame t c h = record {
  has_vesa = ground (arith, h.has_vesa);
  row_in = ground (arith, h.row_in);
  column_in = ground (arith, h.column_in);
}

-- With a sink, a character leaves the cursor alone.
putc-InText : (t : Terminal) (c : ℕ) → InText t → InText (terminal_putc t c)
unfolding terminal_putc
putc-InText t c h =
    if-both InText t.has_sink
      (capture-InText (record t { sent = t.sent ++ (c ∷ []) }) c
        (record {
          no_vesa = h.no_vesa;
          row_in = h.row_in;
          column_in = h.column_in;
          cells = h.cells;
        }))
      (if-false InText _ h.no_vesa (vga_putc-InText (capture t c) c (capture-InText t c h)))

putc-InFrame : (t : Terminal) (c : ℕ) → InFrame t → InFrame (terminal_putc t c)
unfolding terminal_putc
putc-InFrame t c h =
    if-both InFrame t.has_sink
      (capture-InFrame (record t { sent = t.sent ++ (c ∷ []) }) c
        (record { has_vesa = h.has_vesa; row_in = h.row_in; column_in = h.column_in }))
      (if-true InFrame _ h.has_vesa (vesa_putc-InFrame (capture t c) c (capture-InFrame t c h)))

-- On the text screen, with the cursor inside its 80 columns and 25 rows and with its 2000 cells,
-- writing any string leaves the cursor inside them and the number of cells as it is.
pub write-InText : (t : Terminal) (str : List ℕ) → InText t → InText (terminal_write t str)
unfolding terminal_write
write-InText t [] h = h
write-InText t (c ∷ cs) h = write-InText (terminal_putc t c) cs (putc-InText t c h)

-- On a framebuffer at least 8 pixels wide and high with the cursor on it, writing any string leaves
-- the cursor inside the columns and rows of 8 by 8 pixels.
pub write-InFrame : (t : Terminal) (str : List ℕ) → InFrame t → InFrame (terminal_write t str)
unfolding terminal_write
write-InFrame t [] h = h
write-InFrame t (c ∷ cs) h = write-InFrame (terminal_putc t c) cs (putc-InFrame t c h)
