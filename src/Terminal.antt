-- ===== src/Terminal.antt =====
-- The text console of src/shell/terminal.c: the cursor over the VGA text memory or the framebuffer,
-- and the ring of characters kept for the terminal application.
pub mod Cursor
pub mod Ring
mod Tests
use hz_os.Base.{
  ℕ, zero, suc, ◌+◌, ◌-◌, ◌*◌, ◌/◌, ◌%◌, ◌^◌, Bool, true, false, List, [], ◌∷◌, ◌++◌, if◌then◌else◌,
  ltb, leb, ◌==◌, ◌!=◌, get_or, set, take, drop, replicate,
}
use hz_os.Base.Int.{ℤ, pos, negsuc}

abbrev pub vga_width : ℕ
vga_width = 80

abbrev pub vga_height : ℕ
vga_height = 25

abbrev pub term_buf_size : ℕ
term_buf_size = 1024

-- A character drawn to the framebuffer, with the place of its upper left pixel.
pub record Glyph : Type 0 where
  pub char : ℕ
  pub x : ℕ
  pub y : ℕ

-- `video_memory` are the cells of the text screen, `ready` says that the pointer to them is set;
-- `has_sink` that a sink is set, and `sent` are the characters it was called with; `has_vesa` that
-- there is a framebuffer, and `drawn` are the characters drawn since it was last cleared.
pub record Terminal : Type 0 where
  pub video_memory : List ℕ
  pub ready : Bool
  pub terminal_row : ℕ
  pub terminal_column : ℕ
  pub terminal_color : ℕ
  pub term_buffer : List ℕ
  pub term_buf_head : ℕ
  pub term_buf_tail : ℕ
  pub has_sink : Bool
  pub sent : List ℕ
  pub has_vesa : Bool
  pub vesa_width : ℕ
  pub vesa_height : ℕ
  pub drawn : List Glyph

-- The bits of `color` and `c` do not meet.
abbrev pub vga_entry : ℕ → ℕ → ℕ
vga_entry c color = color * 256 % 2 ^ 16 + c % 256

abbrev pub terminal_put_at : Terminal → ℕ → ℕ → ℕ → Terminal
terminal_put_at t c x y = record t {
  video_memory = set t.video_memory (y * vga_width + x) (vga_entry c t.terminal_color);
}

-- Every line moves up by one, and the last one is blank.
unfoldable pub terminal_scroll : Terminal → Terminal
terminal_scroll t = record t {
  video_memory =
      take ((vga_height - 1) * vga_width) (drop vga_width t.video_memory)
      ++ replicate vga_width (vga_entry b' ' t.terminal_color);
  terminal_row = t.terminal_row - 1;
}

abbrev pub terminal_setcolor : Terminal → ℕ → Terminal
terminal_setcolor t color = record t { terminal_color = color }

unfoldable pub terminal_clear : Terminal → Terminal
terminal_clear t =
    if t.ready
    then record t {
      video_memory = replicate (vga_height * vga_width) (vga_entry b' ' t.terminal_color);
      terminal_row = 0;
      terminal_column = 0;
    }
    else t

unfoldable pub terminal_init : Terminal → Terminal
terminal_init t = terminal_clear (terminal_setcolor (record t { ready = true }) 15)

abbrev pub vesa_scroll : Terminal → Terminal
vesa_scroll t =
    if t.has_vesa then record t { drawn = []; terminal_row = 0; terminal_column = 0 } else t

-- The ring takes the character unless it is full.
unfoldable pub capture : Terminal → ℕ → Terminal
capture t c =
    let next = (t.term_buf_head + 1) % term_buf_size in
    if next != t.term_buf_tail
    then record t { term_buffer = set t.term_buffer t.term_buf_head c; term_buf_head = next }
    else t

-- The cursor after a character that is drawn, on a screen of `cols` columns.
abbrev pub advance : ℕ → Terminal → Terminal
advance cols t =
    if leb cols (t.terminal_column + 1)
    then record t { terminal_column = 0; terminal_row = t.terminal_row + 1 }
    else record t { terminal_column = t.terminal_column + 1 }

abbrev pub new_line : Terminal → Terminal
new_line t = record t { terminal_column = 0; terminal_row = t.terminal_row + 1 }

abbrev pub draw : Terminal → ℕ → Terminal
draw t c = record t {
  drawn = t.drawn ++ (record { char = c; x = t.terminal_column * 8; y = t.terminal_row * 8 } ∷ []);
}

-- The framebuffer's branch of terminal_putc; 10 is the newline, 13 the carriage return.
unfoldable pub vesa_putc : Terminal → ℕ → Terminal
vesa_putc t c =
    let u =
      if c == 10
      then new_line t
      else if c == 13
      then record t { terminal_column = 0 }
      else advance (t.vesa_width / 8) (draw t c) in
    if leb (t.vesa_height / 8) u.terminal_row then vesa_scroll u else u

-- The cursor goes back by one, over the start of a line too.
abbrev pub back : Terminal → Terminal
back t =
    if ltb 0 t.terminal_column
    then record t { terminal_column = t.terminal_column - 1 }
    else if ltb 0 t.terminal_row
    then record t { terminal_row = t.terminal_row - 1; terminal_column = vga_width - 1 }
    else t

abbrev pub erase : Terminal → Terminal
erase t = terminal_put_at t b' ' t.terminal_column t.terminal_row

-- The text screen's branch, without the scrolling; 8 is the backspace.
unfoldable pub vga_char : Terminal → ℕ → Terminal
vga_char t c =
    if c == 10
    then new_line t
    else if c == 13
    then record t { terminal_column = 0 }
    else if c == 8
    then erase (back t)
    else advance vga_width (terminal_put_at t c t.terminal_column t.terminal_row)

unfoldable pub vga_putc : Terminal → ℕ → Terminal
vga_putc t c =
    let u = vga_char t c in if leb vga_height u.terminal_row then terminal_scroll u else u

unfoldable pub terminal_putc : Terminal → ℕ → Terminal
terminal_putc t c =
    if t.has_sink
    then capture (record t { sent = t.sent ++ (c ∷ []) }) c
    else if t.has_vesa
    then vesa_putc (capture t c) c
    else vga_putc (capture t c) c

unfoldable pub terminal_write : Terminal → List ℕ → Terminal
terminal_write t [] = t
terminal_write t (c ∷ cs) = terminal_write (terminal_putc t c) cs

abbrev pub terminal_writeln : Terminal → List ℕ → Terminal
terminal_writeln t str = terminal_putc (terminal_write t str) 10

-- A `char` has a sign.
abbrev pub char_to_int : ℕ → ℤ
char_to_int c = if ltb c 128 then pos c else negsuc (255 - c)

unfoldable pub terminal_get_char : Terminal → ℤ × Terminal
terminal_get_char t = if t.term_buf_head == t.term_buf_tail then (negsuc 0, t) else (
  char_to_int (get_or t.term_buffer t.term_buf_tail 0),
  record t { term_buf_tail = (t.term_buf_tail + 1) % term_buf_size },
)
