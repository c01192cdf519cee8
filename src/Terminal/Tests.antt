-- ===== src/Terminal/Tests.antt =====
-- The console of src/shell/terminal.c just after terminal_init.
use hz_os.Base.{true, false, [], ◌∷◌, ◌++◌, replicate, arith, refl}
use hz_os.Terminal.{Terminal, terminal_putc}
use hz_os.Terminal.Cursor.{InText}
use hz_os.Terminal.Ring.{HoldsQueue, enqueue, ring_from, putc-HoldsQueue}

abbrev blank : Terminal
blank = record {
  video_memory = replicate 2000 3872;
  ready = true;
  terminal_row = 24;
  terminal_column = 79;
  terminal_color = 15;
  term_buffer = replicate 1024 0;
  term_buf_head = 1023;
  term_buf_tail = 1023;
  has_sink = false;
  sent = [];
  has_vesa = false;
  vesa_width = 640;
  vesa_height = 480;
  drawn = [];
}

blank-InText : InText blank
blank-InText = record {
  no_vesa = refl;
  row_in = omega arith;
  column_in = omega arith;
  cells = refl;
}

blank-HoldsQueue : HoldsQueue blank []
unfolding ring_from
blank-HoldsQueue = record {
  ring = record { size = refl; head_in = omega arith; tail_in = omega arith };
  queue = refl;
}

putc-HoldsQueue_example : HoldsQueue (terminal_putc blank b'a') (enqueue [] b'a')
putc-HoldsQueue_example = putc-HoldsQueue blank b'a' blank-HoldsQueue

abbrev captured_one : Terminal
captured_one = record blank { term_buffer = replicate 1023 0 ++ (255 ∷ []); term_buf_head = 0 }

captured_one-HoldsQueue : HoldsQueue captured_one (255 ∷ [])
unfolding ring_from
captured_one-HoldsQueue = record {
  ring = record { size = refl; head_in = omega arith; tail_in = omega arith };
  queue = refl;
}
