-- ===== src/Syscall/Tests.antt =====
-- The system calls of src/core/syscall.c on a small system.
use hz_os.Base.{ℕ, ◌≡◌, true, false, none, some, Option, List, [], ◌∷◌, replicate, refl, arith}
use hz_os.Base.Int.{pos}
use hz_os.Base.Text.{codes}
use hz_os.Terminal.{Terminal}
use hz_os.Terminal.Ring.{HoldsQueue, ring_from, chars_to_ints}
use hz_os.WindowManager.{Wm, null_window, wm_magic, key}
use hz_os.WindowManager.Desktop.{Desktop, event, nothing, event_poll, wm_handle_key}
use hz_os.Fs.Session.{fs_init}
use hz_os.Syscall.{System, write, number, syscall_handler, is_valid}
use hz_os.Syscall.Calls.{get_chars, numbers, write-get_chars, key-polled}

abbrev screen : Terminal
screen = record {
  video_memory = replicate 2000 0;
  ready = true;
  terminal_row = 0;
  terminal_column = 0;
  terminal_color = 7;
  term_buffer = replicate 1024 0;
  term_buf_head = 3;
  term_buf_tail = 3;
  has_sink = false;
  sent = [];
  has_vesa = false;
  vesa_width = 0;
  vesa_height = 0;
  drawn = [];
}

abbrev one_window : Wm
one_window = record {
  objects = record null_window { magic = wm_magic; is_userland = true } ∷ [];
  windows = 0 ∷ [];
  freed = [];
  freed_surfaces = [];
}

abbrev system : System
system = record {
  terminal = screen;
  wm = one_window;
  shell = record { fs = fs_init; effects = [] };
  draws = [];
}

abbrev no_ext2 : List ℕ → Option (List ℕ)
no_ext2 path = none

screen-HoldsQueue : HoldsQueue screen []
unfolding ring_from
screen-HoldsQueue = record {
  ring = record { size = omega arith; head_in = omega arith; tail_in = omega arith };
  queue = refl;
}

write-get_chars_example :
    (sys' : System) × (syscall_handler system no_ext2 (write (pos 1) (codes "hz"))
      ≡ some (number (pos 2), sys'))
    × (get_chars 2 sys' no_ext2 ≡ numbers (chars_to_ints (codes "hz")))
write-get_chars_example =
    write-get_chars system no_ext2 (codes "hz") screen-HoldsQueue (omega arith)

no_window : is_valid one_window none ≡ false
unfolding is_valid
no_window = refl

-- The window has been destroyed, and its memory holds something else.
abbrev destroyed : System
destroyed = record system {
  wm = record one_window { objects = record null_window { magic = 5 } ∷ [] };
}

abbrev desktop : Desktop
desktop = record {
  wm = one_window;
  mouse_x = pos 0;
  mouse_y = pos 0;
  mouse_l = false;
  prev_mouse_l = false;
  prev_mouse_r = false;
  dragging_window = none;
  drag_off_x = pos 0;
  drag_off_y = pos 0;
  desktop_ctx_menu_open = false;
  ctx_x = pos 0;
  ctx_y = pos 0;
  start_menu_open = false;
  vesa_width = pos 1024;
  vesa_height = pos 768;
  calls = [];
}

key-polled_example :
    let (p, wm') = event_poll (wm_handle_key desktop b'a').wm 0 in
    (p ≡ event (key b'a')) × ((event_poll wm' 0).0 ≡ nothing)
key-polled_example =
    key-polled desktop 0 [] b'a' refl (omega arith) refl refl refl refl (omega arith) refl
