-- ===== src/WindowManager/Tests.antt =====
-- The windows of src/gui/window_manager.c: three in the list.
use hz_os.Base.{
  ℕ, ◌+◌, ◌≤◌, ◌≡◌, ◌≢◌, false, true, [], ◌∷◌, none, some, if◌then◌else◌, ◌==◌, arith, refl,
}
use hz_os.WindowManager.{
  Wm, null_window, wm_magic, focus_order, found_behind, unlink, wm_focus_window, wm_remove_window,
}
use hz_os.WindowManager.Order.{count}
use hz_os.Base.Int.{pos, negsuc, ◌+ℤ◌, ◌-ℤ◌}
use hz_os.WindowManager.Desktop.{
  Desktop, MouseState, click_window, event_poll, quit, wm_update, read_mouse, clip, right_button,
  click, click_below, first_hit, click_parts,
}
use hz_os.WindowManager.Drag.{Follows, OnScreen, update-Follows}
use hz_os.WindowManager.Close.{OnClose, close-leaks}

abbrev three : Wm
three = record {
  objects =
      record null_window { magic = wm_magic; surface = some 4096 }
      ∷ record null_window { magic = wm_magic; surface = none }
      ∷ record null_window { magic = wm_magic; surface = none }
      ∷ [];
  windows = 2 ∷ 1 ∷ 0 ∷ [];
  freed = [];
  freed_surfaces = [];
}

one_in : 1 ≤ count 1 three.windows
unfolding count
one_in = omega arith

focus_middle : (wm_focus_window three (some 1)).windows ≡ 1 ∷ 2 ∷ 0 ∷ []
unfolding wm_focus_window focus_order found_behind unlink
focus_middle = refl

-- A desktop with the mouse over the close button of window 1, which stands at (100, 100).
abbrev over_close : Desktop
over_close = record {
  wm = record three {
    objects =
        record null_window { magic = wm_magic }
        ∷ record null_window {
          magic = wm_magic;
          x = pos 100;
          y = pos 100;
          width = pos 200;
          height = pos 150;
          surface = some 4096;
        }
        ∷ record null_window { magic = wm_magic }
        ∷ [];
  };
  mouse_x = pos 280;
  mouse_y = pos 80;
  mouse_l = true;
  prev_mouse_l = false;
  prev_mouse_r = false;
  dragging_window = none;
  drag_off_x = pos 0;
  drag_off_y = pos 0;
  desktop_ctx_menu_open = false;
  ctx_x = pos 0;
  ctx_y = pos 0;
  start_menu_open = false;
  vesa_width = pos 1024;
  vesa_height = pos 768;
  calls = [];
}

over_close-OnClose : OnClose over_close 1
unfolding ◌+ℤ◌ ◌-ℤ◌
over_close-OnClose = refl

close-leaks_example :
    let d' = click_window over_close 1 in
    ((x : ℕ) → (if 1 == x then 1 else 0) + count x d'.wm.windows ≡ count x over_close.wm.windows)
    × (d'.wm.freed ≡ [])
    × (d'.wm.freed_surfaces ≡ [])
    × (wm_magic ≡ wm_magic → (event_poll d'.wm 1).0 ≢ quit)
close-leaks_example = close-leaks over_close 1 one_in over_close-OnClose

-- The click through wm_update.
close_click :
    (wm_update over_close
      (record { x = pos 280; y = pos 80; left_down = true; right_down = false })).wm.windows
    ≡ 2 ∷ 0 ∷ []
unfolding wm_update read_mouse clip right_button click click_below first_hit click_window
    click_parts wm_focus_window wm_remove_window focus_order found_behind unlink ◌+ℤ◌ ◌-ℤ◌
close_click = refl

-- Window 1 is dragged by a point of its title.
abbrev held : Desktop
held = record over_close { dragging_window = some 1; drag_off_x = pos 50; drag_off_y = negsuc 9 }

abbrev mouse_at : ℕ → ℕ → MouseState
mouse_at x y = record { x = pos x; y = pos y; left_down = true; right_down = false }

update-Follows_example :
    let d1 = wm_update held (mouse_at 20 30) in
    let d2 = wm_update d1 (mouse_at 25 70000) in
    Follows 1 d1 d2
    × (OnScreen 1024 (pos 20) d1.mouse_x × OnScreen 768 (pos 30) d1.mouse_y)
    × (OnScreen 1024 (pos 25) d2.mouse_x × OnScreen 768 (pos 70000) d2.mouse_y)
update-Follows_example =
    update-Follows held 1 1024 768 (mouse_at 20 30) (mouse_at 25 70000) (omega arith) refl refl refl
      refl refl (omega arith) (omega arith) (omega arith) (omega arith) (omega arith) (omega arith)
