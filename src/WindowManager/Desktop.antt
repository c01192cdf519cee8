-- ===== src/WindowManager/Desktop.antt =====
-- The input of the desktop: wm_update and wm_handle_key of src/gui/window_manager.c, and the polling
-- of events by src/core/syscall.c. Coordinates are integers without overflow.
use hz_os.Base.{
  ℕ, zero, suc, ◌+◌, ◌%◌, Bool, true, false, ◌&&◌, not, Option, none, some, List, [], ◌∷◌, ◌++◌,
  get_or, modify, if◌then◌else◌, ◌==◌,
}
use hz_os.Base.Int.{ℤ, pos, ◌+ℤ◌, ◌-ℤ◌, ◌/ℤ◌, lt_ℤ, le_ℤ, is_neg, wrap_int}
use hz_os.WindowManager.{
  Wm, Window, HzEvent, key, mouse_button, no_event, wm_magic, event_queue_size, is_head, window_at,
  wm_push_event, wm_focus_window, wm_remove_window,
}

-- What the desktop calls: the programs of its menus and icons, the machine, the callbacks.
pub data Call : Type 0 where
  terminal_app_create : Call
  notepad_create : Call
  calculator_create : Call
  usagemgr_create : Call
  about_create : Call
  restart : Call
  shutdown : Call
  toggle_layout : Call
  on_click : ℕ → ℤ → ℤ → Call
  on_key : ℕ → ℕ → Call

-- The static variables, with `calls` as a list. The windows that a program creates
-- are not entered.
pub record Desktop : Type 0 where
  pub wm : Wm
  pub mouse_x : ℤ
  pub mouse_y : ℤ
  pub mouse_l : Bool
  pub prev_mouse_l : Bool
  pub prev_mouse_r : Bool
  pub dragging_window : Option ℕ
  pub drag_off_x : ℤ
  pub drag_off_y : ℤ
  pub desktop_ctx_menu_open : Bool
  pub ctx_x : ℤ
  pub ctx_y : ℤ
  pub start_menu_open : Bool
  pub vesa_width : ℤ
  pub vesa_height : ℤ
  pub calls : List Call

-- mouse_state_t without the middle button.
pub record MouseState : Type 0 where
  pub x : ℤ
  pub y : ℤ
  pub left_down : Bool
  pub right_down : Bool

abbrev pub call : Desktop → Call → Desktop
call d c = record d { calls = d.calls ++ (c ∷ []) }

-- lo ≤ a < lo + size
abbrev pub between : ℤ → ℤ → ℤ → Bool
between lo size a = le_ℤ lo a && lt_ℤ a (lo +ℤ size)

-- The two tests of a coordinate.
unfoldable pub clip : ℤ → ℤ → ℤ
clip size a =
    let low = if is_neg a then pos 0 else a in if le_ℤ size low then size -ℤ pos 1 else low

unfoldable pub read_mouse : Desktop → MouseState → Desktop
read_mouse d s = record d {
  mouse_x = clip d.vesa_width s.x;
  mouse_y = clip d.vesa_height s.y;
  mouse_l = s.left_down;
}

abbrev pub place : ℤ → ℤ → Window → Window
place x y w = record w { x = x; y = y }

abbrev pub minimize : Bool → Window → Window
minimize b w = record w { minimized = b }

abbrev pub change : Wm → ℕ → (Window → Window) → Wm
change wm win f = record wm { objects = modify wm.objects win f }

unfoldable pub drag : Desktop → ℕ → Desktop
drag d win =
    if d.mouse_l
    then record d {
      wm =
          change d.wm win
            (place (wrap_int (d.mouse_x -ℤ d.drag_off_x)) (wrap_int (d.mouse_y -ℤ d.drag_off_y)));
      prev_mouse_l = true;
    }
    else record d { dragging_window = none; prev_mouse_l = false }

-- Whether a window is hit: it is not minimized, and the mouse is over it or its title.
abbrev pub is_hit : Desktop → ℕ → Bool
is_hit d win =
    let w = window_at d.wm win in
    not w.minimized
    && (between w.x w.width d.mouse_x && between (w.y -ℤ pos 30) (w.height +ℤ pos 30) d.mouse_y)

-- The first window from the head of the list on that is hit.
unfoldable pub first_hit : Desktop → List ℕ → Option ℕ
first_hit d [] = none
first_hit d (win ∷ rest) = let more = first_hit d rest in if is_hit d win then some win else more

unfoldable pub open_ctx_menu : Desktop → Desktop
open_ctx_menu d = record d {
  desktop_ctx_menu_open = true;
  ctx_x = if lt_ℤ d.vesa_width (d.mouse_x +ℤ pos 150) then d.vesa_width -ℤ pos 150 else d.mouse_x;
  ctx_y = if lt_ℤ d.vesa_height (d.mouse_y +ℤ pos 135) then d.vesa_height -ℤ pos 135 else d.mouse_y;
  start_menu_open = false;
}

-- The right button, which `down` tells of.
unfoldable pub right_button : Desktop → Bool → Desktop
right_button d down =
    let opened : Desktop = elim (first_hit d d.wm.windows) [
      | none ↦ open_ctx_menu d
      | some win ↦ d
    ] in
    record (if down && not d.prev_mouse_r then opened else d) { prev_mouse_r = down }

abbrev pub ctx_item : Desktop → ℤ → Desktop
ctx_item d (pos zero) = call d terminal_app_create
ctx_item d (pos (suc zero)) = call d notepad_create
ctx_item d (pos (suc (suc zero))) = call d calculator_create
ctx_item d (pos (suc (suc (suc zero)))) = call d usagemgr_create
ctx_item d i = d

unfoldable pub click_ctx_menu : Desktop → Desktop
click_ctx_menu d =
    let inside = between d.ctx_x (pos 150) d.mouse_x && between d.ctx_y (pos 135) d.mouse_y in
    record (if inside then ctx_item d ((d.mouse_y -ℤ (d.ctx_y +ℤ pos 5)) /ℤ pos 24) else d) {
      desktop_ctx_menu_open = false;
    }

-- After shutdown the code does not go on.
abbrev pub start_item : Desktop → ℤ → Desktop
start_item d (pos zero) = call d notepad_create
start_item d (pos (suc zero)) = call d terminal_app_create
start_item d (pos (suc (suc zero))) = call d calculator_create
start_item d (pos (suc (suc (suc zero)))) = call d usagemgr_create
start_item d (pos (suc (suc (suc (suc zero))))) = call d about_create
start_item d (pos (suc (suc (suc (suc (suc zero)))))) = call d restart
start_item d (pos (suc (suc (suc (suc (suc (suc zero))))))) = call d shutdown
start_item d i = d

-- The part of a click on a window behind the event: the close button, the minimize button, the
-- title, the client area.
unfoldable pub click_parts : Desktop → ℕ → Desktop
click_parts d win =
    let w = window_at d.wm win in
    let btn_x = w.x +ℤ w.width -ℤ pos 24 in
    let btn_y = w.y -ℤ pos 30 +ℤ pos 7 in
    let rel_x = d.mouse_x -ℤ w.x in
    let rel_y = d.mouse_y -ℤ w.y in
    let in_button = between btn_y (pos 16) d.mouse_y in
    if between btn_x (pos 16) d.mouse_x && in_button
    then record d { wm = wm_remove_window d.wm (some win) }
    else if between (btn_x -ℤ pos 24) (pos 16) d.mouse_x && in_button
    then record d { wm = change d.wm win (minimize true) }
    else if lt_ℤ d.mouse_y w.y
    then record d { dragging_window = some win; drag_off_x = rel_x; drag_off_y = rel_y }
    else if between w.x w.width d.mouse_x && between w.y w.height d.mouse_y && w.on_click
    then call d (on_click win rel_x rel_y)
    else d

-- The focus of the window that is hit and the event for a program.
abbrev pub announce : Wm → ℤ → ℤ → Bool → ℕ → Wm
announce wm mx my buttons win =
    let focused = wm_focus_window wm (some win) in
    let w = window_at focused win in
    if w.is_userland
    then wm_push_event focused win (mouse_button (mx -ℤ w.x) (my -ℤ w.y) buttons)
    else focused

unfoldable pub click_window : Desktop → ℕ → Desktop
click_window d win =
    click_parts (record d { wm = announce d.wm d.mouse_x d.mouse_y d.mouse_l win }) win

-- The click on the button of a window in the taskbar.
abbrev pub taskbar_window : Desktop → ℕ → Desktop
taskbar_window d win =
    if not (window_at d.wm win).minimized && is_head d.wm.windows win
    then record d { wm = change d.wm win (minimize true) }
    else record d { wm = wm_focus_window (change d.wm win (minimize false)) (some win) }

-- The buttons from `btn_x` on, each 120 wide with 8 between them.
unfoldable pub click_taskbar : Desktop → List ℕ → ℤ → Desktop
click_taskbar d [] btn_x = d
click_taskbar d (win ∷ rest) btn_x =
    let more = click_taskbar d rest (btn_x +ℤ pos 128) in
    if between btn_x (pos 120) d.mouse_x then taskbar_window d win else more

abbrev pub icon : Desktop → Desktop
icon d =
    if not (between (pos 20) (pos 48) d.mouse_x)
    then d
    else if between (pos 20) (pos 48) d.mouse_y
    then call d notepad_create
    else if between (pos 110) (pos 48) d.mouse_y
    then call d terminal_app_create
    else if between (pos 200) (pos 48) d.mouse_y
    then call d about_create
    else if between (pos 290) (pos 48) d.mouse_y
    then call d calculator_create
    else if between (pos 380) (pos 48) d.mouse_y
    then call d usagemgr_create
    else d

-- A click that no window gets.
unfoldable pub click_desktop : Desktop → Desktop
click_desktop d =
    if lt_ℤ d.mouse_y (d.vesa_height -ℤ pos 48)
    then icon d
    else if between (d.vesa_width -ℤ pos 110) (pos 40) d.mouse_x
    then call d toggle_layout
    else click_taskbar d d.wm.windows (pos 60)

unfoldable pub click_below : Desktop → Desktop
click_below d = elim (first_hit d d.wm.windows) [
  | none ↦ click_desktop d
  | some win ↦ click_window d win
]

abbrev pub in_start_menu : Desktop → Bool
in_start_menu d =
    between (pos 10) (pos 180) d.mouse_x
    && between (d.vesa_height -ℤ pos 54 -ℤ pos 260) (pos 260) d.mouse_y

unfoldable pub click_start_menu : Desktop → Desktop
click_start_menu d =
    let rel_y = d.mouse_y -ℤ (d.vesa_height -ℤ pos 54 -ℤ pos 260 +ℤ pos 12) in
    if in_start_menu d
    then record (start_item d (rel_y /ℤ pos 32)) { start_menu_open = false }
    else click_below (record d { start_menu_open = false })

-- The left button, when it goes down.
unfoldable pub click : Desktop → Desktop
click d =
    if d.desktop_ctx_menu_open
    then click_ctx_menu d
    else if between (pos 10) (pos 32) d.mouse_x
        && between (d.vesa_height -ℤ pos 48 +ℤ pos 8) (pos 32) d.mouse_y
    then record d { start_menu_open = not d.start_menu_open }
    else if d.start_menu_open
    then click_start_menu d
    else click_below d

abbrev pub buttons : Desktop → Bool → Desktop
buttons d right_down =
    let seen = right_button d right_down in
    let pressed = record seen { prev_mouse_l = seen.mouse_l } in
    if seen.mouse_l && not seen.prev_mouse_l then click pressed else pressed

unfoldable pub wm_update : Desktop → MouseState → Desktop
wm_update d s =
    let read = read_mouse d s in
    elim read.dragging_window [ none ↦ buttons read s.right_down | some win ↦ drag read win ]

abbrev pub key_to : Desktop → ℕ → ℕ → Desktop
key_to d c win =
    let w = window_at d.wm win in
    if w.minimized
    then d
    else if w.is_userland
    then record d { wm = wm_push_event d.wm win (key c) }
    else if w.on_key
    then call d (on_key win c)
    else d

unfoldable pub wm_handle_key : Desktop → ℕ → Desktop
wm_handle_key d c = elim d.wm.windows [ [] ↦ d | win ∷ rest ↦ key_to d c win ]

-- What a program finds: that its window is gone, nothing, or an event.
pub data Polled : Type 0 where
  quit : Polled
  nothing : Polled
  event : HzEvent → Polled

abbrev pub drop_event : Window → Window
drop_event w = record w { event_tail = (w.event_tail + 1) % event_queue_size }

-- sys_gui_event_poll_wrapper with a handle that is a window and a place for the event.
unfoldable pub event_poll : Wm → ℕ → Polled × Wm
event_poll wm win =
    let w = window_at wm win in
    if not (w.magic == wm_magic)
    then (quit, wm)
    else if w.event_head == w.event_tail
    then (nothing, wm)
    else (event (get_or w.event_queue w.event_tail no_event), change wm win drop_event)
