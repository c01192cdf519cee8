-- ===== src/WindowManager.antt =====
-- The windows of src/gui/window_manager.c: their list, focus, removal and event queues.
pub mod Order
pub mod Desktop
pub mod Close
pub mod Drag
mod Tests
use hz_os.Base.{
  ℕ, zero, suc, ◌+◌, Bool, true, false, List, [], ◌∷◌, ◌++◌, Option, none, some, if◌then◌else◌,
  ◌==◌, get_or, modify, replicate, take, length, set, ◌%◌, leb, ltb, ◌&&◌, ◌||◌,
}
use hz_os.Base.Int.{ℤ, pos, negsuc}

abbrev pub wm_magic : ℕ
wm_magic = 1213880141

-- hz_event_t with the fields that are set.
pub data HzEvent : Type 0 where
  no_event : HzEvent
  key : ℕ → HzEvent
  mouse_button : ℤ → ℤ → Bool → HzEvent

abbrev pub event_queue_size : ℕ
event_queue_size = 16

-- `minimized` is the flag 1, `surface` the address of the pixels, `on_key` and `on_click` whether there
-- is a callback. Of the other fields, bg_color, user_data and on_paint serve drawing.
pub record Window : Type 0 where
  pub magic : ℕ
  pub x : ℤ
  pub y : ℤ
  pub width : ℤ
  pub height : ℤ
  pub title : List ℕ
  pub minimized : Bool
  pub is_userland : Bool
  pub event_queue : List HzEvent
  pub event_head : ℕ
  pub event_tail : ℕ
  pub surface : Option ℕ
  pub on_key : Bool
  pub on_click : Bool

-- The memory that kmalloc_z gives.
abbrev pub null_window : Window
null_window = record {
  magic = 0;
  x = pos 0;
  y = pos 0;
  width = pos 0;
  height = pos 0;
  title = [];
  minimized = false;
  is_userland = false;
  event_queue = replicate event_queue_size no_event;
  event_head = 0;
  event_tail = 0;
  surface = none;
  on_key = false;
  on_click = false;
}

-- A window is an index into `objects`; `windows` are those linked from the head of the list, in
-- their order. `freed` are the windows passed to kfree, and `freed_surfaces` the surfaces.
pub record Wm : Type 0 where
  pub objects : List Window
  pub windows : List ℕ
  pub freed : List ℕ
  pub freed_surfaces : List ℕ

-- The links after `curr->next = win->next` for the window in front of `win`, if there is one.
unfoldable pub unlink : List ℕ → ℕ → List ℕ
unlink [] win = []
unlink (a ∷ []) win = a ∷ []
unlink (a ∷ b ∷ rest) win =
    let more = unlink (b ∷ rest) win in if b == win then a ∷ rest else a ∷ more

-- Whether the search for the window in front of `win` finds one.
unfoldable pub found_behind : List ℕ → ℕ → Bool
found_behind [] win = false
found_behind (a ∷ []) win = false
found_behind (a ∷ b ∷ rest) win =
    let more = found_behind (b ∷ rest) win in if b == win then true else more

abbrev pub is_head : List ℕ → ℕ → Bool
is_head [] win = false
is_head (a ∷ rest) win = a == win

abbrev pub tail : List ℕ → List ℕ
tail [] = []
tail (a ∷ rest) = rest

abbrev pub surface_of : Wm → ℕ → Option ℕ
surface_of wm win = (get_or wm.objects win null_window).surface

abbrev pub free_surface : Option ℕ → List ℕ → List ℕ
free_surface none freed = freed
free_surface (some s) freed = s ∷ freed

-- The last part of wm_remove_window.
unfoldable pub reclaim : Wm → ℕ → Wm
reclaim wm win = record wm {
  objects = modify wm.objects win (λ w. record w { magic = 0; surface = none });
  freed = win ∷ wm.freed;
  freed_surfaces = free_surface (surface_of wm win) wm.freed_surfaces;
}

unfoldable pub wm_remove_window : Wm → Option ℕ → Wm
wm_remove_window wm none = wm
wm_remove_window wm (some win) =
    if is_head wm.windows win
    then record wm { windows = tail wm.windows }
    else reclaim (record wm { windows = unlink wm.windows win }) win

unfoldable pub focus_order : List ℕ → ℕ → List ℕ
focus_order ws win =
    if is_head ws win then ws else if found_behind ws win then win ∷ unlink ws win else ws

unfoldable pub wm_focus_window : Wm → Option ℕ → Wm
wm_focus_window wm none = wm
wm_focus_window wm (some win) = record wm { windows = focus_order wm.windows win }

-- `surface` is what kmalloc_z gives for the pixels; the window is the next object.
unfoldable pub wm_create_window : Wm → ℤ → ℤ → ℤ → ℤ → List ℕ → Option ℕ → ℕ × Wm
wm_create_window wm x y w h title surface = (
  length wm.objects,
  record wm {
    objects =
        wm.objects
        ++ (record null_window {
          magic = wm_magic;
          x = x;
          y = y;
          width = w;
          height = h;
          title = take 31 title;
          surface = surface;
        }
            ∷ []);
    windows = length wm.objects ∷ wm.windows;
  },
)

-- wm_push_event on the fields of a window.
unfoldable pub push : Window → HzEvent → Window
push w ev =
    let next = (w.event_head + 1) % event_queue_size in
    if next == w.event_tail
    then w
    else record w { event_queue = set w.event_queue w.event_head ev; event_head = next }

abbrev pub wm_push_event : Wm → ℕ → HzEvent → Wm
wm_push_event wm win ev = record wm { objects = modify wm.objects win (λ w. push w ev) }

abbrev pub window_at : Wm → ℕ → Window
window_at wm win = get_or wm.objects win null_window
