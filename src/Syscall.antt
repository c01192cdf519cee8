-- ===== src/Syscall.antt =====
-- The system calls, src/core/syscall.c, on the terminal, the windows and the shell.
mod Tests
pub mod Calls
use hz_os.Base.{
  ℕ, zero, suc, ◌+◌, ◌-◌, ◌/◌, ◌%◌, ◌^◌, Bool, true, false, not, Option, none, some, List, [], ◌∷◌,
  ◌++◌, length, modify, if◌then◌else◌, ltb, ◌==◌,
}
use hz_os.Base.Int.{ℤ, pos, negsuc}
use hz_os.Terminal.{Terminal, terminal_write, terminal_get_char}
use hz_os.WindowManager.{Wm, Window, wm_magic, window_at, wm_create_window}
use hz_os.WindowManager.Desktop.{Polled, quit, nothing, event, event_poll, change}
use hz_os.Command.{Shell, command_execute}

-- What is drawn to a window.
pub data Draw : Type 0 where
  text : ℕ → ℤ → ℤ → List ℕ → ℕ → Draw
  rect : ℕ → ℤ → ℤ → ℤ → ℤ → ℕ → Draw

pub record System : Type 0 where
  pub terminal : Terminal
  pub wm : Wm
  pub shell : Shell
  pub draws : List Draw

-- The number of a call with its arguments as they are used: a window is given by its index, none
-- for NULL, a string by its characters. sys_write gets as many bytes as it is told.
-- `window_open` also has what kmalloc_z gives for the window and for its surface.
pub data Request : Type 0 where
  exit : ℤ → Request
  write : ℤ → List ℕ → Request
  window_open : ℤ → ℤ → ℤ → ℤ → List ℕ → Option (Option ℕ) → Request
  draw_text : Option ℕ → ℤ → ℤ → List ℕ → ℕ → Request
  fill_rect : Option ℕ → ℕ → ℕ → ℕ → Request
  poll : Option ℕ → Bool → Request
  shell_exec : List ℕ → Request
  get_char : Request
  other : ℕ → Request

-- What is left in rax.
pub data Answer : Type 0 where
  null : Answer
  number : ℤ → Answer
  window : Option ℕ → Answer
  polled : Polled → Answer
  unchanged : Answer

abbrev pub sys_write : System → ℤ → List ℕ → Answer × System
sys_write sys (pos (suc zero)) buf =
    (number (pos (length buf)), record sys { terminal = terminal_write sys.terminal buf })
sys_write sys fd buf = (number (negsuc 0), sys)

abbrev pub for_program : Window → Window
for_program w = record w { is_userland = true }

-- A window with is_userland; `none` is a failed kmalloc_z.
abbrev pub sys_window_open : System → ℤ → ℤ → ℤ → ℤ → List ℕ → Option (Option ℕ) → Answer × System
sys_window_open sys x y w h title none = (window none, sys)
sys_window_open sys x y w h title (some surface) =
    let (win, wm) = wm_create_window sys.wm x y w h title surface in
    (window (some win), record sys { wm = change wm win for_program })

-- `win && win->magic == WM_MAGIC`
unfoldable pub is_valid : Wm → Option ℕ → Bool
is_valid wm none = false
is_valid wm (some win) = (window_at wm win).magic == wm_magic

abbrev pub draw : System → Draw → System
draw sys d = record sys { draws = sys.draws ++ (d ∷ []) }

-- An int of 32 bits.
abbrev pub int32 : ℕ → ℤ
int32 n = let m = n % 2 ^ 32 in if ltb m (2 ^ 31) then pos m else negsuc (2 ^ 32 - 1 - m)

abbrev pub draw_on : System → Option ℕ → (ℕ → Draw) → System
draw_on sys none f = sys
draw_on sys (some win) f = if is_valid sys.wm (some win) then draw sys (f win) else sys

-- The upper part of a pair of coordinates and the lower 16 bits, which are never negative.
abbrev pub rect_of : ℕ → ℕ → ℕ → ℕ → Draw
rect_of xy wh color win =
    rect win (int32 (xy / 2 ^ 16)) (pos (xy % 2 ^ 16)) (int32 (wh / 2 ^ 16)) (pos (wh % 2 ^ 16))
      color

-- The flag tells that there is a place for the event.
abbrev pub sys_poll : System → Option ℕ → Bool → Answer × System
sys_poll sys none dest = (polled quit, sys)
sys_poll sys (some win) false = (polled quit, sys)
sys_poll sys (some win) true =
    let (p, wm) = event_poll sys.wm win in (polled p, record sys { wm = wm })

abbrev pub executed : System → Option Shell → Option (Answer × System)
executed sys none = none
executed sys (some sh) = some (null, record sys { shell = sh })

-- syscall_handler; `none` where a command is undefined. sys_exit only prints.
unfoldable pub syscall_handler :
    System → (List ℕ → Option (List ℕ)) → Request → Option (Answer × System)
syscall_handler sys ext2 (exit code) = some (null, sys)
syscall_handler sys ext2 (write fd buf) = some (sys_write sys fd buf)
syscall_handler sys ext2 (window_open x y w h title memory) =
    some (sys_window_open sys x y w h title memory)
syscall_handler sys ext2 (draw_text win x y str color) =
    some (null, draw_on sys win (λ w. text w x y str color))
syscall_handler sys ext2 (fill_rect win xy wh color) =
    some (null, draw_on sys win (rect_of xy wh color))
syscall_handler sys ext2 (poll win dest) = some (sys_poll sys win dest)
syscall_handler sys ext2 (shell_exec command) =
    executed sys (command_execute sys.shell ext2 command)
syscall_handler sys ext2 get_char =
    let (c, t) = terminal_get_char sys.terminal in some (number c, record sys { terminal = t })
syscall_handler sys ext2 (other num) = some (unchanged, sys)
