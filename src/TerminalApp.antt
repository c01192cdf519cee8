-- ===== src/TerminalApp.antt =====
-- The terminal window of src/apps/terminal_app.c: its screen and colour escapes, and its command line.
pub mod Paper
pub mod Printing
pub mod Escape
pub mod Session
pub mod Bounds
mod Tests
use Prim.Native.Nat.{bit_or}
use hz_os.Base.{
  ℕ, zero, suc, ◌+◌, ◌-◌, ◌*◌, ◌%◌, ◌^◌, Bool, true, false, ◌&&◌, ◌||◌, not, List, [], ◌∷◌, ◌++◌,
  Option, none, some, if◌then◌else◌, ltb, leb, ◌==◌, get_or, set, modify, take, drop, replicate,
  length,
}
use hz_os.Base.Text.{codes}
use hz_os.Command.{Shell, Effect, command_execute}

abbrev pub term_rows : ℕ
term_rows = 16

abbrev pub term_cols : ℕ
term_cols = 52

abbrev pub max_cmd : ℕ
max_cmd = 64

abbrev pub default_fg : ℕ
default_fg = 0xFF00FF00

abbrev pub ansi_colors : List ℕ
ansi_colors =
    0xFF000000 ∷ 0xFFCC0000 ∷ 0xFF4E9A06 ∷ 0xFFC4A000 ∷ 0xFF3465A4 ∷ 0xFF75507B ∷ 0xFF06989A
    ∷ 0xFFD3D7CF ∷ []

-- The entries of `screen` and `colors` at one place.
pub record Cell : Type 0 where
  pub char : ℕ
  pub color : ℕ

-- `cmd_line` and `escape_buf` are the characters below `cmd_len` and `escape_len`.
pub record App : Type 0 where
  pub screen : List (List Cell)
  pub cursor_row : ℕ
  pub cursor_col : ℕ
  pub cmd_line : List ℕ
  pub in_escape : Bool
  pub escape_buf : List ℕ
  pub current_color : ℕ

abbrev pub blank : Cell
blank = record { char = b' '; color = default_fg }

abbrev pub blank_row : List Cell
blank_row = replicate term_cols blank

abbrev pub is_digit : ℕ → Bool
is_digit c = leb b'0' c && leb c b'9'

abbrev pub is_letter : ℕ → Bool
is_letter c = (leb b'a' c && leb c b'z') || (leb b'A' c && leb c b'Z')

abbrev pub is_printable : ℕ → Bool
is_printable c = leb 32 c && leb c 126

abbrev pub is_newline : ℕ → Bool
is_newline c = (c == 10) || (c == 13)

-- Every row moves up by one, and the last one is blank.
unfoldable pub term_scroll : App → App
term_scroll s = record s {
  screen = drop 1 s.screen ++ (blank_row ∷ []);
  cursor_row = s.cursor_row - 1;
}

-- The `int` of the digits, which wraps around, and what follows them.
unfoldable pub color_code : ℕ → List ℕ → ℕ × List ℕ
color_code n [] = (n, [])
color_code n (c ∷ cs) =
    let rest = color_code ((n * 10 + (c - b'0')) % 2 ^ 32) cs in
    if is_digit c then rest else (n, c ∷ cs)

abbrev pub color_of : ℕ → ℕ → ℕ
color_of code color =
    if code == 0
    then default_fg
    else if leb 30 code && leb code 37
    then get_or ansi_colors (code - 30) 0
    else if leb 90 code && leb code 97
    then bit_or (get_or ansi_colors (code - 90) 0) 0x00555555
    else color

abbrev pub coloured : ℕ × List ℕ → ℕ → ℕ
coloured (code, []) color = color
coloured (code, c ∷ cs) color = if c == b'm' then color_of code color else color

unfoldable pub escape_color : List ℕ → ℕ → ℕ
escape_color [] color = color
escape_color (c ∷ cs) color =
    let set_to = coloured (color_code 0 cs) color in if c == b'[' then set_to else color

abbrev pub term_parse_escape : App → App
term_parse_escape s = record s { current_color = escape_color s.escape_buf s.current_color }

-- The buffer of 16 bytes keeps its last one for the NUL.
abbrev pub escape_push : App → ℕ → App
escape_push s c =
    if ltb (length s.escape_buf) 15 then record s { escape_buf = s.escape_buf ++ (c ∷ []) } else s

unfoldable pub escape_putc : App → ℕ → App
escape_putc s c =
    if is_letter c
    then record (term_parse_escape (escape_push s c)) { in_escape = false }
    else escape_push s c

unfoldable pub put_char : App → ℕ → App
put_char s c =
    if is_newline c
    then record s { cursor_col = 0; cursor_row = s.cursor_row + 1 }
    else if is_printable c && ltb s.cursor_col term_cols
    then record s {
      screen =
          modify s.screen s.cursor_row
            (λ row. set row s.cursor_col (record { char = c; color = s.current_color }));
      cursor_col = s.cursor_col + 1;
    }
    else s

unfoldable pub wrap_col : App → App
wrap_col s =
    if leb term_cols s.cursor_col
    then record s { cursor_col = 0; cursor_row = s.cursor_row + 1 }
    else s

unfoldable pub wrap_row : App → App
wrap_row s = if leb term_rows s.cursor_row then term_scroll s else s

unfoldable pub term_putc : App → ℕ → App
term_putc s c =
    if s.in_escape
    then escape_putc s c
    else if c == 27
    then record s { in_escape = true; escape_buf = [] }
    else wrap_row (wrap_col (put_char s c))

unfoldable pub term_puts : App → List ℕ → App
term_puts s [] = s
term_puts s (c ∷ cs) = term_puts (term_putc s c) cs

-- What the effects of a command pass to terminal_app_sink, one after the other.
unfoldable pub sunk : (Effect → List ℕ) → App → List Effect → App
sunk print s [] = s
sunk print s (e ∷ es) = sunk print (term_puts s (print e)) es

-- The command of the line, which is not empty, with the sink set to this window.
unfoldable pub run_line :
    (Effect → List ℕ) → (List ℕ → Option (List ℕ)) → App → Shell → Option (App × Shell)
run_line print ext2 s sh = elim (command_execute (record sh { effects = [] }) ext2 s.cmd_line) [
  | none ↦ none
  | some sh' ↦ some (
    record (sunk print s sh'.effects) { cmd_line = [] },
    record sh' { effects = sh.effects ++ sh'.effects },
  )
]

unfoldable pub enter_line :
    (Effect → List ℕ) → (List ℕ → Option (List ℕ)) → App → Shell → Option (App × Shell)
enter_line print ext2 s sh =
    let echoed = term_putc (term_puts (term_puts s (codes "> ")) s.cmd_line) 10 in
    if ltb 0 (length s.cmd_line)
    then run_line print ext2 echoed sh
    else some (record echoed { cmd_line = [] }, sh)

-- `print` gives the characters that an effect of a command passes to terminal_putc.
unfoldable pub terminal_app_key :
    (Effect → List ℕ) → (List ℕ → Option (List ℕ)) → App × Shell → ℕ → Option (App × Shell)
terminal_app_key print ext2 (s, sh) key =
    if key == 8
    then some (record s { cmd_line = take (length s.cmd_line - 1) s.cmd_line }, sh)
    else if is_newline key
    then enter_line print ext2 s sh
    else if is_printable key && ltb (length s.cmd_line) (max_cmd - 1)
    then some (record s { cmd_line = s.cmd_line ++ (key ∷ []) }, sh)
    else some (s, sh)

abbrev pub empty_app : App
empty_app = record {
  screen = replicate term_rows blank_row;
  cursor_row = 0;
  cursor_col = 0;
  cmd_line = [];
  in_escape = false;
  escape_buf = [];
  current_color = default_fg;
}

-- The state that terminal_app_create gives its window.
unfoldable pub terminal_app_create : App
terminal_app_create =
    term_puts empty_app (codes "hzOS Terminal - Type 'help' for commands" ++ (10 ∷ []))
