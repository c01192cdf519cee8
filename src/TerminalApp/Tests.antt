-- ===== src/TerminalApp/Tests.antt =====
-- The window of src/apps/terminal_app.c at concrete inputs.
use hz_os.Base.{ℕ, ◌≡◌, false, List, [], ◌∷◌, ◌++◌, Option, none, some, arith, refl}
use hz_os.Base.Text.{codes}
use hz_os.Fs.{same_name}
use hz_os.Fs.Session.{fs_init}
use hz_os.Command.{
  Shell, Effect, chars, command_execute, dispatch, skip_spaces, split_word, find_command, run,
}
use hz_os.TerminalApp.{
  App, term_puts, terminal_app_key, terminal_app_create, empty_app, color_code, escape_color,
}
use hz_os.TerminalApp.Paper.{Paper, Shows, paper_puts}
use hz_os.TerminalApp.Printing.{puts-Shows, empty_app-Shows}
use hz_os.TerminalApp.Escape.{SameText, visible, puts_visible}
use hz_os.TerminalApp.Session.{typed, outputs, typed-runs}
use hz_os.TerminalApp.Bounds.{AllApp, key-AllApp, create-IsApp}

-- "a", the colour red, "b".
abbrev red_text : List ℕ
red_text = b'a' ∷ 27 ∷ (codes "[31mb")

abbrev no_ext2 : List ℕ → Option (List ℕ)
no_ext2 path = none

abbrev print : Effect → List ℕ
print (chars cs) = cs
print e = []

abbrev shell : Shell
shell = record { fs = fs_init; effects = [] }

abbrev sheet : Paper
sheet = record { lines = []; line = [] }

red_visible : visible false red_text ≡ codes "ab"
unfolding visible
red_visible = refl

red_code : escape_color (codes "[31m") 5 ≡ 0xFFCC0000
unfolding escape_color color_code
red_code = refl

bright_code : escape_color (codes "[91m") 5 ≡ 0xFFDD5555
unfolding escape_color color_code
bright_code = refl

-- The number of a sequence wraps around.
wrapped_code : escape_color (codes "[4294967327m") 5 ≡ 0xFFCC0000
unfolding escape_color color_code
wrapped_code = refl

puts-Shows_example :
    Shows (term_puts empty_app (codes "ab")) (paper_puts empty_app.current_color sheet (codes "ab"))
puts-Shows_example =
    puts-Shows empty_app sheet (codes "ab") empty_app-Shows refl
      ((λ e. absurd (omega arith)), ((λ e. absurd (omega arith)), tt))

puts_visible_example :
    SameText
      (term_puts empty_app red_text)
      (term_puts empty_app (visible empty_app.in_escape red_text))
puts_visible_example =
    puts_visible empty_app empty_app red_text
      (record { same_chars = refl; same_row = refl; same_col = refl }) refl

key-AllApp_example : AllApp (terminal_app_key print no_ext2 (terminal_app_create, shell) b'a')
key-AllApp_example = key-AllApp print no_ext2 terminal_app_create shell b'a' create-IsApp

abbrev printed : Effect
printed = chars (codes "hi" ++ (10 ∷ []))

echo_hi :
    command_execute shell no_ext2 (codes "echo hi") ≡ some (record shell { effects = printed ∷ [] })
unfolding command_execute dispatch skip_spaces split_word find_command same_name run
echo_hi = refl

typed-runs_example :
    (s' : App) × (typed print no_ext2 (empty_app, shell) (codes "echo hi" ++ (10 ∷ []))
      ≡ some (s', record shell { effects = printed ∷ [] }))
    × Shows s' (
        paper_puts empty_app.current_color sheet
          (codes "> " ++ codes "echo hi" ++ (10 ∷ []) ++ outputs print (printed ∷ [])))
    × (s'.cmd_line ≡ [])
unfolding outputs
typed-runs_example =
    typed-runs print no_ext2 empty_app shell (record shell { effects = printed ∷ [] }) sheet
      (codes "echo hi") empty_app-Shows refl refl (omega arith) (omega arith) (ground arith) echo_hi
      (ground arith)
