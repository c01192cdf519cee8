-- ===== src/TerminalApp/Bounds.antt =====
-- The arrays of src/apps/terminal_app.c: no key writes outside them.
use hz_os.Base.{
  ℕ, zero, suc, ◌-◌, ◌≤◌, ◌<◌, ◌≡◌, ◌&&◌, List, [], ◌∷◌, Option, none, some, ltb, leb, ◌==◌, length,
  length-append, length-take, length-set, length-drop, length-modify, set, modify, drop, All,
  All-append, arith, refl, ◌∙◌, Option-cases, Bool-cases, inl, inr, if-true, if-false, if-both,
}
use hz_os.Base.Text.{codes}
use hz_os.Command.{Shell, Effect, command_execute}
use hz_os.TerminalApp.{
  App, Cell, blank_row, term_rows, term_cols, is_newline, is_printable, is_letter, max_cmd,
  put_char, escape_push, escape_putc, wrap_col, wrap_row, term_scroll, term_putc, term_puts, sunk,
  run_line, enter_line, terminal_app_key, empty_app, terminal_app_create,
}

abbrev pub IsRow : List Cell → Type 0
IsRow row = length row ≡ term_cols

-- The sizes of the two arrays, and room for the NUL behind the characters of the two buffers.
pub record IsApp (s : App) : Type 0 where
  pub rows : length s.screen ≡ term_rows
  pub columns : All IsRow s.screen
  pub row_in : s.cursor_row < term_rows
  pub col_in : s.cursor_col < term_cols
  pub escape_in : length s.escape_buf ≤ 15
  pub line_in : length s.cmd_line ≤ 63

module _ {ℓ κ} {A : Type ℓ} (P : A → Type κ) where
  All-modify :
      (xs : List A) (i : ℕ) (f : A → A)
      → ((a : A) → P a → P (f a))
      → All P xs
      → All P (modify xs i f)
  All-modify [] i f g h = h
  All-modify (x ∷ xs) zero f g h = (g x h.0, h.1)
  All-modify (x ∷ xs) (suc i) f g h = (h.0, All-modify xs i f g h.1)

  All-drop : (n : ℕ) (xs : List A) → All P xs → All P (drop n xs)
  All-drop zero xs h = h
  All-drop (suc n) [] h = h
  All-drop (suc n) (x ∷ xs) h = All-drop n xs h.1

-- A state whose cursor may stand one row or one column behind the screen.
record IsNear (s : App) : Type 0 where
  near_rows : length s.screen ≡ term_rows
  near_columns : All IsRow s.screen
  near_row : s.cursor_row ≤ term_rows
  near_col : s.cursor_col ≤ term_cols
  near_corner : s.cursor_col ≡ term_cols → s.cursor_row < term_rows
  near_escape : length s.escape_buf ≤ 15
  near_line : length s.cmd_line ≤ 63

put_char-IsNear : (s : App) (c : ℕ) → IsApp s → IsNear (put_char s c)
unfolding put_char
put_char-IsNear s c h =
    let drawn : List Cell → List Cell =
      λ row. set row s.cursor_col (record { char = c; color = s.current_color }) in
    if-both IsNear (is_newline c)
      (record {
        near_rows = h.rows;
        near_columns = h.columns;
        near_row = omega (arith, h.row_in);
        near_col = omega arith;
        near_corner = λ e. absurd (omega arith);
        near_escape = h.escape_in;
        near_line = h.line_in;
      })
      (if-both IsNear (is_printable c && ltb s.cursor_col term_cols)
        (record {
          near_rows = length-modify s.screen s.cursor_row drawn ∙ h.rows;
          near_columns =
              All-modify IsRow s.screen s.cursor_row drawn
                (λ row e. length-set row s.cursor_col _ ∙ e) h.columns;
          near_row = omega (arith, h.row_in);
          near_col = omega (arith, h.col_in);
          near_corner = λ e. h.row_in;
          near_escape = h.escape_in;
          near_line = h.line_in;
        })
        (record {
          near_rows = h.rows;
          near_columns = h.columns;
          near_row = omega (arith, h.row_in);
          near_col = omega (arith, h.col_in);
          near_corner = λ e. h.row_in;
          near_escape = h.escape_in;
          near_line = h.line_in;
        }))

wrap_row-IsApp : (s : App) → IsNear s → s.cursor_col < term_cols → IsApp (wrap_row s)
unfolding wrap_row term_scroll
wrap_row-IsApp s h col = elim (Bool-cases (leb term_rows s.cursor_row)) [
  | inl e ↦ if-true IsApp s e (record {
    rows = omega (
      arith,
      length-append (drop 1 s.screen) (blank_row ∷ []),
      length-drop 1 s.screen,
      h.near_rows,
    );
    columns =
        All-append IsRow (drop 1 s.screen) (blank_row ∷ [])
          (All-drop IsRow 1 s.screen h.near_columns) (refl, tt);
    row_in = omega (arith, h.near_row);
    col_in = col;
    escape_in = h.near_escape;
    line_in = h.near_line;
  })
  | inr e ↦ if-false IsApp (term_scroll s) e (record {
    rows = h.near_rows;
    columns = h.near_columns;
    row_in = ground arith;
    col_in = col;
    escape_in = h.near_escape;
    line_in = h.near_line;
  })
]

wrap-IsApp : (s : App) → IsNear s → IsApp (wrap_row (wrap_col s))
unfolding wrap_col
wrap-IsApp s h = elim (Bool-cases (leb term_cols s.cursor_col)) [
  | inl e ↦
      if-true (λ t. IsApp (wrap_row t)) s e
        (let full : s.cursor_col ≡ term_cols = ground (arith, h.near_col) in
          wrap_row-IsApp _
            (record {
              near_rows = h.near_rows;
              near_columns = h.near_columns;
              near_row = omega (arith, h.near_corner full);
              near_col = omega arith;
              near_corner = λ e. absurd (omega arith);
              near_escape = h.near_escape;
              near_line = h.near_line;
            })
            (omega arith))
  | inr e ↦ if-false (λ t. IsApp (wrap_row t)) _ e (wrap_row-IsApp s h (ground arith))
]

push-IsApp : (s : App) (c : ℕ) → IsApp s → IsApp (escape_push s c)
push-IsApp s c h = elim (Bool-cases (ltb (length s.escape_buf) 15)) [
  | inl e ↦ if-true IsApp s e (record {
    rows = h.rows;
    columns = h.columns;
    row_in = h.row_in;
    col_in = h.col_in;
    escape_in = ground (arith, length-append s.escape_buf (c ∷ []));
    line_in = h.line_in;
  })
  | inr e ↦ if-false IsApp _ e h
]

escape_putc-IsApp : (s : App) (c : ℕ) → IsApp s → IsApp (escape_putc s c)
unfolding escape_putc
escape_putc-IsApp s c h =
    let t = push-IsApp s c h in
    if-both IsApp (is_letter c)
      (record {
        rows = t.rows;
        columns = t.columns;
        row_in = t.row_in;
        col_in = t.col_in;
        escape_in = t.escape_in;
        line_in = t.line_in;
      })
      t

putc-IsApp : (s : App) (c : ℕ) → IsApp s → IsApp (term_putc s c)
unfolding term_putc
putc-IsApp s c h = if-both IsApp s.in_escape (escape_putc-IsApp s c h) (
    if-both IsApp (c == 27)
      (record {
        rows = h.rows;
        columns = h.columns;
        row_in = h.row_in;
        col_in = h.col_in;
        escape_in = omega arith;
        line_in = h.line_in;
      })
      (wrap-IsApp (put_char s c) (put_char-IsNear s c h)))

puts-IsApp : (s : App) (text : List ℕ) → IsApp s → IsApp (term_puts s text)
unfolding term_puts
puts-IsApp s [] h = h
puts-IsApp s (c ∷ cs) h = puts-IsApp (term_putc s c) cs (putc-IsApp s c h)

sunk-IsApp :
    (print : Effect → List ℕ) (s : App) (es : List Effect) → IsApp s → IsApp (sunk print s es)
unfolding sunk
sunk-IsApp print s [] h = h
sunk-IsApp print s (e ∷ es) h =
    sunk-IsApp print (term_puts s (print e)) es (puts-IsApp s (print e) h)

with_line :
    (s : App) (line : List ℕ) → length line ≤ 63 → IsApp s → IsApp (record s { cmd_line = line })
with_line s line fits h = record {
  rows = h.rows;
  columns = h.columns;
  row_in = h.row_in;
  col_in = h.col_in;
  escape_in = h.escape_in;
  line_in = fits;
}

abbrev pub AllApp : Option (App × Shell) → Type 0
AllApp none = Unit
AllApp (some (s, sh)) = IsApp s

module _ (print : Effect → List ℕ) (ext2 : List ℕ → Option (List ℕ)) where
  run_line-AllApp : (s : App) (sh : Shell) → IsApp s → AllApp (run_line print ext2 s sh)
  unfolding run_line
  run_line-AllApp s sh h =
      elim (Option-cases (command_execute (record sh { effects = [] }) ext2 s.cmd_line)) [
        | inl e ↦ rw (run_line, e) tt
        | inr (sh', e) ↦
            rw (run_line, e)
              (with_line (sunk print s sh'.effects) [] (omega arith)
                (sunk-IsApp print s sh'.effects h))
      ]

  enter-AllApp : (s : App) (sh : Shell) → IsApp s → AllApp (enter_line print ext2 s sh)
  unfolding enter_line
  enter-AllApp s sh h =
      let echoed = term_putc (term_puts (term_puts s (codes "> ")) s.cmd_line) 10 in
      let inside = putc-IsApp _ 10 (puts-IsApp _ s.cmd_line (puts-IsApp s (codes "> ") h)) in
      if-both AllApp (ltb 0 (length s.cmd_line)) (run_line-AllApp echoed sh inside)
        (with_line echoed [] (omega arith) inside)

  -- Whatever key is pressed and whatever a command prints, where the outcome of the command is defined,
  -- the arrays of the window keep their
  -- sizes, the cursor stays on the screen of 16 rows and 52 columns, and the characters of the
  -- command line and of an escape sequence leave room for a NUL in their buffers.
  pub key-AllApp :
      (s : App) (sh : Shell) (key : ℕ) → IsApp s → AllApp (terminal_app_key print ext2 (s, sh) key)
  unfolding terminal_app_key
  key-AllApp s sh key h =
      if-both AllApp (key == 8)
        (with_line s _ (omega (arith, h.line_in, length-take (length s.cmd_line - 1) s.cmd_line)) h)
        (if-both AllApp (is_newline key) (enter-AllApp s sh h)
          (elim (Bool-cases (is_printable key && ltb (length s.cmd_line) (max_cmd - 1))) [
            | inl e ↦
                if-true AllApp _ e
                  (with_line s _ (ground (arith, h.line_in, length-append s.cmd_line (key ∷ []))) h)
            | inr e ↦ if-false AllApp _ e h
          ]))

pub create-IsApp : IsApp terminal_app_create
unfolding terminal_app_create
create-IsApp = puts-IsApp empty_app _ (record {
  rows = refl;
  columns = ground arith;
  row_in = omega arith;
  col_in = omega arith;
  escape_in = omega arith;
  line_in = omega arith;
})
