-- ===== src/TerminalApp/Printing.antt =====
-- Printing text without escape sequences in the window of src/apps/terminal_app.c.
use hz_os.Base.{
  ℕ, ◌+◌, ◌≡◌, ◌≢◌, true, false, List, [], ◌∷◌, ltb, leb, ◌==◌, ==_of_ne, All, arith, refl, sym,
  subst, Bool-cases, inl, inr,
}
use hz_os.TerminalApp.{
  App, Cell, term_rows, term_cols, is_newline, is_printable, term_scroll, put_char, wrap_col,
  wrap_row, term_putc, term_puts, empty_app,
}
use hz_os.TerminalApp.Paper.{
  Paper, Shows, break-Shows, ink-Shows, wrap-Shows, paper_putc, paper_puts,
}

pub putc_plain :
    (s : App) (c : ℕ)
    → s.in_escape ≡ false
    → (c == 27) ≡ false
    → term_putc s c ≡ wrap_row (wrap_col (put_char s c))
unfolding term_putc
putc_plain s c e ne = rw (e, ne) refl

pub plain_kept :
    (s : App) (c : ℕ)
    → s.in_escape ≡ false
    → (c == 27) ≡ false
    → ((term_putc s c).in_escape ≡ false) × ((term_putc s c).current_color ≡ s.current_color)
unfolding put_char wrap_col wrap_row term_scroll
plain_kept s c e ne = rw (putc_plain s c e ne) (ground arith)

still-Shows : (s : App) (p : Paper) → Shows s p → Shows (wrap_row (wrap_col s)) p
unfolding wrap_row wrap_col
still-Shows s p h =
    let narrow : leb term_cols s.cursor_col ≡ false = ground (arith, h.same_col, h.room) in
    let short : leb term_rows s.cursor_row ≡ false = ground (arith, h.same_row) in
    rw (narrow, short) h

put-Shows :
    (s : App) (p : Paper) (c : ℕ)
    → Shows s p
    → Shows (wrap_row (wrap_col (put_char s c))) (paper_putc s.current_color p c)
unfolding put_char paper_putc wrap_col
put-Shows s p c h =
    let v : Cell = record { char = c; color = s.current_color } in
    let next : App = record s { cursor_col = 0; cursor_row = s.cursor_row + 1 } in
    let room : ltb s.cursor_col term_cols ≡ true = ground (arith, h.same_col, h.room) in
    elim (Bool-cases (is_newline c)) [
      | inl e ↦ rw e (break-Shows next p h.same_screen (omega (arith, h.same_row)) refl)
      | inr e ↦ elim (Bool-cases (is_printable c)) [
        | inl f ↦ rw (e, f, room) (let (a, b, d) = ink-Shows s p v h in wrap-Shows _ p v a b d)
        | inr f ↦ rw (e, f) (still-Shows s p h)
      ]
    ]

-- Text without the escape character, printed where no escape sequence is open, leaves on the screen
-- the last 15 finished lines of the sheet, the line that is being written and blank rows, whatever
-- the text: a line is finished by a newline, a carriage return or its 52nd character, every
-- character has the current colour, and other control characters leave no trace.
pub puts-Shows :
    (s : App) (p : Paper) (text : List ℕ)
    → Shows s p
    → s.in_escape ≡ false
    → All (λ c. c ≢ 27) text
    → Shows (term_puts s text) (paper_puts s.current_color p text)
unfolding term_puts paper_puts
puts-Shows s p [] h e plain = h
puts-Shows s p (c ∷ cs) h e plain =
    let ne = ==_of_ne c 27 plain.0 in
    let (outside, same) = plain_kept s c e ne in
    let shown : Shows (term_putc s c) (paper_putc s.current_color p c) =
      subst (λ (t : App). Shows t (paper_putc s.current_color p c)) (sym (putc_plain s c e ne))
        (put-Shows s p c h) in
    subst
      (λ color.
        Shows (term_puts (term_putc s c) cs) (paper_puts color (paper_putc s.current_color p c) cs))
      same (puts-Shows (term_putc s c) (paper_putc s.current_color p c) cs shown outside plain.1)

pub empty_app-Shows : Shows empty_app (record { lines = []; line = [] })
empty_app-Shows = record {
  same_screen = refl;
  same_row = refl;
  same_col = refl;
  room = omega arith;
}
