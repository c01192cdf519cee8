-- ===== src/TerminalApp/Escape.antt =====
-- Escape sequences in the window of src/apps/terminal_app.c.
use hz_os.Base.{
  ℕ, zero, suc, ◌+◌, ◌≡◌, Bool, true, false, ◌&&◌, not, List, [], ◌∷◌, ◌++◌, if◌then◌else◌, ltb,
  leb, ◌==◌, set, modify, drop, arith, refl, ap, ap₂, sym, ◌∙◌, subst, Bool-cases, if-true,
  if-false, inl, inr,
}
use hz_os.TerminalApp.Printing.{putc_plain, plain_kept}
use hz_os.TerminalApp.{
  App, Cell, term_rows, term_cols, blank_row, is_letter, is_newline, is_printable, term_scroll,
  put_char, wrap_col, wrap_row, term_putc, term_puts, escape_putc,
}

-- The text without its escape sequences, each from ESC to the first letter; `true` where one is open.
unfoldable pub visible : Bool → List ℕ → List ℕ
visible opened [] = []
visible true (c ∷ cs) = visible (not (is_letter c)) cs
visible false (c ∷ cs) =
    let skipped = visible true cs in
    let kept = visible false cs in if c == 27 then skipped else c ∷ kept

abbrev pub row_chars : List Cell → List ℕ
row_chars [] = []
row_chars (v ∷ row) = v.char ∷ row_chars row

abbrev pub screen_chars : List (List Cell) → List (List ℕ)
screen_chars [] = []
screen_chars (row ∷ rows) = row_chars row ∷ screen_chars rows

-- The same characters and the same cursor, in whatever colours.
pub record SameText (s t : App) : Type 0 where
  pub same_chars : screen_chars s.screen ≡ screen_chars t.screen
  pub same_row : s.cursor_row ≡ t.cursor_row
  pub same_col : s.cursor_col ≡ t.cursor_col

row_chars-set :
    (xs : List Cell) (j : ℕ) (v : Cell) → row_chars (set xs j v) ≡ set (row_chars xs) j v.char
row_chars-set [] j v = refl
row_chars-set (x ∷ xs) zero v = refl
row_chars-set (x ∷ xs) (suc j) v = ap (λ t. x.char ∷ t) (row_chars-set xs j v)

screen_chars-modify :
    (xs : List (List Cell)) (i j : ℕ) (v : Cell)
    → screen_chars (modify xs i (λ row. set row j v))
      ≡ modify (screen_chars xs) i (λ row. set row j v.char)
screen_chars-modify [] i j v = refl
screen_chars-modify (x ∷ xs) zero j v = ap (λ t. t ∷ screen_chars xs) (row_chars-set x j v)
screen_chars-modify (x ∷ xs) (suc i) j v = ap (λ t. row_chars x ∷ t) (screen_chars-modify xs i j v)

screen_chars-append :
    (xs ys : List (List Cell)) → screen_chars (xs ++ ys) ≡ screen_chars xs ++ screen_chars ys
screen_chars-append [] ys = refl
screen_chars-append (x ∷ xs) ys = ap (λ t. row_chars x ∷ t) (screen_chars-append xs ys)

drop-screen_chars : (xs : List (List Cell)) → screen_chars (drop 1 xs) ≡ drop 1 (screen_chars xs)
drop-screen_chars [] = refl
drop-screen_chars (x ∷ xs) = refl

scroll-SameText : {s t : App} → SameText s t → SameText (term_scroll s) (term_scroll t)
unfolding term_scroll
scroll-SameText {s = s} {t = t} h = record {
  same_chars =
      screen_chars-append (drop 1 s.screen) (blank_row ∷ [])
      ∙ ap (λ x. x ++ screen_chars (blank_row ∷ []))
          (drop-screen_chars s.screen ∙ ap (drop 1) h.same_chars ∙ sym (drop-screen_chars t.screen))
      ∙ sym (screen_chars-append (drop 1 t.screen) (blank_row ∷ []));
  same_row = omega (arith, h.same_row);
  same_col = h.same_col;
}

wrap_row-SameText : {s t : App} → SameText s t → SameText (wrap_row s) (wrap_row t)
unfolding wrap_row
wrap_row-SameText {s = s} {t = t} h = elim (Bool-cases (leb term_rows t.cursor_row)) [
  | inl e ↦ rw (ap (leb term_rows) h.same_row ∙ e, e) (scroll-SameText h)
  | inr e ↦ rw (ap (leb term_rows) h.same_row ∙ e, e) h
]

wrap_col-SameText : {s t : App} → SameText s t → SameText (wrap_col s) (wrap_col t)
unfolding wrap_col
wrap_col-SameText {s = s} {t = t} h = elim (Bool-cases (leb term_cols t.cursor_col)) [
  | inl e ↦
      rw (ap (leb term_cols) h.same_col ∙ e, e)
        (record {
          same_chars = h.same_chars;
          same_row = ap (λ n. n + 1) h.same_row;
          same_col = refl;
        })
  | inr e ↦ rw (ap (leb term_cols) h.same_col ∙ e, e) h
]

put_char-SameText : {s t : App} (c : ℕ) → SameText s t → SameText (put_char s c) (put_char t c)
unfolding put_char
put_char-SameText {s = s} {t = t} c h =
    let full = λ (col : ℕ). is_printable c && ltb col term_cols in
    elim (Bool-cases (is_newline c)) [
      | inl e ↦ rw e (record {
        same_chars = h.same_chars;
        same_row = ap (λ n. n + 1) h.same_row;
        same_col = refl;
      })
      | inr e ↦ elim (Bool-cases (full t.cursor_col)) [
        | inl f ↦
            rw (e, ap full h.same_col ∙ f, f)
              (record {
                same_chars =
                    screen_chars-modify s.screen s.cursor_row s.cursor_col _
                    ∙ ap₂ (λ i xs. modify xs i (λ row. set row s.cursor_col c)) h.same_row
                        h.same_chars
                    ∙ ap (λ j. modify (screen_chars t.screen) t.cursor_row (λ row. set row j c))
                        h.same_col
                    ∙ sym (screen_chars-modify t.screen t.cursor_row t.cursor_col _);
                same_row = h.same_row;
                same_col = ap (λ n. n + 1) h.same_col;
              })
        | inr f ↦ rw (e, ap full h.same_col ∙ f, f) h
      ]
    ]

-- Inside a sequence only the buffer and the colour change.
escape_putc_kept :
    (s : App) (c : ℕ)
    → ((escape_putc s c).screen ≡ s.screen)
      × ((escape_putc s c).cursor_row ≡ s.cursor_row)
      × ((escape_putc s c).cursor_col ≡ s.cursor_col)
unfolding escape_putc
escape_putc_kept s c = ground arith

escape_putc_open :
    (s : App) (c : ℕ) → s.in_escape ≡ true → (escape_putc s c).in_escape ≡ not (is_letter c)
unfolding escape_putc
escape_putc_open s c e = ground arith

escape_putc-SameText : {s t : App} (c : ℕ) → SameText s t → SameText (escape_putc s c) t
escape_putc-SameText {s = s} c h =
    let (a, b, d) = escape_putc_kept s c in
    record {
      same_chars = ap screen_chars a ∙ h.same_chars;
      same_row = b ∙ h.same_row;
      same_col = d ∙ h.same_col;
    }

outside-SameText :
    {s t : App} (c : ℕ)
    → SameText s t
    → s.in_escape ≡ false
    → t.in_escape ≡ false
    → (c == 27) ≡ false
    → SameText (term_putc s c) (term_putc t c)
outside-SameText {s = s} {t = t} c h e f g =
    rw (putc_plain s c e g, putc_plain t c f g)
      (wrap_row-SameText (wrap_col-SameText (put_char-SameText c h)))

putc_inside : (s : App) (c : ℕ) → s.in_escape ≡ true → term_putc s c ≡ escape_putc s c
unfolding term_putc
putc_inside s c e = if-true (λ t. t ≡ escape_putc s c) _ e refl

putc_start :
    (s : App) (c : ℕ)
    → s.in_escape ≡ false
    → (c == 27) ≡ true
    → term_putc s c ≡ record s { in_escape = true; escape_buf = [] }
unfolding term_putc
putc_start s c e g =
    let begun : App = record s { in_escape = true; escape_buf = [] } in
    if-false (λ t. t ≡ begun) (escape_putc s c) e (if-true (λ t. t ≡ begun) _ g refl)

-- Escape sequences are invisible: for every text, complete or cut off inside a sequence, and from
-- any two states with the same characters and cursor, the second outside a sequence, printing the
-- text in the first and printing it without its escape sequences in the second leave the same
-- characters at the same places and the cursor at the same place.
pub puts_visible :
    (s t : App) (text : List ℕ)
    → SameText s t
    → t.in_escape ≡ false
    → SameText (term_puts s text) (term_puts t (visible s.in_escape text))
unfolding term_puts visible
puts_visible s t [] h f = h
puts_visible s t (c ∷ cs) h f = elim (Bool-cases s.in_escape) [
  | inl e ↦
      subst (λ b. SameText (term_puts (term_putc s c) cs) (term_puts t (visible b (c ∷ cs))))
        (sym e)
        (let u = escape_putc s c in
          subst
            (λ (v : App). SameText (term_puts v cs) (term_puts t (visible (not (is_letter c)) cs)))
            (sym (putc_inside s c e))
            (subst (λ b. SameText (term_puts u cs) (term_puts t (visible b cs)))
              (escape_putc_open s c e) (puts_visible u t cs (escape_putc-SameText c h) f)))
  | inr e ↦
      subst (λ b. SameText (term_puts (term_putc s c) cs) (term_puts t (visible b (c ∷ cs))))
        (sym e)
        (elim (Bool-cases (c == 27)) [
          | inl g ↦ rw g (
              let u : App = record s { in_escape = true; escape_buf = [] } in
              subst (λ (v : App). SameText (term_puts v cs) (term_puts t (visible true cs)))
                (sym (putc_start s c e g))
                (puts_visible u t cs
                  (record {
                    same_chars = h.same_chars;
                    same_row = h.same_row;
                    same_col = h.same_col;
                  })
                  f))
          | inr g ↦ rw g (
              let u = term_putc s c in
              subst (λ b. SameText (term_puts u cs) (term_puts (term_putc t c) (visible b cs)))
                (plain_kept s c e g).0
                (puts_visible u (term_putc t c) cs (outside-SameText c h e f g)
                  (plain_kept t c f g).0))
        ])
]
