-- ===== src/TerminalApp/Paper.antt =====
-- The screen of src/apps/terminal_app.c shows the end of an endless sheet of paper.
use hz_os.Base.{
  ℕ, zero, suc, ◌+◌, ◌-◌, ◌≤◌, ◌<◌, ◌≡◌, Bool, List, [], ◌∷◌, ◌++◌, if◌then◌else◌, leb, set, modify,
  drop, replicate, length, length-append, length-drop, append_assoc, min, arith, refl, ap, sym, ◌∙◌,
  subst, Bool-cases, inl, inr, if-true, if-false,
}
use hz_os.TerminalApp.{
  App, Cell, term_rows, term_cols, blank, blank_row, is_newline, is_printable, term_scroll,
  wrap_col, wrap_row,
}

-- The finished lines, from the first one on, and the line that is being written.
pub record Paper : Type 0 where
  pub lines : List (List Cell)
  pub line : List Cell

abbrev pub break : Paper → Paper
break p = record { lines = p.lines ++ (p.line ∷ []); line = [] }

abbrev pub append : Paper → Cell → Paper
append p v = record p { line = p.line ++ (v ∷ []) }

-- A line of 52 characters is finished.
unfoldable pub paper_putc : ℕ → Paper → ℕ → Paper
paper_putc color p c =
    if is_newline c
    then break p
    else if is_printable c
    then (let p' = append p (record { char = c; color = color }) in
        if leb term_cols (length p'.line) then break p' else p')
    else p

unfoldable pub paper_puts : ℕ → Paper → List ℕ → Paper
paper_puts color p [] = p
paper_puts color p (c ∷ cs) = paper_puts color (paper_putc color p c) cs

abbrev pub pad : List Cell → List Cell
pad row = row ++ replicate (term_cols - length row) blank

abbrev pub pad_all : List (List Cell) → List (List Cell)
pad_all [] = []
pad_all (row ∷ rows) = pad row ∷ pad_all rows

-- The last 15 finished lines, the line that is being written, and blank rows up to 16.
abbrev pub view : Paper → List (List Cell)
view p =
    pad_all (drop (length p.lines - 15) p.lines)
    ++ (pad p.line ∷ replicate (15 - length p.lines) blank_row)

pub record Shows (s : App) (p : Paper) : Type 0 where
  pub same_screen : s.screen ≡ view p
  pub same_row : s.cursor_row ≡ min 15 (length p.lines)
  pub same_col : s.cursor_col ≡ length p.line
  pub room : length p.line < term_cols

module _ {ℓ} {A : Type ℓ} where
  modify-append_length :
      (xs ys : List A) (y : A) (n : ℕ) (f : A → A)
      → n ≡ length xs
      → modify (xs ++ (y ∷ ys)) n f ≡ xs ++ (f y ∷ ys)
  modify-append_length [] ys y zero f e = refl
  modify-append_length [] ys y (suc n) f e = absurd (omega arith)
  modify-append_length (x ∷ xs) ys y zero f e = absurd (omega arith)
  modify-append_length (x ∷ xs) ys y (suc n) f e =
      ap (λ t. x ∷ t) (modify-append_length xs ys y n f (omega arith))

  set-append_length :
      (xs ys : List A) (y v : A) → set (xs ++ (y ∷ ys)) (length xs) v ≡ xs ++ (v ∷ ys)
  set-append_length [] ys y v = refl
  set-append_length (x ∷ xs) ys y v = ap (λ t. x ∷ t) (set-append_length xs ys y v)

  drop-append : (n : ℕ) (xs ys : List A) → n ≤ length xs → drop n (xs ++ ys) ≡ drop n xs ++ ys
  drop-append zero xs ys h = refl
  drop-append (suc n) [] ys h = absurd (omega arith)
  drop-append (suc n) (x ∷ xs) ys h = drop-append n xs ys (omega arith)

  drop-drop_one : (n : ℕ) (xs : List A) → drop 1 (drop n xs) ≡ drop (suc n) xs
  drop-drop_one zero xs = refl
  drop-drop_one (suc n) [] = refl
  drop-drop_one (suc n) (x ∷ xs) = drop-drop_one n xs

pad_all-append : (xs ys : List (List Cell)) → pad_all (xs ++ ys) ≡ pad_all xs ++ pad_all ys
pad_all-append [] ys = refl
pad_all-append (x ∷ xs) ys = ap (λ t. pad x ∷ t) (pad_all-append xs ys)

drop-pad_all : (xs : List (List Cell)) → drop 1 (pad_all xs) ≡ pad_all (drop 1 xs)
drop-pad_all [] = refl
drop-pad_all (x ∷ xs) = refl

length-pad_all : (xs : List (List Cell)) → length (pad_all xs) ≡ length xs
length-pad_all [] = refl
length-pad_all (x ∷ xs) = ap suc (length-pad_all xs)

replicate-split {ℓ} : {A : Type ℓ} (n m : ℕ) (a : A) → n ≡ suc m → replicate n a ≡ a ∷ replicate m a
replicate-split n m a e = ap (λ k. replicate k a) e

-- A character in the room of a line.
set-pad :
    (line : List Cell) (v : Cell)
    → length line < term_cols
    → set (pad line) (length line) v ≡ pad (line ++ (v ∷ []))
set-pad line v h =
    ap (λ t. set (line ++ t) (length line) v)
      (replicate-split (term_cols - length line) (term_cols - length line - 1) blank (omega arith))
    ∙ set-append_length line _ blank v
    ∙ ap (λ n. line ++ (v ∷ replicate n blank)) (omega (arith, length-append line (v ∷ [])))
    ∙ sym (append_assoc line (v ∷ []) (replicate (term_cols - length (line ++ (v ∷ []))) blank))

length-shown :
    (lines : List (List Cell))
    → length (pad_all (drop (length lines - 15) lines)) ≡ min 15 (length lines)
length-shown lines =
    omega (
      arith,
      length-pad_all (drop (length lines - 15) lines),
      length-drop (length lines - 15) lines,
    )

modify-view :
    (p : Paper) (v : Cell) (n : ℕ)
    → n ≡ min 15 (length p.lines)
    → length p.line < term_cols
    → modify (view p) n (λ row. set row (length p.line) v) ≡ view (append p v)
modify-view p v n e h =
    let shown = pad_all (drop (length p.lines - 15) p.lines) in
    let below = replicate (15 - length p.lines) blank_row in
    modify-append_length shown below (pad p.line) n (λ row. set row (length p.line) v)
      (omega (arith, length-shown p.lines))
    ∙ ap (λ row. shown ++ (row ∷ below)) (set-pad p.line v h)

-- The screen after a line break that needs no scrolling.
view-break_short :
    (lines : List (List Cell)) (line : List Cell)
    → length lines < 15
    → view (record { lines = lines; line = line })
      ≡ view (break (record { lines = lines; line = line }))
view-break_short lines line h =
    let len = length-append lines (line ∷ []) in
    let none_off : length lines - 15 ≡ 0 = omega arith in
    let none_off' : length (lines ++ (line ∷ [])) - 15 ≡ 0 = omega arith in
    let left : 15 - length (lines ++ (line ∷ [])) ≡ 14 - length lines = omega arith in
    rw (none_off, none_off', left, pad_all-append lines (line ∷ []))
      (ap (λ t. pad_all lines ++ (pad line ∷ t))
          (replicate-split (15 - length lines) (14 - length lines) blank_row (omega arith))
        ∙ sym (
            append_assoc (pad_all lines) (pad line ∷ [])
              (blank_row ∷ replicate (14 - length lines) blank_row)))

-- The screen after one that scrolls.
view-break_full :
    (lines : List (List Cell)) (line : List Cell)
    → 15 ≤ length lines
    → drop 1 (view (record { lines = lines; line = line })) ++ (blank_row ∷ [])
      ≡ view (break (record { lines = lines; line = line }))
view-break_full lines line h =
    let n = length lines - 15 in
    let len = length-append lines (line ∷ []) in
    let none_below : 15 - length lines ≡ 0 = omega arith in
    let none_below' : 15 - length (lines ++ (line ∷ [])) ≡ 0 = omega arith in
    let next : length (lines ++ (line ∷ [])) - 15 ≡ suc n = omega arith in
    let dropped : drop (suc n) (lines ++ (line ∷ [])) ≡ drop (suc n) lines ++ (line ∷ []) =
      drop-append (suc n) lines (line ∷ []) (omega arith) in
    rw (none_below, none_below', next, dropped, pad_all-append (drop (suc n) lines) (line ∷ []))
      (ap (λ t. t ++ (blank_row ∷ []))
        (drop-append 1 (pad_all (drop n lines)) (pad line ∷ [])
            (omega (arith, length-pad_all (drop n lines), length-drop n lines))
          ∙ ap (λ t. t ++ (pad line ∷ []))
              (drop-pad_all (drop n lines) ∙ ap pad_all (drop-drop_one n lines))))

pub break-Shows :
    (s : App) (p : Paper)
    → s.screen ≡ view p
    → s.cursor_row ≡ min 15 (length p.lines) + 1
    → s.cursor_col ≡ 0
    → Shows (wrap_row s) (break p)
unfolding wrap_row term_scroll
break-Shows s p same row col =
    let len = length-append p.lines (p.line ∷ []) in
    elim (Bool-cases (leb term_rows s.cursor_row)) [
      | inl e ↦
          if-true (λ t. Shows t (break p)) s e
            (record {
              same_screen =
                  ap (λ v. drop 1 v ++ (blank_row ∷ [])) same
                  ∙ view-break_full p.lines p.line (ground arith);
              same_row = ground (arith, len);
              same_col = col;
              room = omega arith;
            })
      | inr e ↦
          if-false (λ t. Shows t (break p)) (term_scroll s) e
            (record {
              same_screen = same ∙ view-break_short p.lines p.line (ground arith);
              same_row = ground (arith, len);
              same_col = col;
              room = omega arith;
            })
    ]

-- A printable character, before the cursor moves to the next row.
pub ink-Shows :
    (s : App) (p : Paper) (v : Cell)
    → Shows s p
    → (modify s.screen s.cursor_row (λ row. set row s.cursor_col v) ≡ view (append p v))
      × (s.cursor_row ≡ min 15 (length p.lines))
      × (s.cursor_col + 1 ≡ length (append p v).line)
ink-Shows s p v h = (
  rw (h.same_screen, h.same_col) (modify-view p v s.cursor_row h.same_row h.room),
  h.same_row,
  omega (arith, h.same_col, length-append p.line (v ∷ [])),
)

pub wrap-Shows :
    (t : App) (p : Paper) (v : Cell)
    → t.screen ≡ view (append p v)
    → t.cursor_row ≡ min 15 (length p.lines)
    → t.cursor_col ≡ length (append p v).line
    → Shows
        (wrap_row (wrap_col t))
        (if leb term_cols (length (append p v).line) then break (append p v) else append p v)
unfolding wrap_row wrap_col
wrap-Shows t p v same row col =
    let q = append p v in
    let goal = λ (b : Bool). Shows (wrap_row (wrap_col t)) (if b then break q else q) in
    elim (Bool-cases (leb term_cols (length q.line))) [
      | inl e ↦ subst goal (sym e) (
          if-true (λ u. Shows (wrap_row u) (break q)) t (ap (leb term_cols) col ∙ e)
            (break-Shows (record t { cursor_col = 0; cursor_row = t.cursor_row + 1 }) q same
              (omega (arith, row)) refl))
      | inr e ↦ subst goal (sym e) (
          if-false (λ u. Shows (wrap_row u) q)
            (record t { cursor_col = 0; cursor_row = t.cursor_row + 1 })
            (ap (leb term_cols) col ∙ e)
            (if-false (λ u. Shows u q) (term_scroll t) (ground (arith, row))
              (record { same_screen = same; same_row = row; same_col = col; room = ground arith })))
    ]
