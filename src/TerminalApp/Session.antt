-- ===== src/TerminalApp/Session.antt =====
-- A command typed into the window of src/apps/terminal_app.c and run by src/shell/command.c.
use hz_os.Base.{
  ℕ, ◌+◌, ◌-◌, ◌≤◌, ◌<◌, ◌≡◌, ◌≢◌, true, false, List, [], ◌∷◌, ◌++◌, append-nil, append_assoc,
  Option, none, some, ltb, ◌==◌, length, length-append, All, All-append, arith, refl, ap, sym, ◌∙◌,
  if-true,
}
use hz_os.Base.Text.{codes}
use hz_os.Command.{Shell, Effect, command_execute}
use hz_os.TerminalApp.{
  App, is_newline, is_printable, max_cmd, put_char, escape_putc, wrap_col, wrap_row, term_scroll,
  term_putc, term_puts, sunk, run_line, enter_line, terminal_app_key,
}
use hz_os.TerminalApp.Paper.{Paper, Shows, paper_puts}
use hz_os.TerminalApp.Printing.{puts-Shows}

-- The window and the shell after several keys.
unfoldable pub typed :
    (Effect → List ℕ) → (List ℕ → Option (List ℕ)) → App × Shell → List ℕ → Option (App × Shell)
typed print ext2 st [] = some st
typed print ext2 st (k ∷ ks) = elim (terminal_app_key print ext2 st k) [
  | none ↦ none
  | some st' ↦ typed print ext2 st' ks
]

-- What the effects of a command print.
unfoldable pub outputs : (Effect → List ℕ) → List Effect → List ℕ
outputs print [] = []
outputs print (e ∷ es) = print e ++ outputs print es

term_puts-append :
    (s : App) (xs ys : List ℕ) → term_puts s (xs ++ ys) ≡ term_puts (term_puts s xs) ys
unfolding term_puts
term_puts-append s [] ys = refl
term_puts-append s (x ∷ xs) ys = term_puts-append (term_putc s x) xs ys

sunk-outputs :
    (print : Effect → List ℕ) (s : App) (es : List Effect)
    → sunk print s es ≡ term_puts s (outputs print es)
unfolding sunk outputs term_puts
sunk-outputs print s [] = refl
sunk-outputs print s (e ∷ es) =
    sunk-outputs print (term_puts s (print e)) es
    ∙ sym (term_puts-append s (print e) (outputs print es))

putc_line : (s : App) (c : ℕ) → (term_putc s c).cmd_line ≡ s.cmd_line
unfolding term_putc escape_putc put_char wrap_col wrap_row term_scroll
putc_line s c = ground arith

puts_line : (s : App) (text : List ℕ) → (term_puts s text).cmd_line ≡ s.cmd_line
unfolding term_puts
puts_line s [] = refl
puts_line s (c ∷ cs) = puts_line (term_putc s c) cs ∙ putc_line s c

-- The echo of a command line.
abbrev echo : List ℕ → List ℕ
echo text = codes "> " ++ text ++ (10 ∷ [])

option_same {ℓ} : {A : Type ℓ} (o : Option A) → (elim o [ none ↦ none | some a ↦ some a ]) ≡ o
option_same none = refl
option_same (some a) = refl

module _ (print : Effect → List ℕ) (ext2 : List ℕ → Option (List ℕ)) where
  key-appends :
      (s : App) (sh : Shell) (k : ℕ)
      → is_printable k ≡ true
      → length s.cmd_line < 63
      → terminal_app_key print ext2 (s, sh) k
        ≡ some (record s { cmd_line = s.cmd_line ++ (k ∷ []) }, sh)
  unfolding terminal_app_key
  key-appends s sh k e h =
      let plain : (k == 8) ≡ false = ground arith in
      let no_newline : is_newline k ≡ false = ground arith in
      let room : ltb (length s.cmd_line) (max_cmd - 1) ≡ true = ground arith in
      rw (plain, no_newline, e, room) refl

  typed_next :
      (st st' : App × Shell) (k : ℕ) (ks : List ℕ)
      → terminal_app_key print ext2 st k ≡ some st'
      → typed print ext2 st (k ∷ ks) ≡ typed print ext2 st' ks
  unfolding typed
  typed_next st st' k ks e =
      let next : Option (App × Shell) → Option (App × Shell) =
        λ o. elim o [ none ↦ none | some st'' ↦ typed print ext2 st'' ks ] in
      ap next e

  enter_last :
      (s : App) (sh : Shell) → typed print ext2 (s, sh) (10 ∷ []) ≡ enter_line print ext2 s sh
  unfolding typed terminal_app_key
  enter_last s sh = option_same (enter_line print ext2 s sh)

  -- Printable keys collect in the command line, and the Enter key takes all of them.
  typed-line :
      (s : App) (sh : Shell) (text : List ℕ)
      → All (λ k. is_printable k ≡ true) text
      → length s.cmd_line + length text ≤ 63
      → typed print ext2 (s, sh) (text ++ (10 ∷ []))
        ≡ enter_line print ext2 (record s { cmd_line = s.cmd_line ++ text }) sh
  typed-line s sh [] p h =
      enter_last s sh
      ∙ ap (λ l. enter_line print ext2 (record s { cmd_line = l }) sh) (sym (append-nil s.cmd_line))
  typed-line s sh (k ∷ ks) p h =
      let s' : App = record s { cmd_line = s.cmd_line ++ (k ∷ []) } in
      typed_next (s, sh) (s', sh) k (ks ++ (10 ∷ [])) (key-appends s sh k p.0 (omega arith))
      ∙ typed-line s' sh ks p.1 (omega (arith, length-append s.cmd_line (k ∷ [])))
      ∙ ap (λ l. enter_line print ext2 (record s { cmd_line = l }) sh)
          (append_assoc s.cmd_line (k ∷ []) ks)

  enter-runs :
      (s : App) (sh : Shell)
      → 1 ≤ length s.cmd_line
      → enter_line print ext2 s sh ≡ run_line print ext2 (term_puts s (echo s.cmd_line)) sh
  unfolding enter_line term_puts
  enter-runs s sh h =
      let echoed = term_putc (term_puts (term_puts s (codes "> ")) s.cmd_line) 10 in
      if-true (λ o. o ≡ run_line print ext2 (term_puts s (echo s.cmd_line)) sh)
        (some (record echoed { cmd_line = [] }, sh)) (ground arith)
        (ap (λ t. run_line print ext2 t sh)
          (sym (term_puts-append (term_puts s (codes "> ")) s.cmd_line (10 ∷ []))))

  run_line-some :
      (s : App) (sh sh' : Shell)
      → command_execute (record sh { effects = [] }) ext2 s.cmd_line ≡ some sh'
      → run_line print ext2 s sh
        ≡ some (
          record (term_puts s (outputs print sh'.effects)) { cmd_line = [] },
          record sh' { effects = sh.effects ++ sh'.effects },
        )
  unfolding run_line
  run_line-some s sh sh' e =
      rw (run_line, e)
        (ap
          (λ t.
            some (record t { cmd_line = [] }, record sh' { effects = sh.effects ++ sh'.effects }))
          (sunk-outputs print s sh'.effects))

All-printable : (text : List ℕ) → All (λ k. is_printable k ≡ true) text → All (λ c. c ≢ 27) text
All-printable [] p = tt
All-printable (c ∷ cs) p = ((λ e. absurd (ground (arith, p.0))), All-printable cs p.1)

-- Keys for a command line of 1 to 63 printable characters, pressed where the line is empty and no
-- escape sequence is open, and then Enter, run that command: if command_execute returns, then its
-- changes are the shell's, the line is empty again, and on the sheet that the screen shows the end
-- of stands, behind what stood there, "> ", the line, a newline and what the command printed, if
-- that has no escape character.
pub typed-runs :
    (print : Effect → List ℕ) (ext2 : List ℕ → Option (List ℕ)) (s : App) (sh sh' : Shell)
    (p : Paper) (text : List ℕ)
    → Shows s p
    → s.in_escape ≡ false
    → s.cmd_line ≡ []
    → 1 ≤ length text
    → length text ≤ 63
    → All (λ k. is_printable k ≡ true) text
    → command_execute (record sh { effects = [] }) ext2 text ≡ some sh'
    → All (λ c. c ≢ 27) (outputs print sh'.effects)
    → (s' : App) × (typed print ext2 (s, sh) (text ++ (10 ∷ []))
        ≡ some (s', record sh' { effects = sh.effects ++ sh'.effects }))
      × Shows s' (
          paper_puts s.current_color p
            (codes "> " ++ text ++ (10 ∷ []) ++ outputs print sh'.effects))
      × (s'.cmd_line ≡ [])
typed-runs print ext2 s sh sh' p text shown outside clean some_key fits printable runs plain =
    let out = outputs print sh'.effects in
    let ready : App = record s { cmd_line = s.cmd_line ++ text } in
    let line : ready.cmd_line ≡ text = ap (λ l. l ++ text) clean in
    let all_plain =
      All-append (λ c. c ≢ 27) (text ++ (10 ∷ [])) out
        (All-append (λ c. c ≢ 27) text (10 ∷ []) (All-printable text printable)
          ((λ e. absurd (omega arith)), tt))
        plain in
    let ready_shown : Shows ready p = record {
      same_screen = shown.same_screen;
      same_row = shown.same_row;
      same_col = shown.same_col;
      room = shown.room;
    } in
    let text' : List ℕ = codes "> " ++ text ++ (10 ∷ []) ++ out in
    let echoed = term_puts ready (echo ready.cmd_line) in
    let ends : App → Option (App × Shell) =
      λ t. some (record t { cmd_line = [] }, record sh' { effects = sh.effects ++ sh'.effects }) in
    let final =
      puts-Shows ready p text' ready_shown outside
        ((λ e. absurd (omega arith)), ((λ e. absurd (omega arith)), all_plain)) in
    let runs_there =
      ap (command_execute (record sh { effects = [] }) ext2)
        (puts_line ready (echo ready.cmd_line) ∙ line)
      ∙ runs in
    let printed : term_puts echoed out ≡ term_puts ready text' =
      sym (term_puts-append ready (echo ready.cmd_line) out)
      ∙ ap (λ l. term_puts ready (echo l ++ out)) line in
    (
      record (term_puts ready text') { cmd_line = [] },
      typed-line print ext2 s sh text printable (omega (arith, ap length clean))
          ∙ enter-runs print ext2 ready sh (omega (arith, ap length line))
          ∙ run_line-some print ext2 echoed sh sh' runs_there
          ∙ ap ends printed,
      record {
        same_screen = final.same_screen;
        same_row = final.same_row;
        same_col = final.same_col;
        room = final.room;
      },
      refl,
    )
