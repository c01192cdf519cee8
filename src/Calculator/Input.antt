-- ===== src/Calculator/Input.antt =====
-- The keys of the calculator, calc_input and calculator_key of src/apps/calculator.c.
use hz_os.Base.{
  ℕ, ◌+◌, ◌≤◌, ◌≡◌, ◌≢◌, true, false, List, [], ◌∷◌, ◌++◌, append-nil, append_assoc, ltb, ◌==◌,
  ◌!=◌, length, length-append, some, Option-cases, arith, refl, ap, sym, ◌∙◌, inl, inr,
}
use hz_os.Base.Int.{ℤ, pos, neg}
use hz_os.Calculator.{
  Calc, to_long, calc_parse_display, show_long, apply_op, calc_compute, is_operator, input_digit,
  input_operator, input_equals, calc_input, calculator_key, is_digit,
}
use hz_os.Calculator.Display.{AllDigits, length-show_long, parse-digits, digits_value}

-- The state after several keys.
unfoldable pub typed : Calc → List ℕ → Calc
typed s [] = s
typed s (c ∷ cs) = typed (calculator_key s c) cs

abbrev pub Fits : Calc → Type 0
Fits s = length s.display ≤ 15

compute-Fits : (s : Calc) → Fits (calc_compute s)
unfolding calc_compute
compute-Fits s = elim (Option-cases (apply_op s.op s.value1 s.value2)) [
  | inl e ↦ rw (e, calc_compute) (omega arith)
  | inr (r, e) ↦ rw (e, calc_compute) (length-show_long r)
]

digit-Fits : (s : Calc) (c : ℕ) → Fits s → Fits (input_digit s c)
unfolding input_digit
digit-Fits s c h = ground (arith, length-append s.display (c ∷ []))

operator-Fits : (s : Calc) (c : ℕ) → Fits s → Fits (input_operator s c)
unfolding input_operator
operator-Fits s c h = ground (arith, compute-Fits s)

equals-Fits : (s : Calc) → Fits s → Fits (input_equals s)
unfolding input_equals
equals-Fits s h = ground (arith, compute-Fits (record s { value2 = calc_parse_display s.display }))

input-Fits : (s : Calc) (c : ℕ) → Fits s → Fits (calc_input s c)
unfolding calc_input
input-Fits s c h = ground (
  arith,
  digit-Fits s c h,
  operator-Fits s c h,
  equals-Fits s h,
  length-show_long (to_long (neg (calc_parse_display s.display))),
)

key-Fits : (s : Calc) (k : ℕ) → Fits s → Fits (calculator_key s k)
unfolding calculator_key
key-Fits s k h = ground (arith, input-Fits s k h, input-Fits s b'=' h)

-- Whatever keys are pressed, the display fits its array of 16 characters with the final NUL.
pub typed-Fits : (s : Calc) (keys : List ℕ) → Fits s → Fits (typed s keys)
unfolding typed
typed-Fits s [] h = h
typed-Fits s (c ∷ cs) h = typed-Fits (calculator_key s c) cs (key-Fits s c h)

digit_key : (s : Calc) (c : ℕ) → is_digit c ≡ true → calculator_key s c ≡ input_digit s c
unfolding calculator_key calc_input
digit_key s c h = let newline : (c == 10) ≡ false = ground (arith, h) in rw (h, newline) (rw h refl)

-- Digits typed behind others are appended, as long as there are 14 at most.
typed-append :
    (s : Calc) (cs : List ℕ)
    → s.new_input ≡ false
    → AllDigits cs
    → length s.display + length cs ≤ 14
    → typed s cs ≡ record s { display = s.display ++ cs }
unfolding typed
typed-append s [] e h fits = ap (λ d. record s { display = d }) (sym (append-nil s.display))
typed-append s (c ∷ cs) e h fits = rw (step) (
    typed-append (record s { display = s.display ++ (c ∷ []) }) cs e h.1
      (omega (arith, fits, length-append s.display (c ∷ [])))
    ∙ ap (λ d. record s { display = d }) (append_assoc s.display (c ∷ []) cs))
  where
    step : calculator_key s c ≡ record s { display = s.display ++ (c ∷ []) }
    step =
        let room : ltb (length s.display) 14 ≡ true = ground arith in
        digit_key s c h.0 ∙ unfold input_digit in rw (e, room) refl

-- A number typed where a new one is awaited takes the display's place.
typed-number :
    (s : Calc) (c : ℕ) (cs : List ℕ)
    → s.new_input ≡ true
    → AllDigits (c ∷ cs)
    → length (c ∷ cs) ≤ 14
    → typed s (c ∷ cs) ≡ record s { display = c ∷ cs; new_input = false }
typed-number s c cs e h fits =
    unfold typed in
    rw (first) (
      typed-append (record s { display = c ∷ []; new_input = false }) cs refl h.1
        (omega (arith, fits)))
  where
    first : calculator_key s c ≡ record s { display = c ∷ []; new_input = false }
    first = digit_key s c h.0 ∙ unfold input_digit in rw e refl

pub typed-concat : (s : Calc) (xs ys : List ℕ) → typed s (xs ++ ys) ≡ typed (typed s xs) ys
unfolding typed
typed-concat s [] ys = refl
typed-concat s (x ∷ xs) ys = typed-concat (calculator_key s x) xs ys

operator_key :
    (s : Calc) (c : ℕ)
    → is_operator c ≡ true
    → s.op ≡ 0
    → calculator_key s c
      ≡ record s { value1 = calc_parse_display s.display; op = c; new_input = true }
unfolding calculator_key calc_input
operator_key s c h none_yet =
    let not_digit : is_digit c ≡ false = ground (arith, h) in
    let newline : (c == 10) ≡ false = ground (arith, h) in
    let negate : (c == b'n') ≡ false = ground (arith, h) in
    rw (h, not_digit, newline)
      (rw (h, not_digit, negate) (unfold input_operator in rw none_yet refl))

equals_key :
    (s : Calc) (r : ℤ)
    → s.op ≢ 0
    → apply_op s.op s.value1 (calc_parse_display s.display) ≡ some r
    → calculator_key s b'=' ≡ record s {
      value1 = r;
      value2 = calc_parse_display s.display;
      display = show_long r;
      op = 0;
      new_input = true;
    }
unfolding calculator_key calc_input input_equals
equals_key s r h e =
    let pending : (s.op != 0) ≡ true = ground arith in
    rw pending (unfold calc_compute in rw (e, calc_compute) refl)

module _ (s : Calc) (fresh : s.new_input ≡ true) (idle : s.op ≡ 0) where
  -- From a state in which a new number is awaited and no operation is pending, typing a
  -- number of 1 to 14 digits, an operator, a second such number and '=' leaves the result
  -- of the operation on the two numbers (unless it divides by zero) in `value1` and on the
  -- display, with no pending operation.
  pub typed-evaluates :
      (x : ℕ) (xs : List ℕ) (c : ℕ) (y : ℕ) (ys : List ℕ) (r : ℤ)
      → AllDigits (x ∷ xs)
      → length (x ∷ xs) ≤ 14
      → is_operator c ≡ true
      → AllDigits (y ∷ ys)
      → length (y ∷ ys) ≤ 14
      → apply_op c (pos (digits_value 0 (x ∷ xs))) (pos (digits_value 0 (y ∷ ys))) ≡ some r
      → typed (typed (typed s (x ∷ xs)) (c ∷ y ∷ ys)) (b'=' ∷ []) ≡ record s {
        value1 = r;
        value2 = pos (digits_value 0 (y ∷ ys));
        display = show_long r;
        op = 0;
        new_input = true;
      }
  typed-evaluates x xs c y ys r ha la hc hb lb e =
      let operated : Calc = record s {
        value1 = pos (digits_value 0 (x ∷ xs));
        op = c;
        display = x ∷ xs;
        new_input = true;
      } in
      let first : calculator_key (typed s (x ∷ xs)) c ≡ operated =
        ap (λ t. calculator_key t c) (typed-number s x xs fresh ha la)
        ∙ operator_key (record s { display = x ∷ xs; new_input = false }) c hc idle
        ∙ ap (λ v. record operated { value1 = v }) (parse-digits (x ∷ xs) ha) in
      let second : typed operated (y ∷ ys)
          ≡ record operated { display = y ∷ ys; new_input = false } =
        typed-number operated y ys refl hb lb in
      let pending : c ≢ 0 = λ e0. absurd (ground (arith, hc, e0)) in
      unfold typed in
      ap (λ t. calculator_key (typed t (y ∷ ys)) b'=') first
      ∙ ap (λ t. calculator_key t b'=') second
      ∙ equals_key (record operated { display = y ∷ ys; new_input = false }) r pending
          (ap (λ v. apply_op c (pos (digits_value 0 (x ∷ xs))) v) (parse-digits (y ∷ ys) hb) ∙ e)
      ∙ ap
          (λ v. record s {
            value1 = r;
            value2 = v;
            display = show_long r;
            op = 0;
            new_input = true;
          })
          (parse-digits (y ∷ ys) hb)

-- While an operation is pending, what the display shows is lost when an operator is pressed:
-- whatever was typed, the state afterwards is the same.
pub chained-stale :
    (s : Calc) (c : ℕ) (d : List ℕ)
    → s.op ≢ 0
    → is_operator c ≡ true
    → calculator_key (record s { display = d }) c ≡ calculator_key s c
unfolding calculator_key calc_input input_operator calc_compute
chained-stale s c d h hc =
    let not_digit : is_digit c ≡ false = ground (arith, hc) in
    let newline : (c == 10) ≡ false = ground (arith, hc) in
    let negate : (c == b'n') ≡ false = ground (arith, hc) in
    let pending : (s.op != 0) ≡ true = ground (arith, h) in
    rw (hc, not_digit, newline) (rw (hc, not_digit, negate) (rw (pending) (lost s d c)))
  where
    lost :
        (s : Calc) (d : List ℕ) (c : ℕ)
        → (λ (t : Calc). record t {
          value1 = calc_parse_display t.display;
          op = c;
          new_input = true;
        })
            (calc_compute (record s { display = d }))
          ≡ (λ (t : Calc). record t {
            value1 = calc_parse_display t.display;
            op = c;
            new_input = true;
          })
              (calc_compute s)
    lost s d c = elim (Option-cases (apply_op s.op s.value1 s.value2)) [
      | inl e ↦ rw (e, calc_compute) refl
      | inr (r, e) ↦ rw (e, calc_compute) refl
    ]
