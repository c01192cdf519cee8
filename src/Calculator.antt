-- ===== src/Calculator.antt =====
-- The state machine of src/apps/calculator.c. The display is the characters in front of the NUL;
-- `long` has 64 bits.
pub mod Display
pub mod Input
mod Tests
use hz_os.Base.{
  ℕ, zero, suc, ◌+◌, ◌-◌, ◌*◌, ◌/◌, ◌%◌, ◌^◌, Bool, true, false, ◌&&◌, ◌||◌, List, [], ◌∷◌, ◌++◌,
  if◌then◌else◌, ltb, leb, ◌==◌, ◌!=◌, length, Option, none, some,
}
use hz_os.Base.Int.{
  ℤ, pos, negsuc, neg, is_neg, nat_abs, pos_part, neg_part, ◌+ℤ◌, ◌-ℤ◌, ◌*ℤ◌, ◌/ℤ◌, ◌%ℤ◌, sub_ℕ,
}

pub record Calc : Type 0 where
  pub value1 : ℤ
  pub value2 : ℤ
  pub op : ℕ
  pub display : List ℕ
  pub new_input : Bool
  pub negative : ℕ

abbrev pub calc_clear : Calc
calc_clear = record {
  value1 = pos 0;
  value2 = pos 0;
  op = 0;
  display = b'0' ∷ [];
  new_input = true;
  negative = 0;
}

-- The `long` that a result wraps to. C leaves the overflow undefined, also that of the least
-- number divided by -1, on which the processor may fault; here it wraps.
unfoldable pub to_long : ℤ → ℤ
to_long a =
    let r = (pos_part a % 2 ^ 64 + 2 ^ 64 - neg_part a % 2 ^ 64) % 2 ^ 64 in
    if ltb r (2 ^ 63) then pos r else negsuc (2 ^ 64 - 1 - r)

abbrev pub is_digit : ℕ → Bool
is_digit c = leb b'0' c && leb c b'9'

-- The loop of calc_parse_display; `start` says that `i` is 0.
unfoldable pub parse_loop : Bool → Bool → ℕ → List ℕ → ℤ
parse_loop start sign result [] = if sign then neg (pos result) else pos result
parse_loop start sign result (c ∷ cs) =
    parse_loop false (sign || (c == b'-' && start))
      (if c == b'-' && start
        then result
        else if is_digit c
        then result * 10 + (c - b'0')
        else result)
      cs

unfoldable pub calc_parse_display : List ℕ → ℤ
calc_parse_display display = parse_loop true false 0 display

-- `tmp` as a stack: the digits pushed, the last one first, at most `room` more.
unfoldable pub push_digits : ℕ → ℕ → List ℕ → List ℕ
push_digits zero val tmp = tmp
push_digits (suc room) val tmp =
    let rest = push_digits room (val / 10) ((b'0' + val % 10) ∷ tmp) in
    if val == 0 then tmp else rest

-- The digits of a number below 2^63 by the loop; the least `long` stays negative when it is
-- negated, so the loop does not run for it.
unfoldable pub magnitude : ℕ → List ℕ
magnitude n = if n == 0 then b'0' ∷ [] else if ltb n (2 ^ 63) then push_digits 14 n [] else []

-- calc_set_display: what the display holds afterwards.
unfoldable pub show_long : ℤ → List ℕ
show_long val = if is_neg val then b'-' ∷ magnitude (nat_abs val) else magnitude (nat_abs val)

abbrev pub set_display : Calc → ℤ → Calc
set_display s val = record s { display = show_long val }

abbrev pub err_text : List ℕ
err_text = b'E' ∷ b'r' ∷ b'r' ∷ []

-- The result of the operation, `none` for a division by zero.
unfoldable pub apply_op : ℕ → ℤ → ℤ → Option ℤ
apply_op op a b =
    if op == b'+'
    then some (to_long (a +ℤ b))
    else if op == b'-'
    then some (to_long (a -ℤ b))
    else if op == b'*'
    then some (to_long (a *ℤ b))
    else if op == b'/'
    then (if nat_abs b != 0 then some (to_long (a /ℤ b)) else none)
    else if op == b'%'
    then (if nat_abs b != 0 then some (to_long (a %ℤ b)) else none)
    else some a

unfoldable pub calc_compute : Calc → Calc
calc_compute s = elim (apply_op s.op s.value1 s.value2) [
  | none ↦ record s { display = err_text }
  | some result ↦ record s { value1 = result; display = show_long result; op = 0; new_input = true }
]

abbrev pub is_operator : ℕ → Bool
is_operator c = c == b'+' || c == b'-' || c == b'*' || c == b'/' || c == b'%'

unfoldable pub input_digit : Calc → ℕ → Calc
input_digit s c =
    if s.new_input
    then record s { display = c ∷ []; new_input = false }
    else if ltb (length s.display) 14
    then record s { display = s.display ++ (c ∷ []) }
    else s

unfoldable pub input_operator : Calc → ℕ → Calc
input_operator s c =
    let t = if s.op != 0 then calc_compute s else s in
    record t { value1 = calc_parse_display t.display; op = c; new_input = true }

unfoldable pub input_equals : Calc → Calc
input_equals s =
    if s.op != 0 then calc_compute (record s { value2 = calc_parse_display s.display }) else s

unfoldable pub calc_input : Calc → ℕ → Calc
calc_input s c =
    if is_digit c
    then input_digit s c
    else if c == b'n'
    then set_display s (to_long (neg (calc_parse_display s.display)))
    else if is_operator c
    then input_operator s c
    else if c == b'='
    then input_equals s
    else if c == b'C'
    then calc_clear
    else s

-- calculator_key; 27 is escape, 10 the newline.
unfoldable pub calculator_key : Calc → ℕ → Calc
calculator_key s key =
    if is_digit key || is_operator key || key == b'=' || key == 10
    then calc_input s (if key == 10 then b'=' else key)
    else if key == b'c' || key == b'C' || key == 27
    then calc_clear
    else s

-- `buttons`, by its first characters; "+/-" is entered as 'n', and an empty label is none.
abbrev pub buttons : List (Option ℕ)
buttons =
    some b'C'
    ∷ some b'n'
    ∷ some b'%'
    ∷ some b'/'
    ∷ some b'7'
    ∷ some b'8'
    ∷ some b'9'
    ∷ some b'*'
    ∷ some b'4'
    ∷ some b'5'
    ∷ some b'6'
    ∷ some b'-'
    ∷ some b'1'
    ∷ some b'2'
    ∷ some b'3'
    ∷ some b'+'
    ∷ some b'0'
    ∷ some b'0'
    ∷ some b'='
    ∷ none
    ∷ []
