-- ===== src/Calculator/Display.antt =====
-- calc_set_display and calc_parse_display of src/apps/calculator.c.
use hz_os.Base.{
  ℕ, zero, suc, ◌+◌, ◌-◌, ◌*◌, ◌/◌, ◌%◌, ◌^◌, ◌≤◌, ◌<◌, ◌≡◌, Bool, true, false, ◌||◌, List, [], ◌∷◌,
  if◌then◌else◌, ◌==◌, length, arith, refl, ap, ◌∙◌, All, Bool-cases, ltb, if-both, inl, inr,
}
use native.Mathlib.Nat.{pow-suc}
use hz_os.Base.Int.{ℤ, pos, negsuc, neg, nat_abs}
use hz_os.Calculator.{parse_loop, calc_parse_display, push_digits, magnitude, show_long, is_digit}

-- The number that digits stand for, behind `r`.
unfoldable pub digits_value : ℕ → List ℕ → ℕ
digits_value r [] = r
digits_value r (c ∷ cs) = digits_value (r * 10 + (c - b'0')) cs

abbrev pub AllDigits : List ℕ → Type 0
AllDigits = All (λ c. is_digit c ≡ true)

parse_loop-digits :
    (start sign : Bool) (r : ℕ) (cs : List ℕ)
    → AllDigits cs
    → parse_loop start sign r cs
      ≡ (if sign then neg (pos (digits_value r cs)) else pos (digits_value r cs))
unfolding parse_loop digits_value
parse_loop-digits start sign r [] h = refl
parse_loop-digits start sign r (c ∷ cs) h =
    let minus : (c == b'-') ≡ false = ground (arith, h.0) in
    rw (minus, h.0) (orb sign ∙ parse_loop-digits false sign (r * 10 + (c - b'0')) cs h.1)
  where
    orb :
        (b : Bool)
        → parse_loop false (b || false) (r * 10 + (c - b'0')) cs
          ≡ parse_loop false b (r * 10 + (c - b'0')) cs
    orb true = refl
    orb false = refl

push_digits-All :
    (room val : ℕ) (tmp : List ℕ) → AllDigits tmp → AllDigits (push_digits room val tmp)
unfolding push_digits
push_digits-All zero val tmp h = h
push_digits-All (suc room) val tmp h = elim (Bool-cases (val == 0)) [
  | inl e ↦ rw e h
  | inr e ↦ rw e (push_digits-All room (val / 10) ((b'0' + val % 10) ∷ tmp) (ground arith, h))
]

digits_value-push :
    (room val : ℕ) (tmp : List ℕ)
    → val < 10 ^ room
    → digits_value 0 (push_digits room val tmp) ≡ digits_value val tmp
unfolding push_digits
digits_value-push zero val tmp h = ap (λ v. digits_value v tmp) (omega arith)
digits_value-push (suc room) val tmp h = elim (Bool-cases (val == 0)) [
  | inl e ↦ rw e (ap (λ v. digits_value v tmp) (ground arith))
  | inr e ↦ rw e (
      digits_value-push room (val / 10) ((b'0' + val % 10) ∷ tmp) (omega (arith, pow-suc))
      ∙ unfold digits_value in ap (λ v. digits_value v tmp) (omega arith))
]

length-push : (room val : ℕ) (tmp : List ℕ) → length (push_digits room val tmp) ≤ room + length tmp
unfolding push_digits
length-push zero val tmp = omega arith
length-push (suc room) val tmp =
    ground (arith, length-push room (val / 10) ((b'0' + val % 10) ∷ tmp))

-- The display always fits: a sign and 14 digits at most.
pub length-show_long : (val : ℤ) → length (show_long val) ≤ 15
unfolding show_long magnitude
length-show_long val = ground (arith, length-push 14 (nat_abs val) [])

magnitude-All : (n : ℕ) → AllDigits (magnitude n)
unfolding magnitude
magnitude-All n =
    if-both AllDigits (n == 0) (refl, tt)
      (if-both AllDigits (ltb n (2 ^ 63)) (push_digits-All 14 n [] tt) tt)

magnitude-value : (n : ℕ) → n < 10 ^ 14 → digits_value 0 (magnitude n) ≡ n
unfolding magnitude digits_value
magnitude-value n h = elim (Bool-cases (n == 0)) [
  | inl e ↦ rw e (ground (arith, e))
  | inr e ↦
      let small : ltb n (2 ^ 63) ≡ true = ground (arith, h) in
      rw (e, small) (digits_value-push 14 n [] h)
]

-- A number of at most 14 digits, shown on the display, is read back from it.
pub parse-show : (val : ℤ) → nat_abs val < 10 ^ 14 → calc_parse_display (show_long val) ≡ val
unfolding calc_parse_display show_long
parse-show (pos n) h =
    parse_loop-digits true false 0 (magnitude (n + 0)) (magnitude-All (n + 0))
    ∙ ap pos (magnitude-value (n + 0) h ∙ omega arith)
parse-show (negsuc n) h =
    unfold parse_loop in
    parse_loop-digits false true 0 (magnitude (0 + suc n)) (magnitude-All (0 + suc n))
    ∙ ap (λ r. neg (pos r)) (magnitude-value (0 + suc n) h ∙ omega arith)
    ∙ neg_suc
  where
    neg_suc : neg (pos (suc n)) ≡ negsuc n
    neg_suc = ground arith

-- A display of digits is read as their number.
pub parse-digits : (cs : List ℕ) → AllDigits cs → calc_parse_display cs ≡ pos (digits_value 0 cs)
unfolding calc_parse_display
parse-digits cs h = parse_loop-digits true false 0 cs h
