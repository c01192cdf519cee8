-- ===== src/Calculator/Tests.antt =====
-- The calculator of src/apps/calculator.c on concrete keys.
use hz_os.Base.{false, ◌≡◌, [], ◌∷◌, refl}
use hz_os.Base.Int.{pos}
use hz_os.Calculator.{
  Calc, calc_clear, calc_parse_display, parse_loop, apply_op, calculator_key, calc_input,
  calc_compute, input_digit, input_operator, input_equals,
}
use hz_os.Calculator.Input.{typed}

abbrev adding : Calc
adding = record calc_clear { value1 = pos 5; op = b'+'; display = b'3' ∷ []; new_input = false }

-- "Err" is extended by the digits that follow a division by zero.
err_digits :
    (typed calc_clear (b'9' ∷ b'/' ∷ b'0' ∷ b'=' ∷ b'1' ∷ [])).display
    ≡ b'E' ∷ b'r' ∷ b'r' ∷ b'1' ∷ []
unfolding typed calculator_key calc_input calc_compute input_digit input_operator input_equals
    apply_op calc_parse_display parse_loop
err_digits = refl
