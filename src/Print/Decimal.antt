-- ===== src/Print/Decimal.antt =====
-- The decimal numbers of src/lib/printf.c.
use hz_os.Base.{
  ℕ, zero, suc, ◌+◌, ◌-◌, ◌*◌, ◌/◌, ◌%◌, ◌^◌, ◌<◌, ◌≡◌, List, [], ◌∷◌, ◌==◌, arith, refl, ap, ◌∙◌,
  Bool-cases, if-false, inl, inr, false,
}
use hz_os.Base.Int.{pos, negsuc}
use hz_os.Print.{digits, print_dec}

-- The value of decimal digits behind a value.
unfoldable pub read_from : ℕ → List ℕ → ℕ
read_from n [] = n
read_from n (c ∷ cs) = read_from (n * 10 + (c - b'0')) cs

unfoldable pow10 : ℕ → ℕ
pow10 zero = 1
pow10 (suc n) = 10 * pow10 n

read-digits :
    (fuel value : ℕ) (buf : List ℕ)
    → value < pow10 fuel
    → read_from 0 (digits fuel value buf) ≡ read_from value buf
unfolding digits read_from pow10
read-digits zero value buf h = ap (λ v. read_from v buf) (let e : 0 ≡ value = omega (arith, h) in e)
read-digits (suc fuel) value buf h = elim (Bool-cases (value == 0)) [
  | inl e ↦ rw (e, digits) (ap (λ v. read_from v buf) (let z : 0 ≡ value = ground (arith, e) in z))
  | inr e ↦
      rw (e, digits)
        (read-digits fuel (value / 10) ((b'0' + value % 10) ∷ buf) (omega (arith, h))
          ∙ ap (λ v. read_from v buf)
              (let s : value / 10 * 10 + (b'0' + value % 10 - b'0') ≡ value = omega arith in s))
]

digits-value : (n : ℕ) → n < 2 ^ 32 → read_from 0 (digits 16 n []) ≡ n
unfolding read_from pow10
digits-value n h = read-digits 16 n [] (omega (arith, h))

-- For every int but the least one, print_dec prints the digits of its amount, behind a '-' where it
-- is negative: an int n of 0 or more is read back from them, and -(n + 1) is printed as '-' and n + 1.
pub print_dec-reads :
    (n : ℕ)
    → n < 2 ^ 31 - 1
    → (read_from 0 (print_dec (pos n)) ≡ n)
      × (print_dec (negsuc n) ≡ b'-' ∷ print_dec (pos (suc n)))
      × (read_from 0 (print_dec (pos (suc n))) ≡ suc n)
unfolding print_dec read_from
print_dec-reads zero h = (refl, refl, digits-value 1 (omega arith))
print_dec-reads (suc n) h =
    let not_least : (suc n == 2 ^ 31 - 1) ≡ false = ground (arith, h) in
    (
      digits-value (suc n) (omega (arith, h)),
      if-false (λ ds. b'-' ∷ ds ≡ b'-' ∷ print_dec (pos (suc (suc n)))) [] not_least refl,
      digits-value (suc (suc n)) (omega (arith, h)),
    )
