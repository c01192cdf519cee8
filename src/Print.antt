-- ===== src/Print.antt =====
-- kprintf of src/lib/printf.c: the characters that it passes to the terminal.
mod Tests
pub mod Decimal
pub mod Format
use hz_os.Base.{
  ℕ, zero, suc, ◌+◌, ◌-◌, ◌*◌, ◌/◌, ◌%◌, ◌^◌, Bool, true, false, Option, none, some, List, [], ◌∷◌,
  ◌++◌, if◌then◌else◌, ltb, ◌==◌, get_or,
}
use hz_os.Base.Int.{ℤ, pos, negsuc}
use hz_os.Base.Text.{codes}

-- The loop over the digits of a value and the loop that prints them: at most `fuel` digits, in front
-- of what was put to the buffer before. The buffer has room for 16.
unfoldable pub digits : ℕ → ℕ → List ℕ → List ℕ
digits zero value buf = buf
digits (suc fuel) value buf =
    let more = digits fuel (value / 10) ((b'0' + value % 10) ∷ buf) in
    if value == 0 then buf else more

-- A negative value is -n - 1; the negation of the least int is itself, and no digit follows.
unfoldable pub print_dec : ℤ → List ℕ
print_dec (pos zero) = b'0' ∷ []
print_dec (pos (suc n)) = digits 16 (suc n) []
print_dec (negsuc n) = b'-' ∷ (if n == 2 ^ 31 - 1 then [] else digits 16 (suc n) [])

abbrev pub hex_digit : ℕ → ℕ
hex_digit nibble = get_or (codes "0123456789ABCDEF") nibble 0

-- The nibbles from bit 4 * i on downwards.
unfoldable pub nibbles : ℕ → ℕ → List ℕ
nibbles value zero = []
nibbles value (suc i) = hex_digit (value / 2 ^ (4 * i) % 16) ∷ nibbles value i

unfoldable pub print_hex : ℕ → List ℕ
print_hex value = codes "0x" ++ nibbles value 8

-- The case 'u'.
abbrev pub print_unsigned : ℕ → List ℕ
print_unsigned v = if v == 0 then b'0' ∷ [] else digits 16 v []

-- An argument: a word in its register, or a pointer to a string.
pub data Arg : Type 0 where
  word : ℕ → Arg
  string : Option (List ℕ) → Arg

-- The low 32 bits of a word as an int.
abbrev pub to_int : ℕ → ℤ
to_int w = let n = w % 2 ^ 32 in if ltb n (2 ^ 31) then pos n else negsuc (2 ^ 32 - 1 - n)

abbrev pub with_word : (ℕ → List ℕ) → List Arg → Option (List ℕ × List Arg)
with_word f (word w ∷ args) = some (f w, args)
with_word f args = none

abbrev pub with_string : List Arg → Option (List ℕ × List Arg)
with_string (string (some s) ∷ args) = some (s, args)
with_string (string none ∷ args) = some (codes "(null)", args)
with_string args = none

-- The switch: what is printed for a specifier and the arguments that are left; none where the
-- argument is not of the kind that is read.
unfoldable pub convert : ℕ → List Arg → Option (List ℕ × List Arg)
convert spec args =
    if spec == b'c'
    then with_word (λ w. (w % 256) ∷ []) args
    else if spec == b'p'
    then with_word (λ w. print_hex (w % 2 ^ 32)) args
    else if spec == b's'
    then with_string args
    else if spec == b'd'
    then with_word (λ w. print_dec (to_int w)) args
    else if spec == b'i'
    then with_word (λ w. print_dec (to_int w)) args
    else if spec == b'u'
    then with_word (λ w. print_unsigned (w % 2 ^ 32)) args
    else if spec == b'x'
    then with_word (λ w. print_hex (w % 2 ^ 32)) args
    else if spec == b'%'
    then some (b'%' ∷ [], args)
    else some (b'%' ∷ spec ∷ [], args)

abbrev pub prepend : List ℕ → Option (List ℕ) → Option (List ℕ)
prepend out none = none
prepend out (some more) = some (out ++ more)

-- The loop; the flag tells that a '%' was read. A format that ends behind one is read on
-- behind its NUL.
unfoldable pub print_from : Bool → List ℕ → List Arg → Option (List ℕ)
print_from false [] args = some []
print_from true [] args = none
print_from false (c ∷ cs) args =
    let percent = print_from true cs args in
    let plain = print_from false cs args in if c == b'%' then percent else prepend (c ∷ []) plain
print_from true (spec ∷ cs) args = elim (convert spec args) [
  | none ↦ none
  | some (out, rest) ↦ prepend out (print_from false cs rest)
]

-- `none` where the behaviour is undefined.
unfoldable pub kprintf : List ℕ → List Arg → Option (List ℕ)
kprintf fmt args = print_from false fmt args
