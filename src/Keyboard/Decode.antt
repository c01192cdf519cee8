-- ===== src/Keyboard/Decode.antt =====
-- Scan codes and modifiers of src/drivers/keyboard.c.
use hz_os.Base.{
  ℕ, zero, suc, ◌≡◌, Bool, true, false, ◌&&◌, ◌||◌, List, [], ◌∷◌, if◌then◌else◌, leb, ◌==◌, get_or,
  arith, refl, ap, sym, ◌∙◌,
}
use hz_os.Keyboard.{apply_caps}
use hz_os.Keyboard.Keymaps.{keymap_us, keymap_us_shift}

abbrev pub is_letter : ℕ → Bool
is_letter c = (leb b'a' c && leb c b'z') || (leb b'A' c && leb c b'Z')

-- Whether caps lock turns the letters of one keymap into the characters of the other.
unfoldable letters_agree : List ℕ → List ℕ → Bool
letters_agree [] ys = true
letters_agree (x ∷ xs) [] = false
letters_agree (x ∷ xs) (y ∷ ys) =
    let rest = letters_agree xs ys in if is_letter x then (apply_caps true x == y) && rest else rest

letters_agree-get :
    (xs ys : List ℕ) (i : ℕ)
    → letters_agree xs ys ≡ true
    → is_letter (get_or xs i 0) ≡ true
    → apply_caps true (get_or xs i 0) ≡ get_or ys i 0
unfolding letters_agree
letters_agree-get [] ys i a l = absurd (ground (arith, l))
letters_agree-get (x ∷ xs) [] i a l = absurd (ground (arith, a))
letters_agree-get (x ∷ xs) (y ∷ ys) zero a l = ground (arith, a, l)
letters_agree-get (x ∷ xs) (y ∷ ys) (suc i) a l = letters_agree-get xs ys i (ground (arith, a)) l

us_agrees : letters_agree keymap_us keymap_us_shift ≡ true
unfolding letters_agree apply_caps
us_agrees = refl

-- With the US layout, a letter key pressed under caps lock gives the character that the key gives
-- with shift, and with shift under caps lock the one that it gives alone.
pub caps-letter :
    (scancode : ℕ)
    → is_letter (get_or keymap_us scancode 0) ≡ true
    → (apply_caps true (get_or keymap_us scancode 0) ≡ get_or keymap_us_shift scancode 0)
      × (apply_caps true (get_or keymap_us_shift scancode 0) ≡ get_or keymap_us scancode 0)
unfolding apply_caps
caps-letter scancode l =
    let once = letters_agree-get keymap_us keymap_us_shift scancode us_agrees l in
    (once, ap (λ c. apply_caps true c) (sym once) ∙ ground (arith, l))
