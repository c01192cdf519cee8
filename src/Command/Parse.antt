-- ===== src/Command/Parse.antt =====
-- Words and blanks of a command line, src/shell/command.c.
use hz_os.Base.{ℕ, ◌≤◌, ◌≡◌, Bool, true, false, List, [], ◌∷◌, ◌++◌, length, All, arith, refl, ◌==◌}
use hz_os.Command.{is_blank, skip_spaces, skip_plain, split_word}

-- No character of a word is a blank.
abbrev pub IsWord : List ℕ → Type 0
IsWord = All (λ c. is_blank c ≡ false)

-- The text does not begin with a blank.
abbrev pub Unindented : List ℕ → Type 0
Unindented [] = Unit
Unindented (c ∷ cs) = is_blank c ≡ false

pub IsWord-Unindented : (w rest : List ℕ) → 1 ≤ length w → IsWord w → Unindented (w ++ rest)
IsWord-Unindented [] rest h i = absurd (omega (arith, h))
IsWord-Unindented (c ∷ cs) rest h i = i.0

pub start_word : (w : List ℕ) → IsWord w → Unindented w
start_word [] i = tt
start_word (c ∷ cs) i = i.0

pub skip_spaces-Unindented : (cs : List ℕ) → Unindented cs → skip_spaces cs ≡ cs
unfolding skip_spaces
skip_spaces-Unindented [] h = refl
skip_spaces-Unindented (c ∷ cs) h = rw h refl

not_space : (c : ℕ) → is_blank c ≡ false → (c == b' ') ≡ false
not_space c h = ground (arith, h)

pub skip_plain-Unindented : (cs : List ℕ) → Unindented cs → skip_plain cs ≡ cs
unfolding skip_plain
skip_plain-Unindented [] h = refl
skip_plain-Unindented (c ∷ cs) h = rw (not_space c h) refl

-- A word is split off in front of a character that ends it.
pub split_word-word :
    (ends : ℕ → Bool) (w rest : List ℕ) (c : ℕ)
    → All (λ x. ends x ≡ false) w
    → ends c ≡ true
    → split_word ends (w ++ (c ∷ rest)) ≡ (w, c ∷ rest)
unfolding split_word
split_word-word ends [] rest c h e = rw e refl
split_word-word ends (x ∷ xs) rest c h e = rw (h.0, split_word-word ends xs rest c h.1 e) refl

pub no_space : (w : List ℕ) → IsWord w → All (λ c. (c == b' ') ≡ false) w
no_space [] h = tt
no_space (c ∷ cs) h = (not_space c h.0, no_space cs h.1)
