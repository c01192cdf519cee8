-- ===== src/Strings.antt =====
-- The functions on C strings of src/lib/string.c. A string is the list of its bytes in front of the
-- NUL, none of which is 0.
mod Tests
pub mod Compare
pub mod Copy
use hz_os.Base.{ℕ, zero, suc, ◌-◌, List, [], ◌∷◌, ◌++◌, length, replicate, if◌then◌else◌, ◌==◌}
use hz_os.Base.Int.{ℤ, pos, sub_ℕ}

unfoldable pub strcmp : List ℕ → List ℕ → ℤ
strcmp [] [] = pos 0
strcmp [] (b ∷ bs) = sub_ℕ 0 b
strcmp (a ∷ rest) [] = sub_ℕ a 0
strcmp (a ∷ rest) (b ∷ bs) = let more = strcmp rest bs in if a == b then more else sub_ℕ a b

unfoldable pub strncmp : List ℕ → List ℕ → ℕ → ℤ
strncmp s1 s2 zero = pos 0
strncmp [] [] (suc n) = pos 0
strncmp [] (b ∷ bs) (suc n) = sub_ℕ 0 b
strncmp (a ∷ rest) [] (suc n) = sub_ℕ a 0
strncmp (a ∷ rest) (b ∷ bs) (suc n) =
    let more = strncmp rest bs n in if a == b then more else sub_ℕ a b

abbrev pub strlen : List ℕ → ℕ
strlen s = length s

-- The bytes that are written to dest.
abbrev pub strcpy : List ℕ → List ℕ
strcpy src = src ++ (0 ∷ [])

-- The bytes that are written to dest: a NUL that is copied does not count, and as many follow as are
-- left of n.
unfoldable pub strncpy : List ℕ → ℕ → List ℕ
strncpy src zero = []
strncpy [] (suc n) = 0 ∷ replicate (suc n) 0
strncpy (c ∷ cs) (suc n) = c ∷ strncpy cs n
