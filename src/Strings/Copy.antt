-- ===== src/Strings/Copy.antt =====
-- What strncpy of src/lib/string.c writes.
use hz_os.Base.{
  ℕ, zero, suc, ◌+◌, ◌≤◌, ◌<◌, ◌≡◌, List, [], ◌∷◌, take, length, replicate, arith, refl, ap,
}
use hz_os.Strings.{strncpy}

length-replicate : (n v : ℕ) → length (replicate n v) ≡ n
length-replicate zero v = refl
length-replicate (suc n) v = ap suc (length-replicate n v)

-- A string of n bytes or more is cut to n, without a NUL. A shorter one is copied whole,
-- but then n + 1 bytes are written, one behind a buffer of n bytes.
pub length-strncpy :
    (src : List ℕ) (n : ℕ)
    → (n ≤ length src → strncpy src n ≡ take n src)
      × (length src < n → length (strncpy src n) ≡ n + 1)
unfolding strncpy
length-strncpy src zero = (λ h. refl, λ h. absurd (omega (arith, h)))
length-strncpy [] (suc n) =
    (λ h. absurd (omega (arith, h)), λ h. omega (arith, length-replicate n 0))
length-strncpy (c ∷ cs) (suc n) =
    let (long, short) = length-strncpy cs n in
    (λ h. ap (λ t. c ∷ t) (long (omega (arith, h))), λ h. omega (arith, short (omega (arith, h))))
