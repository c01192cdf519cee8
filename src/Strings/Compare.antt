-- ===== src/Strings/Compare.antt =====
-- strcmp and strncmp of src/lib/string.c decide equality.
use hz_os.Base.{
  ℕ, zero, suc, ◌≤◌, ◌≡◌, ◌≢◌, ◌↔◌, List, [], ◌∷◌, take, ◌==◌, All, arith, refl, ap₂, Bool-cases,
  inl, inr, false,
}
use hz_os.Base.Int.{pos, sub_ℕ}
use hz_os.Strings.{strcmp, strncmp}

-- No byte is the NUL.
abbrev pub IsText : List ℕ → Type 0
IsText = All (λ c. 1 ≤ c)

differ : (a b : ℕ) → (a == b) ≡ false → sub_ℕ a b ≢ pos 0
differ a b h = λ e. ground (arith, h, e)

tail_eq : (a b : ℕ) (xs ys : List ℕ) → a ∷ xs ≡ b ∷ ys → (a ≡ b) × (xs ≡ ys)
tail_eq a b xs ys e = (cc, cc)

-- strncmp gives 0 exactly for strings that have the same first n bytes.
pub strncmp_iff :
    (n : ℕ) (s1 s2 : List ℕ)
    → IsText s1
    → IsText s2
    → (strncmp s1 s2 n ≡ pos 0) ↔ (take n s1 ≡ take n s2)
unfolding strncmp
strncmp_iff zero s1 s2 h1 h2 = (λ e. refl, λ e. refl)
strncmp_iff (suc n) [] [] h1 h2 = (λ e. refl, λ e. refl)
strncmp_iff (suc n) [] (b ∷ bs) h1 h2 = (λ e. absurd (ground (arith, h2.0, e)), λ e. absurd (cc))
strncmp_iff (suc n) (a ∷ s1) [] h1 h2 = (λ e. absurd (ground (arith, h1.0, e)), λ e. absurd (cc))
strncmp_iff (suc n) (a ∷ s1) (b ∷ s2) h1 h2 =
    let (there, back) = strncmp_iff n s1 s2 h1.1 h2.1 in
    elim (Bool-cases (a == b)) [
      | inl e ↦ rw e (
        λ z. ap₂ (λ x xs. x ∷ xs) (ground (arith, e)) (there z),
        λ z. back (tail_eq a b (take n s1) (take n s2) z).1,
      )
      | inr e ↦ rw e (
        λ z. absurd (differ a b e z),
        λ z. absurd (ground (arith, e, (tail_eq a b (take n s1) (take n s2) z).0)),
      )
    ]

-- strcmp gives 0 exactly for equal strings.
pub strcmp_iff : (s1 s2 : List ℕ) → IsText s1 → IsText s2 → (strcmp s1 s2 ≡ pos 0) ↔ (s1 ≡ s2)
unfolding strcmp
strcmp_iff [] [] h1 h2 = (λ e. refl, λ e. refl)
strcmp_iff [] (b ∷ bs) h1 h2 = (λ e. absurd (ground (arith, h2.0, e)), λ e. absurd (cc))
strcmp_iff (a ∷ s1) [] h1 h2 = (λ e. absurd (ground (arith, h1.0, e)), λ e. absurd (cc))
strcmp_iff (a ∷ s1) (b ∷ s2) h1 h2 =
    let (there, back) = strcmp_iff s1 s2 h1.1 h2.1 in
    elim (Bool-cases (a == b)) [
      | inl e ↦ rw e (
        λ z. ap₂ (λ x xs. x ∷ xs) (ground (arith, e)) (there z),
        λ z. back (tail_eq a b s1 s2 z).1,
      )
      | inr e ↦
          rw e
            (λ z. absurd (differ a b e z), λ z. absurd (ground (arith, e, (tail_eq a b s1 s2 z).0)))
    ]
