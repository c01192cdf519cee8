-- ===== src/Print/Format.antt =====
-- Formats of kprintf, src/lib/printf.c.
use hz_os.Base.{
  ℕ, ◌≡◌, ◌++◌, false, none, some, List, [], ◌∷◌, if◌then◌else◌, ◌==◌, arith, refl, ap, ◌∙◌, sym,
  append-nil, Option, Bool-cases, inl, inr,
}
use hz_os.Print.{Arg, word, print_from, kprintf, convert, prepend, print_dec, to_int}

-- A text as a format: every '%' is doubled.
unfoldable pub escape : List ℕ → List ℕ
escape [] = []
escape (c ∷ cs) = let rest = escape cs in if c == b'%' then b'%' ∷ b'%' ∷ rest else c ∷ rest

prepend-nil : (o : Option (List ℕ)) → prepend [] o ≡ o
prepend-nil none = refl
prepend-nil (some xs) = refl

prepend-cons :
    (c : ℕ) (cs : List ℕ) (o : Option (List ℕ))
    → prepend (c ∷ []) (prepend cs o) ≡ prepend (c ∷ cs) o
prepend-cons c cs none = refl
prepend-cons c cs (some xs) = refl

escape-prints :
    (text fmt : List ℕ) (args : List Arg)
    → print_from false (escape text ++ fmt) args ≡ prepend text (print_from false fmt args)
unfolding escape print_from convert
escape-prints [] fmt args = sym (prepend-nil (print_from false fmt args))
escape-prints (c ∷ cs) fmt args =
    let rest = print_from false fmt args in
    elim (Bool-cases (c == b'%')) [
      | inl e ↦
          let same : c ≡ b'%' = ground (arith, e) in
          rw e (
            ap (λ o. prepend (b'%' ∷ []) o) (escape-prints cs fmt args)
            ∙ prepend-cons b'%' cs rest
            ∙ ap (λ x. prepend (x ∷ cs) rest) (sym same))
      | inr e ↦
          rw (e, e)
            (ap (λ o. prepend (c ∷ []) o) (escape-prints cs fmt args) ∙ prepend-cons c cs rest)
    ]

escape-whole : (text : List ℕ) (args : List Arg) → print_from false (escape text) args ≡ some text
escape-whole text args =
    ap (λ f. print_from false f args) (sym (append-nil (escape text)))
    ∙ escape-prints text [] args
    ∙ unfold print_from in ap (λ t. some t) (append-nil text)

-- A text with every '%' doubled is printed as it is, and a "%d" between two such texts as the number
-- of the next argument.
pub kprintf-escape :
    (before after : List ℕ) (w : ℕ) (args : List Arg)
    → (kprintf (escape before) args ≡ some before)
      × (kprintf (escape before ++ (b'%' ∷ b'd' ∷ escape after)) (word w ∷ args)
          ≡ some (before ++ (print_dec (to_int w) ++ after)))
unfolding kprintf print_from convert
kprintf-escape before after w args = (
  escape-whole before args,
  escape-prints before (b'%' ∷ b'd' ∷ escape after) (word w ∷ args)
      ∙ ap (λ o. prepend before (prepend (print_dec (to_int w)) o)) (escape-whole after args),
)
