-- ===== src/Drawing/Fill.antt =====
-- A clipped rectangle of src/gui/graphics.c and src/drivers/vesa.c, pixel by pixel.
use hz_os.Base.Wrap.{wrap_int-InInt}
use hz_os.Base.{
  ℕ, zero, suc, ◌+◌, ◌*◌, ◌≤◌, ◌<◌, ◌≡◌, ◌≢◌, Bool, true, false, ◌&&◌, if◌then◌else◌, ltb, leb,
  ◌==◌, ==_of_ne, dec_lt, ℕ_discrete, arith, refl, ap, ap₂, sym, ◌∙◌, Bool-cases, inl, inr, subst,
  ◌^◌,
}
use hz_os.Base.Int.{
  ℤ, pos, negsuc, ◌+ℤ◌, ◌-ℤ◌, lt_ℤ, le_ℤ, pos_part, is_neg, sub_ℕ, wrap_int, InInt,
}
use native.Mathlib.Nat.{mul-le-mul_right, mul-lt-mul_of_pos_right, eq_of_mul-eq-mul_right, suc-mul}
use hz_os.Drawing.{Pixels, put, Surface, place, clip_len, fill_row, fill_rows, fill_clipped}

-- The pixels from `a` on, `n` of them, as integers.
abbrev pub covers : ℤ → ℤ → ℕ → Bool
covers a n p = le_ℤ a (pos p) && lt_ℤ (pos p) (a +ℤ n)

-- The same with a clipped length.
abbrev pub spans : ℕ → ℕ → ℕ → Bool
spans lo n p = leb lo p && ltb p (lo + n)

-- The clipped length in integers without bounds.
abbrev plain_cut : ℤ → ℤ → ℕ → ℤ
plain_cut a n size =
    let low = if is_neg a then n +ℤ a else n in
    if lt_ℤ (pos size) (pos (pos_part a) +ℤ low) then pos size -ℤ pos (pos_part a) else low

add-zero_left : (z : ℤ) → pos 0 +ℤ z ≡ z
unfolding ◌+ℤ◌
add-zero_left (pos n) = ground arith
add-zero_left (negsuc n) = ground arith

add_comm : (a b : ℤ) → a +ℤ b ≡ b +ℤ a
unfolding ◌+ℤ◌
add_comm a b = ap₂ sub_ℕ (omega arith) (omega arith)

-- Where the end of a side is an `int`, nothing wraps.
clip_len-plain : (a n : ℤ) (size : ℕ) → InInt (a +ℤ n) → clip_len a n size ≡ plain_cut a n size
unfolding clip_len
clip_len-plain (pos a) n size h =
    ap (λ e. if lt_ℤ (pos size) e then pos size -ℤ pos a else n) (wrap_int-InInt (pos a +ℤ n) h)
clip_len-plain (negsuc a) n size h =
    let low : wrap_int (n +ℤ negsuc a) ≡ n +ℤ negsuc a =
      wrap_int-InInt (n +ℤ negsuc a) (subst InInt (add_comm (negsuc a) n) h) in
    let cut = λ (e l : ℤ). if lt_ℤ (pos size) e then pos size -ℤ pos 0 else l in
    ap (λ l. cut (wrap_int (pos 0 +ℤ l)) l) low
    ∙ ap (λ e. cut e (n +ℤ negsuc a))
        (ap wrap_int (add-zero_left (n +ℤ negsuc a)) ∙ low ∙ sym (add-zero_left (n +ℤ negsuc a)))

clip-covers :
    (a n : ℤ) (size p : ℕ)
    → p < size
    → spans (pos_part a) (pos_part (plain_cut a n size)) p ≡ covers a n p
unfolding ◌+ℤ◌ ◌-ℤ◌
clip-covers (pos a) (pos n) size p h = ground arith
clip-covers (pos a) (negsuc n) size p h = ground arith
clip-covers (negsuc a) (pos n) size p h = ground arith
clip-covers (negsuc a) (negsuc n) size p h = ground arith

-- The rows do not reach into each other, no two pixels of a row are the same, and the offsets of the
-- code are values of `int`.
pub record IsSurface (s : Surface) : Type 0 where
  pub some_unit : 1 ≤ s.unit
  pub row_fits : s.width * s.unit ≤ s.pitch
  pub small : s.height * s.pitch < 2 ^ 31

==_true : (a b : ℕ) → a ≡ b → (a == b) ≡ true
==_true a b e = ground arith

not_both : (x px y py : ℕ) → (x ≡ px → y ≢ py) → ((x == px) && (y == py)) ≡ false
not_both x px y py ne = ground arith

either_row :
    (x y n px py color v : ℕ)
    → (if spans (suc x) n px && (y == py)
        then color
        else (if (x == px) && (y == py) then color else v))
      ≡ (if spans x (suc n) px && (y == py) then color else v)
either_row x y n px py color v = ground arith

-- A pixel of a row lies before the rows below it.
row_before :
    (s : Surface)
    → IsSurface s
    → (x y x' y' : ℕ) → x < s.width
    → y < y'
    → place s x y < place s x' y'
row_before s h x y x' y' lt below =
    let step : suc y * s.pitch ≤ y' * s.pitch = mul-le-mul_right s.pitch below in
    let row : x * s.unit < s.width * s.unit = mul-lt-mul_of_pos_right lt h.some_unit in
    omega (arith, step, row, h.row_fits, suc-mul y s.pitch)

place_injective :
    (s : Surface)
    → IsSurface s
    → (x y x' y' : ℕ) → x < s.width
    → x' < s.width
    → place s x y ≡ place s x' y'
    → (x ≡ x') × (y ≡ y')
place_injective s h x y x' y' lt lt' e =
    let same_row : y ≡ y' = elim (dec_lt y y') [
      | yes below ↦ absurd (omega (arith, row_before s h x y x' y' lt below))
      | no not_below ↦ elim (dec_lt y' y) [
        | yes above ↦ absurd (omega (arith, row_before s h x' y' x y lt' above))
        | no not_above ↦ omega arith
      ]
    ] in
    let start : y * s.pitch ≡ y' * s.pitch = ap (λ r. r * s.pitch) same_row in
    (eq_of_mul-eq-mul_right s.unit h.some_unit x x' (omega (arith, start)), same_row)

put_place :
    (s : Surface)
    → IsSurface s
    → (buf : Pixels) (x y px py color : ℕ) → x < s.width
    → px < s.width
    → put buf (place s x y) color (place s px py)
      ≡ (if (x == px) && (y == py) then color else buf (place s px py))
put_place s h buf x y px py color lt plt = elim (ℕ_discrete (place s px py) (place s x y)) [
  | yes e ↦
      (let (same_x, same_y) = place_injective s h px py x y plt lt e in
        rw
          (
            ==_true (place s px py) (place s x y) e,
            ==_true x px (sym same_x),
            ==_true y py (sym same_y),
          )
          refl)
  | no ne ↦
      (let apart : ((x == px) && (y == py)) ≡ false =
          not_both x px y py (λ ex ey. ne (ap₂ (place s) (sym ex) (sym ey))) in
        rw (==_of_ne (place s px py) (place s x y) ne, apart) refl)
]

fill_row-covers :
    (s : Surface)
    → IsSurface s
    → (buf : Pixels) (x y n px py color i : ℕ) → i ≡ place s x y
    → x + n ≤ s.width
    → px < s.width
    → fill_row buf s.unit i n color (place s px py)
      ≡ (if spans x n px && (y == py) then color else buf (place s px py))
unfolding fill_row
fill_row-covers s h buf x y zero px py color i e fits plt =
    let none : (spans x 0 px && (y == py)) ≡ false = ground arith in rw none refl
fill_row-covers s h buf x y (suc n) px py color i e fits plt =
    let rest =
      fill_row-covers s h (put buf i color) (suc x) y n px py color (i + s.unit)
        (omega (arith, e, suc-mul x s.unit)) (omega arith) plt in
    let first : put buf i color (place s px py)
        ≡ (if (x == px) && (y == py) then color else buf (place s px py)) =
      ap (λ a. put buf a color (place s px py)) e
      ∙ put_place s h buf x y px py color (omega arith) plt in
    rest
    ∙ ap (λ v. if spans (suc x) n px && (y == py) then color else v) first
    ∙ either_row x y n px py color (buf (place s px py))

either_rows :
    (b : Bool) (y h py color v : ℕ)
    → (if b && spans (suc y) h py then color else (if b && (y == py) then color else v))
      ≡ (if b && spans y (suc h) py then color else v)
either_rows true y h py color v = ground arith
either_rows false y h py color v = refl

fill_rows-covers :
    (s : Surface)
    → IsSurface s
    → (buf : Pixels) (x n y h px py color : ℕ) → x + n ≤ s.width
    → px < s.width
    → fill_rows buf s x n y h color (place s px py)
      ≡ (if spans x n px && spans y h py then color else buf (place s px py))
unfolding fill_rows
fill_rows-covers s ok buf x n y zero px py color fits plt =
    let none : (spans x n px && spans y 0 py) ≡ false = ground arith in rw none refl
fill_rows-covers s ok buf x n y (suc h) px py color fits plt =
    let row = fill_row buf s.unit (place s x y) n color in
    fill_rows-covers s ok row x n (suc y) h px py color fits plt
    ∙ ap (λ v. if spans x n px && spans (suc y) h py then color else v)
        (fill_row-covers s ok buf x y n px py color (place s x y) refl fits plt)
    ∙ either_rows (spans x n px) y h py color (buf (place s px py))

no_length : (n : ℤ) (lo p : ℕ) → le_ℤ n (pos 0) ≡ true → spans lo (pos_part n) p ≡ false
no_length (pos n) lo p e = ground arith
no_length (negsuc n) lo p e = ground arith

clip_len_fits :
    (a n : ℤ) (size : ℕ)
    → le_ℤ (plain_cut a n size) (pos 0) ≡ false
    → pos_part a + pos_part (plain_cut a n size) ≤ size
unfolding ◌+ℤ◌ ◌-ℤ◌
clip_len_fits (pos a) (pos n) size e = ground arith
clip_len_fits (pos a) (negsuc n) size e = ground arith
clip_len_fits (negsuc a) (pos n) size e = ground arith
clip_len_fits (negsuc a) (negsuc n) size e = ground arith

and-false : (b : Bool) → (b && false) ≡ false
and-false true = refl
and-false false = refl

-- Where the rows of an image do not overlap, its offsets are below 2^31 and x + w and y + h do not leave the range of `int`, a
-- rectangle, also one that begins left of the image or above it, ends behind it or has no area,
-- gives its colour to just those pixels of the image whose column is from x on and below x + w and
-- whose row is from y on and below y + h. All other pixels of the image stay as they are.
pub fill_clipped-covers :
    (s : Surface) (buf : Pixels) (x y w h : ℤ) (px py color : ℕ)
    → IsSurface s
    → px < s.width
    → py < s.height
    → InInt (x +ℤ w)
    → InInt (y +ℤ h)
    → fill_clipped buf s x y w h color (place s px py)
      ≡ (if covers x w px && covers y h py then color else buf (place s px py))
unfolding fill_clipped
fill_clipped-covers s buf x y w h px py color ok px_in py_in x_end y_end =
    let w' = clip_len x w s.width in
    let h' = clip_len y h s.height in
    let old = buf (place s px py) in
    let in_x = spans (pos_part x) (pos_part w') px in
    let in_y = spans (pos_part y) (pos_part h') py in
    let fits_x = λ (e : le_ℤ w' (pos 0) ≡ false).
      subst (λ l. le_ℤ l (pos 0) ≡ false → pos_part x + pos_part l ≤ s.width)
        (sym (clip_len-plain x w s.width x_end)) (clip_len_fits x w s.width) e in
    let same : (if in_x && in_y then color else old)
        ≡ (if covers x w px && covers y h py then color else old) =
      ap₂ (λ a b. if a && b then color else old)
        (ap (λ l. spans (pos_part x) (pos_part l) px) (clip_len-plain x w s.width x_end)
          ∙ clip-covers x w s.width px px_in)
        (ap (λ l. spans (pos_part y) (pos_part l) py) (clip_len-plain y h s.height y_end)
          ∙ clip-covers y h s.height py py_in) in
    let goal = λ (b : Pixels). b (place s px py) ≡ (if in_x && in_y then color else old) in
    (elim (Bool-cases (le_ℤ w' (pos 0))) [
      | inl e ↦ rw (e, no_length w' (pos_part x) px e) refl
      | inr e ↦ elim (Bool-cases (le_ℤ h' (pos 0))) [
        | inl f ↦ rw (e, f, no_length h' (pos_part y) py f, and-false in_x) refl
        | inr f ↦
            rw (e, f)
              (fill_rows-covers s ok buf (pos_part x) (pos_part w') (pos_part y) (pos_part h') px py
                color (fits_x e) px_in)
      ]
    ])
    ∙ same
