-- ===== src/WindowManager/Drag.antt =====
-- Dragging a window with the mouse, in wm_update of src/gui/window_manager.c.
use hz_os.Base.Wrap.{wrap_int-InInt}
use hz_os.Base.{
  ℕ, ◌+◌, ◌-◌, ◌<◌, ◌≡◌, true, false, Option, none, some, length, get_or-modify_self, length-modify,
  leb, arith, refl, ap, sym, ◌∙◌, subst, if-true, Bool-cases, inl, inr, ◌≤◌, suc, ◌^◌, ap₂,
}
use hz_os.Base.Int.{ℤ, pos, negsuc, ◌+ℤ◌, ◌-ℤ◌, sub_ℕ, pos_part, neg_part, InInt}
use hz_os.WindowManager.{Window, window_at, null_window}
use hz_os.WindowManager.Desktop.{
  Desktop, MouseState, wm_update, read_mouse, drag, place, change, buttons, clip,
}

-- A difference of naturals is its parts, up to a common summand.
parts : (a b : ℕ) → pos_part (sub_ℕ a b) + b ≡ neg_part (sub_ℕ a b) + a
parts a b = ground arith

same_sub : (a b c d : ℕ) → a + d ≡ c + b → sub_ℕ a b ≡ sub_ℕ c d
same_sub a b c d h = elim (Bool-cases (leb b a)) [
  | inl t ↦
      let u : leb d c ≡ true = ground (arith, t, h) in
      rw (t, u) (ap pos (let e : a - b ≡ c - d = omega (arith, h) in e))
  | inr f ↦
      let u : leb d c ≡ false = ground (arith, f, h) in
      rw (f, u) (ap negsuc (let e : b - a - 1 ≡ d - c - 1 = omega (arith, h) in e))
]

swap : (a b o : ℤ) → (a -ℤ o) +ℤ b ≡ (b -ℤ o) +ℤ a
unfolding ◌+ℤ◌ ◌-ℤ◌
swap a b o =
    same_sub (pos_part (sub_ℕ (pos_part a + neg_part o) (neg_part a + pos_part o)) + pos_part b)
      (neg_part (sub_ℕ (pos_part a + neg_part o) (neg_part a + pos_part o)) + neg_part b)
      (pos_part (sub_ℕ (pos_part b + neg_part o) (neg_part b + pos_part o)) + pos_part a)
      (neg_part (sub_ℕ (pos_part b + neg_part o) (neg_part b + pos_part o)) + neg_part a)
      (omega (
        arith,
        parts (pos_part a + neg_part o) (neg_part a + pos_part o),
        parts (pos_part b + neg_part o) (neg_part b + pos_part o),
      ))

-- The state after an update with the button held.
abbrev dragged : Desktop → ℕ → MouseState → Desktop
dragged d win s =
    let r = read_mouse d s in
    record r {
      wm = change r.wm win (place (r.mouse_x -ℤ r.drag_off_x) (r.mouse_y -ℤ r.drag_off_y));
      prev_mouse_l = true;
    }

update-dragged :
    (d : Desktop) (win : ℕ) (s : MouseState)
    → d.dragging_window ≡ some win
    → s.left_down ≡ true
    → InInt (clip d.vesa_width s.x -ℤ d.drag_off_x)
    → InInt (clip d.vesa_height s.y -ℤ d.drag_off_y)
    → wm_update d s ≡ dragged d win s
unfolding wm_update read_mouse drag
update-dragged d win s e held fits_x fits_y =
    let r = read_mouse d s in
    let next : Option ℕ → Desktop =
      λ o. elim o [ none ↦ buttons r s.right_down | some w ↦ drag r w ] in
    ap next e
    ∙ if-true (λ (x : Desktop). x ≡ dragged d win s)
        (record r { dragging_window = none; prev_mouse_l = false }) held
        (ap₂ (λ x y. record r { wm = change r.wm win (place x y); prev_mouse_l = true })
          (wrap_int-InInt (r.mouse_x -ℤ r.drag_off_x) fits_x)
          (wrap_int-InInt (r.mouse_y -ℤ r.drag_off_y) fits_y))

-- A window moved as the mouse did between two states.
abbrev pub Follows : ℕ → Desktop → Desktop → Type 0
Follows win d d' =
    ((window_at d'.wm win).x +ℤ d.mouse_x ≡ (window_at d.wm win).x +ℤ d'.mouse_x)
    × ((window_at d'.wm win).y +ℤ d.mouse_y ≡ (window_at d.wm win).y +ℤ d'.mouse_y)

placed :
    (d : Desktop) (win : ℕ) (s : MouseState)
    → win < length d.wm.objects
    → window_at (dragged d win s).wm win
      ≡ place
          ((dragged d win s).mouse_x -ℤ d.drag_off_x)
          ((dragged d win s).mouse_y -ℤ d.drag_off_y)
          (window_at d.wm win)
unfolding read_mouse
placed d win s lt =
    let r = dragged d win s in
    get_or-modify_self d.wm.objects win
      (place (r.mouse_x -ℤ d.drag_off_x) (r.mouse_y -ℤ d.drag_off_y)) null_window lt

both-follow :
    (d : Desktop) (win : ℕ) (s1 s2 : MouseState)
    → win < length d.wm.objects
    → Follows win (dragged d win s1) (dragged (dragged d win s1) win s2)
unfolding read_mouse
both-follow d win s1 s2 lt =
    let d1 = dragged d win s1 in
    let d2 = dragged d1 win s2 in
    let at1 = placed d win s1 lt in
    let at2 = placed d1 win s2 (
      omega (
        arith,
        lt,
        length-modify d.wm.objects win
            (place (d1.mouse_x -ℤ d.drag_off_x) (d1.mouse_y -ℤ d.drag_off_y)),
      )) in
    (
      ap (λ (v : Window). v.x +ℤ d1.mouse_x) at2
          ∙ swap d2.mouse_x d1.mouse_x d.drag_off_x
          ∙ sym (ap (λ (v : Window). v.x +ℤ d2.mouse_x) at1),
      ap (λ (v : Window). v.y +ℤ d1.mouse_y) at2
          ∙ swap d2.mouse_y d1.mouse_y d.drag_off_y
          ∙ sym (ap (λ (v : Window). v.y +ℤ d2.mouse_y) at1),
    )

-- The mouse on a screen that is `size` wide or high, for the driver's coordinate `a`: between 0 and
-- size - 1, at `a` if that is on the screen, and at the nearer end if not.
abbrev pub OnScreen : ℕ → ℤ → ℤ → Type 0
OnScreen size (negsuc a) m = m ≡ pos 0
OnScreen size (pos a) m =
    (n : ℕ) × (m ≡ pos n) × (n < size) × (a < size → n ≡ a) × (size ≤ a → n + 1 ≡ size)

minus_one : (size : ℕ) → 0 < size → pos size -ℤ pos 1 ≡ pos (size - 1)
unfolding ◌-ℤ◌
minus_one size h = ground (arith, h)

clip-OnScreen : (size : ℕ) (a : ℤ) → 0 < size → OnScreen size a (clip (pos size) a)
unfolding clip
clip-OnScreen size (negsuc a) some_size =
    let small : leb size 0 ≡ false = ground (arith, some_size) in rw small refl
clip-OnScreen size (pos a) some_size = elim (Bool-cases (leb size a)) [
  | inl e ↦ rw e (
    size - 1,
    minus_one size some_size,
    omega (arith, some_size),
    λ lt. absurd (ground (arith, e, lt)),
    λ le. omega (arith, some_size),
  )
  | inr e ↦ rw e (a, refl, ground (arith, e), λ lt. refl, λ le. absurd (ground (arith, e, le)))
]

-- An offset between -2^30 and 2^30.
abbrev pub Small : ℤ → Type 0
Small (pos n) = n < 2 ^ 30
Small (negsuc n) = n < 2 ^ 30

sub-InInt : (a b : ℕ) → a < 2 ^ 31 → b < 2 ^ 31 → InInt (sub_ℕ a b)
sub-InInt a b ha hb = elim (Bool-cases (leb b a)) [
  | inl e ↦ rw e (let in_range : a - b < 2 ^ 31 = omega (arith, ha) in in_range)
  | inr e ↦ rw e (let in_range : b - a - 1 < 2 ^ 31 = omega (arith, hb) in in_range)
]

from_pos : (n : ℕ) (off : ℤ) → n < 2 ^ 30 → Small off → InInt (pos n -ℤ off)
unfolding ◌-ℤ◌
from_pos n (pos k) h small = sub-InInt (n + 0) (0 + k) (omega (arith, h)) (omega (arith, small))
from_pos n (negsuc k) h small =
    sub-InInt (n + suc k) (0 + 0) (omega (arith, h, small)) (omega arith)

minus-InInt :
    (size : ℕ) (a m off : ℤ) → size ≤ 2 ^ 30 → OnScreen size a m → Small off → InInt (m -ℤ off)
minus-InInt size (negsuc a) m off fits on small =
    subst (λ (z : ℤ). InInt (z -ℤ off)) (sym on) (from_pos 0 off (omega arith) small)
minus-InInt size (pos a) m off fits (n, same, lt, inside, beyond) small =
    subst (λ (z : ℤ). InInt (z -ℤ off)) (sym same) (from_pos n off (omega (arith, fits, lt)) small)

-- While a window is dragged on a screen of at most 2^30 pixels in each direction, by an offset between
-- -2^30 and 2^30, and the left button stays down, it moves between two calls of wm_update by exactly
-- as much as the mouse. Both calls put the mouse where the driver says, or,
-- where that is off the screen, at the nearest place on it, in each of the two directions.
pub update-Follows :
    (d : Desktop) (win width height : ℕ) (s1 s2 : MouseState)
    → win < length d.wm.objects
    → d.dragging_window ≡ some win
    → s1.left_down ≡ true
    → s2.left_down ≡ true
    → d.vesa_width ≡ pos width
    → d.vesa_height ≡ pos height
    → 0 < width
    → width ≤ 2 ^ 30
    → 0 < height
    → height ≤ 2 ^ 30
    → Small d.drag_off_x
    → Small d.drag_off_y
    → let d1 = wm_update d s1 in
      let d2 = wm_update d1 s2 in
      Follows win d1 d2
      × (OnScreen width s1.x d1.mouse_x × OnScreen height s1.y d1.mouse_y)
      × (OnScreen width s2.x d2.mouse_x × OnScreen height s2.y d2.mouse_y)
update-Follows d win width height s1 s2 lt e h1 h2 we he w_some w_fits h_some h_fits off_x off_y =
    let on : (s : MouseState)
        → OnScreen width s.x (clip d.vesa_width s.x)
          × OnScreen height s.y (clip d.vesa_height s.y) =
      λ s. (
        subst (λ v. OnScreen width s.x (clip v s.x)) (sym we) (clip-OnScreen width s.x w_some),
        subst (λ v. OnScreen height s.y (clip v s.y)) (sym he) (clip-OnScreen height s.y h_some),
      ) in
    let d1 = dragged d win s1 in
    let fits_x = λ (s : MouseState).
      minus-InInt width s.x (clip d.vesa_width s.x) d.drag_off_x w_fits (on s).0 off_x in
    let fits_y = λ (s : MouseState).
      minus-InInt height s.y (clip d.vesa_height s.y) d.drag_off_y h_fits (on s).1 off_y in
    let first = update-dragged d win s1 e h1 (fits_x s1) (fits_y s1) in
    let second =
      update-dragged d1 win s2 (unfold read_mouse in e) h2 (unfold read_mouse in fits_x s2)
        (unfold read_mouse in fits_y s2) in
    let goal = λ (x y : Desktop).
      Follows win x y
      × (OnScreen width s1.x x.mouse_x × OnScreen height s1.y x.mouse_y)
      × (OnScreen width s2.x y.mouse_x × OnScreen height s2.y y.mouse_y) in
    subst (λ x. goal x (wm_update x s2)) (sym first)
      (subst (goal d1) (sym second)
        (both-follow d win s1 s2 lt, (unfold read_mouse in on s1), (unfold read_mouse in on s2)))
