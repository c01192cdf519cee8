-- ===== src/WindowManager/Order.antt =====
-- What focus and removal do to the order of the windows of src/gui/window_manager.c.
use hz_os.Base.{
  ℕ, ◌+◌, ◌≤◌, ◌≡◌, true, false, List, [], ◌∷◌, some, if◌then◌else◌, ◌==◌, ==_refl, arith, refl,
  Bool-cases, inl, inr,
}
use hz_os.WindowManager.{
  Wm, unlink, found_behind, is_head, tail, reclaim, wm_remove_window, wm_focus_window, focus_order,
}

-- How often a window is in the list.
unfoldable pub count : ℕ → List ℕ → ℕ
count x [] = 0
count x (a ∷ rest) = (if a == x then 1 else 0) + count x rest

unlink-count :
    (a : ℕ) (rest : List ℕ) (win x : ℕ)
    → found_behind (a ∷ rest) win ≡ true
    → (if win == x then 1 else 0) + count x (unlink (a ∷ rest) win) ≡ count x (a ∷ rest)
unfolding unlink found_behind count
unlink-count a [] win x f = absurd (ground (arith, f))
unlink-count a (b ∷ rest) win x f = elim (Bool-cases (b == win)) [
  | inl e ↦ rw e (ground (arith, e))
  | inr e ↦ rw e (omega (arith, unlink-count b rest win x (rw e at f)))
]

found-count :
    (a : ℕ) (rest : List ℕ) (win : ℕ)
    → (a == win) ≡ false
    → 1 ≤ count win (a ∷ rest)
    → found_behind (a ∷ rest) win ≡ true
unfolding found_behind count
found-count a [] win ne h = absurd (ground (arith, ne, h))
found-count a (b ∷ rest) win ne h = elim (Bool-cases (b == win)) [
  | inl e ↦ rw e refl
  | inr e ↦ rw e (found-count b rest win e (ground (arith, ne, h)))
]

pub focus_order-count :
    (ws : List ℕ) (win : ℕ)
    → 1 ≤ count win ws
    → (is_head (focus_order ws win) win ≡ true)
      × ((x : ℕ) → count x (focus_order ws win) ≡ count x ws)
unfolding focus_order count
focus_order-count [] win h = absurd (ground (arith, h))
focus_order-count (a ∷ rest) win h = elim (Bool-cases (a == win)) [
  | inl e ↦ rw e (e, λ x. refl)
  | inr e ↦
      let f = found-count a rest win e h in
      rw (e, f) (==_refl win, λ x. unlink-count a rest win x f)
]

-- wm_focus_window of a window of the list puts it at the head, and the list holds the same windows
-- as before, each as often.
pub focus-count :
    (wm : Wm) (win : ℕ)
    → 1 ≤ count win wm.windows
    → (is_head (wm_focus_window wm (some win)).windows win ≡ true)
      × ((x : ℕ) → count x (wm_focus_window wm (some win)).windows ≡ count x wm.windows)
unfolding wm_focus_window
focus-count wm win h = focus_order-count wm.windows win h

tail-count :
    (ws : List ℕ) (win x : ℕ)
    → is_head ws win ≡ true
    → (if win == x then 1 else 0) + count x (tail ws) ≡ count x ws
unfolding count
tail-count [] win x e = absurd (ground (arith, e))
tail-count (a ∷ rest) win x e = ground (arith, e)

behind-count :
    (ws : List ℕ) (win x : ℕ)
    → is_head ws win ≡ false
    → 1 ≤ count win ws
    → (if win == x then 1 else 0) + count x (unlink ws win) ≡ count x ws
behind-count [] win x e h = absurd (unfold count in ground (arith, h))
behind-count (a ∷ rest) win x e h = unlink-count a rest win x (found-count a rest win e h)

-- wm_remove_window of a window of the list takes it out of the list once, and leaves each other
-- window in it as often as it was.
pub remove-count :
    (wm : Wm) (win x : ℕ)
    → 1 ≤ count win wm.windows
    → (if win == x then 1 else 0) + count x (wm_remove_window wm (some win)).windows
      ≡ count x wm.windows
unfolding wm_remove_window reclaim
remove-count wm win x h = elim (Bool-cases (is_head wm.windows win)) [
  | inl e ↦ rw e (tail-count wm.windows win x e)
  | inr e ↦ rw e (behind-count wm.windows win x e h)
]
