-- ===== src/WindowManager/Close.antt =====
-- Closing a window by its button, in src/gui/window_manager.c.
use hz_os.Base.{
  ℕ, ◌+◌, ◌≤◌, ◌≡◌, ◌≢◌, zero, suc, ◌%◌, set, Bool, true, false, ◌&&◌, not, some, List, [], ◌∷◌,
  get_or, modify, if◌then◌else◌, ◌==◌, arith, refl, ap, ◌∙◌, if-both, if-false,
}
use hz_os.Base.Int.{ℤ, pos, ◌+ℤ◌, ◌-ℤ◌}
use hz_os.WindowManager.{
  Wm, Window, HzEvent, wm_magic, is_head, tail, window_at, push, wm_focus_window, wm_remove_window,
  focus_order, mouse_button, event_queue_size, null_window,
}
use hz_os.WindowManager.Order.{count, focus_order-count, remove-count}
use hz_os.WindowManager.Desktop.{
  Desktop, click_window, click_parts, announce, between, event_poll, Polled, quit,
}

-- The mouse is over the close button of a window.
abbrev pub OnClose : Desktop → ℕ → Type 0
OnClose d win =
    let w = window_at d.wm win in
    (between (w.x +ℤ w.width -ℤ pos 24) (pos 16) d.mouse_x
      && between (w.y -ℤ pos 30 +ℤ pos 7) (pos 16) d.mouse_y)
    ≡ true

-- A field that a change of windows keeps is kept for every window of a list.
modify-field :
    {A : Type 0} (field : Window → A) (f : Window → Window)
    → ((w : Window) → field (f w) ≡ field w)
    → (xs : List Window) (i j : ℕ)
    → field (get_or (modify xs i f) j null_window) ≡ field (get_or xs j null_window)
modify-field field f keep [] i j = refl
modify-field field f keep (w ∷ ws) zero zero = keep w
modify-field field f keep (w ∷ ws) zero (suc j) = refl
modify-field field f keep (w ∷ ws) (suc i) zero = refl
modify-field field f keep (w ∷ ws) (suc i) (suc j) = modify-field field f keep ws i j

push-field :
    {A : Type 0} (field : Window → A) (ev : HzEvent) (w : Window)
    → ((q : List HzEvent) (h : ℕ) → field (record w { event_queue = q; event_head = h }) ≡ field w)
    → field (push w ev) ≡ field w
unfolding push
push-field field ev w keep =
    if-both (λ v. field v ≡ field w) ((w.event_head + 1) % event_queue_size == w.event_tail) refl
      (keep (set w.event_queue w.event_head ev) ((w.event_head + 1) % event_queue_size))

-- What the focus and the event keep.
announce-field :
    {A : Type 0} (field : Window → A) (wm : Wm) (mx my : ℤ) (l : Bool) (win : ℕ)
    → ((w : Window) (q : List HzEvent) (h : ℕ)
        → field (record w { event_queue = q; event_head = h }) ≡ field w)
    → field (window_at (announce wm mx my l win) win) ≡ field (window_at wm win)
unfolding wm_focus_window
announce-field field wm mx my l win keep =
    let w = window_at wm win in
    let ev = mouse_button (mx -ℤ w.x) (my -ℤ w.y) l in
    if-both (λ (v : Wm). field (window_at v win) ≡ field w) w.is_userland
      (modify-field field (λ v. push v ev) (λ v. push-field field ev v (keep v)) wm.objects win win)
      refl

announce-rest :
    (wm : Wm) (mx my : ℤ) (l : Bool) (win : ℕ)
    → let wm' = announce wm mx my l win in
      (wm'.windows ≡ focus_order wm.windows win)
      × (wm'.freed ≡ wm.freed)
      × (wm'.freed_surfaces ≡ wm.freed_surfaces)
unfolding wm_focus_window
announce-rest wm mx my l win =
    if-both
      (λ (v : Wm).
        (v.windows ≡ focus_order wm.windows win)
        × (v.freed ≡ wm.freed)
        × (v.freed_surfaces ≡ wm.freed_surfaces))
      (window_at wm win).is_userland (refl, refl, refl) (refl, refl, refl)

-- The tests of the close button, by the fields of the window.
abbrev on_close : ℤ → ℤ → ℤ → ℤ → ℤ → Bool
on_close mx my x y width =
    between (x +ℤ width -ℤ pos 24) (pos 16) mx && between (y -ℤ pos 30 +ℤ pos 7) (pos 16) my

still_on :
    (d : Desktop) (win : ℕ)
    → OnClose d win
    → OnClose (record d { wm = announce d.wm d.mouse_x d.mouse_y d.mouse_l win }) win
still_on d win on =
    let w = window_at d.wm win in
    let w' = window_at (announce d.wm d.mouse_x d.mouse_y d.mouse_l win) win in
    let same =
      λ (field : Window → ℤ). announce-field field d.wm d.mouse_x d.mouse_y d.mouse_l win in
    ap (λ v. on_close d.mouse_x d.mouse_y v w'.y w'.width) (same (λ v. v.x) (λ v q h. refl))
    ∙ ap (λ v. on_close d.mouse_x d.mouse_y w.x v w'.width) (same (λ v. v.y) (λ v q h. refl))
    ∙ ap (λ v. on_close d.mouse_x d.mouse_y w.x w.y v) (same (λ v. v.width) (λ v q h. refl))
    ∙ on

-- The click removes the window from its place at the head.
click-removes :
    (d : Desktop) (win : ℕ)
    → OnClose d win
    → (click_window d win).wm
      ≡ wm_remove_window (announce d.wm d.mouse_x d.mouse_y d.mouse_l win) (some win)
unfolding click_window click_parts
click-removes d win on =
    let wm' = announce d.wm d.mouse_x d.mouse_y d.mouse_l win in
    rw (still_on d win on, click_parts) refl

head-removes :
    (wm : Wm) (win : ℕ)
    → is_head wm.windows win ≡ true
    → wm_remove_window wm (some win) ≡ record wm { windows = tail wm.windows }
unfolding wm_remove_window
head-removes wm win h = rw (h, wm_remove_window) refl

poll-not_quit :
    (wm : Wm) (win : ℕ) → (window_at wm win).magic ≡ wm_magic → (event_poll wm win).0 ≢ quit
unfolding event_poll
poll-not_quit wm win m =
    let w = window_at wm win in
    let valid : not (w.magic == wm_magic) ≡ false = ground (arith, m) in
    if-false (λ (p : Polled × Wm). p.0 ≢ quit) (quit, wm) valid
      (if-both (λ (p : Polled × Wm). p.0 ≢ quit) (w.event_head == w.event_tail) (λ e. absurd (cc))
        (λ e. absurd (cc)))

-- A click on the close button of a window takes it out of the list once and leaves the other windows
-- in it, but frees neither the window nor its surface, and the window stays valid: a
-- program that polls its events after the click is not told to quit.
pub close-leaks :
    (d : Desktop) (win : ℕ)
    → 1 ≤ count win d.wm.windows
    → OnClose d win
    → let d' = click_window d win in
      ((x : ℕ) → (if win == x then 1 else 0) + count x d'.wm.windows ≡ count x d.wm.windows)
      × (d'.wm.freed ≡ d.wm.freed)
      × (d'.wm.freed_surfaces ≡ d.wm.freed_surfaces)
      × ((window_at d.wm win).magic ≡ wm_magic → (event_poll d'.wm win).0 ≢ quit)
close-leaks d win h on =
    let wm' = announce d.wm d.mouse_x d.mouse_y d.mouse_l win in
    let removed = click-removes d win on in
    let (ws, fr, sf) = announce-rest d.wm d.mouse_x d.mouse_y d.mouse_l win in
    let (head, counts) = focus_order-count d.wm.windows win h in
    let at_head : is_head wm'.windows win ≡ true = ap (λ v. is_head v win) ws ∙ head in
    let counted = λ (x : ℕ). ap (λ v. count x v) ws ∙ counts x in
    let left = removed ∙ head-removes wm' win at_head in
    (
      λ x.
          ap (λ (v : Wm). (if win == x then 1 else 0) + count x v.windows) removed
          ∙ remove-count wm' win x (omega (arith, h, counted win))
          ∙ counted x,
      ap (λ (v : Wm). v.freed) left ∙ fr,
      ap (λ (v : Wm). v.freed_surfaces) left ∙ sf,
      λ m. poll-not_quit (click_window d win).wm win (
          ap (λ (v : Wm). (window_at v win).magic) left
          ∙ announce-field (λ v. v.magic) d.wm d.mouse_x d.mouse_y d.mouse_l win (λ v q e. refl)
          ∙ m),
    )
