-- ===== src/Mouse/Tests.antt =====
-- The mouse driver of src/drivers/mouse.c on concrete bytes.
use hz_os.Base.{◌≡◌, [], ◌∷◌, arith, refl}
use hz_os.Base.Int.{pos, ◌+ℤ◌}
use hz_os.Mouse.{start, mouse_irq_handler, apply_packet, clamp, feed}
use hz_os.Mouse.Bounds.{Inside, feed-Inside}

start-Inside : Inside 79 24 start
start-Inside = record {
  right = refl;
  bottom = refl;
  x_in = (40, refl, omega arith);
  y_in = (12, refl, omega arith);
  size = refl;
  index_in = omega arith;
}

feed-Inside_example : Inside 79 24 (feed start (9 ∷ 100 ∷ 200 ∷ 9 ∷ []))
feed-Inside_example = feed-Inside start (9 ∷ 100 ∷ 200 ∷ 9 ∷ []) start-Inside

-- Five to the right and one down, with the left button.
moves : (feed start (9 ∷ 5 ∷ 255 ∷ [])).state.x ≡ pos 45
unfolding feed mouse_irq_handler apply_packet clamp ◌+ℤ◌
moves = refl
