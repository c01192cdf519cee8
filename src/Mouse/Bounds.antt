-- ===== src/Mouse/Bounds.antt =====
-- The pointer of src/drivers/mouse.c stays on the screen.
use hz_os.Base.{
  ℕ, ◌+◌, ◌≤◌, ◌<◌, ◌≡◌, true, false, ◌&&◌, List, [], ◌∷◌, if◌then◌else◌, ltb, ◌==◌, get_or, set,
  length, length-set, arith, refl, sym, ◌∙◌, subst, if-both, if-true, if-false, ◌||◌, Bool-cases,
  inl, inr,
}
use hz_os.Base.Int.{ℤ, pos, negsuc, ◌+ℤ◌, ◌-ℤ◌}
use hz_os.Mouse.{Mouse, clamp, apply_packet, mouse_irq_handler, feed, bit, to_int8}

abbrev pub Between : ℤ → ℕ → Type 0
Between v top = (n : ℕ) × (v ≡ pos n) × (n ≤ top)

clamp-Between : (top : ℕ) (v : ℤ) → Between (clamp (pos top) v) top
unfolding clamp
clamp-Between top (pos n) = elim (Bool-cases (ltb top n)) [
  | inl e ↦ (top, rw e refl, omega arith)
  | inr e ↦ (n, rw e refl, ground (arith, e))
]
clamp-Between top (negsuc n) =
    let e : ltb top 0 ≡ false = ground arith in (0, rw e refl, omega arith)

-- The pointer is inside the bounds `w` and `h`, and a packet has at most two bytes so far.
pub record Inside (w h : ℕ) (m : Mouse) : Type 0 where
  pub right : m.max_x ≡ pos w
  pub bottom : m.max_y ≡ pos h
  pub x_in : Between m.state.x w
  pub y_in : Between m.state.y h
  pub size : length m.packet ≡ 3
  pub index_in : m.packet_index < 3

packet-Inside :
    {w h : ℕ} (m : Mouse) (b0 b1 b2 : ℕ) → Inside w h m → Inside w h (apply_packet m b0 b1 b2)
unfolding apply_packet
packet-Inside {w} {h} m b0 b1 b2 i =
    let erratic = bit b0 64 || bit b0 128 in
    record {
      right = i.right;
      bottom = i.bottom;
      x_in =
          subst (λ t. Between (clamp t (m.state.x +ℤ (if erratic then pos 0 else to_int8 b1))) w)
            (sym i.right) (clamp-Between w (m.state.x +ℤ (if erratic then pos 0 else to_int8 b1)));
      y_in =
          subst (λ t. Between (clamp t (m.state.y -ℤ (if erratic then pos 0 else to_int8 b2))) h)
            (sym i.bottom) (clamp-Between h (m.state.y -ℤ (if erratic then pos 0 else to_int8 b2)));
      size = i.size;
      index_in = i.index_in;
    }

irq-Inside : {w h : ℕ} (m : Mouse) (b : ℕ) → Inside w h m → Inside w h (mouse_irq_handler m b)
unfolding mouse_irq_handler
irq-Inside {w} {h} m b i =
    let stored = record m {
      packet = set m.packet m.packet_index b;
      packet_index = m.packet_index + 1;
    } in
    let size = length-set m.packet m.packet_index b ∙ i.size in
    if-both (Inside w h) (m.packet_index == 0 && (if bit b 8 then false else true)) i
      (elim (Bool-cases (ltb (m.packet_index + 1) 3)) [
        | inl e ↦ if-true (Inside w h) _ e (record {
          right = i.right;
          bottom = i.bottom;
          x_in = i.x_in;
          y_in = i.y_in;
          size = size;
          index_in = ground (arith, e);
        })
        | inr e ↦ if-false (Inside w h) _ e (
            packet-Inside (record stored { packet_index = 0 }) (get_or stored.packet 0 0)
              (get_or stored.packet 1 0) (get_or stored.packet 2 0)
              (record {
                right = i.right;
                bottom = i.bottom;
                x_in = i.x_in;
                y_in = i.y_in;
                size = size;
                index_in = omega arith;
              }))
      ])

-- Whatever bytes the mouse sends, the pointer stays between 0 and the bounds, and the packet being
-- received stays inside its array of three bytes.
pub feed-Inside : {w h : ℕ} (m : Mouse) (bytes : List ℕ) → Inside w h m → Inside w h (feed m bytes)
unfolding feed
feed-Inside m [] i = i
feed-Inside m (b ∷ bs) i = feed-Inside (mouse_irq_handler m b) bs (irq-Inside m b i)
