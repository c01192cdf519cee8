-- ===== src/Mouse/Packet.antt =====
-- How src/drivers/mouse.c finds the packets in the bytes that it receives.
use hz_os.Base.{ℕ, ◌≡◌, true, false, List, [], ◌∷◌, ◌++◌, ◌==◌, All, arith, refl, ap, ◌∙◌}
use hz_os.Mouse.{Mouse, apply_packet, mouse_irq_handler, feed, bit}

noise : (m : Mouse) (b : ℕ) → m.packet_index ≡ 0 → bit b 8 ≡ false → mouse_irq_handler m b ≡ m
unfolding mouse_irq_handler
noise m b e n = let first : (m.packet_index == 0) ≡ true = ground (arith, e) in rw (first, n) refl

-- Bytes between packets without bit 3 are skipped, and the next three bytes, of which the first has
-- it, are taken for a packet.
pub feed-resync :
    (m : Mouse) (a b c : ℕ) (junk : List ℕ) (b0 b1 b2 : ℕ)
    → m.packet_index ≡ 0
    → m.packet ≡ a ∷ b ∷ c ∷ []
    → All (λ d. bit d 8 ≡ false) junk
    → bit b0 8 ≡ true
    → feed m (junk ++ (b0 ∷ b1 ∷ b2 ∷ []))
      ≡ apply_packet (record m { packet = b0 ∷ b1 ∷ b2 ∷ []; packet_index = 0 }) b0 b1 b2
unfolding feed
feed-resync m a b c [] b0 b1 b2 e p n s = unfold mouse_irq_handler in rw (e, p, s) refl
feed-resync m a b c (d ∷ ds) b0 b1 b2 e p n s =
    ap (λ t. feed t (ds ++ (b0 ∷ b1 ∷ b2 ∷ []))) (noise m d e n.0)
    ∙ feed-resync m a b c ds b0 b1 b2 e p n.1 s
