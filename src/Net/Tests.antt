-- ===== src/Net/Tests.antt =====
-- The network stack on concrete packets.
use hz_os.Base.{
  ℕ, ◌+◌, ◌%◌, ◌≡◌, ◌↔◌, List, [], ◌∷◌, ◌++◌, refl, length, replicate, arith, All, ◌<◌, ◌≤◌,
}
use hz_os.Net.{ip_checksum, sum_words, ip_header}
use hz_os.Net.Checksum.{ip_header-verifies, receiver_sum}
use hz_os.Net.Frames.{Host, broadcast_mac, tcp_send_packet, ip_send_packet, u32}
use hz_os.Net.Arp.{frame_at}
use hz_os.Net.Wire.{tcp-checksum_iff, pseudo_header}

-- 0x0001 and 0x0203: the sum is 0x0204, its complement 0xfdfb.
checksum_bytes : ip_checksum (0 ∷ 1 ∷ 2 ∷ 3 ∷ []) ≡ 64509
unfolding ip_checksum sum_words
checksum_bytes = refl

ip_header-verifies_example :
    let header = ip_header 167772687 33685514 17 100 in
    (length header ≡ 20)
    × All (λ b. b < 256) header
    × (receiver_sum header % 65535 ≡ 0)
    × (1 ≤ receiver_sum header)
ip_header-verifies_example = ip_header-verifies 167772687 33685514 17 100

abbrev a_host : Host
a_host = record { mac = broadcast_mac; ip = 167772687 }

abbrev b_host : Host
b_host = record { mac = record { m0 = 2; m1 = 0; m2 = 0; m3 = 0; m4 = 0; m5 = 1 }; ip = 167772674 }

abbrev c_host : Host
c_host = record { mac = record { m0 = 2; m1 = 0; m2 = 0; m3 = 0; m4 = 0; m5 = 7 }; ip = 167772680 }

-- A window, no checksum and one word of options.
abbrev fields : List ℕ
fields = 32 ∷ 0 ∷ 0 ∷ 0 ∷ 0 ∷ 0 ∷ 1 ∷ 1 ∷ 1 ∷ 0 ∷ []

tcp-checksum_iff_example :
    (segment : List ℕ) × (tcp_send_packet a_host (u32 (10 ∷ 0 ∷ 2 ∷ 2 ∷ []) 0) 5000 80 7 9 16 []
      ≡ ip_send_packet a_host broadcast_mac (u32 (10 ∷ 0 ∷ 2 ∷ 2 ∷ []) 0) 6 segment)
    × ((ip_checksum (pseudo_header a_host (10 ∷ 0 ∷ 2 ∷ 2 ∷ []) 20 ++ segment) ≡ 0)
        ↔ ((10 + 2) % 257 ≡ (0 + 2) % 257))
tcp-checksum_iff_example =
    tcp-checksum_iff a_host 10 0 2 2 5000 80 7 9 16 [] (omega arith) (omega arith) (omega arith)
      (omega arith)

-- A frame of 42 bytes whose IPv4 header claims 100 bytes: 72 bytes behind the frame are sent.
abbrev short_frame : ℕ → ℕ
short_frame = frame_at (
    replicate 12 0
    ++ (8 ∷ 0 ∷ 69 ∷ 0 ∷ 0 ∷ 100 ∷ [] ++ (replicate 5 0 ++ (1 ∷ replicate 10 0 ++ (8 ∷ [])))))
