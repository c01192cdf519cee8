-- ===== src/Net/Wire.antt =====
-- The segments of src/net/tcp.c: what tcp_receive reads of them, and their checksum.
use hz_os.Base.{
  ℕ, ◌+◌, ◌-◌, ◌*◌, ◌/◌, ◌%◌, ◌^◌, ◌<◌, ◌≡◌, ◌↔◌, ◌∙◌, ◌&&◌, List, [], ◌∷◌, ◌++◌, length, arith,
  refl, ap, sym, ltb, ◌==◌, if◌then◌else◌,
}
use hz_os.Base.Words.{add32}
use hz_os.Net.{ntohs, htons, htonl, word, bytes16, bytes32, ip_checksum, sum_words}
use hz_os.Net.Checksum.{complemented, sum_words-mod, word_sum, ip_checksum-sum}
use hz_os.Net.Frames.{
  Host, Event, sent, tcp_recv, u32, tcp_segment, tcp_front, tcp_pseudo_header, tcp_send_packet,
  ip_send_packet, broadcast_mac,
}

-- What the echo server does, by the values of the fields.
abbrev pub replies : Host → ℕ → ℕ → List ℕ → ℕ → ℕ → ℕ → ℕ → List Event
replies host src_ip flags bytes port seq ack len =
    tcp_recv src_ip port 80 flags len
    ∷ (if flags / 2 % 2 == 1
        then sent (tcp_send_packet host src_ip port 80 0 (add32 seq 1) 18 []) ∷ []
        else if flags / 16 % 2 == 1 && ltb 0 (length bytes)
        then sent (tcp_send_packet host src_ip port 80 ack (add32 seq (length bytes)) 24 bytes) ∷ []
        else [])

-- A header for port 80 as it arrives, of 20 + 4 * k bytes: their number in words stands
-- in the upper half of byte 12, and `fields` are the window, the checksum, the urgent pointer and
-- the options.
abbrev pub incoming_header : ℕ → ℕ → ℕ → ℕ → ℕ → ℕ → List ℕ → List ℕ
incoming_header port seq ack k low flags fields =
    bytes16 (htons port)
    ++ (bytes16 (htons 80)
        ++ (bytes32 (htonl seq)
            ++ (bytes32 (htonl ack) ++ (((5 + k) * 16 + low) ∷ flags ∷ fields))))

-- The segment with that header.
abbrev pub incoming : ℕ → ℕ → ℕ → ℕ → ℕ → ℕ → List ℕ → List ℕ → List ℕ
incoming port seq ack k low flags fields bytes =
    incoming_header port seq ack k low flags fields ++ bytes

-- The arithmetic of the two sums: `a`, `b` and `w` are the other words.
verdict :
    (a b w t p d0 d1 d2 d3 : ℕ)
    → d0 < 256
    → d1 < 256
    → d2 < 256
    → d3 < 256
    → 65535 % 65535 ≡ (65535 + (a + (b + t))) % 65535
    → t ≡ 256 * d3 + d2 + (256 * d1 + d0) + w
    → p ≡ 256 * d0 + d1 + (256 * d2 + d3) + w
    → ((a + (b + p)) % 65535 ≡ 0) ↔ ((d0 + d2) % 257 ≡ (d1 + d3) % 257)
verdict a b w t p d0 d1 d2 d3 h0 h1 h2 h3 e et ep = (λ x. omega arith, λ x. omega arith)

-- The sums over a destination address as it lies in memory and as htonl turns it.
plain_sum :
    (d0 d1 d2 d3 : ℕ) (rest : List ℕ)
    → d0 < 256
    → d1 < 256
    → d2 < 256
    → d3 < 256
    → word_sum (d0 ∷ d1 ∷ d2 ∷ d3 ∷ rest) ≡ 256 * d0 + d1 + (256 * d2 + d3) + word_sum rest
unfolding word_sum
plain_sum d0 d1 d2 d3 rest h0 h1 h2 h3 = omega arith

turned_sum :
    (d0 d1 d2 d3 : ℕ) (rest : List ℕ)
    → d0 < 256
    → d1 < 256
    → d2 < 256
    → d3 < 256
    → word_sum (bytes32 (htonl (u32 (d0 ∷ d1 ∷ d2 ∷ d3 ∷ []) 0)) ++ rest)
      ≡ 256 * d3 + d2 + (256 * d1 + d0) + word_sum rest
unfolding word_sum
turned_sum d0 d1 d2 d3 rest h0 h1 h2 h3 = omega arith

-- The pseudo header that RFC 793 asks for: the destination address as it stands in the IP header.
abbrev pub pseudo_header : Host → List ℕ → ℕ → List ℕ
pseudo_header host dest packet_len =
    bytes32 (htonl host.ip) ++ (dest ++ (0 ∷ 6 ∷ bytes16 (htons (packet_len % 2 ^ 16))))

-- The checksum of the packet that tcp_send_packet sends to the address d0.d1.d2.d3 is the one that
-- the receiver computes exactly when d0 + d2 and d1 + d3 agree modulo 257; the sender's sum
-- takes the bytes of the address in the reverse order.
pub tcp-checksum_iff :
    (host : Host) (d0 d1 d2 d3 dest_port src_port seq ack flags : ℕ) (bytes : List ℕ)
    → d0 < 256
    → d1 < 256
    → d2 < 256
    → d3 < 256
    → let dest : List ℕ = d0 ∷ d1 ∷ d2 ∷ d3 ∷ [] in
      (segment : List ℕ) × (tcp_send_packet host (u32 dest 0) dest_port src_port seq ack flags bytes
        ≡ ip_send_packet host broadcast_mac (u32 dest 0) 6 segment)
      × ((ip_checksum (pseudo_header host dest (20 + length bytes) ++ segment) ≡ 0)
          ↔ ((d0 + d2) % 257 ≡ (d1 + d3) % 257))
unfolding tcp_send_packet ip_checksum word_sum
tcp-checksum_iff host d0 d1 d2 d3 dest_port src_port seq ack flags bytes h0 h1 h2 h3 =
    let dest : List ℕ = d0 ∷ d1 ∷ d2 ∷ d3 ∷ [] in
    let pseudo = tcp_pseudo_header host (u32 dest 0) (20 + length bytes) in
    let front = tcp_front src_port dest_port seq ack flags in
    let blank = pseudo ++ (front ++ (bytes16 0 ++ (bytes16 0 ++ bytes))) in
    let m = (2 ^ 32 - 1 - sum_words 65535 blank) % 2 ^ 16 in
    let segment = tcp_segment src_port dest_port seq ack flags (htons m) bytes in
    let rest : List ℕ = 0 ∷ 6 ∷ bytes16 (htons ((20 + length bytes) % 2 ^ 16)) ++ segment in
    let whole : sum_words 65535 (pseudo ++ segment) ≡ 65535 =
      complemented (pseudo ++ front) (bytes16 0 ++ bytes) m tt (omega arith) refl in
    let sums = sum_words-mod 65535 (pseudo ++ segment) in
    let turned = turned_sum d0 d1 d2 d3 rest h0 h1 h2 h3 in
    let plain = plain_sum d0 d1 d2 d3 rest h0 h1 h2 h3 in
    let (to, from) = ip_checksum-sum (pseudo_header host dest (20 + length bytes) ++ segment) in
    let (there, back) =
      verdict (ntohs (word (htonl host.ip % 256) (htonl host.ip / 256 % 256)))
        (ntohs (word (htonl host.ip / 2 ^ 16 % 256) (htonl host.ip / 2 ^ 24 % 256))) (word_sum rest)
        (word_sum (bytes32 (htonl (u32 dest 0)) ++ rest)) (word_sum (dest ++ rest)) d0 d1 d2 d3 h0
        h1 h2 h3 (ap (λ s. s % 65535) (sym whole) ∙ sums) turned plain in
    (segment, refl, (λ e. there (to e), λ e. from (back e)))
