-- ===== src/Net.antt =====
-- The packets of src/net/net.c, with the byte order of src/net/net.h.
pub mod Checksum
pub mod Frames
pub mod Arp
pub mod Wire
pub mod Echo
mod Tests
use hz_os.Base.{
  ℕ, zero, suc, ◌+◌, ◌-◌, ◌*◌, ◌/◌, ◌%◌, ◌^◌, Bool, true, false, ◌&&◌, List, [], ◌∷◌, ◌++◌, Option,
  none, some, if◌then◌else◌, ltb, leb, ◌==◌,
}

-- The bits of the two bytes do not meet.
abbrev pub ntohs : ℕ → ℕ
ntohs n = n % 256 * 256 + n / 256 % 256

abbrev pub htons : ℕ → ℕ
htons n = ntohs n

abbrev pub ntohl : ℕ → ℕ
ntohl n = n % 256 * 2 ^ 24 + n / 256 % 256 * 2 ^ 16 + n / 2 ^ 16 % 256 * 256 + n / 2 ^ 24 % 256

abbrev pub htonl : ℕ → ℕ
htonl n = ntohl n

-- A 16-bit word as memcpy reads it from two bytes, the low one first.
abbrev pub word : ℕ → ℕ → ℕ
word lo hi = lo + hi * 256

-- One round of the sum.
abbrev pub accumulate : ℕ → ℕ → ℕ
accumulate acc w = if ltb 65535 (acc + w) then acc + w - 65535 else acc + w

-- The loop over the words, and the last byte of an odd length.
unfoldable pub sum_words : ℕ → List ℕ → ℕ
sum_words acc [] = acc
sum_words acc (b ∷ []) = accumulate acc (ntohs (word b 0))
sum_words acc (a ∷ b ∷ rest) = sum_words (accumulate acc (ntohs (word a b))) rest

-- htons(~acc): the complement is taken on 32 bits and cut to 16.
unfoldable pub ip_checksum : List ℕ → ℕ
ip_checksum bytes = htons ((2 ^ 32 - 1 - sum_words 65535 bytes) % 2 ^ 16)

-- The two bytes of a 16-bit field in memory.
abbrev pub bytes16 : ℕ → List ℕ
bytes16 n = n % 256 ∷ n / 256 % 256 ∷ []

abbrev pub bytes32 : ℕ → List ℕ
bytes32 n = n % 256 ∷ n / 256 % 256 ∷ n / 2 ^ 16 % 256 ∷ n / 2 ^ 24 % 256 ∷ []

-- The header that ip_send_packet writes, as the bytes in front of the checksum, the checksum and
-- the bytes behind it; `dest_ip` is written as it is given.
abbrev pub ip_front : ℕ → ℕ → List ℕ
ip_front protocol len =
    69 ∷ 0 ∷ (bytes16 (htons ((20 + len) % 2 ^ 16)) ++ bytes16 (htons 1) ++ bytes16 0)
    ++ (64 ∷ protocol % 256 ∷ [])

abbrev pub ip_back : ℕ → ℕ → List ℕ
ip_back local_ip dest_ip = bytes32 (htonl local_ip) ++ bytes32 dest_ip

unfoldable pub ip_header : ℕ → ℕ → ℕ → ℕ → List ℕ
ip_header local_ip dest_ip protocol len =
    ip_front protocol len
    ++ (bytes16 (ip_checksum (ip_front protocol len ++ (bytes16 0 ++ ip_back local_ip dest_ip)))
        ++ ip_back local_ip dest_ip)

-- icmp_receive of src/net/icmp.c: the packet that it sends for an echo request, whose first eight
-- bytes are the header. `len` is the number of bytes.
unfoldable pub icmp_receive : List ℕ → Option (List ℕ)
icmp_receive (kind ∷ code ∷ c0 ∷ c1 ∷ i0 ∷ i1 ∷ s0 ∷ s1 ∷ payload) =
    if kind == 8
    then some (
        0 ∷ code ∷ []
        ++ (bytes16 (ip_checksum (0 ∷ code ∷ [] ++ (bytes16 0 ++ (i0 ∷ i1 ∷ s0 ∷ s1 ∷ payload))))
            ++ (i0 ∷ i1 ∷ s0 ∷ s1 ∷ payload)))
    else none
icmp_receive packet = none
