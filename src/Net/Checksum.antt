-- ===== src/Net/Checksum.antt =====
-- The Internet checksum of src/net/net.c.
use hz_os.Base.{
  ℕ, ◌+◌, ◌-◌, ◌/◌, ◌%◌, ◌^◌, ◌≤◌, ◌<◌, ◌≡◌, List, [], ◌∷◌, ◌++◌, some, arith, refl, ap, ◌∙◌, ◌*◌,
  All, All-append, length, ◌↔◌,
}
use hz_os.Net.{
  ntohs, htons, word, accumulate, sum_words, ip_checksum, bytes16, ip_front, ip_back, ip_header,
  icmp_receive, bytes32, htonl,
}

-- The sum of the words, without carries.
unfoldable pub word_sum : List ℕ → ℕ
word_sum [] = 0
word_sum (b ∷ []) = ntohs (word b 0)
word_sum (a ∷ b ∷ rest) = ntohs (word a b) + word_sum rest

abbrev pub Even : List ℕ → Type 0
Even [] = Unit
Even (b ∷ []) = 1 ≤ 0
Even (a ∷ b ∷ rest) = Even rest

-- The sum, from 1 on, stays between 1 and 65535.
pub sum_words-range :
    (acc : ℕ) (bytes : List ℕ)
    → 1 ≤ acc
    → acc ≤ 65535
    → (1 ≤ sum_words acc bytes) × (sum_words acc bytes ≤ 65535)
unfolding sum_words
sum_words-range acc [] lo hi = (lo, hi)
sum_words-range acc (b ∷ []) lo hi = (ground (arith, lo, hi), ground (arith, lo, hi))
sum_words-range acc (a ∷ b ∷ rest) lo hi =
    sum_words-range (accumulate acc (ntohs (word a b))) rest (ground (arith, lo, hi))
      (ground (arith, lo, hi))

accumulate-mod : (acc w : ℕ) → accumulate acc w % 65535 ≡ (acc + w) % 65535
accumulate-mod acc w = ground arith

pub sum_words-mod :
    (acc : ℕ) (bytes : List ℕ) → sum_words acc bytes % 65535 ≡ (acc + word_sum bytes) % 65535
unfolding sum_words word_sum
sum_words-mod acc [] = omega arith
sum_words-mod acc (b ∷ []) = accumulate-mod acc (ntohs (word b 0))
sum_words-mod acc (a ∷ b ∷ rest) = omega (
  arith,
  sum_words-mod (accumulate acc (ntohs (word a b))) rest,
  accumulate-mod acc (ntohs (word a b)),
)

word_sum-append : (xs ys : List ℕ) → Even xs → word_sum (xs ++ ys) ≡ word_sum xs + word_sum ys
unfolding word_sum
word_sum-append [] ys e = omega arith
word_sum-append (b ∷ []) ys e = absurd (omega (arith, e))
word_sum-append (a ∷ b ∷ rest) ys e = omega (arith, word_sum-append rest ys e)

word_sum-field :
    (n : ℕ) (ys : List ℕ) → n < 2 ^ 16 → word_sum (bytes16 (htons n) ++ ys) ≡ n + word_sum ys
unfolding word_sum
word_sum-field n ys lt = omega arith

-- The arithmetic of the complement.
cancels :
    (r0 r1 x y m : ℕ)
    → (1 ≤ r0) × (r0 ≤ 65535)
    → (1 ≤ r1) × (r1 ≤ 65535)
    → r0 % 65535 ≡ (65535 + (x + (0 + y))) % 65535
    → r1 % 65535 ≡ (65535 + (x + (m + y))) % 65535
    → m ≡ (2 ^ 32 - 1 - r0) % 2 ^ 16
    → r1 ≡ 65535
cancels r0 r1 x y m h0 h1 e0 e1 e = omega (arith, h0.0, h0.1, h1.0, h1.1, e0, e1, e)

-- With the complement of the sum in the field the sum is 65535.
pub complemented :
    (front back : List ℕ) (m : ℕ)
    → Even front
    → m < 2 ^ 16
    → m ≡ (2 ^ 32 - 1 - sum_words 65535 (front ++ (bytes16 0 ++ back))) % 2 ^ 16
    → sum_words 65535 (front ++ (bytes16 (htons m) ++ back)) ≡ 65535
complemented front back m e lt eq =
    let before : List ℕ = front ++ (bytes16 0 ++ back) in
    let after : List ℕ = front ++ (bytes16 (htons m) ++ back) in
    let w0 : word_sum before ≡ word_sum front + (0 + word_sum back) =
      word_sum-append front (bytes16 0 ++ back) e
      ∙ ap (λ n. word_sum front + n) (word_sum-field 0 back (omega arith)) in
    let w1 : word_sum after ≡ word_sum front + (m + word_sum back) =
      word_sum-append front (bytes16 (htons m) ++ back) e
      ∙ ap (λ n. word_sum front + n) (word_sum-field m back lt) in
    let m0 : sum_words 65535 before % 65535
        ≡ (65535 + (word_sum front + (0 + word_sum back))) % 65535 =
      sum_words-mod 65535 before ∙ ap (λ n. (65535 + n) % 65535) w0 in
    let m1 : sum_words 65535 after % 65535
        ≡ (65535 + (word_sum front + (m + word_sum back))) % 65535 =
      sum_words-mod 65535 after ∙ ap (λ n. (65535 + n) % 65535) w1 in
    cancels (sum_words 65535 before) (sum_words 65535 after) (word_sum front) (word_sum back) m
      (sum_words-range 65535 before (omega arith) (omega arith))
      (sum_words-range 65535 after (omega arith) (omega arith)) m0 m1 eq

-- A field of 16 bits that stands behind an even number of bytes, was zero when ip_checksum was
-- computed and then set to its result makes ip_checksum of the whole zero.
pub checksum-verifies :
    (front back : List ℕ)
    → Even front
    → ip_checksum (front ++ (bytes16 (ip_checksum (front ++ (bytes16 0 ++ back))) ++ back)) ≡ 0
unfolding ip_checksum
checksum-verifies front back e =
    let r = sum_words 65535 (front ++ (bytes16 0 ++ back)) in
    ap (λ s. htons ((2 ^ 32 - 1 - s) % 2 ^ 16))
      (complemented front back ((2 ^ 32 - 1 - r) % 2 ^ 16) e (omega arith) refl)

-- The checksum is zero where the sum of the words is a multiple of 65535.
pub ip_checksum-sum : (bytes : List ℕ) → (ip_checksum bytes ≡ 0) ↔ (word_sum bytes % 65535 ≡ 0)
unfolding ip_checksum
ip_checksum-sum bytes =
    let (lo, hi) = sum_words-range 65535 bytes (omega arith) (omega arith) in
    let m = sum_words-mod 65535 bytes in
    (λ e. omega (arith, lo, hi, m, e), λ e. omega (arith, lo, hi, m, e))

-- The sum of the 16-bit words of a packet as RFC 1071 reads them, the high byte first.
unfoldable pub receiver_sum : List ℕ → ℕ
receiver_sum [] = 0
receiver_sum (b ∷ []) = b * 256
receiver_sum (a ∷ b ∷ rest) = a * 256 + b + receiver_sum rest

abbrev IsByte : ℕ → Type 0
IsByte b = b < 256

receiver_sum-word_sum : (bytes : List ℕ) → All IsByte bytes → receiver_sum bytes ≡ word_sum bytes
unfolding receiver_sum word_sum
receiver_sum-word_sum [] h = refl
receiver_sum-word_sum (b ∷ []) h = omega (arith, h.0)
receiver_sum-word_sum (a ∷ b ∷ rest) h = omega (arith, h.0, h.1.0, receiver_sum-word_sum rest h.1.1)

bytes16-IsByte : (n : ℕ) → All IsByte (bytes16 n)
bytes16-IsByte n = (omega arith, (omega arith, tt))

bytes32-IsByte : (n : ℕ) → All IsByte (bytes32 n)
bytes32-IsByte n = (omega arith, (omega arith, (omega arith, (omega arith, tt))))

ip_header-IsByte :
    (local_ip dest_ip protocol len : ℕ) → All IsByte (ip_header local_ip dest_ip protocol len)
unfolding ip_header
ip_header-IsByte local_ip dest_ip protocol len =
    let back =
      All-append IsByte (bytes32 (htonl local_ip)) (bytes32 dest_ip)
        (bytes32-IsByte (htonl local_ip)) (bytes32-IsByte dest_ip) in
    let sum = ip_checksum (ip_front protocol len ++ (bytes16 0 ++ ip_back local_ip dest_ip)) in
    let total = bytes16-IsByte (htons ((20 + len) % 2 ^ 16)) in
    let tail =
      All-append IsByte (bytes16 sum) (ip_back local_ip dest_ip) (bytes16-IsByte sum) back in
    (
      omega arith,
      (
        omega arith,
        (
          total.0,
          (
            total.1.0,
            (
              omega arith,
              (omega arith, (omega arith, (omega arith, (omega arith, (omega arith, tail))))),
            ),
          ),
        ),
      ),
    )

-- Every IPv4 header that ip_send_packet writes is 20 bytes that a receiver accepts by RFC 1071: the
-- sum of its words, the high byte first, is not 0 and a multiple of 65535, which is the same as that
-- the sum with the carries added back is 0xFFFF.
pub ip_header-verifies :
    (local_ip dest_ip protocol len : ℕ)
    → let header = ip_header local_ip dest_ip protocol len in
      (length header ≡ 20)
      × All (λ b. b < 256) header
      × (receiver_sum header % 65535 ≡ 0)
      × (1 ≤ receiver_sum header)
ip_header-verifies local_ip dest_ip protocol len =
    let header = ip_header local_ip dest_ip protocol len in
    let bytes = ip_header-IsByte local_ip dest_ip protocol len in
    let zero_sum : ip_checksum header ≡ 0 =
      unfold ip_header in
      (checksum-verifies (ip_front protocol len) (ip_back local_ip dest_ip) tt) in
    (
      unfold ip_header in refl,
      bytes,
      ap (λ n. n % 65535) (receiver_sum-word_sum header bytes)
          ∙ (ip_checksum-sum header).0 zero_sum,
      unfold ip_header receiver_sum in omega arith,
    )

-- An echo request is answered with an echo reply of the same code, identifier, sequence number and
-- payload, whose checksum is valid.
pub icmp-echo :
    (code c0 c1 i0 i1 s0 s1 : ℕ) (payload : List ℕ)
    → (k0 k1 : ℕ) × (icmp_receive (8 ∷ code ∷ c0 ∷ c1 ∷ i0 ∷ i1 ∷ s0 ∷ s1 ∷ payload)
        ≡ some (0 ∷ code ∷ k0 ∷ k1 ∷ i0 ∷ i1 ∷ s0 ∷ s1 ∷ payload))
      × (ip_checksum (0 ∷ code ∷ k0 ∷ k1 ∷ i0 ∷ i1 ∷ s0 ∷ s1 ∷ payload) ≡ 0)
unfolding icmp_receive
icmp-echo code c0 c1 i0 i1 s0 s1 payload =
    let rest : List ℕ = i0 ∷ i1 ∷ s0 ∷ s1 ∷ payload in
    let k = ip_checksum (0 ∷ code ∷ 0 ∷ 0 ∷ rest) in
    (k % 256, k / 256 % 256, refl, checksum-verifies (0 ∷ code ∷ []) rest tt)
