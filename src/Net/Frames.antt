-- ===== src/Net/Frames.antt =====
-- Frames, ARP, UDP and TCP: src/net/net.c, src/net/udp.c and src/net/tcp.c. A packet is a list of
-- bytes; what arrives is memory from the first byte of the frame on, with a length.
use hz_os.Base.{
  ℕ, zero, suc, ◌+◌, ◌-◌, ◌*◌, ◌/◌, ◌%◌, ◌^◌, ◌&&◌, ◌||◌, List, [], ◌∷◌, ◌++◌, none, some, length,
  get_or, drop, if◌then◌else◌, ltb, ◌==◌,
}
use hz_os.Base.Words.{add32, sub32}
use hz_os.Net.{
  ntohs, htons, ntohl, htonl, word, bytes16, bytes32, ip_header, ip_checksum, icmp_receive,
}

pub record Mac : Type 0 where
  pub m0 : ℕ
  pub m1 : ℕ
  pub m2 : ℕ
  pub m3 : ℕ
  pub m4 : ℕ
  pub m5 : ℕ

-- local_mac and local_ip.
pub record Host : Type 0 where
  pub mac : Mac
  pub ip : ℕ

-- The frames that rtl8139_send_packet is called with, and the packets that kprintf tells of; its
-- texts about a packet that is answered are left out. An ARP reply is told of with the four numbers
-- of its address in the order in which they are printed, and nothing of it is stored.
pub data Event : Type 0 where
  sent : List ℕ → Event
  arp_reply_from : ℕ → ℕ → ℕ → ℕ → Mac → Event
  udp_recv : ℕ → ℕ → ℕ → ℕ → Event
  tcp_recv : ℕ → ℕ → ℕ → ℕ → ℕ → Event

abbrev pub mac_bytes : Mac → List ℕ
mac_bytes m = m.m0 ∷ m.m1 ∷ m.m2 ∷ m.m3 ∷ m.m4 ∷ m.m5 ∷ []

abbrev pub broadcast_mac : Mac
broadcast_mac = record { m0 = 255; m1 = 255; m2 = 255; m3 = 255; m4 = 255; m5 = 255 }

-- The fields of a packed struct at an offset.
abbrev pub u8 : List ℕ → ℕ → ℕ
u8 bytes i = get_or bytes i 0

abbrev pub u16 : List ℕ → ℕ → ℕ
u16 bytes i = word (u8 bytes i) (u8 bytes (i + 1))

abbrev pub u32 : List ℕ → ℕ → ℕ
u32 bytes i = u16 bytes i + u16 bytes (i + 2) * 2 ^ 16

abbrev pub mac_at : List ℕ → ℕ → Mac
mac_at bytes i = record {
  m0 = u8 bytes i;
  m1 = u8 bytes (i + 1);
  m2 = u8 bytes (i + 2);
  m3 = u8 bytes (i + 3);
  m4 = u8 bytes (i + 4);
  m5 = u8 bytes (i + 5);
}

abbrev pub net_send_packet : Host → Mac → ℕ → List ℕ → List ℕ
net_send_packet host dest_mac ethertype bytes =
    mac_bytes dest_mac ++ (mac_bytes host.mac ++ (bytes16 (htons ethertype) ++ bytes))

-- The fields of arp_packet_t; the addresses are in the order of the network.
abbrev pub arp_packet : ℕ → Mac → ℕ → Mac → ℕ → List ℕ
arp_packet opcode src_mac src_ip dest_mac dest_ip =
    bytes16 (htons 1)
    ++ (bytes16 (htons 0x0800)
        ++ (6 ∷ 4 ∷ []
            ++ (bytes16 (htons opcode)
                ++ (mac_bytes src_mac
                    ++ (bytes32 src_ip ++ (mac_bytes dest_mac ++ bytes32 dest_ip))))))

unfoldable pub handle_arp : Host → List ℕ → List Event
handle_arp host arp =
    if ltb (length arp) 28
    then []
    else if ntohs (u16 arp 6) == 1
    then if u32 arp 24 == htonl host.ip
      then sent (
          net_send_packet host (mac_at arp 8) 0x0806
            (arp_packet 2 host.mac (htonl host.ip) (mac_at arp 8) (u32 arp 14)))
        ∷ []
      else []
    else if ntohs (u16 arp 6) == 2
    then arp_reply_from (u32 arp 14 / 2 ^ 24 % 256) (u32 arp 14 / 2 ^ 16 % 256)
        (u32 arp 14 / 2 ^ 8 % 256) (u32 arp 14 % 256) (mac_at arp 8)
      ∷ []
    else []

abbrev no_mac : Mac
no_mac = record { m0 = 0; m1 = 0; m2 = 0; m3 = 0; m4 = 0; m5 = 0 }

unfoldable pub arp_send_request : Host → ℕ → List ℕ
arp_send_request host target_ip =
    net_send_packet host broadcast_mac 0x0806
      (arp_packet 1 host.mac (htonl host.ip) no_mac target_ip)

unfoldable pub ip_send_packet : Host → Mac → ℕ → ℕ → List ℕ → List ℕ
ip_send_packet host dest_mac dest_ip protocol bytes =
    net_send_packet host dest_mac 0x0800
      (ip_header host.ip dest_ip protocol (length bytes) ++ bytes)

-- `len` is the number of bytes.
unfoldable pub udp_receive : ℕ → List ℕ → ℕ → List Event
udp_receive src_ip udp len =
    if ltb len 8
    then []
    else if ltb (ntohs (u16 udp 4)) 8 || ltb len (ntohs (u16 udp 4))
    then []
    else udp_recv src_ip (ntohs (u16 udp 0)) (ntohs (u16 udp 2)) (ntohs (u16 udp 4) - 8) ∷ []

unfoldable pub udp_send_packet : Host → ℕ → ℕ → ℕ → List ℕ → List ℕ
udp_send_packet host dest_ip dest_port src_port bytes =
    ip_send_packet host broadcast_mac dest_ip 17 (
      bytes16 (htons src_port)
      ++ (bytes16 (htons dest_port)
          ++ (bytes16 (htons ((8 + length bytes) % 2 ^ 16)) ++ (bytes16 0 ++ bytes))))

abbrev pub tcp_pseudo_header : Host → ℕ → ℕ → List ℕ
tcp_pseudo_header host dest_ip packet_len =
    bytes32 (htonl host.ip)
    ++ (bytes32 (htonl dest_ip) ++ (0 ∷ 6 ∷ bytes16 (htons (packet_len % 2 ^ 16))))

-- The header in front of the checksum.
abbrev pub tcp_front : ℕ → ℕ → ℕ → ℕ → ℕ → List ℕ
tcp_front src_port dest_port seq ack flags =
    bytes16 (htons src_port)
    ++ (bytes16 (htons dest_port)
        ++ (bytes32 (htonl seq) ++ (bytes32 (htonl ack) ++ (80 ∷ flags ∷ bytes16 (htons 8192)))))

-- A segment: its header with a checksum, and its data.
abbrev pub tcp_segment : ℕ → ℕ → ℕ → ℕ → ℕ → ℕ → List ℕ → List ℕ
tcp_segment src_port dest_port seq ack flags checksum bytes =
    tcp_front src_port dest_port seq ack flags ++ (bytes16 checksum ++ (bytes16 0 ++ bytes))

unfoldable pub tcp_send_packet : Host → ℕ → ℕ → ℕ → ℕ → ℕ → ℕ → List ℕ → List ℕ
tcp_send_packet host dest_ip dest_port src_port seq ack flags bytes =
    let checksum = ip_checksum (
      tcp_pseudo_header host dest_ip (20 + length bytes)
      ++ tcp_segment src_port dest_port seq ack flags 0 bytes) in
    ip_send_packet host broadcast_mac dest_ip 6
      (tcp_segment src_port dest_port seq ack flags checksum bytes)

-- The echo server on port 80.
unfoldable pub tcp_answer : Host → ℕ → List ℕ → List ℕ → List Event
tcp_answer host src_ip tcp payload =
    let flags = u8 tcp 13 in
    let port = ntohs (u16 tcp 0) in
    let seq = ntohl (u32 tcp 4) in
    if ntohs (u16 tcp 2) == 80
    then if flags / 2 % 2 == 1
      then sent (tcp_send_packet host src_ip port 80 0 (add32 seq 1) 18 []) ∷ []
      else if flags / 16 % 2 == 1 && ltb 0 (length payload)
      then sent (
          tcp_send_packet host src_ip port 80 (ntohl (u32 tcp 8)) (add32 seq (length payload)) 24
            payload)
        ∷ []
      else []
    else []

unfoldable pub tcp_receive : Host → ℕ → List ℕ → List Event
tcp_receive host src_ip tcp =
    let header_len = u8 tcp 12 / 16 * 4 in
    if ltb (length tcp) 20
    then []
    else if ltb header_len 20 || ltb (length tcp) header_len
    then []
    else tcp_recv src_ip (ntohs (u16 tcp 0)) (ntohs (u16 tcp 2)) (u8 tcp 13)
        (length tcp - header_len)
      ∷ tcp_answer host src_ip tcp (drop header_len tcp)

-- n bytes of memory from an offset on.
unfoldable pub bytes_at : (ℕ → ℕ) → ℕ → ℕ → List ℕ
bytes_at mem i zero = []
bytes_at mem i (suc n) = mem i ∷ bytes_at mem (suc i) n

-- The IPv4 branch. The length of the header's field is not compared with that of the frame.
unfoldable pub ip_receive : Host → (ℕ → ℕ) → List Event
ip_receive host mem =
    let header = bytes_at mem 14 20 in
    let ip_hdr_len = u8 header 0 % 16 * 4 in
    let ip_payload_len = sub32 (ntohs (u16 header 2)) ip_hdr_len in
    let payload = bytes_at mem (14 + ip_hdr_len) ip_payload_len in
    let protocol = u8 header 9 in
    let src_ip = u32 header 12 in
    if protocol == 1
    then elim (icmp_receive payload) [
      | none ↦ []
      | some reply ↦ sent (ip_send_packet host (mac_at (bytes_at mem 6 6) 0) src_ip 1 reply) ∷ []
    ]
    else if protocol == 17
    then udp_receive src_ip payload ip_payload_len
    else if protocol == 6
    then tcp_receive host src_ip payload
    else []

-- `mem` is memory from the frame on, `len` the length of the frame.
unfoldable pub net_receive : Host → (ℕ → ℕ) → ℕ → List Event
net_receive host mem len =
    let type = ntohs (word (mem 12) (mem 13)) in
    if ltb len 14
    then []
    else if type == 0x0806
    then handle_arp host (bytes_at mem 14 (len - 14))
    else if type == 0x0800
    then if ltb (len - 14) 20 then [] else ip_receive host mem
    else []
