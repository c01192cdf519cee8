-- ===== src/Net/Arp.antt =====
-- Resolving an address: arp_send_request, handle_arp and net_receive of src/net/net.c.
use hz_os.Base.{ℕ, List, get_or}
use hz_os.Net.{htonl}
use hz_os.Net.Frames.{Host, net_send_packet, arp_packet}

-- The bytes of a frame, where it lies in memory.
abbrev pub frame_at : List ℕ → ℕ → ℕ
frame_at bytes i = get_or bytes i 0

-- The reply of `b` to `a`.
abbrev pub reply : Host → Host → List ℕ
reply a b = net_send_packet b a.mac 0x0806 (arp_packet 2 b.mac (htonl b.ip) a.mac (htonl a.ip))
