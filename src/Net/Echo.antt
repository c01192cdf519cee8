-- ===== src/Net/Echo.antt =====
-- Echo requests from the frame on: net_receive of src/net/net.c with icmp_receive.
