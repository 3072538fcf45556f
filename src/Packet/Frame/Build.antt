-- ===== src/Packet/Frame/Build.antt =====
-- The frame that SocketsRawPacket sends.
use mathlib.Core.Path.{subst}
use eltex_lessons.Base.{
  ℕ, ◌+◌, ◌/◌, ◌%◌, [], ◌∷◌, sym, ◌≤◌, ◌<◌, ◌≡◌, refl, ap, some, ◌++◌, arith, All, length, take,
  drop,
}
use eltex_lessons.Text.{Bytes}
use eltex_lessons.Packet.{word, ip_checksum, udp_checksum, pseudo}
use eltex_lessons.Packet.Check.{IsByte, IsSound, ip_checksum_lem, udp_checksum_lem}
use eltex_lessons.Packet.Frame.{
  server_port, packet_port, ip_front, udp_front, ip_header, eth_header, client_ip, server_ip,
  packet_frame, ntohs, process_packet,
}

-- What a receiver sums for a UDP datagram, by RFC 768: both addresses, a zero, the protocol 17 and
-- the length, in front of the datagram.
abbrev pub datagram_sum : Bytes → Bytes → Bytes → Bytes
datagram_sum src dst datagram =
    let n = length datagram in (src ++ (dst ++ (0 ∷ 17 ∷ n / 256 % 256 ∷ n % 256 ∷ []))) ++ datagram

-- A frame with an IP packet that holds a message.
pub record Framed (message frame : Bytes) : Type 0 where
  pub ip : Bytes
  pub udp : Bytes
  pub parts : frame ≡ eth_header ++ (ip ++ (udp ++ message))
  pub protocol : take 2 (drop 12 frame) ≡ 8 ∷ 0 ∷ []
  pub ip_size : length ip ≡ 20
  pub ip_start :
      take 10 ip
      ≡ 69
        ∷ 0
        ∷ (28 + length message) / 256
        ∷ (28 + length message) % 256
        ∷ 3
        ∷ 242
        ∷ 0
        ∷ 0
        ∷ 64
        ∷ 17
        ∷ []
  pub udp_size : length udp ≡ 8
  pub ip_good : ip_checksum ip ≡ 0
  pub udp_good : udp_checksum client_ip server_ip udp message ≡ some 0
  pub ip_sound : IsSound ip
  pub udp_sound : IsSound (datagram_sum client_ip server_ip (udp ++ message))
  pub read_back :
      process_packet (ip ++ (udp ++ message))
      ≡ some (record {
        saddr = client_ip;
        daddr = server_ip;
        source = packet_port;
        dest = server_port;
        len = 8 + length message;
      })

header_bytes : (total : ℕ) → All IsByte (ip_front total ++ (word 0 ++ (client_ip ++ server_ip)))
header_bytes total = omega arith

header_good :
    (total : ℕ)
    → (ip_checksum (ip_header total client_ip server_ip) ≡ 0)
      × IsSound (ip_header total client_ip server_ip)
unfolding ip_header
header_good total =
    ip_checksum_lem (ip_front total) (client_ip ++ server_ip) tt (header_bytes total) (omega arith)

udp_bytes :
    (message : Bytes)
    → All IsByte message
    → All IsByte (
        pseudo client_ip server_ip (8 + length message)
        ++ (udp_front packet_port server_port (length message) ++ (word 0 ++ message)))
udp_bytes message bytes = ground (arith, bytes)

back :
    (total c n : ℕ) (message : Bytes)
    → n < 65528
    → process_packet (
        ip_header total client_ip server_ip
        ++ ((udp_front packet_port server_port n ++ word c) ++ message))
      ≡ some (record {
        saddr = client_ip;
        daddr = server_ip;
        source = packet_port;
        dest = server_port;
        len = 8 + n;
      })
unfolding process_packet ip_header ntohs
back total c n message small =
    ap
      (λ len. some (record {
        saddr = client_ip;
        daddr = server_ip;
        source = packet_port;
        dest = server_port;
        len = len;
      }))
      (omega arith)

frame_of :
    (message : Bytes) (c : ℕ)
    → udp_checksum client_ip server_ip
        (udp_front packet_port server_port (length message) ++ word 0)
        message
      ≡ some c
    → packet_frame message
      ≡ some (
          eth_header
          ++ (ip_header (20 + 8 + length message) client_ip server_ip
              ++ ((udp_front packet_port server_port (length message) ++ word c) ++ message)))
unfolding packet_frame
frame_of message c e = rw (e, packet_frame) refl

-- The client sends every message of at most 900 bytes in a frame whose two checksums are right: the
-- sum of the 16-bit words of the IP header, and that of the UDP datagram behind the two addresses,
-- the protocol 17 and the length, is zero modulo 65535, but not zero, and the program's own tests
-- give zero. The frame has the protocol IP, and its IP header the length of the whole packet; and the
-- sniffer sees the client's and the server's address and port and the
-- length of the message.
pub packet_frame_lem :
    (message : Bytes)
    → All IsByte message
    → length message ≤ 900
    → (frame : Bytes) × (packet_frame message ≡ some frame) × Framed message frame
packet_frame_lem message bytes short =
    let n = length message in
    let front = udp_front packet_port server_port n in
    let ip = ip_header (20 + 8 + n) client_ip server_ip in
    let (c, zero_field, good, all_ones) =
      udp_checksum_lem client_ip server_ip front message tt (udp_bytes message bytes)
        (omega arith) in
    let udp = front ++ word c in
    let size : length (udp ++ message) ≡ 8 + n = omega arith in
    (
      eth_header ++ (ip ++ ((front ++ word c) ++ message)),
      frame_of message c zero_field,
      record {
        ip = ip;
        udp = front ++ word c;
        parts = refl;
        protocol = refl;
        ip_size = unfold ip_header in refl;
        ip_start =
            unfold ip_header in
            ap (λ high. 69 ∷ 0 ∷ high ∷ (28 + n) % 256 ∷ 3 ∷ 242 ∷ 0 ∷ 0 ∷ 64 ∷ 17 ∷ [])
              (omega arith);
        udp_size = refl;
        ip_good = (header_good (20 + 8 + n)).0;
        udp_good = good;
        ip_sound = (header_good (20 + 8 + n)).1;
        udp_sound =
            subst (λ k. IsSound (pseudo client_ip server_ip k ++ (udp ++ message))) (sym size)
              all_ones;
        read_back = back (20 + 8 + n) c n message (omega arith);
      },
    )
