-- ===== src/Packet/Frame.antt =====
-- The frames that the raw clients build and read: SocketsRawPacket/Client/client.c, with Ethernet,
-- IP and UDP headers and both checksums; SocketsRawIPUDP/client.c, with IP and UDP headers and no
-- checksum of its own; SoketsRawUDP/client.c, with a UDP header. SocketsRawSniffer/sniffer.c reads
-- such packets. A receive buffer is its bytes after recvfrom, old ones behind the new included.
-- What is printed of a reply are its ports, message and length, and of a sniffed packet its
-- addresses, ports and length.
pub mod Build
pub mod Receive
mod Tests
use eltex_lessons.Base.{
  ℕ, zero, suc, ◌+◌, ◌-◌, ◌*◌, ◌/◌, ◌%◌, Bool, true, false, ◌&&◌, Option, none, some, List, [], ◌∷◌,
  ◌++◌, leb, ◌==◌, length, get_or, take, drop, if◌then◌else◌,
}
use eltex_lessons.Text.{Bytes, codes, before}
use eltex_lessons.Packet.{word, ip_checksum, udp_checksum}

abbrev pub server_port : ℕ
server_port = 10200

-- SOURCE_PORT of SocketsRawPacket, and of the other two.
abbrev pub packet_port : ℕ
packet_port = 8888

abbrev pub raw_port : ℕ
raw_port = 888

-- `htons`, as it lies in memory.
abbrev pub htons : ℕ → Bytes
htons n = n / 256 % 256 ∷ n % 256 ∷ []

-- `ntohs` of the two bytes at an index.
unfoldable pub ntohs : Bytes → ℕ → ℕ
ntohs buf i = get_or buf i 0 * 256 + get_or buf (i + 1) 0

-- The IP header in front of its checksum: version 4 with 5 words, the length, the id 1010, a time
-- to live of 64 and the protocol UDP.
abbrev pub ip_front : ℕ → Bytes
ip_front total = 69 ∷ 0 ∷ (htons total ++ (htons 1010 ++ (0 ∷ 0 ∷ 64 ∷ 17 ∷ [])))

-- The UDP header in front of its checksum.
abbrev pub udp_front : ℕ → ℕ → ℕ → Bytes
udp_front source dest data_len = htons source ++ (htons dest ++ htons (8 + data_len))

-- The IP header of SocketsRawPacket, with its checksum.
unfoldable pub ip_header : ℕ → Bytes → Bytes → Bytes
ip_header total src dst =
    let check = ip_checksum (ip_front total ++ (word 0 ++ (src ++ dst))) in
    ip_front total ++ (word check ++ (src ++ dst))

-- The Ethernet header: the two MAC addresses and the protocol IP.
abbrev pub eth_header : Bytes
eth_header = 8 ∷ 0 ∷ 39 ∷ 131 ∷ 122 ∷ 66 ∷ 8 ∷ 0 ∷ 39 ∷ 25 ∷ 52 ∷ 75 ∷ 8 ∷ 0 ∷ []

abbrev pub client_ip : Bytes
client_ip = 192 ∷ 168 ∷ 0 ∷ 178 ∷ []

abbrev pub server_ip : Bytes
server_ip = 192 ∷ 168 ∷ 0 ∷ 158 ∷ []

-- The message of the clients.
abbrev pub hello : Bytes
hello = codes "Hello!"

-- The frame that SocketsRawPacket sends, for a message; `none` where `udp_checksum` overruns its
-- buffer.
unfoldable pub packet_frame : Bytes → Option Bytes
packet_frame message =
    let ip = ip_header (20 + 8 + length message) client_ip server_ip in
    let front = udp_front packet_port server_port (length message) in
    elim (udp_checksum client_ip server_ip (front ++ word 0) message) [
      | none ↦ none
      | some check ↦ some (eth_header ++ (ip ++ ((front ++ word check) ++ message)))
    ]

abbrev pub localhost : Bytes
localhost = 127 ∷ 0 ∷ 0 ∷ 1 ∷ []

-- The packet that SoketsRawUDP sends, and the one that SocketsRawIPUDP sends.
unfoldable pub udp_packet : Bytes → Bytes
udp_packet message = (udp_front raw_port server_port (length message) ++ word 0) ++ message

unfoldable pub ip_packet : Bytes → Bytes
ip_packet message =
    (ip_front (20 + 8 + length message) ++ (word 0 ++ (localhost ++ localhost)))
    ++ udp_packet message

-- `ihl * 4` of the IP header at an index.
abbrev pub ip_header_len : Bytes → ℕ → ℕ
ip_header_len buf i = get_or buf i 0 % 16 * 4

-- What printf writes for "%.*s": at most `n` bytes up to a NUL. `none` where it reads on behind the
-- buffer.
unfoldable pub print_text : ℕ → Bytes → Option Bytes
print_text zero s = some []
print_text (suc n) [] = none
print_text (suc n) (c ∷ s) =
    let rest = print_text n s in
    if c == 0 then some [] else elim rest [ none ↦ none | some t ↦ some (c ∷ t) ]

-- The message of a reply with its length field; a negative precision is none, so a length below 8
-- prints up to the NUL.
unfoldable pub reply_text : ℕ → Bytes → Option Bytes
reply_text len s = print_text (if leb 8 len then len - 8 else length s + 1) s

pub record Reply : Type 0 where
  pub source : ℕ
  pub dest : ℕ
  pub message : Bytes

-- What a round of a receiving loop comes to: a further round, a reply that is printed, or a read
-- behind the buffer.
pub data Received : Type 0 where
  skipped : Received
  received : Reply → Received
  overrun : Received

-- The UDP header and the data at an index, printed.
unfoldable pub print_reply : Bytes → ℕ → Received
print_reply buf i = elim (reply_text (ntohs buf (i + 4)) (drop (i + 8) buf)) [
  | none ↦ overrun
  | some text ↦ received (record { source = ntohs buf i; dest = ntohs buf (i + 2); message = text })
]

-- The test on the ports of the UDP header at an index.
abbrev pub from_server : ℕ → Bytes → ℕ → Bool
from_server port buf i = ntohs buf i == server_port && ntohs buf (i + 2) == port

-- The rounds of the three receiving loops.
unfoldable pub receive_frame : Bytes → Received
receive_frame buf =
    let i = 14 + ip_header_len buf 14 in
    if (ntohs buf 12 == 2048 && get_or buf 23 0 == 17) && from_server packet_port buf i
    then print_reply buf i
    else skipped

unfoldable pub receive_ip : Bytes → Received
receive_ip buf =
    let i = ip_header_len buf 0 in
    if get_or buf 9 0 == 17 && from_server raw_port buf i then print_reply buf i else skipped

unfoldable pub receive_udp : Bytes → Received
receive_udp buf =
    let i = ip_header_len buf 0 in if ntohs buf i == server_port then print_reply buf i else skipped

-- The loops, for the buffers as recvfrom leaves them: they go on to the first reply. `none` where
-- none has come yet.
unfoldable pub await : (Bytes → Received) → List Bytes → Option Received
await receive [] = none
await receive (buf ∷ bufs) =
    let rest = await receive bufs in
    elim (receive buf) [
      | skipped ↦ rest
      | received reply ↦ some (received reply)
      | overrun ↦ some overrun
    ]

pub record Sniffed : Type 0 where
  pub saddr : Bytes
  pub daddr : Bytes
  pub source : ℕ
  pub dest : ℕ
  pub len : ℕ

-- `process_packet` of the sniffer.
unfoldable pub process_packet : Bytes → Option Sniffed
process_packet buf =
    let i = ip_header_len buf 0 in
    if get_or buf 9 0 == 17
    then some (record {
      saddr = take 4 (drop 12 buf);
      daddr = take 4 (drop 16 buf);
      source = ntohs buf i;
      dest = ntohs buf (i + 2);
      len = ntohs buf (i + 4);
    })
    else none
