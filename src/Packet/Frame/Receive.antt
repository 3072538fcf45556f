-- ===== src/Packet/Frame/Receive.antt =====
-- The loops that wait for the server's reply.
use eltex_lessons.Base.{
  ℕ, suc, ◌+◌, ◌*◌, ◌%◌, ◌≤◌, ◌<◌, ◌≡◌, refl, ◌∙◌, ap, true, some, List, [], ◌∷◌, ◌++◌, arith, leb,
  All, length, length-append, get_or, get_or-append, get_or-append_left, drop,
}
use mathlib.Core.List.{append_assoc}
use mathlib.Core.Path.{subst}
use eltex_lessons.Text.{Bytes, Without}
use eltex_lessons.Packet.Frame.{
  server_port, packet_port, ntohs, udp_front, ip_header_len, print_text, reply_text, Reply, skipped,
  received, print_reply, receive_frame, receive_ip, receive_udp, raw_port, await,
}

drop-append : (front t : Bytes) (k : ℕ) → drop (length front + k) (front ++ t) ≡ drop k t
drop-append [] t k = ap (λ i. drop i t) (omega arith)
drop-append (c ∷ front) t k =
    let step : suc (length front) + k ≡ suc (length front + k) = omega arith in
    rw step (drop-append front t k)

ntohs-append : (front t : Bytes) (k : ℕ) → ntohs (front ++ t) (length front + k) ≡ ntohs t k
unfolding ntohs
ntohs-append front t k =
    let next : length front + k + 1 ≡ length front + (k + 1) = omega arith in
    rw (next, get_or-append front t k 0, get_or-append front t (k + 1) 0) refl

print_text-append : (s rest : Bytes) → Without 0 s → print_text (length s) (s ++ rest) ≡ some s
unfolding print_text
print_text-append [] rest h = refl
print_text-append (c ∷ s) rest h = rw h.0 (rw (print_text-append s rest h.1) refl)

-- The UDP part of a reply of the server to a port, in a buffer with old bytes behind it.
abbrev pub answer : ℕ → ℕ → ℕ → Bytes → Bytes → Bytes
answer port a b message rest =
    udp_front server_port port (length message) ++ (a ∷ b ∷ (message ++ rest))

abbrev pub server_reply : ℕ → Bytes → Reply
server_reply port message = record { source = server_port; dest = port; message = message }

reply_text_lem : (n : ℕ) (s : Bytes) → reply_text (8 + n) s ≡ print_text n s
unfolding reply_text
reply_text_lem n s =
    let long : leb 8 (8 + n) ≡ true = ground arith in
    rw long (ap (λ k. print_text k s) (omega arith))

-- What the loops read at the UDP header.
record Read (buf : Bytes) (i port : ℕ) (message rest : Bytes) : Type 0 where
  source : ntohs buf i ≡ server_port
  dest : ntohs buf (i + 2) ≡ port
  len : ntohs buf (i + 4) ≡ 8 + length message
  data_left : drop (i + 8) buf ≡ message ++ rest

answer-Read :
    (front : Bytes) (port a b : ℕ) (message rest : Bytes)
    → port < 65536
    → length message < 65528
    → Read (front ++ answer port a b message rest) (length front) port message rest
answer-Read front port a b message rest lt small =
    let t = answer port a b message rest in
    record {
      source =
          ap (ntohs (front ++ t)) (omega arith) ∙ ntohs-append front t 0 ∙ unfold ntohs in refl;
      dest = ntohs-append front t 2 ∙ unfold ntohs in omega arith;
      len = ntohs-append front t 4 ∙ unfold ntohs in omega arith;
      data_left = drop-append front t 8;
    }

print_reply-Read :
    (buf : Bytes) (i port : ℕ) (message rest : Bytes)
    → Read buf i port message rest
    → Without 0 message
    → print_reply buf i ≡ received (server_reply port message)
unfolding print_reply
print_reply-Read buf i port message rest r clean =
    let text : reply_text (ntohs buf (i + 4)) (drop (i + 8) buf) ≡ some message =
      rw (r.len, r.data_left)
        (reply_text_lem (length message) (message ++ rest)
          ∙ print_text-append message rest clean) in
    rw (text, print_reply) (rw (r.source, r.dest) refl)

-- An IP header, with options or without, of a UDP packet.
pub record IsUdpHeader (ip : Bytes) : Type 0 where
  pub long : 20 ≤ length ip
  pub size : ip_header_len ip 0 ≡ length ip
  pub protocol : get_or ip 9 0 ≡ 17

-- The Ethernet header of an IP packet.
pub record IsIpFrame (eth : Bytes) : Type 0 where
  pub size : length eth ≡ 14
  pub protocol : ntohs eth 12 ≡ 2048

get_or_at :
    (front t : Bytes) (n k : ℕ) → length front ≡ n → get_or (front ++ t) (n + k) 0 ≡ get_or t k 0
get_or_at front t n k e =
    ap (λ i. get_or (front ++ t) i 0) (omega (arith, e)) ∙ get_or-append front t k 0

ntohs-left : (eth t : Bytes) → length eth ≡ 14 → ntohs (eth ++ t) 12 ≡ ntohs eth 12
unfolding ntohs
ntohs-left eth t e =
    rw (get_or-append_left eth t 12 0 (omega arith), get_or-append_left eth t 13 0 (omega arith))
      refl

receive_frame-Read :
    (buf : Bytes) (i : ℕ) (message rest : Bytes)
    → ntohs buf 12 ≡ 2048
    → get_or buf 23 0 ≡ 17
    → 14 + ip_header_len buf 14 ≡ i
    → Read buf i packet_port message rest
    → Without 0 message
    → receive_frame buf ≡ received (server_reply packet_port message)
unfolding receive_frame
receive_frame-Read buf i message rest proto udp at r clean =
    rw (at, receive_frame)
      (rw (proto, udp, r.source, r.dest) (print_reply-Read buf i packet_port message rest r clean))

await_frame :
    (bufs more : List Bytes) (eth ip message rest : Bytes) (a b : ℕ)
    → All (λ buf. receive_frame buf ≡ skipped) bufs
    → IsIpFrame eth
    → IsUdpHeader ip
    → Without 0 message
    → length message < 65528
    → await receive_frame (bufs ++ (eth ++ (ip ++ answer packet_port a b message rest)) ∷ more)
      ≡ some (received (server_reply packet_port message))
unfolding await
await_frame [] more eth ip message rest a b skips frame header clean small =
    let t = answer packet_port a b message rest in
    let buf = eth ++ (ip ++ t) in
    let front = eth ++ ip in
    let same : front ++ t ≡ buf = append_assoc eth ip t in
    let proto : ntohs buf 12 ≡ 2048 = ntohs-left eth (ip ++ t) frame.size ∙ frame.protocol in
    let udp : get_or buf 23 0 ≡ 17 =
      get_or_at eth (ip ++ t) 14 9 frame.size
      ∙ get_or-append_left ip t 9 0 (omega (arith, header.long))
      ∙ header.protocol in
    let first : get_or buf 14 0 ≡ get_or ip 0 0 =
      get_or_at eth (ip ++ t) 14 0 frame.size
      ∙ get_or-append_left ip t 0 0 (omega (arith, header.long)) in
    let at : 14 + ip_header_len buf 14 ≡ length front =
      ap (λ c. 14 + c % 16 * 4) first
      ∙ omega (arith, header.size, frame.size, length-append eth ip) in
    let read : Read buf (length front) packet_port message rest =
      subst (λ x. Read x (length front) packet_port message rest) same
        (answer-Read front packet_port a b message rest (omega arith) small) in
    rw (receive_frame-Read buf (length front) message rest proto udp at read clean, await) refl
await_frame (c ∷ bufs) more eth ip message rest a b skips frame header clean small =
    rw (skips.0, await)
      (await_frame bufs more eth ip message rest a b skips.1 frame header clean small)

ip_length :
    (ip message rest : Bytes) (port a b : ℕ)
    → IsUdpHeader ip
    → ip_header_len (ip ++ answer port a b message rest) 0 ≡ length ip
ip_length ip message rest port a b header =
    ap (λ c. c % 16 * 4)
      (get_or-append_left ip (answer port a b message rest) 0 0 (omega (arith, header.long)))
    ∙ header.size

receive_ip-answer :
    (ip message rest : Bytes) (a b : ℕ)
    → IsUdpHeader ip
    → Without 0 message
    → length message < 65528
    → (receive_ip (ip ++ answer raw_port a b message rest)
        ≡ received (server_reply raw_port message))
      × (receive_udp (ip ++ answer raw_port a b message rest)
          ≡ received (server_reply raw_port message))
unfolding receive_ip receive_udp
receive_ip-answer ip message rest a b header clean small =
    let t = answer raw_port a b message rest in
    let r = answer-Read ip raw_port a b message rest (omega arith) small in
    let udp : get_or (ip ++ t) 9 0 ≡ 17 =
      get_or-append_left ip t 9 0 (omega (arith, header.long)) ∙ header.protocol in
    let at = ip_length ip message rest raw_port a b header in
    let shown = print_reply-Read (ip ++ t) (length ip) raw_port message rest r clean in
    (
      rw (at, receive_ip) (rw (udp, r.source, r.dest) shown),
      rw (at, receive_udp) (rw r.source shown),
    )

-- Behind any frames that it skips, a frame with an IP packet whose UDP header names the server's
-- port, the client's and the length, and whose message has no NUL: the loop of SocketsRawPacket
-- ends with that frame, and prints the ports and exactly the message, whatever IP options stand in
-- front and whatever old bytes behind. The rounds of SocketsRawIPUDP and SoketsRawUDP do so with
-- such a packet for their own port.
pub await-answer :
    (bufs more : List Bytes) (eth ip message rest : Bytes) (a b : ℕ)
    → All (λ buf. receive_frame buf ≡ skipped) bufs
    → IsIpFrame eth
    → IsUdpHeader ip
    → Without 0 message
    → length message < 65528
    → (await receive_frame (bufs ++ (eth ++ (ip ++ answer packet_port a b message rest)) ∷ more)
        ≡ some (received (server_reply packet_port message)))
      × (receive_ip (ip ++ answer raw_port a b message rest)
          ≡ received (server_reply raw_port message))
      × (receive_udp (ip ++ answer raw_port a b message rest)
          ≡ received (server_reply raw_port message))
await-answer bufs more eth ip message rest a b skips frame header clean small =
    let others = receive_ip-answer ip message rest a b header clean small in
    (
      await_frame bufs more eth ip message rest a b skips frame header clean small,
      others.0,
      others.1,
    )
