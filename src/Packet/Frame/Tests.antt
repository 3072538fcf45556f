-- ===== src/Packet/Frame/Tests.antt =====
-- The message of the clients, and a reply behind a frame of another protocol.
use eltex_lessons.Base.{◌≡◌, refl, some, [], ◌∷◌, ◌++◌, arith, replicate}
use eltex_lessons.Text.{Bytes, codes}
use eltex_lessons.Packet.Frame.{
  hello, packet_frame, packet_port, ntohs, skipped, received, receive_frame, receive_ip,
  receive_udp, raw_port, await,
}
use eltex_lessons.Packet.Frame.Build.{Framed, packet_frame_lem}
use eltex_lessons.Packet.Frame.Receive.{answer, server_reply, IsUdpHeader, IsIpFrame, await-answer}

packet_frame_lem_example : (frame : Bytes) × (packet_frame hello ≡ some frame) × Framed hello frame
packet_frame_lem_example = packet_frame_lem hello (omega arith) (omega arith)

abbrev other_frame : Bytes
other_frame = replicate 60 0

other_skipped : receive_frame other_frame ≡ skipped
unfolding receive_frame ntohs
other_skipped = refl

abbrev eth : Bytes
eth = replicate 12 1 ++ 8 ∷ 0 ∷ []

abbrev ip : Bytes
ip = 69 ∷ replicate 8 0 ++ 17 ∷ replicate 10 0

eth-IsIpFrame : IsIpFrame eth
unfolding ntohs
eth-IsIpFrame = record { size = refl; protocol = refl }

ip-IsUdpHeader : IsUdpHeader ip
ip-IsUdpHeader = record { long = omega arith; size = refl; protocol = refl }

await-answer_example :
    (await receive_frame
        (other_frame ∷ (eth ++ (ip ++ answer packet_port 1 2 (codes "Hi!") (replicate 4 7))) ∷ [])
      ≡ some (received (server_reply packet_port (codes "Hi!"))))
    × (receive_ip (ip ++ answer raw_port 1 2 (codes "Hi!") (replicate 4 7))
        ≡ received (server_reply raw_port (codes "Hi!")))
    × (receive_udp (ip ++ answer raw_port 1 2 (codes "Hi!") (replicate 4 7))
        ≡ received (server_reply raw_port (codes "Hi!")))
await-answer_example =
    await-answer (other_frame ∷ []) [] eth ip (codes "Hi!") (replicate 4 7) 1 2 (other_skipped, tt)
      eth-IsIpFrame ip-IsUdpHeader (refl, (refl, (refl, tt))) (omega arith)
