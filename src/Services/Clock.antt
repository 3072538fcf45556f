-- ===== src/Services/Clock.antt =====
-- SocketsSS/TaskFour/server.c: the time over TCP and over UDP, one round of select at a time. What
-- accept, read, recvfrom and select return comes in from outside, as does the text of the time.
-- Log output and the set-up of sockets are left out.
pub mod Replies
use eltex_lessons.Base.{ℕ, Bool, Option, none, some, List, [], ◌∷◌, ◌++◌, if◌then◌else◌}
use eltex_lessons.Base.Int.{ℤ}
use eltex_lessons.Text.{Bytes, codes, before, same_text}

-- Bytes over a connection, the end of one, and a datagram to an address (IP and port).
pub data Effect : Type 0 where
  wrote : ℤ → Bytes → Effect
  closed : ℤ → Effect
  sent_to : ℕ × ℕ → Bytes → Effect

-- The test of a request that was read: its text up to the first newline.
unfoldable pub asks_time : Bytes → Bool
asks_time request = same_text (before 10 (before 0 request)) (codes "TIME")

abbrev pub tcp_error : Bytes
tcp_error = codes "ERROR: TIME" ++ 10 ∷ []

abbrev pub udp_error : Bytes
udp_error = codes "ERROR: Unknown command. Use TIME" ++ 10 ∷ []

-- The descriptor is what accept returned, -1 included; `none` where read returned zero or less.
unfoldable pub handle_tcp_client : ℤ → Option Bytes → Bytes → List Effect
handle_tcp_client fd none time = closed fd ∷ []
handle_tcp_client fd (some request) time =
    wrote fd (if asks_time request then time else tcp_error) ∷ closed fd ∷ []

-- `none` where recvfrom failed.
unfoldable pub handle_udp_client : Option ((ℕ × ℕ) × Bytes) → Bytes → List Effect
handle_udp_client none time = []
handle_udp_client (some (from, request)) time =
    sent_to from (if asks_time request then time else udp_error) ∷ []

-- What a round meets: which sockets are ready (`none` where select failed), and what the calls
-- of the handlers return.
pub record Wakeup : Type 0 where
  pub ready : Option (Bool × Bool)
  pub fd : ℤ
  pub request : Option Bytes
  pub datagram : Option ((ℕ × ℕ) × Bytes)
  pub tcp_time : Bytes
  pub udp_time : Bytes

-- A round of the loop of `main`.
unfoldable pub serve_ready : Wakeup → List Effect
serve_ready w = elim w.ready [
  | none ↦ []
  | some (tcp, udp) ↦
      (if tcp then handle_tcp_client w.fd w.request w.tcp_time else [])
      ++ (if udp then handle_udp_client w.datagram w.udp_time else [])
]
