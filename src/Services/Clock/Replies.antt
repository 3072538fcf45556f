-- ===== src/Services/Clock/Replies.antt =====
-- Each request to SocketsSS/TaskFour/server.c gets one reply.
use eltex_lessons.Base.{
  ℕ, ◌+◌, ◌≡◌, refl, Bool, true, false, Option, none, some, List, [], ◌∷◌, ◌++◌, arith, is_some,
  if◌then◌else◌,
}
use eltex_lessons.Base.Int.{ℤ}
use eltex_lessons.Text.{Bytes}
use eltex_lessons.Services.Clock.{
  Effect, wrote, closed, sent_to, handle_tcp_client, handle_udp_client, Wakeup, serve_ready,
}

abbrev closes : List Effect → ℕ
closes [] = 0
closes (closed fd ∷ es) = 1 + closes es
closes (wrote fd b ∷ es) = closes es
closes (sent_to a b ∷ es) = closes es

abbrev replies : List Effect → ℕ
replies [] = 0
replies (closed fd ∷ es) = replies es
replies (wrote fd b ∷ es) = 1 + replies es
replies (sent_to a b ∷ es) = 1 + replies es

abbrev one_if : Bool → ℕ
one_if b = if b then 1 else 0

-- What a round makes of the two sockets.
abbrev Served : Option (Bool × Bool) → Wakeup → List Effect → Type 0
Served none w es = es ≡ []
Served (some (tcp, udp)) w es =
    (closes es ≡ one_if tcp)
    × (replies es
        ≡ (if tcp then one_if (is_some w.request) else 0)
          + (if udp then one_if (is_some w.datagram) else 0))

served :
    (tcp udp : Bool) (fd : ℤ) (request : Option Bytes) (d : Option ((ℕ × ℕ) × Bytes)) (t u : Bytes)
    → let es =
        (if tcp then handle_tcp_client fd request t else [])
        ++ (if udp then handle_udp_client d u else []) in
      (closes es ≡ one_if tcp)
      × (replies es
          ≡ (if tcp then one_if (is_some request) else 0) + (if udp then one_if (is_some d) else 0))
unfolding handle_tcp_client handle_udp_client
served true true fd none none t u = (omega arith, omega arith)
served true true fd none (some (a, b)) t u = (omega arith, omega arith)
served true true fd (some r) none t u = (omega arith, omega arith)
served true true fd (some r) (some (a, b)) t u = (omega arith, omega arith)
served true false fd none d t u = (omega arith, omega arith)
served true false fd (some r) d t u = (omega arith, omega arith)
served false true fd r none t u = (omega arith, omega arith)
served false true fd r (some (a, b)) t u = (omega arith, omega arith)
served false false fd r d t u = (omega arith, omega arith)

-- In a round of the server close is called once if the TCP socket was ready and not otherwise, and
-- each request that was read, over TCP or UDP, gets exactly one reply; where select failed nothing
-- happens.
serve_ready_lem : (w : Wakeup) → Served w.ready w (serve_ready w)
unfolding serve_ready
serve_ready_lem w = by_ready w.ready refl
  where
    by_ready : (o : Option (Bool × Bool)) → w.ready ≡ o → Served w.ready w (serve_ready w)
    by_ready none e = rw (e, serve_ready) refl
    by_ready (some (tcp, udp)) e =
        rw (e, serve_ready) (served tcp udp w.fd w.request w.datagram w.tcp_time w.udp_time)
