-- ===== src/Services/Visitor.antt =====
-- The clients of SocketsSS: client1.c of TaskOne, TaskTwo and TaskThree (client2.c and client3.c
-- are copies of them), and tcp_client.c and udp_client.c of TaskFour. Connections are arguments:
-- what the main server sends, a connection by address, and what a service answers to a request.
-- Log output and the set-up of sockets are left out.
pub mod Told
pub mod Agreement
pub mod Times
mod Tests
use eltex_lessons.Base.{
  ℕ, ◌+◌, Bool, true, false, Option, none, some, List, [], ◌∷◌, ◌++◌, ◌&&◌, leb, length, drop,
  if◌then◌else◌,
}
use eltex_lessons.Base.Int.{ℤ}
use eltex_lessons.Text.{Bytes, codes, before, starts_with}
use eltex_lessons.Text.Decimal.{scan_int}

-- The size of the field `ip`.
abbrev pub ip_size : ℕ
ip_size = 16

-- `sscanf(buffer, "%[^:]:%d", ip, &port)`; `none` where a variable stays unset, or the text does
-- not fit into `ip`. No client tests for this.
unfoldable pub scan_endpoint : Bytes → Option (Bytes × ℤ)
scan_endpoint s =
    let ip = before b':' s in
    if leb 1 (length ip) && leb (length ip + 1) ip_size
    then elim (scan_int (drop (length ip + 1) s)) [
      | none ↦ none
      | some (port, rest) ↦ some (ip, port)
    ]
    else none

-- How a client ends: a call of connect fails, the main server has refused it, or it shows what it
-- was told.
pub data Outcome : Type 0 where
  failed : Outcome
  refused : Bytes → Outcome
  told : Bytes → Outcome

-- What a service answers to a request.
abbrev pub Service : Type 0
Service = Bytes → Bytes

-- What connect makes of an address and a port.
abbrev pub Connect : Type 0
Connect = Bytes → ℤ → Option Service

-- A request over a connection, and what is shown: the answer up to a NUL.
abbrev pub ask : Bytes → Option Service → Outcome
ask request none = failed
ask request (some service) = told (before 0 (service request))

-- The second half of the clients of TaskOne and TaskTwo; `none` where `ip` or `port` is used unset.
unfoldable pub call_service : Connect → Bytes → Option Outcome
call_service connect text = elim (scan_endpoint text) [
  | none ↦ none
  | some (ip, port) ↦ some (ask (codes "TIME") (connect ip port))
]

-- TaskOne/client1.c, for what the main server sends.
unfoldable pub one_client : Option Bytes → Connect → Option Outcome
one_client none connect = some failed
one_client (some reply) connect = call_service connect (before 0 reply)

-- TaskTwo/client1.c
unfoldable pub two_client : Option Bytes → Connect → Option Outcome
two_client none connect = some failed
two_client (some reply) connect =
    let text = before 0 reply in
    if starts_with (codes "ERROR") text then some (refused text) else call_service connect text

-- TaskThree/client1.c
abbrev pub three_client : Option Service → Outcome
three_client service = ask (codes "TIME" ++ 10 ∷ []) service

-- tcp_client.c and udp_client.c of TaskFour: nothing is shown where the read fails or is empty.
pub data Answer : Type 0 where
  no_server : Answer
  read_error : Answer
  answered : Bytes → Answer

unfoldable pub read_answer : Option Bytes → Answer
read_answer none = read_error
read_answer (some []) = read_error
read_answer (some (c ∷ s)) = answered (before 0 (c ∷ s))

unfoldable pub four_tcp_client : Option (Bytes → Option Bytes) → Answer
four_tcp_client none = no_server
four_tcp_client (some service) = read_answer (service (codes "TIME"))

unfoldable pub four_udp_client : (Bytes → Option Bytes) → Answer
four_udp_client service = read_answer (service (codes "TIME"))
