-- ===== src/DataTransfer.antt =====
-- DataTransfer: the clients of Multicast and Broadcast, on what their calls return, and the loop
-- of both servers. A datagram is shorter than the buffer, which recvfrom sees to. Log output is
-- left out but for the datagrams.
pub mod Receipts
pub mod Programs
mod Tests
use eltex_lessons.Base.{
  ℕ, zero, suc, ◌+◌, ◌-◌, Bool, true, false, Option, none, some, List, [], ◌∷◌, leb, ltb,
  if◌then◌else◌,
}
use eltex_lessons.Text.{Bytes, codes, before}

abbrev pub receipts : ℕ
receipts = 10

-- The lines of a client: the number of a datagram, and its text.
abbrev pub Lines : Type 0
Lines = List (ℕ × Bytes)

abbrev pub add_line : ℕ × Bytes → Option Lines → Option Lines
add_line l none = none
add_line l (some ls) = some (l ∷ ls)

-- The loop of Multicast/client.c behind `received` datagrams, for what recvfrom returns: an error
-- is the empty text. `none` where it waits for a further datagram.
unfoldable pub multicast_loop : ℕ → List Bytes → Option Lines
multicast_loop received [] = if leb receipts received then some [] else none
multicast_loop received ([] ∷ rs) = some []
multicast_loop received ((c ∷ s) ∷ rs) =
    let rest = multicast_loop (received + 1) rs in
    if leb receipts received then some [] else add_line (received + 1, before 0 (c ∷ s)) rest

-- The loop of Broadcast/client.c.
unfoldable pub broadcast_loop : ℕ → List Bytes → Option Lines
broadcast_loop received [] = if leb receipts received then some [] else none
broadcast_loop received ([] ∷ rs) =
    let rest = broadcast_loop received rs in if leb receipts received then some [] else rest
broadcast_loop received ((c ∷ s) ∷ rs) =
    let rest = broadcast_loop (received + 1) rs in
    if leb receipts received then some [] else add_line (received + 1, before 0 (c ∷ s)) rest

-- A client: the descriptors that it has open, the groups that it belongs to, its lines, and the
-- exit status.
pub record Receiver : Type 0 where
  pub open_fds : ℕ
  pub groups : ℕ
  pub lines : Lines
  pub status : ℕ

abbrev pub new_receiver : Receiver
new_receiver = record { open_fds = 0; groups = 0; lines = []; status = 0 }

-- What the calls return, `false` for an error.
pub record CallResults : Type 0 where
  pub socket_ok : Bool
  pub bind_ok : Bool
  pub join_ok : Bool
  pub leave_ok : Bool
  pub received : List Bytes

abbrev pub give_up : Receiver → Receiver
give_up s = record s { open_fds = s.open_fds - 1; status = 1 }

-- The end of a client; a group that it cannot leave is reported only.
abbrev pub finish_receiver : Option Lines → Receiver → Option Receiver
finish_receiver none s = none
finish_receiver (some ls) s = some (record s { open_fds = s.open_fds - 1; lines = ls })

abbrev pub leave : Bool → Receiver → Receiver
leave ok s = if ok then record s { groups = s.groups - 1 } else s

-- Multicast/client.c from its last calls back to the first; `none` where it waits.
unfoldable pub multicast_join : Bool → CallResults → Receiver → Option Receiver
multicast_join false c s = some (give_up s)
multicast_join true c s =
    finish_receiver (multicast_loop 0 c.received)
      (leave c.leave_ok (record s { groups = s.groups + 1 }))

unfoldable pub multicast_bind : Bool → CallResults → Receiver → Option Receiver
multicast_bind false c s = some (give_up s)
multicast_bind true c s = multicast_join c.join_ok c s

unfoldable pub multicast_client : Bool → CallResults → Receiver → Option Receiver
multicast_client false c s = some (record s { status = 1 })
multicast_client true c s = multicast_bind c.bind_ok c (record s { open_fds = s.open_fds + 1 })

-- Broadcast/client.c, likewise.
unfoldable pub broadcast_bind : Bool → CallResults → Receiver → Option Receiver
broadcast_bind false c s = some (give_up s)
broadcast_bind true c s = finish_receiver (broadcast_loop 0 c.received) s

unfoldable pub broadcast_client : Bool → CallResults → Receiver → Option Receiver
broadcast_client false c s = some (record s { status = 1 })
broadcast_client true c s = broadcast_bind c.bind_ok c (record s { open_fds = s.open_fds + 1 })

abbrev pub message : Bytes
message = codes "Hi"

-- The loop of both servers, with `n` rounds left, for what the calls of sendto return: the
-- datagrams that are sent.
unfoldable pub send_loop : ℕ → List Bool → List Bytes
send_loop zero oks = []
send_loop (suc n) [] = []
send_loop (suc n) (ok ∷ oks) = let rest = send_loop n oks in if ok then message ∷ rest else rest
