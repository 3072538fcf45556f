-- ===== src/DataTransfer/Programs.antt =====
-- DataTransfer: whole clients, whatever their calls return, and with their servers.
use eltex_lessons.Base.{
  ℕ, ◌≡◌, refl, ◌∙◌, ap, Bool, true, false, ◌&&◌, Option, none, some, List, [], length,
  if◌then◌else◌, replicate,
}
use eltex_lessons.DataTransfer.{
  receipts, Lines, multicast_loop, broadcast_loop, Receiver, new_receiver, CallResults,
  finish_receiver, leave, multicast_join, multicast_bind, multicast_client, broadcast_bind,
  broadcast_client, message, send_loop,
}
use eltex_lessons.DataTransfer.Receipts.{numbered_lines, all_sent, served_lem}

-- What a client that has got as far as its loop is left with, where it belongs to `groups` groups.
abbrev pub ended_with : ℕ → Option Lines → Option Receiver
ended_with groups none = none
ended_with groups (some ls) =
    some (record { open_fds = 0; groups = groups; lines = ls; status = 0 })

abbrev pub failed_receiver : Receiver
failed_receiver = record { open_fds = 0; groups = 0; lines = []; status = 1 }

finished :
    (r : Option Lines) (g : ℕ)
    → finish_receiver r (record { open_fds = 1; groups = g; lines = []; status = 0 })
      ≡ ended_with g r
finished none g = refl
finished (some ls) g = refl

left :
    (r : Option Lines) (b : Bool)
    → finish_receiver r (leave b (record { open_fds = 1; groups = 1; lines = []; status = 0 }))
      ≡ ended_with (if b then 0 else 1) r
left r true = finished r 0
left r false = finished r 1

multicast_client_ends :
    (so bi jo : Bool) (c : CallResults)
    → c.bind_ok ≡ bi
    → c.join_ok ≡ jo
    → multicast_client so c new_receiver ≡ (
        if so && (bi && jo)
        then ended_with (if c.leave_ok then 0 else 1) (multicast_loop 0 c.received)
        else some failed_receiver)
unfolding multicast_client multicast_bind multicast_join
multicast_client_ends false bi jo c b j = refl
multicast_client_ends true false jo c b j = rw b refl
multicast_client_ends true true false c b j = rw b (rw j refl)
multicast_client_ends true true true c b j =
    rw b (rw j (left (multicast_loop 0 c.received) c.leave_ok))

broadcast_client_ends :
    (so bi : Bool) (c : CallResults)
    → c.bind_ok ≡ bi
    → broadcast_client so c new_receiver
      ≡ (if so && bi then ended_with 0 (broadcast_loop 0 c.received) else some failed_receiver)
unfolding broadcast_client broadcast_bind
broadcast_client_ends false bi c b = refl
broadcast_client_ends true false c b = rw b refl
broadcast_client_ends true true c b = rw b (finished (broadcast_loop 0 c.received) 0)

-- The lines for what a server sends.
abbrev pub all_lines : List Bool → Option Lines
all_lines oks =
    if all_sent oks then some (numbered_lines 0 receipts (replicate receipts message)) else none

-- A client that hears what its server sends, and nothing else and no error, where `oks` are the
-- results of the ten calls of sendto: if a call of its set-up fails, it ends with the status 1 and
-- without a line; otherwise it shows ten messages and ends with the status 0 if all ten calls have
-- succeeded, and waits for ever if one has failed. Whenever it ends it has closed its socket, and
-- belongs to no group unless it could not leave it.
pub clients_lem :
    (oks : List Bool) (c : CallResults)
    → length oks ≡ receipts
    → c.received ≡ send_loop receipts oks
    → (multicast_client c.socket_ok c new_receiver ≡ (
        if c.socket_ok && (c.bind_ok && c.join_ok)
        then ended_with (if c.leave_ok then 0 else 1) (all_lines oks)
        else some failed_receiver))
      × (broadcast_client c.socket_ok c new_receiver ≡ (
          if c.socket_ok && c.bind_ok then ended_with 0 (all_lines oks) else some failed_receiver))
clients_lem oks c size e =
    let (b, m) = served_lem oks size in
    (
      multicast_client_ends c.socket_ok c.bind_ok c.join_ok c refl refl
          ∙ ap
              (λ r.
                if c.socket_ok && (c.bind_ok && c.join_ok)
                then ended_with (if c.leave_ok then 0 else 1) r
                else some failed_receiver)
              (ap (multicast_loop 0) e ∙ m),
      broadcast_client_ends c.socket_ok c.bind_ok c refl
          ∙ ap (λ r. if c.socket_ok && c.bind_ok then ended_with 0 r else some failed_receiver)
              (ap (broadcast_loop 0) e ∙ b),
    )
