-- ===== src/Messages/SystemV.antt =====
-- Messages/Vsistem: Server/Server.c and Client/Client.c, with one queue for both ways and a type
-- for each. A step is a call of the system with what the program does up to the next one; whether
-- the call succeeds comes in from outside, but no call on a queue that has been removed succeeds.
-- At first there is no queue. The clean-up behind a failed call removes the queue. Log output is
-- left out but for the texts that were received.
pub mod Invariant
pub mod Steps
pub mod Outcomes
mod Tests
use eltex_lessons.Base.{
  ℕ, ◌≡◌, Bool, true, false, ◌&&◌, Option, none, some, List, [], ◌∷◌, ◌++◌, ◌==◌, if◌then◌else◌,
}
use eltex_lessons.Text.{Bytes, codes, before}

-- `struct msgbuf`
pub record Message : Type 0 where
  pub mtype : ℕ
  pub mtext : Bytes

-- `strlen(msg.mtext) + 1` bytes of a text.
abbrev pub hi : Message
hi = record { mtype = 1; mtext = codes "Hi!" ++ 0 ∷ [] }

abbrev pub hello : Message
hello = record { mtype = 2; mtext = codes "Hello!" ++ 0 ∷ [] }

-- Where a program stands: before a call, at its end with success, or at its end behind a failure,
-- where the server may have failed to remove the queue, and the client to find it.
pub data ServerPlace : Type 0 where
  server_opens : ServerPlace
  server_sends : ServerPlace
  server_receives : ServerPlace
  server_removes : ServerPlace
  server_done : ServerPlace
  server_failed : ServerPlace
  queue_left : ServerPlace

pub data ClientPlace : Type 0 where
  client_opens : ClientPlace
  client_receives : ClientPlace
  client_sends : ClientPlace
  client_done : ClientPlace
  client_failed : ClientPlace
  no_queue : ClientPlace

pub record State : Type 0 where
  pub server : ServerPlace
  pub client : ClientPlace
  pub exists : Bool
  pub queue : List Message
  pub server_read : Option Bytes
  pub client_read : Option Bytes

abbrev pub start : State
start = record {
  server = server_opens;
  client = client_opens;
  exists = false;
  queue = [];
  server_read = none;
  client_read = none;
}

-- The first message of a type, and the others.
abbrev pub put_back : Message → Option (Message × List Message) → Option (Message × List Message)
put_back m none = none
put_back m (some (n, ms)) = some (n, m ∷ ms)

unfoldable pub first_of : ℕ → List Message → Option (Message × List Message)
first_of t [] = none
first_of t (m ∷ ms) =
    let rest = put_back m (first_of t ms) in if m.mtype == t then some (m, ms) else rest

abbrev pub server_fails : State → State
server_fails s = record s { exists = false; server = server_failed }

unfoldable pub server_gets : Option (Message × List Message) → State → Option State
server_gets none s = none
server_gets (some (m, ms)) s =
    some (record s { queue = ms; server_read = some (before 0 m.mtext); server = server_removes })

-- A step of the server; `none` where it waits for a message or has ended.
unfoldable pub server_at : ServerPlace → Bool → State → Option State
server_at server_opens ok s =
    if ok
    then some (record s { exists = true; server = server_sends })
    else some (record s { server = server_failed })
server_at server_sends ok s =
    if ok && s.exists
    then some (record s { queue = s.queue ++ hi ∷ []; server = server_receives })
    else some (server_fails s)
server_at server_receives ok s =
    if ok && s.exists then server_gets (first_of 2 s.queue) s else some (server_fails s)
server_at server_removes ok s =
    if ok && s.exists
    then some (record s { exists = false; server = server_done })
    else some (record s { server = queue_left })
server_at server_done ok s = none
server_at server_failed ok s = none
server_at queue_left ok s = none

unfoldable pub server_step : Bool → State → Option State
server_step ok s = server_at s.server ok s

abbrev pub client_fails : State → State
client_fails s = record s { exists = false; client = client_failed }

unfoldable pub client_gets : Option (Message × List Message) → State → Option State
client_gets none s = none
client_gets (some (m, ms)) s =
    some (record s { queue = ms; client_read = some (before 0 m.mtext); client = client_sends })

unfoldable pub client_at : ClientPlace → Bool → State → Option State
client_at client_opens ok s =
    if ok && s.exists
    then some (record s { client = client_receives })
    else some (record s { client = no_queue })
client_at client_receives ok s =
    if ok && s.exists then client_gets (first_of 1 s.queue) s else some (client_fails s)
client_at client_sends ok s =
    if ok && s.exists
    then some (record s { queue = s.queue ++ hello ∷ []; client = client_done })
    else some (client_fails s)
client_at client_done ok s = none
client_at client_failed ok s = none
client_at no_queue ok s = none

unfoldable pub client_step : Bool → State → Option State
client_step ok s = client_at s.client ok s

-- The states that the two come to, in whatever order their calls are made and whichever fail.
pub data Reach : State → Type 0 where
  begin : Reach start
  by_server : {s t : State} → Reach s → (ok : Bool) → server_step ok s ≡ some t → Reach t
  by_client : {s t : State} → Reach s → (ok : Bool) → client_step ok s ≡ some t → Reach t
