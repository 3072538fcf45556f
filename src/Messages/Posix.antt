-- ===== src/Messages/Posix.antt =====
-- Messages/Posix: Server/Server.c and Client/Client.c. A step is a call of the system with what the
-- program does up to the next one, and with its clean-up where it ends; whether the call succeeds
-- comes in from outside. At first no queue has the two names. Log output is left out but for the
-- texts that were received.
pub mod Invariant
pub mod ServerSteps
pub mod ClientSteps
pub mod Exchange
mod Tests
use eltex_lessons.Base.{
  ℕ, ◌+◌, ◌-◌, ◌≡◌, Bool, true, false, ◌&&◌, Option, none, some, List, [], ◌∷◌, ◌++◌, ltb, length,
  if◌then◌else◌,
}
use eltex_lessons.Text.{Bytes, codes, before}

abbrev pub max_msg_size : ℕ
max_msg_size = 256

-- Where a program stands: before a call, or at its end with the status 0 or 1, or behind a write
-- outside of its buffer.
pub data ServerPlace : Type 0 where
  server_opens_first : ServerPlace
  server_opens_second : ServerPlace
  server_sends : ServerPlace
  server_receives : ServerPlace
  server_done : ServerPlace
  server_failed : ServerPlace
  server_undefined : ServerPlace

pub data ClientPlace : Type 0 where
  client_opens_first : ClientPlace
  client_opens_second : ClientPlace
  client_receives : ClientPlace
  client_sends : ClientPlace
  client_done : ClientPlace
  client_failed : ClientPlace
  client_undefined : ClientPlace

-- The two programs, the names of the queues, their messages, the descriptors that each program has
-- open, and the texts that were received. A queue without a name is there for who has it open.
pub record State : Type 0 where
  pub server : ServerPlace
  pub client : ClientPlace
  pub from_server_named : Bool
  pub from_client_named : Bool
  pub from_server : List Bytes
  pub from_client : List Bytes
  pub server_open : ℕ
  pub client_open : ℕ
  pub server_read : Option Bytes
  pub client_read : Option Bytes

abbrev pub start : State
start = record {
  server = server_opens_first;
  client = client_opens_first;
  from_server_named = false;
  from_client_named = false;
  from_server = [];
  from_client = [];
  server_open = 0;
  client_open = 0;
  server_read = none;
  client_read = none;
}

-- A message of `strlen(buffer) + 1` bytes.
abbrev pub hi : Bytes
hi = codes "Hi!" ++ 0 ∷ []

abbrev pub hello : Bytes
hello = codes "Hello!" ++ 0 ∷ []

-- The server closes its two queues and removes their names, at its end.
abbrev pub server_leaves : ServerPlace → State → State
server_leaves p s = record s {
  server_open = s.server_open - 2;
  from_server_named = false;
  from_client_named = false;
  server = p;
}

-- `mq_receive` into the buffer, with the NUL behind the message.
unfoldable pub server_gets : List Bytes → State → Option State
server_gets [] s = none
server_gets (m ∷ ms) s =
    if ltb (length m) max_msg_size
    then some
        (server_leaves server_done (record s { from_client = ms; server_read = some (before 0 m) }))
    else some (record s { server = server_undefined })

-- A step of the server, whose next call succeeds or fails; `none` where it waits for a message, or
-- has ended.
unfoldable pub server_at : ServerPlace → Bool → State → Option State
server_at server_opens_first true s = some (record s {
  from_server_named = true;
  server_open = s.server_open + 1;
  server = server_opens_second;
})
server_at server_opens_first false s = some (record s { server = server_failed })
server_at server_opens_second true s =
    some (record s {
      from_client_named = true;
      server_open = s.server_open + 1;
      server = server_sends;
    })
server_at server_opens_second false s = some (record s {
  server_open = s.server_open - 1;
  from_server_named = false;
  server = server_failed;
})
server_at server_sends true s =
    some (record s { from_server = s.from_server ++ hi ∷ []; server = server_receives })
server_at server_sends false s = some (server_leaves server_failed s)
server_at server_receives true s = server_gets s.from_client s
server_at server_receives false s = some (server_leaves server_failed s)
server_at server_done ok s = none
server_at server_failed ok s = none
server_at server_undefined ok s = none

unfoldable pub server_step : Bool → State → Option State
server_step ok s = server_at s.server ok s

-- The client closes its two queues, at its end.
abbrev pub client_leaves : ClientPlace → State → State
client_leaves p s = record s { client_open = s.client_open - 2; client = p }

unfoldable pub client_gets : List Bytes → State → Option State
client_gets [] s = none
client_gets (m ∷ ms) s =
    if ltb (length m) max_msg_size
    then some
        (record s { from_server = ms; client_read = some (before 0 m); client = client_sends })
    else some (record s { client = client_undefined })

-- A step of the client: mq_open finds no queue where it has no name.
unfoldable pub client_at : ClientPlace → Bool → State → Option State
client_at client_opens_first ok s =
    if ok && s.from_server_named
    then some (record s { client_open = s.client_open + 1; client = client_opens_second })
    else some (record s { client = client_failed })
client_at client_opens_second ok s =
    if ok && s.from_client_named
    then some (record s { client_open = s.client_open + 1; client = client_receives })
    else some (record s { client_open = s.client_open - 1; client = client_failed })
client_at client_receives true s = client_gets s.from_server s
client_at client_receives false s = some (client_leaves client_failed s)
client_at client_sends true s =
    some (client_leaves client_done (record s { from_client = s.from_client ++ hello ∷ [] }))
client_at client_sends false s = some (client_leaves client_failed s)
client_at client_done ok s = none
client_at client_failed ok s = none
client_at client_undefined ok s = none

unfoldable pub client_step : Bool → State → Option State
client_step ok s = client_at s.client ok s

-- The states that the two come to, in whatever order their calls are made and whichever fail.
pub data Reach : State → Type 0 where
  begin : Reach start
  by_server : {s t : State} → Reach s → (ok : Bool) → server_step ok s ≡ some t → Reach t
  by_client : {s t : State} → Reach s → (ok : Bool) → client_step ok s ≡ some t → Reach t
