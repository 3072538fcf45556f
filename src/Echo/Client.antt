-- ===== src/Echo/Client.antt =====
-- SocketsEcho/client1.c. The network is an argument of the loop: it takes the datagram that sendto
-- sends and says what recvfrom then returns. Log output is left out, except the responses.
pub mod Session
mod Tests
use eltex_lessons.Base.{
  Bool, true, false, Option, none, some, List, [], ◌∷◌, ◌++◌, if◌then◌else◌, ℕ,
}
use eltex_lessons.Text.{Bytes, codes, before, same_text}
use eltex_lessons.Echo.Server.{
  History, Datagram, datagram, client_shutdown, server_shutdown, handle,
}

-- The network after a datagram, and what recvfrom returns: nothing, since it waits for ever; a
-- failure; or bytes.
pub data Received : Type 0 where
  waits : Received
  failed : Received
  bytes : Bytes → Received

abbrev pub Network : Type 0 → Type 0
Network S = Bytes → S → S × Received

-- How the program ends: at the end of its loop, in the signal handler, or waiting.
pub data End : Type 0 where
  stopped : End
  exited : End
  waiting : End

-- What a round of the loop comes to: a further round, with the response shown or none, or an end.
pub data Turn : Type 0 where
  again : List Bytes → Turn
  over : End → Turn

abbrev is_blank : Bytes → Bool
is_blank [] = true
is_blank (c ∷ s) = false

-- What the handler sends before it exits.
abbrev pub signal_handler : {S : Type 0} → Network S → S → S
signal_handler net s = (net client_shutdown s).0

-- The end of a round, for what recvfrom returned.
unfoldable pub receive : Received → Turn
receive waits = over waiting
receive failed = again []
receive (bytes reply) =
    if same_text (before 0 reply) server_shutdown then over stopped else again (before 0 reply ∷ [])

-- A round, for the line that fgets read, up to its NUL.
unfoldable pub send_line : {S : Type 0} → Network S → Bytes → S → S × Turn
send_line net line s =
    let text = before 10 line in
    if is_blank text
    then (s, again [])
    else if same_text text (codes "exit")
    then (signal_handler net s, over exited)
    else let (s', got) = net text s in (s', receive got)

-- The loop of `main`, for the lines that are typed before the end of the input: the network, the
-- responses that are shown, and the end.
unfoldable pub chat : {S : Type 0} → Network S → List Bytes → S → S × List Bytes × End
chat net [] s = (s, [], stopped)
chat net (line ∷ lines) s =
    let (s', turn) = send_line net line s in
    elim turn [
      | over end ↦ (s', [], end)
      | again shown ↦ let (s'', more, end) = chat net lines s' in (s'', shown ++ more, end)
    ]

-- The first datagram that the server sends back; the client has no other to wait for.
unfoldable pub first_reply : List Datagram → Received
first_reply [] = waits
first_reply (d ∷ ds) = bytes d.text

-- The network of a client at an address and of the server alone.
abbrev pub server_net : ℕ → ℕ → Network History
server_net ip port text h =
    let (h', out) = handle (datagram ip port text) h in (h', first_reply out)
