-- ===== src/Messages/SystemV/Invariant.antt =====
-- Messages/Vsistem: what holds in every state of the two programs.
use eltex_lessons.Base.{◌≡◌, Bool, true, false, Option, none, some, List, [], ◌∷◌, ◌⊎◌}
use eltex_lessons.Text.{Bytes, codes}
use eltex_lessons.Messages.SystemV.{
  Message, hi, hello, ServerPlace, server_opens, server_sends, server_receives, server_removes,
  server_done, server_failed, queue_left, ClientPlace, client_opens, client_receives, client_sends,
  client_done, client_failed, no_queue, State,
}

abbrev pub server_has : ServerPlace → Option Bytes
server_has server_opens = none
server_has server_sends = none
server_has server_receives = none
server_has server_removes = some (codes "Hello!")
server_has server_done = some (codes "Hello!")
server_has server_failed = none
server_has queue_left = some (codes "Hello!")

abbrev pub ClientHas : ClientPlace → Option Bytes → Type 0
ClientHas client_opens r = r ≡ none
ClientHas client_receives r = r ≡ none
ClientHas client_sends r = r ≡ some (codes "Hi!")
ClientHas client_done r = r ≡ some (codes "Hi!")
ClientHas client_failed r = (r ≡ none) ⊎ (r ≡ some (codes "Hi!"))
ClientHas no_queue r = r ≡ none

-- The queue before the server opens it, before it sends, and behind that.
abbrev pub Absent : ClientPlace → Type 0
Absent client_opens = Unit
Absent client_receives = ⊥
Absent client_sends = ⊥
Absent client_done = ⊥
Absent client_failed = ⊥
Absent no_queue = Unit

abbrev pub Empty : ClientPlace → Bool → List Message → Type 0
Empty client_opens b ms = (b ≡ true) × (ms ≡ [])
Empty client_receives b ms = (b ≡ true) × (ms ≡ [])
Empty client_sends b ms = ⊥
Empty client_done b ms = ⊥
Empty client_failed b ms = b ≡ false
Empty no_queue b ms = (b ≡ true) × (ms ≡ [])

abbrev pub Sent : ClientPlace → Bool → List Message → Type 0
Sent client_opens b ms = (b ≡ true) × (ms ≡ hi ∷ [])
Sent client_receives b ms = (b ≡ true) × (ms ≡ hi ∷ [])
Sent client_sends b ms = (b ≡ true) × (ms ≡ [])
Sent client_done b ms = (b ≡ true) × (ms ≡ hello ∷ [])
Sent client_failed b ms = b ≡ false
Sent no_queue b ms = (b ≡ true) × (ms ≡ hi ∷ [])

abbrev pub Fits : ServerPlace → ClientPlace → Bool → List Message → Type 0
Fits server_opens c b ms = (b ≡ false) × (ms ≡ []) × Absent c
Fits server_sends c b ms = Empty c b ms
Fits server_receives c b ms = Sent c b ms
Fits server_removes c b ms = c ≡ client_done
Fits server_done c b ms = (b ≡ false) × (c ≡ client_done)
Fits server_failed c b ms = b ≡ false
Fits queue_left c b ms = c ≡ client_done

pub record Inv (s : State) : Type 0 where
  pub server_read : s.server_read ≡ server_has s.server
  pub client_read : ClientHas s.client s.client_read
  pub fits : Fits s.server s.client s.exists s.queue

abbrev pub Holds : Option State → Type 0
Holds none = Unit
Holds (some t) = Inv t
