-- ===== src/Messages/Posix/Invariant.antt =====
-- Messages/Posix: what holds in every state of the two programs.
use eltex_lessons.Base.{
  ℕ, ◌≡◌, refl, ap, Bool, true, false, Option, none, some, List, [], ◌∷◌, ◌++◌, ◌⊎◌, inl, inr,
}
use eltex_lessons.Text.{Bytes, codes}
use eltex_lessons.Messages.Posix.{
  ServerPlace, server_opens_first, server_opens_second, server_sends, server_receives, server_done,
  server_failed, server_undefined, ClientPlace, client_opens_first, client_opens_second,
  client_receives, client_sends, client_done, client_failed, client_undefined, State, hi, hello,
}

-- The queues that a program has open at a place, and the names that are there.
abbrev pub server_held : ServerPlace → ℕ
server_held server_opens_first = 0
server_held server_opens_second = 1
server_held server_sends = 2
server_held server_receives = 2
server_held server_done = 0
server_held server_failed = 0
server_held server_undefined = 2

abbrev pub client_held : ClientPlace → ℕ
client_held client_opens_first = 0
client_held client_opens_second = 1
client_held client_receives = 2
client_held client_sends = 2
client_held client_done = 0
client_held client_failed = 0
client_held client_undefined = 2

abbrev pub first_named : ServerPlace → Bool
first_named server_opens_first = false
first_named server_opens_second = true
first_named server_sends = true
first_named server_receives = true
first_named server_done = false
first_named server_failed = false
first_named server_undefined = true

abbrev pub second_named : ServerPlace → Bool
second_named server_opens_first = false
second_named server_opens_second = false
second_named server_sends = true
second_named server_receives = true
second_named server_done = false
second_named server_failed = false
second_named server_undefined = true

abbrev pub server_has : ServerPlace → Option Bytes
server_has server_opens_first = none
server_has server_opens_second = none
server_has server_sends = none
server_has server_receives = none
server_has server_done = some (codes "Hello!")
server_has server_failed = none
server_has server_undefined = none

abbrev pub ClientHas : ClientPlace → Option Bytes → Type 0
ClientHas client_opens_first r = r ≡ none
ClientHas client_opens_second r = r ≡ none
ClientHas client_receives r = r ≡ none
ClientHas client_sends r = r ≡ some (codes "Hi!")
ClientHas client_done r = r ≡ some (codes "Hi!")
ClientHas client_failed r = (r ≡ none) ⊎ (r ≡ some (codes "Hi!"))
ClientHas client_undefined r = ⊥

-- What the queues hold before the server sends, behind that, and where the server has failed.
abbrev pub Early : ClientPlace → Type 0
Early client_opens_first = Unit
Early client_opens_second = Unit
Early client_receives = Unit
Early client_sends = ⊥
Early client_done = ⊥
Early client_failed = Unit
Early client_undefined = ⊥

abbrev pub Sent : ClientPlace → List Bytes → List Bytes → Type 0
Sent client_opens_first a b = (a ≡ hi ∷ []) × (b ≡ [])
Sent client_opens_second a b = (a ≡ hi ∷ []) × (b ≡ [])
Sent client_receives a b = (a ≡ hi ∷ []) × (b ≡ [])
Sent client_sends a b = b ≡ []
Sent client_done a b = b ≡ hello ∷ []
Sent client_failed a b = b ≡ []
Sent client_undefined a b = ⊥

abbrev pub Left : ClientPlace → List Bytes → Type 0
Left client_opens_first a = (a ≡ []) ⊎ (a ≡ hi ∷ [])
Left client_opens_second a = (a ≡ []) ⊎ (a ≡ hi ∷ [])
Left client_receives a = (a ≡ []) ⊎ (a ≡ hi ∷ [])
Left client_sends a = Unit
Left client_done a = Unit
Left client_failed a = Unit
Left client_undefined a = ⊥

abbrev pub Fits : ServerPlace → ClientPlace → List Bytes → List Bytes → Type 0
Fits server_opens_first c a b = (a ≡ []) × (b ≡ []) × Early c
Fits server_opens_second c a b = (a ≡ []) × (b ≡ []) × Early c
Fits server_sends c a b = (a ≡ []) × (b ≡ []) × Early c
Fits server_receives c a b = Sent c a b
Fits server_done c a b = c ≡ client_done
Fits server_failed c a b = Left c a
Fits server_undefined c a b = ⊥

pub record Inv (s : State) : Type 0 where
  pub server_open : s.server_open ≡ server_held s.server
  pub client_open : s.client_open ≡ client_held s.client
  pub first_name : s.from_server_named ≡ first_named s.server
  pub second_name : s.from_client_named ≡ second_named s.server
  pub server_read : s.server_read ≡ server_has s.server
  pub client_read : ClientHas s.client s.client_read
  pub fits : Fits s.server s.client s.from_server s.from_client

abbrev pub Holds : Option State → Type 0
Holds none = Unit
Holds (some t) = Inv t

-- A queue before the message is sent, and behind that.
pub unsent-Sent :
    (c : ClientPlace) (a b : List Bytes) → a ≡ [] → b ≡ [] → Early c → Sent c (a ++ hi ∷ []) b
unsent-Sent client_opens_first a b e f h = (ap (λ x. x ++ hi ∷ []) e, f)
unsent-Sent client_opens_second a b e f h = (ap (λ x. x ++ hi ∷ []) e, f)
unsent-Sent client_receives a b e f h = (ap (λ x. x ++ hi ∷ []) e, f)
unsent-Sent client_failed a b e f h = f
unsent-Sent client_sends a b e f h = absurd h
unsent-Sent client_done a b e f h = absurd h
unsent-Sent client_undefined a b e f h = absurd h

pub unsent-Left : (c : ClientPlace) (a : List Bytes) → a ≡ [] → Early c → Left c a
unsent-Left client_opens_first a e h = inl e
unsent-Left client_opens_second a e h = inl e
unsent-Left client_receives a e h = inl e
unsent-Left client_failed a e h = tt
unsent-Left client_sends a e h = absurd h
unsent-Left client_done a e h = absurd h
unsent-Left client_undefined a e h = absurd h

pub waiting-Left : (c : ClientPlace) (a b : List Bytes) → Sent c a b → Left c a
waiting-Left client_opens_first a b h = inr h.0
waiting-Left client_opens_second a b h = inr h.0
waiting-Left client_receives a b h = inr h.0
waiting-Left client_sends a b h = tt
waiting-Left client_done a b h = tt
waiting-Left client_failed a b h = tt
waiting-Left client_undefined a b h = absurd h

-- A message to the server comes from a client that is done.
pub only_done :
    (c : ClientPlace) (a : List Bytes) (m : Bytes) (ms : List Bytes)
    → Sent c a (m ∷ ms)
    → (c ≡ client_done) × (m ≡ hello)
only_done client_opens_first a m ms h = absurd cc
only_done client_opens_second a m ms h = absurd cc
only_done client_receives a m ms h = absurd cc
only_done client_sends a m ms h = absurd cc
only_done client_done a m ms h = (refl, cc)
only_done client_failed a m ms h = absurd cc
only_done client_undefined a m ms h = absurd h
