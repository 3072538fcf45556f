-- ===== src/Echo/Server/Tests.antt =====
-- The echo server at concrete inputs: two clients on one host.
use eltex_lessons.Base.{◌≡◌, refl, some, List, [], ◌∷◌, arith}
use eltex_lessons.Text.{codes, before, same_text}
use eltex_lessons.Echo.Server.{History, Datagram, datagram, handle, serve, client_shutdown}
use eltex_lessons.Echo.Server.History.{next_number, IsHistory}
use eltex_lessons.Echo.Server.Numbers.{Handled, handle_lem, Stays, serve_number}

abbrev two_clients : History
two_clients =
    record { port = 1; ip_addr = 5; number = 3 } ∷ record { port = 2; ip_addr = 5; number = 8 } ∷ []

two_clients-IsHistory : IsHistory two_clients
unfolding next_number
two_clients-IsHistory = record { fits = omega arith; unique = (refl, (refl, tt)) }

-- The second client signs off between two messages of the first.
abbrev traffic : List Datagram
traffic =
    datagram 5 1 (codes "a")
    ∷ datagram 5 2 client_shutdown
    ∷ datagram 5 3 (codes "new")
    ∷ datagram 5 1 (codes "b")
    ∷ []

traffic-Stays : Stays 5 1 traffic
unfolding before same_text
traffic-Stays = ground arith

known_first : next_number 5 1 two_clients ≡ some 3
unfolding next_number
known_first = refl

handle_lem_example :
    Handled
      (datagram 5 3 (codes "hello"))
      two_clients
      (handle (datagram 5 3 (codes "hello")) two_clients)
handle_lem_example = handle_lem (datagram 5 3 (codes "hello")) two_clients two_clients-IsHistory

serve_number_example : next_number 5 1 (serve traffic two_clients).0 ≡ some 5
serve_number_example =
    serve_number traffic 5 1 3 two_clients two_clients-IsHistory traffic-Stays known_first
