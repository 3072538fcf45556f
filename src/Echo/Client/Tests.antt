-- ===== src/Echo/Client/Tests.antt =====
-- A new client of a server with one other client.
use eltex_lessons.Base.{◌≡◌, refl, some, [], ◌∷◌, arith}
use eltex_lessons.Text.{codes, same_text}
use eltex_lessons.Echo.Server.{History, numbered}
use eltex_lessons.Echo.Server.History.{next_number, IsHistory}
use eltex_lessons.Echo.Client.{exited, chat, server_net}
use eltex_lessons.Echo.Client.Session.{IsMessage, next_message, typed, Visited, chat_lem}

abbrev one_client : History
one_client = record { port = 2; ip_addr = 5; number = 8 } ∷ []

one_client-IsHistory : IsHistory one_client
unfolding next_number
one_client-IsHistory = record { fits = omega arith; unique = (refl, tt) }

greeting-IsMessage : IsMessage (codes "hi")
unfolding same_text
greeting-IsMessage = record {
  filled = λ e. cc;
  no_nul = (refl, (refl, tt));
  no_newline = (refl, (refl, tt));
  no_exit = refl;
  no_shutdown = refl;
}

first_number : next_message 5 1 one_client ≡ some 1
unfolding next_number
first_number = refl

chat_lem_example :
    (h' : History) × (chat
        (server_net 5 1)
        (typed (codes "hi") ∷ typed (codes "hi") ∷ typed (codes "exit") ∷ [])
        one_client
      ≡ (h', numbered (codes "hi") 1 ∷ numbered (codes "hi") 2 ∷ [], exited))
    × Visited 5 1 one_client h'
chat_lem_example =
    chat_lem (codes "hi" ∷ codes "hi" ∷ []) 5 1 1 one_client one_client-IsHistory first_number
      (greeting-IsMessage, (greeting-IsMessage, tt))
