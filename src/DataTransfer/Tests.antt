-- ===== src/DataTransfer/Tests.antt =====
-- Two clients whose server fails to send a message.
use eltex_lessons.Base.{◌≡◌, refl, Bool, true, false, none, List, [], ◌∷◌}
use eltex_lessons.DataTransfer.{
  receipts, CallResults, new_receiver, multicast_client, broadcast_client, send_loop,
}
use eltex_lessons.DataTransfer.Programs.{clients_lem}

abbrev oks : List Bool
oks = true ∷ true ∷ true ∷ true ∷ false ∷ true ∷ true ∷ true ∷ true ∷ true ∷ []

abbrev calls : CallResults
calls = record {
  socket_ok = true;
  bind_ok = true;
  join_ok = true;
  leave_ok = true;
  received = send_loop receipts oks;
}

clients_lem_example :
    (multicast_client true calls new_receiver ≡ none)
    × (broadcast_client true calls new_receiver ≡ none)
clients_lem_example = clients_lem oks calls refl refl
