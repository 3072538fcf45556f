-- ===== src/LocalSockets/Tests.antt =====
-- A server whose client hangs up before it asks, with an old socket file at the path.
use eltex_lessons.Base.{true, some, [], ◌∷◌}
use eltex_lessons.LocalSockets.{World, Calls}

abbrev world : World
world = record { open_fds = 0 ∷ 1 ∷ 2 ∷ []; file = true; messages_sent = []; printed = [] }

abbrev calls : Calls
calls = record {
  socket = some 3;
  bind_ok = true;
  listen_ok = true;
  connect_ok = true;
  accept = some 4;
  read = some [];
  write_ok = true;
}
