-- ===== src/Messages/Posix/Tests.antt =====
-- A run of the two programs in which no call fails.
use eltex_lessons.Base.{refl, some, true}
use eltex_lessons.Text.{codes, before}
use eltex_lessons.Messages.Posix.{
  State, start, server_done, client_done, server_step, server_at, server_gets, client_step,
  client_at, client_gets, Reach, begin, by_server, by_client,
}
use eltex_lessons.Messages.Posix.Exchange.{IsExchange, Reach-IsExchange}

abbrev exchanged : State
exchanged = record start {
  server = server_done;
  client = client_done;
  server_read = some (codes "Hello!");
  client_read = some (codes "Hi!");
}

exchanged-Reach : Reach exchanged
unfolding server_step server_at server_gets client_step client_at client_gets before
exchanged-Reach =
    let sent = by_server (by_server (by_server begin true refl) true refl) true refl in
    let answered =
      by_client (by_client (by_client (by_client sent true refl) true refl) true refl) true refl in
    by_server answered true refl

Reach-IsExchange_example : IsExchange exchanged
Reach-IsExchange_example = Reach-IsExchange exchanged exchanged-Reach
