-- ===== src/SharedMemory/Tests.antt =====
-- The server has written and the client has not yet been woken.
use eltex_lessons.Base.{refl}
use eltex_lessons.Text.{Bytes, codes}
use eltex_lessons.SharedMemory.{
  State, system_v, server_step, Reach, begin, by_server, start, strcpy, server_waits,
}
use eltex_lessons.SharedMemory.Handshake.{IsFair, Reach-IsFair}

abbrev memory : Bytes
memory = codes "old text"

abbrev signalled : State
signalled = record (start memory) {
  memory = strcpy memory (codes "Hi!");
  sem0 = 1;
  server = server_waits;
}

signalled-Reach : Reach system_v memory 2 signalled
unfolding server_step
signalled-Reach = by_server (by_server begin refl) refl

Reach-IsFair_example : IsFair system_v 2 signalled
Reach-IsFair_example = Reach-IsFair system_v memory 2 signalled signalled-Reach
