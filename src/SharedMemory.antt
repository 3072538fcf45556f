-- ===== src/SharedMemory.antt =====
-- SharedMemory/Vsistem and SharedMemory/Posix: a server and a client that take turns at a shared
-- memory with two semaphores (Server/server.c and Client/client.c), from where the server has set
-- the semaphores to zero and both are attached. The servers make the same steps: `server_step` is
-- that of SharedMemory/Vsistem, and snprintf, sem_post, sem_wait and the unlinking stand in the
-- other one for strcpy, the calls of semop and the removal. The calls on semaphores do not fail
-- while the semaphores are there. Sleeping and log output are left out, but for the texts that the
-- two read.
pub mod Phases
pub mod Handshake
mod Tests
use eltex_lessons.Base.{
  ℕ, ◌+◌, ◌-◌, ◌≡◌, Bool, true, false, Option, none, some, List, [], ◌∷◌, ◌++◌, ◌==◌, length, drop,
  if◌then◌else◌,
}
use eltex_lessons.Text.{Bytes, codes, before}

-- Where the server stands: the statements from its `strcpy` on.
pub data ServerPlace : Type 0 where
  server_writes : ServerPlace
  server_signals : ServerPlace
  server_waits : ServerPlace
  server_reads : ServerPlace
  server_removes : ServerPlace
  server_ended : ServerPlace

-- Where the client stands, from its `sem_wait` on; `client_failed` is its exit after a failed
-- semop.
pub data ClientPlace : Type 0 where
  client_waits : ClientPlace
  client_reads : ClientPlace
  client_writes : ClientPlace
  client_signals : ClientPlace
  client_detaches : ClientPlace
  client_ended : ClientPlace
  client_failed : ClientPlace

-- The semaphores are there until the server removes them.
pub record State : Type 0 where
  pub server : ServerPlace
  pub client : ClientPlace
  pub memory : Bytes
  pub sem0 : ℕ
  pub sem1 : ℕ
  pub removed : Bool
  pub server_read : Option Bytes
  pub client_read : Option Bytes

-- At the start the memory holds anything.
abbrev pub start : Bytes → State
start m = record {
  server = server_writes;
  client = client_waits;
  memory = m;
  sem0 = 0;
  sem1 = 0;
  removed = false;
  server_read = none;
  client_read = none;
}

-- `strcpy`, with the closing NUL; the bytes behind stay.
abbrev pub strcpy : Bytes → Bytes → Bytes
strcpy m text = text ++ 0 ∷ drop (length text + 1) m

-- A statement of the server; `none` where it waits or has ended.
unfoldable pub server_step : State → Option State
server_step s = elim s.server [
  | server_writes ↦
      some (record s { memory = strcpy s.memory (codes "Hi!"); server = server_signals })
  | server_signals ↦ some (record s { sem0 = s.sem0 + 1; server = server_waits })
  | server_waits ↦
      if s.sem1 == 0 then none else some (record s { sem1 = s.sem1 - 1; server = server_reads })
  | server_reads ↦
      some (record s { server_read = some (before 0 s.memory); server = server_removes })
  | server_removes ↦ some (record s { removed = true; server = server_ended })
  | server_ended ↦ none
]

-- A statement of the client.
unfoldable pub client_step : State → Option State
client_step s = elim s.client [
  | client_waits ↦
      if s.removed
      then some (record s { client = client_failed })
      else if s.sem0 == 0
      then none
      else some (record s { sem0 = s.sem0 - 1; client = client_reads })
  | client_reads ↦
      some (record s { client_read = some (before 0 s.memory); client = client_writes })
  | client_writes ↦
      some (record s { memory = strcpy s.memory (codes "Hello!"); client = client_signals })
  | client_signals ↦
      if s.removed
      then some (record s { client = client_failed })
      else some (record s { sem1 = s.sem1 + 1; client = client_detaches })
  | client_detaches ↦ some (record s { client = client_ended })
  | client_ended ↦ none
  | client_failed ↦ none
]

-- A statement of SharedMemory/Posix/Client/client.c: a semaphore without a name is there for who
-- has it open.
unfoldable pub posix_client_step : State → Option State
posix_client_step s = elim s.client [
  | client_waits ↦
      if s.sem0 == 0 then none else some (record s { sem0 = s.sem0 - 1; client = client_reads })
  | client_reads ↦
      some (record s { client_read = some (before 0 s.memory); client = client_writes })
  | client_writes ↦
      some (record s { memory = strcpy s.memory (codes "Hello!"); client = client_signals })
  | client_signals ↦ some (record s { sem1 = s.sem1 + 1; client = client_detaches })
  | client_detaches ↦ some (record s { client = client_ended })
  | client_ended ↦ none
  | client_failed ↦ none
]

-- The two pairs of programs.
pub data Kind : Type 0 where
  system_v : Kind
  posix : Kind

abbrev pub client_step_of : Kind → State → Option State
client_step_of system_v s = client_step s
client_step_of posix s = posix_client_step s

-- The states that a pair of programs comes to, in whatever order they are scheduled, with the
-- number of statements that have been run.
pub data Reach (k : Kind) (m : Bytes) : ℕ → State → Type 0 where
  begin : Reach k m 0 (start m)
  by_server : {n : ℕ} {s t : State} → Reach k m n s → server_step s ≡ some t → Reach k m (n + 1) t
  by_client :
      {n : ℕ} {s t : State} → Reach k m n s → client_step_of k s ≡ some t → Reach k m (n + 1) t
