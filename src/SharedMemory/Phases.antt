-- ===== src/SharedMemory/Phases.antt =====
-- The fourteen joint places that the server and the client come to, with the state at each.
use eltex_lessons.Base.{ℕ, ◌≡◌, refl, Bool, true, false, Option, none, some}
use eltex_lessons.Text.{Bytes, codes, before}
use eltex_lessons.SharedMemory.{
  ServerPlace, server_writes, server_signals, server_waits, server_reads, server_removes,
  server_ended, ClientPlace, client_waits, client_reads, client_writes, client_signals,
  client_detaches, client_ended, State, strcpy, server_step, client_step, posix_client_step, Kind,
  system_v, posix, client_step_of,
}

-- The joint places that the two can be at.
pub data Phase : Type 0 where
  both_start : Phase
  hi_written : Phase
  hi_signalled : Phase
  client_woken : Phase
  hi_read : Phase
  hello_written : Phase
  hello_signalled : Phase
  client_gone : Phase
  server_woken : Phase
  server_woken_alone : Phase
  hello_read : Phase
  hello_read_alone : Phase
  server_gone : Phase
  both_gone : Phase

-- The statements that have been run.
abbrev pub rank : Phase → ℕ
rank both_start = 0
rank hi_written = 1
rank hi_signalled = 2
rank client_woken = 3
rank hi_read = 4
rank hello_written = 5
rank hello_signalled = 6
rank client_gone = 7
rank server_woken = 7
rank server_woken_alone = 8
rank hello_read = 8
rank hello_read_alone = 9
rank server_gone = 9
rank both_gone = 10

abbrev pub after_hi : Bytes → Bytes
after_hi m = strcpy m (codes "Hi!")

abbrev pub after_hello : Bytes → Bytes
after_hello m = strcpy (after_hi m) (codes "Hello!")

abbrev pub state :
    ServerPlace → ClientPlace → Bytes → ℕ → ℕ → Bool → Option Bytes → Option Bytes → State
state s c m a b r x y = record {
  server = s;
  client = c;
  memory = m;
  sem0 = a;
  sem1 = b;
  removed = r;
  server_read = x;
  client_read = y;
}

abbrev pub state_of : Bytes → Phase → State
state_of m both_start = state server_writes client_waits m 0 0 false none none
state_of m hi_written = state server_signals client_waits (after_hi m) 0 0 false none none
state_of m hi_signalled = state server_waits client_waits (after_hi m) 1 0 false none none
state_of m client_woken = state server_waits client_reads (after_hi m) 0 0 false none none
state_of m hi_read =
    state server_waits client_writes (after_hi m) 0 0 false none (some (codes "Hi!"))
state_of m hello_written =
    state server_waits client_signals (after_hello m) 0 0 false none (some (codes "Hi!"))
state_of m hello_signalled =
    state server_waits client_detaches (after_hello m) 0 1 false none (some (codes "Hi!"))
state_of m client_gone =
    state server_waits client_ended (after_hello m) 0 1 false none (some (codes "Hi!"))
state_of m server_woken =
    state server_reads client_detaches (after_hello m) 0 0 false none (some (codes "Hi!"))
state_of m server_woken_alone =
    state server_reads client_ended (after_hello m) 0 0 false none (some (codes "Hi!"))
state_of m hello_read =
    state server_removes client_detaches (after_hello m) 0 0 false (some (codes "Hello!"))
      (some (codes "Hi!"))
state_of m hello_read_alone =
    state server_removes client_ended (after_hello m) 0 0 false (some (codes "Hello!"))
      (some (codes "Hi!"))
state_of m server_gone =
    state server_ended client_detaches (after_hello m) 0 0 true (some (codes "Hello!"))
      (some (codes "Hi!"))
state_of m both_gone =
    state server_ended client_ended (after_hello m) 0 0 true (some (codes "Hello!"))
      (some (codes "Hi!"))

-- The phase after a statement of the server or of the client, if it can run one.
abbrev pub next_server : Phase → Option Phase
next_server both_start = some hi_written
next_server hi_written = some hi_signalled
next_server hi_signalled = none
next_server client_woken = none
next_server hi_read = none
next_server hello_written = none
next_server hello_signalled = some server_woken
next_server client_gone = some server_woken_alone
next_server server_woken = some hello_read
next_server server_woken_alone = some hello_read_alone
next_server hello_read = some server_gone
next_server hello_read_alone = some both_gone
next_server server_gone = none
next_server both_gone = none

abbrev pub next_client : Phase → Option Phase
next_client both_start = none
next_client hi_written = none
next_client hi_signalled = some client_woken
next_client client_woken = some hi_read
next_client hi_read = some hello_written
next_client hello_written = some hello_signalled
next_client hello_signalled = some client_gone
next_client client_gone = none
next_client server_woken = some server_woken_alone
next_client server_woken_alone = none
next_client hello_read = some hello_read_alone
next_client hello_read_alone = none
next_client server_gone = some both_gone
next_client both_gone = none

abbrev pub states : Bytes → Option Phase → Option State
states m none = none
states m (some p) = some (state_of m p)

pub server_lem : (m : Bytes) (p : Phase) → server_step (state_of m p) ≡ states m (next_server p)
unfolding server_step before
server_lem m both_start = refl
server_lem m hi_written = refl
server_lem m hi_signalled = refl
server_lem m client_woken = refl
server_lem m hi_read = refl
server_lem m hello_written = refl
server_lem m hello_signalled = refl
server_lem m client_gone = refl
server_lem m server_woken = refl
server_lem m server_woken_alone = refl
server_lem m hello_read = refl
server_lem m hello_read_alone = refl
server_lem m server_gone = refl
server_lem m both_gone = refl

system_v_lem : (m : Bytes) (p : Phase) → client_step (state_of m p) ≡ states m (next_client p)
unfolding client_step before
system_v_lem m both_start = refl
system_v_lem m hi_written = refl
system_v_lem m hi_signalled = refl
system_v_lem m client_woken = refl
system_v_lem m hi_read = refl
system_v_lem m hello_written = refl
system_v_lem m hello_signalled = refl
system_v_lem m client_gone = refl
system_v_lem m server_woken = refl
system_v_lem m server_woken_alone = refl
system_v_lem m hello_read = refl
system_v_lem m hello_read_alone = refl
system_v_lem m server_gone = refl
system_v_lem m both_gone = refl

posix_lem : (m : Bytes) (p : Phase) → posix_client_step (state_of m p) ≡ states m (next_client p)
unfolding posix_client_step before
posix_lem m both_start = refl
posix_lem m hi_written = refl
posix_lem m hi_signalled = refl
posix_lem m client_woken = refl
posix_lem m hi_read = refl
posix_lem m hello_written = refl
posix_lem m hello_signalled = refl
posix_lem m client_gone = refl
posix_lem m server_woken = refl
posix_lem m server_woken_alone = refl
posix_lem m hello_read = refl
posix_lem m hello_read_alone = refl
posix_lem m server_gone = refl
posix_lem m both_gone = refl

pub client_lem :
    (k : Kind) (m : Bytes) (p : Phase) → client_step_of k (state_of m p) ≡ states m (next_client p)
client_lem system_v m p = system_v_lem m p
client_lem posix m p = posix_lem m p
