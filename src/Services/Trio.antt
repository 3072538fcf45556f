-- ===== src/Services/Trio.antt =====
-- SocketsSS/TaskOne/server.c: a server for three clients, each with a port and a thread of its own.
-- What accept, read and pthread_create return comes in from outside, as does the text of the time.
-- Log output and the set-up of the main socket are left out; ports and counters are numbers without
-- overflow.
pub mod Visits
mod Tests
use eltex_lessons.Base.{
  ℕ, ◌+◌, Bool, Option, none, some, List, [], ◌∷◌, ◌++◌, leb, ◌==◌, if◌then◌else◌,
}
use eltex_lessons.Base.Int.{pos}
use eltex_lessons.Text.{Bytes, codes, before, starts_with}
use eltex_lessons.Text.Decimal.{print_int}

abbrev pub max_clients : ℕ
max_clients = 3

-- The thread `third_thread` is `none` as long as it is not set.
pub record Server : Type 0 where
  pub clients_served : ℕ
  pub current_port : ℕ
  pub third_thread : Option ℕ

abbrev pub start : Server
start = record { clients_served = 0; current_port = 10900; third_thread = none }

-- What `main` does to the outside: bytes to a client, the end of a connection, a thread that is
-- let go.
pub data Effect : Type 0 where
  sent : ℕ → ℕ → Bytes → Effect
  closed : ℕ → Effect
  detached : ℕ → Effect

-- `"127.0.0.1:%d\n"`
abbrev pub endpoint : ℕ → Bytes
endpoint port = codes "127.0.0.1:" ++ (print_int (pos port) ++ 10 ∷ [])

-- A round of the loop: accept fails; or it returns a descriptor, and pthread_create fails or makes
-- a thread.
pub data Visit : Type 0 where
  no_client : Visit
  no_thread : ℕ → Visit
  client : ℕ → ℕ → Visit

-- `get_free_port`: the port, and the server afterwards.
abbrev pub get_free_port : Server → ℕ × Server
get_free_port s = (s.current_port, record s { current_port = s.current_port + 1 })

-- The end of a round, for a new thread: the third is kept, and the others are let go.
unfoldable pub keep_thread : ℕ → Server → Server × List Effect
keep_thread tid s =
    if s.clients_served == 2
    then (record s { third_thread = some tid; clients_served = s.clients_served + 1 }, [])
    else (record s { clients_served = s.clients_served + 1 }, detached tid ∷ [])

unfoldable pub serve_visit : Visit → Server → Server × List Effect
serve_visit no_client s = (s, [])
serve_visit (no_thread fd) s = let (port, s') = get_free_port s in (s', closed fd ∷ [])
serve_visit (client fd tid) s =
    let (port, s') = get_free_port s in
    let (s'', kept) = keep_thread tid s' in (s'', sent fd port (endpoint port) ∷ closed fd ∷ kept)

-- The loop of `main`: the server behind it, or `none` where it waits for a further client.
unfoldable pub main_loop : List Visit → Server → Option (Server × List Effect)
main_loop [] s = if leb max_clients s.clients_served then some (s, []) else none
main_loop (v ∷ vs) s =
    let (s', out) = serve_visit v s in
    let rest = main_loop vs s' in
    if leb max_clients s.clients_served
    then some (s, [])
    else elim rest [ none ↦ none | some (s'', more) ↦ some (s'', out ++ more) ]

-- How far a thread comes: its calls of socket, bind, listen and accept fail, or a client has sent a
-- request.
pub data Progress : Type 0 where
  no_socket : Progress
  no_bind : ℕ → Progress
  no_listen : ℕ → Progress
  no_accept : ℕ → Progress
  accepted : ℕ → ℕ → Bytes → Progress

pub data Action : Type 0 where
  replied : ℕ → Bytes → Action
  hung_up : ℕ → Action
  freed_args : Action

-- `service_server_thread`
unfoldable pub service_server_thread : Progress → Bytes → List Action
service_server_thread no_socket time = []
service_server_thread (no_bind fd) time = hung_up fd ∷ []
service_server_thread (no_listen fd) time = hung_up fd ∷ []
service_server_thread (no_accept fd) time = hung_up fd ∷ []
service_server_thread (accepted fd client_fd request) time =
    (if starts_with (codes "TIME") (before 0 request) then replied client_fd time ∷ [] else [])
    ++ (hung_up client_fd ∷ hung_up fd ∷ freed_args ∷ [])
