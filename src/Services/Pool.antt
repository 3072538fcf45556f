-- ===== src/Services/Pool.antt =====
-- SocketsSS/TaskThree/server.c: the main server queues clients, and three threads serve them. The
-- queue is a ring of ten slots under a mutex, so each of its operations is one step. The clock,
-- the sockets and what a client sends come in from outside, and what is sent comes out as a list
-- of effects. The condition variables are left out: a thread that waits on one is a thread whose
-- test fails and that may test again at any time, so a signal that is lost is outside of the model.
-- Log output and the set-up of sockets and threads are left out.
pub mod Queue
pub mod System
use eltex_lessons.Base.{
  ℕ, ◌+◌, ◌-◌, ◌%◌, Bool, Option, none, some, List, [], ◌∷◌, ◌++◌, ltb, ◌==◌, get_or, set,
  replicate, if◌then◌else◌,
}
use eltex_lessons.Text.{Bytes, codes, starts_with}

abbrev pub queue_size : ℕ
queue_size = 10

abbrev pub max_clients : ℕ
max_clients = 3

-- `client_queue_item_t`, the address as IP and port.
pub record Item : Type 0 where
  pub client_fd : ℕ
  pub client_addr : ℕ × ℕ
  pub message : Bytes

abbrev pub blank_item : Item
blank_item = record { client_fd = 0; client_addr = (0, 0); message = [] }

-- The globals `client_queue`, `queue_front`, `queue_rear` and `queue_count`.
pub record Ring : Type 0 where
  pub slots : List Item
  pub front : ℕ
  pub rear : ℕ
  pub count : ℕ

abbrev pub empty_ring : Ring
empty_ring = record { slots = replicate queue_size blank_item; front = 0; rear = 0; count = 0 }

pub data Effect : Type 0 where
  sent : ℕ → Bytes → Effect
  closed : ℕ → Effect

-- `send` and `close` of `enqueue_client` where the queue is full.
abbrev pub refusal : ℕ → List Effect
refusal fd = sent fd (codes "ERROR: Queue full" ++ 10 ∷ []) ∷ closed fd ∷ []

unfoldable pub enqueue_client : Item → Ring → Ring × List Effect
enqueue_client c q =
    if ltb q.count queue_size
    then (
      record q {
        slots = set q.slots q.rear c;
        rear = (q.rear + 1) % queue_size;
        count = q.count + 1;
      },
      [],
    )
    else (q, refusal c.client_fd)

-- `none` where the caller waits on `queue_cond`.
unfoldable pub dequeue_client : Ring → Option (Item × Ring)
dequeue_client q =
    if q.count == 0
    then none
    else some (
      get_or q.slots q.front blank_item,
      record q { front = (q.front + 1) % queue_size; count = q.count - 1 },
    )

-- What a serving thread sends to a client, where `time` is the text of the current time.
unfoldable pub serve_client : Bytes → Item → List Effect
serve_client time c =
    (if starts_with (codes "TIME") c.message
      then sent c.client_fd time
      else sent c.client_fd (codes "ERROR: STRING TIME" ++ 10 ∷ []))
    ∷ closed c.client_fd
    ∷ []

-- Where a thread stands in its loop: before the test of `is_busy`, in `dequeue_client`, with a
-- client, and before the release.
pub data Stage : Type 0 where
  waiting : Stage
  taking : Stage
  serving : Item → Stage
  releasing : Stage

-- `service_server_t`, with the place of its thread.
pub record Server : Type 0 where
  pub port : ℕ
  pub is_busy : ℕ
  pub stage : Stage

-- `init_servers`
abbrev pub init_servers : List Server
init_servers =
    record { port = 10101; is_busy = 0; stage = waiting }
    ∷ record { port = 10102; is_busy = 0; stage = waiting }
    ∷ record { port = 10103; is_busy = 0; stage = waiting }
    ∷ []

-- The loop of `service_server_thread` under the mutex of the server: it goes on where the server
-- is not busy.
unfoldable pub claim : Server → Option Server
claim s = if s.is_busy == 1 then none else some (record s { is_busy = 1; stage = taking })

unfoldable pub release : Server → Server
release s = record s { is_busy = 0; stage = waiting }
