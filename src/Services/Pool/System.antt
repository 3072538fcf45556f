-- ===== src/Services/Pool/System.antt =====
-- The main server and the threads of SocketsSS/TaskThree/server.c together: one move is a client
-- that `main` accepts, or a step of one thread.
pub mod Invariant
mod Tests
use eltex_lessons.Base.{ℕ, ◌≡◌, Option, none, some, List, [], ◌∷◌, ◌++◌, get_elem?, set}
use eltex_lessons.Text.{Bytes}
use eltex_lessons.Services.Pool.{
  Item, Ring, empty_ring, Effect, enqueue_client, dequeue_client, serve_client, Stage, waiting,
  taking, serving, releasing, Server, init_servers, claim, release,
}

-- The globals, what has been sent so far, and a record of what became of the clients: those that
-- were turned away, those that were queued, those that a thread took, and those that were served.
pub record System : Type 0 where
  pub queue : Ring
  pub servers : List Server
  pub effects : List Effect
  pub refused : List Item
  pub queued : List Item
  pub taken : List Item
  pub served : List Item

abbrev pub start : System
start = record {
  queue = empty_ring;
  servers = init_servers;
  effects = [];
  refused = [];
  queued = [];
  taken = [];
  served = [];
}

-- A round of the loop of `main`, for a client that accept and read returned.
unfoldable pub accept_client : Item → System → System
accept_client c s =
    let (q, es) = enqueue_client c s.queue in
    elim es [
      | [] ↦ record s { queue = q; queued = s.queued ++ c ∷ [] }
      | e ∷ rest ↦ record s {
        queue = q;
        effects = s.effects ++ e ∷ rest;
        refused = s.refused ++ c ∷ [];
      }
    ]

-- One step of the thread of server `sv`, which stands at `i`; `none` where it waits.
unfoldable pub stage_step : Bytes → ℕ → Server → Stage → System → Option System
stage_step time i sv waiting s = elim (claim sv) [
  | none ↦ none
  | some sv' ↦ some (record s { servers = set s.servers i sv' })
]
stage_step time i sv taking s = elim (dequeue_client s.queue) [
  | none ↦ none
  | some (c, q) ↦ some (record s {
    queue = q;
    servers = set s.servers i (record sv { stage = serving c });
    taken = s.taken ++ c ∷ [];
  })
]
stage_step time i sv (serving c) s = some (record s {
  servers = set s.servers i (record sv { stage = releasing });
  effects = s.effects ++ serve_client time c;
  served = s.served ++ c ∷ [];
})
stage_step time i sv releasing s = some (record s { servers = set s.servers i (release sv) })

unfoldable pub thread_step : Bytes → ℕ → System → Option System
thread_step time i s = elim (get_elem? s.servers i) [
  | none ↦ none
  | some sv ↦ stage_step time i sv sv.stage s
]

pub data Reach : System → Type 0 where
  begin : Reach start
  accepts : {s : System} → Reach s → (c : Item) → Reach (accept_client c s)
  steps :
      {s t : System} → Reach s → (time : Bytes) (i : ℕ) → thread_step time i s ≡ some t → Reach t
