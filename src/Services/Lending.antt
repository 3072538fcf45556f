-- ===== src/Services/Lending.antt =====
-- SocketsSS/TaskTwo/server.c: the main server sends each client the address of a serving thread
-- that is free, and the client connects there. A step is a round of the loop of `main` up to its
-- search, one look of `find_free_server` at a server under its mutex, or a client that a thread
-- serves. Log output and the set-up of sockets and threads are left out.
pub mod Guests
mod Tests
use eltex_lessons.Base.{
  ℕ, zero, suc, ◌+◌, ◌-◌, ◌≡◌, Option, none, some, List, [], ◌∷◌, ◌++◌, ◌==◌, get_elem?, set,
  if◌then◌else◌,
}
use eltex_lessons.Base.Int.{pos}
use eltex_lessons.Text.{Bytes, codes, starts_with}
use eltex_lessons.Text.Decimal.{print_int}

-- `service_server_t`. `guests` counts the clients that were sent the port and have not been served.
pub record Host : Type 0 where
  pub port : ℕ
  pub is_busy : ℕ
  pub guests : ℕ

-- `init_servers`
abbrev pub init_servers : List Host
init_servers =
    record { port = 10101; is_busy = 0; guests = 0 }
    ∷ record { port = 10102; is_busy = 0; guests = 0 }
    ∷ record { port = 10103; is_busy = 0; guests = 0 }
    ∷ []

pub data Effect : Type 0 where
  sent : ℕ → Bytes → Effect
  closed : ℕ → Effect

-- Where `main` stands: in accept, or in `find_free_server` for a client, before the look at a
-- server.
pub data Search : Type 0 where
  accepting : Search
  looking : ℕ → ℕ → Search

pub record Desk : Type 0 where
  pub servers : List Host
  pub search : Search
  pub effects : List Effect

abbrev pub start : Desk
start = record { servers = init_servers; search = accepting; effects = [] }

-- "127.0.0.1:%d\n"
abbrev pub endpoint : ℕ → Bytes
endpoint port = codes "127.0.0.1:" ++ (print_int (pos port) ++ (10 ∷ []))

-- The reply to a client, and the end of its connection to `main`.
abbrev pub dismiss : ℕ → Bytes → List Effect
dismiss fd text = sent fd text ∷ closed fd ∷ []

abbrev pub no_servers : Bytes
no_servers = codes "ERROR: No free servers available" ++ 10 ∷ []

-- A look at server `i`: it is taken if it is free, and behind the last one the client is refused.
unfoldable pub look : ℕ → ℕ → Desk → Desk
look fd i s = elim (get_elem? s.servers i) [
  | none ↦ record s { search = accepting; effects = s.effects ++ dismiss fd no_servers }
  | some h ↦
      if h.is_busy == 0
      then record s {
        servers = set s.servers i (record h { is_busy = 1; guests = h.guests + 1 });
        search = accepting;
        effects = s.effects ++ dismiss fd (endpoint h.port);
      }
      else record s { search = looking fd (i + 1) }
]

-- A step of `main`, where accept returns `fd`.
unfoldable pub main_step : ℕ → Desk → Desk
unfolding look
main_step fd s = elim s.search [
  | accepting ↦ record s { search = looking fd 0 }
  | looking fd' i ↦ look fd' i s
]

-- A round of `service_server_thread` for a request that was read.
unfoldable pub serve : ℕ → Bytes → Bytes → Host → Host × List Effect
serve fd time request h = (
  record h { is_busy = 0; guests = h.guests - 1 },
  (if starts_with (codes "TIME") request then sent fd time ∷ [] else []) ++ closed fd ∷ [],
)

-- The states that are reached where only clients that were sent a port connect to it, each once.
pub data Reach : Desk → Type 0 where
  begin : Reach start
  asks : {s : Desk} → Reach s → (fd : ℕ) → Reach (main_step fd s)
  connects :
      {s : Desk}
      → Reach s
      → (i n fd port busy : ℕ) (time request : Bytes)
      → get_elem? s.servers i ≡ some (record { port = port; is_busy = busy; guests = suc n })
      → Reach (record s {
        servers =
            set s.servers i
              (serve fd time request (record { port = port; is_busy = busy; guests = suc n })).0;
        effects =
            s.effects
            ++ (serve fd time request (record { port = port; is_busy = busy; guests = suc n })).1;
      })
