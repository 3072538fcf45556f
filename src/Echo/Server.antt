-- ===== src/Echo/Server.antt =====
-- SocketsEcho/server.c. The table `cl_history` is the array of clients up to `count`. A datagram
-- comes in with the sender's address, and what is sent comes out as datagrams. Log output is left
-- out. The text of a datagram is what stands before the first NUL of the cleared buffer: the
-- model is of datagrams that are shorter than the buffer (1024 bytes).
pub mod History
pub mod Numbers
mod Tests
use eltex_lessons.Base.{
  ℕ, zero, suc, ◌+◌, ◌-◌, Bool, ◌&&◌, Option, none, some, List, [], ◌∷◌, ◌++◌, leb, ◌==◌, length,
  get_or, set, take, if◌then◌else◌,
}
use eltex_lessons.Base.Int.{pos}
use eltex_lessons.Text.{Bytes, codes, before, same_text}
use eltex_lessons.Text.Decimal.{print_int}

-- `Client`: the counter holds the number of the next message.
pub record Client : Type 0 where
  pub port : ℕ
  pub ip_addr : ℕ
  pub number : ℕ

abbrev pub History : Type 0
History = List Client

abbrev pub max_history : ℕ
max_history = 100

abbrev pub buffer_size : ℕ
buffer_size = 1024

abbrev pub blank : Client
blank = record { port = 0; ip_addr = 0; number = 0 }

abbrev pub is_client : ℕ → ℕ → Client → Bool
is_client ip port c = c.ip_addr == ip && c.port == port

unfoldable pub find_client : ℕ → ℕ → History → Option ℕ
find_client ip port [] = none
find_client ip port (c ∷ h) =
    if is_client ip port c
    then some 0
    else elim (find_client ip port h) [ none ↦ none | some i ↦ some (suc i) ]

-- The new index, or `none` for -1.
unfoldable pub add_client : ℕ → ℕ → History → Option ℕ × History
add_client ip port h =
    if leb max_history (length h)
    then (none, h)
    else (some (length h), h ++ record { port = port; ip_addr = ip; number = 1 } ∷ [])

-- The loop of `remove_client` from index `i` on, with the rounds that are left.
unfoldable pub shift_down : ℕ → ℕ → History → History
shift_down zero i h = h
shift_down (suc n) i h = shift_down n (i + 1) (set h i (get_or h (i + 1) blank))

unfoldable pub remove_client : ℕ → ℕ → History → History
remove_client ip port h = elim (find_client ip port h) [
  | none ↦ h
  | some i ↦ take (length h - 1) (shift_down (length h - 1 - i) i h)
]

-- A datagram: the address of the other side, and the bytes.
pub record Datagram : Type 0 where
  pub ip : ℕ
  pub port : ℕ
  pub text : Bytes

abbrev pub datagram : ℕ → ℕ → Bytes → Datagram
datagram ip port text = record { ip = ip; port = port; text = text }

abbrev pub client_shutdown : Bytes
client_shutdown = codes "CLIENT_SHUTDOWN"

abbrev pub server_shutdown : Bytes
server_shutdown = codes "SERVER_SHUTDOWN"

-- `snprintf(response, sizeof(response), "%s %d", buffer, msg_number)`
unfoldable pub numbered : Bytes → ℕ → Bytes
numbered text n = take (buffer_size - 1) (text ++ 32 ∷ print_int (pos n))

-- The end of a round: the counter of entry `i` goes into the reply, and goes up.
unfoldable pub respond : Datagram → Bytes → ℕ → History → History × List Datagram
respond d text i h =
    let c = get_or h i blank in
    (
      set h i (record c { number = c.number + 1 }),
      datagram d.ip d.port (numbered text c.number) ∷ [],
    )

-- One round of the loop of `main`, for a datagram that recvfrom returned.
unfoldable pub handle : Datagram → History → History × List Datagram
handle d h =
    let text = before 0 d.text in
    if same_text text client_shutdown
    then (remove_client d.ip d.port h, [])
    else elim (find_client d.ip d.port h) [
      | some i ↦ respond d text i h
      | none ↦
          let (added, h') = add_client d.ip d.port h in
          elim added [
            | none ↦ (h', datagram d.ip d.port (codes "server history is full") ∷ [])
            | some i ↦ respond d text i h'
          ]
    ]

-- The datagrams in the order of their arrival.
unfoldable pub serve : List Datagram → History → History × List Datagram
serve [] h = (h, [])
serve (d ∷ ds) h = let (h', out) = handle d h in let (h'', outs) = serve ds h' in (h'', out ++ outs)

-- The loop of `signal_handler`: a notice to each client of the table.
unfoldable pub signal_handler : History → List Datagram
signal_handler [] = []
signal_handler (c ∷ h) = datagram c.ip_addr c.port server_shutdown ∷ signal_handler h
