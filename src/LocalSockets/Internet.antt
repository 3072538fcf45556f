-- ===== src/LocalSockets/Internet.antt =====
-- The other programs of Sockets: TCP_afinet and UDP_afinet, server and client, and the client of
-- UDP_local, on what their calls return. The programs of TCP_afinet do not test what read and send
-- return, nor those of UDP_afinet sendto. The address of a constant text is taken to be valid.
pub mod Closing
pub mod Datagrams
pub mod Programs
use eltex_lessons.Base.{
  ℕ, Bool, true, false, Option, none, some, List, [], ◌∷◌, ltb, length, if◌then◌else◌,
}
use eltex_lessons.Text.{Bytes, codes, before}
use eltex_lessons.LocalSockets.{
  World, Calls, socket_made, close_socket, file_made, unlink_path, print_message, send_message,
}

abbrev pub buffer_length : ℕ
buffer_length = 1024

-- A text that was read is shown; an error and the end of the connection are passed over.
abbrev pub print_if_read : Option Bytes → World → World
print_if_read none w = w
print_if_read (some []) w = w
print_if_read (some (b ∷ bs)) w = print_message (b ∷ bs) w

abbrev pub send_if_ok : Bool → ℕ → Bytes → World → World
send_if_ok ok fd text w = if ok then send_message fd text w else w

-- TCP_afinet/Server/server.c from its last call back to the first, each with the exit status.
unfoldable pub inet_accept : Option ℕ → Calls → ℕ → World → World × ℕ
inet_accept none c fd w = (close_socket fd w, 1)
inet_accept (some client) c fd w = (
  close_socket fd (
      close_socket client
        (send_if_ok c.write_ok client (codes "Hi!") (print_if_read c.read (socket_made client w)))),
  0,
)

unfoldable pub inet_listen : Bool → Calls → ℕ → World → World × ℕ
inet_listen false c fd w = (close_socket fd w, 1)
inet_listen true c fd w = inet_accept c.accept c fd w

unfoldable pub inet_bind : Bool → Calls → ℕ → World → World × ℕ
inet_bind false c fd w = (close_socket fd w, 1)
inet_bind true c fd w = inet_listen c.listen_ok c fd w

unfoldable pub inet_tcp_server : Option ℕ → Calls → World → World × ℕ
inet_tcp_server none c w = (w, 1)
inet_tcp_server (some fd) c w = inet_bind c.bind_ok c fd (socket_made fd w)

-- TCP_afinet/Client/client.c, likewise.
unfoldable pub inet_connect : Bool → Calls → ℕ → World → World × ℕ
inet_connect false c fd w = (close_socket fd w, 1)
inet_connect true c fd w =
    (close_socket fd (print_if_read c.read (send_if_ok c.write_ok fd (codes "Hello!") w)), 0)

unfoldable pub inet_tcp_client : Option ℕ → Calls → World → World × ℕ
inet_tcp_client none c w = (w, 1)
inet_tcp_client (some fd) c w = inet_connect c.connect_ok c fd (socket_made fd w)

-- The buffer of UDP_afinet is cleared first and filled to its end by a long datagram: the text
-- that is printed must end in it. `none` where the print runs over it.
unfoldable pub ends_inside : Bytes → Bool
ends_inside text = ltb (length (before 0 text)) buffer_length

-- UDP_afinet/Server/server.c, likewise; `read` is what recvfrom returns.
unfoldable pub inet_receive : Option Bytes → Calls → ℕ → World → Option (World × ℕ)
inet_receive none c fd w = some (close_socket fd w, 1)
inet_receive (some text) c fd w =
    if ends_inside text
    then some (close_socket fd (send_if_ok c.write_ok fd (codes "Hi!") (print_message text w)), 0)
    else none

unfoldable pub inet_udp_bind : Bool → Calls → ℕ → World → Option (World × ℕ)
inet_udp_bind false c fd w = some (close_socket fd w, 1)
inet_udp_bind true c fd w = inet_receive c.read c fd w

unfoldable pub inet_udp_server : Option ℕ → Calls → World → Option (World × ℕ)
inet_udp_server none c w = some (w, 1)
inet_udp_server (some fd) c w = inet_udp_bind c.bind_ok c fd (socket_made fd w)

-- UDP_afinet/Client/client.c, likewise.
unfoldable pub inet_reply : Option Bytes → ℕ → World → Option (World × ℕ)
inet_reply none fd w = some (close_socket fd w, 1)
inet_reply (some text) fd w =
    if ends_inside text then some (close_socket fd (print_message text w), 0) else none

unfoldable pub inet_udp_client : Option ℕ → Calls → World → Option (World × ℕ)
inet_udp_client none c w = some (w, 1)
inet_udp_client (some fd) c w =
    inet_reply c.read fd (send_if_ok c.write_ok fd (codes "Hello!") (socket_made fd w))

-- UDP_local/Client/client.c, likewise; its socket file is its own.
unfoldable pub local_reply : Option Bytes → ℕ → World → World × ℕ
local_reply none fd w = (unlink_path (close_socket fd w), 1)
local_reply (some text) fd w = (unlink_path (close_socket fd (print_message text w)), 0)

unfoldable pub local_send : Bool → Calls → ℕ → World → World × ℕ
local_send false c fd w = (unlink_path (close_socket fd w), 1)
local_send true c fd w = local_reply c.read fd (send_message fd (codes "Hello!") w)

unfoldable pub local_bind : Bool → Calls → ℕ → World → World × ℕ
local_bind false c fd w = (close_socket fd w, 1)
local_bind true c fd w = local_send c.write_ok c fd (file_made w)

unfoldable pub udp_client : Option ℕ → Calls → World → World × ℕ
udp_client none c w = (w, 1)
udp_client (some fd) c w = local_bind c.bind_ok c fd (unlink_path (socket_made fd w))
