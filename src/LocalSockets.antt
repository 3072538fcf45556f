-- ===== src/LocalSockets.antt =====
-- Sockets/TCP_local and the server of Sockets/UDP_local: programs that make one exchange over a
-- socket in the file system, with a test behind each call. What the calls return comes in from
-- outside. The path is a constant that fits its field, so the test on its length is left out, as is
-- log output but for the messages.
pub mod Cleanup
pub mod Internet
mod Tests
use eltex_lessons.Base.{
  ℕ, Bool, true, false, Option, none, some, List, [], ◌∷◌, ◌==◌, if◌then◌else◌,
}
use eltex_lessons.Text.{Bytes, codes, before}

-- The descriptors that a process has open, whether the socket file is there, what was sent on a
-- descriptor, and the messages that were printed.
pub record World : Type 0 where
  pub open_fds : List ℕ
  pub file : Bool
  pub messages_sent : List (ℕ × Bytes)
  pub printed : List Bytes

abbrev pub remove_fd : ℕ → List ℕ → List ℕ
remove_fd fd [] = []
remove_fd fd (x ∷ xs) = if x == fd then xs else x ∷ remove_fd fd xs

abbrev pub socket_made : ℕ → World → World
socket_made fd w = record w { open_fds = fd ∷ w.open_fds }

abbrev pub close_socket : ℕ → World → World
close_socket fd w = record w { open_fds = remove_fd fd w.open_fds }

abbrev pub file_made : World → World
file_made w = record w { file = true }

abbrev pub unlink_path : World → World
unlink_path w = record w { file = false }

abbrev pub print_message : Bytes → World → World
print_message text w = record w { printed = before 0 text ∷ w.printed }

abbrev pub send_message : ℕ → Bytes → World → World
send_message fd text w = record w { messages_sent = (fd, text) ∷ w.messages_sent }

-- What the calls return: `none` or `false` for -1.
pub record Calls : Type 0 where
  pub socket : Option ℕ
  pub bind_ok : Bool
  pub listen_ok : Bool
  pub connect_ok : Bool
  pub accept : Option ℕ
  pub read : Option Bytes
  pub write_ok : Bool

-- TCP_local/Server/Server.c from its last call back to the first, each with the exit status.
unfoldable pub tcp_reply : Bool → ℕ → ℕ → World → World × ℕ
tcp_reply false fd client w = (unlink_path (close_socket fd (close_socket client w)), 1)
tcp_reply true fd client w =
    (unlink_path (close_socket fd (close_socket client (send_message client (codes "Hi!") w))), 0)

unfoldable pub tcp_read : Option Bytes → Calls → ℕ → ℕ → World → World × ℕ
tcp_read none c fd client w = (unlink_path (close_socket fd (close_socket client w)), 1)
tcp_read (some []) c fd client w = (unlink_path (close_socket fd (close_socket client w)), 0)
tcp_read (some (b ∷ bs)) c fd client w = tcp_reply c.write_ok fd client (print_message (b ∷ bs) w)

unfoldable pub tcp_accept : Option ℕ → Calls → ℕ → World → World × ℕ
tcp_accept none c fd w = (unlink_path (close_socket fd w), 1)
tcp_accept (some client) c fd w = tcp_read c.read c fd client (socket_made client w)

unfoldable pub tcp_listen : Bool → Calls → ℕ → World → World × ℕ
tcp_listen false c fd w = (unlink_path (close_socket fd w), 1)
tcp_listen true c fd w = tcp_accept c.accept c fd w

unfoldable pub tcp_bind : Bool → Calls → ℕ → World → World × ℕ
tcp_bind false c fd w = (close_socket fd w, 1)
tcp_bind true c fd w = tcp_listen c.listen_ok c fd (file_made w)

unfoldable pub tcp_socket : Option ℕ → Calls → World → World × ℕ
tcp_socket none c w = (w, 1)
tcp_socket (some fd) c w = tcp_bind c.bind_ok c fd (socket_made fd w)

unfoldable pub tcp_server : Calls → World → World × ℕ
tcp_server c w = tcp_socket c.socket c (unlink_path w)

-- TCP_local/Client/Client.c, likewise.
unfoldable pub client_read : Option Bytes → ℕ → World → World × ℕ
client_read none fd w = (close_socket fd w, 1)
client_read (some []) fd w = (close_socket fd w, 0)
client_read (some (b ∷ bs)) fd w = (close_socket fd (print_message (b ∷ bs) w), 0)

unfoldable pub client_write : Bool → Calls → ℕ → World → World × ℕ
client_write false c fd w = (close_socket fd w, 1)
client_write true c fd w = client_read c.read fd (send_message fd (codes "Hello!") w)

unfoldable pub client_connect : Bool → Calls → ℕ → World → World × ℕ
client_connect false c fd w = (close_socket fd w, 1)
client_connect true c fd w = client_write c.write_ok c fd w

unfoldable pub client_socket : Option ℕ → Calls → World → World × ℕ
client_socket none c w = (w, 1)
client_socket (some fd) c w = client_connect c.connect_ok c fd (socket_made fd w)

unfoldable pub tcp_client : Calls → World → World × ℕ
tcp_client c w = client_socket c.socket c w

-- UDP_local/Server/server.c, likewise; `read` is what recvfrom returns, an empty datagram included.
unfoldable pub udp_reply : Bool → ℕ → World → World × ℕ
udp_reply false fd w = (unlink_path (close_socket fd w), 1)
udp_reply true fd w = (unlink_path (close_socket fd (send_message fd (codes "Hi!") w)), 0)

unfoldable pub udp_receive : Option Bytes → Calls → ℕ → World → World × ℕ
udp_receive none c fd w = (unlink_path (close_socket fd w), 1)
udp_receive (some text) c fd w = udp_reply c.write_ok fd (print_message text w)

unfoldable pub udp_bind : Bool → Calls → ℕ → World → World × ℕ
udp_bind false c fd w = (close_socket fd w, 1)
udp_bind true c fd w = udp_receive c.read c fd (file_made w)

unfoldable pub udp_socket : Option ℕ → Calls → World → World × ℕ
udp_socket none c w = (w, 1)
udp_socket (some fd) c w = udp_bind c.bind_ok c fd (unlink_path (socket_made fd w))

unfoldable pub udp_server : Calls → World → World × ℕ
udp_server c w = udp_socket c.socket c w
