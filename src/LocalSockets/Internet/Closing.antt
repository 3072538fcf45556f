-- ===== src/LocalSockets/Internet/Closing.antt =====
-- Sockets/TCP_afinet: both programs clean up, whatever fails.
use eltex_lessons.Base.{
  ℕ, ◌≤◌, ◌≡◌, refl, ◌∙◌, Bool, true, false, Option, none, some, [], ◌∷◌, arith, length,
}
use eltex_lessons.Text.{Bytes, codes, before}
use eltex_lessons.LocalSockets.{World, Calls, socket_made, close_socket}
use eltex_lessons.LocalSockets.Cleanup.{close_one, close_two}
use eltex_lessons.LocalSockets.Internet.{
  buffer_length, print_if_read, send_if_ok, inet_accept, inet_listen, inet_bind, inet_tcp_server,
  inet_connect, inet_tcp_client,
}

-- The descriptors are those of before, the socket file is there or not as `f` says; and if the
-- status is 1, nothing has been printed.
pub record Closed (f : Bool) (w : World) (r : World × ℕ) : Type 0 where
  pub closed : r.0.open_fds ≡ w.open_fds
  pub path : r.0.file ≡ f
  pub unprinted : r.1 ≡ 1 → r.0.printed ≡ w.printed

-- The same, where the print runs over the buffer only for a datagram that fills it.
abbrev pub ClosedOr : Calls → World → Option (World × ℕ) → Type 0
ClosedOr c w none = (text : Bytes) × (c.read ≡ some text) × (buffer_length ≤ length (before 0 text))
ClosedOr c w (some r) = Closed w.file w r

-- Two calls of a program keep descriptors and the file.
pub print_fds : (r : Option Bytes) (w : World) → (print_if_read r w).open_fds ≡ w.open_fds
print_fds none w = refl
print_fds (some []) w = refl
print_fds (some (b ∷ bs)) w = refl

pub print_file : (r : Option Bytes) (w : World) → (print_if_read r w).file ≡ w.file
print_file none w = refl
print_file (some []) w = refl
print_file (some (b ∷ bs)) w = refl

pub send_fds :
    (ok : Bool) (fd : ℕ) (text : Bytes) (w : World)
    → (send_if_ok ok fd text w).open_fds ≡ w.open_fds
send_fds true fd text w = refl
send_fds false fd text w = refl

pub send_file :
    (ok : Bool) (fd : ℕ) (text : Bytes) (w : World) → (send_if_ok ok fd text w).file ≡ w.file
send_file true fd text w = refl
send_file false fd text w = refl

pub send_printed :
    (ok : Bool) (fd : ℕ) (text : Bytes) (w : World) → (send_if_ok ok fd text w).printed ≡ w.printed
send_printed true fd text w = refl
send_printed false fd text w = refl

-- The end of a program with one descriptor open, behind a failure and otherwise.
pub failed_end :
    (fd : ℕ) (w u : World)
    → u.open_fds ≡ fd ∷ w.open_fds
    → u.printed ≡ w.printed
    → Closed u.file w (close_socket fd u, 1)
failed_end fd w u fds same = record {
  closed = close_one fd u.open_fds w.open_fds fds;
  path = refl;
  unprinted = λ e. same;
}

good_end :
    (fd : ℕ) (w u : World) → u.open_fds ≡ fd ∷ w.open_fds → Closed u.file w (close_socket fd u, 0)
good_end fd w u fds = record {
  closed = close_one fd u.open_fds w.open_fds fds;
  path = refl;
  unprinted = λ e. absurd (omega arith);
}

inet_accept_lem :
    (a : Option ℕ) (c : Calls) (fd : ℕ) (w : World)
    → Closed w.file w (inet_accept a c fd (socket_made fd w))
unfolding inet_accept
inet_accept_lem none c fd w = failed_end fd w (socket_made fd w) refl refl
inet_accept_lem (some client) c fd w =
    let read = print_if_read c.read (socket_made client (socket_made fd w)) in
    let said = send_if_ok c.write_ok client (codes "Hi!") read in
    let fds : said.open_fds ≡ client ∷ fd ∷ w.open_fds =
      send_fds c.write_ok client (codes "Hi!") read
      ∙ print_fds c.read (socket_made client (socket_made fd w)) in
    record {
      closed = close_two fd client said.open_fds w.open_fds fds;
      path =
          send_file c.write_ok client (codes "Hi!") read
          ∙ print_file c.read (socket_made client (socket_made fd w));
      unprinted = λ e. absurd (omega arith);
    }

pub inet_tcp_server_lem :
    (s : Option ℕ) (c : Calls) (w : World) → Closed w.file w (inet_tcp_server s c w)
unfolding inet_tcp_server
inet_tcp_server_lem none c w = record { closed = refl; path = refl; unprinted = λ e. refl }
inet_tcp_server_lem (some fd) c w = at_bind c.bind_ok
  where
    at_listen : (b : Bool) → Closed w.file w (inet_listen b c fd (socket_made fd w))
    at_listen false = unfold inet_listen in failed_end fd w (socket_made fd w) refl refl
    at_listen true = unfold inet_listen in inet_accept_lem c.accept c fd w

    at_bind : (b : Bool) → Closed w.file w (inet_bind b c fd (socket_made fd w))
    at_bind false = unfold inet_bind in failed_end fd w (socket_made fd w) refl refl
    at_bind true = unfold inet_bind in at_listen c.listen_ok

pub inet_tcp_client_lem :
    (s : Option ℕ) (c : Calls) (w : World) → Closed w.file w (inet_tcp_client s c w)
unfolding inet_tcp_client
inet_tcp_client_lem none c w = record { closed = refl; path = refl; unprinted = λ e. refl }
inet_tcp_client_lem (some fd) c w = at_connect c.connect_ok
  where
    said : World
    said = send_if_ok c.write_ok fd (codes "Hello!") (socket_made fd w)

    at_connect : (b : Bool) → Closed w.file w (inet_connect b c fd (socket_made fd w))
    at_connect false = unfold inet_connect in failed_end fd w (socket_made fd w) refl refl
    at_connect true =
        unfold inet_connect in
        record {
          closed =
              close_one fd (print_if_read c.read said).open_fds w.open_fds (
                print_fds c.read said ∙ send_fds c.write_ok fd (codes "Hello!") (socket_made fd w));
          path =
              print_file c.read said ∙ send_file c.write_ok fd (codes "Hello!") (socket_made fd w);
          unprinted = λ e. absurd (omega arith);
        }
