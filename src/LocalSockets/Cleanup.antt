-- ===== src/LocalSockets/Cleanup.antt =====
-- The three programs clean up, whatever fails.
use eltex_lessons.Base.{
  ℕ, ◌≡◌, refl, ◌∙◌, ap, Bool, true, false, Option, none, some, List, [], ◌∷◌, arith,
}
use eltex_lessons.Text.{Bytes, codes}
use eltex_lessons.LocalSockets.{
  World, remove_fd, socket_made, close_socket, file_made, unlink_path, print_message, send_message,
  Calls, tcp_reply, tcp_read, tcp_accept, tcp_listen, tcp_bind, tcp_socket, tcp_server, client_read,
  client_write, client_connect, client_socket, tcp_client, udp_reply, udp_receive, udp_bind,
  udp_socket, udp_server,
}

-- The descriptors are those of before, the socket file is there or not as `f` says; and if the
-- status is 1, nothing has been sent.
pub record Clean (w : World) (f : Bool) (r : World × ℕ) : Type 0 where
  pub closed : r.0.open_fds ≡ w.open_fds
  pub path : r.0.file ≡ f
  pub unsent : r.1 ≡ 1 → r.0.messages_sent ≡ w.messages_sent

remove_fd_first : (fd : ℕ) (fds : List ℕ) → remove_fd fd (fd ∷ fds) ≡ fds
remove_fd_first fd fds = ground arith

close_both :
    (fd client : ℕ) (fds : List ℕ) → remove_fd fd (remove_fd client (client ∷ fd ∷ fds)) ≡ fds
close_both fd client fds = rw (remove_fd_first client (fd ∷ fds)) (remove_fd_first fd fds)

pub close_one : (fd : ℕ) (xs fds : List ℕ) → xs ≡ fd ∷ fds → remove_fd fd xs ≡ fds
close_one fd xs fds e = ap (remove_fd fd) e ∙ remove_fd_first fd fds

pub close_two :
    (fd client : ℕ) (xs fds : List ℕ)
    → xs ≡ client ∷ fd ∷ fds
    → remove_fd fd (remove_fd client xs) ≡ fds
close_two fd client xs fds e =
    ap (λ ys. remove_fd fd (remove_fd client ys)) e ∙ close_both fd client fds

-- A world with one descriptor, or two, more than `w`, in which nothing more has been sent.
record One (fd : ℕ) (w v : World) : Type 0 where
  fds : v.open_fds ≡ fd ∷ w.open_fds
  same : v.messages_sent ≡ w.messages_sent

record Two (fd client : ℕ) (w v : World) : Type 0 where
  fds : v.open_fds ≡ client ∷ fd ∷ w.open_fds
  same : v.messages_sent ≡ w.messages_sent

tcp_reply_lem :
    (b : Bool) (fd client : ℕ) (w v : World)
    → Two fd client w v
    → Clean w false (tcp_reply b fd client v)
unfolding tcp_reply
tcp_reply_lem false fd client w v t = record {
  closed = close_two fd client v.open_fds w.open_fds t.fds;
  path = refl;
  unsent = λ e. t.same;
}
tcp_reply_lem true fd client w v t = record {
  closed = close_two fd client v.open_fds w.open_fds t.fds;
  path = refl;
  unsent = λ e. absurd (omega arith);
}

tcp_read_lem :
    (r : Option Bytes) (c : Calls) (fd client : ℕ) (w v : World)
    → Two fd client w v
    → Clean w false (tcp_read r c fd client v)
unfolding tcp_read
tcp_read_lem none c fd client w v t = record {
  closed = close_two fd client v.open_fds w.open_fds t.fds;
  path = refl;
  unsent = λ e. t.same;
}
tcp_read_lem (some []) c fd client w v t = record {
  closed = close_two fd client v.open_fds w.open_fds t.fds;
  path = refl;
  unsent = λ e. absurd (omega arith);
}
tcp_read_lem (some (b ∷ bs)) c fd client w v t =
    tcp_reply_lem c.write_ok fd client w (print_message (b ∷ bs) v)
      (record { fds = t.fds; same = t.same })

tcp_bind_lem :
    (b : Bool) (c : Calls) (fd : ℕ) (w v : World)
    → One fd w v
    → v.file ≡ false
    → Clean w false (tcp_bind b c fd v)
unfolding tcp_bind
tcp_bind_lem false c fd w v o f = record {
  closed = close_one fd v.open_fds w.open_fds o.fds;
  path = f;
  unsent = λ e. o.same;
}
tcp_bind_lem true c fd w v o f =
    at_listen c.listen_ok (file_made v) (record { fds = o.fds; same = o.same })
  where
    at_accept : (a : Option ℕ) (u : World) → One fd w u → Clean w false (tcp_accept a c fd u)
    at_accept none u o =
        unfold tcp_accept in
        record {
          closed = close_one fd u.open_fds w.open_fds o.fds;
          path = refl;
          unsent = λ e. o.same;
        }
    at_accept (some client) u o =
        unfold tcp_accept in
        tcp_read_lem c.read c fd client w (socket_made client u)
          (record { fds = ap (λ xs. client ∷ xs) o.fds; same = o.same })

    at_listen : (b : Bool) (u : World) → One fd w u → Clean w false (tcp_listen b c fd u)
    at_listen false u o =
        unfold tcp_listen in
        record {
          closed = close_one fd u.open_fds w.open_fds o.fds;
          path = refl;
          unsent = λ e. o.same;
        }
    at_listen true u o = unfold tcp_listen in at_accept c.accept u o

tcp_server_lem : (c : Calls) (w : World) → Clean w false (tcp_server c w)
unfolding tcp_server
tcp_server_lem c w = at_socket c.socket
  where
    at_socket : (s : Option ℕ) → Clean w false (tcp_socket s c (unlink_path w))
    at_socket none = unfold tcp_socket in record { closed = refl; path = refl; unsent = λ e. refl }
    at_socket (some fd) =
        unfold tcp_socket in
        tcp_bind_lem c.bind_ok c fd w (socket_made fd (unlink_path w))
          (record { fds = refl; same = refl }) refl

-- The same of the client: a status of 1 says that it has printed no reply.
pub record Tidy (w : World) (r : World × ℕ) : Type 0 where
  pub closed : r.0.open_fds ≡ w.open_fds
  pub path : r.0.file ≡ w.file
  pub unprinted : r.1 ≡ 1 → r.0.printed ≡ w.printed

-- A world with one descriptor more, in which nothing more has been printed.
record Asked (fd : ℕ) (w v : World) : Type 0 where
  fds : v.open_fds ≡ fd ∷ w.open_fds
  path : v.file ≡ w.file
  same : v.printed ≡ w.printed

client_connect_lem :
    (b : Bool) (c : Calls) (fd : ℕ) (w v : World) → Asked fd w v → Tidy w (client_connect b c fd v)
client_connect_lem b c fd w v asked = at_connect b
  where
    left : (u : World) → Asked fd w u → Tidy w (close_socket fd u, 1)
    left u o = record {
      closed = close_one fd u.open_fds w.open_fds o.fds;
      path = o.path;
      unprinted = λ e. o.same;
    }

    done :
        (u : World) → u.open_fds ≡ fd ∷ w.open_fds → u.file ≡ w.file → Tidy w (close_socket fd u, 0)
    done u o f = record {
      closed = close_one fd u.open_fds w.open_fds o;
      path = f;
      unprinted = λ e. absurd (omega arith);
    }

    at_read : (r : Option Bytes) (u : World) → Asked fd w u → Tidy w (client_read r fd u)
    at_read none u o = unfold client_read in left u o
    at_read (some []) u o = unfold client_read in done u o.fds o.path
    at_read (some (x ∷ xs)) u o = unfold client_read in done (print_message (x ∷ xs) u) o.fds o.path

    at_write : (b : Bool) (u : World) → Asked fd w u → Tidy w (client_write b c fd u)
    at_write false u o = unfold client_write in left u o
    at_write true u o =
        unfold client_write in
        at_read c.read (send_message fd (codes "Hello!") u)
          (record { fds = o.fds; path = o.path; same = o.same })

    at_connect : (b : Bool) → Tidy w (client_connect b c fd v)
    at_connect false = unfold client_connect in left v asked
    at_connect true = unfold client_connect in at_write c.write_ok v asked

tcp_client_lem : (c : Calls) (w : World) → Tidy w (tcp_client c w)
unfolding tcp_client
tcp_client_lem c w = at_socket c.socket
  where
    at_socket : (s : Option ℕ) → Tidy w (client_socket s c w)
    at_socket none =
        unfold client_socket in record { closed = refl; path = refl; unprinted = λ e. refl }
    at_socket (some fd) =
        unfold client_socket in
        client_connect_lem c.connect_ok c fd w (socket_made fd w)
          (record { fds = refl; path = refl; same = refl })

udp_bind_lem :
    (b : Bool) (c : Calls) (fd : ℕ) (w v : World)
    → One fd w v
    → v.file ≡ false
    → Clean w false (udp_bind b c fd v)
unfolding udp_bind
udp_bind_lem false c fd w v o f = record {
  closed = close_one fd v.open_fds w.open_fds o.fds;
  path = f;
  unsent = λ e. o.same;
}
udp_bind_lem true c fd w v o f =
    at_receive c.read (file_made v) (record { fds = o.fds; same = o.same })
  where
    at_reply : (b : Bool) (u : World) → One fd w u → Clean w false (udp_reply b fd u)
    at_reply false u o =
        unfold udp_reply in
        record {
          closed = close_one fd u.open_fds w.open_fds o.fds;
          path = refl;
          unsent = λ e. o.same;
        }
    at_reply true u o =
        unfold udp_reply in
        record {
          closed = close_one fd u.open_fds w.open_fds o.fds;
          path = refl;
          unsent = λ e. absurd (omega arith);
        }

    at_receive : (r : Option Bytes) (u : World) → One fd w u → Clean w false (udp_receive r c fd u)
    at_receive none u o =
        unfold udp_receive in
        record {
          closed = close_one fd u.open_fds w.open_fds o.fds;
          path = refl;
          unsent = λ e. o.same;
        }
    at_receive (some text) u o =
        unfold udp_receive in
        at_reply c.write_ok (print_message text u) (record { fds = o.fds; same = o.same })

-- Where the socket is the first call, its failure leaves an old file.
abbrev pub left_file : Calls → World → Bool
left_file c w = elim c.socket [ none ↦ w.file | some fd ↦ false ]

udp_server_lem : (c : Calls) (w : World) → Clean w (left_file c w) (udp_server c w)
unfolding udp_server
udp_server_lem c w = at_socket c.socket
  where
    at_socket :
        (s : Option ℕ) → Clean w (elim s [ none ↦ w.file | some fd ↦ false ]) (udp_socket s c w)
    at_socket none = unfold udp_socket in record { closed = refl; path = refl; unsent = λ e. refl }
    at_socket (some fd) =
        unfold udp_socket in
        udp_bind_lem c.bind_ok c fd w (unlink_path (socket_made fd w))
          (record { fds = refl; same = refl }) refl

pub programs_lem :
    (c : Calls) (w : World)
    → Clean w false (tcp_server c w)
      × Clean w (left_file c w) (udp_server c w)
      × Tidy w (tcp_client c w)
programs_lem c w = (tcp_server_lem c w, udp_server_lem c w, tcp_client_lem c w)
