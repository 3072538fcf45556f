-- ===== src/LocalSockets/Internet/Datagrams.antt =====
-- Sockets/UDP_afinet and the client of Sockets/UDP_local clean up, whatever fails.
use eltex_lessons.Base.{
  ℕ, ◌≤◌, ◌≡◌, refl, Bool, true, false, Option, none, some, ◌∷◌, arith, length, Bool-cases, inl,
  inr,
}
use eltex_lessons.Text.{Bytes, codes, before}
use eltex_lessons.LocalSockets.{
  World, Calls, socket_made, close_socket, file_made, unlink_path, print_message, send_message,
}
use eltex_lessons.LocalSockets.Cleanup.{close_one}
use eltex_lessons.LocalSockets.Internet.{
  buffer_length, send_if_ok, ends_inside, inet_receive, inet_udp_bind, inet_udp_server, inet_reply,
  inet_udp_client, local_reply, local_send, local_bind, udp_client,
}
use eltex_lessons.LocalSockets.Internet.Closing.{
  Closed, ClosedOr, send_fds, send_file, send_printed, failed_end,
}

too_long : (text : Bytes) → ends_inside text ≡ false → buffer_length ≤ length (before 0 text)
unfolding ends_inside
too_long text e = ground arith

inet_receive_lem :
    (r : Option Bytes) (c : Calls) (fd : ℕ) (w : World)
    → c.read ≡ r
    → ClosedOr c w (inet_receive r c fd (socket_made fd w))
unfolding inet_receive
inet_receive_lem none c fd w e = failed_end fd w (socket_made fd w) refl refl
inet_receive_lem (some text) c fd w e = elim (Bool-cases (ends_inside text)) [
  | inl fits ↦
      let got = print_message text (socket_made fd w) in
      let said = send_if_ok c.write_ok fd (codes "Hi!") got in
      rw fits (record {
        closed = close_one fd said.open_fds w.open_fds (send_fds c.write_ok fd (codes "Hi!") got);
        path = send_file c.write_ok fd (codes "Hi!") got;
        unprinted = λ k. absurd (omega arith);
      })
  | inr long ↦ rw long (text, e, too_long text long)
]

pub inet_udp_server_lem :
    (s : Option ℕ) (c : Calls) (w : World) → ClosedOr c w (inet_udp_server s c w)
unfolding inet_udp_server
inet_udp_server_lem none c w = record { closed = refl; path = refl; unprinted = λ e. refl }
inet_udp_server_lem (some fd) c w = at_bind c.bind_ok
  where
    at_bind : (b : Bool) → ClosedOr c w (inet_udp_bind b c fd (socket_made fd w))
    at_bind false = unfold inet_udp_bind in failed_end fd w (socket_made fd w) refl refl
    at_bind true = unfold inet_udp_bind in inet_receive_lem c.read c fd w refl

inet_reply_lem :
    (r : Option Bytes) (c : Calls) (fd : ℕ) (w u : World)
    → c.read ≡ r
    → u.open_fds ≡ fd ∷ w.open_fds
    → u.file ≡ w.file
    → u.printed ≡ w.printed
    → ClosedOr c w (inet_reply r fd u)
unfolding inet_reply
inet_reply_lem none c fd w u e fds file same = record {
  closed = close_one fd u.open_fds w.open_fds fds;
  path = file;
  unprinted = λ k. same;
}
inet_reply_lem (some text) c fd w u e fds file same = elim (Bool-cases (ends_inside text)) [
  | inl fits ↦ rw fits (record {
    closed = close_one fd u.open_fds w.open_fds fds;
    path = file;
    unprinted = λ k. absurd (omega arith);
  })
  | inr long ↦ rw long (text, e, too_long text long)
]

pub inet_udp_client_lem :
    (s : Option ℕ) (c : Calls) (w : World) → ClosedOr c w (inet_udp_client s c w)
unfolding inet_udp_client
inet_udp_client_lem none c w = record { closed = refl; path = refl; unprinted = λ e. refl }
inet_udp_client_lem (some fd) c w =
    let made = socket_made fd w in
    inet_reply_lem c.read c fd w (send_if_ok c.write_ok fd (codes "Hello!") made) refl
      (send_fds c.write_ok fd (codes "Hello!") made) (send_file c.write_ok fd (codes "Hello!") made)
      (send_printed c.write_ok fd (codes "Hello!") made)

-- A client of UDP_local leaves no socket file of its own, unless it gets no socket.
abbrev pub own_file : Option ℕ → World → Bool
own_file none w = w.file
own_file (some fd) w = false

pub udp_client_lem :
    (s : Option ℕ) (c : Calls) (w : World) → Closed (own_file s w) w (udp_client s c w)
unfolding udp_client
udp_client_lem none c w = record { closed = refl; path = refl; unprinted = λ e. refl }
udp_client_lem (some fd) c w = at_bind c.bind_ok
  where
    made : World
    made = unlink_path (socket_made fd w)

    at_end :
        (u : World) (k : ℕ)
        → u.open_fds ≡ fd ∷ w.open_fds
        → (k ≡ 1 → u.printed ≡ w.printed)
        → Closed false w (unlink_path (close_socket fd u), k)
    at_end u k fds same = record {
      closed = close_one fd u.open_fds w.open_fds fds;
      path = refl;
      unprinted = same;
    }

    at_reply :
        (r : Option Bytes)
        → Closed false w (local_reply r fd (send_message fd (codes "Hello!") (file_made made)))
    at_reply none =
        unfold local_reply in
        at_end (send_message fd (codes "Hello!") (file_made made)) 1 refl (λ e. refl)
    at_reply (some text) =
        unfold local_reply in
        at_end (print_message text (send_message fd (codes "Hello!") (file_made made))) 0 refl
          (λ e. absurd (omega arith))

    at_send : (b : Bool) → Closed false w (local_send b c fd (file_made made))
    at_send false = unfold local_send in at_end (file_made made) 1 refl (λ e. refl)
    at_send true = unfold local_send in at_reply c.read

    at_bind : (b : Bool) → Closed false w (local_bind b c fd made)
    at_bind false = unfold local_bind in failed_end fd w made refl refl
    at_bind true = unfold local_bind in at_send c.write_ok
