-- ===== src/Echo/Client/Session.antt =====
-- A client and the server together, from the first message to the sign-off.
use eltex_lessons.Base.{
  ℕ, zero, suc, ◌+◌, ◌-◌, ◌≡◌, ◌≢◌, ◌<◌, refl, ◌∙◌, ap, Bool, true, false, Option, none, some, List,
  [], ◌∷◌, ◌++◌, arith, leb, All, length, take, map, if◌then◌else◌,
}
use eltex_lessons.Base.Int.{pos}
use eltex_lessons.Text.{Bytes, codes, before, same_text, Without, before_of_Without}
use eltex_lessons.Text.Decimal.{print_int}
use eltex_lessons.Text.Terminated.{before-append_stop, Without-append, print_int-Without}
use eltex_lessons.Echo.Server.{
  History, max_history, buffer_size, datagram, client_shutdown, server_shutdown, numbered, handle,
}
use eltex_lessons.Echo.Server.History.{next_number, same_address, IsHistory}
use eltex_lessons.Echo.Server.Numbers.{is_shutdown, expected_reply, number_after, handle_lem}
use eltex_lessons.Echo.Client.{
  End, exited, again, over, Received, bytes, receive, send_line, chat, first_reply, server_net,
}

-- A text that the client sends as a message, and that the server answers.
pub record IsMessage (t : Bytes) : Type 0 where
  pub filled : t ≢ []
  pub no_nul : Without 0 t
  pub no_newline : Without 10 t
  pub no_exit : same_text t (codes "exit") ≡ false
  pub no_shutdown : same_text t client_shutdown ≡ false

-- The number that the next message of an address gets.
abbrev pub next_message : ℕ → ℕ → History → Option ℕ
next_message ip port h = elim (next_number ip port h) [
  | some n ↦ some n
  | none ↦ if leb max_history (length h) then none else some 1
]

-- A line as fgets reads it.
abbrev pub typed : Bytes → Bytes
typed t = t ++ 10 ∷ []

-- The messages with their numbers.
abbrev pub numbered_from : ℕ → List Bytes → List Bytes
numbered_from n [] = []
numbered_from n (t ∷ ts) = numbered t n ∷ numbered_from (n + 1) ts

Without-take : (stop k : ℕ) (s : Bytes) → Without stop s → Without stop (take k s)
Without-take stop zero s h = tt
Without-take stop (suc k) [] h = tt
Without-take stop (suc k) (c ∷ s) h = (h.0, Without-take stop k s h.1)

-- A text with a space, even if cut, is no shorter text without one.
spaced :
    (k : ℕ) (t r s : Bytes)
    → length s < k
    → Without 32 s
    → same_text (take k (t ++ 32 ∷ r)) s ≡ false
unfolding same_text
spaced zero t r s lt h = absurd (omega arith)
spaced (suc k) [] r [] lt h = refl
spaced (suc k) [] r (d ∷ s) lt h = ground arith
spaced (suc k) (c ∷ t) r [] lt h = refl
spaced (suc k) (c ∷ t) r (d ∷ s) lt h = ground (arith, spaced k t r s)

spaceless : Without 32 server_shutdown
spaceless = ground arith

receive-numbered :
    (t : Bytes) (n : ℕ) → Without 0 t → receive (bytes (numbered t n)) ≡ again (numbered t n ∷ [])
unfolding receive numbered
receive-numbered t n h =
    let whole : Without 0 (t ++ 32 ∷ print_int (pos n)) =
      Without-append 0 t (32 ∷ print_int (pos n)) h (refl, print_int-Without (pos n)) in
    let clean : before 0 (numbered t n) ≡ numbered t n =
      before_of_Without 0 (numbered t n)
        (Without-take 0 (buffer_size - 1) (t ++ 32 ∷ print_int (pos n)) whole) in
    let other : same_text (numbered t n) server_shutdown ≡ false =
      spaced (buffer_size - 1) t (print_int (pos n)) server_shutdown (omega arith) spaceless in
    rw (clean, other) refl

no_sign_off : (ip port : ℕ) (t : Bytes) → IsMessage t → is_shutdown (datagram ip port t) ≡ false
no_sign_off ip port t m = rw (before_of_Without 0 t m.no_nul) m.no_shutdown

reply-numbered :
    (ip port n : ℕ) (t : Bytes) (h : History)
    → next_message ip port h ≡ some n
    → IsMessage t
    → expected_reply (datagram ip port t) h ≡ datagram ip port (numbered t n) ∷ []
reply-numbered ip port n t h known m =
    rw (no_sign_off ip port t m) (ground (arith, known, before_of_Without 0 t m.no_nul))

number_up :
    (ip port n : ℕ) (t : Bytes) (h : History)
    → next_message ip port h ≡ some n
    → IsMessage t
    → number_after (datagram ip port t) h ≡ some (n + 1)
number_up ip port n t h known m = rw (no_sign_off ip port t m) (ground (arith, known))

send_line-message :
    {S : Type 0}
    → (net : Bytes → S → S × Received) (t : Bytes) (s : S) → IsMessage t
    → send_line net (typed t) s ≡ ((net t s).0, receive (net t s).1)
unfolding send_line
send_line-message net [] s m = absurd (m.filled refl)
send_line-message net (c ∷ t) s m =
    rw (before-append_stop 10 (c ∷ t) [] m.no_newline) (rw m.no_exit refl)

step_message :
    (ip port n : ℕ) (t : Bytes) (h : History)
    → IsHistory h
    → next_message ip port h ≡ some n
    → IsMessage t
    → send_line (server_net ip port) (typed t) h
      ≡ ((handle (datagram ip port t) h).0, again (numbered t n ∷ []))
unfolding first_reply
step_message ip port n t h v known m =
    send_line-message (server_net ip port) t h m
    ∙ ap (λ out. ((handle (datagram ip port t) h).0, receive (first_reply out)))
        ((handle_lem (datagram ip port t) h v).replies ∙ reply-numbered ip port n t h known m)
    ∙ ap (λ turn. ((handle (datagram ip port t) h).0, turn)) (receive-numbered t n m.no_nul)

chat_again :
    {S : Type 0}
    → (net : Bytes → S → S × Received) (line : Bytes) (lines shown : List Bytes) (s s' : S)
    → send_line net line s ≡ (s', again shown)
    → chat net (line ∷ lines) s
      ≡ ((chat net lines s').0, shown ++ (chat net lines s').1, (chat net lines s').2)
unfolding chat
chat_again net line lines shown s s' e =
    let left : (send_line net line s).0 ≡ s' = ap (λ r. r.0) e in
    let right : (send_line net line s).1 ≡ again shown = ap (λ r. r.1) e in
    rw (right, chat) (rw left refl)

chat_over :
    {S : Type 0}
    → (net : Bytes → S → S × Received) (line : Bytes) (lines : List Bytes) (s s' : S) (end : End)
    → send_line net line s ≡ (s', over end)
    → chat net (line ∷ lines) s ≡ (s', [], end)
unfolding chat
chat_over net line lines s s' end e =
    let left : (send_line net line s).0 ≡ s' = ap (λ r. r.0) e in
    let right : (send_line net line s).1 ≡ over end = ap (λ r. r.1) e in
    rw (right, chat) (rw left refl)

send_line_exit :
    {S : Type 0}
    → (net : Bytes → S → S × Received) (s : S)
    → send_line net (typed (codes "exit")) s ≡ ((net client_shutdown s).0, over exited)
unfolding send_line before same_text
send_line_exit net s = refl

signs_off : (ip port : ℕ) → is_shutdown (datagram ip port client_shutdown) ≡ true
unfolding before same_text
signs_off ip port = refl

forgotten : (ip port : ℕ) (h : History) → number_after (datagram ip port client_shutdown) h ≡ none
forgotten ip port h = rw (signs_off ip port) refl

known_after :
    (ip port n : ℕ) (h : History) → next_number ip port h ≡ some n → next_message ip port h ≡ some n
known_after ip port n h e = rw (e, next_message) refl

same_address_refl : (ip port : ℕ) → same_address ip port ip port ≡ true
same_address_refl ip port = ground arith

visited_step :
    (same : Bool) (a b c : Option ℕ)
    → b ≡ (if same then a else c)
    → (if same then none else b) ≡ (if same then none else c)
visited_step true a b c e = refl
visited_step false a b c e = e

-- The table after a whole visit.
pub record Visited (ip port : ℕ) (h h' : History) : Type 0 where
  pub valid : IsHistory h'
  pub numbers :
      (ip' port' : ℕ)
      → next_number ip' port' h'
        ≡ (if same_address ip port ip' port' then none else next_number ip' port' h)

-- A user types messages and then "exit", at an address that is known to the server or that it has
-- room for. The client shows each message with its number, from the number that is next and
-- counting on, and ends; the server has forgotten the address and its table is otherwise as before.
pub chat_lem :
    (ts : List Bytes) (ip port n : ℕ) (h : History)
    → IsHistory h
    → next_message ip port h ≡ some n
    → All IsMessage ts
    → (h' : History) × (chat (server_net ip port) (map typed ts ++ typed (codes "exit") ∷ []) h
        ≡ (h', numbered_from n ts, exited))
      × Visited ip port h h'
chat_lem [] ip port n h v known hs =
    let d = datagram ip port client_shutdown in
    let r = handle_lem d h v in
    (
      (handle d h).0,
      chat_over (server_net ip port) (typed (codes "exit")) [] h (handle d h).0 exited
          (send_line_exit (server_net ip port) h),
      record {
        valid = r.valid;
        numbers = λ ip' port'. r.numbers ip' port' ∙ rw (forgotten ip port h) refl;
      },
    )
chat_lem (t ∷ ts) ip port n h v known hs =
    let d = datagram ip port t in
    let r = handle_lem d h v in
    let next : next_message ip port (handle d h).0 ≡ some (n + 1) =
      known_after ip port (n + 1) (handle d h).0
        (r.numbers ip port ∙ rw (same_address_refl ip port) (number_up ip port n t h known hs.0)) in
    let (h', e, w) = chat_lem ts ip port (n + 1) (handle d h).0 r.valid next hs.1 in
    let step = step_message ip port n t h v known hs.0 in
    (
      h',
      chat_again (server_net ip port) (typed t) (map typed ts ++ typed (codes "exit") ∷ [])
            (numbered t n ∷ []) h (handle d h).0 step
          ∙ ap (λ r. (r.0, numbered t n ∷ r.1, r.2)) e,
      record {
        valid = w.valid;
        numbers = λ ip' port'.
            w.numbers ip' port'
            ∙ visited_step (same_address ip port ip' port') _ _ _ (r.numbers ip' port');
      },
    )
