-- ===== src/Services/Visitor/Times.antt =====
-- SocketsSS: the clients of TaskOne, TaskThree and TaskFour with the threads and handlers that
-- answer them.
use eltex_lessons.Base.{
  ℕ, ◌≡◌, refl, ◌∙◌, ap, ◌&&◌, Option, none, some, List, [], ◌∷◌, if◌then◌else◌,
}
use eltex_lessons.Base.Int.{ℤ, pos, eq_ℤ, eq_ℤ_refl}
use eltex_lessons.Text.{
  Bytes, codes, before, same_text, same_text_refl, starts_with, Without, before_of_Without,
}
use eltex_lessons.Services.Trio.{
  Action, replied, hung_up, freed_args, accepted, service_server_thread,
}
use eltex_lessons.Services.Trio
use eltex_lessons.Services.Pool.{Item, serve_client}
use eltex_lessons.Services.Pool
use eltex_lessons.Services.Clock.{handle_tcp_client, handle_udp_client, asks_time}
use eltex_lessons.Services.Clock
use eltex_lessons.Services.Visitor.{
  told, Service, Connect, ask, call_service, one_client, three_client, answered, read_answer,
  four_tcp_client, four_udp_client,
}
use eltex_lessons.Services.Visitor.Told.{local_ip, endpoint-Without, visit_endpoint}

-- What a thread of TaskOne replies first.
abbrev replied_text : List Action → Bytes
replied_text [] = []
replied_text (replied fd text ∷ acts) = text
replied_text (hung_up fd ∷ acts) = replied_text acts
replied_text (freed_args ∷ acts) = replied_text acts

abbrev one_service : ℕ → ℕ → Bytes → Service
one_service fd client_fd time request =
    replied_text (service_server_thread (accepted fd client_fd request) time)

-- The thread of TaskOne that listens at `port`.
abbrev pub one_thread : ℕ → ℕ → ℕ → Bytes → Connect
one_thread port fd client_fd time ip p =
    if same_text ip local_ip && eq_ℤ p (pos port)
    then some (one_service fd client_fd time)
    else none

abbrev pool_sent : List Pool.Effect → Bytes
pool_sent [] = []
pool_sent (Pool.sent fd text ∷ es) = text
pool_sent (Pool.closed fd ∷ es) = pool_sent es

-- A thread of TaskThree, for the client with the descriptor and the address.
abbrev pub three_thread : ℕ → ℕ × ℕ → Bytes → Service
three_thread fd addr time request =
    pool_sent (serve_client time (record { client_fd = fd; client_addr = addr; message = request }))

abbrev pub clock_sent : List Clock.Effect → Option Bytes
clock_sent [] = none
clock_sent (Clock.wrote fd text ∷ es) = some text
clock_sent (Clock.closed fd ∷ es) = clock_sent es
clock_sent (Clock.sent_to a text ∷ es) = some text

one_service_time :
    (fd client_fd : ℕ) (time : Bytes) → one_service fd client_fd time (codes "TIME") ≡ time
unfolding service_server_thread before starts_with
one_service_time fd client_fd time = refl

one_told :
    (port fd client_fd : ℕ) (time : Bytes)
    → Without 0 time
    → one_client (some (Trio.endpoint port)) (one_thread port fd client_fd time) ≡ some (told time)
unfolding one_client
one_told port fd client_fd time clean =
    let connect = one_thread port fd client_fd time in
    ap (call_service connect) (before_of_Without 0 (Trio.endpoint port) (endpoint-Without port))
    ∙ visit_endpoint connect port
    ∙ ap
        (λ b. some (
          ask (codes "TIME") (
            if b && eq_ℤ (pos port) (pos port)
            then some (one_service fd client_fd time)
            else none)))
        (same_text_refl local_ip)
    ∙ ap (λ b. some (ask (codes "TIME") (if b then some (one_service fd client_fd time) else none)))
        (eq_ℤ_refl (pos port))
    ∙ ap (λ t. some (told (before 0 t))) (one_service_time fd client_fd time)
    ∙ ap (λ t. some (told t)) (before_of_Without 0 time clean)

three_told :
    (fd : ℕ) (addr : ℕ × ℕ) (time : Bytes)
    → Without 0 time
    → three_client (some (three_thread fd addr time)) ≡ told time
unfolding serve_client starts_with
three_told fd addr time clean = ap told (before_of_Without 0 time clean)

four_told :
    (fd : ℤ) (c : ℕ) (time : Bytes)
    → Without 0 (c ∷ time)
    → four_tcp_client
        (some (λ request. clock_sent (handle_tcp_client fd (some request) (c ∷ time))))
      ≡ answered (c ∷ time)
unfolding four_tcp_client read_answer handle_tcp_client asks_time before same_text
four_told fd c time clean = ap answered (before_of_Without 0 (c ∷ time) clean)

four_udp_told :
    (from : ℕ × ℕ) (c : ℕ) (time : Bytes)
    → Without 0 (c ∷ time)
    → four_udp_client (λ request. clock_sent (handle_udp_client (some (from, request)) (c ∷ time)))
      ≡ answered (c ∷ time)
unfolding four_udp_client read_answer handle_udp_client asks_time before same_text
four_udp_told from c time clean = ap answered (before_of_Without 0 (c ∷ time) clean)

-- The clients of TaskOne, TaskThree and TaskFour (over TCP and over UDP) are told the time that
-- the thread or the handler of their server sends, for every port, descriptor and address, where
-- the time is a text that is not empty: the client of TaskOne finds the thread at the port that
-- the main server sent it.
pub told_time :
    (port fd client_fd : ℕ) (conn : ℤ) (from : ℕ × ℕ) (c : ℕ) (time : Bytes)
    → Without 0 (c ∷ time)
    → (one_client (some (Trio.endpoint port)) (one_thread port fd client_fd (c ∷ time))
        ≡ some (told (c ∷ time)))
      × (three_client (some (three_thread client_fd from (c ∷ time))) ≡ told (c ∷ time))
      × (four_tcp_client
            (some (λ request. clock_sent (handle_tcp_client conn (some request) (c ∷ time))))
          ≡ answered (c ∷ time))
      × (four_udp_client
            (λ request. clock_sent (handle_udp_client (some (from, request)) (c ∷ time)))
          ≡ answered (c ∷ time))
told_time port fd client_fd conn from c time clean = (
  one_told port fd client_fd (c ∷ time) clean,
  three_told client_fd from (c ∷ time) clean,
  four_told conn c time clean,
  four_udp_told from c time clean,
)
