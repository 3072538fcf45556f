-- ===== src/Services/Visitor/Tests.antt =====
-- The clients of SocketsSS at concrete runs: the first server is busy, and the second is free.
use eltex_lessons.Base.{◌≡◌, refl, some, [], ◌∷◌}
use eltex_lessons.Base.Int.{pos}
use eltex_lessons.Text.{codes}
use eltex_lessons.Services.Lending.{looking, Desk}
use eltex_lessons.Services.Clock.{handle_tcp_client, handle_udp_client}
use eltex_lessons.Services.Trio
use eltex_lessons.Services.Visitor.{
  one_client, three_client, four_tcp_client, four_udp_client, told, answered,
}
use eltex_lessons.Services.Visitor.Agreement.{Dismissed, settle, two_client_lem}
use eltex_lessons.Services.Visitor.Times.{one_thread, three_thread, clock_sent, told_time}

abbrev asking : Desk
asking = record {
  servers =
      record { port = 10101; is_busy = 1; guests = 1 }
      ∷ record { port = 10102; is_busy = 0; guests = 0 }
      ∷ [];
  search = looking 7 0;
  effects = [];
}

two_client_lem_example : Dismissed 7 9 (codes "12:00") asking.servers asking (settle 3 7 asking)
two_client_lem_example =
    two_client_lem 7 9 (codes "12:00") asking (refl, (refl, (refl, (refl, (refl, tt))))) refl

told_time_example :
    (one_client (some (Trio.endpoint 10900)) (one_thread 10900 3 4 (codes "now"))
      ≡ some (told (codes "now")))
    × (three_client (some (three_thread 4 (5, 6) (codes "now"))) ≡ told (codes "now"))
    × (four_tcp_client
          (some (λ request. clock_sent (handle_tcp_client (pos 7) (some request) (codes "now"))))
        ≡ answered (codes "now"))
    × (four_udp_client
          (λ request. clock_sent (handle_udp_client (some ((5, 6), request)) (codes "now")))
        ≡ answered (codes "now"))
told_time_example = told_time 10900 3 4 (pos 7) (5, 6) b'n' (codes "ow") (refl, (refl, (refl, tt)))
