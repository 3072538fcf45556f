-- ===== src/Services/Trio/Tests.antt =====
-- Three clients, with a failed accept and a failed thread in between, and a fourth that comes late.
use eltex_lessons.Base.{refl, List, [], ◌∷◌}
use eltex_lessons.Services.Trio.{Visit, no_client, no_thread, client, start}
use eltex_lessons.Services.Trio.Visits.{Ended, main_loop_lem}

abbrev visits : List Visit
visits = client 5 100 ∷ no_client ∷ client 6 101 ∷ no_thread 7 ∷ client 8 102 ∷ client 9 103 ∷ []

main_loop_lem_example : Ended visits start ((5, 100) ∷ (6, 101) ∷ (8, 102) ∷ [])
main_loop_lem_example = main_loop_lem visits (5, 100) (6, 101) (8, 102) ((9, 103) ∷ []) refl
