-- ===== src/Services/Pool/System/Tests.antt =====
-- The serving threads at concrete inputs.
use eltex_lessons.Base.{◌≡◌, refl, none, some, [], ◌∷◌}
use eltex_lessons.Text.{codes}
use eltex_lessons.Services.Pool.{Item, dequeue_client, Stage, taking, claim}
use eltex_lessons.Services.Pool.System.{
  System, start, accept_client, stage_step, thread_step, Reach, begin, accepts, steps,
}
use eltex_lessons.Services.Pool.System.Invariant.{IsPool, Reach-IsPool}

abbrev client : Item
client = record { client_fd = 4; client_addr = (5, 6); message = codes "TIME" }

-- The first thread has passed its test, and no client has come.
abbrev claimed : System
claimed = record start {
  servers =
      record { port = 10101; is_busy = 1; stage = taking }
      ∷ record { port = 10102; is_busy = 0; stage = Stage.waiting }
      ∷ record { port = 10103; is_busy = 0; stage = Stage.waiting }
      ∷ [];
}

claimed_step : thread_step [] 0 start ≡ some claimed
unfolding thread_step stage_step claim
claimed_step = refl

claimed-Reach : Reach claimed
claimed-Reach = steps begin [] 0 claimed_step

claimed_waits : thread_step [] 0 claimed ≡ none
unfolding thread_step stage_step dequeue_client
claimed_waits = refl

Reach-IsPool_example : IsPool (accept_client client claimed)
Reach-IsPool_example = Reach-IsPool (accepts claimed-Reach client)
