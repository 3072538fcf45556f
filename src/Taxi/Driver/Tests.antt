-- ===== src/Taxi/Driver/Tests.antt =====
-- The driver process at concrete inputs.
use eltex_lessons.Base.{◌≡◌, refl, some, List, [], ◌∷◌, ◌++◌, arith, All}
use eltex_lessons.Base.Int.{ℤ, pos, ◌+ℤ◌, ◌-ℤ◌, ◌<ℤ◌}
use eltex_lessons.Text.{codes, starts_with, before}
use eltex_lessons.Taxi.Driver.{Wakeup, message, timed_out, prepare, run}
use eltex_lessons.Taxi.Driver.Answers.{task_bytes, busy_until}
use eltex_lessons.Taxi.Driver.Schedule.{
  IsEarly, Ending, timeout, busy_lines, free_lines, run_accepted,
}

-- A query and an order that reach a driver before its task ends at 100.
abbrev early_messages : List (ℤ × Wakeup)
early_messages =
    (pos 90, message (pos 90) (codes "STATUS" ++ 0 ∷ []))
    ∷ (pos 91, message (pos 95) (task_bytes (pos 5)))
    ∷ []

early_messages-IsEarly : All (IsEarly (pos 100)) early_messages
early_messages-IsEarly = omega arith

-- The timeout passes at the end, and a query comes before the next order.
abbrev later : List (ℤ × Wakeup)
later = (pos 96, timed_out) ∷ (pos 100, message (pos 101) (codes "STATUS" ++ 0 ∷ [])) ∷ []

later-Ending : Ending (pos 100) later (pos 102)
unfolding starts_with before
later-Ending = timeout (pos 96) (omega arith) (refl, tt)

run_accepted_example :
    (run
        (pos 0)
        (busy_until (pos 100))
        (early_messages ++ (later ++ (pos 102, message (pos 103) (task_bytes (pos 7))) ∷ []))
      ≡ some (
        busy_until (pos 103 +ℤ pos 7),
        busy_lines (pos 100) early_messages ++ (free_lines later ++ (codes "OK" ++ 0 ∷ []) ∷ []),
      ))
    × ((n : ℤ)
        → n <ℤ pos 100
        → prepare n (busy_until (pos 100)) ≡ (busy_until (pos 100), some (pos 100 -ℤ n)))
run_accepted_example =
    run_accepted (pos 0) (pos 100) (pos 102) (pos 103) (pos 7) early_messages later
      early_messages-IsEarly later-Ending
