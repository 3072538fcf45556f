-- ===== src/Taxi/Dispatcher/Tests.antt =====
-- The dispatcher at concrete inputs: a table in which a pid stands in a dead slot and, behind it,
-- in the slot of a living driver.
use eltex_lessons.Base.{◌≡◌, refl, ◌∙◌, sym, true, false, none, some, [], ◌∷◌, ◌++◌, arith}
use eltex_lessons.Base.Int.{ℤ, pos, ◌+ℤ◌}
use eltex_lessons.Text.{codes}
use eltex_lessons.Taxi.Driver.{idle, answer}
use eltex_lessons.Taxi.Driver.Answers.{task_bytes, busy_until}
use eltex_lessons.Taxi.Dispatcher.{
  Driver, Drivers, wrote, printed, Peers, find_driver, send_task, task_sent, Pipe, in_parent,
  create_driver, cleanup_zombies, World, handle_line,
}
use eltex_lessons.Taxi.Dispatcher.Table.{IsTable, find-cleanup_zombies, Created, create_driver_lem}
use eltex_lessons.Taxi.Dispatcher.Commands.{
  handle_line-IsTable, send_task_driver, send_task_text, handle_line-send_task,
}

abbrev dead_driver : Driver
dead_driver = record { pid = pos 7; write_fd = 4; read_fd = 5; active = false }

abbrev living_driver : Driver
living_driver = record { pid = pos 8; write_fd = 6; read_fd = 9; active = true }

abbrev reborn_driver : Driver
reborn_driver = record { pid = pos 7; write_fd = 10; read_fd = 11; active = true }

abbrev two_drivers : Drivers
two_drivers = dead_driver ∷ living_driver ∷ []

abbrev three_drivers : Drivers
three_drivers = living_driver ∷ dead_driver ∷ reborn_driver ∷ []

two_drivers-IsTable : IsTable two_drivers
unfolding find_driver
two_drivers-IsTable = record { fits = omega arith; unique = (refl, (refl, tt)) }

abbrev pipe_down : Pipe
pipe_down = record { read_end = 20; write_end = 21 }

abbrev pipe_up : Pipe
pipe_up = record { read_end = 22; write_end = 23 }

-- Every driver is available at time 50.
abbrev peers : Peers
peers w r bytes = (answer (pos 0) (pos 50) idle bytes).1

abbrev world : World
world = record {
  dead = pos 8 ∷ [];
  pipes = some (pipe_down, pipe_up);
  fork = in_parent (pos 7);
  peers = peers;
}

find-cleanup_zombies_example :
    find_driver (pos 8) (cleanup_zombies (pos 8 ∷ []) two_drivers).0 ≡ none
find-cleanup_zombies_example =
    find-cleanup_zombies (pos 8 ∷ []) (pos 8) two_drivers two_drivers-IsTable

no_seven : find_driver (pos 7) two_drivers ≡ none
unfolding find_driver
no_seven = refl

create_driver_lem_example :
    Created
      (pos 7)
      pipe_down
      pipe_up
      two_drivers
      (create_driver (some (pipe_down, pipe_up)) (in_parent (pos 7)) two_drivers).0
create_driver_lem_example =
    create_driver_lem (pos 7) pipe_down pipe_up two_drivers two_drivers-IsTable no_seven

no_seven_left :
    (pid : ℤ)
    → world.fork ≡ in_parent pid
    → find_driver pid (cleanup_zombies world.dead two_drivers).0 ≡ none
no_seven_left pid e =
    let same : pos 7 ≡ pid = cc in
    rw (sym same)
      (find-cleanup_zombies (pos 8 ∷ []) (pos 7) two_drivers two_drivers-IsTable ∙ no_seven)

handle_line-IsTable_example :
    IsTable (handle_line world (codes "create_driver" ++ 10 ∷ []) two_drivers).0
handle_line-IsTable_example =
    handle_line-IsTable world (codes "create_driver" ++ 10 ∷ []) two_drivers two_drivers-IsTable
      no_seven_left

found_eight : find_driver (pos 8) two_drivers ≡ some living_driver
unfolding find_driver
found_eight = refl

send_task_driver_example :
    (send_task peers (pos 8) (pos 30) two_drivers
      ≡ wrote 6 (task_bytes (pos 30)) ∷ printed (task_sent (pos 8) (pos 30)) ∷ [])
    × ((answer (pos 0) (pos 50) idle (task_bytes (pos 30))).0 ≡ busy_until (pos 50 +ℤ pos 30))
send_task_driver_example =
    send_task_driver peers (pos 8) (pos 30) (pos 0) (pos 50) idle living_driver two_drivers
      found_eight refl

handle_line-send_task_example :
    let (ds', es) = cleanup_zombies (pos 8 ∷ []) two_drivers in
    handle_line world (send_task_text (pos 7) (pos 30) ++ 10 ∷ []) two_drivers
    ≡ (ds', es ++ send_task peers (pos 7) (pos 30) ds', true)
handle_line-send_task_example = handle_line-send_task world (pos 7) (pos 30) two_drivers
