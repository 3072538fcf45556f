-- ===== src/Taxi/Dispatcher.antt =====
-- The dispatcher process of TaxiManagement/taxi.c: the table of drivers and the commands of the
-- prompt. The table is the array `drivers` up to `driver_count`; the slots behind it hold zeros
-- and are read by no loop. What the system calls return comes in as arguments, and what the
-- process writes, closes, kills and prints goes out as a list of effects. The prompt itself and
-- the banner are left out.
pub mod Table
pub mod Commands
mod Tests
use eltex_lessons.Base.{
  ℕ, zero, suc, ◌+◌, Bool, true, false, ◌&&◌, ◌||◌, Option, none, some, List, [], ◌∷◌, ◌++◌, ltb,
  leb, length, get_or, set, drop, if◌then◌else◌,
}
use eltex_lessons.Base.Int.{ℤ, pos, eq_ℤ}
use eltex_lessons.Text.{Bytes, codes, before, same_text, starts_with}
use eltex_lessons.Text.Decimal.{print_int, scan_int}

-- `Driver`
pub record Driver : Type 0 where
  pub pid : ℤ
  pub write_fd : ℕ
  pub read_fd : ℕ
  pub active : Bool

abbrev pub Drivers : Type 0
Drivers = List Driver

abbrev pub max_drivers : ℕ
max_drivers = 100

-- A slot of the static array that was never written.
abbrev pub zero_driver : Driver
zero_driver = record { pid = pos 0; write_fd = 0; read_fd = 0; active = false }

pub data Effect : Type 0 where
  wrote : ℕ → Bytes → Effect
  closed : ℕ → Effect
  terminated : ℤ → Effect
  printed : Bytes → Effect
  became_driver : ℕ → ℕ → Effect

-- What a driver that was sent a command on the first descriptor replies on the second; `none`
-- where read returns zero or less. The write itself is taken to succeed: that the signal SIGPIPE ends
-- the dispatcher where a driver has closed its end of the pipe, but has not been reaped, is left out.
abbrev pub Peers : Type 0
Peers = ℕ → ℕ → Bytes → Option Bytes

-- The search of `send_command`.
unfoldable pub find_driver : ℤ → Drivers → Option Driver
find_driver pid [] = none
find_driver pid (d ∷ ds) = if eq_ℤ d.pid pid && d.active then some d else find_driver pid ds

-- The return value 0 or -1, and the text in `response`.
pub data Response : Type 0 where
  reply : Bytes → Response
  failure : Bytes → Response

unfoldable pub send_command : Peers → ℤ → Bytes → Drivers → Response × List Effect
send_command peers pid command ds = elim (find_driver pid ds) [
  | none ↦ (failure (codes "Driver " ++ (print_int pid ++ codes " not found")), [])
  | some d ↦ (
    elim (peers d.write_fd d.read_fd (command ++ 0 ∷ [])) [
      | none ↦ failure (codes "Driver " ++ (print_int pid ++ codes " not responding"))
      | some bytes ↦ reply (before 0 bytes)
    ],
    wrote d.write_fd (command ++ 0 ∷ []) ∷ [],
  )
]

abbrev pub task_command : ℤ → Bytes
task_command timer = codes "TASK " ++ print_int timer

abbrev pub task_sent : ℤ → ℤ → Bytes
task_sent pid timer =
    codes "Task sent to driver "
    ++ (print_int pid ++ (codes ", will take " ++ (print_int timer ++ codes " seconds")))

-- What `send_task` prints for a response.
abbrev pub task_report : ℤ → ℤ → Response → Bytes
task_report pid timer (reply text) =
    if starts_with (codes "Busy") text then text else task_sent pid timer
task_report pid timer (failure text) = text

unfoldable pub send_task : Peers → ℤ → ℤ → Drivers → List Effect
send_task peers pid timer ds =
    let (r, es) = send_command peers pid (task_command timer) ds in
    es ++ printed (task_report pid timer r) ∷ []

abbrev pub status_report : ℤ → Response → Bytes
status_report pid (reply text) = codes "Driver " ++ (print_int pid ++ (codes ": " ++ text))
status_report pid (failure text) = text

unfoldable pub get_status : Peers → ℤ → Drivers → List Effect
get_status peers pid ds =
    let (r, es) = send_command peers pid (codes "STATUS") ds in
    es ++ printed (status_report pid r) ∷ []

-- The loop of `get_drivers` over the slots `rest` of the table `ds`.
unfoldable pub get_each : Peers → Drivers → Drivers → List Effect
get_each peers ds [] = []
get_each peers ds (d ∷ rest) =
    (if d.active then get_status peers d.pid ds else []) ++ get_each peers ds rest

unfoldable pub get_drivers : Peers → Drivers → List Effect
get_drivers peers [] = printed (codes "No drivers created") ∷ []
get_drivers peers (d ∷ ds) = get_each peers (d ∷ ds) (d ∷ ds)

-- The first inactive slot.
unfoldable pub free_slot : Drivers → Option ℕ
free_slot [] = none
free_slot (d ∷ ds) =
    if d.active then elim (free_slot ds) [ none ↦ none | some i ↦ some (suc i) ] else some 0

-- The slot that `create_driver` takes, and the table with it: `none` where the table is full.
unfoldable pub take_slot : Drivers → Option (ℕ × Drivers)
take_slot ds = elim (free_slot ds) [
  | some i ↦ some (i, ds)
  | none ↦ if leb max_drivers (length ds) then none else some (length ds, ds ++ zero_driver ∷ [])
]

-- The two ends of a pipe.
pub record Pipe : Type 0 where
  pub read_end : ℕ
  pub write_end : ℕ

pub data Fork : Type 0 where
  fork_failed : Fork
  in_child : Fork
  in_parent : ℤ → Fork

abbrev pub new_driver : ℤ → Pipe → Pipe → Driver
new_driver pid to_child to_parent = record {
  pid = pid;
  write_fd = to_child.write_end;
  read_fd = to_parent.read_end;
  active = true;
}

-- `create_driver` behind the choice of a slot. `none` for the pipes where a call of pipe fails.
unfoldable pub start_driver : Option (Pipe × Pipe) → Fork → ℕ → Drivers → Drivers × List Effect
start_driver none f i ds = (ds, printed (codes "pipe") ∷ [])
start_driver (some (to_child, to_parent)) fork_failed i ds = (ds, printed (codes "fork") ∷ [])
start_driver (some (to_child, to_parent)) in_child i ds = (
  ds,
  closed to_child.write_end
      ∷ closed to_parent.read_end
      ∷ became_driver to_child.read_end to_parent.write_end
      ∷ [],
)
start_driver (some (to_child, to_parent)) (in_parent pid) i ds = (
  set ds i (new_driver pid to_child to_parent),
  closed to_child.read_end
      ∷ closed to_parent.write_end
      ∷ printed (
          codes "Created driver with PID: "
          ++ (print_int pid ++ (codes " (slot " ++ (print_int (pos i) ++ codes ")"))))
      ∷ [],
)

unfoldable pub create_driver : Option (Pipe × Pipe) → Fork → Drivers → Drivers × List Effect
create_driver pipes f ds = elim (take_slot ds) [
  | none ↦ (ds, printed (codes "Maximum number of drivers reached") ∷ [])
  | some (i, ds') ↦ start_driver pipes f i ds'
]

-- The loop of `cleanup_zombies` for one child: the first slot with its pid, whether active or not.
unfoldable pub bury : ℤ → Drivers → Drivers × List Effect
bury pid [] = ([], [])
bury pid (d ∷ ds) =
    let (ds', es) = bury pid ds in
    if eq_ℤ d.pid pid
    then (
      record d { active = false } ∷ ds,
      closed d.write_fd
          ∷ closed d.read_fd
          ∷ printed (codes "Driver " ++ (print_int pid ++ codes " terminated"))
          ∷ [],
    )
    else (d ∷ ds', es)

-- `cleanup_zombies`, for the pids that waitpid returns until it returns zero or less.
unfoldable pub cleanup_zombies : List ℤ → Drivers → Drivers × List Effect
cleanup_zombies [] ds = (ds, [])
cleanup_zombies (pid ∷ pids) ds =
    let (ds', es) = bury pid ds in let (ds'', es') = cleanup_zombies pids ds' in (ds'', es ++ es')

-- The command `exit`: the pipe of each active driver is closed, and the driver is sent SIGTERM.
unfoldable pub shut_down : Drivers → List Effect
shut_down [] = []
shut_down (d ∷ ds) =
    (if d.active then closed d.write_fd ∷ terminated d.pid ∷ [] else []) ++ shut_down ds

-- `sscanf(input, "get_status %d", &pid)` and `sscanf(input, "send_task %d %d", &pid, &timer)`
-- behind the test for the word.
unfoldable pub one_int : Bytes → Option ℤ
one_int s = elim (scan_int s) [ none ↦ none | some (z, rest) ↦ some z ]

unfoldable pub two_ints : Bytes → Option (ℤ × ℤ)
two_ints s = elim (scan_int s) [
  | none ↦ none
  | some (z, rest) ↦ elim (scan_int rest) [ none ↦ none | some (y, rest') ↦ some (z, y) ]
]

-- What the system does while a line is handled.
pub record World : Type 0 where
  pub dead : List ℤ
  pub pipes : Option (Pipe × Pipe)
  pub fork : Fork
  pub peers : Peers

abbrev is_empty : Bytes → Bool
is_empty [] = true
is_empty (c ∷ s) = false

-- The chain of tests of `main` on a line with its newline cut off: the table, the effects, and
-- whether the loop goes on.
unfoldable pub dispatch : World → Bytes → Drivers → Drivers × List Effect × Bool
dispatch w input ds =
    if same_text input (codes "create_driver")
    then (let (ds', es) = create_driver w.pipes w.fork ds in (ds', es, true))
    else if same_text input (codes "get_drivers")
    then (ds, get_drivers w.peers ds, true)
    else if starts_with (codes "send_task") input
    then (elim (two_ints (drop 9 input)) [
      | some (pid, timer) ↦ (ds, send_task w.peers pid timer ds, true)
      | none ↦ (ds, printed (codes "Usage: send_task <pid> <task_timer>") ∷ [], true)
    ])
    else if starts_with (codes "get_status") input
    then (elim (one_int (drop 10 input)) [
      | some pid ↦ (ds, get_status w.peers pid ds, true)
      | none ↦ (ds, printed (codes "Usage: get_status <pid>") ∷ [], true)
    ])
    else if same_text input (codes "exit") || same_text input (codes "quit")
    then (ds, shut_down ds ++ printed (codes "Exiting...") ∷ [], false)
    else if is_empty input
    then (ds, [], true)
    else (ds, printed (codes "Unknown command: " ++ input) ∷ [], true)

-- One round of the loop of `main`, for the line that fgets returns.
unfoldable pub handle_line : World → Bytes → Drivers → Drivers × List Effect × Bool
handle_line w line ds =
    let (ds', es) = cleanup_zombies w.dead ds in
    let (ds'', es', more) = dispatch w (before 10 line) ds' in (ds'', es ++ es', more)
