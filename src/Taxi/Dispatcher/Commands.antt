-- ===== src/Taxi/Dispatcher/Commands.antt =====
-- The commands of the prompt: what they do to the table, and what a driver at the other end of
-- the pipes makes of them.
use eltex_lessons.Base.{
  ◌≡◌, refl, ◌∙◌, true, none, some, [], ◌∷◌, ◌++◌, arith, if◌then◌else◌, ◌==◌, Bool-cases, inl, inr,
}
use eltex_lessons.Base.Int.{ℤ, ◌+ℤ◌}
use eltex_lessons.Text.{Bytes, codes, Without, before, same_text, starts_with}
use eltex_lessons.Text.Decimal.{print_int, scan_int_space, scan_int_last, scan_int-print_int}
use eltex_lessons.Text.Terminated.{
  print_int-Without, print_int-Without_of_lt, Without-append, before-append, before-append_stop,
}
use eltex_lessons.Taxi.Driver.{Worker, answer, busy_reply, seconds_left, ok_reply}
use eltex_lessons.Taxi.Driver.Answers.{answer_task, busy_until, task_bytes}
use eltex_lessons.Taxi.Dispatcher.{
  Driver, Drivers, wrote, printed, Peers, find_driver, send_command, send_task, task_command,
  task_sent, task_report, reply, World, in_parent, create_driver, cleanup_zombies, two_ints,
  dispatch, handle_line,
}
use eltex_lessons.Taxi.Dispatcher.Table.{IsTable, cleanup_zombies-IsTable, create_driver-IsTable}

dispatch_table :
    (w : World) (input : Bytes) (ds : Drivers)
    → (dispatch w input ds).0 ≡ (
        if same_text input (codes "create_driver") then (create_driver w.pipes w.fork ds).0 else ds)
unfolding dispatch
dispatch_table w input ds = ground arith

-- Each round of the prompt keeps the table: at most 100 slots, and no active driver behind a
-- slot with the same pid. The system must not give a new child the pid of a driver that is in
-- the table as active after the cleanup.
pub handle_line-IsTable :
    (w : World) (line : Bytes) (ds : Drivers)
    → IsTable ds
    → ((pid : ℤ) → w.fork ≡ in_parent pid → find_driver pid (cleanup_zombies w.dead ds).0 ≡ none)
    → IsTable (handle_line w line ds).0
unfolding handle_line
handle_line-IsTable w line ds h fresh =
    let ds' = (cleanup_zombies w.dead ds).0 in
    let clean = cleanup_zombies-IsTable w.dead ds h in
    rw (dispatch_table w (before 10 line) ds')
      (elim (Bool-cases (same_text (before 10 line) (codes "create_driver"))) [
        | inl found ↦ rw found (create_driver-IsTable w.pipes w.fork ds' clean fresh)
        | inr other ↦ rw other clean
      ])

-- The texts that a driver replies with, as the dispatcher reads them.
busy_text :
    (now : ℤ) (w : Worker)
    → before 0 (busy_reply now w) ≡ codes "Busy " ++ print_int (seconds_left now w)
unfolding busy_reply
busy_text now w = before-append (codes "Busy " ++ print_int (seconds_left now w)) [] (
    Without-append 0 (codes "Busy ") _ (refl, (refl, (refl, (refl, (refl, tt)))))
      (print_int-Without (seconds_left now w)))

task_report-busy :
    (pid timer z : ℤ) (text : Bytes)
    → text ≡ codes "Busy " ++ print_int z
    → task_report pid timer (reply text) ≡ text
unfolding starts_with
task_report-busy pid timer z text e = rw e

task_report-ok :
    (pid timer : ℤ) → task_report pid timer (reply (before 0 ok_reply)) ≡ task_sent pid timer
unfolding starts_with before
task_report-ok pid timer = refl

send_command_reply :
    (peers : Peers) (pid : ℤ) (command : Bytes) (d : Driver) (ds : Drivers) (bytes : Bytes)
    → find_driver pid ds ≡ some d
    → peers d.write_fd d.read_fd (command ++ 0 ∷ []) ≡ some bytes
    → send_command peers pid command ds
      ≡ (reply (before 0 bytes), wrote d.write_fd (command ++ 0 ∷ []) ∷ [])
unfolding send_command
send_command_reply peers pid command d ds bytes found link =
    rw (found, send_command) (rw (link, send_command))

send_task_reply :
    (peers : Peers) (pid timer : ℤ) (d : Driver) (ds : Drivers) (bytes : Bytes)
    → find_driver pid ds ≡ some d
    → peers d.write_fd d.read_fd (task_bytes timer) ≡ some bytes
    → send_task peers pid timer ds
      ≡ wrote d.write_fd (task_bytes timer)
        ∷ printed (task_report pid timer (reply (before 0 bytes)))
        ∷ []
unfolding send_task
send_task_reply peers pid timer d ds bytes found link =
    rw (send_command_reply peers pid (task_command timer) d ds bytes found link, send_task)

-- An order for a driver in the table, whose process is `w` when the command reaches it: the
-- dispatcher says that the task is sent exactly when the driver was available, and then the
-- driver is busy for as long as was ordered; otherwise it prints the time that is left.
pub send_task_driver :
    (peers : Peers) (pid timer old now : ℤ) (w : Worker) (d : Driver) (ds : Drivers)
    → find_driver pid ds ≡ some d
    → peers d.write_fd d.read_fd (task_bytes timer) ≡ (answer old now w (task_bytes timer)).1
    → (send_task peers pid timer ds
        ≡ wrote d.write_fd (task_bytes timer)
          ∷ printed (
              if w.status == 0
              then task_sent pid timer
              else codes "Busy " ++ print_int (seconds_left now w))
          ∷ [])
      × ((answer old now w (task_bytes timer)).0
          ≡ (if w.status == 0 then busy_until (now +ℤ timer) else w))
send_task_driver peers pid timer old now w d ds found link = elim (Bool-cases (w.status == 0)) [
  | inl free ↦
      let e = rw (answer_task old now timer w, free) at link in
      (
        rw free
            (send_task_reply peers pid timer d ds ok_reply found e ∙ rw (task_report-ok pid timer)),
        rw (answer_task old now timer w, free),
      )
  | inr busy ↦
      let e = rw (answer_task old now timer w, busy) at link in
      (
        rw busy (
            send_task_reply peers pid timer d ds (busy_reply now w) found e
            ∙ rw (
              task_report-busy pid timer (seconds_left now w) _ (busy_text now w),
              busy_text now w,
            )),
        rw (answer_task old now timer w, busy),
      )
]

-- The line that orders a drive, as it is typed.
abbrev pub send_task_text : ℤ → ℤ → Bytes
send_task_text pid timer = codes "send_task " ++ (print_int pid ++ (32 ∷ print_int timer))

send_task_text-Without : (pid timer : ℤ) → Without 10 (send_task_text pid timer)
send_task_text-Without pid timer = (
  refl,
  (
    refl,
    (
      refl,
      (
        refl,
        (
          refl,
          (
            refl,
            (
              refl,
              (
                refl,
                (
                  refl,
                  (
                    refl,
                    Without-append 10 (print_int pid) (32 ∷ print_int timer)
                        (print_int-Without_of_lt 10 pid (omega arith))
                        (refl, print_int-Without_of_lt 10 timer (omega arith)),
                  ),
                ),
              ),
            ),
          ),
        ),
      ),
    ),
  ),
)

two_ints-print :
    (pid timer : ℤ) → two_ints (32 ∷ (print_int pid ++ 32 ∷ print_int timer)) ≡ some (pid, timer)
unfolding two_ints
two_ints-print pid timer =
    rw
      (
        scan_int_space (print_int pid ++ 32 ∷ print_int timer),
        scan_int-print_int pid (32 ∷ print_int timer) refl,
        two_ints,
      )
      (rw (scan_int_last timer))

dispatch-send_task :
    (w : World) (pid timer : ℤ) (ds : Drivers)
    → dispatch w (send_task_text pid timer) ds ≡ (ds, send_task w.peers pid timer ds, true)
unfolding dispatch same_text starts_with
dispatch-send_task w pid timer ds = rw (two_ints-print pid timer)

-- A typed line "send_task P T" is understood: after the cleanup, which comes first, it runs
-- `send_task` with the numbers P and T, and the prompt goes on.
pub handle_line-send_task :
    (w : World) (pid timer : ℤ) (ds : Drivers)
    → let (ds', es) = cleanup_zombies w.dead ds in
      handle_line w (send_task_text pid timer ++ 10 ∷ []) ds
      ≡ (ds', es ++ send_task w.peers pid timer ds', true)
unfolding handle_line
handle_line-send_task w pid timer ds =
    let ds' = (cleanup_zombies w.dead ds).0 in
    rw (
      before-append_stop 10 (send_task_text pid timer) [] (send_task_text-Without pid timer),
      dispatch-send_task w pid timer ds',
    )
