-- ===== src/Taxi/Driver.antt =====
-- The driver process of TaxiManagement/taxi.c: `driver_main`. One round of its loop is `prepare`,
-- up to the call of select, and `react`, which takes what select and read returned.
pub mod Answers
pub mod Schedule
mod Tests
use eltex_lessons.Base.{ℕ, Bool, Option, none, some, List, [], ◌∷◌, ◌++◌, ◌==◌, drop, if◌then◌else◌}
use eltex_lessons.Base.Int.{ℤ, pos, ◌+ℤ◌, ◌-ℤ◌, ltb_ℤ, leb_ℤ}
use eltex_lessons.Text.{Bytes, codes, before, starts_with}
use eltex_lessons.Text.Decimal.{print_int, scan_int}

-- The local variables that live from round to round. `status` is 0 (available) or 1 (busy).
pub record Worker : Type 0 where
  pub status : ℕ
  pub end_time : ℤ

-- The values that the variables are initialised with.
abbrev pub idle : Worker
idle = record { status = 0; end_time = pos 0 }

-- What select and read report: an error, a closed pipe, the bytes of a message with the time at
-- which it is handled, or that the timeout has passed.
pub data Wakeup : Type 0 where
  select_failed : Wakeup
  pipe_closed : Wakeup
  message : ℤ → Bytes → Wakeup
  timed_out : Wakeup

-- The state at the call of select, and the timeout that it is given (`none` is NULL).
unfoldable pub prepare : ℤ → Worker → Worker × Option ℤ
prepare now w =
    let remaining = w.end_time -ℤ now in
    if w.status == 1
    then (if leb_ℤ remaining (pos 0) then (idle, none) else (w, some remaining))
    else (w, none)

-- The seconds until the end of the task, at least 0.
unfoldable pub seconds_left : ℤ → Worker → ℤ
seconds_left now w =
    let remaining = w.end_time -ℤ now in if ltb_ℤ remaining (pos 0) then pos 0 else remaining

-- "Busy %ld" and its closing NUL.
unfoldable pub busy_reply : ℤ → Worker → Bytes
busy_reply now w = codes "Busy " ++ (print_int (seconds_left now w) ++ (0 ∷ []))

abbrev pub available_reply : Bytes
available_reply = codes "Available" ++ (0 ∷ [])

abbrev pub ok_reply : Bytes
ok_reply = codes "OK" ++ (0 ∷ [])

-- `sscanf(buffer, "TASK %d", &task_time)` behind a test for the prefix. The variable keeps what
-- it held, `old`, if no number follows.
unfoldable pub task_time : ℤ → Bytes → ℤ
task_time old text = elim (scan_int (drop 4 text)) [ none ↦ old | some (z, rest) ↦ z ]

-- The reply to a message, if it gets one. The text of the message ends at its NUL.
unfoldable pub answer : ℤ → ℤ → Worker → Bytes → Worker × Option Bytes
answer old now w bytes =
    let text = before 0 bytes in
    if starts_with (codes "STATUS") text
    then (w, some (if w.status == 0 then available_reply else busy_reply now w))
    else if starts_with (codes "TASK") text
    then (if w.status == 0
        then (record { status = 1; end_time = now +ℤ task_time old text }, some ok_reply)
        else (w, some (busy_reply now w)))
    else (w, none)

-- The rest of a round: the next state and what is written, or `none` where the loop is left.
unfoldable pub react : ℤ → Worker → Wakeup → Option (Worker × Option Bytes)
react old w select_failed = none
react old w pipe_closed = none
react old w (message now bytes) = some (answer old now w bytes)
react old w timed_out = some (if w.status == 1 then idle else w, none)

-- One round, whose call of time before select returns `now`.
unfoldable pub round : ℤ → Worker → ℤ × Wakeup → Option (Worker × Option Bytes)
unfolding prepare react
round old w (now, e) = react old (prepare now w).0 e

-- The log of what is written.
abbrev pub and_then : Option Bytes → List Bytes → List Bytes
and_then none outs = outs
and_then (some b) outs = b ∷ outs

-- The loop: the state and all that was written, or `none` where the process has ended.
unfoldable pub run : ℤ → Worker → List (ℤ × Wakeup) → Option (Worker × List Bytes)
run old w [] = some (w, [])
run old w (r ∷ rs) = elim (round old w r) [
  | none ↦ none
  | some (w', out) ↦ elim (run old w' rs) [
    | none ↦ none
    | some (w'', outs) ↦ some (w'', and_then out outs)
  ]
]
