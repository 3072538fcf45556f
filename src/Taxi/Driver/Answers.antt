-- ===== src/Taxi/Driver/Answers.antt =====
-- How a driver process answers a message, and what one round of its loop makes of it.
use eltex_lessons.Base.{
  ◌≡◌, refl, ◌∙◌, ap, Bool, true, false, ◌||◌, Option, none, some, List, [], ◌∷◌, ◌++◌, arith, ◌==◌,
  if◌then◌else◌, Bool-cases, inl, inr,
}
use eltex_lessons.Base.Int.{ℤ, pos, ◌+ℤ◌, ◌-ℤ◌, ◌≤ℤ◌, ◌<ℤ◌, ltb_ℤ, leb_ℤ, -ℤ_parts}
use eltex_lessons.Text.{Bytes, codes, before, starts_with}
use eltex_lessons.Text.Decimal.{print_int, scan_int_last}
use eltex_lessons.Text.Terminated.{print_int-Without, Without-append, before-append}
use eltex_lessons.Taxi.Driver.{
  Worker, idle, Wakeup, message, timed_out, prepare, busy_reply, seconds_left, ok_reply, task_time,
  answer, and_then, round, run,
}

-- The bytes of the command that orders a drive of `z` seconds.
abbrev pub task_bytes : ℤ → Bytes
task_bytes z = codes "TASK " ++ (print_int z ++ (0 ∷ []))

abbrev pub busy_until : ℤ → Worker
busy_until t = record { status = 1; end_time = t }

task_text : (z : ℤ) → before 0 (task_bytes z) ≡ codes "TASK " ++ print_int z
task_text z = before-append (codes "TASK " ++ print_int z) [] (
    Without-append 0 (codes "TASK ") (print_int z) (refl, (refl, (refl, (refl, (refl, tt)))))
      (print_int-Without z))

task_time-print : (old z : ℤ) → task_time old (codes "TASK " ++ print_int z) ≡ z
unfolding task_time
task_time-print old z = rw (scan_int_last z, task_time)

answer_task_text :
    (old now z : ℤ) (w : Worker) (bytes : Bytes)
    → before 0 bytes ≡ codes "TASK " ++ print_int z
    → answer old now w bytes ≡ (
        if w.status == 0
        then (busy_until (now +ℤ z), some ok_reply)
        else (w, some (busy_reply now w)))
unfolding answer starts_with
answer_task_text old now z w bytes e = rw (e, task_time-print old z)

-- An order "TASK z", at any time and in any state: an available driver is busy from now until z
-- seconds later and says OK, a busy one stays as it is and replies with the time that is left.
pub answer_task :
    (old now z : ℤ) (w : Worker)
    → answer old now w (task_bytes z) ≡ (
        if w.status == 0
        then (busy_until (now +ℤ z), some ok_reply)
        else (w, some (busy_reply now w)))
answer_task old now z w = answer_task_text old now z w (task_bytes z) (task_text z)

-- Whether a message is one that a busy driver replies to.
abbrev pub is_heard : Bytes → Bool
is_heard bytes =
    starts_with (codes "STATUS") (before 0 bytes) || starts_with (codes "TASK") (before 0 bytes)

-- What a driver that is busy until E says at `t`: the seconds that are left, or 0 when E has passed.
abbrev pub busy_line : ℤ → ℤ → Bytes
busy_line e t =
    if leb_ℤ e t then codes "Busy 0" ++ 0 ∷ [] else codes "Busy " ++ (print_int (e -ℤ t) ++ 0 ∷ [])

-- What is said to a message, if it is heard.
abbrev pub said : Bool → Bytes → List Bytes
said true line = line ∷ []
said false line = []

pub prepare_early :
    (now e : ℤ) → now <ℤ e → prepare now (busy_until e) ≡ (busy_until e, some (e -ℤ now))
unfolding prepare
prepare_early now e h = ground (arith, -ℤ_parts e now)

pub prepare_late : (now e : ℤ) → e ≤ℤ now → (prepare now (busy_until e)).0 ≡ idle
unfolding prepare
prepare_late now e h = ground (arith, -ℤ_parts e now)

busy_reply_line : (t e : ℤ) → busy_reply t (busy_until e) ≡ busy_line e t
unfolding busy_reply seconds_left print_int
busy_reply_line t e = elim (Bool-cases (leb_ℤ e t)) [
  | inl over ↦
      let none_left : (if ltb_ℤ (e -ℤ t) (pos 0) then pos 0 else e -ℤ t) ≡ pos 0 =
        ground (arith, -ℤ_parts e t) in
      rw over (ap (λ n. codes "Busy " ++ (print_int n ++ 0 ∷ [])) none_left)
  | inr open_still ↦
      let some_left : ltb_ℤ (e -ℤ t) (pos 0) ≡ false = ground (arith, -ℤ_parts e t) in
      rw (open_still, some_left) refl
]

abbrev pub heard : Bool → Bytes → Option Bytes
heard true line = some line
heard false line = none

pub and_then-heard :
    (b : Bool) (line : Bytes) (outs : List Bytes)
    → and_then (heard b line) outs ≡ said b line ++ outs
and_then-heard true line outs = refl
and_then-heard false line outs = refl

-- A busy driver stays as it is.
answer_when_busy :
    (old t e : ℤ) (bytes : Bytes)
    → answer old t (busy_until e) bytes ≡ (busy_until e, heard (is_heard bytes) (busy_line e t))
unfolding answer
answer_when_busy old t e bytes =
    let line = ap (λ b. (busy_until e, some b)) (busy_reply_line t e) in
    elim (Bool-cases (starts_with (codes "STATUS") (before 0 bytes))) [
      | inl status ↦ rw status line
      | inr other ↦ elim (Bool-cases (starts_with (codes "TASK") (before 0 bytes))) [
        | inl task ↦ rw (other, task) line
        | inr neither ↦ rw (other, neither) refl
      ]
    ]

answer-idle :
    (old t : ℤ) (bytes : Bytes)
    → starts_with (codes "TASK") (before 0 bytes) ≡ false
    → answer old t idle bytes
      ≡ (idle, heard (starts_with (codes "STATUS") (before 0 bytes)) (codes "Available" ++ 0 ∷ []))
unfolding answer
answer-idle old t bytes no_task =
    elim (Bool-cases (starts_with (codes "STATUS") (before 0 bytes))) [
      | inl status ↦ rw status refl
      | inr other ↦ rw (other, no_task) refl
    ]

pub run-cons :
    (old : ℤ) (w w' w'' : Worker) (r : ℤ × Wakeup) (rs : List (ℤ × Wakeup)) (out : Option Bytes)
    (outs : List Bytes)
    → round old w r ≡ some (w', out)
    → run old w' rs ≡ some (w'', outs)
    → run old w (r ∷ rs) ≡ some (w'', and_then out outs)
unfolding run
run-cons old w w' w'' r rs out outs a b = rw (a, run) (rw (b, run))

-- A round that leaves the driver available, and the rounds behind it.
pub quiet_round :
    (old now t : ℤ) (w last : Worker) (bytes : Bytes) (rs : List (ℤ × Wakeup)) (outs : List Bytes)
    → (prepare now w).0 ≡ idle
    → starts_with (codes "TASK") (before 0 bytes) ≡ false
    → run old idle rs ≡ some (last, outs)
    → run old w ((now, message t bytes) ∷ rs)
      ≡ some (
        last,
        said (starts_with (codes "STATUS") (before 0 bytes)) (codes "Available" ++ 0 ∷ []) ++ outs,
      )
unfolding round
quiet_round old now t w last bytes rs outs free no_task rest =
    let status = starts_with (codes "STATUS") (before 0 bytes) in
    let answered : round old w (now, message t bytes)
        ≡ some (idle, heard status (codes "Available" ++ 0 ∷ [])) =
      rw free (ap some (answer-idle old t bytes no_task)) in
    run-cons old w idle last (now, message t bytes) rs (heard status (codes "Available" ++ 0 ∷ []))
      outs answered rest
    ∙ ap (λ o. some (last, o)) (and_then-heard status (codes "Available" ++ 0 ∷ []) outs)

-- The round that takes up an order.
pub order_round :
    (old now t z : ℤ) (w : Worker)
    → (prepare now w).0 ≡ idle
    → run old w ((now, message t (task_bytes z)) ∷ [])
      ≡ some (busy_until (t +ℤ z), (codes "OK" ++ 0 ∷ []) ∷ [])
unfolding round
order_round old now t z w free =
    let answered : round old w (now, message t (task_bytes z))
        ≡ some (busy_until (t +ℤ z), some ok_reply) =
      rw free (ap some (answer_task old t z idle)) in
    run-cons old w (busy_until (t +ℤ z)) (busy_until (t +ℤ z)) (now, message t (task_bytes z)) []
      (some ok_reply) [] answered (unfold run in refl)

pub timed_out_round :
    (old now e : ℤ) → now <ℤ e → round old (busy_until e) (now, timed_out) ≡ some (idle, none)
unfolding round
timed_out_round old now e h = rw (ap (λ r. r.0) (prepare_early now e h)) refl

pub round_early :
    (old e now t : ℤ) (bytes : Bytes)
    → now <ℤ e
    → round old (busy_until e) (now, message t bytes)
      ≡ some (busy_until e, heard (is_heard bytes) (busy_line e t))
unfolding round
round_early old e now t bytes h =
    rw (ap (λ r. r.0) (prepare_early now e h)) (ap some (answer_when_busy old t e bytes))
