-- ===== src/Taxi/Driver/Schedule.antt =====
-- When a driver waits, and that an accepted task keeps it busy until its end and no longer.
use eltex_lessons.Base.{◌≡◌, refl, ◌∙◌, ap, sym, false, none, some, List, [], ◌∷◌, ◌++◌, All}
use mathlib.Core.List.{append_assoc}
use eltex_lessons.Base.Int.{ℤ, ◌+ℤ◌, ◌-ℤ◌, ◌≤ℤ◌, ◌<ℤ◌}
use eltex_lessons.Text.{Bytes, codes, before, starts_with}
use eltex_lessons.Taxi.Driver.{
  Worker, idle, Wakeup, select_failed, pipe_closed, message, timed_out, prepare, run,
}
use eltex_lessons.Taxi.Driver.Answers.{
  task_bytes, busy_until, is_heard, busy_line, said, prepare_early, prepare_late, heard,
  and_then-heard, run-cons, quiet_round, order_round, timed_out_round, round_early,
}

abbrev pub busy_lines : ℤ → List (ℤ × Wakeup) → List Bytes
busy_lines e [] = []
busy_lines e ((now, message t bytes) ∷ rs) =
    said (is_heard bytes) (busy_line e t) ++ busy_lines e rs
busy_lines e ((now, select_failed) ∷ rs) = busy_lines e rs
busy_lines e ((now, pipe_closed) ∷ rs) = busy_lines e rs
busy_lines e ((now, timed_out) ∷ rs) = busy_lines e rs

-- A driver that is available replies to a STATUS.
abbrev pub free_lines : List (ℤ × Wakeup) → List Bytes
free_lines [] = []
free_lines ((now, message t bytes) ∷ rs) =
    said (starts_with (codes "STATUS") (before 0 bytes)) (codes "Available" ++ 0 ∷ [])
    ++ free_lines rs
free_lines ((now, select_failed) ∷ rs) = free_lines rs
free_lines ((now, pipe_closed) ∷ rs) = free_lines rs
free_lines ((now, timed_out) ∷ rs) = free_lines rs

-- A round during the task: select is called before E, and a message wakes the driver, which it may
-- handle at any time.
abbrev pub IsEarly : ℤ → ℤ × Wakeup → Type 0
IsEarly e (now, message t bytes) = now <ℤ e
IsEarly e (now, select_failed) = ⊥
IsEarly e (now, pipe_closed) = ⊥
IsEarly e (now, timed_out) = ⊥

-- A round with a message that is no order.
abbrev pub IsQuiet : ℤ × Wakeup → Type 0
IsQuiet (now, message t bytes) = starts_with (codes "TASK") (before 0 bytes) ≡ false
IsQuiet (now, select_failed) = ⊥
IsQuiet (now, pipe_closed) = ⊥
IsQuiet (now, timed_out) = ⊥

-- When select is called in the first of the rounds, or at `now` if there is none.
abbrev pub first_time : List (ℤ × Wakeup) → ℤ → ℤ
first_time [] now = now
first_time (r ∷ rs) now = r.0

-- The end of a task, in the rounds in front of an order for which select is called at `now`: the
-- next call of select comes at E or later, or the timeout of a call before E passes; then messages
-- may come that are no orders.
pub data Ending (e : ℤ) : List (ℤ × Wakeup) → ℤ → Type 0 where
  passed :
      {qs : List (ℤ × Wakeup)} {now : ℤ} → All IsQuiet qs → e ≤ℤ first_time qs now → Ending e qs now
  timeout :
      {qs : List (ℤ × Wakeup)} {now : ℤ} (before_end : ℤ)
      → before_end <ℤ e
      → All IsQuiet qs
      → Ending e ((before_end, timed_out) ∷ qs) now

run_quiet :
    (old now t z : ℤ) (qs : List (ℤ × Wakeup)) (w : Worker)
    → All IsQuiet qs
    → (prepare (first_time qs now) w).0 ≡ idle
    → run old w (qs ++ (now, message t (task_bytes z)) ∷ [])
      ≡ some (busy_until (t +ℤ z), free_lines qs ++ (codes "OK" ++ 0 ∷ []) ∷ [])
run_quiet old now t z [] w quiet free = order_round old now t z w free
run_quiet old now t z ((n, message u bytes) ∷ qs) w quiet free =
    let order = (now, message t (task_bytes z)) ∷ [] in
    let rest = run_quiet old now t z qs idle quiet.1 (unfold prepare in refl) in
    quiet_round old n u w (busy_until (t +ℤ z)) bytes (qs ++ order)
      (free_lines qs ++ (codes "OK" ++ 0 ∷ []) ∷ []) free quiet.0 rest
    ∙ ap (λ o. some (busy_until (t +ℤ z), o))
        (sym (
          append_assoc
            (said (starts_with (codes "STATUS") (before 0 bytes)) (codes "Available" ++ 0 ∷ []))
            (free_lines qs) ((codes "OK" ++ 0 ∷ []) ∷ [])))
run_quiet old now t z ((n, select_failed) ∷ qs) w quiet free = absurd quiet.0
run_quiet old now t z ((n, pipe_closed) ∷ qs) w quiet free = absurd quiet.0
run_quiet old now t z ((n, timed_out) ∷ qs) w quiet free = absurd quiet.0

run-Ending :
    (old e now t z : ℤ) (qs : List (ℤ × Wakeup))
    → Ending e qs now
    → run old (busy_until e) (qs ++ (now, message t (task_bytes z)) ∷ [])
      ≡ some (busy_until (t +ℤ z), free_lines qs ++ (codes "OK" ++ 0 ∷ []) ∷ [])
run-Ending old e now t z qs (passed quiet late) =
    run_quiet old now t z qs (busy_until e) quiet (prepare_late (first_time qs now) e late)
run-Ending old e now t z _ (timeout {qs} b early quiet) =
    run-cons old (busy_until e) idle (busy_until (t +ℤ z)) (b, timed_out)
      (qs ++ (now, message t (task_bytes z)) ∷ []) none
      (free_lines qs ++ (codes "OK" ++ 0 ∷ []) ∷ []) (timed_out_round old b e early)
      (run_quiet old now t z qs idle quiet (unfold prepare in refl))

run_early :
    (old e : ℤ) (rs later : List (ℤ × Wakeup)) (last : Worker) (outs : List Bytes)
    → All (IsEarly e) rs
    → run old (busy_until e) later ≡ some (last, outs)
    → run old (busy_until e) (rs ++ later) ≡ some (last, busy_lines e rs ++ outs)
run_early old e [] later last outs early rest = rest
run_early old e ((n, message u bytes) ∷ rs) later last outs early rest =
    let line = heard (is_heard bytes) (busy_line e u) in
    run-cons old (busy_until e) (busy_until e) last (n, message u bytes) (rs ++ later) line
      (busy_lines e rs ++ outs) (round_early old e n u bytes early.0)
      (run_early old e rs later last outs early.1 rest)
    ∙ ap (λ o. some (last, o))
        (and_then-heard (is_heard bytes) (busy_line e u) (busy_lines e rs ++ outs)
          ∙ sym (append_assoc (said (is_heard bytes) (busy_line e u)) (busy_lines e rs) outs))
run_early old e ((n, select_failed) ∷ rs) later last outs early rest = absurd early.0
run_early old e ((n, pipe_closed) ∷ rs) later last outs early rest = absurd early.0
run_early old e ((n, timed_out) ∷ rs) later last outs early rest = absurd early.0

-- An accepted task is honoured, and ends. At each call of select before its end E the timeout is
-- the time until E. Messages for which select is called before E leave a driver that is busy until
-- E so, and each STATUS and each order among them is told the seconds that are left. When the
-- timeout passes, or select is called at E or later, the driver is available: a STATUS is told so,
-- and the first order is accepted, from then until its own end.
pub run_accepted :
    (old e now t z : ℤ) (rs qs : List (ℤ × Wakeup))
    → All (IsEarly e) rs
    → Ending e qs now
    → (run old (busy_until e) (rs ++ (qs ++ (now, message t (task_bytes z)) ∷ []))
        ≡ some (
          busy_until (t +ℤ z),
          busy_lines e rs ++ (free_lines qs ++ (codes "OK" ++ 0 ∷ []) ∷ []),
        ))
      × ((n : ℤ) → n <ℤ e → prepare n (busy_until e) ≡ (busy_until e, some (e -ℤ n)))
run_accepted old e now t z rs qs early ending = (
  run_early old e rs (qs ++ (now, message t (task_bytes z)) ∷ []) (busy_until (t +ℤ z))
      (free_lines qs ++ (codes "OK" ++ 0 ∷ []) ∷ []) early (run-Ending old e now t z qs ending),
  λ n h. prepare_early n e h,
)
