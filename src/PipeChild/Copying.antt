-- ===== src/PipeChild/Copying.antt =====
-- Pipe/MyPipe: what the child has copied, and that neither process is stuck.
use eltex_lessons.Base.{
  ℕ, ◌+◌, ◌≤◌, ◌≡◌, ◌≢◌, refl, sym, ◌∙◌, ap, none, [], ◌∷◌, ◌++◌, arith, length, length-append,
}
use mathlib.Core.Path.{subst}
use mathlib.Core.List.{append-nil}
use eltex_lessons.Text.{Bytes}
use eltex_lessons.PipeChild.{
  msg, ParentPlace, closes_read, writes_msg, closes_write, waits_for_child, parent_ended,
  parent_killed, ChildPlace, child_closes_write, child_copies, child_closes_read, child_exited,
  State, is_exited, parent_at, parent_step, copy_byte, child_at, child_step, Reach, begin,
  by_parent, by_child,
}
use eltex_lessons.PipeChild.Steps.{
  parent_writes, written, Ended, At, Inv, Holds, parent_at-Holds, child_at-Holds,
}

Reach-Inv : {n : ℕ} {s : State} → Reach n s → Inv n s
unfolding parent_step child_step
Reach-Inv begin = record {
  readers = refl;
  writers = refl;
  text = refl;
  late = tt;
  ended = tt;
  steps = refl;
}
Reach-Inv (by_parent {n} {s} {t} r e) =
    subst (Holds (n + 1)) e (parent_at-Holds s.parent n s (Reach-Inv r))
Reach-Inv (by_child {n} {s} {t} r e) =
    subst (Holds (n + 1)) e (child_at-Holds s.child n s refl (Reach-Inv r))

-- What the two have done so far, and that neither is stuck before both have ended.
pub record IsCopied (n : ℕ) (s : State) : Type 0 where
  pub bounded : n ≤ 9
  pub alive : s.parent ≢ parent_killed
  pub copied : s.child ≡ child_exited → s.output ≡ msg
  pub stuck :
      parent_step s ≡ none
      → child_step s ≡ none
      → (s.parent ≡ parent_ended) × (s.child ≡ child_exited)

all_written : (p : ParentPlace) → parent_writes p ≡ 0 → written p ≡ msg
all_written closes_read e = absurd (omega (arith, e))
all_written writes_msg e = absurd (omega (arith, e))
all_written closes_write e = absurd (omega (arith, e))
all_written waits_for_child e = refl
all_written parent_ended e = refl
all_written parent_killed e = absurd (omega (arith, e))

length-written : (p : ParentPlace) → length (written p) ≤ 2
length-written closes_read = omega arith
length-written writes_msg = omega arith
length-written closes_write = omega arith
length-written waits_for_child = omega arith
length-written parent_ended = omega arith
length-written parent_killed = omega arith

copied_all : (p : ParentPlace) (n : ℕ) (s : State) → At p child_exited n s → s.output ≡ msg
copied_all p n s h =
    sym (append-nil s.output)
    ∙ ap (λ x. s.output ++ x) (sym h.late.1)
    ∙ h.text
    ∙ all_written p h.late.0

copy_waits : (bs : Bytes) (s : State) → s.writers ≡ 0 → copy_byte bs s ≢ none
unfolding copy_byte
copy_waits [] s e = λ f. absurd (ground (arith, e))
copy_waits (b ∷ bs) s e = λ f. cc

waits_stuck :
    (c : ChildPlace) (n : ℕ) (s : State)
    → s.child ≡ c
    → At waits_for_child c n s
    → is_exited s.child s ≡ none
    → child_at c s ≢ none
unfolding child_at
waits_stuck child_closes_write n s e h f = λ g. cc
waits_stuck child_copies n s e h f = copy_waits s.pipe s h.writers
waits_stuck child_closes_read n s e h f = λ g. cc
waits_stuck child_exited n s e h f = absurd (let g = ap (λ q. is_exited q s) (sym e) ∙ f in cc)

neither_moves :
    (p : ParentPlace) (n : ℕ) (s : State)
    → At p s.child n s
    → parent_at p s ≡ none
    → child_at s.child s ≡ none
    → (p ≡ parent_ended) × (s.child ≡ child_exited)
unfolding parent_at
neither_moves closes_read n s h e f = absurd cc
neither_moves writes_msg n s h e f = absurd (ground arith)
neither_moves closes_write n s h e f = absurd cc
neither_moves waits_for_child n s h e f = absurd (waits_stuck s.child n s refl h e f)
neither_moves parent_ended n s h e f = (refl, h.ended)
neither_moves parent_killed n s h e f = absurd h.ended

-- In whatever order the two processes are scheduled: at most nine steps are run; the parent is not
-- killed by its write; when the child has exited it has written "Hi" and nothing else; and where
-- neither can go on, both have ended, so the child does not wait for an end of file that never
-- comes.
pub Reach-IsCopied : (n : ℕ) (s : State) → Reach n s → IsCopied n s
unfolding parent_step child_step
Reach-IsCopied n s r =
    let h : Inv n s = Reach-Inv r in
    let size : length s.output + length s.pipe ≡ length (written s.parent) =
      sym (length-append s.output s.pipe) ∙ ap length h.text in
    record {
      bounded = omega (arith, h.steps, size, length-written s.parent);
      alive = λ e. subst (λ p. Ended p s.child) e h.ended;
      copied = λ e. copied_all s.parent n s (subst (λ c. At s.parent c n s) e h);
      stuck = λ e f. neither_moves s.parent n s h e f;
    }
