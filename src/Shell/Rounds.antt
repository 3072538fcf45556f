-- ===== src/Shell/Rounds.antt =====
-- The three command interpreters compared, round by round.
use eltex_lessons.Base.{◌≡◌, refl, ◌∙◌, sym, Bool, true, false, List, [], ◌∷◌, none, some, arith}
use eltex_lessons.Text.{Bytes}
use eltex_lessons.Shell.{
  pipe_sign, parse_arguments, remove_newline, has_byte, Command, nothing, leave, simple, read_line,
  Effect, executed, waited, printed, exited, Fork, fork_failed, in_child, in_parent,
  execute_simple_command, Start, skipped, ended, started, start_my_bash, finish_my_bash,
  finish_new_bash, my_bash, start_new_bash, new_bash,
}

-- The effects less what is printed.
abbrev pub unprinted : List Effect → List Effect
unprinted [] = []
unprinted (executed args ∷ es) = executed args ∷ unprinted es
unprinted (waited ∷ es) = waited ∷ unprinted es
unprinted (printed m ∷ es) = unprinted es
unprinted (exited n ∷ es) = exited n ∷ unprinted es

-- What BushFix does with a line without '|', in the words of the other two.
abbrev pub command_of : Start → Command
command_of skipped = nothing
command_of ended = leave
command_of (started args) = simple args

same_start : (line : Bytes) → start_new_bash line ≡ start_my_bash line
unfolding start_new_bash start_my_bash
same_start line = refl

alike :
    (f : Fork) (found : Bool) (start : Start)
    → (unprinted (finish_my_bash f found start).0 ≡ unprinted (finish_new_bash f found start).0)
      × ((finish_my_bash f found start).1 ≡ (finish_new_bash f found start).1)
unfolding finish_my_bash finish_new_bash
alike f found skipped = (refl, refl)
alike f found ended = (refl, refl)
alike in_child true (started args) = (refl, refl)
alike in_child false (started args) = (refl, refl)
alike fork_failed found (started args) = (refl, refl)
alike (in_parent none) found (started args) = (refl, refl)
alike (in_parent (some code)) found (started args) = (refl, refl)

runs :
    (f : Fork) (found : Bool) (args : List Bytes)
    → unprinted (finish_my_bash f found (started args)).0
      ≡ unprinted (execute_simple_command f found args)
unfolding finish_my_bash execute_simple_command
runs in_child found args = refl
runs fork_failed found args = refl
runs (in_parent none) found args = refl
runs (in_parent (some code)) found args = refl

-- In every round, MyBash and New_bash do the same but for what they print, and both go on with
-- their loops or both end.
my_bash-new_bash :
    (f : Fork) (found : Bool) (line : Bytes)
    → (unprinted (my_bash f found line).0 ≡ unprinted (new_bash f found line).0)
      × ((my_bash f found line).1 ≡ (new_bash f found line).1)
unfolding my_bash new_bash
my_bash-new_bash f found line = rw (same_start line) (alike f found (start_my_bash line))

plain_start :
    (line : Bytes)
    → has_byte pipe_sign (remove_newline line) ≡ false
    → read_line line ≡ command_of (start_my_bash line)
unfolding read_line start_my_bash parse_arguments remove_newline
plain_start line h = ground (arith, h)

simple_start :
    (start : Start) (args : List Bytes) → command_of start ≡ simple args → start ≡ started args
simple_start skipped args e = ground arith
simple_start ended args e = ground arith
simple_start (started bs) args e = ground arith

-- A line without '|' that BushFix runs as a command: MyBash and New_bash run it too, with the same
-- arguments and, but for what is printed, the same effects.
pub simple-my_bash :
    (f : Fork) (found : Bool) (line : Bytes) (args : List Bytes)
    → has_byte pipe_sign (remove_newline line) ≡ false
    → read_line line ≡ simple args
    → (unprinted (my_bash f found line).0 ≡ unprinted (execute_simple_command f found args))
      × (unprinted (new_bash f found line).0 ≡ unprinted (execute_simple_command f found args))
unfolding my_bash
simple-my_bash f found line args h e =
    let same : start_my_bash line ≡ started args =
      simple_start (start_my_bash line) args (sym (plain_start line h) ∙ e) in
    let mine : unprinted (my_bash f found line).0
        ≡ unprinted (execute_simple_command f found args) =
      rw same (runs f found args) in
    (mine, sym (my_bash-new_bash f found line).0 ∙ mine)
