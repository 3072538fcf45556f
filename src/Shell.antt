-- ===== src/Shell.antt =====
-- The command interpreters: Pipe/BushFix, with its pipes, and the two simpler ones of Processes
-- (MyBash/MyBash.c and New_bash/new_bash.c). A text is what stands before the NUL of its buffer.
-- The strings of `args` before its NULL are a list. What fork, wait and execvp return comes in from
-- outside; the messages stand for their wording, which is partly in Russian.
pub mod Words
pub mod Lines
pub mod Pipes
pub mod Rounds
mod Tests
use eltex_lessons.Base.{
  ℕ, zero, suc, ◌+◌, ◌-◌, Bool, true, false, Option, none, some, List, [], ◌∷◌, ◌++◌, ltb, ◌==◌,
  length, get_or, take, drop, if◌then◌else◌,
}
use eltex_lessons.Base.Int.{ℤ, pos}
use eltex_lessons.Text.{Bytes, codes, before, same_text}
use eltex_lessons.Text.Decimal.{print_int}

abbrev pub max_args : ℕ
max_args = 64

abbrev pub space : ℕ
space = 32

-- `str[strcspn(str, "\n")] = 0`
unfoldable pub remove_newline : Bytes → Bytes
remove_newline s = before 10 s

-- The first loop of `trim`.
unfoldable pub skip_spaces : Bytes → Bytes
skip_spaces [] = []
skip_spaces (c ∷ s) = if c == space then skip_spaces s else c ∷ s

-- The second loop of `trim`, from the index `end` down to 0.
unfoldable pub end_loop : ℕ → Bytes → ℕ
end_loop zero s = zero
end_loop (suc e) s = if get_or s (suc e) 0 == space then end_loop e s else suc e

-- The cut behind the last byte; a text of length 0 stays so.
abbrev pub cut_spaces : Bytes → Bytes
cut_spaces [] = []
cut_spaces (c ∷ s) = take (end_loop (length s) (c ∷ s) + 1) (c ∷ s)

unfoldable pub trim : Bytes → Bytes
trim s = cut_spaces (skip_spaces s)

-- What follows the first `stop`.
unfoldable pub behind : ℕ → Bytes → Bytes
behind stop [] = []
behind stop (c ∷ s) = if c == stop then s else behind stop s

-- `strtok(…, " ")`: a token and the rest behind its separator, or NULL.
unfoldable pub next_token : Bytes → Option (Bytes × Bytes)
next_token s = elim (skip_spaces s) [
  | [] ↦ none
  | c ∷ rest ↦ some (before space (c ∷ rest), behind space (c ∷ rest))
]

-- The loop of `parse_arguments`, with the rounds that are left.
unfoldable pub parse_loop : ℕ → Bytes → List Bytes
parse_loop zero s = []
parse_loop (suc n) s = elim (next_token s) [
  | none ↦ []
  | some (token, rest) ↦ token ∷ parse_loop n rest
]

unfoldable pub parse_arguments : Bytes → List Bytes
parse_arguments s = parse_loop (max_args - 1) s

-- What a line means to `main` of BushFix.
pub data Command : Type 0 where
  nothing : Command
  leave : Command
  simple : List Bytes → Command
  piped : List Bytes → List Bytes → Command

-- `strchr(s, c) != NULL`
unfoldable pub has_byte : ℕ → Bytes → Bool
has_byte c [] = false
has_byte c (d ∷ s) = if d == c then true else has_byte c s

abbrev pub pipe_sign : ℕ
pipe_sign = 124

abbrev is_empty : Bytes → Bool
is_empty [] = true
is_empty (c ∷ s) = false

-- A round of the loop of `main` of BushFix, up to the processes that it starts.
unfoldable pub read_line : Bytes → Command
read_line line =
    let input = remove_newline line in
    if is_empty input
    then nothing
    else if same_text input (codes "exit")
    then leave
    else if has_byte pipe_sign input
    then piped (parse_arguments (trim (before pipe_sign input)))
        (parse_arguments (trim (behind pipe_sign input)))
    else simple (parse_arguments input)

-- The open files of a process: what stands behind each descriptor.
pub data File : Type 0 where
  other_file : ℕ → File
  pipe_read : File
  pipe_write : File

abbrev pub Files : Type 0
Files = ℕ → Option File

abbrev pub close_fd : ℕ → Files → Files
close_fd fd t a = if a == fd then none else t a

-- `dup2(from, to)`
abbrev pub dup_fd : ℕ → ℕ → Files → Files
dup_fd from to t a = if a == to then t from else t a

-- After `pipe(pipefd)`.
unfoldable pub open_pipe : ℕ → ℕ → Files → Files
open_pipe r w t a = if a == r then some pipe_read else if a == w then some pipe_write else t a

-- The open files of the two children of `execute_pipe_command` at execvp, and of the shell when
-- it waits.
unfoldable pub first_child : ℕ → ℕ → Files → Files
first_child r w t = close_fd w (dup_fd w 1 (close_fd r t))

unfoldable pub second_child : ℕ → ℕ → Files → Files
second_child r w t = close_fd r (dup_fd r 0 (close_fd w t))

unfoldable pub shell_waits : ℕ → ℕ → Files → Files
shell_waits r w t = close_fd w (close_fd r t)

-- What a process does: it becomes a program, waits, prints, or ends.
pub data Effect : Type 0 where
  executed : List Bytes → Effect
  waited : Effect
  printed : Bytes → Effect
  exited : ℕ → Effect

-- What fork and wait report: the exit code of the child, if it has one.
pub data Fork : Type 0 where
  fork_failed : Fork
  in_child : Fork
  in_parent : Option ℕ → Fork

-- The child: execvp does not return where it succeeds.
abbrev pub run_child : Bool → Bytes → List Bytes → List Effect
run_child found error args = executed args ∷ (if found then [] else printed error ∷ exited 1 ∷ [])

-- The program that is not found; `printf` writes "(null)" for NULL.
abbrev pub not_found : List Bytes → Bytes
not_found [] = codes "not found: (null)"
not_found (name ∷ args) = codes "not found: " ++ name

-- `execute_simple_command`
unfoldable pub execute_simple_command : Fork → Bool → List Bytes → List Effect
execute_simple_command in_child found args = run_child found (not_found args) args
execute_simple_command (in_parent status) found args = waited ∷ []
execute_simple_command fork_failed found args = printed (codes "fork") ∷ []

-- `execute_pipe_command` behind the parsing, for what pipe returns (`none` for -1) and what the two
-- calls of fork return: the open files and the effects of the process that is looked at.
unfoldable pub execute_pipe_command :
    Option (ℕ × ℕ) → Fork → Fork → Bool → List Bytes → List Bytes → Files → Files × List Effect
execute_pipe_command none f g found args1 args2 t = (t, printed (codes "pipe") ∷ [])
execute_pipe_command (some (r, w)) in_child g found args1 args2 t =
    (first_child r w (open_pipe r w t), run_child found (not_found args1) args1)
execute_pipe_command (some (r, w)) fork_failed g found args1 args2 t =
    (open_pipe r w t, printed (codes "first fork") ∷ [])
execute_pipe_command (some (r, w)) (in_parent status) in_child found args1 args2 t =
    (second_child r w (open_pipe r w t), run_child found (not_found args2) args2)
execute_pipe_command (some (r, w)) (in_parent status) fork_failed found args1 args2 t =
    (open_pipe r w t, printed (codes "second fork") ∷ [])
execute_pipe_command (some (r, w)) (in_parent status) (in_parent other) found args1 args2 t =
    (shell_waits r w (open_pipe r w t), waited ∷ waited ∷ [])

-- The start of a round of the two shells of Processes: what is run, `none` for nothing, or an end.
pub data Start : Type 0 where
  skipped : Start
  ended : Start
  started : List Bytes → Start

-- `main` of MyBash.c: the effects of a round, and whether the loop goes on.
unfoldable pub start_my_bash : Bytes → Start
start_my_bash line =
    let input = before 10 line in
    if is_empty input
    then skipped
    else if same_text input (codes "exit")
    then ended
    else started (parse_loop (max_args - 1) input)

-- The rest of the round, for what fork and wait report and whether execvp finds the program.
unfoldable pub finish_my_bash : Fork → Bool → Start → List Effect × Bool
finish_my_bash f found skipped = ([], true)
finish_my_bash f found ended = (printed (codes "exit") ∷ [], false)
finish_my_bash in_child found (started args) = (run_child found (not_found args) args, true)
finish_my_bash (in_parent none) found (started args) = (waited ∷ [], true)
finish_my_bash (in_parent (some code)) found (started args) =
    (waited ∷ printed (codes "code: " ++ print_int (pos code)) ∷ [], true)
finish_my_bash fork_failed found (started args) = (printed (codes "fork") ∷ [], true)

unfoldable pub my_bash : Fork → Bool → Bytes → List Effect × Bool
my_bash f found line = finish_my_bash f found (start_my_bash line)

-- `main` of new_bash.c.
unfoldable pub start_new_bash : Bytes → Start
start_new_bash line =
    let input = before 10 line in
    if is_empty input
    then skipped
    else if same_text input (codes "exit")
    then ended
    else started (parse_loop (max_args - 1) input)

-- The message for the exit code of the program.
abbrev exit_message : ℕ → Bytes
exit_message code =
    if code == 0
    then codes "The process is complete, status = " ++ print_int (pos code)
    else codes "Program failed, exit code = " ++ print_int (pos code)

unfoldable pub finish_new_bash : Fork → Bool → Start → List Effect × Bool
finish_new_bash f found skipped = ([], true)
finish_new_bash f found ended = (printed (codes "Exit from the interpreter") ∷ [], false)
finish_new_bash in_child found (started args) = (run_child found (codes "Error args") args, true)
finish_new_bash (in_parent none) found (started args) = (waited ∷ [], true)
finish_new_bash (in_parent (some code)) found (started args) =
    (waited ∷ printed (exit_message code) ∷ [], true)
finish_new_bash fork_failed found (started args) = (printed (codes "Fork failed") ∷ [], true)

unfoldable pub new_bash : Fork → Bool → Bytes → List Effect × Bool
new_bash f found line = finish_new_bash f found (start_new_bash line)
