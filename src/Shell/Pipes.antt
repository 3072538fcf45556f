-- ===== src/Shell/Pipes.antt =====
-- The open files of the processes that `execute_pipe_command` of BushFix starts.
use eltex_lessons.Base.{ℕ, ◌<◌, ◌≡◌, ◌≢◌, Bool, Option, none, some, arith, List}
use eltex_lessons.Text.{Bytes}
use eltex_lessons.Shell.{
  pipe_read, pipe_write, Files, open_pipe, first_child, second_child, shell_waits, Fork, in_child,
  in_parent, Effect, execute_pipe_command,
}

-- The shell whose open files were `t` has its pipe at `r` and `w`.
abbrev pub processes :
    Files → ℕ → ℕ → Bool → List Bytes → List Bytes → Fork → Fork → Files × List Effect
processes t r w found args1 args2 f g = execute_pipe_command (some (r, w)) f g found args1 args2 t

-- What the three processes have open, and what they do.
pub record Piped (at : Fork → Fork → Files × List Effect) (t : Files) : Type 0 where
  pub writes : (g : Fork) → (at in_child g).0 1 ≡ some pipe_write
  pub first_others : (g : Fork) (fd : ℕ) → fd ≢ 1 → (at in_child g).0 fd ≡ t fd
  pub reads : (s : Option ℕ) → (at (in_parent s) in_child).0 0 ≡ some pipe_read
  pub second_others : (s : Option ℕ) (fd : ℕ) → fd ≢ 0 → (at (in_parent s) in_child).0 fd ≡ t fd
  pub shell : (s u : Option ℕ) (fd : ℕ) → (at (in_parent s) (in_parent u)).0 fd ≡ t fd

-- For a pipe at two different descriptors, free before and none of them standard: the first program
-- writes to the pipe on its standard output and the second reads from it on its standard input. All
-- their other descriptors, and those of the waiting shell, lead where they led before, so that none
-- of the three keeps a further end of the pipe.
pub execute_pipe_command-Piped :
    (t : Files) (r w : ℕ) (found : Bool) (args1 args2 : List Bytes)
    → 2 < r
    → 2 < w
    → r ≢ w
    → t r ≡ none
    → t w ≡ none
    → Piped (processes t r w found args1 args2) t
unfolding execute_pipe_command open_pipe first_child second_child shell_waits
execute_pipe_command-Piped t r w found args1 args2 hr hw ne er ew = record {
  writes = λ g. ground arith;
  first_others = λ g fd h. at_first fd h;
  reads = λ s. ground arith;
  second_others = λ s fd h. at_second fd h;
  shell = λ s u fd. at_shell fd;
}
  where
    at_first : (fd : ℕ) → fd ≢ 1 → first_child r w (open_pipe r w t) fd ≡ t fd
    at_first fd h = ground (arith, er, ew)

    at_second : (fd : ℕ) → fd ≢ 0 → second_child r w (open_pipe r w t) fd ≡ t fd
    at_second fd h = ground (arith, er, ew)

    at_shell : (fd : ℕ) → shell_waits r w (open_pipe r w t) fd ≡ t fd
    at_shell fd = ground (arith, er, ew)
