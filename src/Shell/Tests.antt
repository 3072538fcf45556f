-- ===== src/Shell/Tests.antt =====
-- The line "ls -l | wc " and a pipe at the descriptors 3 and 4.
use eltex_lessons.Base.{
  ◌≡◌, refl, true, false, none, some, [], ◌∷◌, ◌++◌, arith, ◌==◌, if◌then◌else◌,
}
use eltex_lessons.Text.{codes, before, same_text}
use eltex_lessons.Shell.{
  pipe_sign, File, other_file, Files, trim, parse_arguments, parse_loop, read_line, remove_newline,
  has_byte, simple, piped, Effect, in_child, execute_simple_command, my_bash, new_bash,
  start_my_bash,
}
use eltex_lessons.Shell.Words.{IsWord}
use eltex_lessons.Shell.Lines.{Phrase, IsPhrase, read_line_piped}
use eltex_lessons.Shell.Pipes.{Piped, processes, execute_pipe_command-Piped}
use eltex_lessons.Shell.Rounds.{unprinted, simple-my_bash}

is_ls : IsWord (codes "ls")
is_ls = (λ e. cc, (refl, (refl, tt)))

is_flag : IsWord (codes "-l")
is_flag = (λ e. cc, (refl, (refl, tt)))

is_wc : IsWord (codes "wc")
is_wc = (λ e. cc, (refl, (refl, tt)))

abbrev first_command : Phrase
first_command = record { indent = 0; first = codes "ls"; others = (0, codes "-l") ∷ []; tail = 1 }

abbrev second_command : Phrase
second_command = record { indent = 1; first = codes "wc"; others = []; tail = 0 }

first_command-IsPhrase : IsPhrase first_command
first_command-IsPhrase = (
  is_ls,
  (is_flag, tt),
  (refl, (refl, (refl, (refl, (refl, (refl, tt)))))),
  (refl, (refl, (refl, (refl, (refl, (refl, tt)))))),
)

second_command-IsPhrase : IsPhrase second_command
second_command-IsPhrase = (is_wc, tt, (refl, (refl, (refl, tt))), (refl, (refl, (refl, tt))))

read_line_piped_example :
    read_line ((codes "ls -l " ++ pipe_sign ∷ codes " wc") ++ 10 ∷ [])
    ≡ piped (codes "ls" ∷ codes "-l" ∷ []) (codes "wc" ∷ [])
read_line_piped_example =
    read_line_piped first_command second_command first_command-IsPhrase second_command-IsPhrase

abbrev terminal : Files
terminal fd = if fd == 0 then some (other_file 0) else if fd == 1 then some (other_file 1) else none

execute_pipe_command-Piped_example :
    Piped (processes terminal 3 4 true (codes "ls" ∷ []) (codes "wc" ∷ [])) terminal
execute_pipe_command-Piped_example =
    execute_pipe_command-Piped terminal 3 4 true (codes "ls" ∷ []) (codes "wc" ∷ []) (omega arith)
      (omega arith) (λ e. cc) refl refl

no_pipe : has_byte pipe_sign (remove_newline (codes "ls" ++ 10 ∷ [])) ≡ false
unfolding has_byte remove_newline before
no_pipe = refl

ls_line : read_line (codes "ls" ++ 10 ∷ []) ≡ simple (codes "ls" ∷ [])
unfolding read_line remove_newline before same_text has_byte parse_arguments parse_loop
    eltex_lessons.Shell.next_token eltex_lessons.Shell.skip_spaces eltex_lessons.Shell.behind
ls_line = refl

simple-my_bash_example :
    (unprinted (my_bash in_child false (codes "ls" ++ 10 ∷ [])).0
      ≡ unprinted (execute_simple_command in_child false (codes "ls" ∷ [])))
    × (unprinted (new_bash in_child false (codes "ls" ++ 10 ∷ [])).0
        ≡ unprinted (execute_simple_command in_child false (codes "ls" ∷ [])))
simple-my_bash_example =
    simple-my_bash in_child false (codes "ls" ++ 10 ∷ []) (codes "ls" ∷ []) no_pipe ls_line
