-- ===== src/AbonentList/Menu.antt =====
-- AbonentList/main.c: the loop over the menu. A choice comes with what the operation then reads.
-- malloc is an argument: for a heap, an address with the bytes that happen to be there, or NULL.
-- What is shown are the tables, and whether an abonent was deleted; other messages are left out.
pub mod Promise
pub mod Views
pub mod Steps
pub mod Refinement
mod Tests
use eltex_lessons.Base.{Bool, true, false, Option, none, some, List, [], ◌∷◌, if◌then◌else◌}
use eltex_lessons.Text.{Bytes}
use eltex_lessons.AbonentList.Memory.{Ptr, null, Card, Abonents, Heap, M, pure, ◌>>=◌, ◌>>◌}
use eltex_lessons.AbonentList.Directory.{
  add_abonent, delete_abonent, Line, search_by_name, display_all, display_all_reverse,
  clear_directory,
}

-- 1 to 6, and any other number.
pub data Choice : Type 0 where
  add_choice : Card → Choice
  delete_choice : Bytes → Bytes → Choice
  search_choice : Bytes → Choice
  all_choice : Choice
  reverse_choice : Choice
  exit_choice : Choice
  other_choice : Choice

pub data Shown : Type 0 where
  nothing : Shown
  deleted : Bool → Shown
  table : List Line → Shown

-- `abs` at the start of `main`.
abbrev pub no_abonents : Abonents
no_abonents = record { head = null; tail = null; count = 0 }

-- The switch of `main`.
unfoldable pub choose : (Heap → Ptr × Card) → Choice → Abonents → M (Shown × Abonents)
choose malloc (add_choice given) abs =
    λ h. (do abs ← add_abonent (malloc h).0 (malloc h).1 given abs; pure (nothing, abs)) h
choose malloc (delete_choice name second_name) abs = do
  r ← delete_abonent name second_name abs
  pure (deleted r.0, r.1)
choose malloc (search_choice name) abs = do lines ← search_by_name name abs; pure (table lines, abs)
choose malloc all_choice abs = do lines ← display_all abs; pure (table lines, abs)
choose malloc reverse_choice abs = do lines ← display_all_reverse abs; pure (table lines, abs)
choose malloc exit_choice abs = do abs ← clear_directory abs; pure (nothing, abs)
choose malloc other_choice abs = pure (nothing, abs)

-- `choice == 6`
abbrev pub is_exit : Choice → Bool
is_exit exit_choice = true
is_exit (add_choice given) = false
is_exit (delete_choice name second_name) = false
is_exit (search_choice name) = false
is_exit all_choice = false
is_exit reverse_choice = false
is_exit other_choice = false

-- The loop of `main`, for the choices that are typed.
unfoldable pub menu_loop : (Heap → Ptr × Card) → List Choice → Abonents → M (List Shown × Abonents)
menu_loop malloc [] abs = pure ([], abs)
menu_loop malloc (c ∷ cs) abs = do
  r ← choose malloc c abs
  if is_exit c
      then pure (r.0 ∷ [], r.1)
      else (do s ← menu_loop malloc cs r.1; pure (r.0 ∷ s.0, s.1))
