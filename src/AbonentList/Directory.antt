-- ===== src/AbonentList/Directory.antt =====
-- The operations of AbonentList: add.c, remove.c, search.c, displayPrint.c and clear.c. The loops
-- over the list run on fuel, `count + 1` rounds. What scanf reads comes in as buffers, what malloc
-- returns as an address with the bytes that happen to be there, and the lines of a table that is
-- printed come out as a list. `count` is a number of cells in memory, so it does not overflow.
pub mod Chain
pub mod Steps
pub mod Unlink
pub mod Add
pub mod Find
pub mod Delete
pub mod Walk
mod Tests
use eltex_lessons.Base.{
  ℕ, zero, suc, ◌+◌, ◌-◌, Bool, true, false, ◌&&◌, Option, none, some, List, [], ◌∷◌, ◌++◌, ◌==◌,
  if◌then◌else◌,
}
use eltex_lessons.Text.{Bytes, before}
use eltex_lessons.AbonentList.Strings.{my_strncpy, my_strcmp}
use eltex_lessons.AbonentList.Memory.{
  Ptr, null, Card, Abonent, abonent, Abonents, Heap, M, pure, ◌>>=◌, ◌>>◌, lift, load, store,
  set_next, set_prev, free,
}

abbrev pub max_str : ℕ
max_str = 10

abbrev pub max_number : ℕ
max_number = 12

-- `create_abonent`: the address of the new cell, or NULL where malloc fails.
unfoldable pub create_abonent : Ptr → Card → Card → M Ptr
create_abonent fresh junk given = if fresh == null then pure null else do
  name ← lift (my_strncpy junk.name given.name max_str)
  second_name ← lift (my_strncpy junk.second_name given.second_name max_str)
  tel ← lift (my_strncpy junk.tel given.tel max_number)
  store fresh
      (some (abonent (record { name = name; second_name = second_name; tel = tel }) null null))
  pure fresh

-- The end of `add_abonent`: the new cell goes behind the tail.
unfoldable pub append_abonent : Ptr → Abonents → M Abonents
append_abonent new abs =
    if abs.head == null then pure (record { head = new; tail = new; count = abs.count + 1 }) else do
      set_next abs.tail new
      set_prev new abs.tail
      pure (record abs { tail = new; count = abs.count + 1 })

unfoldable pub add_abonent : Ptr → Card → Card → Abonents → M Abonents
add_abonent fresh junk given abs = do
  new ← create_abonent fresh junk given
  if new == null then pure abs else append_abonent new abs

-- The loop of `delete_abonent` that looks for the two names: NULL if there is no such cell.
unfoldable pub find_loop : Bytes → Bytes → ℕ → Ptr → M Ptr
find_loop name second_name zero current = λ h. none
find_loop name second_name (suc fuel) current = if current == null then pure null else do
  n ← load current
  a ← lift (my_strcmp n.card.name name)
  if a == 0
      then (do
        b ← lift (my_strcmp n.card.second_name second_name)
        if b == 0 then pure current else find_loop name second_name fuel n.next)
      else find_loop name second_name fuel n.next

-- The cell before `current`, or the head, is led past it.
unfoldable pub unlink_next : Abonent → Abonents → M Abonents
unlink_next n abs =
    if n.prev == null
    then pure (record abs { head = n.next })
    else do set_next n.prev n.next; pure abs

unfoldable pub unlink_prev : Abonent → Abonents → M Abonents
unlink_prev n abs =
    if n.next == null
    then pure (record abs { tail = n.prev })
    else do set_prev n.next n.prev; pure abs

-- The end of `delete_abonent`, for the cell that was found.
unfoldable pub unlink_abonent : Ptr → Abonents → M (Bool × Abonents)
unlink_abonent current abs = do
  n ← load current
  abs ← unlink_next n abs
  n ← load current
  abs ← unlink_prev n abs
  free current
  pure (true, record abs { count = abs.count - 1 })

-- Whether a cell was deleted, and the list.
unfoldable pub delete_abonent : Bytes → Bytes → Abonents → M (Bool × Abonents)
delete_abonent name second_name abs = if abs.count == 0 then pure (false, abs) else do
  current ← find_loop name second_name (abs.count + 1) abs.head
  if current == null then pure (false, abs) else unlink_abonent current abs

-- A printed line: the running number and the texts of a card.
pub record Line : Type 0 where
  pub number : ℕ
  pub name : Bytes
  pub second_name : Bytes
  pub tel : Bytes

abbrev pub line : ℕ → Card → Line
line i c = record {
  number = i;
  name = before 0 c.name;
  second_name = before 0 c.second_name;
  tel = before 0 c.tel;
}

-- The loop of `search_by_name`: the lines of the cells with the name, numbered among themselves.
unfoldable pub search_loop : Bytes → ℕ → ℕ → Ptr → M (List Line)
search_loop name zero i current = λ h. none
search_loop name (suc fuel) i current = if current == null then pure [] else do
  n ← load current
  a ← lift (my_strcmp n.card.name name)
  lines ← search_loop name fuel (if a == 0 then i + 1 else i) n.next
  pure (if a == 0 then line (i + 1) n.card ∷ lines else lines)

unfoldable pub search_by_name : Bytes → Abonents → M (List Line)
search_by_name name abs =
    if abs.count == 0 then pure [] else search_loop name (abs.count + 1) 0 abs.head

-- The loops of `display_all` and `display_all_reverse`.
unfoldable pub display_loop : (Abonent → Ptr) → ℕ → ℕ → Ptr → M (List Line)
display_loop step zero i current = λ h. none
display_loop step (suc fuel) i current = if current == null then pure [] else do
  n ← load current
  lines ← display_loop step fuel (i + 1) (step n)
  pure (line (i + 1) n.card ∷ lines)

unfoldable pub display_all : Abonents → M (List Line)
display_all abs =
    if abs.count == 0 then pure [] else display_loop (λ n. n.next) (abs.count + 1) 0 abs.head

unfoldable pub display_all_reverse : Abonents → M (List Line)
display_all_reverse abs =
    if abs.count == 0 then pure [] else display_loop (λ n. n.prev) (abs.count + 1) 0 abs.tail

unfoldable pub clear_loop : ℕ → Ptr → M (Unit {0})
clear_loop zero current = λ h. none
clear_loop (suc fuel) current =
    if current == null then pure tt else do n ← load current; free current; clear_loop fuel n.next

unfoldable pub clear_directory : Abonents → M Abonents
clear_directory abs = do
  clear_loop (abs.count + 1) abs.head
  pure (record { head = null; tail = null; count = 0 })
