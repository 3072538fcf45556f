-- ===== src/Struct.antt =====
-- Struct/abonents.c: a subscriber directory in a static array. The typed texts come in as
-- arguments, and the lines of a table that is printed come out as a list. `none` is a write
-- outside of a buffer, as scanf("%s") does with a text that is too long, or a read outside of one.
-- A slot of the array is read before it is written, so its index is tested once.
pub mod Slots
pub mod Operations
pub mod Menu
mod Tests
use eltex_lessons.Base.{
  ℕ, zero, suc, ◌+◌, ◌-◌, Bool, true, false, ◌||◌, Option, none, some, List, [], ◌∷◌, ◌++◌, ltb,
  leb, ◌==◌, length, get_elem?, set, take, drop, replicate, if◌then◌else◌,
}
use eltex_lessons.Base.Int.{ℤ, pos, eq_ℤ, ltb_ℤ}
use eltex_lessons.Text.{Bytes, before}
use eltex_lessons.AbonentList.Strings.{my_strcmp}

-- What follows a step that is undefined is undefined.
infixl 5 ◌>>=◌
abbrev pub ◌>>=◌ : {A B : Type 0} → Option A → (A → Option B) → Option B
none >>= f = none
some a >>= f = f a

abbrev pub max_abonent : ℕ
max_abonent = 10

abbrev pub max_length : ℕ
max_length = 10

-- `struct abonent`
pub record Entry : Type 0 where
  pub name : Bytes
  pub second_name : Bytes
  pub tel : Bytes

-- The array `abonents` and the counter of `Interface`.
pub record Table : Type 0 where
  pub slots : List Entry
  pub count : ℕ

-- The first bytes of a buffer are set to NUL.
unfoldable pub wipe : ℕ → Bytes → Bytes
wipe zero s = s
wipe (suc n) [] = []
wipe (suc n) (c ∷ s) = 0 ∷ wipe n s

unfoldable pub clear_abonent : Entry → Entry
clear_abonent e = record {
  name = wipe max_length e.name;
  second_name = wipe max_length e.second_name;
  tel = wipe max_length e.tel;
}

-- A slot of the static array before `main` runs.
abbrev pub zero_entry : Entry
zero_entry = record {
  name = replicate max_length 0;
  second_name = replicate max_length 0;
  tel = replicate max_length 0;
}

-- `scanf("%s", buffer)` for a text that is typed.
unfoldable pub scan_text : Bytes → Bytes → Option Bytes
scan_text text buffer =
    if ltb (length text) (length buffer)
    then some (text ++ 0 ∷ drop (length text + 1) buffer)
    else none

-- The typed texts go into a slot.
unfoldable pub scan_entry : Entry → Entry → Option Entry
scan_entry typed e = do
  name ← scan_text typed.name e.name
  second_name ← scan_text typed.second_name e.second_name
  tel ← scan_text typed.tel e.tel
  some (record { name = name; second_name = second_name; tel = tel })

unfoldable pub add_abonent : Entry → Table → Option Table
add_abonent typed t = if leb max_abonent t.count then some t else do
  old ← get_elem? t.slots t.count
  e ← scan_entry typed old
  some (record { slots = set t.slots t.count e; count = t.count + 1 })

-- The first bytes of one buffer are copied to another.
unfoldable pub copy_bytes : ℕ → Bytes → Bytes → Bytes
copy_bytes (suc n) (d ∷ dest) (c ∷ src) = c ∷ copy_bytes n dest src
copy_bytes _ dest src = dest

unfoldable pub copy_entry : Entry → Entry → Entry
copy_entry to from = record {
  name = copy_bytes (max_length - 1) to.name from.name;
  second_name = copy_bytes (max_length - 1) to.second_name from.second_name;
  tel = copy_bytes (max_length - 1) to.tel from.tel;
}

-- The loop of `Delet_abonent` from slot `i` on, with the rounds that are left.
unfoldable pub close_gap : ℕ → ℕ → List Entry → Option (List Entry)
close_gap zero i xs = some xs
close_gap (suc n) i xs = do
  to ← get_elem? xs i
  from ← get_elem? xs (i + 1)
  close_gap n (i + 1) (set xs i (copy_entry to from))

unfoldable pub clear_at : ℕ → List Entry → Option (List Entry)
clear_at i xs = do e ← get_elem? xs i; some (set xs i (clear_abonent e))

-- `Delet_abonent` for an index that is in range, and counts from 0.
unfoldable pub delete_at : ℕ → Table → Option Table
delete_at i t = do
  cleared ← clear_at i t.slots
  closed ← close_gap (t.count - 1 - i) i cleared
  slots ← clear_at (t.count - 1) closed
  some (record { slots = slots; count = t.count - 1 })

unfoldable pub delet_abonent : ℤ → Table → Option Table
delet_abonent index t =
    if ltb_ℤ index (pos 1) || ltb_ℤ (pos t.count) index
    then some t
    else elim index [ pos n ↦ delete_at (n - 1) t | ℤ.negsuc n ↦ some t ]

-- The loop of `Str_EQ` is that of `my_strcmp` (AbonentList/search.c), with 1 for equal texts and 0
-- for others.
unfoldable pub str_eq : Bytes → Bytes → Option ℕ
str_eq s t = elim (my_strcmp s t) [ none ↦ none | some r ↦ some (if r == 0 then 1 else 0) ]

-- A printed line.
pub record Row : Type 0 where
  pub number : ℕ
  pub name : Bytes
  pub second_name : Bytes
  pub tel : Bytes

abbrev pub row : ℕ → Entry → Row
row i e = record {
  number = i + 1;
  name = before 0 e.name;
  second_name = before 0 e.second_name;
  tel = before 0 e.tel;
}

-- The slots that a loop from 0 to the count reads.
abbrev pub filled : Table → Option (List Entry)
filled t = if leb t.count (length t.slots) then some (take t.count t.slots) else none

-- The loop of `Search_abonents`, over the slots from `i` on.
unfoldable pub search_rows : Bytes → ℕ → List Entry → Option (List Row)
search_rows text i [] = some []
search_rows text i (e ∷ es) = do
  same ← str_eq e.name text
  rows ← search_rows text (i + 1) es
  some (if same == 0 then rows else row i e ∷ rows)

unfoldable pub search_abonents : Bytes → Table → Option (List Row)
search_abonents text t = do es ← filled t; search_rows text 0 es

unfoldable pub print_rows : ℕ → List Entry → List Row
print_rows i [] = []
print_rows i (e ∷ es) = row i e ∷ print_rows (i + 1) es

unfoldable pub print_abonent : Table → Option (List Row)
print_abonent t = do es ← filled t; some (print_rows 0 es)

-- What is typed in one round of the menu: the number, and what the chosen operation asks for.
pub record Typed : Type 0 where
  pub number : ℤ
  pub entry : Entry
  pub index : ℤ
  pub search_name : Bytes

-- One round of `Interface`: the table, the rows, and whether the loop goes on. A search reads its
-- text into a buffer of ten bytes, `junk` before. Any other number ends the loop, as 5 does.
unfoldable pub interface : Bytes → Typed → Table → Option (Table × List Row × Bool)
interface junk typed t =
    if eq_ℤ typed.number (pos 1)
    then (do t' ← add_abonent typed.entry t; some (t', [], true))
    else if eq_ℤ typed.number (pos 2)
    then (do t' ← delet_abonent typed.index t; some (t', [], true))
    else if eq_ℤ typed.number (pos 3)
    then (do
      text ← scan_text typed.search_name junk
      rows ← search_abonents text t
      some (t, rows, true))
    else if eq_ℤ typed.number (pos 4)
    then (do rows ← print_abonent t; some (t, rows, true))
    else some (t, [], false)
