-- ===== src/Struct/Menu.antt =====
-- The search, and a round of the menu as a whole.
use eltex_lessons.Base.{
  ℕ, zero, suc, ◌+◌, ◌≤◌, ◌<◌, ◌≡◌, refl, true, some, List, [], ◌∷◌, arith, All, leb, length,
  get_or, take, if◌then◌else◌, Bool-cases, inl, inr,
}
use eltex_lessons.Text.{Bytes, before, same_text}
use eltex_lessons.AbonentList.Strings.{IsText}
use eltex_lessons.AbonentList.Strings.Laws.{my_strcmp_lem}
use eltex_lessons.Struct.{Entry, Table, str_eq, Row, row, search_rows, search_abonents, filled}
use eltex_lessons.Struct.Slots.{IsField, IsEntry, IsTable}

length-before_le : (s : Bytes) (i : ℕ) → i < length s → get_or s i 1 ≡ 0 → length (before 0 s) ≤ i
unfolding before
length-before_le [] i h e = absurd (omega arith)
length-before_le (c ∷ s) zero h e = ground arith
length-before_le (c ∷ s) (suc i) h e = ground (arith, length-before_le s i)

field_text : (s : Bytes) → IsField s → length (before 0 s) ≤ 9
field_text s v = length-before_le s 9 (omega (arith, v.size)) v.closed

IsField-IsText : (s : Bytes) → IsField s → IsText s
IsField-IsText s v = omega (arith, field_text s v, v.size)

str_eq_lem :
    (s t : Bytes)
    → IsField s
    → IsText t
    → str_eq s t ≡ some (if same_text (before 0 s) (before 0 t) then 1 else 0)
unfolding str_eq
str_eq_lem s t v h =
    let short : length (before 0 s) < 128 = omega (arith, field_text s v) in
    rw (my_strcmp_lem s t short (IsField-IsText s v) h, str_eq)
      (elim (Bool-cases (same_text (before 0 s) (before 0 t))) [ inl a ↦ rw a | inr a ↦ rw a ])

-- The rows of the entries with a name, each with its number in the table.
abbrev pub matching : Bytes → ℕ → List Entry → List Row
matching name i [] = []
matching name i (e ∷ es) =
    let rest = matching name (i + 1) es in
    if same_text (before 0 e.name) name then row i e ∷ rest else rest

search_rows_lem :
    (text : Bytes) (i : ℕ) (es : List Entry)
    → IsText text
    → All IsEntry es
    → search_rows text i es ≡ some (matching (before 0 text) i es)
unfolding search_rows
search_rows_lem text i [] h v = refl
search_rows_lem text i (e ∷ es) h v =
    rw (str_eq_lem e.name text v.0.name h, search_rows)
      (rw (search_rows_lem text (i + 1) es h v.1)
        (elim (Bool-cases (same_text (before 0 e.name) (before 0 text))) [
          | inl a ↦ rw a
          | inr a ↦ rw a
        ]))

All-take : (n : ℕ) (es : List Entry) → All IsEntry es → All IsEntry (take n es)
All-take zero es v = tt
All-take (suc n) [] v = tt
All-take (suc n) (e ∷ es) v = (v.0, All-take n es v.1)

filled_lem : (t : Table) → IsTable t → filled t ≡ some (take t.count t.slots)
filled_lem t v =
    let inside : leb t.count (length t.slots) ≡ true = ground (arith, v.slots, v.count) in
    rw inside refl

-- `Search_abonents` on a well-formed table is defined and prints the entries with the name, in
-- order, each with its number in the table.
pub search_abonents_lem :
    (text : Bytes) (t : Table)
    → IsText text
    → IsTable t
    → search_abonents text t ≡ some (matching (before 0 text) 0 (take t.count t.slots))
unfolding search_abonents
search_abonents_lem text t h v =
    rw (filled_lem t v, search_abonents)
      (search_rows_lem text 0 (take t.count t.slots) h (All-take t.count t.slots v.entries))
