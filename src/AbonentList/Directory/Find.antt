-- ===== src/AbonentList/Directory/Find.antt =====
-- The walks of `delete_abonent` and `search_by_name`, which compare texts.
use eltex_lessons.Base.{
  ℕ, zero, suc, ◌+◌, ◌<◌, ◌≡◌, ◌≢◌, refl, ◌∙◌, ap, Bool, true, false, ◌&&◌, some, List, [], ◌∷◌,
  arith, ◌==◌, length, if◌then◌else◌, Bool-cases, inl, inr,
}
use eltex_lessons.Text.{Bytes, before, same_text}
use eltex_lessons.AbonentList.Strings.{my_strcmp, IsText}
use eltex_lessons.AbonentList.Strings.Laws.{my_strcmp_lem}
use eltex_lessons.AbonentList.Memory.{Ptr, null, Card, Abonent, abonent, Abonents, Heap, ◌>>=◌}
use eltex_lessons.AbonentList.Directory.{find_loop, search_loop, search_by_name, Line, line}
use eltex_lessons.AbonentList.Directory.Chain.{Cells, first, Linked, IsDirectory}
use eltex_lessons.AbonentList.Directory.Steps.{load_cell}

-- A text that `my_strcmp` can walk: less than 128 bytes.
abbrev pub IsShort : Bytes → Type 0
IsShort s = IsText s × (length (before 0 s) < 128)

-- The cells hold texts, as the cells that `add_abonent` makes do.
abbrev pub AreShort : Cells → Type 0
AreShort [] = Unit
AreShort ((p, c) ∷ xs) = (IsShort c.name × IsShort c.second_name) × AreShort xs

-- Two buffers hold the same text.
abbrev pub same_name : Bytes → Bytes → Bool
same_name s t = same_text (before 0 s) (before 0 t)

abbrev pub is_match : Bytes → Bytes → Card → Bool
is_match name second_name c = same_name c.name name && same_name c.second_name second_name

-- The first cell with the two names.
abbrev pub found : Bytes → Bytes → Cells → Ptr
found name second_name [] = null
found name second_name ((p, c) ∷ xs) =
    if is_match name second_name c then p else found name second_name xs

strcmp_zero :
    (s t : Bytes) → IsShort s → IsText t → my_strcmp s t ≡ some (if same_name s t then 0 else 1)
strcmp_zero s t hs ht = my_strcmp_lem s t hs.1 hs.0 ht

zero_test : (b : Bool) → ((if b then 0 else 1) == 0) ≡ b
zero_test true = refl
zero_test false = refl

not_null : (p : Ptr) → p ≢ null → (p == null) ≡ false
not_null p ne = ground arith

find_step :
    (name second_name : Bytes) (fuel : ℕ) (p : Ptr) (n : Abonent) (h : Heap)
    → p ≢ null
    → h p ≡ some n
    → IsShort n.card.name
    → IsShort n.card.second_name
    → IsText name
    → IsText second_name
    → find_loop name second_name (suc fuel) p h ≡ (
        if is_match name second_name n.card
        then some (p, h)
        else find_loop name second_name fuel n.next h)
unfolding find_loop
find_step name second_name fuel p n h ne e hs ht is it =
    rw (not_null p ne, find_loop)
      (rw (load_cell h p n ne e, ◌>>=◌)
        (rw (strcmp_zero n.card.name name hs is, ◌>>=◌)
          (elim (Bool-cases (same_name n.card.name name)) [
            | inr a ↦ rw a
            | inl a ↦ rw a (
                rw (strcmp_zero n.card.second_name second_name ht it, ◌>>=◌)
                  (elim (Bool-cases (same_name n.card.second_name second_name)) [
                    | inl b ↦ rw b
                    | inr b ↦ rw b
                  ]))
          ])))

-- The search of `delete_abonent` ends, and finds the first cell with the two names.
pub find_loop_lem :
    (name second_name : Bytes) (fuel : ℕ) (h : Heap) (q : Ptr) (xs : Cells)
    → Linked h q xs
    → AreShort xs
    → IsText name
    → IsText second_name
    → length xs < fuel
    → find_loop name second_name fuel (first xs) h ≡ some (found name second_name xs, h)
find_loop_lem name second_name zero h q xs l sh is it lt = absurd (omega arith)
find_loop_lem name second_name (suc fuel) h q [] l sh is it lt = unfold find_loop in refl
find_loop_lem name second_name (suc fuel) h q ((p, c) ∷ xs) (ne, e, o, l) sh is it lt =
    rw
      (
        find_step name second_name fuel p (abonent c (first xs) q) h ne e sh.0.0 sh.0.1 is it,
        find_loop_lem name second_name fuel h p xs l sh.1 is it (omega arith),
      )
      (elim (Bool-cases (is_match name second_name c)) [ inl m ↦ rw m | inr m ↦ rw m ])

-- The same search from the head of a directory.
pub find_from_head :
    (name second_name : Bytes) (h : Heap) (abs : Abonents) (xs : Cells)
    → IsDirectory h abs xs
    → AreShort xs
    → IsText name
    → IsText second_name
    → find_loop name second_name (abs.count + 1) abs.head h ≡ some (found name second_name xs, h)
find_from_head name second_name h abs xs v sh is it =
    ap (λ a. find_loop name second_name (abs.count + 1) a h) v.head
    ∙ find_loop_lem name second_name (abs.count + 1) h null xs v.linked sh is it
        (omega (arith, v.count))

-- The lines of the cells with a name, numbered from `i + 1` on among themselves.
abbrev pub matching : Bytes → ℕ → Cells → List Line
matching name i [] = []
matching name i ((p, c) ∷ xs) =
    let hit = line (i + 1) c ∷ matching name (i + 1) xs in
    let miss = matching name i xs in if same_name c.name name then hit else miss

search_loop_lem :
    (name : Bytes) (fuel i : ℕ) (h : Heap) (q : Ptr) (xs : Cells)
    → Linked h q xs
    → AreShort xs
    → IsText name
    → length xs < fuel
    → search_loop name fuel i (first xs) h ≡ some (matching name i xs, h)
unfolding search_loop
search_loop_lem name zero i h q xs l sh is lt = absurd (omega arith)
search_loop_lem name (suc fuel) i h q [] l sh is lt = refl
search_loop_lem name (suc fuel) i h q ((p, c) ∷ xs) (ne, e, o, l) sh is lt =
    rw (not_null p ne, search_loop)
      (rw (load_cell h p (abonent c (first xs) q) ne e, ◌>>=◌)
        (rw (strcmp_zero c.name name sh.0.0 is, ◌>>=◌)
          (elim (Bool-cases (same_name c.name name)) [
            | inl a ↦
                rw (a, search_loop_lem name fuel (i + 1) h p xs l sh.1 is (omega arith), ◌>>=◌)
                  (rw a)
            | inr a ↦
                rw (a, search_loop_lem name fuel i h p xs l sh.1 is (omega arith), ◌>>=◌) (rw a)
          ])))

-- `search_by_name` on a well-formed directory, with texts of less than 128 bytes, runs without a
-- fault, changes nothing and prints the cards with the name, in the order of the list and
-- numbered from 1.
pub search_by_name_lem :
    (name : Bytes) (xs : Cells) (abs : Abonents) (h : Heap)
    → IsDirectory h abs xs
    → AreShort xs
    → IsText name
    → search_by_name name abs h ≡ some (matching name 0 xs, h)
unfolding search_by_name
search_by_name_lem name [] abs h v sh is = let e : abs.count ≡ 0 = v.count in rw (e, search_by_name)
search_by_name_lem name ((p, c) ∷ xs) abs h v sh is =
    let some_cells : (abs.count == 0) ≡ false = ground (arith, v.count) in
    rw (some_cells, search_by_name)
      (rw v.head (
        search_loop_lem name (abs.count + 1) 0 h null ((p, c) ∷ xs) v.linked sh is
          (omega (arith, v.count))))
