-- ===== src/AbonentList/Menu/Promise.antt =====
-- What the directory promises its user, without a heap: a list of texts, and what each choice does
-- to it.
use eltex_lessons.Base.{
  ℕ, ◌+◌, ◌≡◌, Bool, true, false, ◌&&◌, List, [], ◌∷◌, ◌++◌, All, take, if◌then◌else◌,
}
use eltex_lessons.Text.{Bytes, before, same_text}
use eltex_lessons.AbonentList.Memory.{Card}
use eltex_lessons.AbonentList.Directory.{Line}
use eltex_lessons.AbonentList.Menu.{
  Choice, add_choice, delete_choice, search_choice, all_choice, reverse_choice, exit_choice,
  other_choice, Shown, nothing, deleted, table,
}

-- The texts of an abonent.
pub record Entry : Type 0 where
  pub name : Bytes
  pub second_name : Bytes
  pub tel : Bytes

-- What is kept of the texts that were read.
abbrev pub kept : Card → Entry
kept c = record {
  name = take 9 (before 0 c.name);
  second_name = take 9 (before 0 c.second_name);
  tel = take 11 (before 0 c.tel);
}

abbrev pub entry_line : ℕ → Entry → Line
entry_line i e = record { number = i; name = e.name; second_name = e.second_name; tel = e.tel }

abbrev pub entry_lines : ℕ → List Entry → List Line
entry_lines i [] = []
entry_lines i (e ∷ es) = entry_line (i + 1) e ∷ entry_lines (i + 1) es

abbrev pub reversed_onto : List Entry → List Entry → List Entry
reversed_onto [] fs = fs
reversed_onto (e ∷ es) fs = reversed_onto es (e ∷ fs)

-- The lines of the entries with a name, numbered among themselves.
abbrev pub lines_named : Bytes → ℕ → List Entry → List Line
lines_named name i [] = []
lines_named name i (e ∷ es) =
    let hit = entry_line (i + 1) e ∷ lines_named name (i + 1) es in
    let miss = lines_named name i es in if same_text e.name name then hit else miss

abbrev pub has_names : Bytes → Bytes → Entry → Bool
has_names name second_name e = same_text e.name name && same_text e.second_name second_name

-- What a choice does, where malloc returns a cell in this round or not: what is shown, and the
-- entries afterwards. An abonent is added exactly where malloc returns a cell; of several with the
-- same names the first is deleted.
pub data Does : Bool → Choice → List Entry → Shown → List Entry → Type 0 where
  added : {c : Card} {es : List Entry} → Does true (add_choice c) es nothing (es ++ kept c ∷ [])
  no_memory : {c : Card} {es : List Entry} → Does false (add_choice c) es nothing es
  deleted_first :
      {b : Bool} {name second_name : Bytes} (es fs : List Entry) (e : Entry)
      → All (λ x. has_names (before 0 name) (before 0 second_name) x ≡ false) es
      → has_names (before 0 name) (before 0 second_name) e ≡ true
      → Does b (delete_choice name second_name) (es ++ e ∷ fs) (deleted true) (es ++ fs)
  not_found :
      {b : Bool} {name second_name : Bytes} {es : List Entry}
      → All (λ x. has_names (before 0 name) (before 0 second_name) x ≡ false) es
      → Does b (delete_choice name second_name) es (deleted false) es
  searched :
      {b : Bool} {name : Bytes} {es : List Entry}
      → Does b (search_choice name) es (table (lines_named (before 0 name) 0 es)) es
  listed : {b : Bool} {es : List Entry} → Does b all_choice es (table (entry_lines 0 es)) es
  listed_back :
      {b : Bool} {es : List Entry}
      → Does b reverse_choice es (table (entry_lines 0 (reversed_onto es []))) es
  ignored : {b : Bool} {es : List Entry} → Does b other_choice es nothing es

-- A run of the menu up to the exit, which ends it whatever would be typed afterwards. The first
-- list says of each round whether malloc returns a cell in it.
pub data Session : List Bool → List Choice → List Entry → List Shown → Type 0 where
  leave :
      {bs : List Bool} {cs : List Choice} {es : List Entry}
      → Session bs (exit_choice ∷ cs) es (nothing ∷ [])
  go_on :
      {b : Bool} {bs : List Bool} {c : Choice} {cs : List Choice} {es fs : List Entry} {s : Shown}
      {ss : List Shown}
      → Does b c es s fs
      → Session bs cs fs ss
      → Session (b ∷ bs) (c ∷ cs) es (s ∷ ss)
