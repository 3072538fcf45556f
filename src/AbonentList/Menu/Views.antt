-- ===== src/AbonentList/Menu/Views.antt =====
-- The cells of a heap as entries.
use eltex_lessons.Base.{
  ℕ, zero, suc, ◌+◌, ◌≤◌, ◌<◌, ◌≡◌, ◌≢◌, refl, ◌∙◌, ap, true, false, none, List, [], ◌∷◌, ◌++◌,
  arith, All, length, take, if◌then◌else◌, Bool-cases, inl, inr, ◌⊎◌,
}
use eltex_lessons.Text.{Bytes, before}
use eltex_lessons.AbonentList.Strings.{IsText}
use eltex_lessons.AbonentList.Memory.{Ptr, null, Card, Abonents, Heap}
use eltex_lessons.AbonentList.Directory.{line}
use eltex_lessons.AbonentList.Directory.Chain.{Cells, has, IsDirectory}
use eltex_lessons.AbonentList.Directory.Add.{HasRoom, IsCard, IsCopy}
use eltex_lessons.AbonentList.Directory.Find.{IsShort, AreShort, same_name, is_match, matching}
use eltex_lessons.AbonentList.Directory.Delete.{NoMatch}
use eltex_lessons.AbonentList.Directory.Walk.{numbered, back_onto}
use eltex_lessons.AbonentList.Menu.{
  Choice, add_choice, delete_choice, search_choice, all_choice, reverse_choice, exit_choice,
  other_choice,
}
use eltex_lessons.AbonentList.Menu.Promise.{
  Entry, kept, entry_lines, reversed_onto, lines_named, has_names,
}

abbrev pub entry : Card → Entry
entry c = record {
  name = before 0 c.name;
  second_name = before 0 c.second_name;
  tel = before 0 c.tel;
}

-- What the cells stand for.
abbrev pub view : Cells → List Entry
view [] = []
view ((p, c) ∷ xs) = entry c ∷ view xs

-- The heap holds the directory and nothing else.
pub record IsKept (h : Heap) (abs : Abonents) (xs : Cells) : Type 0 where
  pub list : IsDirectory h abs xs
  pub short : AreShort xs
  pub alone : (a : Ptr) → has a xs ≡ false → h a ≡ none

-- malloc returns NULL, or the address of a free cell.
abbrev pub Allocates : (Heap → Ptr × Card) → Type 0
Allocates malloc =
    (h : Heap)
    → ((malloc h).0 ≡ null)
      ⊎ (((malloc h).0 ≢ null) × (h (malloc h).0 ≡ none) × HasRoom (malloc h).1)

-- What is read are texts in their buffers.
abbrev pub IsInput : Choice → Type 0
IsInput (add_choice c) = IsCard c
IsInput (delete_choice name second_name) = IsText name × IsText second_name
IsInput (search_choice name) = IsText name
IsInput all_choice = Unit
IsInput reverse_choice = Unit
IsInput exit_choice = Unit
IsInput other_choice = Unit

pub view-append : (xs ys : Cells) → view (xs ++ ys) ≡ view xs ++ view ys
view-append [] ys = refl
view-append ((p, c) ∷ xs) ys = ap (λ es. entry c ∷ es) (view-append xs ys)

pub numbered_lem : (i : ℕ) (xs : Cells) → numbered i xs ≡ entry_lines i (view xs)
numbered_lem i [] = refl
numbered_lem i ((p, c) ∷ xs) = ap (λ ls. line (i + 1) c ∷ ls) (numbered_lem (i + 1) xs)

pub view-back_onto : (xs ys : Cells) → view (back_onto xs ys) ≡ reversed_onto (view xs) (view ys)
view-back_onto [] ys = refl
view-back_onto ((p, c) ∷ xs) ys = view-back_onto xs ((p, c) ∷ ys)

pub matching_lem :
    (name : Bytes) (i : ℕ) (xs : Cells)
    → matching name i xs ≡ lines_named (before 0 name) i (view xs)
matching_lem name i [] = refl
matching_lem name i ((p, c) ∷ xs) =
    let hit = ap (λ ls. line (i + 1) c ∷ ls) (matching_lem name (i + 1) xs) in
    ap (λ ls. if same_name c.name name then ls else matching name i xs) hit
    ∙ ap
        (λ ls.
          if same_name c.name name
          then line (i + 1) c ∷ lines_named (before 0 name) (i + 1) (view xs)
          else ls)
        (matching_lem name i xs)

pub AreShort-append : (xs ys : Cells) → AreShort xs → AreShort ys → AreShort (xs ++ ys)
AreShort-append [] ys s t = t
AreShort-append ((p, c) ∷ xs) ys s t = (s.0, AreShort-append xs ys s.1 t)

pub AreShort-split : (xs ys : Cells) → AreShort (xs ++ ys) → AreShort xs × AreShort ys
AreShort-split [] ys s = (tt, s)
AreShort-split ((p, c) ∷ xs) ys s = let (a, b) = AreShort-split xs ys s.1 in ((s.0, a), b)

-- The first cell with the two names, or none.
abbrev Hit : Bytes → Bytes → Cells → Type 0
Hit name second_name xs =
    (ys : Cells) × (p : Ptr) × (c : Card) × (zs : Cells) × (xs ≡ ys ++ (p, c) ∷ zs)
    × NoMatch name second_name ys
    × (is_match name second_name c ≡ true)

pub first_match :
    (name second_name : Bytes) (xs : Cells) → NoMatch name second_name xs ⊎ Hit name second_name xs
first_match name second_name [] = inl tt
first_match name second_name ((p, c) ∷ xs) = elim (Bool-cases (is_match name second_name c)) [
  | inl hit ↦ inr ([], p, c, xs, refl, tt, hit)
  | inr miss ↦ elim (first_match name second_name xs) [
    | inl none_left ↦ inl (miss, none_left)
    | inr (ys, q, d, zs, e, m, hit) ↦
        inr ((p, c) ∷ ys, q, d, zs, ap (λ r. (p, c) ∷ r) e, (miss, m), hit)
  ]
]

pub NoMatch-view :
    (name second_name : Bytes) (xs : Cells)
    → NoMatch name second_name xs
    → All (λ x. has_names (before 0 name) (before 0 second_name) x ≡ false) (view xs)
NoMatch-view name second_name [] m = tt
NoMatch-view name second_name ((p, c) ∷ xs) m = (m.0, NoMatch-view name second_name xs m.1)

length-take_le : (k : ℕ) (s : Bytes) → length (take k s) ≤ k
length-take_le zero s = omega arith
length-take_le (suc k) [] = omega arith
length-take_le (suc k) (c ∷ s) = omega (arith, length-take_le k s)

cut_short : (k : ℕ) (s t : Bytes) → k < 128 → s ≡ take k t → length s < 128
cut_short k s t lt e = rw e (omega (arith, length-take_le k t))

pub copy-IsShort :
    (c given : Card) → IsCard c → IsCopy c given → IsShort c.name × IsShort c.second_name
copy-IsShort c given valid copy = (
  (valid.0, cut_short 9 (before 0 c.name) (before 0 given.name) (omega arith) copy.0),
  (valid.1, cut_short 9 (before 0 c.second_name) (before 0 given.second_name) (omega arith) copy.1),
)

pub copy_entry : (c given : Card) → IsCopy c given → entry c ≡ kept given
copy_entry c given copy = rw (copy.0, copy.1, copy.2) refl
