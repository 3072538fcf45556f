-- ===== src/AbonentList/Directory/Delete.antt =====
-- `delete_abonent`: the first card with the two names goes.
use eltex_lessons.Base.{
  ◌<◌, ◌≡◌, refl, true, false, some, [], ◌∷◌, ◌++◌, arith, ◌==◌, length, Bool-cases, inl, inr,
}
use eltex_lessons.Text.{Bytes}
use eltex_lessons.AbonentList.Strings.{IsText}
use eltex_lessons.AbonentList.Memory.{Ptr, null, Card, Abonents, Heap, ◌>>=◌}
use eltex_lessons.AbonentList.Directory.{delete_abonent}
use eltex_lessons.AbonentList.Directory.Chain.{Cells, IsDirectory, Linked-at}
use eltex_lessons.AbonentList.Directory.Unlink.{Removed, unlink_abonent_lem}
use eltex_lessons.AbonentList.Directory.Find.{AreShort, is_match, found, find_from_head}

-- No card of the list has the two names.
abbrev pub NoMatch : Bytes → Bytes → Cells → Type 0
NoMatch name second_name [] = Unit
NoMatch name second_name ((p, c) ∷ xs) =
    (is_match name second_name c ≡ false) × NoMatch name second_name xs

found_none :
    (name second_name : Bytes) (xs : Cells)
    → NoMatch name second_name xs
    → found name second_name xs ≡ null
found_none name second_name [] m = refl
found_none name second_name ((p, c) ∷ xs) m = rw m.0 (found_none name second_name xs m.1)

found_first :
    (name second_name : Bytes) (p : Ptr) (c : Card) (ys zs : Cells)
    → NoMatch name second_name ys
    → is_match name second_name c ≡ true
    → found name second_name (ys ++ (p, c) ∷ zs) ≡ p
found_first name second_name p c [] zs m hit = rw hit
found_first name second_name p c ((b, k) ∷ ys) zs m hit =
    rw m.0 (found_first name second_name p c ys zs m.1 hit)

not_empty : (p : Ptr) (c : Card) (ys zs : Cells) → 0 < length (ys ++ (p, c) ∷ zs)
not_empty p c [] zs = omega arith
not_empty p c (y ∷ ys) zs = omega arith

-- `delete_abonent` on a well-formed directory, with texts of less than 128 bytes, where a card
-- has the two names: it runs without a fault and reports success. Afterwards the list is the old
-- one without the first such card, its cell is freed, and no cell outside of the list has
-- changed.
pub delete_abonent_hit :
    (name second_name : Bytes) (p : Ptr) (c : Card) (ys zs : Cells) (abs : Abonents) (h : Heap)
    → IsDirectory h abs (ys ++ (p, c) ∷ zs)
    → AreShort (ys ++ (p, c) ∷ zs)
    → IsText name
    → IsText second_name
    → NoMatch name second_name ys
    → is_match name second_name c ≡ true
    → (abs' : Abonents) × (g : Heap) × (delete_abonent name second_name abs h
        ≡ some ((true, abs'), g))
      × Removed h p c ys zs abs' g
unfolding delete_abonent
delete_abonent_hit name second_name p c ys zs abs h v sh is it m hit =
    let xs = ys ++ (p, c) ∷ zs in
    let (abs', g, e, removed) = unlink_abonent_lem h p c ys zs abs v in
    let (at, ne, o, o') = Linked-at h null p c ys zs v.linked in
    let some_cells : (abs.count == 0) ≡ false = ground (arith, v.count, not_empty p c ys zs) in
    let got : (p == null) ≡ false = ground arith in
    (
      abs',
      g,
      rw (some_cells, delete_abonent)
          (rw (find_from_head name second_name h abs xs v sh is it, ◌>>=◌)
            (rw (found_first name second_name p c ys zs m hit) (rw got e))),
      removed,
    )

-- `delete_abonent` on a well-formed directory, with texts of less than 128 bytes, where no card
-- has the two names: it reports that, and changes nothing.
pub delete_abonent_miss :
    (name second_name : Bytes) (xs : Cells) (abs : Abonents) (h : Heap)
    → IsDirectory h abs xs
    → AreShort xs
    → IsText name
    → IsText second_name
    → NoMatch name second_name xs
    → delete_abonent name second_name abs h ≡ some ((false, abs), h)
unfolding delete_abonent
delete_abonent_miss name second_name xs abs h v sh is it m = elim (Bool-cases (abs.count == 0)) [
  | inl empty ↦ rw (empty, delete_abonent)
  | inr some_cells ↦
      rw (some_cells, delete_abonent)
        (rw (find_from_head name second_name h abs xs v sh is it, ◌>>=◌)
          (rw (found_none name second_name xs m)))
]
