-- ===== src/AbonentList/Directory/Tests.antt =====
-- The directory at concrete inputs: two subscribers on a heap.
use eltex_lessons.Base.{◌≡◌, refl, true, none, some, [], ◌∷◌, ◌++◌, arith, ◌==◌, if◌then◌else◌}
use eltex_lessons.Text.{Bytes, codes, before, same_text}
use eltex_lessons.AbonentList.Strings.{IsText}
use eltex_lessons.AbonentList.Memory.{Card, abonent, Abonents, Heap}
use eltex_lessons.AbonentList.Directory.{delete_abonent}
use eltex_lessons.AbonentList.Directory.Chain.{Cells, IsDirectory}
use eltex_lessons.AbonentList.Directory.Unlink.{Removed}
use eltex_lessons.AbonentList.Directory.Find.{AreShort, is_match}
use eltex_lessons.AbonentList.Directory.Delete.{NoMatch, delete_abonent_hit}

-- A text in a buffer.
abbrev buffer : Bytes → Bytes
buffer s = s ++ 0 ∷ 0 ∷ []

abbrev ann : Card
ann = record {
  name = buffer (codes "Ann");
  second_name = buffer (codes "Lee");
  tel = buffer (codes "123");
}

abbrev bob : Card
bob = record {
  name = buffer (codes "Bob");
  second_name = buffer (codes "Ray");
  tel = buffer (codes "45");
}

abbrev two_cells : Cells
two_cells = (10, ann) ∷ (20, bob) ∷ []

abbrev heap : Heap
heap a =
    if a == 10 then some (abonent ann 20 0) else if a == 20 then some (abonent bob 0 10) else none

abbrev directory : Abonents
directory = record { head = 10; tail = 20; count = 2 }

directory-IsDirectory : IsDirectory heap directory two_cells
directory-IsDirectory = record {
  no_null = refl;
  linked = ground arith;
  head = refl;
  tail = refl;
  count = refl;
}

two_cells-AreShort : AreShort two_cells
unfolding before
two_cells-AreShort = ground arith

bob_name-IsText : IsText (buffer (codes "Bob"))
unfolding before
bob_name-IsText = omega arith

bob_second_name-IsText : IsText (buffer (codes "Ray"))
unfolding before
bob_second_name-IsText = omega arith

ann_first-NoMatch : NoMatch (buffer (codes "Bob")) (buffer (codes "Ray")) ((10, ann) ∷ [])
unfolding before same_text
ann_first-NoMatch = (refl, tt)

bob_match : is_match (buffer (codes "Bob")) (buffer (codes "Ray")) bob ≡ true
unfolding before same_text
bob_match = refl

delete_abonent_hit_example :
    (abs' : Abonents) × (g : Heap) × (delete_abonent
        (buffer (codes "Bob"))
        (buffer (codes "Ray"))
        directory
        heap
      ≡ some ((true, abs'), g))
    × Removed heap 20 bob ((10, ann) ∷ []) [] abs' g
delete_abonent_hit_example =
    delete_abonent_hit (buffer (codes "Bob")) (buffer (codes "Ray")) 20 bob ((10, ann) ∷ []) []
      directory heap directory-IsDirectory two_cells-AreShort bob_name-IsText bob_second_name-IsText
      ann_first-NoMatch bob_match
