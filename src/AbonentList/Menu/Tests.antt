-- ===== src/AbonentList/Menu/Tests.antt =====
-- Two abonents are added, one is deleted, and the program ends.
use eltex_lessons.Base.{
  refl, none, some, List, [], ◌∷◌, ◌++◌, arith, All, replicate, inl, inr, Option-cases,
}
use eltex_lessons.Text.{codes, before}
use eltex_lessons.AbonentList.Memory.{Ptr, null, Card, Heap}
use eltex_lessons.AbonentList.Directory.Add.{HasRoom}
use eltex_lessons.AbonentList.Menu.{Choice, add_choice, delete_choice, exit_choice, no_abonents}
use eltex_lessons.AbonentList.Menu.Views.{Allocates, IsInput}
use eltex_lessons.AbonentList.Menu.Refinement.{Ended, menu_loop_lem}

abbrev junk : Card
junk = record { name = replicate 10 7; second_name = replicate 10 7; tel = replicate 12 7 }

-- A machine with two cells.
abbrev malloc : Heap → Ptr × Card
malloc h = (elim (h 10) [ none ↦ 10 | some a ↦ elim (h 20) [ none ↦ 20 | some b ↦ null ] ], junk)

junk-HasRoom : HasRoom junk
junk-HasRoom = omega arith

malloc-Allocates : Allocates malloc
malloc-Allocates h = elim (Option-cases (h 10)) [
  | inl e ↦ rw e (inr (λ z. omega arith, e, junk-HasRoom))
  | inr (a, e) ↦ elim (Option-cases (h 20)) [
    | inl f ↦ rw (e, f) (inr (λ z. omega arith, f, junk-HasRoom))
    | inr (b, f) ↦ rw (e, f) (inl refl)
  ]
]

abbrev ann : Card
ann = record {
  name = codes "Ann" ++ 0 ∷ [];
  second_name = codes "Lee" ++ 0 ∷ [];
  tel = codes "123" ++ 0 ∷ [];
}

abbrev bob : Card
bob = record {
  name = codes "Bob" ++ 0 ∷ [];
  second_name = codes "Ray" ++ 0 ∷ [];
  tel = codes "45" ++ 0 ∷ [];
}

abbrev choices : List Choice
choices = add_choice ann ∷ add_choice bob ∷ delete_choice ann.name ann.second_name ∷ []

choices-IsInput : All IsInput choices
unfolding before
choices-IsInput = omega arith

menu_loop_lem_example : Ended malloc (choices ++ exit_choice ∷ []) no_abonents (λ a. none) []
menu_loop_lem_example = menu_loop_lem malloc choices [] malloc-Allocates choices-IsInput
