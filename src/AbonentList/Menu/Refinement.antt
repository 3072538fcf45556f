-- ===== src/AbonentList/Menu/Refinement.antt =====
-- The program on its heap does what it promises.
use eltex_lessons.Base.{
  ◌≡◌, refl, ◌∙◌, sym, Bool, true, false, none, some, List, [], ◌∷◌, ◌++◌, All, if◌then◌else◌,
  Bool-cases, inl, inr,
}
use mathlib.Core.Path.{subst}
use eltex_lessons.AbonentList.Memory.{Ptr, Card, Abonents, Heap, ◌>>=◌, pure}
use eltex_lessons.AbonentList.Directory.{clear_directory}
use eltex_lessons.AbonentList.Directory.Chain.{Cells, has}
use eltex_lessons.AbonentList.Directory.Walk.{clear_directory_lem}
use eltex_lessons.AbonentList.Menu.{
  Choice, add_choice, delete_choice, search_choice, all_choice, reverse_choice, exit_choice,
  other_choice, Shown, nothing, no_abonents, choose, is_exit, menu_loop,
}
use eltex_lessons.AbonentList.Menu.Promise.{Entry, Does, Session, leave, go_on}
use eltex_lessons.AbonentList.Menu.Views.{view, IsKept, Allocates, IsInput}
use eltex_lessons.AbonentList.Menu.Steps.{gives, bind_some, step}

exit_lem : (c : Choice) → is_exit c ≡ true → c ≡ exit_choice
exit_lem (add_choice given) e = absurd cc
exit_lem (delete_choice name second_name) e = absurd cc
exit_lem (search_choice name) e = absurd cc
exit_lem all_choice e = absurd cc
exit_lem reverse_choice e = absurd cc
exit_lem exit_choice e = refl
exit_lem other_choice e = absurd cc

-- Whether malloc returns a cell in the rounds of the loop, on the heaps that the program reaches.
abbrev pub given_cells : (Heap → Ptr × Card) → List Choice → Abonents → Heap → List Bool
given_cells malloc [] abs h = []
given_cells malloc (c ∷ cs) abs h = elim (choose malloc c abs h) [
  | none ↦ []
  | some r ↦ gives malloc h ∷ given_cells malloc cs r.0.1 r.1
]

-- The loop ends, and has given back all memory.
abbrev pub Ended : (Heap → Ptr × Card) → List Choice → Abonents → Heap → List Entry → Type 0
Ended malloc cs abs h es =
    (out : List Shown) × (abs' : Abonents) × (g : Heap) × (menu_loop malloc cs abs h
      ≡ some ((out, abs'), g))
    × Session (given_cells malloc cs abs h) cs es out
    × ((a : Ptr) → g a ≡ none)

at_exit :
    (malloc : Heap → Ptr × Card) (rest : List Choice) (abs : Abonents) (h : Heap) (xs : Cells)
    → IsKept h abs xs
    → Ended malloc (exit_choice ∷ rest) abs h (view xs)
unfolding menu_loop choose
at_exit malloc rest abs h xs v =
    let (abs', g, run, empty, gone, others) = clear_directory_lem xs abs h v.list in
    let chosen : choose malloc exit_choice abs h ≡ some ((nothing, abs'), g) =
      bind_some (clear_directory abs) (λ b. pure (nothing, b)) h g abs' run in
    (
      nothing ∷ [],
      abs',
      g,
      bind_some (choose malloc exit_choice abs) (λ r. pure (r.0 ∷ [], r.1)) h g (nothing, abs')
          chosen,
      leave,
      λ a. elim (Bool-cases (has a xs)) [
        | inl inside ↦ gone a inside
        | inr outside ↦ others a outside ∙ v.alone a outside
      ],
    )

menu_loop_step :
    (malloc : Heap → Ptr × Card) (c : Choice) (cs : List Choice) (abs abs' : Abonents) (h g : Heap)
    (s : Shown) (es fs : List Entry)
    → is_exit c ≡ false
    → choose malloc c abs h ≡ some ((s, abs'), g)
    → Does (gives malloc h) c es s fs
    → Ended malloc cs abs' g fs
    → Ended malloc (c ∷ cs) abs h es
unfolding menu_loop
menu_loop_step malloc c cs abs abs' h g s es fs stays run does
      (out, abs'', g', more, session, empty) =
    let answers : given_cells malloc (c ∷ cs) abs h
        ≡ gives malloc h ∷ given_cells malloc cs abs' g =
      rw (run, given_cells) refl in
    (
      s ∷ out,
      abs'',
      g',
      bind_some (choose malloc c abs)
            (λ r.
              if is_exit c
              then pure (r.0 ∷ [], r.1)
              else (menu_loop malloc cs r.1 >>= λ q. pure (r.0 ∷ q.0, q.1)))
            h g (s, abs') run
          ∙ rw stays (
              bind_some (menu_loop malloc cs abs') (λ q. pure (s ∷ q.0, q.1)) g g' (out, abs'')
                more),
      subst (λ bs. Session bs (c ∷ cs) es (s ∷ out)) (sym answers) (go_on does session),
      empty,
    )

ended :
    (malloc : Heap → Ptr × Card) (cs rest : List Choice) (abs : Abonents) (h : Heap) (xs : Cells)
    → Allocates malloc
    → All IsInput cs
    → IsKept h abs xs
    → Ended malloc (cs ++ exit_choice ∷ rest) abs h (view xs)
ended malloc [] rest abs h xs alloc is v = at_exit malloc rest abs h xs v
ended malloc (c ∷ cs) rest abs h xs alloc is v = elim (Bool-cases (is_exit c)) [
  | inl last ↦
      subst (λ d. Ended malloc (d ∷ (cs ++ exit_choice ∷ rest)) abs h (view xs))
        (sym (exit_lem c last)) (at_exit malloc (cs ++ exit_choice ∷ rest) abs h xs v)
  | inr stays ↦
      let (s, abs', g, ys, run, v', does) = step malloc c abs h xs alloc is.0 stays v in
      menu_loop_step malloc c (cs ++ exit_choice ∷ rest) abs abs' h g s (view xs) (view ys) stays
        run does (ended malloc cs rest abs' g ys alloc is.1 v')
]

-- The program, from an empty heap, for any choices and texts that are typed up to an exit, and
-- whichever free cells malloc returns or wherever it returns NULL: it runs to its end without a
-- fault, shows what the promise says, where an abonent is added in exactly the rounds in which malloc
-- returns a cell, and at the end no cell is left on the heap.
pub menu_loop_lem :
    (malloc : Heap → Ptr × Card) (cs rest : List Choice)
    → Allocates malloc
    → All IsInput cs
    → Ended malloc (cs ++ exit_choice ∷ rest) no_abonents (λ a. none) []
menu_loop_lem malloc cs rest alloc is =
    ended malloc cs rest no_abonents (λ a. none) [] alloc is
      record {
        list = record { no_null = refl; linked = tt; head = refl; tail = refl; count = refl };
        short = tt;
        alone = λ a o. refl;
      }
