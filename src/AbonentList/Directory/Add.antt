-- ===== src/AbonentList/Directory/Add.antt =====
-- `add_abonent`: a new cell at the end of the list.
use eltex_lessons.Base.{
  ℕ, ◌+◌, ◌≤◌, ◌≡◌, ◌≢◌, refl, ◌∙◌, sym, true, false, none, some, [], ◌∷◌, ◌++◌, arith, ◌==◌,
  length, length-append, take,
}
use eltex_lessons.Text.{before}
use eltex_lessons.AbonentList.Strings.{IsText}
use eltex_lessons.AbonentList.Strings.Laws.{my_strncpy_lem}
use eltex_lessons.AbonentList.Memory.{
  Ptr, null, Card, Abonent, abonent, Abonents, Heap, put, ◌>>=◌, ◌>>◌,
}
use eltex_lessons.AbonentList.Directory.{create_abonent, append_abonent, add_abonent}
use eltex_lessons.AbonentList.Directory.Chain.{
  Cells, has, last, IsDirectory, has-last, with_last, Linked-with_last, Linked-has, last-append,
  not-has_of_none, apart,
}
use eltex_lessons.AbonentList.Directory.Steps.{put_ne, put_self, set_next_cell, set_prev_cell}

-- The buffers of a cell are large enough.
abbrev pub HasRoom : Card → Type 0
HasRoom junk = (10 ≤ length junk.name) × (10 ≤ length junk.second_name) × (12 ≤ length junk.tel)

abbrev pub IsCard : Card → Type 0
IsCard c = IsText c.name × IsText c.second_name × IsText c.tel

-- The texts of one card are those of another, cut to 9, 9 and 11 bytes.
abbrev pub IsCopy : Card → Card → Type 0
IsCopy c given =
    (before 0 c.name ≡ take 9 (before 0 given.name))
    × (before 0 c.second_name ≡ take 9 (before 0 given.second_name))
    × (before 0 c.tel ≡ take 11 (before 0 given.tel))

create_abonent_lem :
    (fresh : Ptr) (junk given : Card) (h : Heap)
    → fresh ≢ null
    → HasRoom junk
    → IsCard given
    → (c : Card) × (create_abonent fresh junk given h
        ≡ some (fresh, put h fresh (some (abonent c null null))))
      × IsCard c
      × IsCopy c given
unfolding create_abonent
create_abonent_lem fresh junk given h ne room texts =
    let (a, ea, ta, ia) = my_strncpy_lem junk.name given.name 10 (omega arith) room.0 texts.0 in
    let (b, eb, tb, ib) =
      my_strncpy_lem junk.second_name given.second_name 10 (omega arith) room.1 texts.1 in
    let (t, et, tt', it) = my_strncpy_lem junk.tel given.tel 12 (omega arith) room.2 texts.2 in
    let got : (fresh == null) ≡ false = ground arith in
    (
      record { name = a; second_name = b; tel = t },
      rw (got, create_abonent) (rw (ea, ◌>>=◌) (rw (eb, ◌>>=◌) (rw (et, ◌>>=◌)))),
      (ia, ib, it),
      (ta, tb, tt'),
    )

put_link :
    (h : Heap) (fresh q a : Ptr) (m x : Abonent) (c : Card)
    → h q ≡ some m
    → (q == fresh) ≡ false
    → put
        (put (put h fresh (some x)) q (some (record m { next = fresh })))
        fresh
        (some (abonent c null q))
        a
      ≡ with_last h q fresh c a
unfolding put
put_link h fresh q a m x c e ne = ground arith

-- The heap and the list after a card has been added in the cell `fresh`.
pub record Added (h : Heap) (fresh : Ptr) (c : Card) (xs : Cells) (abs : Abonents) (g : Heap)
    : Type 0 where
  pub list : IsDirectory g abs (xs ++ (fresh, c) ∷ [])
  pub others : (a : Ptr) → has a ((fresh, c) ∷ xs) ≡ false → g a ≡ h a

with_last-null :
    (h : Heap) (fresh q : Ptr) (c : Card)
    → fresh ≢ null
    → h null ≡ none
    → with_last h q fresh c null ≡ none
with_last-null h fresh q c ne e = ground arith

with_last_others :
    (h : Heap) (fresh q a : Ptr) (c : Card)
    → (a == fresh) ≡ false
    → (a == q) ≡ false
    → with_last h q fresh c a ≡ h a
with_last_others h fresh q a c x y = rw (x, y)

outside_parts :
    (a fresh : Ptr) (c : Card) (xs : Cells)
    → has a ((fresh, c) ∷ xs) ≡ false
    → ((a == fresh) ≡ false) × (has a xs ≡ false)
outside_parts a fresh c xs o = ground arith

append_cells :
    (fresh : Ptr) (c : Card) (xs : Cells) (abs : Abonents) (h : Heap)
    → fresh ≢ null
    → h fresh ≡ none
    → IsDirectory h abs xs
    → (abs' : Abonents) × (g : Heap) × (append_abonent fresh abs
          (put h fresh (some (abonent c null null)))
        ≡ some (abs', g))
      × Added h fresh c xs abs' g
unfolding append_abonent
append_cells fresh c [] abs h ne unused v =
    let h₀ = put h fresh (some (abonent c null null)) in
    let empty : (abs.head == null) ≡ true = ground arith in
    (
      record { head = fresh; tail = fresh; count = abs.count + 1 },
      h₀,
      rw empty,
      record {
        list = record {
          no_null = put_ne h fresh null _ (ground arith) ∙ v.no_null;
          linked = (ne, put_self h fresh _, refl, tt);
          head = refl;
          tail = refl;
          count = omega (arith, v.count);
        };
        others = λ a o. put_ne h fresh a _ (ground arith);
      },
    )
append_cells fresh c ((p, k) ∷ xs) abs h ne unused v =
    let q = last p xs in
    let all = (p, k) ∷ xs in
    let x = abonent c null null in
    let h₀ = put h fresh (some x) in
    let out = not-has_of_none h null fresh all v.linked unused in
    let (m, f, nq) = Linked-has h null q all v.linked (has-last p k xs) in
    let fq = apart q fresh all (has-last p k xs) out in
    let qf = swap_ne fresh q fq in
    let f₀ = put_ne h fresh q _ qf ∙ f in
    let h₁ = put h₀ q (some (record m { next = fresh })) in
    let g = put h₁ fresh (some (abonent c null q)) in
    let same = λ (a : Ptr). put_link h fresh q a m x c f qf in
    let full : (abs.head == null) ≡ false = at_head p v.linked.0 v.head in
    (
      record { head = abs.head; tail = fresh; count = abs.count + 1 },
      g,
      rw (full, append_abonent)
          (rw v.tail (
            rw (set_next_cell h₀ q m nq f₀ fresh, ◌>>=◌, ◌>>◌)
              (rw (
                set_prev_cell h₁ fresh x ne (put_ne h₀ q fresh _ fq ∙ put_self h fresh (some x)) q,
                ◌>>=◌,
                ◌>>◌,
              )))),
      record {
        list = record {
          no_null = same null ∙ with_last-null h fresh q c ne v.no_null;
          linked = Linked-with_last g h fresh null p k c xs v.linked ne out same;
          head = v.head;
          tail = sym (last-append p fresh c xs []);
          count = omega (arith, v.count, length-append {0} xs ((fresh, c) ∷ []));
        };
        others = λ a o.
            let (x', y) = outside_parts a fresh c all o in
            same a ∙ with_last_others h fresh q a c x' (apart q a all (has-last p k xs) y);
      },
    )
  where
    swap_ne : (a b : ℕ) → (a == b) ≡ false → (b == a) ≡ false
    swap_ne a b e = ground arith

    at_head : (p : ℕ) → p ≢ null → abs.head ≡ p → (abs.head == null) ≡ false
    at_head p n e = ground arith

-- `add_abonent` on a well-formed directory, for texts in buffers, when malloc returns a free
-- cell: it runs without a fault, and the list is the old one with a new last card, whose texts
-- are those that were read, cut to 9, 9 and 11 bytes. No cell outside of the new list has
-- changed.
pub add_abonent_lem :
    (fresh : Ptr) (junk given : Card) (xs : Cells) (abs : Abonents) (h : Heap)
    → fresh ≢ null
    → h fresh ≡ none
    → HasRoom junk
    → IsCard given
    → IsDirectory h abs xs
    → (c : Card) × (abs' : Abonents) × (g : Heap) × (add_abonent fresh junk given abs h
        ≡ some (abs', g))
      × Added h fresh c xs abs' g
      × IsCard c
      × IsCopy c given
unfolding add_abonent
add_abonent_lem fresh junk given xs abs h ne unused room texts v =
    let (c, e, valid, copy) = create_abonent_lem fresh junk given h ne room texts in
    let (abs', g, e', added) = append_cells fresh c xs abs h ne unused v in
    let got : (fresh == null) ≡ false = ground arith in
    (c, abs', g, rw (e, add_abonent, ◌>>=◌) (rw got e'), added, valid, copy)

-- When malloc fails nothing changes.
pub add_abonent-null :
    (junk given : Card) (abs : Abonents) (h : Heap)
    → add_abonent null junk given abs h ≡ some (abs, h)
unfolding add_abonent create_abonent
add_abonent-null junk given abs h = refl
