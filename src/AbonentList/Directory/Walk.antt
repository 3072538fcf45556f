-- ===== src/AbonentList/Directory/Walk.antt =====
-- The walks of displayPrint.c and clear.c over the whole list.
use eltex_lessons.Base.{
  ℕ, zero, suc, ◌+◌, ◌<◌, ◌≡◌, ◌≢◌, refl, ◌∙◌, ap, true, false, none, some, List, [], ◌∷◌, arith,
  ◌==◌, length, Bool-cases, inl, inr,
}
use eltex_lessons.AbonentList.Memory.{Ptr, null, Abonent, abonent, Abonents, Heap, put, ◌>>=◌, ◌>>◌}
use eltex_lessons.AbonentList.Directory.{
  display_loop, display_all, display_all_reverse, clear_loop, clear_directory, Line, line,
}
use eltex_lessons.AbonentList.Directory.Chain.{Cells, has, first, last, Linked, IsDirectory, frame}
use eltex_lessons.AbonentList.Directory.Steps.{load_cell, free_cell, put_ne, put_self}

-- One of the pointers of each cell leads to the cell behind, NULL at the end.
abbrev Leads : (Abonent → Ptr) → Heap → Cells → Type 0
Leads step h [] = Unit
Leads step h ((p, c) ∷ xs) =
    (p ≢ null)
    × ((n : Abonent) × (h p ≡ some n) × (n.card ≡ c) × (step n ≡ first xs))
    × Leads step h xs

-- The lines of all cells, numbered from `i + 1` on.
abbrev pub numbered : ℕ → Cells → List Line
numbered i [] = []
numbered i ((p, c) ∷ xs) = line (i + 1) c ∷ numbered (i + 1) xs

display_loop_lem :
    (step : Abonent → Ptr) (fuel i : ℕ) (h : Heap) (xs : Cells)
    → Leads step h xs
    → length xs < fuel
    → display_loop step fuel i (first xs) h ≡ some (numbered i xs, h)
unfolding display_loop
display_loop_lem step zero i h xs l lt = absurd (omega arith)
display_loop_lem step (suc fuel) i h [] l lt = refl
display_loop_lem step (suc fuel) i h ((p, c) ∷ xs) (ne, (n, e, same, to), l) lt =
    let not_null : (p == null) ≡ false = ground arith in
    rw (not_null, display_loop)
      (rw (load_cell h p n ne e, ◌>>=◌)
        (rw (to, display_loop_lem step fuel (i + 1) h xs l (omega arith), ◌>>=◌)
          (ap (λ k. some (line (i + 1) k ∷ numbered (i + 1) xs, h)) same)))

Linked-Leads : (h : Heap) (q : Ptr) (xs : Cells) → Linked h q xs → Leads (λ n. n.next) h xs
Linked-Leads h q [] l = tt
Linked-Leads h q ((p, c) ∷ xs) (ne, e, o, l) =
    (ne, (abonent c (first xs) q, e, refl, refl), Linked-Leads h p xs l)

-- The cells of `xs` backwards, then `zs`.
abbrev pub back_onto : Cells → Cells → Cells
back_onto [] zs = zs
back_onto (x ∷ xs) zs = back_onto xs (x ∷ zs)

Linked-back :
    (h : Heap) (xs zs : Cells)
    → Linked h (first zs) xs
    → Leads (λ n. n.prev) h zs
    → Leads (λ n. n.prev) h (back_onto xs zs)
Linked-back h [] zs l b = b
Linked-back h ((p, c) ∷ xs) zs (ne, e, o, l) b =
    Linked-back h xs ((p, c) ∷ zs) l (ne, (abonent c (first xs) (first zs), e, refl, refl), b)

first-back : (xs zs : Cells) → last (first zs) xs ≡ first (back_onto xs zs)
first-back [] zs = refl
first-back ((p, c) ∷ xs) zs = first-back xs ((p, c) ∷ zs)

length-back : (xs zs : Cells) → length (back_onto xs zs) ≡ length xs + length zs
length-back [] zs = omega arith
length-back (x ∷ xs) zs = omega (arith, length-back xs (x ∷ zs))

-- `display_all` on a well-formed directory runs without a fault, changes nothing and prints the
-- cards in the order of the list, numbered from 1.
pub display_all_lem :
    (xs : Cells) (abs : Abonents) (h : Heap)
    → IsDirectory h abs xs
    → display_all abs h ≡ some (numbered 0 xs, h)
unfolding display_all
display_all_lem [] abs h v = let e : abs.count ≡ 0 = v.count in rw (e, display_all)
display_all_lem ((p, c) ∷ xs) abs h v =
    let some_cells : (abs.count == 0) ≡ false = ground (arith, v.count) in
    rw (some_cells, display_all)
      (rw v.head (
        display_loop_lem (λ n. n.next) (abs.count + 1) 0 h ((p, c) ∷ xs)
          (Linked-Leads h null ((p, c) ∷ xs) v.linked) (omega (arith, v.count))))

-- `display_all_reverse` on a well-formed directory runs without a fault, changes nothing and
-- prints the cards in the reverse of the order of the list, numbered from 1.
pub display_all_reverse_lem :
    (xs : Cells) (abs : Abonents) (h : Heap)
    → IsDirectory h abs xs
    → display_all_reverse abs h ≡ some (numbered 0 (back_onto xs []), h)
unfolding display_all_reverse
display_all_reverse_lem [] abs h v = let e : abs.count ≡ 0 = v.count in rw (e, display_all_reverse)
display_all_reverse_lem ((p, c) ∷ xs) abs h v =
    let all = back_onto ((p, c) ∷ xs) [] in
    let some_cells : (abs.count == 0) ≡ false = ground (arith, v.count) in
    let start : abs.tail ≡ first all = v.tail ∙ first-back ((p, c) ∷ xs) [] in
    rw (some_cells, display_all_reverse)
      (rw start (
        display_loop_lem (λ n. n.prev) (abs.count + 1) 0 h all
          (Linked-back h ((p, c) ∷ xs) [] v.linked tt)
          (omega (arith, v.count, length-back ((p, c) ∷ xs) []))))

-- The heap without the cells of the list.
abbrev freed : Heap → Cells → Heap
freed h [] = h
freed h ((p, c) ∷ xs) = freed (put h p none) xs

freed_miss : (h : Heap) (a : Ptr) (xs : Cells) → has a xs ≡ false → freed h xs a ≡ h a
freed_miss h a [] o = refl
freed_miss h a ((p, c) ∷ xs) o =
    freed_miss (put h p none) a xs (ground arith) ∙ put_ne h p a none (ground arith)

freed_hit : (h : Heap) (a : Ptr) (xs : Cells) → has a xs ≡ true → freed h xs a ≡ none
freed_hit h a [] i = cc
freed_hit h a ((p, c) ∷ xs) i = elim (Bool-cases (has a xs)) [
  | inl in_rest ↦ freed_hit (put h p none) a xs in_rest
  | inr not_in_rest ↦
      let same : a ≡ p = ground arith in
      freed_miss (put h p none) a xs not_in_rest ∙ ap (put h p none) same ∙ put_self h p none
]

clear_loop_lem :
    (fuel : ℕ) (h : Heap) (q : Ptr) (xs : Cells)
    → Linked h q xs
    → length xs < fuel
    → clear_loop fuel (first xs) h ≡ some (tt, freed h xs)
unfolding clear_loop
clear_loop_lem zero h q xs l lt = absurd (omega arith)
clear_loop_lem (suc fuel) h q [] l lt = refl
clear_loop_lem (suc fuel) h q ((p, c) ∷ xs) (ne, e, o, l) lt =
    let not_null : (p == null) ≡ false = ground arith in
    let rest = frame (put h p none) h p xs l (λ a i. put_ne h p a none (ground arith)) in
    rw (not_null, clear_loop)
      (rw (load_cell h p (abonent c (first xs) q) ne e, ◌>>=◌, ◌>>◌)
        (rw (free_cell h p (abonent c (first xs) q) ne e, ◌>>=◌, ◌>>◌)
          (clear_loop_lem fuel (put h p none) p xs rest (omega arith))))

-- `clear_directory` on a well-formed directory runs without a fault: afterwards the directory is
-- the empty one, each cell of the old list is freed, and no other cell has changed.
pub clear_directory_lem :
    (xs : Cells) (abs : Abonents) (h : Heap)
    → IsDirectory h abs xs
    → (abs' : Abonents) × (g : Heap) × (clear_directory abs h ≡ some (abs', g))
      × IsDirectory g abs' []
      × ((a : Ptr) → has a xs ≡ true → g a ≡ none)
      × ((a : Ptr) → has a xs ≡ false → g a ≡ h a)
unfolding clear_directory
clear_directory_lem xs abs h v =
    let run = clear_loop_lem (abs.count + 1) h null xs v.linked (omega (arith, v.count)) in
    let run' : clear_loop (abs.count + 1) abs.head h ≡ some (tt, freed h xs) =
      ap (λ a. clear_loop (abs.count + 1) a h) v.head ∙ run in
    let null_free : freed h xs null ≡ none = elim (Bool-cases (has null xs)) [
      | inl i ↦ freed_hit h null xs i
      | inr o ↦ freed_miss h null xs o ∙ v.no_null
    ] in
    (
      record { head = null; tail = null; count = 0 },
      freed h xs,
      rw (run', clear_directory, ◌>>=◌, ◌>>◌),
      record { no_null = null_free; linked = tt; head = refl; tail = refl; count = refl },
      (λ a i. freed_hit h a xs i),
      (λ a o. freed_miss h a xs o),
    )
