-- ===== src/AbonentList/Menu/Steps.antt =====
-- A choice from the menu, on the heap and on the entries.
use eltex_lessons.Base.{
  ◌≡◌, refl, ◌∙◌, ap, sym, Bool, not, true, false, none, some, [], ◌∷◌, ◌++◌, arith, ◌==◌,
  Bool-cases, inl, inr,
}
use mathlib.Core.Path.{subst}
use eltex_lessons.Text.{Bytes}
use eltex_lessons.AbonentList.Strings.{IsText}
use eltex_lessons.AbonentList.Memory.{Ptr, null, Card, Abonents, Heap, M, ◌>>=◌, pure}
use eltex_lessons.AbonentList.Directory.{
  add_abonent, delete_abonent, search_by_name, display_all, display_all_reverse,
}
use eltex_lessons.AbonentList.Directory.Chain.{Cells, has, IsDirectory, has-append}
use eltex_lessons.AbonentList.Directory.Unlink.{Removed}
use eltex_lessons.AbonentList.Directory.Add.{IsCard, add_abonent_lem, add_abonent-null}
use eltex_lessons.AbonentList.Directory.Find.{AreShort, matching, search_by_name_lem}
use eltex_lessons.AbonentList.Directory.Delete.{delete_abonent_hit, delete_abonent_miss}
use eltex_lessons.AbonentList.Directory.Walk.{
  numbered, back_onto, display_all_lem, display_all_reverse_lem,
}
use eltex_lessons.AbonentList.Menu.{
  Choice, add_choice, delete_choice, search_choice, all_choice, reverse_choice, exit_choice,
  other_choice, Shown, nothing, deleted, table, choose, is_exit,
}
use eltex_lessons.AbonentList.Menu.Promise.{
  kept, entry_lines, reversed_onto, Does, added, no_memory, deleted_first, not_found, searched,
  listed, listed_back, ignored,
}
use eltex_lessons.AbonentList.Menu.Views.{
  entry, view, IsKept, Allocates, IsInput, view-append, numbered_lem, view-back_onto, matching_lem,
  AreShort-append, AreShort-split, first_match, NoMatch-view, copy-IsShort, copy_entry,
}

pub bind_some :
    {A B : Type 0}
    → (act : M A) (rest : A → M B) (h g : Heap) (a : A) → act h ≡ some (a, g)
    → (act >>= rest) h ≡ rest a g
bind_some act rest h g a e = rw (e, ◌>>=◌) refl

outside_old :
    (a fresh : Ptr) (c : Card) (xs : Cells)
    → has a (xs ++ (fresh, c) ∷ []) ≡ false
    → (has a ((fresh, c) ∷ xs) ≡ false) × (has a xs ≡ false)
outside_old a fresh c xs o = ground (arith, has-append a xs ((fresh, c) ∷ []))

outside_whole :
    (a p : Ptr) (c : Card) (ys zs : Cells)
    → has a (ys ++ zs) ≡ false
    → (a == p) ≡ false
    → has a (ys ++ (p, c) ∷ zs) ≡ false
outside_whole a p c ys zs o ne = ground (arith, has-append a ys zs, has-append a ys ((p, c) ∷ zs))

alone_without :
    (h g : Heap) (a p : Ptr) (c : Card) (abs : Abonents) (ys zs : Cells)
    → ((b : Ptr) → has b (ys ++ (p, c) ∷ zs) ≡ false → h b ≡ none)
    → Removed h p c ys zs abs g
    → has a (ys ++ zs) ≡ false
    → g a ≡ none
alone_without h g a p c abs ys zs alone gone o = elim (Bool-cases (a == p)) [
  | inl same ↦ let at : a ≡ p = ground arith in ap g at ∙ gone.freed
  | inr other ↦ let out = outside_whole a p c ys zs o other in gone.others a out ∙ alone a out
]

-- Whether malloc returns a cell on this heap.
abbrev pub gives : (Heap → Ptr × Card) → Heap → Bool
gives malloc h = not ((malloc h).0 == null)

-- A choice other than the exit has run.
abbrev pub Stepped : (Heap → Ptr × Card) → Choice → Abonents → Heap → Cells → Type 0
Stepped malloc c abs h xs =
    (s : Shown) × (abs' : Abonents) × (g : Heap) × (ys : Cells) × (choose malloc c abs h
      ≡ some ((s, abs'), g))
    × IsKept g abs' ys
    × Does (gives malloc h) c (view xs) s (view ys)

step_add :
    (malloc : Heap → Ptr × Card) (given : Card) (abs : Abonents) (h : Heap) (xs : Cells)
    → Allocates malloc
    → IsCard given
    → IsKept h abs xs
    → Stepped malloc (add_choice given) abs h xs
unfolding choose
step_add malloc given abs h xs alloc texts v = elim (alloc h) [
  | inl null_given ↦
      let refused : gives malloc h ≡ false = ap (λ p. not (p == null)) null_given in
      let run : add_abonent (malloc h).0 (malloc h).1 given abs h ≡ some (abs, h) =
        ap (λ p. add_abonent p (malloc h).1 given abs h) null_given
        ∙ add_abonent-null (malloc h).1 given abs h in
      (
        nothing,
        abs,
        h,
        xs,
        bind_some (add_abonent (malloc h).0 (malloc h).1 given abs) (λ b. pure (nothing, b)) h h abs
            run,
        v,
        subst (λ b. Does b (add_choice given) (view xs) nothing (view xs)) (sym refused) no_memory,
      )
  | inr (ne, unused, room) ↦
      let gave : gives malloc h ≡ true = ground (arith, ne) in
      let (c, abs', g, run, new, valid, copy) =
        add_abonent_lem (malloc h).0 (malloc h).1 given xs abs h ne unused room texts v.list in
      let ys = xs ++ ((malloc h).0, c) ∷ [] in
      let shape : view ys ≡ view xs ++ kept given ∷ [] =
        view-append xs (((malloc h).0, c) ∷ [])
        ∙ ap (λ e. view xs ++ e ∷ []) (copy_entry c given copy) in
      (
        nothing,
        abs',
        g,
        ys,
        bind_some (add_abonent (malloc h).0 (malloc h).1 given abs) (λ b. pure (nothing, b)) h g
            abs' run,
        record {
          list = new.list;
          short =
              AreShort-append xs (((malloc h).0, c) ∷ []) v.short
                (copy-IsShort c given valid copy, tt);
          alone = λ a o.
              let out = outside_old a (malloc h).0 c xs o in new.others a out.0 ∙ v.alone a out.1;
        },
        subst (λ b. Does b (add_choice given) (view xs) nothing (view ys)) (sym gave)
            (subst (λ es. Does true (add_choice given) (view xs) nothing es) (sym shape) added),
      )
]

step_delete :
    (malloc : Heap → Ptr × Card) (name second_name : Bytes) (abs : Abonents) (h : Heap) (xs : Cells)
    → IsText name
    → IsText second_name
    → IsKept h abs xs
    → Stepped malloc (delete_choice name second_name) abs h xs
unfolding choose
step_delete malloc name second_name abs h xs is it v = elim (first_match name second_name xs) [
  | inl m ↦ (
    deleted false,
    abs,
    h,
    xs,
    bind_some (delete_abonent name second_name abs) (λ r. pure (deleted r.0, r.1)) h h (false, abs)
        (delete_abonent_miss name second_name xs abs h v.list v.short is it m),
    v,
    not_found (NoMatch-view name second_name xs m),
  )
  | inr (ys, p, c, zs, e, m, hit) ↦
      let whole = ys ++ (p, c) ∷ zs in
      let short = subst AreShort e v.short in
      let (abs', g, run, gone) =
        delete_abonent_hit name second_name p c ys zs abs h (subst (IsDirectory h abs) e v.list)
          short is it m hit in
      let parts = AreShort-split ys ((p, c) ∷ zs) short in
      let before_shape : view xs ≡ view ys ++ entry c ∷ view zs =
        ap view e ∙ view-append ys ((p, c) ∷ zs) in
      (
        deleted true,
        abs',
        g,
        ys ++ zs,
        bind_some (delete_abonent name second_name abs) (λ r. pure (deleted r.0, r.1)) h g
            (true, abs') run,
        record {
          list = gone.list;
          short = AreShort-append ys zs parts.0 parts.1.1;
          alone = λ a o.
              alone_without h g a p c abs' ys zs (λ b out. v.alone b (ap (has b) e ∙ out)) gone o;
        },
        subst
            (λ es.
              Does (gives malloc h) (delete_choice name second_name) es (deleted true)
                (view (ys ++ zs)))
            (sym before_shape)
            (subst
              (λ fs.
                Does (gives malloc h) (delete_choice name second_name)
                  (view ys ++ entry c ∷ view zs) (deleted true) fs)
              (sym (view-append ys zs))
              (deleted_first (view ys) (view zs) (entry c) (NoMatch-view name second_name ys m)
                hit)),
      )
]

-- Every choice but the exit.
pub step :
    (malloc : Heap → Ptr × Card) (c : Choice) (abs : Abonents) (h : Heap) (xs : Cells)
    → Allocates malloc
    → IsInput c
    → is_exit c ≡ false
    → IsKept h abs xs
    → Stepped malloc c abs h xs
unfolding choose
step malloc (add_choice given) abs h xs alloc i stays v = step_add malloc given abs h xs alloc i v
step malloc (delete_choice name second_name) abs h xs alloc i stays v =
    step_delete malloc name second_name abs h xs i.0 i.1 v
step malloc (search_choice name) abs h xs alloc i stays v = (
  table (matching name 0 xs),
  abs,
  h,
  xs,
  bind_some (search_by_name name abs) (λ ls. pure (table ls, abs)) h h (matching name 0 xs)
      (search_by_name_lem name xs abs h v.list v.short i),
  v,
  subst (λ ls. Does (gives malloc h) (search_choice name) (view xs) (table ls) (view xs))
      (sym (matching_lem name 0 xs)) searched,
)
step malloc all_choice abs h xs alloc i stays v = (
  table (numbered 0 xs),
  abs,
  h,
  xs,
  bind_some (display_all abs) (λ ls. pure (table ls, abs)) h h (numbered 0 xs)
      (display_all_lem xs abs h v.list),
  v,
  subst (λ ls. Does (gives malloc h) all_choice (view xs) (table ls) (view xs))
      (sym (numbered_lem 0 xs)) listed,
)
step malloc reverse_choice abs h xs alloc i stays v =
    let back = back_onto xs [] in
    let lines : numbered 0 back ≡ entry_lines 0 (reversed_onto (view xs) []) =
      numbered_lem 0 back ∙ ap (entry_lines 0) (view-back_onto xs []) in
    (
      table (numbered 0 back),
      abs,
      h,
      xs,
      bind_some (display_all_reverse abs) (λ ls. pure (table ls, abs)) h h (numbered 0 back)
          (display_all_reverse_lem xs abs h v.list),
      v,
      subst (λ ls. Does (gives malloc h) reverse_choice (view xs) (table ls) (view xs)) (sym lines)
          listed_back,
    )
step malloc exit_choice abs h xs alloc i stays v = absurd cc
step malloc other_choice abs h xs alloc i stays v = (nothing, abs, h, xs, refl, v, ignored)
