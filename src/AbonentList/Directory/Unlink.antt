-- ===== src/AbonentList/Directory/Unlink.antt =====
-- `delete_abonent` behind its search: the cell is unlinked from its neighbours and freed.
use eltex_lessons.Base.{
  ◌-◌, ◌≡◌, ◌≢◌, refl, ◌∙◌, ap, sym, true, false, none, some, [], ◌∷◌, ◌++◌, arith, ◌==◌,
  length-append, Bool-cases, inl, inr,
}
use mathlib.Core.List.{append-nil}
use eltex_lessons.AbonentList.Memory.{Ptr, null, Card, Abonent, abonent, Abonents, Heap, put}
use eltex_lessons.AbonentList.Directory.{unlink_abonent}
use eltex_lessons.AbonentList.Directory.Chain.{
  Cells, has, first, last, IsDirectory, has-append, has-last, without, Linked-without, Linked-has,
  Linked-at, last-append, has-parts, not-has-null, apart, Linked-disjoint,
}
use eltex_lessons.AbonentList.Directory.Steps.{
  put_ne, unlink_next_first, unlink_next_cell, unlink_prev_last, unlink_prev_cell, unlink_steps,
}

-- After the cell `p`, between `ys` and `zs`, is gone: the list is the others, in order, the cell
-- is freed, and no cell outside of the list has changed.
pub record Removed (h : Heap) (p : Ptr) (c : Card) (ys zs : Cells) (abs : Abonents) (g : Heap)
    : Type 0 where
  pub list : IsDirectory g abs (ys ++ zs)
  pub freed : g p ≡ none
  pub others : (a : Ptr) → has a (ys ++ (p, c) ∷ zs) ≡ false → g a ≡ h a

others_apart :
    (h : Heap) (a p q n : Ptr)
    → (a == p) ≡ false
    → (a == q) ≡ false
    → (a == n) ≡ false
    → without h q p n a ≡ h a
others_apart h a p q n x y z = rw (x, y, z)

null_apart : (h : Heap) (p q n : Ptr) → p ≢ null → h null ≡ none → without h q p n null ≡ none
null_apart h p q n ne e = ground arith

-- An address outside of a list is not its first or last one, unless that is NULL.
not_first : (a : Ptr) (xs : Cells) → has a xs ≡ false → a ≢ null → (a == first xs) ≡ false
not_first a [] o ne = ground arith
not_first a ((p, c) ∷ xs) o ne = ground arith

not_last : (a : Ptr) (xs : Cells) → has a xs ≡ false → a ≢ null → (a == last null xs) ≡ false
not_last a [] o ne = ground arith
not_last a ((p, c) ∷ xs) o ne = ground (arith, has-last p c xs)

same_without :
    (g h : Heap) (a p : Ptr) (c : Card) (ys zs : Cells)
    → h null ≡ none
    → p ≢ null
    → has a (ys ++ (p, c) ∷ zs) ≡ false
    → ((b : Ptr) → g b ≡ without h (last null ys) p (first zs) b)
    → g a ≡ h a
same_without g h a p c ys zs hn ne o same =
    let (x, y, z) = has-parts a p c ys zs o in
    elim (Bool-cases (a == null)) [
      | inl zero' ↦ at_null zero'
      | inr pos' ↦
          same a
          ∙ others_apart h a p _ _ y (not_last a ys x (ground arith))
              (not_first a zs z (ground arith))
    ]
  where
    at_null : (a == null) ≡ true → g a ≡ h a
    at_null t =
        let e : a ≡ null = ground arith in
        rw e (same null ∙ null_apart h p (last null ys) (first zs) ne hn ∙ sym hn)

finish :
    (g h : Heap) (p : Ptr) (c : Card) (ys zs : Cells) (abs abs' : Abonents)
    → IsDirectory h abs (ys ++ (p, c) ∷ zs)
    → ((a : Ptr) → g a ≡ without h (last null ys) p (first zs) a)
    → abs'.head ≡ first (ys ++ zs)
    → abs'.tail ≡ last null (ys ++ zs)
    → abs'.count ≡ abs.count - 1
    → Removed h p c ys zs abs' g
finish g h p c ys zs abs abs' v same hd tl ct =
    let (at, ne, out, out') = Linked-at h null p c ys zs v.linked in
    record {
      list = record {
        no_null = same null ∙ null_apart h p (last null ys) (first zs) ne v.no_null;
        linked = Linked-without g h null p c ys zs v.linked (not-has-null h null _ v.linked) same;
        head = hd;
        tail = tl;
        count =
            omega (arith, ct, v.count, length-append {0} ys ((p, c) ∷ zs), length-append {0} ys zs);
      };
      freed = same p ∙ gone;
      others = λ a o. same_without g h a p c ys zs v.no_null ne o same;
    }
  where
    gone : without h (last null ys) p (first zs) p ≡ none
    gone = ground arith

-- What `unlink_abonent` returns, and the heap after it.
abbrev pub Unlinked : Heap → Ptr → Card → Cells → Cells → Abonents → Type 0
Unlinked h p c ys zs abs =
    (abs' : Abonents) × (g : Heap) × (unlink_abonent p abs h ≡ some ((true, abs'), g))
    × Removed h p c ys zs abs' g

put_only : (h : Heap) (p a : Ptr) → h null ≡ none → put h p none a ≡ without h null p null a
unfolding put
put_only h p a e = ground arith

put_behind :
    (h : Heap) (p n a : Ptr) (m : Abonent)
    → h null ≡ none
    → h n ≡ some m
    → n ≢ null
    → put (put h n (some (record m { prev = null }))) p none a ≡ without h null p n a
unfolding put
put_behind h p n a m e f ne = ground arith

put_before :
    (h : Heap) (p q a : Ptr) (m : Abonent)
    → h null ≡ none
    → h q ≡ some m
    → put (put h q (some (record m { next = null }))) p none a ≡ without h q p null a
unfolding put
put_before h p q a m e f = ground arith

put_both :
    (h : Heap) (p q n a : Ptr) (m m' : Abonent)
    → h q ≡ some m
    → h n ≡ some m'
    → (n == q) ≡ false
    → put (put (put h q (some (record m { next = n }))) n (some (record m' { prev = q }))) p none a
      ≡ without h q p n a
unfolding put
put_both h p q n a m m' e f ne = ground arith

has_front :
    (b : Ptr) (k : Card) (p : Ptr) (c : Card) (ys zs : Cells)
    → has (last b ys) (((b, k) ∷ ys) ++ (p, c) ∷ zs) ≡ true
has_front b k p c ys zs = has-append (last b ys) ((b, k) ∷ ys) ((p, c) ∷ zs) ∙ rw (has-last b k ys)

has_back :
    (b : Ptr) (k : Card) (p z : Ptr) (c d : Card) (ys zs : Cells)
    → has z (((b, k) ∷ ys) ++ (p, c) ∷ (z, d) ∷ zs) ≡ true
has_back b k p z c d ys zs = has-append z ((b, k) ∷ ys) ((p, c) ∷ (z, d) ∷ zs) ∙ ground arith

flip :
    (z : Ptr) (d : Card) (p : Ptr) (c : Card) (q : Ptr) (zs : Cells)
    → has q ((p, c) ∷ (z, d) ∷ zs) ≡ false
    → (z == q) ≡ false
flip z d p c q zs o = ground arith

pub unlink_abonent_lem :
    (h : Heap) (p : Ptr) (c : Card) (ys zs : Cells) (abs : Abonents)
    → IsDirectory h abs (ys ++ (p, c) ∷ zs)
    → Unlinked h p c ys zs abs
unlink_abonent_lem h p c [] [] abs v =
    let (e, ne, o, o') = Linked-at h null p c [] [] v.linked in
    let n = abonent c null null in
    (
      record { head = null; tail = null; count = abs.count - 1 },
      put h p none,
      unlink_steps p abs _ _ n h h h ne e (unlink_next_first n n abs h refl) e
          (unlink_prev_last n n _ h refl) e,
      finish _ h p c [] [] abs _ v (λ a. put_only h p a v.no_null) refl refl refl,
    )
unlink_abonent_lem h p c [] ((z, d) ∷ zs) abs v =
    let (e, ne, o, o') = Linked-at h null p c [] ((z, d) ∷ zs) v.linked in
    let n = abonent c z null in
    let (m, f, nz) = Linked-has h p z ((z, d) ∷ zs) v.linked.3 (ground arith) in
    let h₂ = put h z (some (record m { prev = null })) in
    (
      record { head = z; tail = abs.tail; count = abs.count - 1 },
      put h₂ p none,
      unlink_steps p abs (record abs { head = z }) _ n h h h₂ ne e
          (unlink_next_first n n abs h refl) e (unlink_prev_cell n m _ h nz f)
          (put_ne h z p _ (ground arith) ∙ e),
      finish _ h p c [] ((z, d) ∷ zs) abs _ v (λ a. put_behind h p z a m v.no_null f nz) refl v.tail
          refl,
    )
unlink_abonent_lem h p c ((b, k) ∷ ys) [] abs v =
    let (e, ne, o, o') = Linked-at h null p c ((b, k) ∷ ys) [] v.linked in
    let q = last b ys in
    let n = abonent c null q in
    let (m, f, nq) =
      Linked-has h null q (((b, k) ∷ ys) ++ (p, c) ∷ []) v.linked (has_front b k p c ys []) in
    let h₁ = put h q (some (record m { next = null })) in
    let e₁ = put_ne h q p _ (apart q p ((b, k) ∷ ys) (has-last b k ys) o) ∙ e in
    (
      record { head = abs.head; tail = q; count = abs.count - 1 },
      put h₁ p none,
      unlink_steps p abs _ _ n h h₁ h₁ ne e (unlink_next_cell n m abs h nq f) e₁
          (unlink_prev_last n n abs h₁ refl) e₁,
      finish _ h p c ((b, k) ∷ ys) [] abs _ v (λ a. put_before h p q a m v.no_null f) v.head
          (ap (last b) (sym (append-nil ys))) refl,
    )
unlink_abonent_lem h p c ((b, k) ∷ ys) ((z, d) ∷ zs) abs v =
    let (e, ne, o, o') = Linked-at h null p c ((b, k) ∷ ys) ((z, d) ∷ zs) v.linked in
    let q = last b ys in
    let n = abonent c z q in
    let all = ((b, k) ∷ ys) ++ (p, c) ∷ (z, d) ∷ zs in
    let (m, f, nq) = Linked-has h null q all v.linked (has_front b k p c ys ((z, d) ∷ zs)) in
    let (m', f', nz) = Linked-has h null z all v.linked (has_back b k p z c d ys zs) in
    let out =
      Linked-disjoint h null q ((b, k) ∷ ys) ((p, c) ∷ (z, d) ∷ zs) v.linked (has-last b k ys) in
    let zq = flip z d p c q zs out in
    let h₁ = put h q (some (record m { next = z })) in
    let e₁ = put_ne h q p _ (apart q p ((b, k) ∷ ys) (has-last b k ys) o) ∙ e in
    let h₂ = put h₁ z (some (record m' { prev = q })) in
    (
      record { head = abs.head; tail = abs.tail; count = abs.count - 1 },
      put h₂ p none,
      unlink_steps p abs _ _ n h h₁ h₂ ne e (unlink_next_cell n m abs h nq f) e₁
          (unlink_prev_cell n m' abs h₁ nz (put_ne h q z _ zq ∙ f'))
          (put_ne h₁ z p _ (not_first p ((z, d) ∷ zs) o' ne) ∙ e₁),
      finish _ h p c ((b, k) ∷ ys) ((z, d) ∷ zs) abs _ v (λ a. put_both h p q z a m m' f f' zq)
          v.head (v.tail ∙ last-append b p c ys ((z, d) ∷ zs) ∙ sym (last-append b z d ys zs)) refl,
    )
