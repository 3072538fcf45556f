-- ===== src/AbonentList/Directory/Chain.antt =====
-- When a heap holds a doubly linked list of given cells, and how changes of the heap act on it.
use eltex_lessons.Base.{
  ◌≡◌, ◌≢◌, refl, ◌∙◌, Bool, true, false, ◌||◌, none, some, List, [], ◌∷◌, ◌++◌, arith, ◌==◌,
  length, if◌then◌else◌, Bool-cases, inl, inr,
}
use eltex_lessons.AbonentList.Memory.{Ptr, null, Card, Abonent, abonent, Abonents, Heap}

-- What a directory stands for: the address and the card of each cell, in order.
abbrev pub Cells : Type 0
Cells = List (Ptr × Card)

abbrev pub has : Ptr → Cells → Bool
has a [] = false
has a ((p, c) ∷ xs) = (a == p) || has a xs

abbrev pub first : Cells → Ptr
first [] = null
first ((p, c) ∷ xs) = p

-- The address of the last cell, or `q` if there is none.
abbrev pub last : Ptr → Cells → Ptr
last q [] = q
last q ((p, c) ∷ xs) = last p xs

-- The cells lie at distinct addresses, `next` leads to the cell behind and `prev` to the cell in
-- front, NULL at the end and `q` at the start.
abbrev pub Linked : Heap → Ptr → Cells → Type 0
Linked h q [] = Unit
Linked h q ((p, c) ∷ xs) =
    (p ≢ null) × (h p ≡ some (abonent c (first xs) q)) × (has p xs ≡ false) × Linked h p xs

pub record IsDirectory (h : Heap) (abs : Abonents) (xs : Cells) : Type 0 where
  pub no_null : h null ≡ none
  pub linked : Linked h null xs
  pub head : abs.head ≡ first xs
  pub tail : abs.tail ≡ last null xs
  pub count : abs.count ≡ length xs

-- A change that spares the addresses of the cells keeps the list.
pub frame :
    (g h : Heap) (q : Ptr) (xs : Cells)
    → Linked h q xs
    → ((a : Ptr) → has a xs ≡ true → g a ≡ h a)
    → Linked g q xs
frame g h q [] l same = tt
frame g h q ((p, c) ∷ xs) (a, e, o, l) same =
    (a, same p (ground arith) ∙ e, o, frame g h p xs l (λ b i. same b (ground arith)))

pub has-append : (a : Ptr) (xs ys : Cells) → has a (xs ++ ys) ≡ (has a xs || has a ys)
has-append a [] ys = refl
has-append a ((p, c) ∷ xs) ys = ground (arith, has-append a xs ys)

-- The last cell is one of the cells.
pub has-last : (p : Ptr) (c : Card) (xs : Cells) → has (last p xs) ((p, c) ∷ xs) ≡ true
has-last p c [] = ground arith
has-last p c ((q, d) ∷ xs) = ground (arith, has-last q d xs)

pub not-has-null : (h : Heap) (q : Ptr) (xs : Cells) → Linked h q xs → has null xs ≡ false
not-has-null h q [] l = refl
not-has-null h q ((p, c) ∷ xs) (a, e, o, l) = ground (arith, not-has-null h p xs l)

-- An address that the heap does not use holds no cell of the list.
pub not-has_of_none :
    (h : Heap) (q a : Ptr) (xs : Cells) → Linked h q xs → h a ≡ none → has a xs ≡ false
not-has_of_none h q a [] l u = refl
not-has_of_none h q a ((p, c) ∷ xs) (n, e, o, l) u = ground (arith, not-has_of_none h p a xs l u, e)

pub apart : (a b : Ptr) (xs : Cells) → has a xs ≡ true → has b xs ≡ false → (b == a) ≡ false
apart a b xs i o = ground arith

apart_first : (b : Ptr) (xs : Cells) → b ≢ null → has b xs ≡ false → (b == first xs) ≡ false
apart_first b [] ne o = ground arith
apart_first b ((p, c) ∷ xs) ne o = ground arith

-- The heap after a cell `fresh` with card `d` is put behind the cell `q`.
abbrev pub with_last : Heap → Ptr → Ptr → Card → Heap
with_last h q fresh d a =
    if a == fresh
    then some (abonent d null q)
    else if a == q
    then elim (h a) [ none ↦ none | some n ↦ some (record n { next = fresh }) ]
    else h a

pub apart_head :
    (fresh p : Ptr) (c : Card) (xs : Cells) → has fresh ((p, c) ∷ xs) ≡ false → (p == fresh) ≡ false
apart_head fresh p c xs o = ground arith

pub Linked-with_last :
    (g h : Heap) (fresh q p : Ptr) (c d : Card) (xs : Cells)
    → Linked h q ((p, c) ∷ xs)
    → fresh ≢ null
    → has fresh ((p, c) ∷ xs) ≡ false
    → ((a : Ptr) → g a ≡ with_last h (last p xs) fresh d a)
    → Linked g q ((p, c) ∷ (xs ++ (fresh, d) ∷ []))
Linked-with_last g h fresh q p c d [] (n, e, o, l) ne out same =
    (n, ground (arith, same p, e), ground arith, (ne, ground (arith, same fresh), refl, tt))
Linked-with_last g h fresh q p c d ((p', c') ∷ xs) (n, e, o, l) ne out same = (
  n,
  same p
      ∙ rw
          (
            apart_head fresh p c ((p', c') ∷ xs) out,
            apart (last p' xs) p ((p', c') ∷ xs) (has-last p' c' xs) o,
          )
          e,
  ground (arith, has-append p ((p', c') ∷ xs) ((fresh, d) ∷ [])),
  Linked-with_last g h fresh p p' c' d xs l ne (ground arith) same,
)

-- The heap after the cell `p`, between the cells `q` and `n`, is taken out and freed.
abbrev pub without : Heap → Ptr → Ptr → Ptr → Heap
without h q p n a =
    if a == p
    then none
    else if a == q
    then elim (h a) [ none ↦ none | some m ↦ some (record m { next = n }) ]
    else if a == n
    then elim (h a) [ none ↦ none | some m ↦ some (record m { prev = q }) ]
    else h a

-- The cells behind the one that is taken out.
Linked-without_rest :
    (g h : Heap) (q p : Ptr) (ys : Cells)
    → Linked h p ys
    → has p ys ≡ false
    → has q ys ≡ false
    → ((a : Ptr) → g a ≡ without h q p (first ys) a)
    → Linked g q ys
Linked-without_rest g h q p [] l op oq same = tt
Linked-without_rest g h q p ((n, c) ∷ ys) (ne, e, o, l) op oq same =
    (ne, ground (arith, same n, e), o, frame g h n ys l (λ a i. ground (arith, same a)))

pub has-parts :
    (b p : Ptr) (c : Card) (xs ys : Cells)
    → has b (xs ++ (p, c) ∷ ys) ≡ false
    → (has b xs ≡ false) × ((b == p) ≡ false) × (has b ys ≡ false)
has-parts b p c xs ys o = ground (arith, has-append b xs ((p, c) ∷ ys))

pub Linked-without :
    (g h : Heap) (q p : Ptr) (c : Card) (xs ys : Cells)
    → Linked h q (xs ++ (p, c) ∷ ys)
    → has q (xs ++ (p, c) ∷ ys) ≡ false
    → ((a : Ptr) → g a ≡ without h (last q xs) p (first ys) a)
    → Linked g q (xs ++ ys)
Linked-without g h q p c [] ys (ne, e, o, l) oq same =
    Linked-without_rest g h q p ys l o (ground arith) same
Linked-without g h q p c ((b, d) ∷ []) ys (ne, e, o, l) oq same = (
  ne,
  ground (arith, same b, e),
  ground arith,
  Linked-without_rest g h b p ys l.3 l.2 (ground arith) same,
)
Linked-without g h q p c ((b, d) ∷ (b', d') ∷ xs) ys (ne, e, o, l) oq same =
    let o' = has-parts b p c ((b', d') ∷ xs) ys o in
    (
      ne,
      same b
          ∙ rw
              (
                o'.1,
                apart (last b' xs) b ((b', d') ∷ xs) (has-last b' d' xs) o'.0,
                apart_first b ys ne o'.2,
              )
              e,
      has-append b ((b', d') ∷ xs) ys ∙ rw (o'.0, o'.2),
      Linked-without g h b p c ((b', d') ∷ xs) ys l o same,
    )

-- Each cell of the list is in the heap.
pub Linked-has :
    (h : Heap) (q a : Ptr) (xs : Cells)
    → Linked h q xs
    → has a xs ≡ true
    → (m : Abonent) × (h a ≡ some m) × (a ≢ null)
Linked-has h q a [] l i = cc
Linked-has h q a ((p, c) ∷ xs) (ne, e, o, l) i = elim (Bool-cases (a == p)) [
  | inl hit ↦ (abonent c (first xs) q, ground (arith, e), ground arith)
  | inr miss ↦ Linked-has h p a xs l (ground arith)
]

-- The cell at a place of the list.
pub Linked-at :
    (h : Heap) (q p : Ptr) (c : Card) (xs ys : Cells)
    → Linked h q (xs ++ (p, c) ∷ ys)
    → (h p ≡ some (abonent c (first ys) (last q xs)))
      × (p ≢ null)
      × (has p xs ≡ false)
      × (has p ys ≡ false)
Linked-at h q p c [] ys (ne, e, o, l) = (e, ne, refl, o)
Linked-at h q p c ((b, d) ∷ xs) ys (ne, e, o, l) =
    let (f, n, x, y) = Linked-at h b p c xs ys l in
    (f, n, ground (arith, has-parts b p c xs ys o), y)

-- No cell stands in two places.
pub Linked-disjoint :
    (h : Heap) (q a : Ptr) (xs ys : Cells)
    → Linked h q (xs ++ ys)
    → has a xs ≡ true
    → has a ys ≡ false
Linked-disjoint h q a [] ys l i = cc
Linked-disjoint h q a ((p, c) ∷ xs) ys (ne, e, o, l) i = elim (Bool-cases (a == p)) [
  | inl hit ↦
      let same : a ≡ p = ground arith in let both = has-append p xs ys in rw same (ground arith)
  | inr miss ↦ Linked-disjoint h p a xs ys l (ground arith)
]

pub last-append : (q p : Ptr) (c : Card) (xs ys : Cells) → last q (xs ++ (p, c) ∷ ys) ≡ last p ys
last-append q p c [] ys = refl
last-append q p c ((b, d) ∷ xs) ys = last-append b p c xs ys
