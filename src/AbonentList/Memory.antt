-- ===== src/AbonentList/Memory.antt =====
-- The heap that AbonentList works on, and the two structures of intrface.h.
use eltex_lessons.Base.{ℕ, Option, none, some, ◌==◌, if◌then◌else◌}
use eltex_lessons.Text.{Bytes}

abbrev pub Ptr : Type 0
Ptr = ℕ

abbrev pub null : Ptr
null = 0

-- The three texts of `struct abonent`.
pub record Card : Type 0 where
  pub name : Bytes
  pub second_name : Bytes
  pub tel : Bytes

-- `struct abonent`
pub record Abonent : Type 0 where
  pub card : Card
  pub next : Ptr
  pub prev : Ptr

abbrev pub abonent : Card → Ptr → Ptr → Abonent
abonent c n p = record { card = c; next = n; prev = p }

-- `struct abonents`
pub record Abonents : Type 0 where
  pub head : Ptr
  pub tail : Ptr
  pub count : ℕ

abbrev pub Heap : Type 0
Heap = Ptr → Option Abonent

-- The cell at an address is replaced, or given back (`none`).
unfoldable pub put : Heap → Ptr → Option Abonent → Heap
put h p c a = if a == p then c else h a

-- `none` is a fault (a read or write through NULL or a dangling pointer, or outside a buffer) or
-- a loop that was not given enough rounds.
abbrev pub M : Type 0 → Type 0
M A = Heap → Option (A × Heap)

abbrev pub lift : {A : Type 0} → Option A → M A
lift none h = none
lift (some a) h = some (a, h)

abbrev pub pure : {A : Type 0} → A → M A
pure a = lift (some a)

infixl 5 ◌>>◌ ◌>>=◌
abbrev pub ◌>>=◌ : {A B : Type 0} → M A → (A → M B) → M B
◌>>=◌ act rest before = elim (act before) [ some (a, after) ↦ rest a after | none ↦ none ]

abbrev pub ◌>>◌ : {A B : Type 0} → M A → M B → M B
act >> rest = act >>= λ _. rest

unfoldable pub load : Ptr → M Abonent
load p h = if p == null then none else elim (h p) [ none ↦ none | some n ↦ some (n, h) ]

abbrev pub store : Ptr → Option Abonent → M (Unit {0})
store p c h = some (tt, put h p c)

unfoldable pub set_next : Ptr → Ptr → M (Unit {0})
set_next p q = do n ← load p; store p (some (record n { next = q }))

unfoldable pub set_prev : Ptr → Ptr → M (Unit {0})
set_prev p q = do n ← load p; store p (some (record n { prev = q }))

unfoldable pub free : Ptr → M (Unit {0})
free p = do n ← load p; store p none
