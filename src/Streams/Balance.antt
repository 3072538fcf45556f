-- ===== src/Streams/Balance.antt =====
-- What holds however the threads of Streams are interleaved.
use eltex_lessons.Base.{
  ℕ, zero, suc, ◌+◌, ◌*◌, ◌<◌, ◌≡◌, refl, ◌∙◌, sym, Bool, true, false, some, List, [], ◌∷◌, arith,
  ◌==◌, All, All-set, length, length-set, get_elem?, get_or, get_or-set_self, get_or-set_ne, set,
  if◌then◌else◌, Bool-cases, inl, inr,
}
use eltex_lessons.Base.Int.{pos, pos_part, neg_part, ◌≤ℤ◌}
use eltex_lessons.Streams.{Place, before_shop, inside_shop, returned, Shopper, Mall, try_lock}

module _ {A : Type 0} (f : A → ℕ) where
  abbrev pub total : List A → ℕ
  total [] = 0
  total (x ∷ xs) = f x + total xs

  pub total-set :
      (xs : List A) (k : ℕ) (x v : A)
      → get_elem? xs k ≡ some x
      → total (set xs k v) + f x ≡ total xs + f v
  total-set [] k x v e = cc
  total-set (y ∷ xs) zero x v e = let same : f y ≡ f x = ground arith in omega arith
  total-set (y ∷ xs) (suc k) x v e = omega (arith, total-set xs k x v e)

-- 1 if a thread at that place holds the mutex of shop `i`.
abbrev pub holds : ℕ → Place → ℕ
holds i (before_shop j) = 0
holds i (inside_shop j) = if i == j then 1 else 0
holds i returned = 0

abbrev pub is_locked : ℕ → List Bool → ℕ
is_locked i locks = if get_or locks i false then 1 else 0

abbrev pub goods : Mall → ℕ
goods s = total (λ n. n) s.products

-- The needs of the shoppers together are `owed` minus `surplus`.
abbrev pub owed : Mall → ℕ
owed s = total (λ sh. pos_part sh.need) s.shoppers

abbrev pub surplus : Mall → ℕ
surplus s = total (λ sh. neg_part sh.need) s.shoppers

-- A shopper returns with its need met.
abbrev pub IsMet : Shopper → Type 0
IsMet sh = sh.place ≡ returned → sh.need ≤ℤ pos 0

pub record IsMall (start s : Mall) : Type 0 where
  pub sizes : length s.products ≡ length s.locked
  pub locks :
      (i : ℕ) → holds i s.loader + total (λ sh. holds i sh.place) s.shoppers ≡ is_locked i s.locked
  pub balance :
      owed s + surplus start + goods start + 200 * s.loads
      ≡ surplus s + owed start + goods s + 200 * start.loads
  pub met : All IsMet s.shoppers

-- What a step of one shopper must do.
pub record Fair (s t : Mall) (k : ℕ) (sh sh' : Shopper) : Type 0 where
  pub shoppers : t.shoppers ≡ set s.shoppers k sh'
  pub loader : t.loader ≡ s.loader
  pub loads : t.loads ≡ s.loads
  pub products : length t.products ≡ length s.products
  pub locked : length t.locked ≡ length s.locked
  pub locks :
      (i : ℕ) → is_locked i t.locked + holds i sh.place ≡ is_locked i s.locked + holds i sh'.place
  pub paid :
      goods t + pos_part sh.need + neg_part sh'.need
      ≡ goods s + pos_part sh'.need + neg_part sh.need
  pub met : IsMet sh'

pub Fair-IsMall :
    (start s t : Mall) (k : ℕ) (sh sh' : Shopper)
    → IsMall start s
    → get_elem? s.shoppers k ≡ some sh
    → Fair s t k sh sh'
    → IsMall start t
Fair-IsMall start s t k sh sh' v e f = record {
  sizes = f.products ∙ v.sizes ∙ sym f.locked;
  locks = λ i.
      rw (f.shoppers, f.loader)
        (omega
          (arith, v.locks i, f.locks i, total-set (λ x. holds i x.place) s.shoppers k sh sh' e));
  balance =
      rw (f.shoppers, f.loads)
        (omega (
          arith,
          v.balance,
          f.paid,
          total-set (λ x. pos_part x.need) s.shoppers k sh sh' e,
          total-set (λ x. neg_part x.need) s.shoppers k sh sh' e,
        ));
  met = rw f.shoppers (All-set IsMet s.shoppers k sh' v.met f.met);
}

pub is_locked-set :
    (i j : ℕ) (b : Bool) (locks : List Bool)
    → j < length locks
    → is_locked i (set locks j b) ≡ (if i == j then (if b then 1 else 0) else is_locked i locks)
is_locked-set i j b locks h = elim (Bool-cases (i == j)) [
  | inl same ↦ let e : i ≡ j = ground arith in rw (same, e, get_or-set_self locks j b false h)
  | inr other ↦ rw (other, get_or-set_ne locks j i b false (ground arith))
]

get_or_lt : (i : ℕ) (locks : List Bool) → get_or locks i true ≡ false → i < length locks
get_or_lt i [] e = cc
get_or_lt zero (b ∷ locks) e = omega arith
get_or_lt (suc i) (b ∷ locks) e = omega (arith, get_or_lt i locks e)

get_or_same :
    (i : ℕ) (locks : List Bool) → get_or locks i true ≡ false → get_or locks i false ≡ false
get_or_same i [] e = refl
get_or_same zero (b ∷ locks) e = e
get_or_same (suc i) (b ∷ locks) e = get_or_same i locks e

pub get_or_held : (i : ℕ) (locks : List Bool) → get_or locks i false ≡ true → i < length locks
get_or_held i [] e = cc
get_or_held zero (b ∷ locks) e = omega arith
get_or_held (suc i) (b ∷ locks) e = omega (arith, get_or_held i locks e)

pub get_elem-get_or : (i : ℕ) (xs : List ℕ) → i < length xs → get_elem? xs i ≡ some (get_or xs i 0)
get_elem-get_or i [] h = absurd (omega arith)
get_elem-get_or zero (x ∷ xs) h = refl
get_elem-get_or (suc i) (x ∷ xs) h = get_elem-get_or i xs (omega arith)

-- A lock that is taken was free, and only that one changes.
pub try_lock_lem :
    (i : ℕ) (locks locks' : List Bool)
    → try_lock i locks ≡ some locks'
    → (length locks' ≡ length locks)
      × ((j : ℕ) → is_locked j locks' ≡ is_locked j locks + (if j == i then 1 else 0))
unfolding try_lock
try_lock_lem i locks locks' e = elim (Bool-cases (get_or locks i true)) [
  | inl held ↦ let stuck = rw held at e in cc
  | inr free ↦
      let taken : set locks i true ≡ locks' = ground arith in
      rw (sym taken) (
        length-set locks i true,
        λ j.
            is_locked-set j i true locks (get_or_lt i locks free)
            ∙ raised j i locks (get_or_same i locks free),
      )
]
  where
    raised :
        (j i : ℕ) (locks : List Bool)
        → get_or locks i false ≡ false
        → (if j == i then 1 else is_locked j locks) ≡ is_locked j locks + (if j == i then 1 else 0)
    raised j i locks free = elim (Bool-cases (j == i)) [
      | inl same ↦ let e : j ≡ i = ground arith in rw (same, e, free)
      | inr other ↦ rw other (omega arith)
    ]
