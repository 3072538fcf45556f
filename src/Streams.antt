-- ===== src/Streams.antt =====
-- Streams: three shoppers and a loader in five shops, each a thread, each shop with a mutex. One
-- step of a thread is a call of pthread_mutex_trylock with what it decides, the work under a
-- mutex with its unlock, or the end of a walk through the shops. The random numbers of
-- creat_shop.c and creat_shoppers.c come in as arguments. Log output and sleeping are left out.
pub mod Balance
pub mod Steps
pub mod Runs
mod Tests
use eltex_lessons.Base.{
  ℕ, zero, suc, ◌+◌, ◌*◌, ◌%◌, ◌≡◌, Bool, true, false, Option, none, some, List, [], ◌∷◌, ltb, leb,
  ◌==◌, get_elem?, get_or, set, map, replicate, if◌then◌else◌,
}
use eltex_lessons.Base.Int.{ℤ, pos, ◌-ℤ◌, leb_ℤ}

abbrev pub shop_number : ℕ
shop_number = 5

-- `creat_shop` and `creat_shoppers`, for a number that rand returns: the goods of a shop and the
-- need of a shopper.
abbrev pub first_product : ℕ → ℕ
first_product r = 900 + r % 201

abbrev pub first_need : ℕ → ℤ
first_need r = pos (9100 + r % 201)

-- Where a thread stands: in front of a shop (or behind the last one), inside a shop with its mutex
-- held, or returned.
pub data Place : Type 0 where
  before_shop : ℕ → Place
  inside_shop : ℕ → Place
  returned : Place

-- `struct Shopper`, with the place of its thread.
pub record Shopper : Type 0 where
  pub need : ℤ
  pub place : Place

-- The goods of `myShop`, the state of `shop_mutex`, the shoppers and the place of the loader.
-- `loads` counts what the loader has done.
pub record Mall : Type 0 where
  pub products : List ℕ
  pub locked : List Bool
  pub shoppers : List Shopper
  pub loader : Place
  pub loads : ℕ

abbrev pub opening : List ℕ → List ℕ → Mall
opening shop_numbers shopper_numbers = record {
  products = map first_product shop_numbers;
  locked = map (λ r. false) shop_numbers;
  shoppers = map (λ r. record { need = first_need r; place = before_shop 0 }) shopper_numbers;
  loader = before_shop 0;
  loads = 0;
}

-- `pthread_mutex_trylock`: the new state of the mutexes where it succeeds.
unfoldable pub try_lock : ℕ → List Bool → Option (List Bool)
try_lock i locks = if get_or locks i true then none else some (set locks i true)

unfoldable pub unlock : ℕ → List Bool → List Bool
unlock i locks = set locks i false

abbrev pub move : Mall → ℕ → Shopper → Mall
move s k sh = record s { shoppers = set s.shoppers k sh }

-- In front of shop `i`: the loop condition, and the attempt to enter. Behind the last shop the
-- condition of the outer loop is tested.
unfoldable pub approach : ℕ → Shopper → ℕ → Mall → Mall
approach k sh i s =
    if ltb i shop_number
    then elim (try_lock i s.locked) [
      | none ↦ move s k (record sh { place = before_shop (i + 1) })
      | some locks ↦ move (record s { locked = locks }) k (record sh { place = inside_shop i })
    ]
    else move s k (record sh { place = if leb_ℤ sh.need (pos 0) then returned else before_shop 0 })

-- The need and the goods after a visit.
unfoldable pub buy : Shopper → ℕ → ℤ × ℕ
buy sh product = if ltb 0 product then (sh.need -ℤ pos product, 0) else (sh.need, product)

-- Inside shop `i`: all goods are bought, the mutex is given back, and a shopper whose need is met
-- leaves both loops.
unfoldable pub visit : ℕ → Shopper → ℕ → Mall → Mall
visit k sh i s =
    let (need, product) = buy sh (get_or s.products i 0) in
    move (record s { products = set s.products i product; locked = unlock i s.locked }) k
      (record { need = need; place = if leb_ℤ need (pos 0) then returned else before_shop (i + 1) })

unfoldable pub shopper_at : ℕ → Shopper → Place → Mall → Option Mall
shopper_at k sh (before_shop i) s = some (approach k sh i s)
shopper_at k sh (inside_shop i) s = some (visit k sh i s)
shopper_at k sh returned s = none

-- A step of `pthread_shopper` in the thread of shopper `k`.
unfoldable pub pthread_shopper : ℕ → Mall → Option Mall
pthread_shopper k s = elim (get_elem? s.shoppers k) [
  | none ↦ none
  | some sh ↦ shopper_at k sh sh.place s
]

unfoldable pub loader_at : Place → Mall → Option Mall
loader_at (before_shop i) s =
    if ltb i shop_number
    then elim (try_lock i s.locked) [
      | none ↦ some (record s { loader = before_shop (i + 1) })
      | some locks ↦ some (record s { locked = locks; loader = inside_shop i })
    ]
    else some (record s { loader = before_shop 0 })
loader_at (inside_shop i) s = some (record s {
  products = set s.products i (get_or s.products i 0 + 200);
  locked = unlock i s.locked;
  loader = before_shop (i + 1);
  loads = s.loads + 1;
})
loader_at returned s = none

-- A step of `pthread_loader`.
unfoldable pub pthread_loader : Mall → Option Mall
pthread_loader s = loader_at s.loader s

-- The states that the threads reach, in whatever order they run.
pub data Reach (start : Mall) : Mall → Type 0 where
  begin : Reach start start
  shops : {s t : Mall} → Reach start s → (k : ℕ) → pthread_shopper k s ≡ some t → Reach start t
  loads : {s t : Mall} → Reach start s → pthread_loader s ≡ some t → Reach start t
