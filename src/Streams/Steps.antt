-- ===== src/Streams/Steps.antt =====
-- Each step of a thread of Streams keeps the mutexes and the balance.
use eltex_lessons.Base.{
  ℕ, zero, suc, ◌+◌, ◌≤◌, ◌<◌, ◌≡◌, refl, ◌∙◌, sym, Bool, true, false, some, List, [], ◌∷◌, arith,
  ltb, ◌==◌, length, length-set, get_elem?, get_or, set, if◌then◌else◌, Bool-cases, Option-cases,
  inl, inr,
}
use eltex_lessons.Base.Int.{ℤ, pos, pos_part, neg_part, -ℤ_parts, leb_ℤ}
use eltex_lessons.Streams.{
  Place, before_shop, inside_shop, returned, Shopper, Mall, try_lock, unlock, approach, buy, visit,
  shopper_at, pthread_shopper, loader_at, pthread_loader, shop_number,
}
use eltex_lessons.Streams.Balance.{
  total, total-set, holds, is_locked, IsMall, Fair, Fair-IsMall, try_lock_lem, get_or_held,
  is_locked-set, get_elem-get_or,
}

unlock_lem :
    (i j : ℕ) (locks : List Bool)
    → get_or locks i false ≡ true
    → is_locked j (unlock i locks) + (if j == i then 1 else 0) ≡ is_locked j locks
unfolding unlock
unlock_lem i j locks held = ground (arith, is_locked-set j i false locks (get_or_held i locks held))

total_ge :
    (f : Shopper → ℕ) (xs : List Shopper) (k : ℕ) (x : Shopper)
    → get_elem? xs k ≡ some x
    → f x ≤ total f xs
total_ge f [] k x e = cc
total_ge f (y ∷ xs) zero x e = let same : f y ≡ f x = ground arith in omega arith
total_ge f (y ∷ xs) (suc k) x e = omega (arith, total_ge f xs k x e)

locked_of_one : (i : ℕ) (locks : List Bool) → 1 ≤ is_locked i locks → get_or locks i false ≡ true
locked_of_one i locks h = ground arith

-- A thread in a shop holds its mutex.
shopper_holds :
    (start s : Mall) (k i : ℕ) (sh : Shopper)
    → IsMall start s
    → get_elem? s.shoppers k ≡ some sh
    → sh.place ≡ inside_shop i
    → get_or s.locked i false ≡ true
shopper_holds start s k i sh v e here =
    let one : holds i sh.place ≡ 1 = rw here (ground arith) in
    locked_of_one i s.locked
      (omega (arith, one, v.locks i, total_ge (λ x. holds i x.place) s.shoppers k sh e))

loader_holds :
    (start s : Mall) (i : ℕ)
    → IsMall start s
    → s.loader ≡ inside_shop i
    → get_or s.locked i false ≡ true
loader_holds start s i v here =
    let one : holds i s.loader ≡ 1 = rw here (ground arith) in
    locked_of_one i s.locked (omega (arith, one, v.locks i))

approach-Fair :
    (k i : ℕ) (sh : Shopper) (s : Mall)
    → sh.place ≡ before_shop i
    → (sh' : Shopper) × Fair s (approach k sh i s) k sh sh'
unfolding approach
approach-Fair k i sh s here = elim (Bool-cases (ltb i shop_number)) [
  | inr past ↦ (
    record sh { place = if leb_ℤ sh.need (pos 0) then returned else before_shop 0 },
    rw past (record {
      shoppers = refl;
      loader = refl;
      loads = refl;
      products = refl;
      locked = refl;
      locks = λ j. rw here (ground arith);
      paid = refl;
      met = ground arith;
    }),
  )
  | inl inside ↦ elim (Option-cases (try_lock i s.locked)) [
    | inl busy ↦ (
      record sh { place = before_shop (i + 1) },
      rw inside (
          rw busy (record {
            shoppers = refl;
            loader = refl;
            loads = refl;
            products = refl;
            locked = refl;
            locks = λ j. rw here refl;
            paid = refl;
            met = λ e. cc;
          })),
    )
    | inr (locks, got) ↦
        let (len, now) = try_lock_lem i s.locked locks got in
        (
          record sh { place = inside_shop i },
          rw inside (
              rw got (record {
                shoppers = refl;
                loader = refl;
                loads = refl;
                products = refl;
                locked = len;
                locks = λ j. rw here (omega (arith, now j));
                paid = refl;
                met = λ e. cc;
              })),
        )
  ]
]

buy_lem :
    (sh : Shopper) (product : ℕ)
    → (buy sh product).1 + pos_part sh.need + neg_part (buy sh product).0
      ≡ product + pos_part (buy sh product).0 + neg_part sh.need
unfolding buy
buy_lem sh product = ground (arith, -ℤ_parts sh.need (pos product))

-- The goods after a shop's are replaced.
goods_set :
    (products : List ℕ) (i v : ℕ)
    → i < length products
    → total (λ n. n) (set products i v) + get_or products i 0 ≡ total (λ n. n) products + v
goods_set products i v h =
    total-set (λ n. n) products i (get_or products i 0) v (get_elem-get_or i products h)

visit-Fair :
    (start s : Mall) (k i : ℕ) (sh : Shopper)
    → IsMall start s
    → get_elem? s.shoppers k ≡ some sh
    → sh.place ≡ inside_shop i
    → (sh' : Shopper) × Fair s (visit k sh i s) k sh sh'
unfolding visit unlock buy
visit-Fair start s k i sh v e here =
    let held = shopper_holds start s k i sh v e here in
    let product = get_or s.products i 0 in
    let (need, left) = buy sh product in
    let size : i < length s.products = omega (arith, get_or_held i s.locked held, v.sizes) in
    (
      record { need = need; place = if leb_ℤ need (pos 0) then returned else before_shop (i + 1) },
      record {
        shoppers = refl;
        loader = refl;
        loads = refl;
        products = length-set s.products i left;
        locked = length-unlock i s.locked;
        locks = λ j. rw here (given_back j i need s.locked held);
        paid = omega (arith, goods_set s.products i left size, buy_lem sh product);
        met = ground arith;
      },
    )
  where
    length-unlock : (i : ℕ) (locks : List Bool) → length (unlock i locks) ≡ length locks
    length-unlock i locks = length-set locks i false

    given_back :
        (j i : ℕ) (need : ℤ) (locks : List Bool)
        → get_or locks i false ≡ true
        → is_locked j (unlock i locks) + (if j == i then 1 else 0)
          ≡ is_locked j locks
            + holds j (if leb_ℤ need (pos 0) then returned else before_shop (i + 1))
    given_back j i need locks held = elim (Bool-cases (leb_ℤ need (pos 0))) [
      | inl met ↦ rw met (omega (arith, unlock_lem i j locks held))
      | inr more ↦ rw more (omega (arith, unlock_lem i j locks held))
    ]

shopper_at-IsMall :
    (start s t : Mall) (k : ℕ) (sh : Shopper) (p : Place)
    → IsMall start s
    → get_elem? s.shoppers k ≡ some sh
    → sh.place ≡ p
    → shopper_at k sh p s ≡ some t
    → IsMall start t
unfolding shopper_at
shopper_at-IsMall start s t k sh (before_shop i) v e here step =
    let (sh', fair) = approach-Fair k i sh s here in
    let result : approach k sh i s ≡ t = cc in
    rw (sym result) (Fair-IsMall start s (approach k sh i s) k sh sh' v e fair)
shopper_at-IsMall start s t k sh (inside_shop i) v e here step =
    let (sh', fair) = visit-Fair start s k i sh v e here in
    let result : visit k sh i s ≡ t = cc in
    rw (sym result) (Fair-IsMall start s (visit k sh i s) k sh sh' v e fair)
shopper_at-IsMall start s t k sh returned v e here step = cc

pub pthread_shopper-IsMall :
    (start s t : Mall) (k : ℕ) → IsMall start s → pthread_shopper k s ≡ some t → IsMall start t
unfolding pthread_shopper
pthread_shopper-IsMall start s t k v step = elim (Option-cases (get_elem? s.shoppers k)) [
  | inl absent ↦ let stuck = rw (absent, pthread_shopper) at step in cc
  | inr (sh, e) ↦
      shopper_at-IsMall start s t k sh sh.place v e refl (rw (e, pthread_shopper) at step)
]

load_lem :
    (start s : Mall) (i : ℕ)
    → IsMall start s
    → s.loader ≡ inside_shop i
    → IsMall start (record s {
      products = set s.products i (get_or s.products i 0 + 200);
      locked = unlock i s.locked;
      loader = before_shop (i + 1);
      loads = s.loads + 1;
    })
unfolding unlock
load_lem start s i v here =
    let held = loader_holds start s i v here in
    let size : i < length s.products = omega (arith, get_or_held i s.locked held, v.sizes) in
    record {
      sizes =
          length-set s.products i (get_or s.products i 0 + 200)
          ∙ v.sizes
          ∙ sym (length-set s.locked i false);
      locks = λ j. given_back j held;
      balance = omega (arith, v.balance, goods_set s.products i (get_or s.products i 0 + 200) size);
      met = v.met;
    }
  where
    given_back :
        (j : ℕ)
        → get_or s.locked i false ≡ true
        → 0 + total (λ sh. holds j sh.place) s.shoppers ≡ is_locked j (unlock i s.locked)
    given_back j held =
        let one : holds j s.loader ≡ (if j == i then 1 else 0) = rw here refl in
        omega (arith, one, v.locks j, unlock_lem i j s.locked held)

loader_at-IsMall :
    (start s t : Mall) (p : Place)
    → IsMall start s
    → s.loader ≡ p
    → loader_at p s ≡ some t
    → IsMall start t
unfolding loader_at
loader_at-IsMall start s t (before_shop i) v here step = elim (Bool-cases (ltb i shop_number)) [
  | inr past ↦
      let result = rw past at step in
      let same : record s { loader = before_shop 0 } ≡ t = cc in
      rw (sym same) (record {
        sizes = v.sizes;
        locks = λ j. rw here at (v.locks j);
        balance = v.balance;
        met = v.met;
      })
  | inl inside ↦ elim (Option-cases (try_lock i s.locked)) [
    | inl busy ↦
        let result = rw (inside, loader_at) at step in
        let result' = rw busy at result in
        let same : record s { loader = before_shop (i + 1) } ≡ t = cc in
        rw (sym same) (record {
          sizes = v.sizes;
          locks = λ j. rw here at (v.locks j);
          balance = v.balance;
          met = v.met;
        })
    | inr (locks, got) ↦
        let (len, now) = try_lock_lem i s.locked locks got in
        let result = rw (inside, loader_at) at step in
        let result' = rw got at result in
        let same : record s { locked = locks; loader = inside_shop i } ≡ t = cc in
        rw (sym same) (record {
          sizes = v.sizes ∙ sym len;
          locks = λ j. let before = rw here at (v.locks j) in omega (arith, before, now j);
          balance = v.balance;
          met = v.met;
        })
  ]
]
loader_at-IsMall start s t (inside_shop i) v here step =
    let same : record s {
      products = set s.products i (get_or s.products i 0 + 200);
      locked = unlock i s.locked;
      loader = before_shop (i + 1);
      loads = s.loads + 1;
    }
        ≡ t =
      cc in
    rw (sym same) (load_lem start s i v here)
loader_at-IsMall start s t returned v here step = cc

pub pthread_loader-IsMall :
    (start s t : Mall) → IsMall start s → pthread_loader s ≡ some t → IsMall start t
unfolding pthread_loader
pthread_loader-IsMall start s t v step = loader_at-IsMall start s t s.loader v refl step
