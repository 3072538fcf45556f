-- ===== src/Streams/Runs.antt =====
-- Every run of the threads of Streams, from the opening on.
use eltex_lessons.Base.{ℕ, zero, suc, ◌≡◌, refl, ap, false, List, [], ◌∷◌, arith, All, length, map}
use eltex_lessons.Streams.{
  before_shop, Shopper, Mall, opening, first_product, first_need, Reach, begin, shops, loads,
}
use eltex_lessons.Streams.Balance.{total, holds, is_locked, IsMet, IsMall}
use eltex_lessons.Streams.Steps.{pthread_shopper-IsMall, pthread_loader-IsMall}

none_locked : (i : ℕ) (rs : List ℕ) → is_locked i (map (λ r. false) rs) ≡ 0
none_locked i [] = refl
none_locked zero (r ∷ rs) = refl
none_locked (suc i) (r ∷ rs) = none_locked i rs

same_length : (rs : List ℕ) → length (map first_product rs) ≡ length (map (λ r. false) rs)
same_length [] = refl
same_length (r ∷ rs) = ap suc (same_length rs)

abbrev arriving : ℕ → Shopper
arriving r = record { need = first_need r; place = before_shop 0 }

none_holds : (i : ℕ) (rs : List ℕ) → total (λ sh. holds i sh.place) (map arriving rs) ≡ 0
none_holds i [] = refl
none_holds i (r ∷ rs) = omega (arith, none_holds i rs)

none_returned : (rs : List ℕ) → All IsMet (map arriving rs)
none_returned [] = tt
none_returned (r ∷ rs) = ((λ e. cc), none_returned rs)

opening-IsMall : (rs ns : List ℕ) → IsMall (opening rs ns) (opening rs ns)
opening-IsMall rs ns = record {
  sizes = same_length rs;
  locks = λ i. omega (arith, none_holds i ns, none_locked i rs);
  balance = omega arith;
  met = none_returned ns;
}

-- In every state that the shoppers and the loader reach from the opening of the shops, in
-- whatever order their steps come: each mutex is held by exactly one thread while it is locked
-- and by none otherwise; no goods are lost or made up, so the needs that were met are the goods
-- that left the shops, with 200 for each load; and a shopper that has returned has its need met.
pub Reach-IsMall : (rs ns : List ℕ) {s : Mall} → Reach (opening rs ns) s → IsMall (opening rs ns) s
Reach-IsMall rs ns begin = opening-IsMall rs ns
Reach-IsMall rs ns (shops {s} {t} r k step) =
    pthread_shopper-IsMall (opening rs ns) s t k (Reach-IsMall rs ns r) step
Reach-IsMall rs ns (loads {s} {t} r step) =
    pthread_loader-IsMall (opening rs ns) s t (Reach-IsMall rs ns r) step
