-- ===== src/Streams/Tests.antt =====
-- The shops at concrete inputs: one shop with 905 goods, and a shopper who needs 9100.
use eltex_lessons.Base.{◌≡◌, refl, true, some, [], ◌∷◌}
use eltex_lessons.Base.Int.{pos}
use eltex_lessons.Streams.{
  before_shop, inside_shop, Mall, opening, try_lock, approach, shopper_at, pthread_shopper, begin,
  shops,
}
use eltex_lessons.Streams.Balance.{IsMall}
use eltex_lessons.Streams.Runs.{Reach-IsMall}

-- After the shopper has entered.
abbrev entered : Mall
entered = record {
  products = 905 ∷ [];
  locked = true ∷ [];
  shoppers = record { need = pos 9100; place = inside_shop 0 } ∷ [];
  loader = before_shop 0;
  loads = 0;
}

enter : pthread_shopper 0 (opening (5 ∷ []) (0 ∷ [])) ≡ some entered
unfolding pthread_shopper shopper_at approach try_lock
enter = refl

Reach-IsMall_example : IsMall (opening (5 ∷ []) (0 ∷ [])) entered
Reach-IsMall_example = Reach-IsMall (5 ∷ []) (0 ∷ []) (shops begin 0 enter)
