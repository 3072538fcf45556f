-- ===== src/Services/Lending/Tests.antt =====
-- The lending of servers at a concrete run: a client asks, the first server is lent to it, and a
-- second client asks.
use eltex_lessons.Services.Lending.{Desk, start, main_step, begin, asks}
use eltex_lessons.Services.Lending.Guests.{IsLending, Lends, Reach-IsLending}

abbrev lent_once : Desk
lent_once = main_step 8 (main_step 7 start)

Reach-IsLending_example : IsLending lent_once.servers × Lends lent_once (main_step 8 lent_once)
Reach-IsLending_example = Reach-IsLending 8 (asks (asks begin 7) 8)
