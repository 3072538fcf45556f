-- ===== src/Messages/Posix/ServerSteps.antt =====
-- Messages/Posix: a step of the server keeps the invariant.
use eltex_lessons.Base.{◌≡◌, refl, sym, ◌∙◌, ap, Bool, true, false, List, [], ◌∷◌, arith}
use mathlib.Core.Path.{subst}
use eltex_lessons.Text.{Bytes, before}
use eltex_lessons.Messages.Posix.{
  ServerPlace, server_opens_first, server_opens_second, server_sends, server_receives, server_done,
  server_failed, server_undefined, State, server_gets, server_at, server_step,
}
use eltex_lessons.Messages.Posix.Invariant.{
  server_held, first_named, second_named, server_has, Sent, Fits, Inv, Holds, unsent-Sent,
  unsent-Left, waiting-Left, only_done,
}

-- What the invariant says of a server at `p`.
record Here (p : ServerPlace) (s : State) : Type 0 where
  held : s.server_open ≡ server_held p
  first_name : s.from_server_named ≡ first_named p
  second_name : s.from_client_named ≡ second_named p
  read : s.server_read ≡ server_has p
  fits : Fits p s.client s.from_server s.from_client

Inv-Here : (p : ServerPlace) (s : State) → s.server ≡ p → Inv s → Here p s
Inv-Here p s e i = record {
  held = i.server_open ∙ ap server_held e;
  first_name = i.first_name ∙ ap first_named e;
  second_name = i.second_name ∙ ap second_named e;
  read = i.server_read ∙ ap server_has e;
  fits = subst (λ q. Fits q s.client s.from_server s.from_client) e i.fits;
}

server_gets-Holds :
    (ms : List Bytes) (s : State)
    → s.from_client ≡ ms
    → Here server_receives s
    → Inv s
    → Holds (server_gets ms s)
unfolding server_gets before
server_gets-Holds [] s e h i = tt
server_gets-Holds (m ∷ ms) s e h i =
    let (done, same) =
      only_done s.client s.from_server m ms (subst (λ b. Sent s.client s.from_server b) e h.fits) in
    subst (λ x. Holds (server_gets (x ∷ ms) s)) (sym same)
      (record {
        server_open = omega (arith, h.held);
        client_open = i.client_open;
        first_name = refl;
        second_name = refl;
        server_read = refl;
        client_read = i.client_read;
        fits = done;
      })

server_at-Holds :
    (p : ServerPlace) (ok : Bool) (s : State) → Here p s → Inv s → Holds (server_at p ok s)
unfolding server_at
server_at-Holds server_opens_first true s h i = record {
  server_open = omega (arith, h.held);
  client_open = i.client_open;
  first_name = refl;
  second_name = h.second_name;
  server_read = h.read;
  client_read = i.client_read;
  fits = h.fits;
}
server_at-Holds server_opens_first false s h i = record {
  server_open = h.held;
  client_open = i.client_open;
  first_name = h.first_name;
  second_name = h.second_name;
  server_read = h.read;
  client_read = i.client_read;
  fits = unsent-Left s.client s.from_server h.fits.0 h.fits.2;
}
server_at-Holds server_opens_second true s h i = record {
  server_open = omega (arith, h.held);
  client_open = i.client_open;
  first_name = h.first_name;
  second_name = refl;
  server_read = h.read;
  client_read = i.client_read;
  fits = h.fits;
}
server_at-Holds server_opens_second false s h i = record {
  server_open = omega (arith, h.held);
  client_open = i.client_open;
  first_name = refl;
  second_name = h.second_name;
  server_read = h.read;
  client_read = i.client_read;
  fits = unsent-Left s.client s.from_server h.fits.0 h.fits.2;
}
server_at-Holds server_sends true s h i = record {
  server_open = h.held;
  client_open = i.client_open;
  first_name = h.first_name;
  second_name = h.second_name;
  server_read = h.read;
  client_read = i.client_read;
  fits = unsent-Sent s.client s.from_server s.from_client h.fits.0 h.fits.1 h.fits.2;
}
server_at-Holds server_sends false s h i = record {
  server_open = omega (arith, h.held);
  client_open = i.client_open;
  first_name = refl;
  second_name = refl;
  server_read = h.read;
  client_read = i.client_read;
  fits = unsent-Left s.client s.from_server h.fits.0 h.fits.2;
}
server_at-Holds server_receives true s h i = server_gets-Holds s.from_client s refl h i
server_at-Holds server_receives false s h i = record {
  server_open = omega (arith, h.held);
  client_open = i.client_open;
  first_name = refl;
  second_name = refl;
  server_read = h.read;
  client_read = i.client_read;
  fits = waiting-Left s.client s.from_server s.from_client h.fits;
}
server_at-Holds server_done ok s h i = tt
server_at-Holds server_failed ok s h i = tt
server_at-Holds server_undefined ok s h i = tt

pub server_step-Holds : (ok : Bool) (s : State) → Inv s → Holds (server_step ok s)
unfolding server_step
server_step-Holds ok s i = server_at-Holds s.server ok s (Inv-Here s.server s refl i) i
