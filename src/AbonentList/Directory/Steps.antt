-- ===== src/AbonentList/Directory/Steps.antt =====
-- One step at a time: reads and writes of cells that are in the heap.
use eltex_lessons.Base.{◌-◌, ◌≡◌, ◌≢◌, true, false, Option, none, some, arith, ◌==◌}
use eltex_lessons.AbonentList.Memory.{
  Ptr, null, Abonent, Abonents, Heap, put, load, set_next, set_prev, free, ◌>>=◌, ◌>>◌,
}
use eltex_lessons.AbonentList.Directory.{unlink_next, unlink_prev, unlink_abonent}

module _ (h : Heap) (p : Ptr) (m : Abonent) (ne : p ≢ null) (e : h p ≡ some m) where
  pub load_cell : load p h ≡ some (m, h)
  unfolding load
  load_cell = ground arith

  pub set_next_cell : (q : Ptr) → set_next p q h ≡ some (tt, put h p (some (record m { next = q })))
  unfolding set_next
  set_next_cell q = rw (load_cell, set_next, ◌>>=◌)

  pub set_prev_cell : (q : Ptr) → set_prev p q h ≡ some (tt, put h p (some (record m { prev = q })))
  unfolding set_prev
  set_prev_cell q = rw (load_cell, set_prev, ◌>>=◌)

  pub free_cell : free p h ≡ some (tt, put h p none)
  unfolding free
  free_cell = rw (load_cell, free, ◌>>=◌)

pub put_ne : (h : Heap) (p a : Ptr) (c : Option Abonent) → (a == p) ≡ false → put h p c a ≡ h a
unfolding put
put_ne h p a c o = rw o

pub put_self : (h : Heap) (p : Ptr) (c : Option Abonent) → put h p c p ≡ c
unfolding put
put_self h p c = ground arith

module _ (n m : Abonent) (abs : Abonents) (h : Heap) where
  pub unlink_next_first :
      n.prev ≡ null → unlink_next n abs h ≡ some (record abs { head = n.next }, h)
  unfolding unlink_next
  unlink_next_first e = ground arith

  pub unlink_next_cell :
      n.prev ≢ null
      → h n.prev ≡ some m
      → unlink_next n abs h ≡ some (abs, put h n.prev (some (record m { next = n.next })))
  unfolding unlink_next
  unlink_next_cell ne e =
      let t : (n.prev == null) ≡ false = ground arith in
      rw (t, unlink_next) (rw (set_next_cell h n.prev m ne e n.next, ◌>>◌, ◌>>=◌))

  pub unlink_prev_last :
      n.next ≡ null → unlink_prev n abs h ≡ some (record abs { tail = n.prev }, h)
  unfolding unlink_prev
  unlink_prev_last e = ground arith

  pub unlink_prev_cell :
      n.next ≢ null
      → h n.next ≡ some m
      → unlink_prev n abs h ≡ some (abs, put h n.next (some (record m { prev = n.prev })))
  unfolding unlink_prev
  unlink_prev_cell ne e =
      let t : (n.next == null) ≡ false = ground arith in
      rw (t, unlink_prev) (rw (set_prev_cell h n.next m ne e n.prev, ◌>>◌, ◌>>=◌))

pub unlink_steps :
    (p : Ptr) (abs abs₁ abs₂ : Abonents) (n : Abonent) (h h₁ h₂ : Heap)
    → p ≢ null
    → h p ≡ some n
    → unlink_next n abs h ≡ some (abs₁, h₁)
    → h₁ p ≡ some n
    → unlink_prev n abs₁ h₁ ≡ some (abs₂, h₂)
    → h₂ p ≡ some n
    → unlink_abonent p abs h ≡ some ((true, record abs₂ { count = abs₂.count - 1 }), put h₂ p none)
unfolding unlink_abonent
unlink_steps p abs abs₁ abs₂ n h h₁ h₂ ne e a e₁ b e₂ =
    rw (load_cell h p n ne e, unlink_abonent, ◌>>=◌, ◌>>◌)
      (rw (a, ◌>>=◌, ◌>>◌)
        (rw (load_cell h₁ p n ne e₁, ◌>>=◌, ◌>>◌)
          (rw (b, ◌>>=◌, ◌>>◌) (rw (free_cell h₂ p n ne e₂, ◌>>=◌, ◌>>◌)))))
