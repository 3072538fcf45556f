-- ===== src/Taxi/Dispatcher/Table.antt =====
-- The table of drivers: a pid is found in at most one place, and the operations on the table are
-- seen through `find_driver`.
use eltex_lessons.Base.{
  ℕ, zero, suc, ◌≤◌, ◌≡◌, ◌≢◌, ◌⊎◌, refl, ◌∙◌, Bool, true, false, ◌&&◌, ◌||◌, Option, none, some,
  List, [], ◌∷◌, ◌++◌, arith, ltb, length, set, length-set, length-append, if◌then◌else◌,
  Bool-cases, inl, inr, is_some, Option-cases, leb,
}
use eltex_lessons.Base.Int.{ℤ, eq_ℤ, eq_ℤ→≡, eq_ℤ_refl}
use eltex_lessons.Taxi.Dispatcher.{
  Driver, Drivers, max_drivers, zero_driver, find_driver, free_slot, take_slot, Pipe, Fork,
  in_parent, new_driver, start_driver, create_driver, bury, cleanup_zombies,
}

-- Behind the slot of a driver no active driver has its pid.
abbrev pub Unique : Drivers → Type 0
Unique [] = Unit
Unique (d ∷ ds) = (find_driver d.pid ds ≡ none) × Unique ds

pub record IsTable (ds : Drivers) : Type 0 where
  pub fits : length ds ≤ max_drivers
  pub unique : Unique ds

abbrev pub member : ℤ → List ℤ → Bool
member p [] = false
member p (q ∷ qs) = if eq_ℤ q p then true else member p qs

-- Under `Unique` the loop of `cleanup_zombies` takes out exactly the driver with that pid.
find-bury :
    (p q : ℤ) (ds : Drivers)
    → Unique ds
    → find_driver q (bury p ds).0 ≡ (if eq_ℤ p q then none else find_driver q ds)
unfolding find_driver bury
find-bury p q [] h = ground arith
find-bury p q (d ∷ ds) h =
    ground (arith, find-bury p q ds h.1, h.0, eq_ℤ→≡ d.pid p, eq_ℤ→≡ d.pid q, eq_ℤ→≡ p q)

find-bury-none :
    (p q : ℤ) (ds : Drivers) → find_driver q ds ≡ none → find_driver q (bury p ds).0 ≡ none
unfolding find_driver bury
find-bury-none p q [] h = refl
find-bury-none p q (d ∷ ds) h = ground (arith, find-bury-none p q ds)

bury-Unique : (p : ℤ) (ds : Drivers) → Unique ds → Unique (bury p ds).0
unfolding bury
bury-Unique p [] h = tt
bury-Unique p (d ∷ ds) h = ground (arith, find-bury-none p d.pid ds h.0, bury-Unique p ds h.1)

length-bury : (p : ℤ) (ds : Drivers) → length (bury p ds).0 ≡ length ds
unfolding bury
length-bury p [] = refl
length-bury p (d ∷ ds) = ground (arith, length-bury p ds)

pub cleanup_zombies-IsTable :
    (ps : List ℤ) (ds : Drivers) → IsTable ds → IsTable (cleanup_zombies ps ds).0
unfolding cleanup_zombies
cleanup_zombies-IsTable [] ds h = h
cleanup_zombies-IsTable (p ∷ ps) ds h =
    cleanup_zombies-IsTable ps (bury p ds).0 (record {
      fits = omega (arith, length-bury p ds, h.fits);
      unique = bury-Unique p ds h.unique;
    })

-- After `cleanup_zombies` on a well-formed table the drivers that waitpid reported are no longer
-- found, and every other pid is found, or not, as before, even where a dead driver's pid still
-- stands in an inactive slot.
pub find-cleanup_zombies :
    (ps : List ℤ) (q : ℤ) (ds : Drivers)
    → IsTable ds
    → find_driver q (cleanup_zombies ps ds).0 ≡ (if member q ps then none else find_driver q ds)
unfolding cleanup_zombies
find-cleanup_zombies [] q ds h = refl
find-cleanup_zombies (p ∷ ps) q ds h =
    let rest = find-cleanup_zombies ps q (bury p ds).0 (record {
      fits = omega (arith, length-bury p ds, h.fits);
      unique = bury-Unique p ds h.unique;
    }) in
    ground (arith, rest, find-bury p q ds h.unique)

-- A slot that was free when it is filled.
find-set :
    (q : ℤ) (n : Driver) (i : ℕ) (ds : Drivers)
    → n.active ≡ true
    → free_slot ds ≡ some i
    → find_driver n.pid ds ≡ none
    → find_driver q (set ds i n) ≡ (if eq_ℤ n.pid q then some n else find_driver q ds)
unfolding find_driver free_slot
find-set q n i [] a f h = ground arith
find-set q n zero (d ∷ ds) a f h = ground arith
find-set q n (suc i) (d ∷ ds) a f h =
    ground (arith, find-set q n i ds a, eq_ℤ→≡ d.pid q, eq_ℤ→≡ n.pid q, eq_ℤ_refl d.pid)

-- A new driver in a free slot: the slots in front of it are active, so none has its pid.
set-Unique :
    (n : Driver) (i : ℕ) (ds : Drivers)
    → n.active ≡ true
    → free_slot ds ≡ some i
    → find_driver n.pid ds ≡ none
    → Unique ds
    → Unique (set ds i n)
unfolding find_driver free_slot
set-Unique n i [] a f h u = tt
set-Unique n zero (d ∷ ds) a f h u = ground arith
set-Unique n (suc i) (d ∷ ds) a f h u =
    ground
      (arith, set-Unique n i ds a, find-set d.pid n i ds a, eq_ℤ→≡ n.pid d.pid, eq_ℤ_refl d.pid)

free_slot-append :
    (ds : Drivers) → free_slot ds ≡ none → free_slot (ds ++ zero_driver ∷ []) ≡ some (length ds)
unfolding free_slot
free_slot-append [] h = refl
free_slot-append (d ∷ ds) h = ground (arith, free_slot-append ds)

find-append_zero :
    (q : ℤ) (ds : Drivers) → find_driver q (ds ++ zero_driver ∷ []) ≡ find_driver q ds
unfolding find_driver
find-append_zero q [] = ground arith
find-append_zero q (d ∷ ds) = ground (arith, find-append_zero q ds)

append_zero-Unique : (ds : Drivers) → Unique ds → Unique (ds ++ zero_driver ∷ [])
append_zero-Unique [] h = (unfold find_driver in refl, tt)
append_zero-Unique (d ∷ ds) h = (find-append_zero d.pid ds ∙ h.0, append_zero-Unique ds h.1)

-- What a slot that `create_driver` takes is good for.
record Taken (ds : Drivers) (i : ℕ) (ds' : Drivers) : Type 0 where
  free : free_slot ds' ≡ some i
  table : IsTable ds'
  same : (q : ℤ) → find_driver q ds' ≡ find_driver q ds

-- There is an inactive slot, or one behind the table.
abbrev pub has_room : Drivers → Bool
has_room ds = is_some (free_slot ds) || ltb (length ds) max_drivers

abbrev Slot : Drivers → Option (ℕ × Drivers) → Type 0
Slot ds none = has_room ds ≡ false
Slot ds (some (i, ds')) = (has_room ds ≡ true) × Taken ds i ds'

take_slot_lem : (ds : Drivers) → IsTable ds → Slot ds (take_slot ds)
unfolding take_slot
take_slot_lem ds h = elim (Option-cases (free_slot ds)) [
  | inr (j, slot) ↦
      rw (slot, take_slot) (rw slot, record { free = slot; table = h; same = λ q. refl })
  | inl full ↦ elim (Bool-cases (leb max_drivers (length ds))) [
    | inl at_end ↦ rw (full, take_slot) (rw at_end (ground (arith, full)))
    | inr room ↦
        rw (full, take_slot)
          (rw room (
            ground (arith, full),
            record {
              free = free_slot-append ds full;
              table = record {
                fits = ground (arith, length-append ds (zero_driver ∷ []));
                unique = append_zero-Unique ds h.unique;
              };
              same = λ q. find-append_zero q ds;
            },
          ))
  ]
]

-- What `create_driver` makes of a table when both pipes are there and fork returns `pid`.
abbrev pub Created : ℤ → Pipe → Pipe → Drivers → Drivers → Type 0
Created pid a b ds ds' =
    IsTable ds'
    × ((q : ℤ)
        → find_driver q ds'
          ≡ (if has_room ds && eq_ℤ pid q then some (new_driver pid a b) else find_driver q ds))

-- `create_driver` where both pipes and the fork succeed and no active driver has the child's pid:
-- if there is room, the child is found under its pid with its own ends of the two pipes, and
-- every other driver is found as before; if there is none, all are found as before. The table
-- stays well formed.
pub create_driver_lem :
    (pid : ℤ) (a b : Pipe) (ds : Drivers)
    → IsTable ds
    → find_driver pid ds ≡ none
    → Created pid a b ds (create_driver (some (a, b)) (in_parent pid) ds).0
unfolding create_driver start_driver
create_driver_lem pid a b ds h fresh = by_slot (take_slot ds) (take_slot_lem ds h) refl
  where
    by_slot :
        (o : Option (ℕ × Drivers))
        → Slot ds o
        → take_slot ds ≡ o
        → Created pid a b ds (create_driver (some (a, b)) (in_parent pid) ds).0
    by_slot none s e = rw (e, create_driver) (h, λ q. rw s)
    by_slot (some (i, ds')) (room, t) e =
        rw (e, create_driver)
          (
            record {
              fits = omega (arith, length-set ds' i (new_driver pid a b), t.table.fits);
              unique =
                  set-Unique (new_driver pid a b) i ds' refl t.free (t.same pid ∙ fresh)
                    t.table.unique;
            },
            λ q. rw room (
                find-set q (new_driver pid a b) i ds' refl t.free (t.same pid ∙ fresh)
                ∙ rw (t.same q)),
          )

-- Where a pipe or the child is missing, the table at most grows by an unused slot.
create_driver_unstarted :
    (pipes : Option (Pipe × Pipe)) (f : Fork) (ds : Drivers)
    → IsTable ds
    → ((pid : ℤ) → f ≢ in_parent pid) ⊎ (pipes ≡ none)
    → let ds' = (create_driver pipes f ds).0 in
      IsTable ds' × ((q : ℤ) → find_driver q ds' ≡ find_driver q ds)
unfolding create_driver start_driver
create_driver_unstarted pipes f ds h not_started =
    by_slot (take_slot ds) (take_slot_lem ds h) refl pipes f not_started
  where
    by_slot :
        (o : Option (ℕ × Drivers))
        → Slot ds o
        → take_slot ds ≡ o
        → (pipes : Option (Pipe × Pipe)) (f : Fork)
        → ((pid : ℤ) → f ≢ in_parent pid) ⊎ (pipes ≡ none)
        → let ds' = (create_driver pipes f ds).0 in
          IsTable ds' × ((q : ℤ) → find_driver q ds' ≡ find_driver q ds)
    by_slot none s e p g n = rw (e, create_driver) (h, λ q. refl)
    by_slot (some (i, ds')) (room, t) e none g n = rw (e, create_driver) (t.table, t.same)
    by_slot (some (i, ds')) (room, t) e (some (a, b)) Fork.fork_failed n =
        rw (e, create_driver) (t.table, t.same)
    by_slot (some (i, ds')) (room, t) e (some (a, b)) Fork.in_child n =
        rw (e, create_driver) (t.table, t.same)
    by_slot (some (i, ds')) (room, t) e (some (a, b)) (in_parent pid) (inl n) = absurd (n pid refl)
    by_slot (some (i, ds')) (room, t) e (some (a, b)) (in_parent pid) (inr n) = cc

pub create_driver-IsTable :
    (pipes : Option (Pipe × Pipe)) (f : Fork) (ds : Drivers)
    → IsTable ds
    → ((pid : ℤ) → f ≡ in_parent pid → find_driver pid ds ≡ none)
    → IsTable (create_driver pipes f ds).0
create_driver-IsTable none f ds h fresh = (create_driver_unstarted none f ds h (inr refl)).0
create_driver-IsTable (some (a, b)) Fork.fork_failed ds h fresh =
    (create_driver_unstarted (some (a, b)) Fork.fork_failed ds h (inl λ p e. cc)).0
create_driver-IsTable (some (a, b)) Fork.in_child ds h fresh =
    (create_driver_unstarted (some (a, b)) Fork.in_child ds h (inl λ p e. cc)).0
create_driver-IsTable (some (a, b)) (in_parent pid) ds h fresh =
    (create_driver_lem pid a b ds h (fresh pid refl)).0
