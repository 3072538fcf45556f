-- ===== src/PipeChild.antt =====
-- Pipe/MyPipe/myPipe.c: a parent writes to a pipe, and its child copies the pipe to its output
-- until the end of file. A step is a call of the system, from where fork has succeeded: both
-- processes then hold both ends.
pub mod Steps
pub mod Copying
mod Tests
use eltex_lessons.Base.{
  ℕ, ◌+◌, ◌-◌, ◌≡◌, Option, none, some, List, [], ◌∷◌, ◌++◌, ◌==◌, if◌then◌else◌,
}
use eltex_lessons.Text.{Bytes, codes}

abbrev pub msg : Bytes
msg = codes "Hi"

-- Where the parent stands; it is killed if it writes where nobody can read.
pub data ParentPlace : Type 0 where
  closes_read : ParentPlace
  writes_msg : ParentPlace
  closes_write : ParentPlace
  waits_for_child : ParentPlace
  parent_ended : ParentPlace
  parent_killed : ParentPlace

pub data ChildPlace : Type 0 where
  child_closes_write : ChildPlace
  child_copies : ChildPlace
  child_closes_read : ChildPlace
  child_exited : ChildPlace

-- The two processes, the pipe with its open ends, and the output of the child.
pub record State : Type 0 where
  pub parent : ParentPlace
  pub child : ChildPlace
  pub pipe : Bytes
  pub readers : ℕ
  pub writers : ℕ
  pub output : Bytes

abbrev pub start : State
start = record {
  parent = closes_read;
  child = child_closes_write;
  pipe = [];
  readers = 2;
  writers = 2;
  output = [];
}

abbrev pub is_exited : ChildPlace → State → Option State
is_exited child_exited s = some (record s { parent = parent_ended })
is_exited child_closes_write s = none
is_exited child_copies s = none
is_exited child_closes_read s = none

-- A step of the parent; `none` where it waits or has ended.
unfoldable pub parent_at : ParentPlace → State → Option State
parent_at closes_read s = some (record s { readers = s.readers - 1; parent = writes_msg })
parent_at writes_msg s =
    if s.readers == 0
    then some (record s { parent = parent_killed })
    else some (record s { pipe = s.pipe ++ msg; parent = closes_write })
parent_at closes_write s = some (record s { writers = s.writers - 1; parent = waits_for_child })
parent_at waits_for_child s = is_exited s.child s
parent_at parent_ended s = none
parent_at parent_killed s = none

unfoldable pub parent_step : State → Option State
parent_step s = parent_at s.parent s

-- A round of the loop of the child: a byte that is there is copied, at the end of file the loop
-- ends, and as long as there are writers the child waits.
unfoldable pub copy_byte : Bytes → State → Option State
copy_byte [] s = if s.writers == 0 then some (record s { child = child_closes_read }) else none
copy_byte (b ∷ bs) s = some (record s { pipe = bs; output = s.output ++ b ∷ [] })

unfoldable pub child_at : ChildPlace → State → Option State
child_at child_closes_write s = some (record s { writers = s.writers - 1; child = child_copies })
child_at child_copies s = copy_byte s.pipe s
child_at child_closes_read s = some (record s { readers = s.readers - 1; child = child_exited })
child_at child_exited s = none

unfoldable pub child_step : State → Option State
child_step s = child_at s.child s

-- The states that the two come to, in whatever order they are scheduled, with the number of steps.
pub data Reach : ℕ → State → Type 0 where
  begin : Reach 0 start
  by_parent : {n : ℕ} {s t : State} → Reach n s → parent_step s ≡ some t → Reach (n + 1) t
  by_child : {n : ℕ} {s t : State} → Reach n s → child_step s ≡ some t → Reach (n + 1) t
