-- ===== src/PipeChild/Tests.antt =====
-- The parent has written and closed its end, and the child still holds one.
use eltex_lessons.Base.{refl}
use eltex_lessons.PipeChild.{
  State, start, msg, waits_for_child, parent_step, parent_at, Reach, begin, by_parent,
}
use eltex_lessons.PipeChild.Copying.{IsCopied, Reach-IsCopied}

abbrev all_sent : State
all_sent = record start { parent = waits_for_child; pipe = msg; readers = 1; writers = 1 }

all_sent-Reach : Reach 3 all_sent
unfolding parent_step parent_at
all_sent-Reach = by_parent (by_parent (by_parent begin refl) refl) refl

Reach-IsCopied_example : IsCopied 3 all_sent
Reach-IsCopied_example = Reach-IsCopied 3 all_sent all_sent-Reach
