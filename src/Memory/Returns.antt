-- ===== src/Memory/Returns.antt =====
-- Total correctness of a command: it neither faults nor runs out of fuel, and its result meets a
-- postcondition.
use fsm_lang.Base.{◌≡◌}
use fsm_lang.Memory.{Heap, Run, ok}

pub data Returns {A : Type 0} (P : A → Heap → Type 0) (r : Run A) : Type 0 where
  returns : (a : A) (h : Heap) → r ≡ ok a h → P a h → Returns P r
