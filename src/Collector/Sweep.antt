-- ===== src/Collector/Sweep.antt =====
-- source/lone/lisp/garbage_collector.c: the sweep phase, which clears the live bits of the values
-- that are not marked. The memory that they own is given back to the allocator, which the model of
-- the heap does not hold.
pub mod Outcome
use lone.Prelude.{
  ℕ, zero, suc, ◌+◌, ◌-◌, Bool, true, false, List, ltb, ◌==◌, not, ◌&&◌, if◌then◌else◌, length,
  replicate,
}
use lone.Bits.{get, clear}
use lone.Collector.{ObjectHeap}

-- The variables of the loop.
pub record SweepState : Type 0 where
  pub live : List ℕ
  pub first_dead : ℕ
  pub last_live : ℕ

pub record Swept : Type 0 where
  pub live : List ℕ
  pub marked : List ℕ
  pub first_dead : ℕ
  pub count : ℕ

-- The body of the loop.
unfoldable pub sweep_value : List ℕ → ℕ → SweepState → SweepState
sweep_value marked i s =
    let lowest = if ltb i s.first_dead then i else s.first_dead in
    if not (get s.live i)
    then record { live = s.live; first_dead = lowest; last_live = s.last_live }
    else if not (get marked i)
    then record { live = clear s.live i; first_dead = lowest; last_live = s.last_live }
    else record { live = s.live; first_dead = s.first_dead; last_live = i }

-- The loop from `i` on, with `left` values to go.
unfoldable pub sweep_values : ℕ → List ℕ → ℕ → SweepState → SweepState
sweep_values zero marked i s = s
sweep_values (suc left) marked i s = sweep_values left marked (i + 1) (sweep_value marked i s)

unfoldable pub kill_all_unmarked : ObjectHeap → List ℕ → Swept
kill_all_unmarked heap marked =
    let s =
      sweep_values heap.count marked 0
        (record { live = heap.live; first_dead = heap.count; last_live = 0 }) in
    record {
      live = s.live;
      marked = replicate (length marked) 0;
      first_dead = s.first_dead;
      count =
          if s.last_live == 0 && not (get s.live 0)
          then 0
          else if ltb (s.last_live + 1) heap.count
          then s.last_live + 1
          else heap.count;
    }
