-- ===== src/Buffer/Cycle/Tests.antt =====
-- CycleBuffer on an array of twelve bytes.
use mathlib.Core.Equiv.{IsEquiv}
use uv_cpp.Prelude.{◌+◌, ◌≤◌, ◌≡◌, refl, [], ◌∷◌, ok, failed, arith}
use uv_cpp.Buffer.Cycle.{CycleBuffer, create, usable_size_info}
use uv_cpp.Buffer.Cycle.Inv.{IsValid, usable_size_info-free}
use uv_cpp.Buffer.Cycle.View.{View, queue_of, view_step, queue_of-IsEquiv}
use uv_cpp.Buffer.Cycle.Trace.{
  Call, append_call, read_call, clear_n_call, run, queue_run, queue_step, run-create,
}

-- The bytes 1 and 2 stand at places 11 and 0.
abbrev round_end : CycleBuffer
round_end = record {
  buffer = 2 ∷ 0 ∷ 0 ∷ 0 ∷ 0 ∷ 0 ∷ 0 ∷ 0 ∷ 0 ∷ 0 ∷ 0 ∷ 1 ∷ [];
  write_index = 1;
  read_index = 11;
}

round_end-IsValid : IsValid 12 round_end
round_end-IsValid = record {
  storage = refl;
  not_empty = omega arith;
  small = omega arith;
  write_in = omega arith;
  read_in = omega arith;
}

usable_size_info-free_example :
    ((usable_size_info 12 round_end).size ≡ 9)
    × ((usable_size_info 12 round_end).part1 + (usable_size_info 12 round_end).part2 ≡ 9)
    × (1 + (usable_size_info 12 round_end).part1 ≤ 12)
usable_size_info-free_example = usable_size_info-free round_end-IsValid

run-create_example :
    run 4 (create (9 ∷ 9 ∷ 9 ∷ 9 ∷ [])) (
      append_call (1 ∷ 2 ∷ [])
      ∷ clear_n_call 1
      ∷ append_call (3 ∷ 4 ∷ 5 ∷ [])
      ∷ append_call (3 ∷ 4 ∷ [])
      ∷ read_call 3
      ∷ [])
    ≡ (ok, []) ∷ (ok, []) ∷ (failed, []) ∷ (ok, []) ∷ (ok, 2 ∷ 3 ∷ 4 ∷ []) ∷ []
unfolding queue_run queue_step
run-create_example =
    run-create (9 ∷ 9 ∷ 9 ∷ 9 ∷ [])
      (append_call (1 ∷ 2 ∷ [])
        ∷ clear_n_call 1
        ∷ append_call (3 ∷ 4 ∷ 5 ∷ [])
        ∷ append_call (3 ∷ 4 ∷ [])
        ∷ read_call 3
        ∷ [])
      (omega arith) (omega arith)

queue_of-IsEquiv_example :
    IsEquiv (queue_of 12)
    × ((v : View 12) (c : Call)
        → ((view_step 12 v c).0 ≡ (queue_step 12 (queue_of 12 v).0 c).0)
          × ((queue_of 12 (view_step 12 v c).1).0 ≡ (queue_step 12 (queue_of 12 v).0 c).1))
queue_of-IsEquiv_example = queue_of-IsEquiv 12 (omega arith) (omega arith)
