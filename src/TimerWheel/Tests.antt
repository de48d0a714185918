-- ===== src/TimerWheel/Tests.antt =====
-- A wheel of three seconds.
use uv_cpp.Prelude.{◌≡◌, refl, true, [], ◌∷◌, some, arith}
use uv_cpp.TimerWheel.{TimerWheel, insert, member, ticks, empty_sets}
use uv_cpp.TimerWheel.Ticks.{IsValid, slot, ticks-timeout, ticks-insert}

abbrev three : TimerWheel
three = record {
  index = 1;
  timeout_sec = 3;
  timer_started = true;
  wheel = (4 ∷ []) ∷ (5 ∷ []) ∷ [] ∷ [];
}

three-IsValid : IsValid three
three-IsValid = record {
  some_time = omega arith;
  fits = omega arith;
  slots = refl;
  index_in = omega arith;
}

ticks-timeout_example :
    (w' : TimerWheel) × (ticks 3 three ≡ some w') × IsValid w' × (w'.wheel ≡ [] ∷ [] ∷ [] ∷ [])
unfolding empty_sets
ticks-timeout_example = ticks-timeout three three-IsValid

ticks-insert_example :
    (w1 w2 : TimerWheel) × (insert three (some 9) ≡ some w1)
    × (ticks 2 w1 ≡ some w2)
    × (member 9 (slot w2 1) ≡ true)
ticks-insert_example = ticks-insert three 9 2 three-IsValid (omega arith)
