-- ===== src/Timer/Tests.antt =====
-- A timer that is started twice and closed twice.
use uv_cpp.Prelude.{◌+◌, ◌≡◌, refl, false, List, [], ◌∷◌, none, some, sum}
use uv_cpp.Uv.Flags.{Flags, flags, reading}
use uv_cpp.Timer.{Timer, Action, Event, start_called, process, close_called, run}
use uv_cpp.Timer.Closing.{is_start, is_uv_close, bit, run-calls}

abbrev twice : List Event
twice = start_called ∷ process ∷ start_called ∷ close_called (some 1) ∷ close_called (some 2) ∷ []

abbrev ten : Timer Flags
ten = record {
  started = false;
  handle = some reading;
  timeout = 10;
  repeat = 0;
  callback = some 9;
  close_complete = none;
}

run-calls_example :
    (xs : List Action) × (t' : Timer Flags) × (h' : Flags) × (run flags twice ten ≡ some (xs, t'))
    × (t'.handle ≡ some h')
    × (sum is_start xs + bit ten.started ≡ bit t'.started)
    × (sum is_uv_close xs + bit (reading.closing) ≡ bit h'.closing)
run-calls_example = run-calls flags twice ten reading (tt, (tt, (tt, (tt, (tt, tt))))) refl
