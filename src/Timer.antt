-- ===== src/Timer.antt =====
-- uv/Timer.cpp: a timer and its handle. libuv is a parameter. The handle is `none` when it has been deleted,
-- and a call on it then is `none`.
pub mod Closing
mod Tests
use uv_cpp.Prelude.{ℕ, Bool, true, false, List, [], ◌∷◌, ◌++◌, if◌then◌else◌, Option, none, some}
use uv_cpp.Uv.{Handles}

pub data Action : Type 0 where
  uv_timer_start : ℕ → ℕ → Action
  uv_timer_set_repeat : ℕ → Action
  uv_timer_stop uv_close : Action
  timed_out completed : ℕ → Action

pub record Timer (H : Type 0) : Type 0 where
  pub started : Bool
  pub handle : Option H
  pub timeout : ℕ
  pub repeat : ℕ
  pub callback : Option ℕ
  pub close_complete : Option ℕ

module _ {H : Type 0} where
  pub new_timer : H → ℕ → ℕ → Option ℕ → Timer H
  new_timer h timeout repeat callback = record {
    started = false;
    handle = some h;
    timeout = timeout;
    repeat = repeat;
    callback = callback;
    close_complete = none;
  }

  pub start : Timer H → Option (List Action × Timer H)
  start t = if t.started then some ([], t) else elim t.handle [
    | none ↦ none
    | some h ↦ some (uv_timer_start t.timeout t.repeat ∷ [], record t { started = true })
  ]

  pub set_timer_repeat : Timer H → ℕ → Option (List Action × Timer H)
  set_timer_repeat t ms = elim t.handle [
    | none ↦ none
    | some h ↦ some (uv_timer_set_repeat ms ∷ [], record t { repeat = ms })
  ]

  pub on_time_out : Timer H → List Action
  on_time_out t = elim t.callback [ none ↦ [] | some k ↦ timed_out k ∷ [] ]

  pub on_close_complete : Timer H → List Action
  on_close_complete t = elim t.close_complete [ none ↦ [] | some k ↦ completed k ∷ [] ]

  -- The function that close gives to `uv_close`.
  pub closed : Timer H → List Action × Timer H
  unfolding on_close_complete
  closed t = (on_close_complete t, record t { handle = none })

-- `process` is libuv's call when the time is over, `closed_handle` its call after `uv_close`.
pub data Event : Type 0 where
  start_called process closed_handle : Event
  repeat_set : ℕ → Event
  close_called : Option ℕ → Event

module _ (uv : Handles) where
  pub close : Timer uv.Handle → Option ℕ → Option (List Action × Timer uv.Handle)
  unfolding on_close_complete
  close t callback = elim t.handle [
    | none ↦ none
    | some h ↦
        let active = uv.is_active h in
        let g = if active then uv.stop h else h in
        let stops = if active then uv_timer_stop ∷ [] else [] in
        let t' = record t { close_complete = callback } in
        some (
          if uv.is_closing g
          then (stops ++ on_close_complete t', record t' { handle = some g })
          else (stops ++ uv_close ∷ [], record t' { handle = some (uv.close g) }))
  ]

  pub step : Event → Timer uv.Handle → Option (List Action × Timer uv.Handle)
  unfolding start on_time_out closed set_timer_repeat close
  step start_called t = start t
  step process t = some (on_time_out t, t)
  step closed_handle t = some (closed t)
  step (repeat_set ms) t = set_timer_repeat t ms
  step (close_called k) t = close t k

  pub run : List Event → Timer uv.Handle → Option (List Action × Timer uv.Handle)
  unfolding step
  run [] t = some ([], t)
  run (e ∷ es) t = elim (step e t) [
    | none ↦ none
    | some (xs, t') ↦ elim (run es t') [ none ↦ none | some (ys, t'') ↦ some (xs ++ ys, t'') ]
  ]
