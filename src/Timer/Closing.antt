-- ===== src/Timer/Closing.antt =====
-- uv/Timer.cpp: a timer is started once and closed once, in any order of calls.
use uv_cpp.Prelude.{
  ℕ, ◌+◌, ◌≡◌, refl, Bool, true, false, List, [], ◌∷◌, ◌++◌, if◌then◌else◌, Option, some, sum,
  sum-append, All, arith, Bool-cases, inl, inr,
}
use uv_cpp.Uv.{Handles}
use uv_cpp.Timer.{
  Timer, Action, uv_timer_start, uv_timer_stop, uv_close, uv_timer_set_repeat, Event, start_called,
  process, closed_handle, repeat_set, close_called, step, run, start, close, set_timer_repeat,
  on_time_out, on_close_complete,
}

abbrev pub is_start : Action → ℕ
is_start (uv_timer_start timeout repeat) = 1
is_start _ = 0

abbrev pub is_uv_close : Action → ℕ
is_uv_close uv_close = 1
is_uv_close _ = 0

abbrev pub bit : Bool → ℕ
bit true = 1
bit false = 0

-- Every event but libuv's call after it has closed the handle.
abbrev pub IsCall : Event → Type 0
IsCall closed_handle = ⊥
IsCall _ = Unit

module _ (uv : Handles) where
  -- What one call does to a timer with a handle.
  Once : Timer uv.Handle → uv.Handle → Option (List Action × Timer uv.Handle) → Type 0
  Once t h r =
      (xs : List Action) × (t' : Timer uv.Handle) × (h' : uv.Handle) × (r ≡ some (xs, t'))
      × (t'.handle ≡ some h')
      × (sum is_start xs + bit t.started ≡ bit t'.started)
      × (sum is_uv_close xs + bit (uv.is_closing h) ≡ bit (uv.is_closing h'))

  start-Once : (t : Timer uv.Handle) (h : uv.Handle) → t.handle ≡ some h → Once t h (start t)
  unfolding start Once
  start-Once t h e = elim (Bool-cases t.started) [
    | inl on ↦ ([], t, h, rw on refl, e, omega arith, omega arith)
    | inr off ↦ (
      uv_timer_start t.timeout t.repeat ∷ [],
      record t { started = true },
      h,
      ground (arith, off, e),
      e,
      ground (arith, off),
      omega arith,
    )
  ]

  close-Once :
      (t : Timer uv.Handle) (h : uv.Handle) (k : Option ℕ)
      → t.handle ≡ some h
      → Once t h (close uv t k)
  unfolding close Once on_close_complete
  close-Once t h k e =
      let g = if uv.is_active h then uv.stop h else h in
      let t' = record t { close_complete = k } in
      let stops = if uv.is_active h then uv_timer_stop ∷ [] else [] in
      let same : uv.is_closing g ≡ uv.is_closing h = ground (arith, uv.is_closing-stop h) in
      elim (Bool-cases (uv.is_closing g)) [
        | inl closing ↦ (
          stops ++ on_close_complete t',
          record t' { handle = some g },
          g,
          rw e (rw closing refl),
          refl,
          ground arith,
          ground (arith, closing, same),
        )
        | inr open_handle ↦ (
          stops ++ uv_close ∷ [],
          record t' { handle = some (uv.close g) },
          uv.close g,
          rw e (rw open_handle refl),
          refl,
          ground arith,
          ground (arith, open_handle, same, uv.is_closing-close g),
        )
      ]

  step-Once :
      (e : Event) (t : Timer uv.Handle) (h : uv.Handle)
      → IsCall e
      → t.handle ≡ some h
      → Once t h (step uv e t)
  unfolding step Once set_timer_repeat on_time_out
  step-Once start_called t h c e = start-Once t h e
  step-Once process t h c e = (on_time_out t, t, h, refl, e, ground arith, ground arith)
  step-Once closed_handle t h c e = absurd c
  step-Once (repeat_set ms) t h c e = (
    uv_timer_set_repeat ms ∷ [],
    record t { repeat = ms },
    h,
    ground (arith, e),
    e,
    omega arith,
    omega arith,
  )
  step-Once (close_called k) t h c e = close-Once t h k e

  -- As long as libuv has not called back after closing the handle of a timer, any calls of its
  -- methods and any time that passes use the handle before it is deleted; the handle is started
  -- once if the timer is started, however often, and never again, and it is closed once if it is.
  pub run-calls :
      (es : List Event) (t : Timer uv.Handle) (h : uv.Handle)
      → All IsCall es
      → t.handle ≡ some h
      → (xs : List Action) × (t' : Timer uv.Handle) × (h' : uv.Handle) × (run uv es t
          ≡ some (xs, t'))
        × (t'.handle ≡ some h')
        × (sum is_start xs + bit t.started ≡ bit t'.started)
        × (sum is_uv_close xs + bit (uv.is_closing h) ≡ bit (uv.is_closing h'))
  unfolding run Once
  run-calls [] t h a e = ([], t, h, refl, e, omega arith, omega arith)
  run-calls (ev ∷ es) t h a e =
      let (xs, t1, h1, r, e1, s1, c1) = step-Once ev t h a.0 e in
      let (ys, t2, h2, r', e2, s2, c2) = run-calls es t1 h1 a.1 e1 in
      (
        xs ++ ys,
        t2,
        h2,
        rw (r, run) (rw r' refl),
        e2,
        omega (arith, s1, s2, sum-append is_start xs ys),
        omega (arith, c1, c2, sum-append is_uv_close xs ys),
      )
