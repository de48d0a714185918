-- ===== src/Signal.antt =====
-- uv/Signal.cpp: a handler of a signal. The handle is `none` when it has been deleted, and a call on it then is
-- `none`; so is the call of an empty `std::function`.
use uv_cpp.Prelude.{ℕ, Bool, true, false, List, [], ◌∷◌, if◌then◌else◌, Option, none, some}
use uv_cpp.Uv.{Handles}

pub data Action : Type 0 where
  uv_signal_start : ℕ → Action
  uv_close : Action
  called : ℕ → ℕ → Action
  log_no_handle : ℕ → Action
  completed : ℕ → Action

-- `handler` is the member handle_.
pub record Signal (H : Type 0) : Type 0 where
  pub signal : Option H
  pub handler : Option ℕ
  pub close_callback : Option ℕ

module _ {H : Type 0} where
  pub new_signal : H → ℕ → Option ℕ → List Action × Signal H
  new_signal h sig handler = (
    uv_signal_start sig ∷ [],
    record { signal = some h; handler = handler; close_callback = none },
  )

  pub set_handle : Signal H → Option ℕ → Signal H
  set_handle s handler = record s { handler = handler }

  pub handle : Signal H → ℕ → Bool × List Action
  handle s signum = elim s.handler [ none ↦ (false, []) | some k ↦ (true, called k signum ∷ []) ]

  pub on_signal : Signal H → ℕ → List Action
  unfolding handle
  on_signal s signum = let r = handle s signum in if r.0 then r.1 else log_no_handle signum ∷ []

  pub close_complete : Signal H → List Action
  close_complete s = elim s.close_callback [ none ↦ [] | some k ↦ completed k ∷ [] ]

  -- The function that close gives to `uv_close`.
  pub closed : Signal H → List Action × Signal H
  unfolding close_complete
  closed s = (close_complete s, record s { signal = none })

-- The signal that `signal(sig, SIG_IGN)` is called for, which it is only under Linux.
pub ignore : Bool → ℕ → Option ℕ
ignore linux sig = if linux then some sig else none

module _ (uv : Handles) where
  pub close : Signal uv.Handle → Option ℕ → Option (List Action × Signal uv.Handle)
  close s callback = elim s.signal [
    | none ↦ none
    | some h ↦
        let s' = record s { close_callback = callback } in
        if uv.is_closing h
        then (elim callback [ none ↦ none | some k ↦ some (completed k ∷ [], s') ])
        else some (uv_close ∷ [], record s' { signal = some (uv.close h) })
  ]
