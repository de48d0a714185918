-- ===== src/Tcp/Connection/Closing.antt =====
-- uv/TcpConnection.cpp, close: what a connection still does after it.
use uv_cpp.Prelude.{
  sum, sum-append, ℕ, ◌+◌, ◌≡◌, refl, Bool, true, false, List, [], ◌∷◌, ◌++◌, Option, none, some,
  if◌then◌else◌, arith,
}
use uv_cpp.Http.Number.{pos, negsuc}
use uv_cpp.Uv.{Handles}
use uv_cpp.Tcp.Connection.{
  Function, Action, uv_read_stop, uv_close, message, socket_closed, close_completed, TcpConnection,
  Event, received, shut_down, wrapper_dropped, closed, write_called, write_done, close_called, step,
  run, calls, answer, after_write, on_message_receive, on_message, on_socket_close, close_complete,
  close, write, set_connect_status,
}

-- `uv_close`
abbrev pub is_uv_close : Action → ℕ
is_uv_close uv_close = 1
is_uv_close _ = 0

-- The call of a function for messages, or for the end of the connection.
abbrev pub is_delivery : Action → ℕ
is_delivery (message f name buf) = 1
is_delivery (socket_closed f name) = 1
is_delivery _ = 0

abbrev pub bit : Bool → ℕ
bit true = 1
bit false = 0

-- A connection that has been closed.
abbrev pub IsClosed : (uv : Handles) → TcpConnection uv.Handle → Type 0
IsClosed uv c =
    (uv.is_closing c.handle ≡ true)
    × (c.on_message_callback ≡ none)
    × (c.on_connect_close_callback ≡ none)

module _ (uv : Handles) where
  step-closes :
      (e : Event) (c : TcpConnection uv.Handle)
      → sum is_uv_close (step uv e c).0 + bit (uv.is_closing c.handle)
        ≡ bit (uv.is_closing (step uv e c).1.handle)
  unfolding step on_message_receive on_message on_socket_close close_complete calls write answer
      after_write close set_connect_status
  step-closes (received (pos n) buf) c = ground (
    arith,
    uv.is_closing-stop c.handle,
    uv.is_closing-close c.handle,
    uv.is_closing-close (uv.stop c.handle),
  )
  step-closes (received (negsuc n) buf) c = ground (
    arith,
    uv.is_closing-stop c.handle,
    uv.is_closing-close c.handle,
    uv.is_closing-close (uv.stop c.handle),
  )
  step-closes shut_down c = ground (
    arith,
    uv.is_closing-stop c.handle,
    uv.is_closing-close c.handle,
    uv.is_closing-close (uv.stop c.handle),
  )
  step-closes wrapper_dropped c = ground (
    arith,
    uv.is_closing-stop c.handle,
    uv.is_closing-close c.handle,
    uv.is_closing-close (uv.stop c.handle),
  )
  step-closes closed c = ground (
    arith,
    uv.is_closing-stop c.handle,
    uv.is_closing-close c.handle,
    uv.is_closing-close (uv.stop c.handle),
  )
  step-closes (write_called buf callback rst) c = ground (
    arith,
    uv.is_closing-stop c.handle,
    uv.is_closing-close c.handle,
    uv.is_closing-close (uv.stop c.handle),
  )
  step-closes (write_done i status) c = ground (
    arith,
    uv.is_closing-stop c.handle,
    uv.is_closing-close c.handle,
    uv.is_closing-close (uv.stop c.handle),
  )
  step-closes (close_called callback) c = ground (
    arith,
    uv.is_closing-stop c.handle,
    uv.is_closing-close c.handle,
    uv.is_closing-close (uv.stop c.handle),
  )

  step-IsClosed :
      (e : Event) (c : TcpConnection uv.Handle)
      → IsClosed uv c
      → IsClosed uv (step uv e c).1 × (sum is_delivery (step uv e c).0 ≡ 0)
  unfolding step on_message_receive on_message on_socket_close close_complete calls write answer
      after_write close set_connect_status
  step-IsClosed (received (pos n) buf) c h = ground (arith, h, uv.is_closing-stop c.handle)
  step-IsClosed (received (negsuc n) buf) c h = ground (arith, h, uv.is_closing-stop c.handle)
  step-IsClosed shut_down c h = ground (arith, h, uv.is_closing-stop c.handle)
  step-IsClosed wrapper_dropped c h = ground (arith, h, uv.is_closing-stop c.handle)
  step-IsClosed closed c h = ground (arith, h, uv.is_closing-stop c.handle)
  step-IsClosed (write_called buf callback rst) c h = ground (arith, h, uv.is_closing-stop c.handle)
  step-IsClosed (write_done i status) c h = ground (arith, h, uv.is_closing-stop c.handle)
  step-IsClosed (close_called callback) c h = ground (arith, h, uv.is_closing-stop c.handle)

  close-IsClosed :
      (c : TcpConnection uv.Handle) (f : Option Function)
      → IsClosed uv (close uv c f).1 × (sum is_delivery (close uv c f).0 ≡ 0)
  unfolding close close_complete calls
  close-IsClosed c f = ground (
    arith,
    uv.is_closing-stop c.handle,
    uv.is_closing-close c.handle,
    uv.is_closing-close (uv.stop c.handle),
  )

  run-closes :
      (es : List Event) (c : TcpConnection uv.Handle)
      → sum is_uv_close (run uv es c).0 + bit (uv.is_closing c.handle)
        ≡ bit (uv.is_closing (run uv es c).1.handle)
  unfolding run
  run-closes [] c = omega arith
  run-closes (e ∷ es) c =
      let r = step uv e c in
      omega
        (arith, step-closes e c, run-closes es r.1, sum-append is_uv_close r.0 (run uv es r.1).0)

  run-IsClosed :
      (es : List Event) (c : TcpConnection uv.Handle)
      → IsClosed uv c
      → IsClosed uv (run uv es c).1 × (sum is_delivery (run uv es c).0 ≡ 0)
  unfolding run
  run-IsClosed [] c h = (h, refl)
  run-IsClosed (e ∷ es) c h =
      let r = step uv e c in
      let (h', a) = step-IsClosed e c h in
      let (h'', b) = run-IsClosed es r.1 h' in
      (h'', omega (arith, a, b, sum-append is_delivery r.0 (run uv es r.1).0))

  -- After `close` with any function, whatever happens to the connection, neither its function for
  -- messages nor the one for the end of the connection is called, and the handle stays closing;
  -- and `uv_close` is called once in all, the `close` included, or not at all if the handle was
  -- closing.
  pub run-close :
      (c : TcpConnection uv.Handle) (f : Option Function) (es : List Event)
      → (sum is_delivery (close uv c f).0 + sum is_delivery (run uv es (close uv c f).1).0 ≡ 0)
        × (sum is_uv_close (close uv c f).0 + sum is_uv_close (run uv es (close uv c f).1).0
            ≡ (if uv.is_closing c.handle then 0 else 1))
        × IsClosed uv (run uv es (close uv c f).1).1
  unfolding run step
  run-close c f es =
      let (h, a) = close-IsClosed c f in
      let (h', b) = run-IsClosed es (close uv c f).1 h in
      (
        omega (arith, a, b),
        ground (arith, run-closes es (close uv c f).1, step-closes (close_called f) c, h, h'),
        h',
      )

  -- Closing a connection whose handle is open.
  pub close_open :
      (c : TcpConnection uv.Handle) (f : Option Function)
      → uv.is_closing c.handle ≡ false
      → (active : Bool) × ((close uv c f).0
          ≡ (if active then uv_read_stop ∷ [] else []) ++ uv_close ∷ [])
        × (uv.is_closing (close uv c f).1.handle ≡ true)
        × ((close uv c f).1.on_connect_close_callback ≡ none)
        × ((close uv c f).1.name ≡ c.name)
        × ((close uv c f).1.close_pending ≡ true)
        × ((close uv c f).1.close_complete_callback ≡ f)
  unfolding close
  close_open c f o =
      let h = if uv.is_active c.handle then uv.stop c.handle else c.handle in
      let o' : uv.is_closing h ≡ false = ground (arith, o, uv.is_closing-stop c.handle) in
      rw o' (uv.is_active c.handle, refl, uv.is_closing-close h, refl, refl, refl, refl)

  -- Closing a connection whose handle is closing already.
  pub close_again :
      (c : TcpConnection uv.Handle) (f : Function)
      → uv.is_closing c.handle ≡ true
      → (active : Bool) × ((close uv c (some f)).0
          ≡ (if active then uv_read_stop ∷ [] else []) ++ close_completed f c.name ∷ [])
        × ((close uv c (some f)).1.close_pending ≡ c.close_pending)
  unfolding close close_complete calls
  close_again c f h =
      let g = if uv.is_active c.handle then uv.stop c.handle else c.handle in
      let h' : uv.is_closing g ≡ true = ground (arith, h, uv.is_closing-stop c.handle) in
      rw h' (uv.is_active c.handle, refl, refl)

  -- What was written is not taken back.
  pub close-requests :
      (c : TcpConnection uv.Handle) (f : Option Function) → (close uv c f).1.requests ≡ c.requests
  unfolding close close_complete calls
  close-requests c f = ground arith
