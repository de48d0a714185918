-- ===== src/Tcp/Connection/Writing.antt =====
-- uv/TcpConnection.cpp, write and what libuv calls back: no AfterWriteCallback is lost or called twice.
use uv_cpp.Prelude.{
  length, ◌<◌, ◌^◌, take_all, length-take, ◌≤◌, ◌%◌, All, Bytes, Bool, sum, sum-append, ℕ, zero,
  suc, ◌+◌, ◌≡◌, ◌≢◌, refl, true, false, List, [], ◌∷◌, ◌++◌, Option, none, some, ◌==◌,
  if◌then◌else◌, arith, Option-cases, inl, inr,
}
use uv_cpp.Http.Number.{ℤ, pos, negsuc}
use uv_cpp.Uv.{Handles}
use uv_cpp.Tcp.Connection.{
  uv_buf_init, Function, Action, uv_write, written, message, socket_closed, close_completed,
  WriteReq, TcpConnection, Event, received, shut_down, wrapper_dropped, closed, write_called,
  write_done, close_called, step, run, remove_at, calls, answer, after_write, on_message_receive,
  on_message, on_socket_close, close_complete, close, write, is_zero, set_connect_status,
}

abbrev asks : ℕ → Option ℕ → ℕ
asks k none = 0
asks k (some j) = if j == k then 1 else 0

-- A call of the function `k`, a request that waits for it, and a `write` that is handed it.
abbrev pub answers : ℕ → Action → ℕ
answers k (written j info) = asks k (some j)
answers k _ = 0

abbrev pub waits : ℕ → WriteReq → ℕ
waits k r = asks k r.callback

abbrev pub asked : ℕ → Event → ℕ
asked k (write_called buf callback rst) = asks k callback
asked k _ = 0

waits-remove_at :
    (k i : ℕ) (rs : List WriteReq) (q : WriteReq) (qs : List WriteReq)
    → remove_at i rs ≡ some (q, qs)
    → waits k q + sum (waits k) qs ≡ sum (waits k) rs
unfolding remove_at
waits-remove_at k i [] q qs e = cc
waits-remove_at k zero (r ∷ rs) q qs e = ground (arith, e)
waits-remove_at k (suc i) (r ∷ rs) q qs e = elim (Option-cases (remove_at i rs)) [
  | inl gone ↦ ground (arith, e, gone)
  | inr found ↦ ground (arith, e, found.1, waits-remove_at k i rs found.0.0 found.0.1 found.1)
]

-- What calls none of the functions that a connection keeps.
abbrev pub quiet : Action → Bool
quiet (message f name buf) = false
quiet (socket_closed f name) = false
quiet (close_completed f name) = false
quiet _ = true

abbrev pub AllQuiet : List Action → Type 0
AllQuiet xs = All (λ a. quiet a ≡ true) xs

abbrev pub SameState : {H : Type 0} → TcpConnection H → TcpConnection H → Type 0
SameState c d =
    (d.name ≡ c.name)
    × (d.handle ≡ c.handle)
    × (d.wrapper ≡ c.wrapper)
    × (d.on_connect_close_callback ≡ c.on_connect_close_callback)

pub write-AllQuiet :
    {H : Type 0} (c : TcpConnection H) (buf : Bytes) (callback : Option ℕ) (rst : ℤ)
    → AllQuiet (write c buf callback rst).1 × SameState c (write c buf callback rst).2
unfolding write answer is_zero
write-AllQuiet c buf callback rst = ground arith

pub write_done-AllQuiet :
    (uv : Handles) (i : ℕ) (status : ℤ) (c : TcpConnection uv.Handle)
    → AllQuiet (step uv (write_done i status) c).0 × SameState c (step uv (write_done i status) c).1
unfolding step after_write answer
write_done-AllQuiet uv i status c = ground arith

module _ (uv : Handles) (k : ℕ) where
  step-answers :
      (e : Event) (c : TcpConnection uv.Handle)
      → sum (answers k) (step uv e c).0 + sum (waits k) (step uv e c).1.requests
        ≡ sum (waits k) c.requests + asked k e
  unfolding step on_message_receive on_message on_socket_close close_complete calls write answer
      after_write close set_connect_status
  step-answers (received (pos n) buf) c = ground arith
  step-answers (received (negsuc n) buf) c = ground arith
  step-answers shut_down c = ground arith
  step-answers wrapper_dropped c = ground arith
  step-answers closed c = ground arith
  step-answers (write_called buf callback rst) c = ground (
    arith,
    sum-append (waits k) c.requests (record { buf = uv_buf_init buf; callback = callback } ∷ []),
  )
  step-answers (write_done i status) c = elim (Option-cases (remove_at i c.requests)) [
    | inl gone ↦ ground (arith, gone)
    | inr found ↦
        ground (arith, found.1, waits-remove_at k i c.requests found.0.0 found.0.1 found.1)
  ]
  step-answers (close_called callback) c = ground arith

  -- Whatever happens to a connection, each function handed to `write` is called once for each time
  -- it was handed over, or still waits for libuv to end the request it came with: none is lost,
  -- and none is called twice.
  pub run-answers :
      (es : List Event) (c : TcpConnection uv.Handle)
      → sum (answers k) (run uv es c).0 + sum (waits k) (run uv es c).1.requests
        ≡ sum (waits k) c.requests + sum (asked k) es
  unfolding run
  run-answers [] c = omega arith
  run-answers (e ∷ es) c =
      let r = step uv e c in
      omega
        (arith, step-answers e c, run-answers es r.1, sum-append (answers k) r.0 (run uv es r.1).0)

-- A `write` that libuv accepts, on a connection that is connected.
pub write_accepted :
    {H : Type 0} (c : TcpConnection H) (buf : Bytes) (callback : Option ℕ)
    → c.connected ≡ true
    → write c buf callback (pos 0) ≡ (
      pos 0,
      uv_write (uv_buf_init buf) ∷ [],
      record c {
        requests = c.requests ++ record { buf = uv_buf_init buf; callback = callback } ∷ [];
      },
    )
unfolding write is_zero
write_accepted c buf callback h = rw h refl

-- What an `unsigned int` can measure is covered whole.
pub uv_buf_init-whole : (buf : Bytes) → length buf < 2 ^ 32 → uv_buf_init buf ≡ buf
unfolding uv_buf_init
uv_buf_init-whole buf few = take_all _ buf (omega (arith, few))

pub length-uv_buf_init : (buf : Bytes) → length (uv_buf_init buf) ≤ length buf
unfolding uv_buf_init
length-uv_buf_init buf = omega (arith, length-take (length buf % 2 ^ 32) buf)

-- libuv ends the oldest request.
pub step-write_done :
    (uv : Handles) (status : ℤ) (c : TcpConnection uv.Handle) (k : ℕ) (buf : Bytes)
    (rs : List WriteReq)
    → c.requests ≡ record { buf = buf; callback = some k } ∷ rs
    → step uv (write_done 0 status) c
      ≡ (written k (record { status = status; buf = buf }) ∷ [], record c { requests = rs })
unfolding step remove_at after_write answer
step-write_done uv status c k buf rs e = rw e refl

-- Bytes that come in are handed to the connection's function.
pub step-received :
    (uv : Handles) (n : ℕ) (buf : Bytes) (c : TcpConnection uv.Handle) (f : Function)
    → n ≢ 0
    → c.on_message_callback ≡ some f
    → step uv (received (pos n) buf) c ≡ (message f c.name buf ∷ [], c)
unfolding step on_message_receive on_message calls
step-received uv n buf c f ne e = rw e (ground arith)
