-- ===== src/Tcp/Connection.antt =====
-- uv/TcpConnection.cpp and uv/include/TcpConnection.hpp: one connection. The functions that it is given are
-- names: those that TcpServer and TcpClient bind to themselves, and a user's by a number. A method
-- returns what it does beside its own members: calls of libuv, of those functions and of the log.
pub mod Writing
mod Tests
pub mod Closing
use uv_cpp.Prelude.{
  ℕ, zero, suc, Bool, true, false, Bytes, List, [], ◌∷◌, ◌++◌, length, if◌then◌else◌, Option, none,
  some, ◌==◌, ◌&&◌, ◌%◌, ◌^◌, take,
}
use uv_cpp.Http.Number.{ℤ, pos, negsuc}
use uv_cpp.Uv.{Handles}
use uv_cpp.Buffer.Config.{BufferMode, AnyBuffer, new_buffer}

pub data Function : Type 0 where
  server client : Function
  user : ℕ → Function

pub record WriteInfo : Type 0 where
  pub status : ℤ
  pub buf : Bytes

abbrev pub disconnected : ℤ
disconnected = negsuc 0

-- What `uv_write` has been handed and has not called back for.
pub record WriteReq : Type 0 where
  pub buf : Bytes
  pub callback : Option ℕ

-- `log_error` has the number of the error that is named.
pub data Action : Type 0 where
  uv_read_start uv_read_stop uv_close uv_shutdown : Action
  uv_write : Bytes → Action
  log_error : ℤ → Action
  message : Function → Bytes → Bytes → Action
  socket_closed close_completed : Function → Bytes → Action
  written : ℕ → WriteInfo → Action

-- `wrapper` is the pointer itself: whether it has expired is known to those who hold it. `close_pending`
-- says that `uv_close` was called and has not called back, and `requests` is the heap's part of `write`.
pub record TcpConnection (H : Type 0) : Type 0 where
  pub name : Bytes
  pub connected : Bool
  pub handle : H
  pub buffer : Option AnyBuffer
  pub data_size : ℕ
  pub wrapper : Option ℕ
  pub on_message_callback : Option Function
  pub on_connect_close_callback : Option Function
  pub close_complete_callback : Option Function
  pub requests : List WriteReq
  pub close_pending : Bool

-- UV_EOF is -4095.
unfoldable pub is_eof : ℤ → Bool
is_eof (pos n) = false
is_eof (negsuc n) = n == 4094

is_zero : ℤ → Bool
is_zero (pos n) = n == 0
is_zero (negsuc n) = false

unfoldable pub calls : Option Function → (Function → Action) → List Action
calls none a = []
calls (some f) a = a f ∷ []

-- The call of an AfterWriteCallback, if it is not null.
pub answer : Option ℕ → ℤ → Bytes → List Action
answer none status buf = []
answer (some k) status buf = written k (record { status = status; buf = buf }) ∷ []

-- The function that `write` gives to `uv_write`.
pub after_write : WriteReq → ℤ → List Action
unfolding answer
after_write r status = answer r.callback status r.buf

-- `uv_buf_init`, whose size is an `unsigned int`: the bytes that it covers.
unfoldable pub uv_buf_init : Bytes → Bytes
uv_buf_init buf = take (length buf % 2 ^ 32) buf

module _ {H : Type 0} where
  unfoldable pub new_connection :
      BufferMode → Bytes → Bytes → H → Bool → List Action × TcpConnection H
  new_connection mode storage name h is_connected = (
    uv_read_start ∷ [],
    record {
      name = name;
      connected = is_connected;
      handle = h;
      buffer = new_buffer mode storage;
      data_size = 0;
      wrapper = none;
      on_message_callback = none;
      on_connect_close_callback = none;
      close_complete_callback = none;
      requests = [];
      close_pending = false;
    },
  )

  unfoldable pub set_message_callback : TcpConnection H → Option Function → TcpConnection H
  set_message_callback c f = record c { on_message_callback = f }

  unfoldable pub set_connect_close_callback : TcpConnection H → Option Function → TcpConnection H
  set_connect_close_callback c f = record c { on_connect_close_callback = f }

  unfoldable pub set_connect_status : TcpConnection H → Bool → TcpConnection H
  set_connect_status c status = record c { connected = status }

  unfoldable pub set_wrapper : TcpConnection H → ℕ → TcpConnection H
  set_wrapper c w = record c { wrapper = some w }

  -- `alive` says which wrappers have not been destroyed.
  unfoldable pub get_wrapper : (ℕ → Bool) → TcpConnection H → Option ℕ
  get_wrapper alive c = elim c.wrapper [ none ↦ none | some w ↦ if alive w then some w else none ]

  pub resize_data : TcpConnection H → ℕ → TcpConnection H
  resize_data c size = record c { data_size = size }

  unfoldable pub on_message : TcpConnection H → Bytes → List Action
  unfolding calls
  on_message c buf = calls c.on_message_callback λ f. message f c.name buf

  unfoldable pub on_socket_close : TcpConnection H → List Action
  unfolding calls
  on_socket_close c = calls c.on_connect_close_callback λ f. socket_closed f c.name

  unfoldable pub close_complete : TcpConnection H → List Action
  unfolding calls
  close_complete c = calls c.close_complete_callback λ f. close_completed f c.name

  -- `rst` is what `uv_write` returns. The memory of `buf` must last until libuv has ended the request.
  pub write : TcpConnection H → Bytes → Option ℕ → ℤ → ℤ × List Action × TcpConnection H
  unfolding is_zero answer
  write c buf callback rst =
      if c.connected
      then (if is_zero rst
          then (
            rst,
            uv_write (uv_buf_init buf) ∷ [],
            record c {
              requests = c.requests ++ record { buf = uv_buf_init buf; callback = callback } ∷ [];
            },
          )
          else (rst, uv_write (uv_buf_init buf) ∷ log_error rst ∷ answer callback rst buf, c))
      else (negsuc 0, answer callback disconnected buf, c)

  -- The function that writeInLoop hands to the loop: `conn` is what the weak pointer gives there.
  -- `none` is the exception of a call of an empty `std::function`.
  pub write_in_loop :
      Option (TcpConnection H)
      → Bytes
      → Option ℕ
      → ℤ
      → Option (List Action × Option (TcpConnection H))
  unfolding write
  write_in_loop (some c) buf callback rst = let r = write c buf callback rst in some (r.1, some r.2)
  write_in_loop none buf none rst = none
  write_in_loop none buf (some k) rst =
      some (written k (record { status = disconnected; buf = buf }) ∷ [], none)

  -- The function called by `uv_read_start`: `nread`, and the bytes read when it is positive.
  unfoldable pub on_message_receive : TcpConnection H → ℤ → Bytes → List Action × TcpConnection H
  unfolding on_message on_socket_close set_connect_status is_eof
  on_message_receive c (pos n) buf = if n == 0 then ([], c) else (on_message c buf, c)
  on_message_receive c (negsuc n) buf =
      let c' = set_connect_status c false in
      (
        log_error (negsuc n) ∷ (if is_eof (negsuc n) then uv_shutdown ∷ [] else on_socket_close c'),
        c',
      )

-- What happens to a connection: its methods are called, libuv calls back, its wrapper is destroyed.
-- `write_done` ends the request at a place of the list.
pub data Event : Type 0 where
  received : ℤ → Bytes → Event
  shut_down wrapper_dropped closed : Event
  write_called : Bytes → Option ℕ → ℤ → Event
  write_done : ℕ → ℤ → Event
  close_called : Option Function → Event

pub remove_at : ℕ → List WriteReq → Option (WriteReq × List WriteReq)
remove_at i [] = none
remove_at zero (r ∷ rs) = some (r, rs)
remove_at (suc i) (r ∷ rs) = elim (remove_at i rs) [ none ↦ none | some (q, qs) ↦ some (q, r ∷ qs) ]

module _ (uv : Handles) where
  pub close : TcpConnection uv.Handle → Option Function → List Action × TcpConnection uv.Handle
  unfolding close_complete
  close c callback =
      let active = uv.is_active c.handle in
      let h = if active then uv.stop c.handle else c.handle in
      let stops = if active then uv_read_stop ∷ [] else [] in
      let c' = record c {
        handle = h;
        on_message_callback = none;
        on_connect_close_callback = none;
        close_complete_callback = callback;
      } in
      if uv.is_closing h
      then (stops ++ close_complete c', c')
      else (stops ++ uv_close ∷ [], record c' { handle = uv.close h; close_pending = true })

  unfoldable pub step : Event → TcpConnection uv.Handle → List Action × TcpConnection uv.Handle
  unfolding on_message_receive on_socket_close close_complete write after_write close
  step (received nread buf) c = on_message_receive c nread buf
  step shut_down c = (on_socket_close c, c)
  step wrapper_dropped c = (on_socket_close c, c)
  step closed c = (close_complete c, record c { close_pending = false })
  step (write_called buf callback rst) c = let r = write c buf callback rst in (r.1, r.2)
  step (write_done i status) c = elim (remove_at i c.requests) [
    | none ↦ ([], c)
    | some (r, rs) ↦ (after_write r status, record c { requests = rs })
  ]
  step (close_called callback) c = close c callback

  pub run : List Event → TcpConnection uv.Handle → List Action × TcpConnection uv.Handle
  run [] c = ([], c)
  run (e ∷ es) c = let r = step e c in let s = run es r.1 in (r.0 ++ s.0, s.1)
