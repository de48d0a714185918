-- ===== src/Http/Server/Running.antt =====
-- uv/http/HttpServer.cpp with uv/TcpServer.cpp: an HttpServer is a TcpServer that has `onMesage` as its
-- function for messages, and gives `write` a function that closes the connection. Those two are the
-- user's functions of the TcpServer, under the numbers here. `onMesage` frees the response when it
-- returns; `none` is a fault of either part, or a write that is left with bytes of that memory.
pub mod Answered
pub mod Pieces
pub mod Pipelined
mod Tests
use uv_cpp.Prelude.{
  ℕ, Bool, true, false, Bytes, List, [], ◌∷◌, ◌++◌, ◌==◌, length, ltb, if◌then◌else◌, Option, none,
  some,
}
use uv_cpp.Http.Number.{ℤ}
use uv_cpp.Uv.{Handles}
use uv_cpp.Buffer.Any.{any_buffer}
use uv_cpp.Http.Server
use uv_cpp.Http.Server.{Routes, log_error, write_and_close, on_message}
use uv_cpp.Tcp.Connection
use uv_cpp.Tcp.Connection.{TcpConnection, uv_write, written}
use uv_cpp.Tcp.Connections.{lookup, update}
use uv_cpp.Tcp.Server.{
  TcpServer, Action, by_connection, message_arrived, Result, chain, new_server,
  set_message_callback, close_connection,
}
use uv_cpp.Tcp.Server.Run
use uv_cpp.Tcp.Server.Run.{Event, write}

abbrev pub http_message : ℕ
http_message = 0

abbrev pub response_written : ℕ
response_written = 1

-- The constructor
unfoldable pub new_http_server : {H : Type 0} → TcpServer H
new_http_server = set_message_callback (new_server true) (some http_message)

-- libuv's part of a write: what `uv_write` returns, and how many bytes it has given to the system by
-- then. It reads the others later, from the same memory.
pub record UvWrite : Type 0 where
  pub rst : ℤ
  pub taken : ℕ

-- Whether a write that was accepted is left with bytes to read.
unfoldable pub left_over : ℕ → List Action → Bool
left_over taken (by_connection name (uv_write bytes) ∷ []) = ltb taken (length bytes)
left_over taken xs = false

module _ (uv : Handles) where
  -- What is done by one action: the function given to `write` closes the connection, and reads
  -- nothing of the WriteInfo it is given.
  pub close_written : Action → TcpServer uv.Handle → Result uv.Handle
  close_written (by_connection name (written k info)) s =
      if k == response_written
      then close_connection uv s name
      else some (by_connection name (written k info) ∷ [], s)
  close_written x s = some (x ∷ [], s)

  pub close_all_written : List Action → TcpServer uv.Handle → Result uv.Handle
  unfolding close_written
  close_all_written [] s = some ([], s)
  close_all_written (x ∷ xs) s = chain (close_written x s) (close_all_written xs)

  -- `write` with that function.
  pub write_response : UvWrite → Bytes → Bytes → TcpServer uv.Handle → Result uv.Handle
  unfolding close_all_written left_over
  write_response w name bytes s = elim (write uv s name bytes (some response_written) w.rst) [
    | none ↦ none
    | some (xs, s') ↦ if left_over w.taken xs then none else close_all_written xs s'
  ]

  -- What `onMesage` does, less its line in the log.
  pub perform : UvWrite → Bytes → List Server.Action → TcpServer uv.Handle → Result uv.Handle
  unfolding write_response
  perform w name [] s = some ([], s)
  perform w name (log_error text ∷ xs) s = perform w name xs s
  perform w name (write_and_close bytes ∷ xs) s =
      chain (write_response w name bytes s) (perform w name xs)

  module _ (cap : ℕ) (routes : Routes) where
    -- `onMesage` of the server on what has come in for one of its connections.
    pub handle : UvWrite → Bytes → Bytes → TcpServer uv.Handle → Result uv.Handle
    unfolding perform
    handle w name buf s = elim (lookup name s.connnections) [
      | none ↦ some ([], s)
      | some c ↦ elim (on_message (any_buffer cap) routes c.buffer buf) [
        | none ↦ none
        | some (xs, b) ↦
            perform w name xs
              (record s { connnections = update name (record c { buffer = b }) s.connnections })
      ]
    ]

    -- The same for an action that may call a function of the user.
    pub react : UvWrite → Action → TcpServer uv.Handle → Result uv.Handle
    unfolding handle
    react w (message_arrived k name buf) s =
        if k == http_message then handle w name buf s else some ([], s)
    react w x s = close_written x s

    pub react_all : UvWrite → List Action → TcpServer uv.Handle → Result uv.Handle
    unfolding react
    react_all w [] s = some ([], s)
    react_all w (x ∷ xs) s = chain (react w x s) (react_all w xs)

    -- Something happens to the server.
    pub http_step : UvWrite → Event uv → TcpServer uv.Handle → Result uv.Handle
    unfolding react_all
    http_step w e s = elim (Run.step uv e s) [ none ↦ none | some (xs, s') ↦ react_all w xs s' ]

    pub http_run : List (UvWrite × Event uv) → TcpServer uv.Handle → Result uv.Handle
    unfolding http_step
    http_run [] s = some ([], s)
    http_run ((w, e) ∷ es) s = chain (http_step w e s) (http_run es)
