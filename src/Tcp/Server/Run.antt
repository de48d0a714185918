-- ===== src/Tcp/Server/Run.antt =====
-- uv/TcpServer.cpp with uv/include/TimerWheel.hpp and uv/include/TcpConnection.hpp: seconds that pass,
-- wrappers that are destroyed, and runs of events.
use uv_cpp.Prelude.{
  map, ℕ, zero, suc, Bool, false, Bytes, List, [], ◌∷◌, get_or, ◌==◌, if◌then◌else◌, Option, none,
  some,
}
use uv_cpp.Http.Number.{ℤ}
use uv_cpp.Uv.{Handles}
use uv_cpp.Buffer.Config.{BufferMode}
use uv_cpp.TimerWheel.{wheel_callback, next_index}
use uv_cpp.Tcp.Connection
use uv_cpp.Tcp.Connection.{
  Function, server, client, user, WriteInfo, disconnected, TcpConnection, message, socket_closed,
  close_completed, set_message_callback, set_connect_close_callback, new_connection, set_wrapper,
  get_wrapper, answer,
}
use uv_cpp.Tcp.Connections.{lookup, update}
use uv_cpp.Tcp.Server.{
  TcpServer, by_connection, Result, held, chain, reacts, close_connection, on_accept,
}

module _ {H : Type 0} where
  unfoldable pub wraps : ℕ → TcpConnection H → Bool
  wraps i c = elim c.wrapper [ none ↦ false | some j ↦ i == j ]

-- The wrappers of a cleared slot that no slot has any more.
unfoldable pub dead : List (List ℕ) → List ℕ → List ℕ
dead slots [] = []
dead slots (i ∷ is) = if held i slots then dead slots is else i ∷ dead slots is

module _ (uv : Handles) where
  -- ConnectionWrapper::~ConnectionWrapper: the connection may have been destroyed before.
  unfoldable pub drop_wrapper : ℕ → TcpServer uv.Handle → Result uv.Handle
  unfolding reacts
  drop_wrapper i s =
      let name = get_or s.wrappers i [] in
      elim (lookup name s.connnections) [
        | none ↦ some ([], s)
        | some c ↦
            if wraps i c then reacts uv name (Connection.on_socket_close c) s else some ([], s)
      ]

  unfoldable pub drop_wrappers : List ℕ → TcpServer uv.Handle → Result uv.Handle
  unfolding drop_wrapper
  drop_wrappers [] s = some ([], s)
  drop_wrappers (i ∷ is) s = chain (drop_wrapper i s) (drop_wrappers is)

  -- A second of the wheel's timer: the wrappers in the slot that is cleared are destroyed, unless
  -- another slot has them.
  unfoldable pub tick : TcpServer uv.Handle → Result uv.Handle
  unfolding drop_wrappers
  tick s = elim (wheel_callback s.timer_wheel) [
    | none ↦ none
    | some w ↦
        drop_wrappers (dead w.wheel (get_or s.timer_wheel.wheel (next_index s.timer_wheel) []))
          (record s { timer_wheel = w })
  ]

  -- `n` seconds in which nothing else happens.
  unfoldable pub ticks : ℕ → TcpServer uv.Handle → Result uv.Handle
  unfolding tick
  ticks zero s = some ([], s)
  ticks (suc n) s = chain (tick s) (ticks n)

  unfoldable pub write : TcpServer uv.Handle → Bytes → Bytes → Option ℕ → ℤ → Result uv.Handle
  write s name buf callback rst = elim (lookup name s.connnections) [
    | none ↦ some (map (by_connection name) (answer callback disconnected buf), s)
    | some c ↦
        let r = Connection.write c buf callback rst in
        some
          (map (by_connection name) r.1, record s { connnections = update name r.2 s.connnections })
  ]

  -- Something happens to a connection of the server.
  unfoldable pub connection_step : Connection.Event → Bytes → TcpServer uv.Handle → Result uv.Handle
  unfolding reacts
  connection_step e name s = elim (lookup name s.connnections) [
    | none ↦ some ([], s)
    | some c ↦
        let r = Connection.step uv e c in
        reacts uv name r.0 (record s { connnections = update name r.1 s.connnections })
  ]

  -- What happens to a server that listens: a socket is accepted, something happens to a connection, the
  -- user closes a connection, a second passes.
  pub data Event : Type 0 where
    accepted : BufferMode → Bytes → Bytes → uv.Handle → Event
    happened : Connection.Event → Bytes → Event
    close_asked : Bytes → Event
    second : Event

  unfoldable pub step : Event → TcpServer uv.Handle → Result uv.Handle
  unfolding on_accept connection_step close_connection tick
  step (accepted mode storage key h) s = on_accept mode storage s key h
  step (happened e name) s = connection_step e name s
  step (close_asked name) s = close_connection uv s name
  step second s = tick s

  pub run : List Event → TcpServer uv.Handle → Result uv.Handle
  unfolding step
  run [] s = some ([], s)
  run (e ∷ es) s = chain (step e s) (run es)
