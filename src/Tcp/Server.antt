-- ===== src/Tcp/Server.antt =====
-- uv/TcpServer.cpp: the connections of a server, and the timer wheel that closes idle ones. The
-- wheel's pointers are numbers of wrappers, and `wrappers` has the name of the connection that each one
-- was made for. libuv is a parameter, and the key of a connection is the text of its peer's address.
pub mod Run
pub mod Watch
pub mod Removal
pub mod Listen
pub mod Traffic
use uv_cpp.Prelude.{
  map, ℕ, zero, suc, ◌≡◌, ◌≢◌, ◌∙◌, refl, Bool, true, false, not, ◌&&◌, ◌||◌, Bytes, List, [], ◌∷◌,
  ◌++◌, length, get_or, ltb, ◌==◌, if◌then◌else◌, Option, none, some,
}
use uv_cpp.Http.Number.{ℤ, pos, negsuc}
use uv_cpp.Http.Text.{equal}
use uv_cpp.Uv.{Handles}
use uv_cpp.Buffer.Config.{BufferMode}
use uv_cpp.TimerWheel
use uv_cpp.TimerWheel.{TimerWheel, member, wheel_callback, next_index}
use uv_cpp.Tcp.Connection
use uv_cpp.Tcp.Connection.{
  Function, server, client, user, WriteInfo, disconnected, TcpConnection, message, socket_closed,
  close_completed, new_connection, set_wrapper, get_wrapper, answer,
}
use uv_cpp.Tcp.Accepter.{TcpAccepter}
use uv_cpp.Tcp.Connections.{lookup, emplace, erase, update}

pub record TcpServer (H : Type 0) : Type 0 where
  pub tcp_no_delay : Bool
  pub accetper : Option (TcpAccepter H)
  pub connnections : List (Bytes × TcpConnection H)
  pub on_message_callback : Option ℕ
  pub on_new_connect_callback : Option ℕ
  pub on_connect_close_callback : Option ℕ
  pub timer_wheel : TimerWheel
  pub wrappers : List Bytes

-- What the server does: what one of its connections does, and calls of the user's functions.
pub data Action : Type 0 where
  by_connection : Bytes → Connection.Action → Action
  new_connect connect_closed : ℕ → Bytes → Action
  message_arrived : ℕ → Bytes → Bytes → Action
  server_closed : ℕ → Action

-- A result, or `none` where the code uses freed memory or leaves the vector of the wheel.
abbrev pub Result : Type 0 → Type 0
Result H = Option (List Action × TcpServer H)

-- Whether some slot of the wheel has the wrapper; nothing else holds it.
unfoldable pub held : ℕ → List (List ℕ) → Bool
held i [] = false
held i (xs ∷ slots) = member i xs || held i slots

abbrev pub told : Option ℕ → (ℕ → Action) → List Action
told none a = []
told (some k) a = a k ∷ []

module _ {H : Type 0} where
  unfoldable pub new_server : Bool → TcpServer H
  new_server tcp_no_delay = record {
    tcp_no_delay = tcp_no_delay;
    accetper = none;
    connnections = [];
    on_message_callback = none;
    on_new_connect_callback = none;
    on_connect_close_callback = none;
    timer_wheel = TimerWheel.create 0;
    wrappers = [];
  }

  pub set_timeout : TcpServer H → ℕ → TcpServer H
  set_timeout s seconds = record s { timer_wheel = TimerWheel.set_timeout s.timer_wheel seconds }

  unfoldable pub set_message_callback : TcpServer H → Option ℕ → TcpServer H
  set_message_callback s k = record s { on_message_callback = k }

  pub set_new_connect_callback : TcpServer H → Option ℕ → TcpServer H
  set_new_connect_callback s k = record s { on_new_connect_callback = k }

  pub set_connect_close_callback : TcpServer H → Option ℕ → TcpServer H
  set_connect_close_callback s k = record s { on_connect_close_callback = k }

  pub get_connnection : TcpServer H → Bytes → Option (TcpConnection H)
  get_connnection s name = lookup name s.connnections

  -- What is done after one action by what it led to.
  abbrev and_then : List Action → Result H → Result H
  and_then xs none = none
  and_then xs (some (ys, s)) = some (xs ++ ys, s)

  abbrev pub chain : Result H → (TcpServer H → Result H) → Result H
  chain none f = none
  chain (some (xs, s)) f = and_then xs (f s)

  abbrev with_wheel : TcpServer H → List Action → Option TimerWheel → Result H
  with_wheel s xs none = none
  with_wheel s xs (some w) = some (xs, record s { timer_wheel = w })

  -- TcpServer::onMessage
  pub on_message : TcpServer H → Bytes → TcpConnection H → Bytes → Result H
  on_message s name c buf =
      let xs = told s.on_message_callback λ k. message_arrived k name buf in
      if TimerWheel.is_positive (TimerWheel.get_timeout s.timer_wheel)
      then with_wheel s xs
          (TimerWheel.insert s.timer_wheel (get_wrapper (λ i. held i s.timer_wheel.wheel) c))
      else some (xs, s)

  -- The function that closeConnection gives to the connection's `close`. A connection that is removed is
  -- destroyed with its handle, which libuv must have done with.
  pub connection_closed : TcpServer H → Bytes → Result H
  connection_closed s name = elim (lookup name s.connnections) [
    | none ↦ some ([], s)
    | some c ↦
        if c.close_pending
        then none
        else some (
          told s.on_connect_close_callback (λ k. connect_closed k name),
          record s { connnections = erase name s.connnections },
        )
  ]

  on_accept_at : TcpServer H → Bytes → TcpConnection H → List Action → Result H
  on_accept_at s key c xs =
      if TimerWheel.is_positive (TimerWheel.get_timeout s.timer_wheel)
      then (let i = length s.wrappers in
          with_wheel
            (record s {
              connnections = emplace key (set_wrapper c i) s.connnections;
              wrappers = s.wrappers ++ key ∷ [];
            })
            xs (TimerWheel.insert s.timer_wheel (some i)))
      else some (xs, record s { connnections = emplace key c s.connnections })

  -- A connection whose key is taken does not come into the map: it is destroyed when onAccept returns,
  -- with a handle that libuv reads from.
  pub on_accept : BufferMode → Bytes → TcpServer H → Bytes → H → Result H
  unfolding on_accept_at
  on_accept mode storage s key h =
      let (xs, c) = new_connection mode storage key h true in
      let c' =
        Connection.set_connect_close_callback (Connection.set_message_callback c (some server))
          (some server) in
      elim (lookup key s.connnections) [
        | some old ↦ none
        | none ↦
            on_accept_at s key c' (
              map (by_connection key) xs ++ told s.on_new_connect_callback (λ k. new_connect k key))
      ]

  -- Calls of the function that closeConnection gave, among what `close` has done.
  pub completes : Bytes → List Connection.Action → TcpServer H → Result H
  unfolding connection_closed
  completes name [] s = some ([], s)
  completes name (close_completed server n ∷ xs) s =
      chain (connection_closed s n) (completes name xs)
  completes name (x ∷ xs) s = and_then (by_connection name x ∷ []) (completes name xs s)

module _ (uv : Handles) where
  pub close_connection : TcpServer uv.Handle → Bytes → Result uv.Handle
  unfolding completes
  close_connection s name = elim (lookup name s.connnections) [
    | none ↦ some ([], s)
    | some c ↦
        let r = Connection.close uv c (some server) in
        completes name r.0 (record s { connnections = update name r.1 s.connnections })
  ]

  -- Calls of the functions that onAccept gave, among what a connection has done.
  pub reacts : Bytes → List Connection.Action → TcpServer uv.Handle → Result uv.Handle
  unfolding on_message close_connection connection_closed
  reacts name [] s = some ([], s)
  reacts name (message server n buf ∷ xs) s = elim (lookup name s.connnections) [
    | none ↦ reacts name xs s
    | some c ↦ chain (on_message s name c buf) (reacts name xs)
  ]
  reacts name (socket_closed server n ∷ xs) s = chain (close_connection s n) (reacts name xs)
  reacts name (close_completed server n ∷ xs) s = chain (connection_closed s n) (reacts name xs)
  reacts name (x ∷ xs) s = and_then (by_connection name x ∷ []) (reacts name xs s)
