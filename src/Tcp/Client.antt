-- ===== src/Tcp/Client.antt =====
-- uv/TcpClient.cpp: a client with its connection. libuv is a parameter; the name of a connection is the
-- text of its peer's address. The socket is the connection's handle once there is a connection,
-- and `connecting` says that libuv uses it and no connection holds it.
pub mod Session
mod Tests
use uv_cpp.Prelude.{
  ℕ, Bool, true, false, not, ◌&&◌, ◌||◌, Bytes, List, [], ◌∷◌, ◌++◌, map, if◌then◌else◌, Option,
  none, some,
}
use uv_cpp.Http.Number.{ℤ}
use uv_cpp.Http.Client.{ConnectStatus}
use uv_cpp.Uv.{Handles}
use uv_cpp.Buffer.Config.{BufferMode, AnyBuffer}
use uv_cpp.Tcp.Connection
use uv_cpp.Tcp.Connection.{
  Function, client, user, TcpConnection, new_connection, message, socket_closed, close_completed,
  answer, disconnected,
}

-- What the client does: what its connection does, calls of libuv, of the log and of the user's functions.
pub data Action : Type 0 where
  by_connection : Connection.Action → Action
  uv_tcp_connect uv_read_stop uv_close log_connect_fail log_close log_disconnected : Action
  told_status : ℕ → ConnectStatus → Action
  told_message : ℕ → Bytes → Action
  closed : ℕ → Action

pub record TcpClient (H : Type 0) : Type 0 where
  pub tcp_no_delay : Bool
  pub socket : Option H
  pub connecting : Bool
  pub connect_callback : Option ℕ
  pub on_message_callback : Option ℕ
  pub connection : Option (TcpConnection H)

-- `none` is the use of a handle that has been freed, or that libuv still uses when it is freed.
abbrev pub Result : Type 0 → Type 0
Result H = Option (List Action × TcpClient H)

module _ {H : Type 0} where
  pub new_client : Bool → TcpClient H
  new_client tcp_no_delay = record {
    tcp_no_delay = tcp_no_delay;
    socket = none;
    connecting = false;
    connect_callback = none;
    on_message_callback = none;
    connection = none;
  }

  pub set_tcp_no_delay : TcpClient H → Bool → TcpClient H
  set_tcp_no_delay c is_no_delay = record c { tcp_no_delay = is_no_delay }

  pub set_connect_status_callback : TcpClient H → Option ℕ → TcpClient H
  set_connect_status_callback c k = record c { connect_callback = k }

  pub set_message_callback : TcpClient H → Option ℕ → TcpClient H
  set_message_callback c k = record c { on_message_callback = k }

  -- `h` is the new handle. The old one is freed if nothing else holds it.
  pub update : TcpClient H → H → Option (TcpClient H)
  update c h = if c.connecting then none else some (record c { socket = some h; connecting = true })

  pub connect : TcpClient H → H → Result H
  unfolding update
  connect c h = elim (update c h) [ none ↦ none | some c' ↦ some (uv_tcp_connect ∷ [], c') ]

  pub run_connect_callback : TcpClient H → ConnectStatus → List Action
  run_connect_callback c status = elim c.connect_callback [
    | none ↦ []
    | some k ↦ told_status k status ∷ []
  ]

  pub on_message : TcpClient H → Bytes → List Action
  on_message c buf = elim c.on_message_callback [ none ↦ [] | some k ↦ told_message k buf ∷ [] ]

  pub after_connect_fail : TcpClient H → List Action
  unfolding run_connect_callback
  after_connect_fail c = run_connect_callback c ConnectStatus.on_connect_fail

  pub on_close : TcpClient H → List Action
  unfolding run_connect_callback
  on_close c = log_close ∷ run_connect_callback c ConnectStatus.on_connect_close

  pub get_current_buf : TcpClient H → Option AnyBuffer
  get_current_buf c = elim c.connection [ none ↦ none | some d ↦ d.buffer ]

  -- Calls of the functions that were given to the connection's `close`: onClose, or the one that calls
  -- the user's function.
  pub completes : TcpClient H → List Connection.Action → List Action
  unfolding on_close
  completes c [] = []
  completes c (close_completed client n ∷ xs) = on_close c ++ completes c xs
  completes c (close_completed (user k) n ∷ xs) = closed k ∷ completes c xs
  completes c (x ∷ xs) = by_connection x ∷ completes c xs

  pub write : TcpClient H → Bytes → Option ℕ → ℤ → List Action × TcpClient H
  write c buf callback rst = elim c.connection [
    | some d ↦
        let r = Connection.write d buf callback rst in
        (map by_connection r.1, record c { connection = some r.2 })
    | none ↦ elim callback [
      | none ↦ ([], c)
      | some k ↦ (log_disconnected ∷ map by_connection (answer (some k) disconnected buf), c)
    ]
  ]

-- What writeInLoop does: it answers at once, or hands a function with its arguments to the loop.
pub data Handed : Type 0 where
  answered : List Action → Handed
  queued : Bytes → Option ℕ → Handed

pub write_in_loop : {H : Type 0} → TcpClient H → Bytes → Option ℕ → Handed
write_in_loop c buf callback = elim c.connection [
  | some d ↦ queued buf callback
  | none ↦ elim callback [
    | none ↦ answered []
    | some k ↦ answered (log_disconnected ∷ map by_connection (answer (some k) disconnected buf))
  ]
]

module _ (uv : Handles) where
  -- Whether libuv has done with the handle of the connection that is replaced.
  abbrev pub released : Option (TcpConnection uv.Handle) → Bool
  released none = true
  released (some d) = uv.is_closing d.handle && not d.close_pending

  pub on_connect : BufferMode → Bytes → TcpClient uv.Handle → Bool → Bytes → Result uv.Handle
  unfolding run_connect_callback
  on_connect mode storage c successed name = elim c.socket [
    | none ↦ none
    | some h ↦
        if successed
        then (let (xs, d) = new_connection mode storage name h true in
            let d' =
              Connection.set_connect_close_callback
                (Connection.set_message_callback d (some client)) (some client) in
            if released c.connection
            then some (
              map by_connection xs ++ run_connect_callback c ConnectStatus.on_connect_success,
              record c { connection = some d'; connecting = false },
            )
            else none)
        else (let active = uv.is_active h in
            let g = if active then uv.stop h else h in
            let stops = if active then uv_read_stop ∷ [] else [] in
            if uv.is_closing g
            then some (log_connect_fail ∷ stops, record c { socket = some g })
            else some (
              log_connect_fail ∷ (stops ++ uv_close ∷ []),
              record c { socket = some (uv.close g) },
            ))
  ]

  pub on_connect_close : TcpClient uv.Handle → List Action × TcpClient uv.Handle
  unfolding completes
  on_connect_close c = elim c.connection [
    | none ↦ ([], c)
    | some d ↦
        let r = Connection.close uv d (some client) in
        (completes c r.0, record c { connection = some r.1 })
  ]

  -- The connection's function for its close calls the user's function, if there is one.
  pub close : TcpClient uv.Handle → Option ℕ → List Action × TcpClient uv.Handle
  unfolding completes
  close c callback = elim c.connection [
    | none ↦ (elim callback [ none ↦ [] | some k ↦ closed k ∷ [] ], c)
    | some d ↦
        let f : Option Function = elim callback [ none ↦ none | some k ↦ some (user k) ] in
        let r = Connection.close uv d f in (completes c r.0, record c { connection = some r.1 })
  ]

  -- Calls of the functions that onConnect gave, among what the connection has done.
  pub reacts : List Connection.Action → TcpClient uv.Handle → List Action × TcpClient uv.Handle
  unfolding on_message on_connect_close on_close
  reacts [] c = ([], c)
  reacts (message client n buf ∷ xs) c = let r = reacts xs c in (on_message c buf ++ r.0, r.1)
  reacts (socket_closed client n ∷ xs) c =
      let r = on_connect_close c in let s = reacts xs r.1 in (r.0 ++ s.0, s.1)
  reacts (close_completed client n ∷ xs) c = let r = reacts xs c in (on_close c ++ r.0, r.1)
  reacts (close_completed (user k) n ∷ xs) c = let r = reacts xs c in (closed k ∷ r.0, r.1)
  reacts (x ∷ xs) c = let r = reacts xs c in (by_connection x ∷ r.0, r.1)

  -- What happens to a client: `connect_failed` is libuv's call when the handle of a connect that failed
  -- has been closed, and `happened` is something that happens to the connection.
  pub data Event : Type 0 where
    connect_called : uv.Handle → Event
    connected : BufferMode → Bytes → Bool → Bytes → Event
    connect_failed : Event
    happened : Connection.Event → Event
    close_called : Option ℕ → Event
    write_called : Bytes → Option ℕ → ℤ → Event

  pub step : Event → TcpClient uv.Handle → Result uv.Handle
  unfolding connect on_connect after_connect_fail reacts close write
  step (connect_called h) c = connect c h
  step (connected mode storage successed name) c = on_connect mode storage c successed name
  step connect_failed c = some (after_connect_fail c, record c { connecting = false })
  step (happened e) c = elim c.connection [
    | none ↦ some ([], c)
    | some d ↦
        let r = Connection.step uv e d in some (reacts r.0 (record c { connection = some r.1 }))
  ]
  step (close_called k) c = some (close c k)
  step (write_called buf callback rst) c = some (write c buf callback rst)

  pub run : List Event → TcpClient uv.Handle → Result uv.Handle
  unfolding step
  run [] c = some ([], c)
  run (e ∷ es) c = elim (step e c) [
    | none ↦ none
    | some (xs, c') ↦ elim (run es c') [ none ↦ none | some (ys, c'') ↦ some (xs ++ ys, c'') ]
  ]
