-- ===== src/Tcp/Server/Traffic.antt =====
-- uv/TcpServer.cpp: what a connection reads and writes, seen from a server without a timeout.
use uv_cpp.Prelude.{
  ℕ, ◌≡◌, ◌≢◌, refl, ◌∙◌, true, Bytes, List, [], ◌∷◌, ◌++◌, if◌then◌else◌, some, arith,
}
use uv_cpp.Http.Text.{equal}
use uv_cpp.Http.Number.{ℤ, pos}
use uv_cpp.Uv.{Handles}
use uv_cpp.TimerWheel
use uv_cpp.Tcp.Connection.{
  TcpConnection, WriteReq, server, uv_write, uv_buf_init, written, received, write_done,
}
use uv_cpp.Tcp.Connection.Writing
use uv_cpp.Tcp.Connection.Writing.{write_accepted}
use uv_cpp.Tcp.Connections.{lookup, update, lookup-update, lookup-update_self}
use uv_cpp.Tcp.Server.{TcpServer, by_connection, message_arrived, on_message, reacts}
use uv_cpp.Tcp.Server.Run.{write, step, connection_step, happened}

module _ {H : Type 0} where
  -- A connection of the server has changed.
  abbrev pub put : Bytes → TcpConnection H → TcpServer H → TcpServer H
  put name c s = record s { connnections = update name c s.connnections }

  -- The server has the connection `d` for the name, and is else as it was.
  pub record Becomes (name : Bytes) (d : TcpConnection H) (s s' : TcpServer H) : Type 0 where
    pub now : lookup name s'.connnections ≡ some d
    pub others :
        (j : Bytes)
        → lookup j s'.connnections ≡ (if equal name j then some d else lookup j s.connnections)
    pub wheel : s'.timer_wheel ≡ s.timer_wheel
    pub on_message_same : s'.on_message_callback ≡ s.on_message_callback
    pub on_close_same : s'.on_connect_close_callback ≡ s.on_connect_close_callback

  pub Becomes-put :
      (name : Bytes) (c d : TcpConnection H) (s : TcpServer H)
      → lookup name s.connnections ≡ some c
      → Becomes name d s (put name d s)
  Becomes-put name c d s l = record {
    now = lookup-update_self name d c s.connnections l;
    others = λ j. lookup-update name j d c s.connnections l;
    wheel = refl;
    on_message_same = refl;
    on_close_same = refl;
  }

  pub Becomes-trans :
      (name : Bytes) (c d : TcpConnection H) (s s1 s2 : TcpServer H)
      → Becomes name c s s1
      → Becomes name d s1 s2
      → Becomes name d s s2
  Becomes-trans name c d s s1 s2 x y = record {
    now = y.now;
    others = λ j. ground (arith, x.others j, y.others j);
    wheel = y.wheel ∙ x.wheel;
    on_message_same = y.on_message_same ∙ x.on_message_same;
    on_close_same = y.on_close_same ∙ x.on_close_same;
  }

module _ (uv : Handles) (s : TcpServer uv.Handle) (name : Bytes) (c : TcpConnection uv.Handle)
    (l : lookup name s.connnections ≡ some c) where
  -- What comes in is handed to the user's function.
  pub step-received :
      (n k : ℕ) (buf : Bytes)
      → n ≢ 0
      → c.on_message_callback ≡ some server
      → s.on_message_callback ≡ some k
      → TimerWheel.get_timeout s.timer_wheel ≡ pos 0
      → step uv (happened (received (pos n) buf) name) s
        ≡ some (message_arrived k name buf ∷ [], put name c s)
  unfolding step connection_step reacts on_message TimerWheel.is_positive
  step-received n k buf ne f u t =
      let one = Writing.step-received uv n buf c server ne f in
      let now = lookup-update_self name c c s.connnections l in
      rw (l, connection_step)
        (rw (one, reacts) (rw (now, reacts) (rw (u, on_message) (rw (t, on_message) refl))))

  pub write_accepted_lem :
      (buf : Bytes) (k : ℕ)
      → c.connected ≡ true
      → write uv s name buf (some k) (pos 0)
        ≡ some (
          by_connection name (uv_write (uv_buf_init buf)) ∷ [],
          put name
              (record c {
                requests = c.requests ++ record { buf = uv_buf_init buf; callback = some k } ∷ [];
              })
              s,
        )
  unfolding write
  write_accepted_lem buf k h = rw (l, write) (rw (write_accepted c buf (some k) h) refl)

  pub step-write_done :
      (status : ℤ) (k : ℕ) (buf : Bytes) (rs : List WriteReq)
      → c.requests ≡ record { buf = buf; callback = some k } ∷ rs
      → step uv (happened (write_done 0 status) name) s
        ≡ some (
          by_connection name (written k (record { status = status; buf = buf })) ∷ [],
          put name (record c { requests = rs }) s,
        )
  unfolding step connection_step reacts
  step-write_done status k buf rs e =
      rw (l, connection_step) (rw (Writing.step-write_done uv status c k buf rs e) refl)
