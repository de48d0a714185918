-- ===== src/Http/Server/Running/Answered.antt =====
-- uv/http/HttpServer.cpp: from a message that `onMesage` answers to the end of its connection.
use uv_cpp.Prelude.{
  Bool, append-nil, ℕ, ◌≡◌, ◌≢◌, refl, ap, ◌∙◌, true, false, Bytes, List, [], ◌∷◌, ◌++◌, length,
  ge→ltb, if◌then◌else◌, Option, none, some, arith,
}
use uv_cpp.Http.Text.{equal}
use uv_cpp.Http.Number.{ℤ, pos}
use uv_cpp.Uv.{Handles}
use uv_cpp.Buffer.Config.{AnyBuffer}
use uv_cpp.Buffer.Any.{any_buffer}
use uv_cpp.TimerWheel
use uv_cpp.Http.Server.{Routes, write_and_close, on_message}
use uv_cpp.Http.Server.Running.{
  UvWrite, left_over, http_message, response_written, close_written, close_all_written,
  write_response, perform, handle, react, react_all, http_step,
}
use uv_cpp.Tcp.Connection
use uv_cpp.Tcp.Connection.{
  TcpConnection, WriteReq, server, uv_write, uv_buf_init, written, received, write_done,
}
use uv_cpp.Tcp.Connection.Writing.{length-uv_buf_init}
use uv_cpp.Tcp.Connections.{lookup}
use uv_cpp.Tcp.Server.{TcpServer, Action, by_connection, connect_closed, told, close_connection}
use uv_cpp.Tcp.Server.Run
use uv_cpp.Tcp.Server.Run.{happened, close_asked}
use uv_cpp.Tcp.Server.Traffic.{
  put, Becomes, Becomes-put, Becomes-trans, step-received, write_accepted_lem, step-write_done,
}
use uv_cpp.Tcp.Server.Watch.{closing_acts}
use uv_cpp.Tcp.Server.Removal.{close_connection-closed}

-- libuv accepts a write and takes all of it at once.
abbrev pub at_once : Bytes → UvWrite
at_once reply = record { rst = pos 0; taken = length reply }

module _ (uv : Handles) (cap : ℕ) (routes : Routes) where
  abbrev pub response_request : Bytes → WriteReq
  response_request reply = record { buf = uv_buf_init reply; callback = some response_written }

  -- A connection that has been answered.
  abbrev pub answered : TcpConnection uv.Handle → AnyBuffer → Bytes → TcpConnection uv.Handle
  answered c b reply = record c {
    buffer = some b;
    requests = c.requests ++ response_request reply ∷ [];
  }

  -- A connection of a server without a timeout, on which messages are read.
  pub record Serves (name : Bytes) (c : TcpConnection uv.Handle) (s : TcpServer uv.Handle)
      : Type 0 where
    pub found : lookup name s.connnections ≡ some c
    pub listens : s.on_message_callback ≡ some http_message
    pub no_timeout : TimerWheel.get_timeout s.timer_wheel ≡ pos 0
    pub own : c.name ≡ name
    pub reads : c.on_message_callback ≡ some server
    pub connected : c.connected ≡ true
    pub is_open : uv.is_closing c.handle ≡ false

  -- A connection stays so when its buffer and its writes change.
  pub Serves-Becomes :
      (name : Bytes) (c : TcpConnection uv.Handle) (s s' : TcpServer uv.Handle)
      (b : Option AnyBuffer) (rs : List WriteReq)
      → Serves name c s
      → Becomes name (record c { buffer = b; requests = rs }) s s'
      → Serves name (record c { buffer = b; requests = rs }) s'
  Serves-Becomes name c s s' b rs v x = record {
    found = x.now;
    listens = x.on_message_same ∙ v.listens;
    no_timeout = ap TimerWheel.get_timeout x.wheel ∙ v.no_timeout;
    own = v.own;
    reads = v.reads;
    connected = v.connected;
    is_open = v.is_open;
  }

  module _ (name : Bytes) (c : TcpConnection uv.Handle) (s : TcpServer uv.Handle)
      (v : Serves name c s) (b b' : AnyBuffer) (buf reply : Bytes) (holds : c.buffer ≡ some b)
      (answer : on_message (any_buffer cap) routes (some b) buf
        ≡ some (write_and_close reply ∷ [], some b')) where
    write_response_ok :
        (s1 : TcpServer uv.Handle) (d : TcpConnection uv.Handle)
        → lookup name s1.connnections ≡ some d
        → d.connected ≡ true
        → write_response uv (at_once reply) name reply s1
          ≡ some (
            by_connection name (uv_write (uv_buf_init reply)) ∷ [],
            put name (record d { requests = d.requests ++ response_request reply ∷ [] }) s1,
          )
    unfolding write_response left_over close_all_written close_written
    write_response_ok s1 d l h =
        rw (write_accepted_lem uv s1 name d l reply response_written h, write_response)
          (rw (ge→ltb (length reply) (length (uv_buf_init reply)) (length-uv_buf_init reply)) refl)

    handle_ok :
        (s1 : TcpServer uv.Handle)
        → lookup name s1.connnections ≡ some c
        → handle uv cap routes (at_once reply) name buf s1
          ≡ some (
            by_connection name (uv_write (uv_buf_init reply)) ∷ [],
            put name (answered c b' reply) (put name (record c { buffer = some b' }) s1),
          )
    unfolding handle perform
    handle_ok s1 l =
        let held = record c { buffer = some b' } in
        let sent =
          write_response_ok (put name held s1) held (Becomes-put name c held s1 l).now
            v.connected in
        rw (l, handle) (rw holds (rw (answer, handle) (rw (sent, perform) refl)))

    -- The response is on its way, and the bytes of the request have been taken out of the buffer.
    pub http_step-received :
        (n : ℕ)
        → n ≢ 0
        → (s' : TcpServer uv.Handle) × (http_step uv cap routes
              (at_once reply)
              (happened (received (pos n) buf) name)
              s
            ≡ some (by_connection name (uv_write (uv_buf_init reply)) ∷ [], s'))
          × Becomes name (answered c b' reply) s s'
    unfolding http_step react_all react
    http_step-received n ne =
        let held = record c { buffer = some b' } in
        let s0 = put name c s in
        let s1 = put name held s0 in
        let x0 = Becomes-put name c c s v.found in
        let x1 = Becomes-put name c held s0 x0.now in
        let x2 = Becomes-put name held (answered c b' reply) s1 x1.now in
        let come =
          step-received uv s name c v.found n http_message buf ne v.reads v.listens v.no_timeout in
        (
          put name (answered c b' reply) s1,
          rw (come, http_step) (rw (handle_ok s0 x0.now, react) refl),
          Becomes-trans name held _ s s1 _ (Becomes-trans name c held s s0 s1 x0 x1) x2,
        )

  react_all-told :
      (w : UvWrite) (k : Option ℕ) (name : Bytes) (s : TcpServer uv.Handle)
      → react_all uv cap routes w (told k (λ j. connect_closed j name)) s
        ≡ some (told k (λ j. connect_closed j name), s)
  unfolding react_all react close_written
  react_all-told w none name s = refl
  react_all-told w (some k) name s = refl

  http_step-told :
      (w : UvWrite) (e : Run.Event uv) (s s' : TcpServer uv.Handle) (name : Bytes) (k k' : Option ℕ)
      → k ≡ k'
      → Run.step uv e s ≡ some (told k (λ j. connect_closed j name), s')
      → http_step uv cap routes w e s ≡ some (told k' (λ j. connect_closed j name), s')
  unfolding http_step
  http_step-told w e s s' name k k' same h =
      rw (h, http_step)
        (react_all-told w k name s' ∙ ap (λ o. some (told o (λ j. connect_closed j name), s')) same)

  -- The write of a response ends, and the connection is closed.
  module _ (name : Bytes) (d : TcpConnection uv.Handle) (s : TcpServer uv.Handle) (w : UvWrite)
      (status : ℤ) (reply : Bytes) (rs : List WriteReq)
      (found : lookup name s.connnections ≡ some d)
      (oldest : d.requests ≡ response_request reply ∷ rs) where
    abbrev pub ended : TcpServer uv.Handle
    ended = put name (record d { requests = rs }) s

    end :
        Run.step uv (happened (write_done 0 status) name) s
        ≡ some (
          by_connection name
                (written response_written (record { status = status; buf = uv_buf_init reply }))
              ∷ [],
          ended,
        )
    end = step-write_done uv s name d found status response_written (uv_buf_init reply) rs oldest

    pub http_step-written :
        (xs : List Action) (s' : TcpServer uv.Handle)
        → close_connection uv ended name ≡ some (xs, s')
        → http_step uv cap routes w (happened (write_done 0 status) name) s ≡ some (xs, s')
    unfolding http_step react_all react close_written
    http_step-written xs s' e =
        rw (end, http_step) (rw (e, close_written) (ap (λ r. some (r, s')) (append-nil xs)))

    pub http_step-written_fault :
        close_connection uv ended name ≡ none
        → http_step uv cap routes w (happened (write_done 0 status) name) s ≡ none
    unfolding http_step react_all react close_written
    http_step-written_fault e = rw (end, http_step) (rw (e, close_written) refl)

  -- On a server without a timeout that reads the messages of an open, connected connection on
  -- which no write waits: if a message comes in that `onMesage` answers, and libuv takes all of the
  -- response at once, it is written; when that write ends, with any status, the connection is
  -- closed; and when libuv has closed the handle, the user's function for the end of
  -- a connection, if there is one, is called once, and the connection is no longer in the map, in
  -- which the others stay.
  pub http_step-answered :
      (name : Bytes) (c : TcpConnection uv.Handle) (s : TcpServer uv.Handle) (b b' : AnyBuffer)
      (buf reply : Bytes) (n : ℕ) (status : ℤ) (w w' : UvWrite)
      → Serves name c s
      → c.buffer ≡ some b
      → c.requests ≡ []
      → on_message (any_buffer cap) routes (some b) buf ≡ some (write_and_close reply ∷ [], some b')
      → n ≢ 0
      → (active : Bool) × (s1 s2 s3 : TcpServer uv.Handle) × (http_step uv cap routes
            (at_once reply)
            (happened (received (pos n) buf) name)
            s
          ≡ some (by_connection name (uv_write (uv_buf_init reply)) ∷ [], s1))
        × (http_step uv cap routes w (happened (write_done 0 status) name) s1
            ≡ some (closing_acts name active, s2))
        × (http_step uv cap routes w' (happened Connection.closed name) s2
            ≡ some (told s.on_connect_close_callback (λ k. connect_closed k name), s3))
        × ((j : Bytes)
            → lookup j s3.connnections ≡ (if equal name j then none else lookup j s.connnections))
  unfolding Run.step
  http_step-answered name c s b b' buf reply n status w w' v holds fresh answer ne =
      let (s1, one, x1) = http_step-received name c s v b b' buf reply holds answer n ne in
      let d = answered c b' reply in
      let d' = record d { requests = [] } in
      let oldest : d.requests ≡ response_request reply ∷ [] =
        ap (λ r. r ++ response_request reply ∷ []) fresh in
      let s1' = put name d' s1 in
      let x1' = Becomes-put name d d' s1 x1.now in
      let (active, s2, s3, two, three, gone) =
        close_connection-closed uv s1' name d' x1'.now v.own v.is_open in
      (
        active,
        s1,
        s2,
        s3,
        one,
        http_step-written name d s1 w status reply [] x1.now oldest (closing_acts name active) s2
            two,
        http_step-told w' (happened Connection.closed name) s2 s3 name _ _ x1.on_close_same three,
        λ j. ground (arith, gone j, x1'.others j, x1.others j),
      )
