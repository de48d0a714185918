-- ===== src/Tcp/Client/Session.antt =====
-- uv/TcpClient.cpp: what the user hears of a connection from its beginning to its end.
use uv_cpp.Prelude.{
  ℕ, suc, ◌≡◌, ◌≢◌, ◌∙◌, refl, ap, Bool, true, false, Bytes, List, [], ◌∷◌, ◌++◌, map, length, ◌==◌,
  if◌then◌else◌, some, arith, append-nil,
}
use uv_cpp.Http.Number.{pos, negsuc}
use uv_cpp.Http.Client.{ConnectStatus}
use uv_cpp.Uv.{Handles}
use uv_cpp.Buffer.Config.{BufferMode}
use uv_cpp.Tcp.Connection
use uv_cpp.Tcp.Connection.{client, TcpConnection, received, new_connection}
use uv_cpp.Tcp.Connection.Closing.{close_open}
use uv_cpp.Tcp.Client.{
  TcpClient, Action, told_status, told_message, closed, Event, happened, connected, run, step,
  reacts, on_message, completes, on_connect_close, by_connection, uv_tcp_connect, log_close,
  on_close, run_connect_callback, connect_called, set_message_callback, set_connect_status_callback,
  new_client, connect, update, on_connect,
}

-- The calls of the user's functions.
pub heard : List Action → List Action
heard [] = []
heard (told_status k status ∷ xs) = told_status k status ∷ heard xs
heard (told_message k buf ∷ xs) = told_message k buf ∷ heard xs
heard (closed k ∷ xs) = closed k ∷ heard xs
heard (_ ∷ xs) = heard xs

heard-append : (xs ys : List Action) → heard (xs ++ ys) ≡ heard xs ++ heard ys
unfolding heard
heard-append [] ys = refl
heard-append (told_status k status ∷ xs) ys =
    ap (λ z. told_status k status ∷ z) (heard-append xs ys)
heard-append (told_message k buf ∷ xs) ys = ap (λ z. told_message k buf ∷ z) (heard-append xs ys)
heard-append (closed k ∷ xs) ys = ap (λ z. closed k ∷ z) (heard-append xs ys)
heard-append (_ ∷ xs) ys = heard-append xs ys

module _ (uv : Handles) (k m : ℕ) where
  -- Some bytes that come in, one at least.
  abbrev pub arrives : ℕ × Bytes → Event uv
  arrives (x, xs) = happened (received (pos (suc (length xs))) (x ∷ xs))

  abbrev pub told : ℕ × Bytes → Action
  told (x, xs) = told_message m (x ∷ xs)

  -- What is heard when events are run, and where they lead.
  Hears : List (Event uv) → TcpClient uv.Handle → List Action → TcpClient uv.Handle → Type 0
  Hears es c xs c' = (ys : List Action) × (run uv es c ≡ some (ys, c')) × (heard ys ≡ xs)

  Hears-as :
      (es : List (Event uv)) (c c' : TcpClient uv.Handle) (xs ys : List Action)
      → xs ≡ ys
      → Hears es c xs c'
      → Hears es c ys c'
  unfolding Hears
  Hears-as es c c' xs ys e (zs, r, h) = (zs, r, h ∙ e)

  Hears-cons :
      (e : Event uv) (es : List (Event uv)) (c c1 c2 : TcpClient uv.Handle) (ys xs : List Action)
      → step uv e c ≡ some (ys, c1)
      → Hears es c1 xs c2
      → Hears (e ∷ es) c (heard ys ++ xs) c2
  unfolding Hears run
  Hears-cons e es c c1 c2 ys xs s (zs, r, h) =
      (ys ++ zs, rw (s, run) (rw r refl), heard-append ys zs ∙ ap (λ z. heard ys ++ z) h)

  -- A client with a connection that tells it of messages and of its end.
  live : TcpClient uv.Handle → TcpConnection uv.Handle → TcpClient uv.Handle
  live c d = record c {
    connect_callback = some k;
    on_message_callback = some m;
    connection =
        some
          (record d { on_message_callback = some client; on_connect_close_callback = some client });
  }

  step-arrives :
      (c : TcpClient uv.Handle) (d : TcpConnection uv.Handle) (x : ℕ) (xs : Bytes)
      → step uv (arrives (x, xs)) (live c d) ≡ some (told_message m (x ∷ xs) ∷ [], live c d)
  unfolding step live reacts on_message Connection.step Connection.on_message_receive
      Connection.on_message Connection.calls
  step-arrives c d x xs = let more : (suc (length xs) == 0) ≡ false = ground arith in rw more refl

  Hears-messages :
      (bufs : List (ℕ × Bytes)) (es : List (Event uv)) (c c2 : TcpClient uv.Handle)
      (d : TcpConnection uv.Handle) (xs : List Action)
      → Hears es (live c d) xs c2
      → Hears (map arrives bufs ++ es) (live c d) (map told bufs ++ xs) c2
  unfolding heard
  Hears-messages [] es c c2 d xs h = h
  Hears-messages ((x, ys) ∷ bufs) es c c2 d xs h =
      Hears-cons (arrives (x, ys)) (map arrives bufs ++ es) (live c d) (live c d) c2
        (told_message m (x ∷ ys) ∷ []) (map told bufs ++ xs) (step-arrives c d x ys)
        (Hears-messages bufs es c c2 d xs h)

  -- The connection when it has lost its peer.
  lost : TcpConnection uv.Handle → TcpConnection uv.Handle
  lost d = record d {
    connected = false;
    on_message_callback = some client;
    on_connect_close_callback = some client;
  }

  abbrev ended : TcpClient uv.Handle → TcpConnection uv.Handle → TcpClient uv.Handle
  ended c d = record (live c d) { connection = some (Connection.close uv (lost d) (some client)).1 }

  heard-completes :
      (c : TcpClient uv.Handle) (active : Bool)
      → heard (
          completes c
            ((if active then Connection.uv_read_stop ∷ [] else []) ++ Connection.uv_close ∷ []))
        ≡ []
  unfolding heard completes
  heard-completes c true = refl
  heard-completes c false = refl

  step-lost :
      (c : TcpClient uv.Handle) (d : TcpConnection uv.Handle) (n : ℕ)
      → n ≢ 4094
      → uv.is_closing d.handle ≡ false
      → (ys : List Action) × (step uv (happened (received (negsuc n) [])) (live c d)
          ≡ some (ys, ended c d))
        × (heard ys ≡ [])
  unfolding step live lost reacts on_connect_close heard Connection.step
      Connection.on_message_receive Connection.on_socket_close Connection.set_connect_status
      Connection.is_eof Connection.calls
  step-lost c d n ne o =
      let other : (n == 4094) ≡ false = ground (arith, ne) in
      let c1 = record (live c d) { connection = some (lost d) } in
      let acts = (Connection.close uv (lost d) (some client)).0 in
      let (active, e, _, _, _, _, _) = close_open uv (lost d) (some client) o in
      let quiet : heard (completes c1 acts ++ []) ≡ [] =
        ap heard (append-nil (completes c1 acts))
        ∙ (ap (λ z. heard (completes c1 z)) e ∙ heard-completes c1 active) in
      rw other
        (by_connection (Connection.log_error (negsuc n)) ∷ (completes c1 acts ++ []), refl, quiet)

  step-closed :
      (c : TcpClient uv.Handle) (d : TcpConnection uv.Handle)
      → uv.is_closing d.handle ≡ false
      → (ys : List Action) × (c' : TcpClient uv.Handle) × (step uv
            (happened Connection.closed)
            (ended c d)
          ≡ some (ys, c'))
        × (heard ys ≡ told_status k ConnectStatus.on_connect_close ∷ [])
  unfolding step live reacts on_close run_connect_callback heard Connection.step
      Connection.close_complete Connection.calls lost
  step-closed c d o =
      let d1 = (Connection.close uv (lost d) (some client)).1 in
      let (_, _, _, _, _, _, f) = close_open uv (lost d) (some client) o in
      let c' = record (live c d) { connection = some (record d1 { close_pending = false }) } in
      let ys = log_close ∷ told_status k ConnectStatus.on_connect_close ∷ [] in
      (
        ys,
        c',
        ap (λ z. some (reacts uv (Connection.calls z λ g. Connection.close_completed g d1.name) c'))
            f,
        refl,
      )

  -- Of a client with functions for the status and for messages that connects, is connected, is
  -- sent any messages of a byte at least and loses its connection for another reason than the end
  -- of the stream, the user hears that it is connected, then the messages in their order, and
  -- then, when libuv has closed the handle, once that the connection is closed, and nothing else;
  -- no handle is used after it has been freed.
  pub run-session :
      (tcp_no_delay : Bool) (h : uv.Handle) (mode : BufferMode) (storage name : Bytes)
      (bufs : List (ℕ × Bytes)) (n : ℕ)
      → uv.is_closing h ≡ false
      → n ≢ 4094
      → (ys : List Action) × (c' : TcpClient uv.Handle) × (run uv
            (connect_called h
              ∷ connected mode storage true name
              ∷ (map arrives bufs
                  ++ happened (received (negsuc n) []) ∷ happened Connection.closed ∷ []))
            (set_message_callback
              (set_connect_status_callback (new_client tcp_no_delay) (some k))
              (some m))
          ≡ some (ys, c'))
        × (heard ys
            ≡ told_status k ConnectStatus.on_connect_success
              ∷ (map told bufs ++ told_status k ConnectStatus.on_connect_close ∷ []))
  unfolding Hears step connect update on_connect run_connect_callback live set_message_callback
      set_connect_status_callback new_client heard new_connection
      Connection.set_connect_close_callback Connection.set_message_callback run
  run-session tcp_no_delay h mode storage name bufs n o ne =
      let c0 =
        set_message_callback (set_connect_status_callback (new_client tcp_no_delay) (some k))
          (some m) in
      let d = (new_connection mode storage name h true).1 in
      let c1 = record c0 { socket = some h; connecting = true } in
      let c2 = record c1 { connecting = false } in
      let (xs, e, quiet) = step-lost c2 d n ne o in
      let (ys, c', e', last) = step-closed c2 d o in
      let over = told_status k ConnectStatus.on_connect_close ∷ [] in
      let closes = happened Connection.closed ∷ [] in
      let losing = happened (received (negsuc n) []) ∷ closes in
      let h1 : Hears closes (ended c2 d) over c' =
        Hears-as closes (ended c2 d) c' (heard ys ++ []) over (append-nil (heard ys) ∙ last) (
          Hears-cons (happened Connection.closed) [] (ended c2 d) c' c' ys [] e'
            ([], refl, refl)) in
      let h2 : Hears losing (live c2 d) over c' =
        Hears-as losing (live c2 d) c' (heard xs ++ over) over (ap (λ z. z ++ over) quiet) (
          Hears-cons (happened (received (negsuc n) [])) closes (live c2 d) (ended c2 d) c' xs over
            e h1) in
      let h3 = Hears-messages bufs losing c2 c' d over h2 in
      let begins =
        by_connection Connection.uv_read_start
        ∷ told_status k ConnectStatus.on_connect_success
        ∷ [] in
      let h4 =
        Hears-cons (connected mode storage true name) (map arrives bufs ++ losing) c1 (live c2 d) c'
          begins (map told bufs ++ over) refl h3 in
      let (zs, r, hear) =
        Hears-cons (connect_called h)
          (connected mode storage true name ∷ (map arrives bufs ++ losing)) c0 c1 c'
          (uv_tcp_connect ∷ [])
          (told_status k ConnectStatus.on_connect_success ∷ (map told bufs ++ over)) refl h4 in
      (zs, c', r, hear)
