-- ===== src/Tcp/Server/Removal.antt =====
-- uv/TcpServer.cpp: closeConnection, and what the connection's end does to the map.
use uv_cpp.Prelude.{
  ◌≡◌, ◌∙◌, refl, ap, append-nil, Bool, true, false, Bytes, List, [], ◌∷◌, ◌++◌, if◌then◌else◌,
  none, some, arith,
}
use uv_cpp.Http.Text.{equal}
use uv_cpp.Uv.{Handles}
use uv_cpp.Tcp.Connection
use uv_cpp.Tcp.Server.Watch.{closed, closing_acts, close_connection_open}
use uv_cpp.Tcp.Connection.{close_completed, server, TcpConnection}
use uv_cpp.Tcp.Connection.Closing.{close_open, close_again}
use uv_cpp.Tcp.Connections.{lookup, update, erase, lookup-update_self, lookup-update, lookup-erase}
use uv_cpp.Tcp.Server.{
  TcpServer, Action, told, connect_closed, completes, close_connection, connection_closed, reacts,
}
use uv_cpp.Tcp.Server.Run.{connection_step, step, happened, close_asked}

completes_now :
    {H : Type 0} (s : TcpServer H) (name n : Bytes) (active : Bool)
    → connection_closed s n ≡ none
    → completes name
        ((if active then Connection.uv_read_stop ∷ [] else []) ++ close_completed server n ∷ [])
        s
      ≡ none
unfolding completes
completes_now s name n true e = rw (e, completes) refl
completes_now s name n false e = rw (e, completes) refl

connection_closed_pending :
    {H : Type 0} (s : TcpServer H) (n name : Bytes) (d : TcpConnection H)
    → n ≡ name
    → lookup name s.connnections ≡ some d
    → d.close_pending ≡ true
    → connection_closed s n ≡ none
unfolding connection_closed
connection_closed_pending s n name d e l p = rw e (rw (l, connection_closed) (rw p refl))

connection_closed_done :
    {H : Type 0} (s : TcpServer H) (n name : Bytes) (d : TcpConnection H)
    → n ≡ name
    → lookup name s.connnections ≡ some d
    → d.close_pending ≡ false
    → connection_closed s n
      ≡ some (
        told s.on_connect_close_callback (λ k. connect_closed k name),
        record s { connnections = erase name s.connnections },
      )
unfolding connection_closed
connection_closed_done s n name d e l p = rw e (rw (l, connection_closed) (rw p refl))

step-closed :
    (uv : Handles) (s s' : TcpServer uv.Handle) (name : Bytes) (c : TcpConnection uv.Handle)
    (xs : List Action)
    → lookup name s.connnections ≡ some c
    → c.close_complete_callback ≡ some server
    → connection_closed
        (record s {
          connnections = update name (record c { close_pending = false }) s.connnections;
        })
        c.name
      ≡ some (xs, s')
    → step uv (happened Connection.closed name) s ≡ some (xs, s')
unfolding step connection_step Connection.step Connection.close_complete Connection.calls reacts
step-closed uv s s' name c xs l f e =
    let s1 = record s {
      connnections = update name (record c { close_pending = false }) s.connnections;
    } in
    let once : reacts uv name (close_completed server c.name ∷ []) s1 ≡ some (xs, s') =
      rw (e, reacts) (rw (append-nil xs) refl) in
    rw (l, connection_step)
      (ap (λ z. reacts uv name (Connection.calls z λ g. close_completed g c.name) s1) f ∙ once)

-- Closing a connection whose handle libuv is still closing removes it at once.
pub close_connection_pending :
    (uv : Handles) (s : TcpServer uv.Handle) (name : Bytes) (c : TcpConnection uv.Handle)
    → lookup name s.connnections ≡ some c
    → c.name ≡ name
    → uv.is_closing c.handle ≡ true
    → c.close_pending ≡ true
    → close_connection uv s name ≡ none
unfolding close_connection connection_closed
close_connection_pending uv s name c l own closing pending =
    let (active, acts, kept) = close_again uv c server closing in
    let d = (Connection.close uv c (some server)).1 in
    let s2 = record s { connnections = update name d s.connnections } in
    let fault =
      connection_closed_pending s2 c.name name d own (lookup-update_self name d c s.connnections l)
        (kept ∙ pending) in
    rw (l, close_connection) (rw acts (completes_now s2 name c.name active fault))

module _ (uv : Handles) (s : TcpServer uv.Handle) (name : Bytes) (c : TcpConnection uv.Handle)
    (l : lookup name s.connnections ≡ some c) (own : c.name ≡ name)
    (open_handle : uv.is_closing c.handle ≡ false) where
  abbrev closing : TcpServer uv.Handle
  closing = record s { connnections = update name (closed uv c) s.connnections }

  lookup-closing : lookup name closing.connnections ≡ some (closed uv c)
  lookup-closing = lookup-update_self name (closed uv c) c s.connnections l

  -- Closing an open connection and closing it again, before libuv has called back, removes the
  -- connection at once: it is destroyed with a handle that libuv still has to close.
  pub close_connection-twice :
      (xs : List Action) × (s1 : TcpServer uv.Handle) × (close_connection uv s name ≡ some (xs, s1))
      × (close_connection uv s1 name ≡ none)
  unfolding close_connection connection_closed
  close_connection-twice =
      let (active, first, h, _, n) = close_connection_open uv s name c l open_handle in
      let (_, _, _, _, _, pending, _) = close_open uv c (some server) open_handle in
      (
        closing_acts name active,
        closing,
        first,
        close_connection_pending uv closing name (closed uv c) lookup-closing (n ∙ own) h pending,
      )

  -- When libuv has closed the handle of a connection that was open and was closed once, the user's
  -- function for the end of a connection is called, once, and the connection is no longer in the
  -- map; the other connections stay.
  pub close_connection-closed :
      (active : Bool) × (s1 s2 : TcpServer uv.Handle) × (step uv (close_asked name) s
        ≡ some (closing_acts name active, s1))
      × (step uv (happened Connection.closed name) s1
          ≡ some (told s.on_connect_close_callback (λ k. connect_closed k name), s2))
      × ((n : Bytes)
          → lookup n s2.connnections ≡ (if equal name n then none else lookup n s.connnections))
  unfolding step
  close_connection-closed =
      let (active, first, _, _, n) = close_connection_open uv s name c l open_handle in
      let (_, _, _, _, _, _, f) = close_open uv c (some server) open_handle in
      let d = record (closed uv c) { close_pending = false } in
      let m = update name d closing.connnections in
      let s2 = record closing { connnections = erase name m } in
      let l2 = lookup-update_self name d (closed uv c) closing.connnections lookup-closing in
      (
        active,
        closing,
        s2,
        first,
        step-closed uv closing s2 name (closed uv c) _ lookup-closing f (
            connection_closed_done (record closing { connnections = m }) (closed uv c).name name d
              (n ∙ own) l2 refl),
        λ j. ground (
          arith,
          lookup-erase name j m,
          lookup-update name j d (closed uv c) closing.connnections lookup-closing,
          lookup-update name j (closed uv c) c s.connnections l,
        ),
      )
