-- ===== src/Tcp/Server/Watch/Steps.antt =====
-- uv/TcpServer.cpp: whatever happens to a server, its connections stay well formed.
use uv_cpp.Prelude.{
  ◌<◌, ◌^◌, ℕ, ◌≡◌, ◌∙◌, refl, sym, ap, true, false, Bytes, List, [], ◌∷◌, ◌++◌, Option, none, some,
  arith, Bool-cases, inl, inr, ◌⊎◌,
}
use uv_cpp.Uv.{Handles}
use uv_cpp.Http.Text.{equal}
use uv_cpp.Http.Text.Find.{equal_iff}
use uv_cpp.Tcp.Connection
use uv_cpp.Tcp.Connection.{
  Function, server, client, user, TcpConnection, Event, get_wrapper, received, shut_down,
  write_called, write_done,
}
use uv_cpp.Tcp.Connection.Writing.{AllQuiet, SameState, quiet}
use uv_cpp.Tcp.Connections.{lookup, update, erase, lookup-update_cases, lookup-erase}
use uv_cpp.Tcp.Server.{
  TcpServer, Action, told, by_connection, connect_closed, Result, reacts, connection_closed,
}
use uv_cpp.Tcp.Server.Watch.{
  IsValid, tracked, watched, closed, closing_acts, close_connection_open, own_name, closing_silent,
  open_tells, tracked_closed, reacts-socket_closed, on_socket_close_open,
}
use uv_cpp.Tcp.Server.Watch.Touch.{touch, wrapper_of, message_touch}

module _ (uv : Handles) where
  pub update-IsValid :
      (s : TcpServer uv.Handle) (name : Bytes) (c c' : TcpConnection uv.Handle)
      → IsValid uv s
      → lookup name s.connnections ≡ some c
      → tracked uv s.wrappers s.timer_wheel.wheel name c' ≡ true
      → IsValid uv (record s { connnections = update name c' s.connnections })
  update-IsValid s name c c' v e t = record {
    wheel = v.wheel;
    tracks = λ n d l. elim (lookup-update_cases name n c' c d s.connnections e l) [
      | inl same ↦ rw (same.1, sym same.0) t
      | inr other ↦ v.tracks n d other.1
    ];
  }

  -- What a connection says of its end is answered by closing it; the others stay as they are.
  pub socket_closed-IsValid :
      (s : TcpServer uv.Handle) (name : Bytes) (c : TcpConnection uv.Handle)
      → IsValid uv s
      → lookup name s.connnections ≡ some c
      → (xs : List Action) × (s' : TcpServer uv.Handle) × (reacts uv name
            (Connection.on_socket_close c)
            s
          ≡ some (xs, s'))
        × IsValid uv s'
        × ((n : Bytes) (d : TcpConnection uv.Handle)
            → lookup n s'.connnections ≡ some d
            → (uv.is_closing d.handle ≡ true)
              ⊎ ((equal name n ≡ false) × (lookup n s.connnections ≡ some d)))
  unfolding reacts Connection.on_socket_close Connection.calls
  socket_closed-IsValid s name c v e =
      let names = s.wrappers in
      let slots = s.timer_wheel.wheel in
      let t = v.tracks name c e in
      elim (Bool-cases (uv.is_closing c.handle)) [
        | inl h ↦ (
          [],
          s,
          rw (closing_silent uv names slots name c t h) refl,
          v,
          λ n d l. elim (Bool-cases (equal name n)) [
            | inl same ↦
                let eqn = (equal_iff name n).0 same in
                let it : d ≡ c = ground (arith, l, e, eqn) in inl (rw it h)
            | inr other ↦ inr (other, l)
          ],
        )
        | inr h ↦
            let (active, done, h', cb, n) = close_connection_open uv s name c e h in
            let xs = closing_acts name active in
            let own = own_name uv names slots name c t in
            let s' = record s { connnections = update name (closed uv c) s.connnections } in
            (
              xs ++ [],
              s',
              ap (λ z. reacts uv name z s)
                    (on_socket_close_open uv c name (open_tells uv names slots name c t h) own)
                  ∙ reacts-socket_closed uv s s' name name xs done,
              update-IsValid s name c (closed uv c) v e
                  (tracked_closed uv names slots name (closed uv c) (n ∙ own) h' cb),
              λ m d l. elim (lookup-update_cases name m (closed uv c) c d s.connnections e l) [
                | inl same ↦ inl (rw same.1 h')
                | inr other ↦ inr other
              ],
            )
      ]

  reacts-AllQuiet :
      (name : Bytes) (xs : List Connection.Action) (s : TcpServer uv.Handle)
      → AllQuiet xs
      → (ys : List Action) × (reacts uv name xs s ≡ some (ys, s))
  unfolding reacts
  reacts-AllQuiet name [] s q = ([], refl)
  reacts-AllQuiet name (Connection.message f n buf ∷ xs) s q = absurd (ground (arith, q))
  reacts-AllQuiet name (Connection.socket_closed f n ∷ xs) s q = absurd (ground (arith, q))
  reacts-AllQuiet name (Connection.close_completed f n ∷ xs) s q = absurd (ground (arith, q))
  reacts-AllQuiet name (x ∷ xs) s q =
      let (ys, e) = reacts-AllQuiet name xs s q.1 in
      (by_connection name x ∷ ys, rw (e, reacts) refl)

  pub same-tracked :
      (names : List Bytes) (slots : List (List ℕ)) (name : Bytes) (c d : TcpConnection uv.Handle)
      → SameState c d
      → tracked uv names slots name c ≡ true
      → tracked uv names slots name d ≡ true
  unfolding tracked watched
  same-tracked names slots name c d e t = rw (e.0, e.1, e.2, e.3) t

  -- Something that libuv or a user does to a connection, its closing apart.
  abbrev pub Ordinary : Event → Type 0
  Ordinary (Connection.close_called f) = ⊥
  Ordinary Connection.wrapper_dropped = ⊥
  Ordinary _ = Unit

  abbrev pub Survives : TcpServer uv.Handle → Result uv.Handle → Type 0
  Survives s r =
      (xs : List Action) × (s' : TcpServer uv.Handle) × (r ≡ some (xs, s')) × IsValid uv s'

  pub changed-IsValid :
      (s : TcpServer uv.Handle) (name : Bytes) (c d : TcpConnection uv.Handle)
      (xs : List Connection.Action)
      → IsValid uv s
      → lookup name s.connnections ≡ some c
      → AllQuiet xs
      → SameState c d
      → Survives s (reacts uv name xs (record s { connnections = update name d s.connnections }))
  changed-IsValid s name c d xs v e q same =
      let s1 = record s { connnections = update name d s.connnections } in
      let (ys, r) = reacts-AllQuiet name xs s1 q in
      (
        ys,
        s1,
        r,
        update-IsValid s name c d v e
            (same-tracked s.wrappers s.timer_wheel.wheel name c d same (v.tracks name c e)),
      )

  pub reacts-cons :
      (x : Connection.Action) (xs : List Connection.Action) (name : Bytes) (s : TcpServer uv.Handle)
      → quiet x ≡ true
      → Survives s (reacts uv name xs s)
      → Survives s (reacts uv name (x ∷ xs) s)
  unfolding reacts
  reacts-cons (Connection.message f n buf) xs name s q r = absurd (ground (arith, q))
  reacts-cons (Connection.socket_closed f n) xs name s q r = absurd (ground (arith, q))
  reacts-cons (Connection.close_completed f n) xs name s q r = absurd (ground (arith, q))
  reacts-cons x xs name s q (ys, s', e, v) = (by_connection name x ∷ ys, s', rw (e, reacts) refl, v)

  pub message-IsValid :
      (s : TcpServer uv.Handle) (name n : Bytes) (c : TcpConnection uv.Handle) (buf : Bytes)
      (o : Option Function)
      → IsValid uv s
      → lookup name s.connnections ≡ some c
      → s.timer_wheel.timeout_sec < 2 ^ 31
      → Survives s (reacts uv name (Connection.calls o λ f. Connection.message f n buf) s)
  unfolding reacts Connection.calls
  message-IsValid s name n c buf none v e short = ([], s, refl, v)
  message-IsValid s name n c buf (some server) v e short =
      let (xs, m, v') = message_touch uv s name n c buf v e short in
      (xs, touch uv s (wrapper_of uv s c), m, v')
  message-IsValid s name n c buf (some client) v e short = (_, s, refl, v)
  message-IsValid s name n c buf (some (user k)) v e short = (_, s, refl, v)

  erase-IsValid :
      (s : TcpServer uv.Handle) (name : Bytes)
      → IsValid uv s
      → IsValid uv (record s { connnections = erase name s.connnections })
  erase-IsValid s name v = record {
    wheel = v.wheel;
    tracks = λ n c l. v.tracks n c (ground (arith, l, lookup-erase name n s.connnections));
  }

  -- When libuv has closed a handle, the connection is removed.
  pub connection_closed-IsValid :
      (s : TcpServer uv.Handle) (name : Bytes) (c : TcpConnection uv.Handle)
      → IsValid uv s
      → lookup name s.connnections ≡ some c
      → c.close_pending ≡ false
      → Survives s (connection_closed s name)
  unfolding connection_closed
  connection_closed-IsValid s name c v e p = (
    told s.on_connect_close_callback (λ k. connect_closed k name),
    record s { connnections = erase name s.connnections },
    rw (e, connection_closed) (rw p refl),
    erase-IsValid s name v,
  )
