-- ===== src/Tcp/Server/Listen.antt =====
-- uv/TcpServer.cpp: bindAndListen, close and writeInLoop. What libuv returns is an argument.
use uv_cpp.Prelude.{
  ℕ, ◌≡◌, refl, Bool, true, false, ◌||◌, Bytes, List, [], ◌∷◌, ◌++◌, ◌==◌, if◌then◌else◌, Option,
  none, some, arith, ◌<◌, ◌^◌, map, Option-cases, inl, inr, ◌⊎◌,
}
use uv_cpp.Http.Number.{ℤ, pos, negsuc}
use uv_cpp.Http.Text.{equal}
use uv_cpp.Http.Text.Find.{equal_iff}
use uv_cpp.Uv.{Handles}
use uv_cpp.TimerWheel
use uv_cpp.TimerWheel.Ticks
use uv_cpp.Tcp.Accepter
use uv_cpp.Tcp.Accepter.{TcpAccepter, new_accepter, set_new_connectinon_callback, listen}
use uv_cpp.Tcp.Connection
use uv_cpp.Tcp.Connection.{TcpConnection, answer, disconnected}
use uv_cpp.Tcp.Connections.{lookup}
use uv_cpp.Tcp.Server.{
  TcpServer, Action, by_connection, server_closed, Result, new_server, set_timeout, chain, reacts,
}
use uv_cpp.Tcp.Server.Watch.{IsValid}
use uv_cpp.Tcp.Server.Watch.Steps.{socket_closed-IsValid}

-- What writeInLoop does: it answers at once, or hands a function with its arguments to the loop.
pub data Handed : Type 0 where
  answered : List Action → Handed
  queued : Bytes → Bytes → Option ℕ → Handed

module _ {H : Type 0} where
  -- `bound` is what `uv_tcp_bind` returns, `listened` what `uv_listen` returns.
  pub bind_and_listen : TcpServer H → H → ℤ → ℤ → ℤ × TcpServer H
  bind_and_listen s h (negsuc n) listened =
      (negsuc n, record s { accetper = some (new_accepter h s.tcp_no_delay) })
  bind_and_listen s h (pos n) listened =
      let a = new_accepter h s.tcp_no_delay in
      let r = listen (set_new_connectinon_callback a) listened in
      if n == 0
      then (r.0, record s { accetper = some r.1; timer_wheel = TimerWheel.start s.timer_wheel })
      else (pos n, record s { accetper = some a })

  pub write_in_loop : TcpServer H → Bytes → Bytes → Option ℕ → Handed
  write_in_loop s name buf callback = elim (lookup name s.connnections) [
    | none ↦ answered (map (by_connection name) (answer callback disconnected buf))
    | some c ↦ queued name buf callback
  ]

pub keys : {V : Type 0} → List (Bytes × V) → List Bytes
keys [] = []
keys ((k, v) ∷ m) = k ∷ keys m

listed : Bytes → List Bytes → Bool
listed n [] = false
listed n (k ∷ ks) = equal k n || listed n ks

module _ (uv : Handles) where
  -- Without an accepter the function is not called.
  pub close : TcpServer uv.Handle → ℕ → List (Accepter.Action uv.Handle) × TcpServer uv.Handle
  close s k = elim s.accetper [
    | none ↦ ([], s)
    | some a ↦ let r = Accepter.close uv a k in (r.0, record s { accetper = some r.1 })
  ]

  pub end_all : List Bytes → TcpServer uv.Handle → Result uv.Handle
  end_all [] s = some ([], s)
  end_all (name ∷ names) s = elim (lookup name s.connnections) [
    | none ↦ end_all names s
    | some c ↦ chain (reacts uv name (Connection.on_socket_close c) s) (end_all names)
  ]

  -- The function that close gives to the accepter, with the user's function `k`.
  pub accepter_closed : TcpServer uv.Handle → ℕ → Result uv.Handle
  unfolding end_all keys
  accepter_closed s k =
      chain (end_all (keys s.connnections) s) λ s'. some (server_closed k ∷ [], s')

  end_all-IsValid :
      (names : List Bytes) (s : TcpServer uv.Handle)
      → IsValid uv s
      → (xs : List Action) × (s' : TcpServer uv.Handle) × (end_all names s ≡ some (xs, s'))
        × IsValid uv s'
        × ((n : Bytes) (d : TcpConnection uv.Handle)
            → lookup n s'.connnections ≡ some d
            → (uv.is_closing d.handle ≡ true)
              ⊎ ((listed n names ≡ false) × (lookup n s.connnections ≡ some d)))
  unfolding end_all listed
  end_all-IsValid [] s v = ([], s, refl, v, λ n d l. inr (refl, l))
  end_all-IsValid (name ∷ names) s v = elim (Option-cases (lookup name s.connnections)) [
    | inl missing ↦
        let (xs, s', e, v', r) = end_all-IsValid names s v in
        (
          xs,
          s',
          rw (missing, end_all) e,
          v',
          λ n d l. elim (r n d l) [
            | inl h ↦ inl h
            | inr kept ↦ inr (ground (arith, kept.0, kept.1, missing, equal_iff name n), kept.1)
          ],
        )
    | inr found ↦
        let (xs, s1, e, v1, r1) = socket_closed-IsValid uv s name found.0 v found.1 in
        let (ys, s2, e', v2, r2) = end_all-IsValid names s1 v1 in
        (
          xs ++ ys,
          s2,
          rw (found.1, end_all) (rw e (rw e' (refl {a = some (xs ++ ys, s2)}))),
          v2,
          λ n d l. elim (r2 n d l) [
            | inl h ↦ inl h
            | inr kept ↦ elim (r1 n d kept.1) [
              | inl h ↦ inl h
              | inr old ↦ inr (ground (arith, kept.0, old.0), old.1)
            ]
          ],
        )
  ]

  listed-keys :
      {V : Type 0} (n : Bytes) (m : List (Bytes × V)) (d : V)
      → lookup n m ≡ some d
      → listed n (keys m) ≡ true
  unfolding keys listed lookup
  listed-keys n [] d l = ground (arith, l)
  listed-keys n ((k, w) ∷ m) d l = ground (arith, l, listed-keys n m d)

  -- When the accepter of a server with well-formed connections has been closed, every connection
  -- that is still in the map is being closed, no freed memory is used, and the user's function is
  -- called last.
  pub accepter_closed-is_closing :
      (s : TcpServer uv.Handle) (k : ℕ)
      → IsValid uv s
      → (xs : List Action) × (s' : TcpServer uv.Handle) × (accepter_closed s k
          ≡ some (xs ++ server_closed k ∷ [], s'))
        × IsValid uv s'
        × ((n : Bytes) (d : TcpConnection uv.Handle)
            → lookup n s'.connnections ≡ some d
            → uv.is_closing d.handle ≡ true)
  unfolding accepter_closed
  accepter_closed-is_closing s k v =
      let (xs, s', e, v', r) = end_all-IsValid (keys s.connnections) s v in
      (
        xs,
        s',
        rw (e, accepter_closed) refl,
        v',
        λ n d l. elim (r n d l) [
          | inl h ↦ h
          | inr kept ↦ absurd (ground (arith, kept.0, listed-keys n s.connnections d kept.1))
        ],
      )

  -- A new server with a timeout above 0 and below 2 ^ 32 that has bound its socket has well-formed
  -- connections, of which there are none, and a wheel that has been started.
  pub bind_and_listen-IsValid :
      (tcp_no_delay : Bool) (timeout : ℕ) (h : uv.Handle) (listened : ℤ)
      → 0 < timeout
      → timeout < 2 ^ 32
      → IsValid uv
          (bind_and_listen (set_timeout (new_server tcp_no_delay) timeout) h (pos 0) listened).1
  unfolding bind_and_listen set_timeout new_server lookup
  bind_and_listen-IsValid tcp_no_delay timeout h listened some_time fits = record {
    wheel = rw (Ticks.set_timeout-create 0 timeout) (Ticks.start-IsValid timeout some_time fits);
    tracks = λ name c l. absurd (ground (arith, l));
  }
