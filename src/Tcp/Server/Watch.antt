-- ===== src/Tcp/Server/Watch.antt =====
-- uv/TcpServer.cpp: every connection that is not being closed has its wrapper in the timer wheel.
pub mod Drop
pub mod Idle
pub mod Touch
pub mod Steps
pub mod Accept
pub mod Events
mod Tests
pub mod Busy
use uv_cpp.Prelude.{
  ℕ, zero, suc, ◌≡◌, ◌≢◌, ◌∙◌, refl, sym, ap, Bool, true, false, ◌&&◌, ◌||◌, Bytes, List, [], ◌∷◌,
  ◌++◌, length, get_or, set, ltb, if◌then◌else◌, Option, none, some, arith, Bool-cases,
  Option-cases, inl, inr, ◌<◌, ◌+◌, ◌⊎◌,
}
use uv_cpp.Http.Text.{equal}
use uv_cpp.Http.Text.Find.{equal_iff}
use uv_cpp.Uv.{Handles}
use uv_cpp.TimerWheel
use uv_cpp.TimerWheel.{TimerWheel, member}
use uv_cpp.TimerWheel.Ticks
use uv_cpp.Tcp.Connection
use uv_cpp.Tcp.Connection.{Function, server, client, user, TcpConnection}
use uv_cpp.Tcp.Connection.Closing.{close_open}
use uv_cpp.Tcp.Connections.{
  lookup, emplace, erase, update, lookup-update, lookup-update_cases, lookup-erase, lookup-emplace,
}
use uv_cpp.Tcp.Server.{by_connection, TcpServer, Action, held, close_connection, completes, reacts}
use uv_cpp.Tcp.Server.Run.{dead, wraps, drop_wrapper, drop_wrappers, tick}

calls_server : Option Function → Bool
calls_server (some server) = true
calls_server _ = false

calls_none : Option Function → Bool
calls_none none = true
calls_none _ = false

-- The connection's wrapper was made for the name, and the wheel has it.
watched : {H : Type 0} → List Bytes → List (List ℕ) → Bytes → TcpConnection H → Bool
watched names slots name c = elim c.wrapper [
  | none ↦ false
  | some i ↦ (equal (get_or names i []) name && ltb i (length names)) && held i slots
]

-- A connection that is closing tells the server nothing more; one that is not is watched.
pub tracked : (uv : Handles) → List Bytes → List (List ℕ) → Bytes → TcpConnection uv.Handle → Bool
unfolding watched calls_server calls_none
tracked uv names slots name c =
    equal c.name name
    && (if uv.is_closing c.handle
        then calls_none c.on_connect_close_callback
        else calls_server c.on_connect_close_callback && watched names slots name c)

pub record IsValid (uv : Handles) (s : TcpServer uv.Handle) : Type 0 where
  pub wheel : Ticks.IsValid s.timer_wheel
  pub tracks :
      (name : Bytes) (c : TcpConnection uv.Handle)
      → lookup name s.connnections ≡ some c
      → tracked uv s.wrappers s.timer_wheel.wheel name c ≡ true

-- What is done when an open connection is closed.
abbrev pub closing_acts : Bytes → Bool → List Action
closing_acts name active =
    (if active then by_connection name Connection.uv_read_stop ∷ [] else [])
    ++ by_connection name Connection.uv_close ∷ []

completes_none :
    {H : Type 0} (s : TcpServer H) (name : Bytes) (active : Bool)
    → completes name
        ((if active then Connection.uv_read_stop ∷ [] else []) ++ Connection.uv_close ∷ [])
        s
      ≡ some (closing_acts name active, s)
unfolding completes
completes_none s name true = refl
completes_none s name false = refl

-- The connection's wrapper is one of those.
abbrev pub gone : {H : Type 0} → List ℕ → TcpConnection H → Bool
gone is c = elim c.wrapper [ none ↦ false | some j ↦ member j is ]

module _ (uv : Handles) where
  abbrev pub closed : TcpConnection uv.Handle → TcpConnection uv.Handle
  closed c = (Connection.close uv c (some server)).1

  -- Closing a connection that is open calls `uv_close`, and nothing is completed yet.
  pub close_connection_open :
      (s : TcpServer uv.Handle) (name : Bytes) (c : TcpConnection uv.Handle)
      → lookup name s.connnections ≡ some c
      → uv.is_closing c.handle ≡ false
      → (active : Bool) × (close_connection uv s name
          ≡ some (
            closing_acts name active,
            record s { connnections = update name (closed c) s.connnections },
          ))
        × (uv.is_closing (closed c).handle ≡ true)
        × ((closed c).on_connect_close_callback ≡ none)
        × ((closed c).name ≡ c.name)
  unfolding close_connection
  close_connection_open s name c e o =
      let (active, acts, h, cb, n, _, _) = close_open uv c (some server) o in
      let done =
        completes_none (record s { connnections = update name (closed c) s.connnections }) name
          active in
      (active, rw (e, close_connection) (rw acts done), h, cb, n)

  module _ (names : List Bytes) (slots : List (List ℕ)) (name : Bytes) (c : TcpConnection uv.Handle)
      (t : tracked uv names slots name c ≡ true) where
    own_name : c.name ≡ name
    unfolding tracked
    own_name = ground (arith, equal_iff c.name name)

    closing_silent : uv.is_closing c.handle ≡ true → c.on_connect_close_callback ≡ none
    unfolding tracked calls_none
    closing_silent h = ground (arith, h)

    open_tells : uv.is_closing c.handle ≡ false → c.on_connect_close_callback ≡ some server
    unfolding tracked calls_server
    open_tells h = ground (arith, h)

    owner :
        (i : ℕ) → uv.is_closing c.handle ≡ false → gone (i ∷ []) c ≡ true → get_or names i [] ≡ name
    unfolding tracked watched member
    owner i h g = elim (Option-cases c.wrapper) [
      | inl missing ↦ ground (arith, missing)
      | inr found ↦ ground (arith, found.1, equal_iff (get_or names found.0 []) name)
    ]

  tracked_closed :
      (names : List Bytes) (slots : List (List ℕ)) (name : Bytes) (c : TcpConnection uv.Handle)
      → c.name ≡ name
      → uv.is_closing c.handle ≡ true
      → c.on_connect_close_callback ≡ none
      → tracked uv names slots name c ≡ true
  unfolding tracked calls_none
  tracked_closed names slots name c n h cb = ground (arith, n, h, cb, equal_iff c.name name)

  reacts-socket_closed :
      (s s1 : TcpServer uv.Handle) (name n : Bytes) (xs : List Action)
      → close_connection uv s n ≡ some (xs, s1)
      → reacts uv name (Connection.socket_closed server n ∷ []) s ≡ some (xs ++ [], s1)
  unfolding reacts
  reacts-socket_closed s s1 name n xs e = rw (e, reacts) refl

  on_socket_close_open :
      (c : TcpConnection uv.Handle) (n : Bytes)
      → c.on_connect_close_callback ≡ some server
      → c.name ≡ n
      → Connection.on_socket_close c ≡ Connection.socket_closed server n ∷ []
  unfolding Connection.on_socket_close Connection.calls
  on_socket_close_open c n cb e = rw (cb, e) refl
