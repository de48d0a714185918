-- ===== src/Tcp/Server/Watch/Tests.antt =====
-- A server with a timeout of two seconds and one connection.
use uv_cpp.Prelude.{
  ◌≡◌, refl, sym, Bool, true, false, Bytes, List, [], ◌∷◌, none, some, codes, if◌then◌else◌, arith,
  Bool-cases, inl, inr,
}
use uv_cpp.Http.Text.{equal}
use uv_cpp.Http.Text.Find.{equal_iff}
use uv_cpp.Http.Number.{pos}
use uv_cpp.Uv.Flags.{Flags, flags, reading}
use uv_cpp.TimerWheel.{member}
use uv_cpp.Tcp.Connection
use uv_cpp.Tcp.Connection.{TcpConnection, server, received}
use uv_cpp.Tcp.Connections.{lookup}
use uv_cpp.Tcp.Server.{TcpServer, Action, connect_closed, told, held}
use uv_cpp.Tcp.Server.Run.{step, ticks, happened, close_asked}
use uv_cpp.Tcp.Server.Removal.{close_connection-closed}
use uv_cpp.Tcp.Server.Watch.{IsValid, closing_acts, tracked, watched, calls_server}
use uv_cpp.Tcp.Server.Watch.Idle.{ticks-is_closing}
use uv_cpp.Tcp.Server.Watch.Busy.{ticks-received}

abbrev peer_name : Bytes
peer_name = codes "10.0.0.1:80"

abbrev peer : TcpConnection Flags
peer = record {
  name = peer_name;
  connected = true;
  handle = reading;
  buffer = none;
  data_size = 0;
  wrapper = some 0;
  on_message_callback = some server;
  on_connect_close_callback = some server;
  close_complete_callback = none;
  requests = [];
  close_pending = false;
}

abbrev one : TcpServer Flags
one = record {
  tcp_no_delay = true;
  accetper = none;
  connnections = (peer_name, peer) ∷ [];
  on_message_callback = some 1;
  on_new_connect_callback = some 2;
  on_connect_close_callback = some 3;
  timer_wheel = record {
    index = 1;
    timeout_sec = 2;
    timer_started = true;
    wheel = (0 ∷ []) ∷ [] ∷ [];
  };
  wrappers = peer_name ∷ [];
}

one-IsValid : IsValid flags one
unfolding tracked watched calls_server lookup held member equal
one-IsValid = record {
  wheel = record {
    some_time = omega arith;
    fits = omega arith;
    slots = refl;
    index_in = omega arith;
  };
  tracks = λ name c l. elim (Bool-cases (equal peer_name name)) [
    | inl same ↦
        let e : c ≡ peer = ground (arith, l, same) in
        rw (e, sym ((equal_iff peer_name name).0 same)) refl
    | inr other ↦ absurd (ground (arith, l, other))
  ];
}

found : lookup peer_name one.connnections ≡ some peer
unfolding lookup equal
found = refl

ticks-is_closing_example :
    (xs : List Action) × (s' : TcpServer Flags) × (ticks flags 2 one ≡ some (xs, s'))
    × IsValid flags s'
    × ((name : Bytes) (c : TcpConnection Flags)
        → lookup name one.connnections ≡ some c
        → (c' : TcpConnection Flags) × (lookup name s'.connnections ≡ some c')
          × (c'.handle.closing ≡ true))
ticks-is_closing_example = ticks-is_closing flags one one-IsValid

ticks-received_example :
    (xs ys : List Action) × (s1 s2 : TcpServer Flags) × (step flags
        (happened (received (pos 2) (codes "hi")) peer_name)
        one
      ≡ some (xs, s1))
    × (ticks flags 1 s1 ≡ some (ys, s2))
    × (lookup peer_name s2.connnections ≡ some peer)
ticks-received_example =
    ticks-received flags 1 1 (codes "hi") one peer_name peer one-IsValid found refl refl
      (omega arith) (omega arith)

close_connection-closed_example :
    (active : Bool) × (s1 s2 : TcpServer Flags) × (step flags (close_asked peer_name) one
      ≡ some (closing_acts peer_name active, s1))
    × (step flags (happened Connection.closed peer_name) s1
        ≡ some (told one.on_connect_close_callback (λ k. connect_closed k peer_name), s2))
    × ((n : Bytes)
        → lookup n s2.connnections
          ≡ (if equal peer_name n then none else lookup n one.connnections))
close_connection-closed_example = close_connection-closed flags one peer_name peer found refl refl
