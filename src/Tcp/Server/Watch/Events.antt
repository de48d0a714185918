-- ===== src/Tcp/Server/Watch/Events.antt =====
-- uv/TcpServer.cpp: the events of a server keep its connections well formed.
use uv_cpp.Prelude.{◌≡◌, false, Bytes, none, some}
use uv_cpp.Uv.{Handles}
use uv_cpp.Tcp.Connection
use uv_cpp.Tcp.Connection.{
  TcpConnection, new_connection, set_wrapper, set_connect_close_callback, set_message_callback,
}
use uv_cpp.Tcp.Connections.{lookup, update}
use uv_cpp.Tcp.Server.{TcpServer}
use uv_cpp.Tcp.Server.Run.{Event, accepted, happened, close_asked, second}
use uv_cpp.Tcp.Server.Watch.Steps.{Ordinary}

module _ (uv : Handles) where
  abbrev with_connection :
      TcpServer uv.Handle → Bytes → TcpConnection uv.Handle → TcpServer uv.Handle
  with_connection s name d = record s { connnections = update name d s.connnections }

  -- What is looked at: an accept of a socket whose address no connection has, a close of a connection
  -- that is not closing, and what may happen to a connection by itself.
  unfoldable pub Allowed : Event uv → TcpServer uv.Handle → Type 0
  Allowed (accepted mode storage key h) s =
      (lookup key s.connnections ≡ none) × (uv.is_closing h ≡ false)
  Allowed (happened e name) s = Ordinary uv e
  Allowed (close_asked name) s =
      (c : TcpConnection uv.Handle)
      → lookup name s.connnections ≡ some c
      → uv.is_closing c.handle ≡ false
  Allowed second s = Unit
