-- ===== src/Examples/Echo.antt =====
-- examples/pingpang (EchoServer.cpp, Clinet.hpp): a server that sends back what it gets, and a client
-- that does the same and begins with a test message. The server of examples/all_example does so too,
-- and examples/clients_cross_thread has such a client. The buffer is that of the connection.
pub mod Stream
mod Tests
use uv_cpp.Prelude.{
  ℕ, zero, suc, ◌+◌, Bytes, codes, List, [], ◌∷◌, ◌++◌, replicate, take, map, Option, none, some,
}
use mathlib.Core.List.{flatten}
use uv_cpp.Buffer.Interface.{PacketBuffer}
use uv_cpp.Buffer.Config.{BufferMode, no_buffer, cycle_buffer, list_buffer}
use uv_cpp.Packet.{Format, Packet, pack, packet_size}
use uv_cpp.Packet.Receive.{receive}
use uv_cpp.Http.Client.{ConnectStatus, on_connect_success}

-- `write(packet.Buffer().c_str(), packet.PacketSize())`
pub written : Packet → Bytes
written p = take (packet_size p) p.buffer

-- `char data[1024] = "test message"`
abbrev pub test_message : Bytes
test_message = codes "test message" ++ replicate 1012 0

pub data Action : Type 0 where
  start_timer : ℕ → Action
  write : Bytes → Action
  connect close_timer : Action

-- The timer of `reConnect` connects again and closes itself.
pub on_timer : List Action
on_timer = connect ∷ close_timer ∷ []

module _ (P : PacketBuffer) (fmt : Format) where
  open P use {Buffer}

  -- What is written; `none` only if the loop over the packets did not end.
  pub echo : BufferMode → Option Buffer → Bytes → Option (List Bytes × Option Buffer)
  unfolding written
  echo no_buffer b buf = some (buf ∷ [], b)
  echo mode none buf = some ([], none)
  echo mode (some b) buf = elim (receive P fmt b buf) [
    | none ↦ none
    | some (ps, b') ↦ some (map written ps, some b')
  ]

  -- EchoServer::newMessage, with the count of the messages.
  pub server_message :
      BufferMode → ℕ → Option Buffer → Bytes → Option (ℕ × List Bytes × Option Buffer)
  unfolding echo
  server_message mode cnt b buf = elim (echo mode b buf) [
    | none ↦ none
    | some (ws, b') ↦ some (cnt + 1, ws, b')
  ]

  -- Client::newMessage
  pub client_message : BufferMode → Option Buffer → Bytes → Option (List Bytes × Option Buffer)
  client_message = echo

  -- Client::sendTestMessage
  pub test_bytes : BufferMode → Bytes
  unfolding written
  test_bytes no_buffer = test_message
  test_bytes mode = written (pack fmt test_message 1024)

  -- Client::onConnect; `after` is the time until it connects again.
  pub on_connect : BufferMode → ℕ → ConnectStatus → List Action
  unfolding test_bytes
  on_connect mode after on_connect_success = write (test_bytes mode) ∷ []
  on_connect mode after _ = start_timer after ∷ []

  -- Some messages of a connection of the server.
  pub server_messages :
      BufferMode → ℕ → Option Buffer → List Bytes → Option (ℕ × List Bytes × Option Buffer)
  unfolding server_message
  server_messages mode cnt b [] = some (cnt, [], b)
  server_messages mode cnt b (c ∷ cs) = elim (server_message mode cnt b c) [
    | none ↦ none
    | some (n, ws, b') ↦ elim (server_messages mode n b' cs) [
      | none ↦ none
      | some (m, more, b'') ↦ some (m, ws ++ more, b'')
    ]
  ]
