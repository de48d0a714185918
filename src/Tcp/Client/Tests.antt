-- ===== src/Tcp/Client/Tests.antt =====
-- A client that connects, is sent two messages and loses its connection.
use uv_cpp.Prelude.{◌≡◌, refl, true, Bytes, List, [], ◌∷◌, ◌++◌, ℕ, map, some, codes, arith}
use uv_cpp.Http.Number.{negsuc}
use uv_cpp.Http.Client.{ConnectStatus}
use uv_cpp.Uv.Flags.{Flags, flags, reading}
use uv_cpp.Buffer.Config.{list_buffer}
use uv_cpp.Tcp.Connection
use uv_cpp.Tcp.Connection.{received}
use uv_cpp.Tcp.Client.{
  TcpClient, Action, told_status, run, connect_called, connected, happened, set_message_callback,
  set_connect_status_callback, new_client,
}
use uv_cpp.Tcp.Client.Session.{arrives, told, heard, run-session}

abbrev two : List (ℕ × Bytes)
two = (1, 2 ∷ []) ∷ (3, []) ∷ []

run-session_example :
    (ys : List Action) × (c' : TcpClient Flags) × (run flags
        (connect_called reading
          ∷ connected list_buffer [] true (codes "10.0.0.1:80")
          ∷ (map (arrives flags 7 8) two
              ++ happened (received (negsuc 103) []) ∷ happened Connection.closed ∷ []))
        (set_message_callback (set_connect_status_callback (new_client true) (some 7)) (some 8))
      ≡ some (ys, c'))
    × (heard ys
        ≡ told_status 7 ConnectStatus.on_connect_success
          ∷ (map (told flags 7 8) two ++ told_status 7 ConnectStatus.on_connect_close ∷ []))
run-session_example =
    run-session flags 7 8 true reading list_buffer [] (codes "10.0.0.1:80") two 103 refl
      λ e. omega arith
