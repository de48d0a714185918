-- ===== src/Examples/Echo/Tests.antt =====
-- An echo server with a ListBuffer that gets two frames cut in the middle of the first.
use mathlib.Core.List.{flatten}
use uv_cpp.Prelude.{◌≡◌, refl, ap, Bytes, List, [], ◌∷◌, some, arith}
use uv_cpp.Buffer.Config.{list_buffer}
use uv_cpp.Buffer.Instances
use uv_cpp.Buffer.ListBuffer.{ListBuffer, append_lem}
use uv_cpp.Packet.{default_format, pack}
use uv_cpp.Packet.Receive.{stream}
use uv_cpp.Examples.Echo.{server_messages}
use uv_cpp.Examples.Echo.Stream.{server_messages-stream}

abbrev nothing : ListBuffer
nothing = record { buffer = [] }

abbrev two : List Bytes
two = (65 ∷ []) ∷ (66 ∷ 67 ∷ []) ∷ []

abbrev cut : List Bytes
cut = (0x7e ∷ 1 ∷ []) ∷ (0 ∷ 65 ∷ 0xe7 ∷ 0x7e ∷ 2 ∷ 0 ∷ 66 ∷ 67 ∷ 0xe7 ∷ []) ∷ []

server_messages-stream_example :
    (ws : List Bytes) × (b' : ListBuffer) × (server_messages Instances.list_buffer default_format
        list_buffer 4
        (some nothing)
        cut
      ≡ some (6, ws, some b'))
    × (flatten ws ≡ stream Instances.list_buffer default_format two)
    × (b'.buffer ≡ [])
    × Unit {0}
unfolding flatten stream pack
server_messages-stream_example =
    server_messages-stream Instances.list_buffer default_format
      (λ b bytes v. ap (λ x. x.0) (append_lem b bytes)) list_buffer (λ e. cc) cut two 4
      {b = nothing} (omega arith, (omega arith, tt)) tt refl refl
