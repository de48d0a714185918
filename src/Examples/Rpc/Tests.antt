-- ===== src/Examples/Rpc/Tests.antt =====
-- The sum of 5, of -2 and of 3, with the low byte first.
use uv_cpp.Prelude.{
  ℕ, ◌+◌, ◌%◌, ◌<◌, ◌≡◌, refl, true, Bytes, List, [], ◌∷◌, replicate, some, arith, All, u64_mod,
}
use uv_cpp.Packet.{little_endian}
use uv_cpp.Examples.Rpc.{Resp, send_req, server_message, client_message}
use uv_cpp.Examples.Rpc.Call.{IsWord, client_message-server_message}

abbrev numbers : List ℕ
numbers = 5 ∷ 0xfffffffe ∷ 3 ∷ []

numbers-IsWord : All IsWord numbers
numbers-IsWord = (omega arith, (omega arith, (omega arith, tt)))

abbrev blank : Resp
blank = record { param = 0 }

client_message-server_message_example :
    (reply : Bytes) × (param : ℕ) × (server_message little_endian blank
        (replicate 8 0)
        (send_req little_endian (record { params = numbers }) (replicate 12 0))
      ≡ some reply)
    × (client_message little_endian true blank reply ≡ some (record { param = param }))
    × (param < u64_mod)
    × ((param + 2) % u64_mod ≡ 8)
client_message-server_message_example =
    client_message-server_message little_endian numbers (replicate 12 0) (replicate 8 0) blank blank
      numbers-IsWord refl refl
