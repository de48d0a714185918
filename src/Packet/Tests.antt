-- ===== src/Packet/Tests.antt =====
-- Frames on concrete bytes, in a CycleBuffer that goes round the end of its array and in a
-- ListBuffer.
use uv_cpp.Prelude.{◌≡◌, refl, [], ◌∷◌, ◌++◌, some, failed, arith, take, map, ap, List, Bytes}
use uv_cpp.Buffer.Cycle.{CycleBuffer}
use uv_cpp.Buffer.Cycle.Array.{range}
use uv_cpp.Buffer.Cycle.Inv.{IsValid}
use uv_cpp.Buffer.Cycle.Contents.{contents}
use uv_cpp.Buffer.ListBuffer.{ListBuffer, append_lem}
use uv_cpp.Buffer.Instances.{cycle_buffer, list_buffer}
use uv_cpp.Packet.{Packet, default_format, empty_packet, pack, get_data, swap, read_from_buffer}
use uv_cpp.Packet.Frame.{get_data-pack, swap-pack}
use uv_cpp.Packet.Stream.{Receives, read_from_buffer-pack}
use uv_cpp.Packet.Receive.{stream, concat, packet, receive_all, receive_all-stream}
use uv_cpp.Packet.Stale.{read_from_buffer_stale}

-- A byte of junk and a frame of the byte 65, from place 10 round to place 4, and a byte behind.
abbrev wrapped : CycleBuffer
wrapped = record {
  buffer = 1 ∷ 0 ∷ 65 ∷ 0xe7 ∷ 9 ∷ 0 ∷ 0 ∷ 0 ∷ 0 ∷ 0 ∷ 1 ∷ 0x7e ∷ [];
  write_index = 5;
  read_index = 10;
}

wrapped-IsValid : IsValid 12 wrapped
wrapped-IsValid = record {
  storage = refl;
  not_empty = omega arith;
  small = omega arith;
  write_in = omega arith;
  read_in = omega arith;
}

wrapped_contents : contents 12 wrapped ≡ 1 ∷ (pack default_format (65 ∷ []) 1).buffer ++ 9 ∷ []
unfolding range pack
wrapped_contents = refl

abbrev bad_then_good : ListBuffer
bad_then_good = record { buffer = 0x7e ∷ 0 ∷ 0 ∷ 1 ∷ 0x7e ∷ 1 ∷ 0 ∷ 65 ∷ 0xe7 ∷ [] }

bad_then_good_split :
    bad_then_good.buffer ≡ 0x7e ∷ 0 ∷ 0 ∷ 1 ∷ (pack default_format (65 ∷ []) 1).buffer
unfolding pack
bad_then_good_split = refl

read_from_buffer-pack_example :
    Receives
      (cycle_buffer 12)
      default_format
      (65 ∷ [])
      (9 ∷ [])
      (read_from_buffer (cycle_buffer 12) default_format wrapped empty_packet)
read_from_buffer-pack_example =
    read_from_buffer-pack (cycle_buffer 12) default_format (65 ∷ []) (9 ∷ []) (omega arith) (1 ∷ [])
      empty_packet {b = wrapped} (omega arith, tt) wrapped-IsValid wrapped_contents

read_from_buffer_stale_example :
    (b' : ListBuffer) × (read_from_buffer list_buffer default_format bad_then_good empty_packet
      ≡ some (failed, empty_packet, b'))
    × (b'.buffer ≡ 0 ∷ 65 ∷ 0xe7 ∷ [])
read_from_buffer_stale_example =
    read_from_buffer_stale list_buffer {b = bad_then_good} 1 65 empty_packet tt bad_then_good_split
      (omega arith)

get_data-pack_example : take 2 (get_data (pack default_format (65 ∷ 66 ∷ []) 2)) ≡ 65 ∷ 66 ∷ []
get_data-pack_example = get_data-pack default_format (65 ∷ 66 ∷ []) (omega arith)

swap-pack_example :
    (swap empty_packet (pack default_format (65 ∷ 66 ∷ []) 2).buffer).0
    ≡ pack default_format (65 ∷ 66 ∷ []) 2
swap-pack_example = swap-pack default_format (65 ∷ 66 ∷ []) empty_packet (omega arith)

abbrev pieces : List Bytes
pieces = (0x7e ∷ 1 ∷ 0 ∷ []) ∷ (65 ∷ 0xe7 ∷ 0x7e ∷ []) ∷ (0 ∷ 0 ∷ 0xe7 ∷ []) ∷ []

pieces_whole :
    concat list_buffer default_format pieces
    ≡ stream list_buffer default_format ((65 ∷ []) ∷ [] ∷ [])
unfolding stream pack
pieces_whole = refl

receive_all-stream_example :
    (b' : ListBuffer) × (receive_all list_buffer default_format pieces (record { buffer = [] })
      ≡ some (map (packet list_buffer default_format) ((65 ∷ []) ∷ [] ∷ []), b'))
    × (b'.buffer ≡ [])
    × Unit {0}
receive_all-stream_example =
    receive_all-stream list_buffer default_format (λ b bytes v. ap (λ r. r.0) (append_lem b bytes))
      pieces ((65 ∷ []) ∷ [] ∷ []) {b = record { buffer = [] }} (omega arith, (omega arith, tt)) tt
      refl pieces_whole
