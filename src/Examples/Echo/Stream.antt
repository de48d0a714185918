-- ===== src/Examples/Echo/Stream.antt =====
-- examples/pingpang: what an echo server sends back.
use uv_cpp.Prelude.{
  ℕ, suc, ◌+◌, ◌<◌, ◌≡◌, ◌≢◌, refl, ap, ◌∙◌, Bytes, List, [], ◌∷◌, ◌++◌, length, take_all, map,
  some, ok, arith, Option-cases, inl, inr,
}
use mathlib.Core.List.{flatten, map-append}
use uv_cpp.Buffer.Interface.{PacketBuffer}
use uv_cpp.Buffer.Config.{BufferMode, no_buffer, cycle_buffer, list_buffer}
use uv_cpp.Packet.{Format, Packet, packet_size}
use uv_cpp.Packet.Frame.{length-pack}
use uv_cpp.Packet.Receive.{
  receive, receive_all, receive_all-stream, packet, stream, AllShort, concat,
}
use uv_cpp.Examples.Echo.{written, echo, server_message, server_messages}

module _ (P : PacketBuffer) (fmt : Format) where
  open P use {Buffer, IsValid, contents, append}

  concat-flatten : (cs : List Bytes) → concat P fmt cs ≡ flatten cs
  unfolding flatten
  concat-flatten [] = refl
  concat-flatten (c ∷ cs) = ap (λ r. c ++ r) (concat-flatten cs)

  -- All bytes of a frame are written.
  written-packet :
      (p : Bytes) → length p < 65532 → written (packet P fmt p) ≡ (packet P fmt p).buffer
  unfolding written packet_size
  written-packet p h =
      let size = length-pack fmt p (length p) (omega arith) in
      take_all _ (packet P fmt p).buffer (omega (arith, size))

  flatten-written :
      (ps : List Bytes)
      → AllShort P fmt ps
      → flatten (map written (map (packet P fmt) ps)) ≡ stream P fmt ps
  unfolding flatten stream
  flatten-written [] h = refl
  flatten-written (p ∷ ps) h = rw (written-packet p h.0, flatten-written ps h.1) refl

  echo-receive :
      (mode : BufferMode) (b b' : Buffer) (buf : Bytes) (ps : List Packet)
      → mode ≢ no_buffer
      → receive P fmt b buf ≡ some (ps, b')
      → echo P fmt mode (some b) buf ≡ some (map written ps, some b')
  unfolding echo
  echo-receive no_buffer b b' buf ps ne e = absurd (ne refl)
  echo-receive cycle_buffer b b' buf ps ne e = rw (e, echo) refl
  echo-receive list_buffer b b' buf ps ne e = rw (e, echo) refl

  receive_all-cons :
      (c : Bytes) (cs : List Bytes) (b b' : Buffer) (ps : List Packet)
      → receive_all P fmt (c ∷ cs) b ≡ some (ps, b')
      → (qs rs : List Packet) × (b1 : Buffer) × (receive P fmt b c ≡ some (qs, b1))
        × (receive_all P fmt cs b1 ≡ some (rs, b'))
        × (ps ≡ qs ++ rs)
        × Unit {0}
  unfolding receive_all
  receive_all-cons c cs b b' ps e = elim (Option-cases (receive P fmt b c)) [
    | inl stuck ↦ absurd (ground (arith, e, stuck))
    | inr one ↦ elim (Option-cases (receive_all P fmt cs one.0.1)) [
      | inl stuck ↦ absurd (ground (arith, e, one.1, stuck))
      | inr rest ↦
          let joined : ps ≡ one.0.0 ++ rest.0.0 = ground (arith, e, one.1, rest.1) in
          let last : rest.0.1 ≡ b' = ground (arith, e, one.1, rest.1) in
          (
            one.0.0,
            rest.0.0,
            one.0.1,
            one.1,
            rest.1 ∙ ap (λ z. some (rest.0.0, z)) last,
            joined,
            tt,
          )
    ]
  ]

  server_messages-receive_all :
      (mode : BufferMode) (cs : List Bytes) (cnt : ℕ) (b b' : Buffer) (ps : List Packet)
      → mode ≢ no_buffer
      → receive_all P fmt cs b ≡ some (ps, b')
      → server_messages P fmt mode cnt (some b) cs ≡ some (cnt + length cs, map written ps, some b')
  unfolding server_messages receive_all server_message
  server_messages-receive_all mode [] cnt b b' ps ne e = ground (arith, e)
  server_messages-receive_all mode (c ∷ cs) cnt b b' ps ne e =
      let (qs, rs, b1, one, rest, joined, _) = receive_all-cons c cs b b' ps e in
      let first = echo-receive mode b b1 c qs ne one in
      let later = server_messages-receive_all mode cs (cnt + 1) b1 b' rs ne rest in
      let count : cnt + 1 + length cs ≡ cnt + suc (length cs) = omega arith in
      rw (first, server_messages, server_message) (rw (later, count) (rw (joined, map-append) refl))

  module _ (roomy : (b : Buffer) (bytes : Bytes) → IsValid b → (append b bytes).0 ≡ ok)
      (mode : BufferMode) (ne : mode ≢ no_buffer) where
    -- With a buffer that takes everything and is empty at first, an echo server that gets the
    -- frames of any data of fewer than 65532 bytes each, however their bytes are cut into what
    -- comes in at a time, counts what came in and writes back the bytes of the frames, in order,
    -- none lost and none made up; the buffer is valid and empty then.
    pub server_messages-stream :
        (chunks : List Bytes) (ps : List Bytes) (cnt : ℕ) {b : Buffer}
        → AllShort P fmt ps
        → IsValid b
        → contents b ≡ []
        → flatten chunks ≡ stream P fmt ps
        → (ws : List Bytes) × (b' : Buffer) × (server_messages P fmt mode cnt (some b) chunks
            ≡ some (cnt + length chunks, ws, some b'))
          × (flatten ws ≡ stream P fmt ps)
          × (contents b' ≡ [])
          × IsValid b'
    server_messages-stream chunks ps cnt {b} h v empty e =
        let (b', all, c, v') =
          receive_all-stream P fmt roomy chunks ps h v empty (concat-flatten chunks ∙ e) in
        (
          map written (map (packet P fmt) ps),
          b',
          server_messages-receive_all mode chunks cnt b b' _ ne all,
          flatten-written ps h,
          c,
          v',
        )
