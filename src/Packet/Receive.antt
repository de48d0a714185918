-- ===== src/Packet/Receive.antt =====
-- uv/include/PacketBuffer.hpp (readString, readPacket, readGeneric) with uv/Packet.cpp: what a program
-- reads that appends what comes in and calls `readPacket` until there is no packet, as the
-- echo servers of the examples do.
use uv_cpp.Prelude.{
  ℕ, zero, suc, ◌≤◌, ◌<◌, ◌≡◌, ◌≢◌, refl, ap, sym, ◌∙◌, Bytes, List, [], ◌∷◌, ◌++◌, length, map,
  ltb, Option, none, some, Code, ok, failed, arith, length-append, append_assoc, append-nil, All,
  Bool-cases, inl, inr,
}
use mathlib.Core.List.{map-append}
use uv_cpp.Buffer.Interface.{PacketBuffer}
use uv_cpp.Packet.{Format, Packet, pack, empty_packet, read_from_buffer}
use uv_cpp.Packet.Frame.{length-pack}
use uv_cpp.Packet.Stream.{read_from_buffer-pack, read_from_buffer_part}

-- readString, readPacket and readGeneric, for the three kinds of things that are read: without a
-- function of GlobalConfig they write to the log and fail.
pub read_by :
    {B X : Type 0} → Option (B → X → Option (Code × X × B)) → B → X → Option (Code × X × B)
read_by none b out = some (failed, out, b)
read_by (some f) b out = f b out

module _ (P : PacketBuffer) (fmt : Format) where
  open P use {
    Buffer, append, read_size, IsValid, contents, append-IsValid, read_size-contents, append_cases,
  }

  -- GlobalConfig::ReadBufferPacket
  abbrev pub read_buffer_packet : Option (Buffer → Packet → Option (Code × Packet × Buffer))
  read_buffer_packet = some (read_from_buffer P fmt)

  -- `while (0 == readPacket(packet))`, with fuel for each round.
  pub drain : ℕ → Buffer → Packet → Option (List Packet × Buffer)
  unfolding read_by
  drain zero b out = none
  drain (suc fuel) b out = elim (read_by read_buffer_packet b out) [
    | none ↦ none
    | some (failed, p, b') ↦ some ([], b')
    | some (ok, p, b') ↦ elim (drain fuel b' p) [
      | none ↦ none
      | some (ps, b'') ↦ some (p ∷ ps, b'')
    ]
  ]

  -- The handler of a message.
  pub receive : Buffer → Bytes → Option (List Packet × Buffer)
  unfolding drain
  receive b buf = let b1 = (append b buf).1 in drain (suc (read_size b1)) b1 empty_packet

  unfoldable pub receive_all : List Bytes → Buffer → Option (List Packet × Buffer)
  unfolding receive
  receive_all [] b = some ([], b)
  receive_all (c ∷ cs) b = elim (receive b c) [
    | none ↦ none
    | some (ps, b') ↦ elim (receive_all cs b') [
      | none ↦ none
      | some (qs, b'') ↦ some (ps ++ qs, b'')
    ]
  ]

  abbrev pub packet : Bytes → Packet
  packet bytes = pack fmt bytes (length bytes)

  -- The bytes of the frames of some data.
  unfoldable pub stream : List Bytes → Bytes
  stream [] = []
  stream (p ∷ ps) = (packet p).buffer ++ stream ps

  abbrev pub AllShort : List Bytes → Type 0
  AllShort ps = All (λ p. length p < 65532) ps

  -- Some bytes that are not yet the first of the frames.
  Waits : Bytes → List Bytes → Type 0
  Waits tail [] = tail ≡ []
  Waits tail (r ∷ rs) = (more : Bytes) × (more ≢ []) × ((packet r).buffer ≡ tail ++ more)

  Waits-first : (ps : List Bytes) → Waits [] ps
  unfolding Waits
  Waits-first [] = refl
  Waits-first (p ∷ ps) = (
    (packet p).buffer,
    λ z. absurd (omega (arith, ap length z, length-pack fmt p (length p) (omega arith))),
    refl,
  )

  drain-Waits :
      (tail : Bytes) (rs : List Bytes) (out : Packet) {b : Buffer}
      → AllShort rs
      → IsValid b
      → contents b ≡ tail
      → Waits tail rs
      → read_from_buffer P fmt b out ≡ some (failed, out, b)
  unfolding Waits
  drain-Waits tail [] out {b} h v e w =
      read_from_buffer_part P fmt [] (packet []).buffer out (omega arith) v
        (λ z. absurd (omega (arith, ap length z, length-pack fmt [] 0 (omega arith))))
        (ap (λ z. z ++ (packet []).buffer) (sym (e ∙ w)))
  drain-Waits tail (r ∷ rs) out {b} h v e w =
      let (more, ne, split) = w in
      read_from_buffer_part P fmt r more out h.0 v ne (split ∙ ap (λ z. z ++ more) (sym e))

  drain_frames :
      (qs : List Bytes) (tail : Bytes) (rs : List Bytes) (fuel : ℕ) (out : Packet) {b : Buffer}
      → AllShort qs
      → AllShort rs
      → IsValid b
      → contents b ≡ stream qs ++ tail
      → Waits tail rs
      → length qs < fuel
      → (b' : Buffer) × (drain fuel b out ≡ some (map packet qs, b'))
        × (contents b' ≡ tail)
        × IsValid b'
  unfolding drain read_by stream
  drain_frames qs tail rs zero out hq hr v e w lt = absurd (omega arith)
  drain_frames [] tail rs (suc fuel) out {b} hq hr v e w lt =
      (b, rw (drain-Waits tail rs out hr v e w, drain) refl, e, v)
  drain_frames (q ∷ qs) tail rs (suc fuel) out {b} hq hr v e w lt =
      let (b1, r, c, v1) =
        read_from_buffer-pack P fmt q (stream qs ++ tail) hq.0 [] out tt v
          (e ∙ append_assoc (packet q).buffer (stream qs) tail) in
      let (b2, r', c', v2) = drain_frames qs tail rs fuel (packet q) hq.1 hr v1 c w (omega arith) in
      (b2, rw (r, drain) (rw r' refl), c', v2)

  -- What two ways of cutting the same bytes have in common.
  cut :
      (xs ys cs ds : Bytes)
      → xs ++ ys ≡ cs ++ ds
      → length xs ≤ length cs
      → (more : Bytes) × (cs ≡ xs ++ more) × (ys ≡ more ++ ds)
  cut [] ys cs ds e h = (cs, refl, e)
  cut (x ∷ xs) ys [] ds e h = absurd (omega arith)
  cut (x ∷ xs) ys (c ∷ cs) ds e h =
      let (more, e1, e2) = cut xs ys cs ds (cc e) (omega arith) in
      let same : x ≡ c = cc e in (more, ap (λ z. z ∷ cs) (sym same) ∙ ap (λ z. x ∷ z) e1, e2)

  -- Where bytes that have come in stand among the frames: some are whole, and the rest waits.
  frames_cut :
      (ps : List Bytes) (xs ys : Bytes)
      → AllShort ps
      → xs ++ ys ≡ stream ps
      → (qs rs : List Bytes) × (tail : Bytes) × (ps ≡ qs ++ rs)
        × (xs ≡ stream qs ++ tail)
        × (tail ++ ys ≡ stream rs)
        × Waits tail rs
        × AllShort qs
        × AllShort rs
  unfolding stream Waits
  frames_cut [] [] ys h e = ([], [], [], refl, refl, e, refl, tt, tt)
  frames_cut [] (x ∷ xs) ys h e = absurd (omega (arith, ap length e))
  frames_cut (p ∷ ps) xs ys h e = elim (Bool-cases (ltb (length xs) (length (packet p).buffer))) [
    | inl part ↦
        let (more, split, _) = cut xs ys (packet p).buffer (stream ps) e (ground arith) in
        let ne : more ≢ [] =
          λ z. absurd (ground (arith, ap length split, length-append xs more, ap length z)) in
        ([], p ∷ ps, xs, refl, refl, e, (more, ne, split), tt, h)
    | inr whole ↦
        let (xs', split, e') = cut (packet p).buffer (stream ps) xs ys (sym e) (ground arith) in
        let (qs, rs, tail, e1, e2, e3, w, hq, hr) = frames_cut ps xs' ys h.1 (sym e') in
        (
          p ∷ qs,
          rs,
          tail,
          ap (λ z. p ∷ z) e1,
          split
              ∙ (ap (λ z. (packet p).buffer ++ z) e2
                  ∙ sym (append_assoc (packet p).buffer (stream qs) tail)),
          e3,
          w,
          (h.0, hq),
          hr,
        )
  ]

  length-stream : (qs : List Bytes) → AllShort qs → length qs ≤ length (stream qs)
  unfolding stream
  length-stream [] h = omega arith
  length-stream (q ∷ qs) h = omega (
    arith,
    length-stream qs h.1,
    length-append (packet q).buffer (stream qs),
    length-pack fmt q (length q) (omega arith),
  )

  all_there : (tail : Bytes) (rs : List Bytes) → Waits tail rs → tail ≡ stream rs → rs ≡ []
  unfolding Waits stream
  all_there tail [] w e = refl
  all_there tail (r ∷ rs) ([], ne, split) e = absurd (ne refl)
  all_there tail (r ∷ rs) (m ∷ more, ne, split) e = absurd (
      omega (
        arith,
        ap length e,
        ap length split,
        length-append tail (m ∷ more),
        length-append (packet r).buffer (stream rs),
      ))

  abbrev pub concat : List Bytes → Bytes
  concat [] = []
  concat (c ∷ cs) = c ++ concat cs

  module _ (roomy : (b : Buffer) (bytes : Bytes) → IsValid b → (append b bytes).0 ≡ ok) where
    adds :
        (b : Buffer) (bytes : Bytes) → IsValid b → contents (append b bytes).1 ≡ contents b ++ bytes
    adds b bytes v = elim (append_cases bytes v) [
      | inl taken ↦ taken.1
      | inr full ↦ absurd (ground (arith, roomy b bytes v, ap (λ r. r.0) full))
    ]

    receive-Waits :
        (chunks : List Bytes) (ps : List Bytes) {b : Buffer}
        → AllShort ps
        → IsValid b
        → Waits (contents b) ps
        → contents b ++ concat chunks ≡ stream ps
        → (b' : Buffer) × (receive_all chunks b ≡ some (map packet ps, b'))
          × (contents b' ≡ [])
          × IsValid b'
    unfolding receive_all receive stream
    receive-Waits [] ps {b} h v w e =
        let e' : contents b ≡ stream ps = sym (append-nil (contents b)) ∙ e in
        let none_left = all_there (contents b) ps w e' in
        (b, rw none_left refl, e' ∙ ap stream none_left, v)
    receive-Waits (c ∷ cs) ps {b} h v w e =
        let b1 = (append b c).1 in
        let v1 = append-IsValid c v in
        let c1 = adds b c v in
        let (qs, rs, tail, e1, e2, e3, w', hq, hr) =
          frames_cut ps (contents b ++ c) (concat cs) h
            (append_assoc (contents b) c (concat cs) ∙ e) in
        let enough : length qs < suc (read_size b1) = omega (
          arith,
          read_size-contents v1,
          ap length (c1 ∙ e2),
          length-append (stream qs) tail,
          length-stream qs hq,
        ) in
        let (b2, r, c2, v2) =
          drain_frames qs tail rs (suc (read_size b1)) empty_packet hq hr v1 (c1 ∙ e2) w' enough in
        let (b3, r', c3, v3) =
          receive-Waits cs rs hr v2 (rw c2 w') (ap (λ z. z ++ concat cs) c2 ∙ e3) in
        let all : map packet qs ++ map packet rs ≡ map packet ps =
          sym (map-append packet qs rs) ∙ ap (map packet) (sym e1) in
        (b3, rw (r, receive_all) (rw r' (ap (λ z. some (z, b3)) all)), c3, v3)

    -- In a buffer of any kind that takes everything, and that is empty at first, the frames of any
    -- data of fewer than 65532 bytes each, however their bytes are cut into what comes in at a
    -- time, are read as the packets that were packed, in order, none lost and none made up; the
    -- buffer is empty then, and every loop ends.
    pub receive_all-stream :
        (chunks : List Bytes) (ps : List Bytes) {b : Buffer}
        → AllShort ps
        → IsValid b
        → contents b ≡ []
        → concat chunks ≡ stream ps
        → (b' : Buffer) × (receive_all chunks b ≡ some (map packet ps, b'))
          × (contents b' ≡ [])
          × IsValid b'
    receive_all-stream chunks ps {b} h v e whole =
        receive-Waits chunks ps h v (rw e (Waits-first ps)) (ap (λ z. z ++ concat chunks) e ∙ whole)
