-- ===== src/Examples/Rpc/Call.antt =====
-- examples/rpc: a call, from the numbers to their sum.
use uv_cpp.Prelude.{
  ℕ, ◌+◌, ◌-◌, ◌*◌, ◌%◌, ◌^◌, ◌<◌, ◌≡◌, refl, ap, sym, ◌∙◌, true, false, Bytes, List, [], ◌∷◌, ◌++◌,
  length, drop_all, append-nil, ltb, ◌==◌, ge→ltb, if◌then◌else◌, some, ok, arith, sum,
  length-append, All, add64, u64_mod,
}
use uv_cpp.Packet.{DataMode, pack_num, unpack_num}
use uv_cpp.Packet.Num.{length-pack_num, unpack_num-pack_num}
use uv_cpp.Examples.Rpc.{
  Req, Resp, req_size, resp_size, pack_params, req_pack, unpack_params, req_unpack, resp_pack,
  resp_unpack, sign_extend, sum_from, server_sum, send_resp, server_message, send_req,
  client_message,
}

-- The integer that a word of 32 bits stands for is `plus` less `minus`.
abbrev pub plus : ℕ → ℕ
plus n = if ltb n (2 ^ 31) then n else 0

abbrev pub minus : ℕ → ℕ
minus n = if ltb n (2 ^ 31) then 0 else 2 ^ 32 - n

-- A word of 32 bits
abbrev pub IsWord : ℕ → Type 0
IsWord n = n < 2 ^ 32

-- The bits are those of the integer.
sign_extend-eq :
    (n acc : ℕ)
    → IsWord n
    → (add64 acc (sign_extend n) + minus n) % u64_mod ≡ (acc + plus n) % u64_mod
unfolding sign_extend
sign_extend-eq n acc h = ground arith

sum_from-eq :
    (ns : List ℕ) (acc : ℕ)
    → All IsWord ns
    → acc < u64_mod
    → (sum_from acc ns < u64_mod)
      × ((sum_from acc ns + sum minus ns) % u64_mod ≡ (acc + sum plus ns) % u64_mod)
unfolding sum_from
sum_from-eq [] acc h lt = (lt, refl)
sum_from-eq (n ∷ ns) acc h lt =
    let next = add64 acc (sign_extend n) in
    let (few, e) = sum_from-eq ns next h.1 (omega arith) in
    (few, omega (arith, e, sign_extend-eq n acc h.0))

module _ (host : DataMode) where
  length-pack_params : (ns : List ℕ) → length (pack_params host ns) ≡ length ns * 4
  unfolding pack_params
  length-pack_params [] = refl
  length-pack_params (n ∷ ns) =
      let rest = length-append (pack_num host 4 n) (pack_params host ns) in
      omega (arith, rest, length-pack_num host 4 n, length-pack_params ns)

  unpack_params-four :
      (w rest : Bytes) (n : ℕ)
      → length w ≡ 4
      → unpack_num host 4 (w ++ []) ≡ n
      → unpack_params host (w ++ rest) ≡ n ∷ unpack_params host rest
  unfolding unpack_params
  unpack_params-four (a ∷ b ∷ c ∷ d ∷ []) rest n l e = ap (λ k. k ∷ unpack_params host rest) e
  unpack_params-four [] rest n l e = absurd (omega arith)
  unpack_params-four (a ∷ []) rest n l e = absurd (omega arith)
  unpack_params-four (a ∷ b ∷ []) rest n l e = absurd (omega arith)
  unpack_params-four (a ∷ b ∷ c ∷ []) rest n l e = absurd (omega arith)
  unpack_params-four (a ∷ b ∷ c ∷ d ∷ x ∷ w) rest n l e = absurd (omega arith)

  unpack_params-pack_params :
      (ns : List ℕ) → All IsWord ns → unpack_params host (pack_params host ns) ≡ ns
  unfolding pack_params
  unpack_params-pack_params [] h = unfold unpack_params in refl
  unpack_params-pack_params (n ∷ ns) h =
      unpack_params-four (pack_num host 4 n) (pack_params host ns) n (length-pack_num host 4 n)
        (unpack_num-pack_num host 4 n [] (omega arith))
      ∙ ap (λ r. n ∷ r) (unpack_params-pack_params ns h.1)

  module _ (ns : List ℕ) (fresh : Bytes) (room : length fresh ≡ length ns * 4) where
    abbrev request : Req
    request = record { params = ns }

    packed : req_pack host request fresh ≡ (ok, pack_params host ns)
    unfolding req_pack req_size
    packed =
        let enough : ltb (length fresh) (length ns * 4) ≡ false = ge→ltb _ _ (omega arith) in
        rw enough (
          ap (λ r. (ok, pack_params host ns ++ r)) (drop_all (length ns * 4) fresh (omega arith))
          ∙ ap (λ r. (ok, r)) (append-nil (pack_params host ns)))

    sent : send_req host request fresh ≡ pack_params host ns
    unfolding send_req
    sent = ap (λ x. x.1) packed

    received :
        (r : Req) → All IsWord ns → req_unpack host r (send_req host request fresh) ≡ (ok, request)
    unfolding req_unpack
    received r h =
        let even : (length (pack_params host ns) % 4 == 0) ≡ true =
          ground (arith, length-pack_params ns) in
        rw sent (rw even (rw (unpack_params-pack_params ns h) refl))

  packed_resp :
      (param : ℕ) (fresh : Bytes)
      → length fresh ≡ 8
      → resp_pack host (record { param = param }) fresh ≡ (ok, pack_num host 8 param)
  unfolding resp_pack resp_size
  packed_resp param fresh room =
      let enough : ltb (length fresh) 8 ≡ false = ge→ltb _ _ (omega arith) in
      rw enough (
        ap (λ r. (ok, pack_num host 8 param ++ r)) (drop_all 8 fresh (omega arith))
        ∙ ap (λ r. (ok, r)) (append-nil (pack_num host 8 param)))

  unpacked_resp :
      (param : ℕ) (empty : Resp)
      → param < u64_mod
      → resp_unpack host empty (pack_num host 8 param) ≡ (ok, record { param = param })
  unfolding resp_unpack resp_size
  unpacked_resp param empty lt =
      let enough : ltb (length (pack_num host 8 param)) 8 ≡ false =
        ge→ltb _ _ (omega (arith, length-pack_num host 8 param)) in
      let number : unpack_num host 8 (pack_num host 8 param) ≡ param =
        ap (unpack_num host 8) (sym (append-nil (pack_num host 8 param)))
        ∙ unpack_num-pack_num host 8 param [] (omega arith) in
      rw enough (ap (λ k. (ok, record { param = k })) number)

  received_resp :
      (param : ℕ) (empty : Resp)
      → param < u64_mod
      → client_message host true empty (pack_num host 8 param) ≡ some (record { param = param })
  unfolding client_message
  received_resp param empty lt =
      let e = unpacked_resp param empty lt in rw (e, client_message) (rw e refl)

  answered :
      (ns : List ℕ) (fresh fresh' : Bytes) (empty : Resp)
      → All IsWord ns
      → length fresh ≡ length ns * 4
      → length fresh' ≡ 8
      → server_message host empty fresh' (send_req host (record { params = ns }) fresh)
        ≡ some (pack_num host 8 (sum_from 0 ns))
  unfolding server_message server_sum send_resp
  answered ns fresh fresh' empty h room room' =
      let e = received ns fresh room (record { params = [] }) h in
      rw (e, server_message) (rw e (ap (λ x. some x.1) (packed_resp (sum_from 0 ns) fresh' room')))

  -- A request with any words of 32 bits for its numbers, sent by the client and answered by the
  -- server, comes back to the client's callback as a response whose number is, as a word of 64
  -- bits, the sum of the integers that the words stand for, and which is below 2 ^ 64; both sides
  -- have one byte order, and each message comes in whole.
  pub client_message-server_message :
      (ns : List ℕ) (fresh fresh' : Bytes) (empty empty' : Resp)
      → All IsWord ns
      → length fresh ≡ length ns * 4
      → length fresh' ≡ 8
      → (reply : Bytes) × (param : ℕ) × (server_message host empty fresh'
            (send_req host (record { params = ns }) fresh)
          ≡ some reply)
        × (client_message host true empty' reply ≡ some (record { param = param }))
        × (param < u64_mod)
        × ((param + sum minus ns) % u64_mod ≡ sum plus ns % u64_mod)
  client_message-server_message ns fresh fresh' empty empty' h room room' =
      let (few, e) = sum_from-eq ns 0 h (omega arith) in
      let param = sum_from 0 ns in
      (
        pack_num host 8 param,
        param,
        answered ns fresh fresh' empty h room room',
        received_resp param empty' few,
        few,
        omega (arith, e),
      )
