-- ===== src/Examples/Rpc.antt =====
-- examples/rpc: a service that adds numbers. A request is the bytes of some `int32_t`, a response those
-- of an `int64_t`, in the byte order of the host, which both sides share. A signed number is the word
-- of its bits. The size of a request is taken to fit in an `int`.
pub mod Call
mod Tests
use uv_cpp.Prelude.{
  ℕ, ◌+◌, ◌-◌, ◌*◌, ◌%◌, ◌^◌, Bool, true, false, Bytes, List, [], ◌∷◌, ◌++◌, length, drop, ltb,
  ◌==◌, if◌then◌else◌, Option, none, some, Code, ok, failed, add64, u64_mod,
}
use uv_cpp.Packet.{DataMode, pack_num, unpack_num}
use uv_cpp.Http.Client.{ConnectStatus, on_connect_success}

pub record Req : Type 0 where
  pub params : List ℕ

pub record Resp : Type 0 where
  pub param : ℕ

pub req_size : Req → ℕ
req_size r = length r.params * 4

pub resp_size : ℕ
resp_size = 8

-- An `int32_t` as an `int64_t`
pub sign_extend : ℕ → ℕ
sign_extend n = if ltb n (2 ^ 31) then n else n + (u64_mod - 2 ^ 32)

pub sum_from : ℕ → List ℕ → ℕ
unfolding sign_extend
sum_from param [] = param
sum_from param (n ∷ ns) = sum_from (add64 param (sign_extend n)) ns

-- RpcServer::sum
pub server_sum : Req → Resp → Resp
unfolding sum_from
server_sum req resp = record { param = sum_from 0 req.params }

module _ (host : DataMode) where
  pub pack_params : List ℕ → Bytes
  pack_params [] = []
  pack_params (n ∷ ns) = pack_num host 4 n ++ pack_params ns

  -- `data` has `size` bytes, and what is behind those written stays.
  pub req_pack : Req → Bytes → Code × Bytes
  unfolding pack_params req_size
  req_pack r out =
      if ltb (length out) (req_size r)
      then (failed, out)
      else (ok, pack_params r.params ++ drop (req_size r) out)

  pub unpack_params : Bytes → List ℕ
  unpack_params (a ∷ b ∷ c ∷ d ∷ rest) = unpack_num host 4 (a ∷ b ∷ c ∷ d ∷ []) ∷ unpack_params rest
  unpack_params _ = []

  pub req_unpack : Req → Bytes → Code × Req
  unfolding unpack_params
  req_unpack r buf =
      if length buf % 4 == 0 then (ok, record { params = unpack_params buf }) else (failed, r)

  pub resp_pack : Resp → Bytes → Code × Bytes
  unfolding resp_size
  resp_pack r out =
      if ltb (length out) resp_size
      then (failed, out)
      else (ok, pack_num host 8 r.param ++ drop resp_size out)

  pub resp_unpack : Resp → Bytes → Code × Resp
  unfolding resp_size
  resp_unpack r buf =
      if ltb (length buf) resp_size
      then (failed, r)
      else (ok, record { param = unpack_num host 8 buf })

  -- RpcServer::sendProtocol of a response: `fresh` is the new array, of that size.
  pub send_resp : Resp → Bytes → Bytes
  unfolding resp_pack
  send_resp r fresh = (resp_pack r fresh).1

  -- RpcServer::onMessage: what is written. `empty` is the response that is not initialised.
  pub server_message : Resp → Bytes → Bytes → Option Bytes
  unfolding req_unpack server_sum send_resp
  server_message empty fresh buf =
      let (rst, req) = req_unpack (record { params = [] }) buf in
      elim rst [ ok ↦ some (send_resp (server_sum req empty) fresh) | failed ↦ none ]

  -- RpcClient::sendProtocol of a request
  pub send_req : Req → Bytes → Bytes
  unfolding req_pack
  send_req r fresh = (req_pack r fresh).1

  -- RpcClient::onMessage: the response that the callback is called with, if there is one.
  pub client_message : Bool → Resp → Bytes → Option Resp
  unfolding resp_unpack
  client_message callback empty buf =
      let (rst, resp) = resp_unpack empty buf in
      if callback then (elim rst [ ok ↦ some resp | failed ↦ none ]) else none

-- RpcClient::onConnect: a timer of 50 ms that connects again and closes itself.
pub data Action : Type 0 where
  start_timer : ℕ → Action
  connect close_timer : Action

pub on_connect : ConnectStatus → List Action
on_connect on_connect_success = []
on_connect _ = start_timer 50 ∷ []

pub on_timer : List Action
on_timer = connect ∷ close_timer ∷ []

-- RpcCtrl: a call of `sum` waits until `onResp` has set `ready_`.
pub record RpcCtrl : Type 0 where
  pub resp : Resp
  pub ready : Bool

-- `sum` up to the wait, less the request that is sent.
pub sum_begin : RpcCtrl → RpcCtrl
sum_begin c = record c { ready = false }

pub on_resp : RpcCtrl → Resp → RpcCtrl
on_resp c resp = record c { resp = resp; ready = true }

-- `sum` from the wait on: `none` while it waits.
pub sum_end : RpcCtrl → Option Resp
sum_end c = if c.ready then some c.resp else none
