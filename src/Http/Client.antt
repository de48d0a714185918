-- ===== src/Http/Client.antt =====
-- uv/http/HttpClient.cpp: a client that sends one request on each connection and hands what comes back
-- to a callback. TcpClient's calls are actions, and what it reports are events; `none` is undefined
-- behaviour: a buffer of 4 GiB or more, the read of a first line that is missing, chunks without end, or
-- a request whose memory is freed before libuv has read it.
pub mod Answer
pub mod Pieces
mod Tests
use uv_cpp.Prelude.{
  ℕ, ◌+◌, ◌%◌, ◌^◌, take, Bool, true, false, Bytes, codes, List, [], ◌∷◌, ◌++◌, length, replicate,
  ltb, if◌then◌else◌, Option, none, some,
}
use uv_cpp.Http.Common.{success, fail, error}
use uv_cpp.Http.Request.{Request, default_request, pack}
use uv_cpp.Http.Response.{
  Response, default_response, unpack_response, response_unpack_and_completed,
}

pub data ReqResult : Type 0 where
  req_success connect_fail parse_fail unknow : ReqResult

-- TcpClient::ConnectStatus
pub data ConnectStatus : Type 0 where
  on_connect_success on_connect_fail on_connect_close : ConnectStatus

pub data Action : Type 0 where
  connect delete_client close_client : Action
  send : Bytes → Action
  respond : ReqResult → Option Response → Action
  log_error : Bytes → Action

-- `callback` says whether one is set.
pub record HttpClient : Type 0 where
  pub callback : Bool
  pub req : Request
  pub buffer : Bytes
  pub is_connected : Bool

pub new_http_client : HttpClient
new_http_client = record {
  callback = false;
  req = default_request;
  buffer = replicate 20480 0;
  is_connected = false;
}

-- The destructor; a connected client is deleted when it has been closed.
pub destroy : HttpClient → List Action
destroy c = if c.is_connected then close_client ∷ [] else delete_client ∷ []

-- `Req`; the address is TcpClient's.
pub request : HttpClient → Request → List Action × HttpClient
request c r = (connect ∷ [], record c { req = r; buffer = [] })

pub set_on_resp : HttpClient → Bool → HttpClient
set_on_resp c callback = record c { callback = callback }

pub on_resp : HttpClient → ReqResult → Option Response → List Action
on_resp c rst resp = if c.callback then respond rst resp ∷ [] else []

-- The request stands in a string that is freed on return; `taken` is how many of its bytes libuv does
-- not read any more when `write` returns. The size is an `unsigned int`.
pub on_connect_status : ℕ → HttpClient → ConnectStatus → Option (List Action × HttpClient)
unfolding on_resp
on_connect_status taken c on_connect_success =
    let str = pack c.req in
    let sent = take (length str % 2 ^ 32) str in
    if ltb taken (length sent)
    then none
    else some (send sent ∷ [], record c { is_connected = true })
on_connect_status taken c on_connect_fail =
    some (on_resp c connect_fail none, record c { is_connected = false })
on_connect_status taken c on_connect_close = elim (unpack_response default_response c.buffer) [
  | none ↦ none
  | some (rst, resp) ↦ elim rst [
    | success ↦ some (on_resp c req_success (some resp), record c { is_connected = false })
    | _ ↦ some (on_resp c parse_fail none, record c { is_connected = false })
  ]
]

-- The fuel is for the chunks of the response.
pub on_message : ℕ → HttpClient → Bytes → Option (List Action × HttpClient)
unfolding on_resp
on_message fuel c bytes =
    let whole = c.buffer ++ bytes in
    let held = record c { buffer = whole } in
    let handled : Option (List Action × HttpClient) =
      elim (response_unpack_and_completed fuel default_response whole) [
        | none ↦ none
        | some (rst, resp) ↦ elim rst [
          | success ↦ some (on_resp held req_success (some resp), held)
          | error ↦
              some
                (log_error (codes "parse http's response error.") ∷ [], record held { buffer = [] })
          | fail ↦ some ([], held)
        ]
      ] in
    if ltb (length whole) (2 ^ 32) then handled else none

-- The number is `taken` of on_connect_status.
pub data Event : Type 0 where
  status : ℕ → ConnectStatus → Event
  message : Bytes → Event

pub step : ℕ → HttpClient → Event → Option (List Action × HttpClient)
unfolding on_connect_status on_message
step fuel c (status taken s) = on_connect_status taken c s
step fuel c (message bytes) = on_message fuel c bytes

-- What a client does on a sequence of events.
pub run : ℕ → HttpClient → List Event → Option (List Action)
run fuel c [] = some []
run fuel c (e ∷ es) = elim (step fuel c e) [
  | none ↦ none
  | some (actions, c') ↦ elim (run fuel c' es) [ none ↦ none | some more ↦ some (actions ++ more) ]
]
