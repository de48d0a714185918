-- ===== src/Http/Server/Running/Pipelined.antt =====
-- uv/http/HttpServer.cpp: a second request on a connection whose first response is still on its way.
use uv_cpp.Prelude.{ℕ, ◌≡◌, ◌≢◌, refl, ap, ◌∙◌, List, Bytes, [], ◌∷◌, ◌++◌, none, some}
use uv_cpp.Http.Number.{ℤ, pos}
use uv_cpp.Uv.{Handles}
use uv_cpp.Buffer.Config.{AnyBuffer}
use uv_cpp.Buffer.Any.{any_buffer}
use uv_cpp.Http.Server.{Routes, write_and_close, on_message}
use uv_cpp.Http.Server.Running.{UvWrite, http_step, http_run}
use uv_cpp.Http.Server.Running.Answered.{
  at_once, Serves, Serves-Becomes, answered, response_request, http_step-received,
  http_step-written, http_step-written_fault,
}
use uv_cpp.Tcp.Connection.{TcpConnection, server, received, write_done}
use uv_cpp.Tcp.Connection.Closing.{close_open, close-requests}
use uv_cpp.Tcp.Server.{TcpServer, Action}
use uv_cpp.Tcp.Server.Run.{Event, happened}
use uv_cpp.Tcp.Server.Traffic.{put, Becomes-put}
use uv_cpp.Tcp.Server.Removal.{close_connection_pending}
use uv_cpp.Tcp.Server.Watch.{closed, closing_acts, close_connection_open}

module _ (uv : Handles) (cap : ℕ) (routes : Routes) where
  http_run-cons :
      (w : UvWrite) (e : Event uv) (es : List (UvWrite × Event uv)) (s s' : TcpServer uv.Handle)
      (xs : List Action)
      → http_step uv cap routes w e s ≡ some (xs, s')
      → http_run uv cap routes es s' ≡ none
      → http_run uv cap routes ((w, e) ∷ es) s ≡ none
  unfolding http_run
  http_run-cons w e es s s' xs one rest = rw (one, http_run) (rw (rest, http_run) refl)

  http_run-fault :
      (w : UvWrite) (e : Event uv) (es : List (UvWrite × Event uv)) (s : TcpServer uv.Handle)
      → http_step uv cap routes w e s ≡ none
      → http_run uv cap routes ((w, e) ∷ es) s ≡ none
  unfolding http_run
  http_run-fault w e es s one = rw (one, http_run) refl

  -- Two responses are written, and both writes end before libuv has closed the handle.
  module _ (name : Bytes) (c : TcpConnection uv.Handle) (s : TcpServer uv.Handle)
      (first second : Bytes) (v : Serves uv cap routes name c s)
      (two : c.requests
        ≡ response_request uv cap routes first ∷ response_request uv cap routes second ∷ [])
      (w w' : UvWrite) (status status' : ℤ) where
    abbrev one_left : TcpConnection uv.Handle
    one_left = record c { requests = response_request uv cap routes second ∷ [] }

    abbrev s1 : TcpServer uv.Handle
    s1 = put name one_left s

    abbrev closing : TcpConnection uv.Handle
    closing = closed uv one_left

    abbrev s2 : TcpServer uv.Handle
    s2 = put name closing s1

    abbrev none_left : TcpConnection uv.Handle
    none_left = record closing { requests = [] }

    both_written :
        http_run uv cap routes
          ((w, happened (write_done 0 status) name)
            ∷ (w', happened (write_done 0 status') name)
            ∷ [])
          s
        ≡ none
    both_written =
        let x1 = Becomes-put name c one_left s v.found in
        let x2 = Becomes-put name one_left closing s1 x1.now in
        let x3 = Becomes-put name closing none_left s2 x2.now in
        let (active, done, h, _, n) = close_connection_open uv s1 name one_left x1.now v.is_open in
        let (_, _, _, _, _, pending, _) = close_open uv one_left (some server) v.is_open in
        let oldest = close-requests uv one_left (some server) in
        let fault =
          close_connection_pending uv (put name none_left s2) name none_left x3.now (n ∙ v.own) h
            pending in
        http_run-cons w _ _ s s2 _
          (http_step-written uv cap routes name c s w status first _ v.found two
            (closing_acts name active) s2 done)
          (http_run-fault w' _ [] s2 (
            http_step-written_fault uv cap routes name closing s2 w' status' second [] x2.now oldest
              fault))

  -- On a server without a timeout that reads the messages of an open, connected connection on
  -- which no write waits: if two messages come in that `onMesage` answers, libuv accepts both
  -- writes and takes all of each at once, and then both writes end before libuv has closed the
  -- handle, the server destroys the connection with a handle that libuv still has to close.
  pub http_run-pipelined :
      (name : Bytes) (c : TcpConnection uv.Handle) (s : TcpServer uv.Handle) (b b1 b2 : AnyBuffer)
      (buf1 buf2 first second : Bytes) (n m : ℕ) (w w' : UvWrite) (status status' : ℤ)
      → Serves uv cap routes name c s
      → c.buffer ≡ some b
      → c.requests ≡ []
      → on_message (any_buffer cap) routes (some b) buf1
        ≡ some (write_and_close first ∷ [], some b1)
      → on_message (any_buffer cap) routes (some b1) buf2
        ≡ some (write_and_close second ∷ [], some b2)
      → n ≢ 0
      → m ≢ 0
      → http_run uv cap routes
          ((at_once first, happened (received (pos n) buf1) name)
            ∷ (at_once second, happened (received (pos m) buf2) name)
            ∷ (w, happened (write_done 0 status) name)
            ∷ (w', happened (write_done 0 status') name)
            ∷ [])
          s
        ≡ none
  http_run-pipelined name c s b b1 b2 buf1 buf2 first second n m w w' status status' v holds fresh
        one two nn mm =
      let (s1, r1, x1) =
        http_step-received uv cap routes name c s v b b1 buf1 first holds one n nn in
      let d1 = answered uv cap routes c b1 first in
      let v1 = Serves-Becomes uv cap routes name c s s1 (some b1) d1.requests v x1 in
      let (s2, r2, x2) =
        http_step-received uv cap routes name d1 s1 v1 b1 b2 buf2 second refl two m mm in
      let d2 = answered uv cap routes d1 b2 second in
      let v2 = Serves-Becomes uv cap routes name d1 s1 s2 (some b2) d2.requests v1 x2 in
      let waiting =
        ap
          (λ r.
            (r ++ response_request uv cap routes first ∷ [])
            ++ response_request uv cap routes second ∷ [])
          fresh in
      http_run-cons (at_once first) _ _ s s1 _ r1 (
        http_run-cons (at_once second) _ _ s1 s2 _ r2
          (both_written name d2 s2 first second v2 waiting w w' status status'))
