-- ===== src/Http/Server/Running/Pieces.antt =====
-- uv/http/HttpServer.cpp: a request that comes in pieces, from the first to the end of its connection.
use mathlib.Core.List.{flatten}
use uv_cpp.Prelude.{
  ℕ, ◌<◌, ◌≤◌, ◌^◌, ◌≡◌, ◌≢◌, refl, sym, ap, ◌∙◌, Bool, Bytes, codes, List, [], ◌∷◌, ◌++◌, length,
  map, if◌then◌else◌, some, none, arith, All, length-ne_zero, append-ne_nil, append_assoc,
  append-nil,
}
use uv_cpp.Http.Text.{equal}
use uv_cpp.Http.Dict
use uv_cpp.Http.Number.{ℤ, pos, to_string}
use uv_cpp.Uv.{Handles}
use uv_cpp.Buffer.Config.{AnyBuffer}
use uv_cpp.Buffer.Any
use uv_cpp.Buffer.Any.{any_buffer}
use uv_cpp.Http.Request.{Request, pack}
use uv_cpp.Http.Request.Unpack.{IsSendable}
use uv_cpp.Http.Response.{Response, default_response, pack_response}
use uv_cpp.Http.RadixTree
use uv_cpp.Http.RadixTree.{Tree, found}
use uv_cpp.Http.Server.{Handler, Routes, routes_of, on_message}
use uv_cpp.Http.Server.Pieces.{part_step, last_step}
use uv_cpp.Http.Server.Running.{UvWrite, perform, handle, react, react_all, http_step, http_run}
use uv_cpp.Http.Server.Running.Answered.{at_once, Serves, Serves-Becomes, http_step-answered}
use uv_cpp.Tcp.Connection
use uv_cpp.Tcp.Connection.{TcpConnection, uv_write, write_done}
use uv_cpp.Tcp.Connection.Writing.{uv_buf_init-whole}
use uv_cpp.Tcp.Connections.{lookup}
use uv_cpp.Tcp.Server.{TcpServer, Action, by_connection, connect_closed, told}
use uv_cpp.Tcp.Server.Run.{Event, happened}
use uv_cpp.Tcp.Server.Traffic.{put, Becomes, Becomes-put, Becomes-trans, step-received}
use uv_cpp.Tcp.Server.Watch.{closing_acts}

module _ (uv : Handles) where
  -- What comes in for a connection, a read of libuv for each piece. libuv accepts a write of the
  -- reply and takes all of it at once.
  abbrev pub incoming : Bytes → Bytes → List Bytes → List (UvWrite × Event uv)
  incoming name reply =
      map (λ p. (at_once reply, happened (Connection.received (pos (length p)) p) name))

  -- The end of the write and of the connection.
  abbrev pub outgoing : Bytes → ℤ → UvWrite → UvWrite → List (UvWrite × Event uv)
  outgoing name status w w' =
      (w, happened (write_done 0 status) name) ∷ (w', happened Connection.closed name) ∷ []

-- What the server does for one request, and for the end of its connection.
abbrev pub served : Bytes → Bytes → Bool → List Action → List Action
served name reply active after =
    by_connection name (uv_write reply) ∷ (closing_acts name active ++ after)

module _ (uv : Handles) (cap : ℕ) (routes : Routes) where
  http_run-cons :
      (e : UvWrite × Event uv) (es : List (UvWrite × Event uv)) (s s1 s2 : TcpServer uv.Handle)
      (xs ys : List Action)
      → http_step uv cap routes e.0 e.1 s ≡ some (xs, s1)
      → http_run uv cap routes es s1 ≡ some (ys, s2)
      → http_run uv cap routes (e ∷ es) s ≡ some (xs ++ ys, s2)
  unfolding http_run
  http_run-cons e es s s1 s2 xs ys one rest = rw (one, http_run) (rw (rest, http_run) refl)

  http_run-nil : (s : TcpServer uv.Handle) → http_run uv cap routes [] s ≡ some ([], s)
  unfolding http_run
  http_run-nil s = refl

  handle_held :
      (name : Bytes) (c : TcpConnection uv.Handle) (s : TcpServer uv.Handle) (b b' : AnyBuffer)
      (buf : Bytes) (w : UvWrite)
      → lookup name s.connnections ≡ some c
      → c.buffer ≡ some b
      → on_message (any_buffer cap) routes (some b) buf ≡ some ([], some b')
      → handle uv cap routes w name buf s ≡ some ([], put name (record c { buffer = some b' }) s)
  unfolding handle perform
  handle_held name c s b b' buf w l holds held = rw (l, handle) (rw holds (rw (held, perform) refl))

  -- A message that is not answered.
  http_step-held :
      (name : Bytes) (c : TcpConnection uv.Handle) (s : TcpServer uv.Handle) (b b' : AnyBuffer)
      (buf : Bytes) (w : UvWrite)
      → Serves uv cap routes name c s
      → c.buffer ≡ some b
      → on_message (any_buffer cap) routes (some b) buf ≡ some ([], some b')
      → buf ≢ []
      → (s' : TcpServer uv.Handle) × (http_step uv cap routes w
            (happened (Connection.received (pos (length buf)) buf) name)
            s
          ≡ some ([], s'))
        × Becomes name (record c { buffer = some b' }) s s'
  unfolding http_step react_all react
  http_step-held name c s b b' buf w v holds held ne =
      let d = record c { buffer = some b' } in
      let s0 = put name c s in
      let x0 = Becomes-put name c c s v.found in
      let x1 = Becomes-put name c d s0 x0.now in
      let some_bytes : length buf ≢ 0 = omega (arith, length-ne_zero buf ne) in
      let come =
        step-received uv s name c v.found (length buf) 0 buf some_bytes v.reads v.listens
          v.no_timeout in
      let done = handle_held name c s0 b b' buf w x0.now holds held in
      (
        put name d s0,
        rw (come, http_step) (rw (done, react) refl),
        Becomes-trans name c d s s0 _ x0 x1,
      )

  module _ (r : Request) (sendable : IsSendable r) (n : ℕ) (small : n < 2 ^ 31)
      (announced : Dict.lookup (codes "Content-Length") r.heads ≡ some (to_string (pos n)))
      (complete : n ≡ length r.content) (room : length (pack r) < cap) (t : Tree Handler)
      (f : Request → Response → Response) (m : routes_of routes r.methon ≡ some t)
      (g : RadixTree.get t r.path ≡ found (some f)) (name : Bytes) (status : ℤ)
      (w w' : UvWrite) where
    adds :
        (b : AnyBuffer) (bytes : Bytes)
        → Any.IsValid cap b
        → length (Any.contents cap b ++ bytes) ≤ length (pack r)
        → Any.contents cap (Any.append cap b bytes).1 ≡ Any.contents cap b ++ bytes
    adds b bytes v few = Any.contents-append cap b bytes v (omega (arith, few, room))

    abbrev pub reply : Bytes
    reply = pack_response (f (record r { value = [] }) default_response)

    http_run-rest :
        (p : Bytes) (ps : List Bytes) (c : TcpConnection uv.Handle) (s : TcpServer uv.Handle)
        (b : AnyBuffer)
        → length reply < 2 ^ 32
        → All (λ x. x ≢ []) (p ∷ ps)
        → Serves uv cap routes name c s
        → c.buffer ≡ some b
        → c.requests ≡ []
        → Any.IsValid cap b
        → Any.contents cap b ++ flatten (p ∷ ps) ≡ pack r
        → (active : Bool) × (s' : TcpServer uv.Handle) × (http_run uv cap routes
              (incoming uv name reply (p ∷ ps) ++ outgoing uv name status w w')
              s
            ≡ some (
              served name reply active
                  (told s.on_connect_close_callback (λ k. connect_closed k name)),
              s',
            ))
          × ((j : Bytes)
              → lookup j s'.connnections ≡ (if equal name j then none else lookup j s.connnections))
    unfolding flatten
    http_run-rest p [] c s b few h v holds fresh valid e =
        let (b', answer, _, _) =
          last_step (any_buffer cap) routes r sendable n small announced complete adds t f m g p b
            valid (ap (λ x. Any.contents cap b ++ x) (sym (append-nil p)) ∙ e) in
        let (active, s1, s2, s3, one, two, three, gone) =
          http_step-answered uv cap routes name c s b b' p reply (length p) status w w' v holds
            fresh answer (omega (arith, length-ne_zero p h.0)) in
        (
          active,
          s3,
          http_run-cons _ _ s s1 s3 _ _ (rw (uv_buf_init-whole reply few) at one) (
                http_run-cons _ _ s1 s2 s3 _ _ two
                  (http_run-cons _ _ s2 s3 s3 _ _ three (http_run-nil s3)))
              ∙ ap (λ x. some (served name reply active x, s3)) (append-nil _),
          gone,
        )
    http_run-rest p (p' ∷ ps) c s b few h v holds fresh valid e =
        let rest = flatten (p' ∷ ps) in
        let (one, e') =
          part_step (any_buffer cap) routes r sendable n small announced complete adds b p rest
            valid (append_assoc (Any.contents cap b) p rest ∙ e)
            (append-ne_nil p' (flatten ps) h.1.0) in
        let b1 = (Any.append cap b p).1 in
        let (s1, step1, x) = http_step-held name c s b b1 p (at_once reply) v holds one h.0 in
        let d = record c { buffer = some b1 } in
        let v1 = Serves-Becomes uv cap routes name c s s1 (some b1) c.requests v x in
        let (active, s2, run, gone) =
          http_run-rest p' ps d s1 b1 few h.1 v1 refl fresh (Any.append-IsValid cap b p valid) e' in
        (
          active,
          s2,
          http_run-cons _ _ s s1 s2 [] _ step1 run
              ∙ ap (λ k. some (served name reply active (told k (λ j. connect_closed j name)), s2))
                  x.on_close_same,
          λ j. ground (arith, gone j, x.others j),
        )

    -- What `pack` writes of a request that can be sent, with the length of its body announced
    -- (below 2 ^ 31) and shorter than a CycleBuffer's array, may be cut into any pieces that are
    -- not empty: a server without a timeout, on an open, connected connection with an empty buffer
    -- of either kind and no write waiting, whose tree for the method finds a handler for the path,
    -- does nothing before the last piece, then writes once, what the handler makes of the request
    -- and a default response, if that is below 4 GiB and libuv accepts the write and takes all of
    -- it at once; when that write ends, with any status, the connection is closed; and when libuv
    -- has closed the handle, the user's function for the end of a connection, if there is one, is
    -- called once, and the connection is no longer in the map, in which the others stay.
    pub http_run-pieces :
        (p : Bytes) (ps : List Bytes) (c : TcpConnection uv.Handle) (s : TcpServer uv.Handle)
        (b : AnyBuffer)
        → length reply < 2 ^ 32
        → All (λ x. x ≢ []) (p ∷ ps)
        → Serves uv cap routes name c s
        → c.buffer ≡ some b
        → c.requests ≡ []
        → Any.IsValid cap b
        → Any.contents cap b ≡ []
        → flatten (p ∷ ps) ≡ pack r
        → (active : Bool) × (s' : TcpServer uv.Handle) × (http_run uv cap routes
              (incoming uv name reply (p ∷ ps) ++ outgoing uv name status w w')
              s
            ≡ some (
              served name reply active
                  (told s.on_connect_close_callback (λ k. connect_closed k name)),
              s',
            ))
          × ((j : Bytes)
              → lookup j s'.connnections ≡ (if equal name j then none else lookup j s.connnections))
    http_run-pieces p ps c s b few h v holds fresh valid empty e =
        http_run-rest p ps c s b few h v holds fresh valid
          (ap (λ x. x ++ flatten (p ∷ ps)) empty ∙ e)
