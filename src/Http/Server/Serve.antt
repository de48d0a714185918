-- ===== src/Http/Server/Serve.antt =====
-- uv/http/HttpServer.cpp: `onMesage` on what `Request::pack` writes.
use uv_cpp.Prelude.{
  ℕ, ◌<◌, ◌^◌, ◌≡◌, ◌≢◌, refl, ap, ◌∙◌, Bytes, codes, [], ◌∷◌, length, take_all, none, some, arith,
  ◌==◌, if◌then◌else◌, true, false,
}
use uv_cpp.Buffer.Interface.{PacketBuffer}
use uv_cpp.Http.Dict.{lookup}
use uv_cpp.Http.Number.{pos, to_string}
use uv_cpp.Http.Common.{success, fail}
use uv_cpp.Http.Request.{Request, default_request, new_request, pack, unpack_and_completed}
use uv_cpp.Http.Request.Unpack.{IsSendable}
use uv_cpp.Http.Request.Complete.{unpack_and_completed-length}
use uv_cpp.Http.Response.{Response, default_response, pack_response}
use uv_cpp.Http.RadixTree
use uv_cpp.Http.RadixTree.{Tree, empty, Answer, fault, missing, found}
use uv_cpp.Http.Server.{Handler, Routes, routes_of, write_and_close, answer, dispatch, on_message}

get_empty_root : (path : Bytes) → RadixTree.get {A = Handler} empty path ≡ fault
unfolding RadixTree.get
get_empty_root path = refl

module _ (P : PacketBuffer) (routes : Routes) where
  open P use {
    Buffer, IsValid, contents, append, read_buffer_n, clear, read_size, read_size-contents,
    read_buffer_n_ok, contents-clear, append-IsValid, clear-IsValid,
  }

  -- The bytes that the parser is given are all that the buffer holds.
  pub read_all :
      {b : Buffer} (bytes whole : Bytes)
      → IsValid b
      → contents (append b bytes).1 ≡ whole
      → (read_buffer_n (append b bytes).1 [] (read_size (append b bytes).1)).1 ≡ whole
  read_all {b} bytes whole v e =
      let held = (append b bytes).1 in
      let v' = append-IsValid bytes v in
      let n = read_size-contents v' in
      ap (λ r. r.1) (read_buffer_n_ok [] (read_size held) v' (omega (arith, n)))
      ∙ rw (n, e) (take_all (length whole) whole (omega arith))

  module _ (r : Request) (s : IsSendable r) (n : ℕ) (h : n < 2 ^ 31)
      (announced : lookup (codes "Content-Length") r.heads ≡ some (to_string (pos n))) where
    -- The request as the handler sees it.
    abbrev pub received : Request
    received = record r { value = [] }

    parsed :
        unpack_and_completed default_request (pack r)
        ≡ some (if n == length r.content then success else fail, received)
    unfolding new_request
    parsed = unpack_and_completed-length r default_request s n refl h announced

    pub on_message-whole :
        {b : Buffer} (bytes : Bytes)
        → IsValid b
        → contents (append b bytes).1 ≡ pack r
        → n ≡ length r.content
        → on_message P routes (some b) bytes ≡ elim (dispatch routes received) [
          | none ↦ none
          | some actions ↦ some (actions, some (clear (append b bytes).1).1)
        ]
    unfolding on_message
    on_message-whole bytes v e l =
        let full : (n == length r.content) ≡ true = ground arith in
        rw (read_all bytes (pack r) v e, on_message)
          (rw (parsed, on_message) (rw (full, on_message) refl))

    -- If the bytes that come in complete what `pack` writes of a request that can be sent, with
    -- the length of its body announced (below 2 ^ 31), and the tree of its method finds a handler
    -- for its path, then the server writes what the handler makes of the request and a default
    -- response, closes the connection after it, and leaves a valid, empty buffer.
    pub on_message-found :
        {b : Buffer} (bytes : Bytes) (t : Tree Handler) (f : Request → Response → Response)
        → IsValid b
        → contents (append b bytes).1 ≡ pack r
        → n ≡ length r.content
        → routes_of routes r.methon ≡ some t
        → RadixTree.get t r.path ≡ found (some f)
        → (b' : Buffer) × (on_message P routes (some b) bytes
            ≡ some (write_and_close (pack_response (f received default_response)) ∷ [], some b'))
          × (contents b' ≡ [])
          × IsValid b'
    unfolding dispatch answer
    on_message-found {b} bytes t f v e l m g =
        let v' = append-IsValid bytes v in
        let reply : dispatch routes received
            ≡ some (write_and_close (pack_response (f received default_response)) ∷ []) =
          rw (m, dispatch) (rw (g, answer) refl) in
        (
          (clear (append b bytes).1).1,
          on_message-whole bytes v e l ∙ rw reply refl,
          contents-clear v',
          clear-IsValid v',
        )

    -- If the bytes that come in make the buffer hold what `pack` writes of a request that can be
    -- sent, and the body has another length than the one it announces (below 2 ^ 31), then the
    -- server does nothing and leaves all the bytes in a valid buffer.
    pub on_message-part :
        {b : Buffer} (bytes : Bytes)
        → IsValid b
        → contents (append b bytes).1 ≡ pack r
        → n ≢ length r.content
        → (b' : Buffer) × (on_message P routes (some b) bytes ≡ some ([], some b'))
          × (contents b' ≡ pack r)
          × IsValid b'
    unfolding on_message
    on_message-part {b} bytes v e l =
        let part : (n == length r.content) ≡ false = ground arith in
        (
          (append b bytes).1,
          rw (read_all bytes (pack r) v e, on_message)
              (rw (parsed, on_message) (rw (part, on_message) refl)),
          e,
          append-IsValid bytes v,
        )

    -- If the bytes that come in complete what `pack` writes of a request that can be sent, with
    -- the length of its body announced (below 2 ^ 31), and no route was ever set for its method,
    -- then the server goes on to use a null pointer.
    pub on_message-fault :
        {b : Buffer} (bytes : Bytes)
        → IsValid b
        → contents (append b bytes).1 ≡ pack r
        → n ≡ length r.content
        → routes_of routes r.methon ≡ some empty
        → on_message P routes (some b) bytes ≡ none
    unfolding dispatch answer
    on_message-fault {b} bytes v e l m =
        let crash : dispatch routes received ≡ none =
          rw (m, dispatch) (rw (get_empty_root r.path, answer) refl) in
        on_message-whole bytes v e l ∙ rw crash refl
