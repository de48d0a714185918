-- ===== src/Http/Server/Pieces.antt =====
-- uv/http/HttpServer.cpp: a request that comes in several messages.
use mathlib.Core.List.{flatten}
use uv_cpp.Prelude.{
  ℕ, ◌+◌, ◌<◌, ◌≤◌, ◌^◌, ◌≡◌, ◌≢◌, refl, sym, ap, ◌∙◌, Bytes, codes, List, [], ◌∷◌, ◌++◌, length,
  Option, none, some, arith, All, length-append, length-ne_zero, append-ne_nil, append_assoc,
  append-nil, take, take-append,
}
use uv_cpp.Buffer.Interface.{PacketBuffer}
use uv_cpp.Http.Dict.{lookup}
use uv_cpp.Http.Number.{pos, to_string}
use uv_cpp.Http.Common.{fail}
use uv_cpp.Http.Request.{Request, default_request, new_request, pack, unpack_and_completed}
use uv_cpp.Http.Request.Unpack.{IsSendable}
use uv_cpp.Http.Request.Part.{unpack_and_completed-take}
use uv_cpp.Http.Response.{Response, default_response, pack_response}
use uv_cpp.Http.RadixTree
use uv_cpp.Http.RadixTree.{Tree, found}
use uv_cpp.Http.Server.{Handler, Routes, Action, routes_of, write_and_close, on_message}
use uv_cpp.Http.Server.Serve.{read_all, on_message-found}

module _ (P : PacketBuffer) (routes : Routes) where
  open P use {Buffer, IsValid, contents, append, append-IsValid}

  -- One message after another.
  pub on_messages : Option Buffer → List Bytes → Option (List Action × Option Buffer)
  on_messages b [] = some ([], b)
  on_messages b (p ∷ ps) = elim (on_message P routes b p) [
    | none ↦ none
    | some (actions, b') ↦ elim (on_messages b' ps) [
      | none ↦ none
      | some (more, b'') ↦ some (actions ++ more, b'')
    ]
  ]

  on_messages-cons :
      (b b' b'' : Option Buffer) (p : Bytes) (ps : List Bytes) (actions more : List Action)
      → on_message P routes b p ≡ some (actions, b')
      → on_messages b' ps ≡ some (more, b'')
      → on_messages b (p ∷ ps) ≡ some (actions ++ more, b'')
  unfolding on_messages
  on_messages-cons b b' b'' p ps actions more one rest =
      rw (one, on_messages) (rw (rest, on_messages) refl)

  on_messages-nil : (b : Option Buffer) → on_messages b [] ≡ some ([], b)
  unfolding on_messages
  on_messages-nil b = refl

  module _ (r : Request) (s : IsSendable r) (n : ℕ) (small : n < 2 ^ 31)
      (announced : lookup (codes "Content-Length") r.heads ≡ some (to_string (pos n)))
      (complete : n ≡ length r.content)
      (adds : (b : Buffer) (bytes : Bytes)
        → IsValid b
        → length (contents b ++ bytes) ≤ length (pack r)
        → contents (append b bytes).1 ≡ contents b ++ bytes) where
    abbrev pub received : Request
    received = record r { value = [] }

    within : (w more : Bytes) → w ++ more ≡ pack r → length w ≤ length (pack r)
    within w more e =
        let size : length w + length more ≡ length (pack r) =
          sym (length-append w more) ∙ ap length e in
        omega (arith, size)

    part_fails :
        (b more : Bytes)
        → b ++ more ≡ pack r
        → more ≢ []
        → (r' : Request) × (unpack_and_completed default_request b ≡ some (fail, r'))
    unfolding new_request
    part_fails b more e ne =
        let size : length b + length more ≡ length (pack r) =
          sym (length-append b more) ∙ ap length e in
        let rest = length-ne_zero more ne in
        let cut : take (length b) (pack r) ≡ b =
          ap (take (length b)) (sym e) ∙ take-append (length b) b more refl in
        let (r', failed) =
          unpack_and_completed-take r default_request s n refl small announced complete (length b)
            (omega (arith, size, rest)) in
        (r', rw cut at failed)

    -- A piece that is not the last one stays in the buffer.
    pub part_step :
        (b : Buffer) (p more : Bytes)
        → IsValid b
        → (contents b ++ p) ++ more ≡ pack r
        → more ≢ []
        → (on_message P routes (some b) p ≡ some ([], some (append b p).1))
          × (contents (append b p).1 ++ more ≡ pack r)
    unfolding on_message
    part_step b p more v e ne =
        let (r', failed) = part_fails (contents b ++ p) more e ne in
        let added = adds b p v (within (contents b ++ p) more e) in
        (
          rw (read_all P routes p (contents b ++ p) v added, on_message)
              (rw (failed, on_message) refl),
          ap (λ x. x ++ more) added ∙ e,
        )

    module _ (t : Tree Handler) (f : Request → Response → Response)
        (m : routes_of routes r.methon ≡ some t) (g : RadixTree.get t r.path ≡ found (some f)) where
      abbrev pub reply : List Action
      reply = write_and_close (pack_response (f received default_response)) ∷ []

      -- The last piece is answered.
      pub last_step :
          (p : Bytes) (b : Buffer)
          → IsValid b
          → contents b ++ p ≡ pack r
          → (b' : Buffer) × (on_message P routes (some b) p ≡ some (reply, some b'))
            × (contents b' ≡ [])
            × IsValid b'
      last_step p b v e =
          let few = within (contents b ++ p) [] (append-nil (contents b ++ p) ∙ e) in
          on_message-found P routes r s n small announced p t f v (adds b p v few ∙ e) complete m g

      on_messages-rest :
          (p : Bytes) (ps : List Bytes) (b : Buffer)
          → All (λ x. x ≢ []) ps
          → IsValid b
          → contents b ++ flatten (p ∷ ps) ≡ pack r
          → (b' : Buffer) × (on_messages (some b) (p ∷ ps) ≡ some (reply, some b'))
            × (contents b' ≡ [])
            × IsValid b'
      unfolding flatten
      on_messages-rest p [] b h v e =
          let (b', one, empty, v') =
            last_step p b v (ap (λ x. contents b ++ x) (sym (append-nil p)) ∙ e) in
          (b', on_messages-cons _ _ _ p [] _ _ one (on_messages-nil _), empty, v')
      on_messages-rest p (p' ∷ ps) b h v e =
          let rest = flatten (p' ∷ ps) in
          let e' : (contents b ++ p) ++ rest ≡ pack r = append_assoc (contents b) p rest ∙ e in
          let (one, e'') = part_step b p rest v e' (append-ne_nil p' (flatten ps) h.0) in
          let (b', more, empty, v') =
            on_messages-rest p' ps (append b p).1 h.1 (append-IsValid p v) e'' in
          (b', on_messages-cons _ _ _ p (p' ∷ ps) _ _ one more, empty, v')

      -- What `pack` writes of a request that can be sent, with the length of its body announced
      -- (below 2 ^ 31), may be cut into any pieces, none of them empty but the first: if the
      -- buffer takes everything and is empty at first, and the tree of the method finds a handler
      -- for the path, then the server answers once, with what the handler makes of the request and
      -- a default response, and leaves a valid, empty buffer.
      pub on_messages-pieces :
          (p : Bytes) (ps : List Bytes) {b : Buffer}
          → All (λ x. x ≢ []) ps
          → IsValid b
          → contents b ≡ []
          → flatten (p ∷ ps) ≡ pack r
          → (b' : Buffer) × (on_messages (some b) (p ∷ ps) ≡ some (reply, some b'))
            × (contents b' ≡ [])
            × IsValid b'
      on_messages-pieces p ps {b} h v empty e =
          on_messages-rest p ps b h v (ap (λ x. x ++ flatten (p ∷ ps)) empty ∙ e)
