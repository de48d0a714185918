-- ===== src/Http/Client/Pieces.antt =====
-- uv/http/HttpClient.cpp: an answer that comes in several messages.
use mathlib.Core.List.{flatten}
use uv_cpp.Prelude.{
  ℕ, ◌+◌, ◌<◌, ◌≤◌, ◌^◌, ◌==◌, ◌≡◌, ◌≢◌, refl, sym, ap, ◌∙◌, true, Bytes, codes, List, [], ◌∷◌,
  ◌++◌, length, ltb, map, some, arith, All, length-append, length-ne_zero, append-ne_nil,
  append_assoc, append-nil, take, take-append,
}
use uv_cpp.Http.Dict.{lookup}
use uv_cpp.Http.Number.{pos, to_string}
use uv_cpp.Http.Common.{fail}
use uv_cpp.Http.Request.{Request, pack}
use uv_cpp.Http.Response.{
  Response, default_response, new_response, pack_response, response_unpack_and_completed,
}
use uv_cpp.Http.Response.Unpack.{IsSendable}
use uv_cpp.Http.Response.Part.{response_unpack_and_completed-take}
use uv_cpp.Http.Client.{
  HttpClient, Action, send, on_connect_success, on_connect_close, request, on_message, status,
  message, step, run,
}
use uv_cpp.Http.Client.Answer.{
  told, run-cons, run-nil, requested, message_step, connect_step, close_step,
}

module _ (r : Response) (s : IsSendable r) (n fuel : ℕ) (small : n < 2 ^ 31)
    (announced : lookup (codes "Content-Length") r.heads ≡ some (to_string (pos n)))
    (complete : n ≡ length r.content) (fits : length (pack_response r) < 2 ^ 32) (c : HttpClient)
    (called : c.callback ≡ true) (q : Request) where
  abbrev with_buffer : Bytes → HttpClient
  with_buffer b = record c { req = q; buffer = b; is_connected = true }

  abbrev answered : List Action
  answered = told r s n fuel small announced c called q ∷ []

  part_ne :
      (b more : Bytes)
      → b ++ more ≡ pack_response r
      → more ≢ []
      → (r' : Response) × (response_unpack_and_completed fuel default_response b ≡ some (fail, r'))
        × (length b < 2 ^ 32)
  unfolding new_response
  part_ne b more e ne =
      let size : length b + length more ≡ length (pack_response r) =
        sym (length-append b more) ∙ ap length e in
      let rest = length-ne_zero more ne in
      let cut : take (length b) (pack_response r) ≡ b =
        ap (take (length b)) (sym e) ∙ take-append (length b) b more refl in
      let (r', failed) =
        response_unpack_and_completed-take r default_response s n fuel refl small announced complete
          (length b) (omega (arith, size, rest)) in
      (r', rw cut at failed, omega (arith, size))

  part_step :
      (b p more : Bytes)
      → (b ++ p) ++ more ≡ pack_response r
      → more ≢ []
      → step fuel (with_buffer b) (message p) ≡ some ([], with_buffer (b ++ p))
  unfolding step on_message
  part_step b p more e ne =
      let (r', failed, few) = part_ne (b ++ p) more e ne in
      let room : ltb (length (b ++ p)) (2 ^ 32) ≡ true = ground (arith, few) in
      rw room (rw (failed, on_message) refl)

  last_step :
      (b p : Bytes)
      → b ++ p ≡ pack_response r
      → step fuel (with_buffer b) (message p) ≡ some (answered, with_buffer (pack_response r))
  last_step b p e =
      let full : (n == length r.content) ≡ true = ground arith in
      message_step r s n fuel small announced c called q b p e fits ∙ rw full refl

  run-messages :
      (later : ℕ) (p : Bytes) (ps : List Bytes) (b : Bytes)
      → All (λ x. x ≢ []) ps
      → b ++ flatten (p ∷ ps) ≡ pack_response r
      → run fuel
          (with_buffer b)
          (message p ∷ (map message ps ++ status later on_connect_close ∷ []))
        ≡ some (answered ++ answered)
  unfolding flatten
  run-messages later p [] b h e =
      run-cons fuel _ _ _ _ _ _ (last_step b p (ap (λ x. b ++ x) (sym (append-nil p)) ∙ e)) (
        run-cons fuel _ _ _ _ _ _ (close_step r s n fuel small announced c called q later)
          (run-nil fuel _))
  run-messages later p (p' ∷ ps) b h e =
      let e' : (b ++ p) ++ flatten (p' ∷ ps) ≡ pack_response r =
        append_assoc b p (p' ++ flatten ps) ∙ e in
      run-cons fuel _ _ _ _ _ _
        (part_step b p (flatten (p' ∷ ps)) e' (append-ne_nil p' (flatten ps) h.0))
        (run-messages later p' ps (b ++ p) h.1 e')

  -- What `pack` writes of a response that can be sent (below 4 GiB, its length below 2 ^ 31
  -- announced as Content-Length) may be cut into any pieces, none of them empty but the first: a
  -- client with a callback that asks for a request, is connected, is sent the pieces and is closed
  -- then sends the request (below 4 GiB, and libuv is done with all its bytes when `write`
  -- returns), calls back with a success and the response once the last piece has come, and calls
  -- back in the same way once more when it is closed.
  pub run-pieces :
      (taken later : ℕ) (p : Bytes) (ps : List Bytes)
      → length (pack q) < 2 ^ 32
      → length (pack q) ≤ taken
      → All (λ x. x ≢ []) ps
      → flatten (p ∷ ps) ≡ pack_response r
      → run fuel (request c q).1 (
          status taken on_connect_success
          ∷ message p
          ∷ (map message ps ++ status later on_connect_close ∷ []))
        ≡ some (send (pack q) ∷ (answered ++ answered))
  run-pieces taken later p ps few all h e = rw (requested c q) (
      run-cons fuel _ _ _ _ _ _ (connect_step r s n fuel small announced c called q taken few all)
        (run-messages later p ps [] h e))
