-- ===== src/Http/Client/Answer.antt =====
-- uv/http/HttpClient.cpp: the events of a connection on which comes what `Response::pack` writes.
use uv_cpp.Prelude.{
  ℕ, ◌<◌, ◌≤◌, ◌%◌, take_all, ge→ltb, ◌^◌, ◌==◌, ◌≡◌, refl, ap, ◌∙◌, true, false, Bytes, codes,
  List, [], ◌∷◌, ◌++◌, length, ltb, if◌then◌else◌, some, arith, Bool-cases, inl, inr,
}
use uv_cpp.Http.Dict.{lookup}
use uv_cpp.Http.Number.{pos, to_string}
use uv_cpp.Http.Common.{success, fail}
use uv_cpp.Http.Request.{Request, pack}
use uv_cpp.Http.Response.{
  Response, default_response, new_response, pack_response, unpack_response,
  response_unpack_and_completed,
}
use uv_cpp.Http.Response.Unpack.{
  IsSendable, unpack_response-pack_response, response_unpack_and_completed-length,
}
use uv_cpp.Http.Client.{
  HttpClient, Event, Action, send, respond, req_success, on_connect_success, on_connect_close,
  request, on_resp, on_connect_status, on_message, status, message, step, run,
}

-- One event after another.
pub run-cons :
    (fuel : ℕ) (c c' : HttpClient) (e : Event) (es : List Event) (actions more : List Action)
    → step fuel c e ≡ some (actions, c')
    → run fuel c' es ≡ some more
    → run fuel c (e ∷ es) ≡ some (actions ++ more)
unfolding run
run-cons fuel c c' e es actions more one rest = rw (one, run) (rw rest refl)

pub run-nil : (fuel : ℕ) (c : HttpClient) → run fuel c [] ≡ some []
unfolding run
run-nil fuel c = refl

pub requested : (c : HttpClient) (q : Request) → (request c q).1 ≡ record c { req = q; buffer = [] }
unfolding request
requested c q = refl

module _ (r : Response) (s : IsSendable r) (n fuel : ℕ) (small : n < 2 ^ 31)
    (announced : lookup (codes "Content-Length") r.heads ≡ some (to_string (pos n)))
    (c : HttpClient) (called : c.callback ≡ true) (q : Request) where
  abbrev pub told : Action
  told = respond req_success (some r)

  abbrev pub held : HttpClient
  held = record c { req = q; buffer = pack_response r; is_connected = true }

  whole :
      response_unpack_and_completed fuel default_response (pack_response r)
      ≡ some (if n == length r.content then success else fail, r)
  unfolding new_response
  whole = response_unpack_and_completed-length r default_response s fuel n refl small announced

  again : unpack_response default_response (pack_response r) ≡ some (success, r)
  unfolding new_response
  again = unpack_response-pack_response r default_response s refl

  -- The message that completes the answer.
  pub message_step :
      (b p : Bytes)
      → b ++ p ≡ pack_response r
      → length (pack_response r) < 2 ^ 32
      → step fuel (record c { req = q; buffer = b; is_connected = true }) (message p)
        ≡ some (if n == length r.content then told ∷ [] else [], held)
  unfolding step on_message on_resp
  message_step b p together fits =
      let room : ltb (length (b ++ p)) (2 ^ 32) ≡ true =
        ap (λ w. ltb (length w) (2 ^ 32)) together ∙ ground arith in
      let parsed = ap (response_unpack_and_completed fuel default_response) together ∙ whole in
      let handled : step fuel (record c { req = q; buffer = b; is_connected = true }) (message p)
          ≡ some (
            if n == length r.content then told ∷ [] else [],
            record c { req = q; buffer = b ++ p; is_connected = true },
          ) =
        rw room (
          rw (parsed, on_message)
            (elim (Bool-cases (n == length r.content)) [
              | inl full ↦ rw full (rw called refl)
              | inr part ↦ rw part refl
            ])) in
      handled
      ∙ ap
          (λ w. some (
            if n == length r.content then told ∷ [] else [],
            record c { req = q; buffer = w; is_connected = true },
          ))
          together

  pub connect_step :
      (taken : ℕ)
      → length (pack q) < 2 ^ 32
      → length (pack q) ≤ taken
      → step fuel (record c { req = q; buffer = [] }) (status taken on_connect_success)
        ≡ some (send (pack q) ∷ [], record c { req = q; buffer = []; is_connected = true })
  unfolding step on_connect_status
  connect_step taken few all =
      let whole_size : length (pack q) % 2 ^ 32 ≡ length (pack q) = omega (arith, few) in
      let all_sent = take_all (length (pack q)) (pack q) (omega arith) in
      rw (whole_size, on_connect_status)
        (rw all_sent (rw (ge→ltb taken (length (pack q)) all) refl))

  pub close_step :
      (taken : ℕ)
      → step fuel held (status taken on_connect_close)
        ≡ some (told ∷ [], record held { is_connected = false })
  unfolding step on_connect_status on_resp
  close_step taken = rw (again, on_connect_status) (rw called refl)

  -- A client with a callback that asks for a request (below 4 GiB, and libuv is done with all its
  -- bytes when `write` returns), is connected, is sent what `pack` writes of
  -- a response that can be sent (below 4 GiB, with a length below 2 ^ 31 announced as Content-
  -- Length) and is closed then, sends the request and calls back with a success and the response
  -- when it is closed; if the body has the announced length, it has called back in the same way
  -- once before.
  pub run-answer :
      (taken later : ℕ)
      → length (pack q) < 2 ^ 32
      → length (pack q) ≤ taken
      → length (pack_response r) < 2 ^ 32
      → run fuel (request c q).1 (
          status taken on_connect_success
          ∷ message (pack_response r)
          ∷ status later on_connect_close
          ∷ [])
        ≡ some (send (pack q) ∷ ((if n == length r.content then told ∷ [] else []) ++ told ∷ []))
  run-answer taken later few all fits = rw (requested c q) (
      run-cons fuel _ _ _ _ _ _ (connect_step taken few all) (
        run-cons fuel _ _ _ _ _ _ (message_step [] (pack_response r) refl fits)
          (run-cons fuel _ _ _ _ _ _ (close_step later) (run-nil fuel _))))
