-- ===== src/Http/Client/Tests.antt =====
-- A client that is sent a response in three pieces.
use mathlib.Core.List.{flatten}
use uv_cpp.Prelude.{◌≡◌, refl, true, false, Bytes, codes, List, [], ◌∷◌, ◌++◌, some, arith, map}
use uv_cpp.Http.Text.{equal}
use uv_cpp.Http.Dict.{lookup}
use uv_cpp.Http.Number.{pos, to_string}
use uv_cpp.Http.Common.{http1_1, http_version_to_str}
use uv_cpp.Http.Request.{default_request, new_request, pack, pack_heads}
use uv_cpp.Http.Response.{Response, pack_response}
use uv_cpp.Http.Response.Unpack.{IsSendable}
use uv_cpp.Http.Client.{
  HttpClient, send, respond, req_success, on_connect_success, on_connect_close, request, status,
  message, run,
}
use uv_cpp.Http.Client.Pieces.{run-pieces}

abbrev complete : Response
complete = record {
  version = http1_1;
  status_code = pos 200;
  status_info = codes "OK";
  heads = (codes "Content-Length", codes "3") ∷ [];
  content = codes "abc";
}

abbrev client : HttpClient
client = record { callback = true; req = default_request; buffer = []; is_connected = false }

complete-IsSendable : IsSendable complete
complete-IsSendable = record {
  version = λ e. cc;
  code = 200;
  code_is = refl;
  code_fits = omega arith;
  info = ground arith;
  info_ne_nil = λ e. cc;
  heads = ground arith;
  sorted = (tt, tt);
}

-- The bytes of the answer, cut inside of a line end and inside of the body.
abbrev first_piece : Bytes
first_piece = codes "HTTP/1.1 200 OK\r"

abbrev more_pieces : List Bytes
more_pieces = codes "\nContent-Length: 3\r\n\r\na" ∷ codes "bc" ∷ []

run-pieces_example :
    run 1 (request client default_request).1 (
      status 200 on_connect_success
      ∷ message first_piece
      ∷ (map message more_pieces ++ status 0 on_connect_close ∷ []))
    ≡ some (
        send (pack default_request)
        ∷ respond req_success (some complete)
        ∷ respond req_success (some complete)
        ∷ [])
unfolding to_string lookup equal pack_response pack_heads http_version_to_str flatten pack
    new_request
run-pieces_example =
    run-pieces complete complete-IsSendable 3 1 (omega arith) refl refl (omega arith) client refl
      default_request 200 0 first_piece more_pieces (omega arith) (omega arith) (ground arith) refl
