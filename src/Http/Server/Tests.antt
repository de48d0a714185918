-- ===== src/Http/Server/Tests.antt =====
-- A server with one route for POST, and a request for it.
use uv_cpp.Prelude.{Lacks, ap, ◌≡◌, refl, Bytes, codes, [], ◌∷◌, some, arith}
use uv_cpp.Buffer.ListBuffer.{ListBuffer, append, append_lem}
use uv_cpp.Buffer.Instances.{list_buffer}
use uv_cpp.Http.Text.{equal}
use uv_cpp.Http.Dict.{lookup}
use uv_cpp.Http.Number.{to_string}
use uv_cpp.Http.Common.{get_common_string_length, http1_1, post}
use uv_cpp.Http.Request.{Request, pack, pack_path_param, question}
use uv_cpp.Http.Request.Unpack.{IsSendable}
use uv_cpp.Http.Response.{Response, default_response, pack_response, set_status, ok_200}
use uv_cpp.Http.RadixTree
use uv_cpp.Http.RadixTree.{Tree, empty, leaf, found}
use uv_cpp.Http.Server.{Routes, no_routes, add_route, routes_of, write_and_close, on_message}
use uv_cpp.Http.Server.Serve.{on_message-found}

abbrev buy : Request → Response → Response
buy req resp = set_status resp ok_200 (codes "OK")

abbrev post_only : Routes
post_only = add_route post (codes "/buy") (some buy) no_routes

abbrev sent : Bytes → Request
sent size = record {
  version = http1_1;
  methon = post;
  path = codes "/buy";
  value = [];
  url_parms = [];
  heads = (codes "Content-Length", size) ∷ [];
  content = codes "abc";
}

sent-IsSendable : (size : Bytes) → Lacks b'\r' size → IsSendable (sent size)
sent-IsSendable size h = record {
  methon = λ e. cc;
  version = λ e. cc;
  target = record {
    slash = refl;
    path_colon = ground arith;
    path_question = ground arith;
    params_colon = unfold question in tt;
    params = tt;
    sorted = tt;
  };
  target_space = unfold pack_path_param question in ground arith;
  target_cr = unfold pack_path_param question in ground arith;
  heads = ((ground arith, ground arith, h), tt);
  sorted = (tt, tt);
}

abbrev whole : Request
whole = sent (codes "3")

abbrev nothing : ListBuffer
nothing = record { buffer = [] }

append-contents : (bytes : Bytes) → (append nothing bytes).1.buffer ≡ bytes
append-contents bytes = ap (λ x. x.1.buffer) (append_lem nothing bytes)

on_message-found_example :
    (b' : ListBuffer) × (on_message list_buffer post_only (some nothing) (pack whole)
      ≡ some (write_and_close (pack_response (buy whole default_response)) ∷ [], some b'))
    × (b'.buffer ≡ [])
    × Unit {0}
unfolding to_string lookup equal add_route no_routes routes_of RadixTree.get RadixTree.get_node
    RadixTree.set RadixTree.set_node get_common_string_length
on_message-found_example =
    on_message-found list_buffer post_only whole (sent-IsSendable (codes "3") (ground arith)) 3
      (omega arith) refl {b = nothing} (pack whole) (leaf (codes "/buy") (some buy)) buy tt
      (append-contents (pack whole)) refl refl refl
