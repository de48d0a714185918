-- ===== src/Http/Server/Running/Tests.antt =====
-- A server with one route for POST and one connection, whose handle is two flags.
use uv_cpp.Prelude.{
  Bool, ℕ, ◌++◌, ap, ◌≡◌, refl, ◌∙◌, true, false, Bytes, codes, List, [], ◌∷◌, if◌then◌else◌, none,
  some, arith,
}
use uv_cpp.Uv.Flags.{Flags, flags, reading}
use uv_cpp.Buffer.ListBuffer.{append_lem, clear_lem}
use uv_cpp.Buffer.Config.{AnyBuffer, list}
use uv_cpp.Buffer.Any
use uv_cpp.Buffer.Any.{any_buffer}
use uv_cpp.Http.Text.{equal}
use uv_cpp.Http.Dict.{lookup}
use uv_cpp.Http.Number.{pos, to_string}
use uv_cpp.Http.Common.{get_common_string_length, http1_1, http_version_to_str, post}
use mathlib.Core.List.{flatten}
use uv_cpp.Http.Request.{Request, methon_to_str, pack, pack_heads, pack_path_param, question}
use uv_cpp.Http.Request.Unpack.{IsSendable}
use uv_cpp.Http.Response.{Response, default_response, pack_response}
use uv_cpp.Http.RadixTree
use uv_cpp.Http.RadixTree.{leaf}
use uv_cpp.TimerWheel
use uv_cpp.Http.Server.{
  Routes, no_routes, add_route, routes_of, dispatch, write_and_close, on_message, answer,
}
use uv_cpp.Http.Server.Serve.{on_message-whole}
use uv_cpp.Http.Server.Running.{UvWrite, http_run, new_http_server}
use uv_cpp.Http.Server.Running.Answered.{at_once, Serves}
use uv_cpp.Http.Server.Running.Pieces.{incoming, outgoing, served, http_run-pieces}
use uv_cpp.Http.Server.Running.Pipelined.{http_run-pipelined}
use uv_cpp.Tcp.Connection.{TcpConnection, server, received, write_done}
use uv_cpp.Tcp.Connections
use uv_cpp.Tcp.Server.{TcpServer, connect_closed, new_server, set_message_callback}
use uv_cpp.Tcp.Server.Run.{happened}

-- The body goes back as it came.
abbrev buy : Request → Response → Response
buy req resp = record {
  version = http1_1;
  status_code = pos 200;
  status_info = codes "OK";
  heads = (codes "Content-Length", codes "3") ∷ [];
  content = req.content;
}

abbrev post_only : Routes
post_only = add_route post (codes "/buy") (some buy) no_routes

abbrev whole : Request
whole = record {
  version = http1_1;
  methon = post;
  path = codes "/buy";
  value = [];
  url_parms = [];
  heads = (codes "Content-Length", codes "3") ∷ [];
  content = codes "abc";
}

whole-IsSendable : IsSendable whole
whole-IsSendable = record {
  methon = λ e. cc;
  version = λ e. cc;
  target = record {
    slash = refl;
    path_colon = ground arith;
    path_question = ground arith;
    params_colon = unfold question in tt;
    params = tt;
    sorted = tt;
  };
  target_space = unfold pack_path_param question in ground arith;
  target_cr = unfold pack_path_param question in ground arith;
  heads = ((ground arith, ground arith, ground arith), tt);
  sorted = (tt, tt);
}

abbrev nothing : AnyBuffer
nothing = list (record { buffer = [] })

abbrev reply : Bytes
reply = pack_response (buy whole default_response)

-- Each request for the route is answered, and the buffer is empty again.
answer_whole :
    on_message (any_buffer 0) post_only (some nothing) (pack whole)
    ≡ some (write_and_close reply ∷ [], some nothing)
unfolding to_string lookup equal add_route no_routes routes_of RadixTree.get RadixTree.get_node
    RadixTree.set RadixTree.set_node get_common_string_length dispatch answer Any.append Any.clear
answer_whole =
    on_message-whole (any_buffer 0) post_only whole whole-IsSendable 3 (omega arith) refl
      {b = nothing} (pack whole) tt
      (ap (λ x. x.1.buffer) (append_lem (record { buffer = [] }) (pack whole))) refl
    ∙ ap (λ b. some (write_and_close reply ∷ [], some (list (record { buffer = b })))) (clear_lem _)

abbrev peer_name : Bytes
peer_name = codes "10.0.0.1:80"

abbrev peer : TcpConnection Flags
peer = record {
  name = peer_name;
  connected = true;
  handle = reading;
  buffer = some nothing;
  data_size = 0;
  wrapper = none;
  on_message_callback = some server;
  on_connect_close_callback = some server;
  close_complete_callback = none;
  requests = [];
  close_pending = false;
}

abbrev serving : TcpServer Flags
serving = record new_http_server {
  connnections = (peer_name, peer) ∷ [];
  on_connect_close_callback = some 5;
}

serving-Serves : {cap : ℕ} → Serves flags cap post_only peer_name peer serving
unfolding equal new_http_server new_server set_message_callback Connections.lookup
    TimerWheel.get_timeout TimerWheel.create
serving-Serves = record {
  found = refl;
  listens = refl;
  no_timeout = refl;
  own = refl;
  reads = refl;
  connected = refl;
  is_open = refl;
}

-- A write that libuv accepts and takes nothing of.
abbrev accepted : UvWrite
accepted = record { rst = pos 0; taken = 0 }

http_run-pipelined_example :
    http_run flags 0 post_only
      ((at_once reply, happened (received (pos 48) (pack whole)) peer_name)
        ∷ (at_once reply, happened (received (pos 48) (pack whole)) peer_name)
        ∷ (accepted, happened (write_done 0 (pos 0)) peer_name)
        ∷ (accepted, happened (write_done 0 (pos 0)) peer_name)
        ∷ [])
      serving
    ≡ none
http_run-pipelined_example =
    http_run-pipelined flags 0 post_only peer_name peer serving nothing nothing nothing (pack whole)
      (pack whole) reply reply 48 48 accepted accepted (pos 0) (pos 0) serving-Serves refl refl
      answer_whole answer_whole (omega arith) (omega arith)

abbrev pieces : List Bytes
pieces = codes "ngth: 3\r\n\r\nab" ∷ codes "c" ∷ []

abbrev first_piece : Bytes
first_piece = codes "POST /buy HTTP/1.1\r\nContent-Le"

http_run-pieces_example :
    (active : Bool) × (s' : TcpServer Flags) × (http_run flags 64 post_only
        (incoming flags peer_name reply (first_piece ∷ pieces)
          ++ outgoing flags peer_name (pos 0) accepted accepted)
        serving
      ≡ some (served peer_name reply active (connect_closed 5 peer_name ∷ []), s'))
    × ((j : Bytes)
        → Connections.lookup j s'.connnections
          ≡ (if equal peer_name j then none else Connections.lookup j serving.connnections))
unfolding pack_response to_string lookup equal add_route no_routes routes_of RadixTree.get
    RadixTree.get_node RadixTree.set RadixTree.set_node get_common_string_length flatten pack
    pack_path_param pack_heads methon_to_str http_version_to_str question new_http_server new_server
    set_message_callback
http_run-pieces_example =
    http_run-pieces flags 64 post_only whole whole-IsSendable 3 (omega arith) refl refl
      (omega arith) (leaf (codes "/buy") (some buy)) buy refl refl peer_name (pos 0) accepted
      accepted first_piece pieces peer serving nothing (omega arith) (ground arith) serving-Serves
      refl refl tt refl refl
