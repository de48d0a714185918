-- ===== src/Http/Server.antt =====
-- uv/http/HttpServer.cpp: the routes of a server, one tree for each method, and what it does with the
-- bytes that come in on a connection. The connection's packet buffer fills the interface PacketBuffer;
-- a handler is what the user registers, `none` for a null one, and gives the response.
pub mod Serve
pub mod Pieces
pub mod Running
mod Tests
use uv_cpp.Prelude.{Bytes, codes, List, [], ◌∷◌, Option, none, some}
use uv_cpp.Buffer.Interface.{PacketBuffer}
use uv_cpp.Http.Common.{
  success, fail, error, Methon, get, post, head, put, delete, connect, options, trace, patch,
  invalid,
}
use uv_cpp.Http.Request.{Request, default_request, unpack_and_completed}
use uv_cpp.Http.Response.{Response, default_response, pack_response}
use uv_cpp.Http.RadixTree
use uv_cpp.Http.RadixTree.{Tree, empty, Answer, fault, missing, found}

abbrev pub Handler : Type 0
Handler = Option (Request → Response → Response)

-- `route_`: the array has a place for every method but `Invalid`.
pub record Routes : Type 0 where
  pub get_routes : Tree Handler
  pub post_routes : Tree Handler
  pub head_routes : Tree Handler
  pub put_routes : Tree Handler
  pub delete_routes : Tree Handler
  pub connect_routes : Tree Handler
  pub options_routes : Tree Handler
  pub trace_routes : Tree Handler
  pub patch_routes : Tree Handler

unfoldable pub no_routes : Routes
no_routes = record {
  get_routes = empty;
  post_routes = empty;
  head_routes = empty;
  put_routes = empty;
  delete_routes = empty;
  connect_routes = empty;
  options_routes = empty;
  trace_routes = empty;
  patch_routes = empty;
}

-- `Get`, `Post` and the others, by the method that names the member function.
unfoldable pub add_route : Methon → Bytes → Handler → Routes → Routes
add_route get path h r = record r { get_routes = RadixTree.set r.get_routes path h }
add_route post path h r = record r { post_routes = RadixTree.set r.post_routes path h }
add_route head path h r = record r { head_routes = RadixTree.set r.head_routes path h }
add_route put path h r = record r { put_routes = RadixTree.set r.put_routes path h }
add_route delete path h r = record r { delete_routes = RadixTree.set r.delete_routes path h }
add_route connect path h r = record r { connect_routes = RadixTree.set r.connect_routes path h }
add_route options path h r = record r { options_routes = RadixTree.set r.options_routes path h }
add_route trace path h r = record r { trace_routes = RadixTree.set r.trace_routes path h }
add_route patch path h r = record r { patch_routes = RadixTree.set r.patch_routes path h }
add_route invalid path h r = r

-- `route_[methon]`; the last place is out of range, which is `none`.
unfoldable pub routes_of : Routes → Methon → Option (Tree Handler)
routes_of r get = some r.get_routes
routes_of r post = some r.post_routes
routes_of r head = some r.head_routes
routes_of r put = some r.put_routes
routes_of r delete = some r.delete_routes
routes_of r connect = some r.connect_routes
routes_of r options = some r.options_routes
routes_of r trace = some r.trace_routes
routes_of r patch = some r.patch_routes
routes_of r invalid = none

-- A line of the log, or bytes for the connection, which is closed when they are written.
pub data Action : Type 0 where
  log_error : Bytes → Action
  write_and_close : Bytes → Action

-- What the handler is called with and what is written, for a request that is complete. `none` is
-- undefined behaviour: a null root, or a method out of range.
pub answer : Answer Handler → Request → Option (List Action)
answer fault req = none
answer missing req = some []
answer (found none) req = some []
answer (found (some h)) req = some (write_and_close (pack_response (h req default_response)) ∷ [])

pub dispatch : Routes → Request → Option (List Action)
unfolding routes_of answer
dispatch r req = elim (routes_of r req.methon) [
  | none ↦ none
  | some t ↦ answer (RadixTree.get t req.path) req
]

module _ (P : PacketBuffer) (routes : Routes) where
  open P use {Buffer, append, read_buffer_n, read_size, clear}

  -- With the buffer of the connection, `none` for a null one; the results of `append` and of
  -- `readBufferN` are not looked at.
  pub on_message : Option Buffer → Bytes → Option (List Action × Option Buffer)
  unfolding dispatch
  on_message none bytes = some (log_error (codes "http server need use data buffer.") ∷ [], none)
  on_message (some b) bytes =
      let held = (append b bytes).1 in
      let out = (read_buffer_n held [] (read_size held)).1 in
      let cleared = (clear held).1 in
      elim (unpack_and_completed default_request out) [
        | none ↦ none
        | some (rst, req) ↦ elim rst [
          | error ↦ some ([], some cleared)
          | fail ↦ some ([], some held)
          | success ↦ elim (dispatch routes req) [
            | none ↦ none
            | some actions ↦ some (actions, some cleared)
          ]
        ]
      ]
