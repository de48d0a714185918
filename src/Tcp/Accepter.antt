-- ===== src/Tcp/Accepter.antt =====
-- uv/TcpAccepter.cpp: the listening socket of a server. What libuv returns is an argument.
use uv_cpp.Prelude.{
  Bool, true, false, List, [], ◌∷◌, ◌++◌, if◌then◌else◌, Option, none, some, ◌==◌, ℕ,
}
use uv_cpp.Http.Number.{ℤ, pos, negsuc}
use uv_cpp.Uv.{Handles}

-- What the accepter does: calls of libuv, of the log and of its functions.
pub data Action (H : Type 0) : Type 0 where
  uv_read_stop uv_close : Action H
  log_error : ℤ → Action H
  close_client : H → Action H
  new_connection : H → Action H
  close_completed : ℕ → Action H

pub record TcpAccepter (H : Type 0) : Type 0 where
  pub listened : Bool
  pub tcp_no_delay : Bool
  pub server : H
  pub callback : Bool
  pub on_close_complet_callback : Option ℕ

module _ {H : Type 0} where
  pub new_accepter : H → Bool → TcpAccepter H
  new_accepter h tcp_no_delay = record {
    listened = false;
    tcp_no_delay = tcp_no_delay;
    server = h;
    callback = false;
    on_close_complet_callback = none;
  }

  pub set_new_connectinon_callback : TcpAccepter H → TcpAccepter H
  set_new_connectinon_callback a = record a { callback = true }

  pub on_new_connect : TcpAccepter H → H → List (Action H)
  on_new_connect a client = if a.callback then new_connection client ∷ [] else []

  pub on_close_comlet : TcpAccepter H → List (Action H)
  on_close_comlet a = elim a.on_close_complet_callback [
    | none ↦ []
    | some k ↦ close_completed k ∷ []
  ]

  -- `rst` is what `uv_listen` returns.
  pub listen : TcpAccepter H → ℤ → ℤ × TcpAccepter H
  listen a (pos n) = (pos n, if n == 0 then record a { listened = true } else a)
  listen a (negsuc n) = (negsuc n, a)

  -- The function that listen gives to `uv_listen`, called with a status; `accepted` is what `uv_accept`
  -- returns, and `client` the handle that was made.
  pub on_connection : TcpAccepter H → ℤ → ℤ → H → List (Action H)
  unfolding on_new_connect
  on_connection a (negsuc n) accepted client = log_error (negsuc n) ∷ []
  on_connection a (pos n) (negsuc m) client = close_client client ∷ []
  on_connection a (pos n) (pos m) client =
      if m == 0 then on_new_connect a client else close_client client ∷ []

module _ (uv : Handles) where
  pub close : TcpAccepter uv.Handle → ℕ → List (Action uv.Handle) × TcpAccepter uv.Handle
  unfolding on_close_comlet
  close a callback =
      let active = uv.is_active a.server in
      let h = if active then uv.stop a.server else a.server in
      let stops = if active then uv_read_stop ∷ [] else [] in
      let a' = record a { server = h; on_close_complet_callback = some callback } in
      if uv.is_closing h
      then (stops ++ on_close_comlet a', a')
      else (stops ++ uv_close ∷ [], record a' { server = uv.close h })
