-- ===== src/Udp.antt =====
-- uv/Udp.cpp: a UDP socket. What libuv returns is an argument, and an address is a `sockaddr`.
pub mod Receive
use uv_cpp.Prelude.{ℕ, Bytes, List, [], ◌∷◌, ◌++◌, ◌==◌, if◌then◌else◌, Option, none, some}
use uv_cpp.Http.Number.{ℤ, pos, negsuc}
use uv_cpp.Uv.{Handles}
use uv_cpp.SocketAddr.{Inet, Ipv, Sockaddr, SocketAddr, from_sockaddr}

-- `new_request` and `delete_request` are the memory of a send, `delete_buffer` is that of the bytes read.
pub data Action (I : Inet) : Type 0 where
  uv_udp_bind uv_udp_recv_start uv_udp_recv_stop uv_close : Action I
  new_request delete_request delete_buffer : Action I
  uv_udp_send : Bytes → Action I
  log_error : ℤ → Action I
  message : ℕ → SocketAddr I → Bytes → Action I
  closed : ℕ → Action I

pub record Udp (H : Type 0) : Type 0 where
  pub handle : H
  pub ipv : Ipv
  pub on_message_callback : Option ℕ
  pub on_close : Option ℕ

-- The function that send gives to `uv_udp_send`.
pub sent : {I : Inet} → ℤ → List (Action I)
sent (pos n) = if n == 0 then delete_request ∷ [] else log_error (pos n) ∷ delete_request ∷ []
sent (negsuc n) = log_error (negsuc n) ∷ delete_request ∷ []

module _ {H : Type 0} (I : Inet) where
  pub set_message_callback : Udp H → Option ℕ → Udp H
  set_message_callback u k = record u { on_message_callback = k }

  -- `bound` and `started` are what `uv_udp_bind` and `uv_udp_recv_start` return.
  pub bind_and_read : Udp H → Ipv → ℤ → ℤ → ℤ × List (Action I) × Udp H
  bind_and_read u ipv (negsuc n) started = (negsuc n, uv_udp_bind ∷ [], record u { ipv = ipv })
  bind_and_read u ipv (pos n) started =
      if n == 0
      then (started, uv_udp_bind ∷ uv_udp_recv_start ∷ [], record u { ipv = ipv })
      else (pos n, uv_udp_bind ∷ [], record u { ipv = ipv })

  -- `sent` is what `uv_udp_send` returns.
  pub send : Udp H → Bytes → ℤ → ℤ × List (Action I)
  send u buf sent = (sent, new_request ∷ uv_udp_send buf ∷ [])

  pub on_close_completed : Udp H → List (Action I)
  on_close_completed u = elim u.on_close [ none ↦ [] | some k ↦ closed k ∷ [] ]

  -- `none` where the address is of another kind than the socket's.
  unfoldable pub on_message : Udp H → Sockaddr I → Bytes → Option (List (Action I))
  on_message u from bytes = elim u.on_message_callback [
    | none ↦ some []
    | some k ↦ elim (from_sockaddr I from u.ipv) [
      | none ↦ none
      | some a ↦ some (message k a bytes ∷ [])
    ]
  ]

  pub on_message_receive : Udp H → ℤ → Sockaddr I → Bytes → Option (List (Action I))
  unfolding on_message
  on_message_receive u (negsuc n) from buf = some (log_error (negsuc n) ∷ delete_buffer ∷ [])
  on_message_receive u (pos n) from buf =
      if n == 0
      then some (delete_buffer ∷ [])
      else elim (on_message u from buf) [ none ↦ none | some xs ↦ some (xs ++ delete_buffer ∷ []) ]

module _ (I : Inet) (uv : Handles) where
  pub close : Udp uv.Handle → Option ℕ → List (Action I) × Udp uv.Handle
  unfolding on_close_completed
  close u callback =
      let active = uv.is_active u.handle in
      let h = if active then uv.stop u.handle else u.handle in
      let stops = if active then uv_udp_recv_stop ∷ [] else [] in
      let u' = record u { handle = h; on_close = callback } in
      if uv.is_closing h
      then (stops ++ on_close_completed I u', u')
      else (stops ++ uv_close ∷ [], record u' { handle = uv.close h })
