-- ===== src/Uv.antt =====
-- What the code calls of libuv for a handle of any kind (uv/TcpConnection.cpp, uv/TcpAccepter.cpp,
-- uv/Timer.cpp, uv/Udp.cpp, uv/Signal.cpp and uv/Idle.cpp). libuv is a parameter: the laws are what its
-- documentation says of `uv_close` and `uv_is_closing`.
pub mod Flags
use uv_cpp.Prelude.{Bool, true, ◌≡◌}

-- `stop` is `uv_read_stop`, `uv_timer_stop`, `uv_udp_recv_stop`, `uv_signal_stop` or `uv_idle_stop`.
pub record Handles : Type 1 where
  pub Handle : Type 0
  pub is_active : Handle → Bool
  pub is_closing : Handle → Bool
  pub stop : Handle → Handle
  pub close : Handle → Handle
  pub is_closing-stop : (h : Handle) → is_closing (stop h) ≡ is_closing h
  pub is_closing-close : (h : Handle) → is_closing (close h) ≡ true
