-- ===== src/SocketAddr.antt =====
-- uv/SocketAddr.cpp: an address, its text, and the choice between IPv4 and IPv6. The conversions of
-- addresses are libuv's and the system's, and are parameters.
pub mod Text
mod Tests
use uv_cpp.Prelude.{ℕ, ◌<◌, ◌^◌, Bytes, List, [], ◌∷◌, ◌++◌, Option, none, some, ◌⊎◌, inl, inr}
use uv_cpp.Http.Number.{pos, to_string}

pub data Ipv : Type 0 where
  ipv4 ipv6 : Ipv

-- `ip4_addr` and `ip6_addr` are `uv_ip4_addr` and `uv_ip6_addr`; `ntoa` is `inet_ntoa`, `ntop` `inet_ntop`
-- for AF_INET6, and `port4` and `port6` are the ports, of type uint16_t, in the byte order of the host.
pub record Inet : Type 1 where
  pub SockaddrIn : Type 0
  pub SockaddrIn6 : Type 0
  pub ip4_addr : Bytes → ℕ → SockaddrIn
  pub ip6_addr : Bytes → ℕ → SockaddrIn6
  pub ntoa : SockaddrIn → Bytes
  pub ntop : SockaddrIn6 → Bytes
  pub port4 : SockaddrIn → ℕ
  pub port6 : SockaddrIn6 → ℕ
  pub port4_small : (a : SockaddrIn) → port4 a < 2 ^ 16
  pub port6_small : (a : SockaddrIn6) → port6 a < 2 ^ 16

-- The member of the other kind is not written to.
pub record SocketAddr (I : Inet) : Type 0 where
  pub ip : Bytes
  pub port : ℕ
  pub ipv : Ipv
  pub addr4 : Option I.SockaddrIn
  pub addr6 : Option I.SockaddrIn6

module _ (I : Inet) where
  -- A `sockaddr`, of one kind or the other.
  abbrev pub Sockaddr : Type 0
  Sockaddr = I.SockaddrIn ⊎ I.SockaddrIn6

  pub new_address : Bytes → ℕ → Ipv → SocketAddr I
  new_address ip port ipv4 = record {
    ip = ip;
    port = port;
    ipv = ipv4;
    addr4 = some (I.ip4_addr ip port);
    addr6 = none;
  }
  new_address ip port ipv6 = record {
    ip = ip;
    port = port;
    ipv = ipv6;
    addr4 = none;
    addr6 = some (I.ip6_addr ip port);
  }

  -- `none` where the `sockaddr` is of the other kind.
  pub get_ip_and_port : Sockaddr → Ipv → Option (Bytes × ℕ)
  get_ip_and_port (inl a) ipv4 = some (I.ntoa a, I.port4 a)
  get_ip_and_port (inr a) ipv6 = some (I.ntop a, I.port6 a)
  get_ip_and_port _ _ = none

  pub from_sockaddr : Sockaddr → Ipv → Option (SocketAddr I)
  unfolding get_ip_and_port
  from_sockaddr (inl a) ipv4 =
      some (record { ip = I.ntoa a; port = I.port4 a; ipv = ipv4; addr4 = some a; addr6 = none })
  from_sockaddr (inr a) ipv6 =
      some (record { ip = I.ntop a; port = I.port6 a; ipv = ipv6; addr4 = none; addr6 = some a })
  from_sockaddr _ _ = none

  pub addr : SocketAddr I → Option Sockaddr
  addr a = elim a.ipv [
    | ipv4 ↦ elim a.addr4 [ none ↦ none | some x ↦ some (inl x) ]
    | ipv6 ↦ elim a.addr6 [ none ↦ none | some x ↦ some (inr x) ]
  ]

  pub to_str : SocketAddr I → Bytes
  to_str a = a.ip ++ b':' ∷ to_string (pos a.port)

  -- The argument is what `uv_tcp_getpeername` gives.
  pub addr_to_str : Sockaddr → Ipv → Option Bytes
  unfolding get_ip_and_port
  addr_to_str peer ipv = elim (get_ip_and_port peer ipv) [
    | none ↦ none
    | some (ip, port) ↦ some (ip ++ b':' ∷ to_string (pos port))
  ]
