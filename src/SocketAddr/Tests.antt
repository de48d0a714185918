-- ===== src/SocketAddr/Tests.antt =====
-- Addresses that are a text and a port.
use uv_cpp.Prelude.{ℕ, ◌%◌, ◌^◌, ◌≡◌, refl, Bytes, ◌++◌, ◌∷◌, inl, codes, some, arith}
use uv_cpp.Http.Number.{pos, to_string}
use uv_cpp.SocketAddr.{Inet, ipv4, addr_to_str, get_ip_and_port}
use uv_cpp.SocketAddr.Text.{addr_to_str_injective}

abbrev inet : Inet
inet = record {
  SockaddrIn = Bytes × ℕ;
  SockaddrIn6 = Bytes × ℕ;
  ip4_addr = λ ip port. (ip, port);
  ip6_addr = λ ip port. (ip, port);
  ntoa = λ a. a.0;
  ntop = λ a. a.0;
  port4 = λ a. a.1 % 2 ^ 16;
  port6 = λ a. a.1 % 2 ^ 16;
  port4_small = λ a. omega arith;
  port6_small = λ a. omega arith;
}

abbrev text : Bytes
text = codes "10.0.0.1" ++ b':' ∷ to_string (pos 80)

eighty : addr_to_str inet (inl (codes "10.0.0.1", 80)) ipv4 ≡ some text
unfolding addr_to_str get_ip_and_port
eighty = refl

wrapped : addr_to_str inet (inl (codes "10.0.0.1", 65616)) ipv4 ≡ some text
unfolding addr_to_str get_ip_and_port
wrapped = refl

addr_to_str_injective_example :
    get_ip_and_port inet (inl (codes "10.0.0.1", 80)) ipv4
    ≡ get_ip_and_port inet (inl (codes "10.0.0.1", 65616)) ipv4
addr_to_str_injective_example =
    addr_to_str_injective inet (inl (codes "10.0.0.1", 80)) (inl (codes "10.0.0.1", 65616)) ipv4
      text eighty wrapped
