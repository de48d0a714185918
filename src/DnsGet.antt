-- ===== src/DnsGet.antt =====
-- uv/DnsGet.cpp: the address of a host's name. The result of `uv_getaddrinfo` is a protocol and an address, and
-- the conversions to text are libuv's, which write into the text and may leave it.
use uv_cpp.Prelude.{ℕ, Bytes, List, [], ◌∷◌, ◌++◌, replicate, Option, none, some}
use uv_cpp.Http.Number.{ℤ, pos, negsuc}

pub data Protocol : Type 0 where
  tcp ip ipv6 other : Protocol

pub data Action : Type 0 where
  resolved : ℕ → ℤ → Bytes → Action
  uv_freeaddrinfo : Action

pub record DnsGet : Type 0 where
  pub callback : Option ℕ

pub new_dns_get : DnsGet
new_dns_get = record { callback = none }

-- GetIP: what `uv_getaddrinfo` is called with.
pub get_ip : Bytes → Bytes → Bytes × Bytes
get_ip hostname service = (hostname, service)

pub set_on_dns_callback : DnsGet → ℕ → DnsGet
set_on_dns_callback d k = record d { callback = some k }

-- `ip4_name` and `ip6_name` stand for `uv_ip4_name` and `uv_ip6_name` on a text of 32 bytes.
module _ {A : Type 0} (ip4_name ip6_name : A → Bytes → Bytes) where
  pub name_of : Protocol → A → Bytes
  name_of tcp a = ip4_name a (replicate 32 0)
  name_of ip a = ip4_name a (replicate 32 0)
  name_of ipv6 a = ip6_name a (replicate 32 0)
  name_of other a = replicate 32 0

  -- There is no result when the status is negative.
  pub on_callback : DnsGet → ℤ → Protocol → A → List Action
  unfolding name_of
  on_callback d status protocol a = elim d.callback [
    | none ↦ []
    | some k ↦ elim status [
      | negsuc n ↦ resolved k (negsuc n) [] ∷ []
      | pos n ↦ resolved k (pos n) (name_of protocol a) ∷ []
    ]
  ]

  pub on_dns_get : DnsGet → ℤ → Protocol → A → List Action
  unfolding on_callback
  on_dns_get d status protocol a = on_callback d status protocol a ++ uv_freeaddrinfo ∷ []
