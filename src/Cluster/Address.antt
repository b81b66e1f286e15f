-- ===== src/Cluster/Address.antt =====
-- `std::net::SocketAddr`, and its text form as the cluster protocol sends it.
use head_end_system_tpp.Prelude.{ℕ, ◌<◌, ◌^◌, ◌≡◌, true, Option, some, List, length}
use head_end_system_tpp.Wire.Utf8.{is_utf8}

pub data IpAddr : Type 0 where
  v4 : ℕ → IpAddr
  v6 : ℕ → IpAddr

-- A V6 address has a flow label and a scope behind its port.
pub data SocketAddr : Type 0 where
  v4 : ℕ → ℕ → SocketAddr
  v6 : ℕ → ℕ → ℕ → ℕ → SocketAddr

unfoldable pub port : SocketAddr → ℕ
port (SocketAddr.v4 ip p) = p
port (SocketAddr.v6 ip p flow scope) = p

unfoldable pub ip : SocketAddr → IpAddr
ip (SocketAddr.v4 a p) = IpAddr.v4 a
ip (SocketAddr.v6 a p flow scope) = IpAddr.v6 a

-- `SocketAddr::new`.
unfoldable pub socket_addr : IpAddr → ℕ → SocketAddr
socket_addr (IpAddr.v4 a) p = SocketAddr.v4 a p
socket_addr (IpAddr.v6 a) p = SocketAddr.v6 a p 0 0

-- `to_string` and `parse` of an address.
pub record AddrText : Type 0 where
  pub to_string : SocketAddr → List ℕ
  pub parse : List ℕ → Option SocketAddr

-- A `String` that a 16-bit length prefix can announce.
pub record IsText (s : List ℕ) : Type 0 where
  pub utf8 : is_utf8 s ≡ true
  pub short : length s < 2 ^ 16

-- An address whose text form names it. (A V6 address with a flow label prints without it.)
pub record IsPrintable (text : AddrText) (a : SocketAddr) : Type 0 where
  pub parses : text.parse (text.to_string a) ≡ some a
  pub printed : IsText (text.to_string a)
