-- ===== src/Address.antt =====
-- Network/src/InetAddress.cpp and the functions of Network/src/SocketOps.cpp and SocketOps.h that it
-- calls: the address of a socket, its text and the order of its bytes, on a host that keeps the
-- lowest byte first. inet_pton(3), inet_ntop(3) and the digits of `%u` are parameters; a failed
-- assertion is `none`.
pub mod RoundTrip
mod Tests
use network_structure.Prelude.{
  ℕ, ◌+◌, ◌-◌, ◌*◌, ◌/◌, ◌%◌, Option, none, some, List, ◌∷◌, ◌++◌, ltb, leb, ◌==◌, if◌then◌else◌,
  ◌>>=◌, length, take,
}

-- `struct sockaddr_in`; AF_INET is 2, and `port` and `address` are as they stand in memory.
pub record SockaddrIn : Type 0 where
  pub family : ℕ
  pub port : ℕ
  pub address : ℕ

abbrev pub af_inet : ℕ
af_inet = 2

-- `bzero(&addr_, sizeof addr_)`
abbrev pub zeroed : SockaddrIn
zeroed = record { family = 0; port = 0; address = 0 }

-- `hostToNetwork16`, and `networkToHost16`, which is the same exchange.
unfoldable pub host_to_network16 : ℕ → ℕ
host_to_network16 x = x % 256 * 256 + x / 256 % 256

unfoldable pub network_to_host16 : ℕ → ℕ
network_to_host16 x = x % 256 * 256 + x / 256 % 256

-- The calls of the C library: the address that a text denotes, and the text of an address.
pub record AddressText : Type 0 where
  pub pton : List ℕ → Option ℕ
  pub ntop : ℕ → List ℕ
  pub digits : ℕ → List ℕ

module _ (lib : AddressText) where
  -- `fromIpPort`: a text that is no address leaves the address that was there.
  unfoldable pub from_ip_port : List ℕ → ℕ → SockaddrIn → SockaddrIn
  unfolding host_to_network16
  from_ip_port ip port a = record {
    family = af_inet;
    port = host_to_network16 port;
    address = elim (lib.pton ip) [ none ↦ a.address | some x ↦ x ];
  }

  -- `toIp`, into a buffer of `size` characters; `old` is the text that the buffer has before.
  unfoldable pub to_ip : ℕ → List ℕ → SockaddrIn → Option (List ℕ)
  to_ip size old a =
      if a.family == af_inet
      then (if leb 16 size then some (lib.ntop a.address) else none)
      else some old

  -- `sockets::toIpPort`: snprintf(3) writes as many characters as there is room for.
  unfoldable pub sockets_to_ip_port : ℕ → List ℕ → SockaddrIn → Option (List ℕ)
  unfolding to_ip network_to_host16
  sockets_to_ip_port size old a = do
    text ← to_ip size old a
    (if ltb (length text) size
        then some
            (text ++ take (size - length text - 1) (58 ∷ lib.digits (network_to_host16 a.port)))
        else none)

  -- `InetAddress::InetAddress(const char *ip, uint16_t port)`
  unfoldable pub inet_address : List ℕ → ℕ → SockaddrIn
  unfolding from_ip_port
  inet_address ip port = from_ip_port ip port zeroed

  -- `InetAddress::InetAddress(string ip, uint16_t port)` makes another object and leaves the memory
  -- of its own as it is.
  unfoldable pub inet_address_of_string : List ℕ → ℕ → SockaddrIn → SockaddrIn
  unfolding inet_address
  inet_address_of_string ip port memory = let other = inet_address ip port in memory

  -- `InetAddress::toIpPort`, with the text that the local array holds before.
  unfoldable pub to_ip_port : List ℕ → SockaddrIn → Option (List ℕ)
  unfolding sockets_to_ip_port
  to_ip_port old a = sockets_to_ip_port 32 old a

-- `InetAddress::InetAddress(uint16_t port)`, where INADDR_ANY is 0.
unfoldable pub inet_address_any : ℕ → SockaddrIn
unfolding host_to_network16
inet_address_any port = record zeroed { family = af_inet; port = host_to_network16 port }
