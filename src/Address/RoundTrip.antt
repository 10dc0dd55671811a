-- ===== src/Address/RoundTrip.antt =====
-- The text of an address of Network/src/InetAddress.cpp gives back what it was made of.
use network_structure.Prelude.{
  ℕ, ◌-◌, ◌^◌, ◌≤◌, ◌<◌, ◌≡◌, refl, ◌∙◌, true, some, List, ◌∷◌, ◌++◌, arith, ltb, length,
  length-append, take_all,
}
use network_structure.Address.{
  SockaddrIn, from_ip_port, to_ip, inet_address_any, sockets_to_ip_port, inet_address, to_ip_port,
  AddressText, host_to_network16, network_to_host16,
}
use network_structure.Reactor.MyServer.Registry.Text.{PrintsIds}

-- What the C library promises: the text of an address has at most 15 characters and that of a port
-- at most 5, and the text of an address is read as that address.
pub record Prints (lib : AddressText) : Type 0 where
  pub ntop_short : (a : ℕ) → length (lib.ntop a) ≤ 15
  pub digits_short : (x : ℕ) → x < 65536 → length (lib.digits x) ≤ 5
  pub pton-ntop : (a : ℕ) → a < 2 ^ 32 → lib.pton (lib.ntop a) ≡ some a

-- Both exchanges of the bytes of a port cancel.
pub network_to_host16-host_to_network16 :
    (x : ℕ) → x < 65536 → network_to_host16 (host_to_network16 x) ≡ x
unfolding network_to_host16 host_to_network16
network_to_host16-host_to_network16 x h = ground (arith, h)

pub host_to_network16_bounded : (x : ℕ) → host_to_network16 x < 65536
unfolding host_to_network16
host_to_network16_bounded x = omega arith

module _ (lib : AddressText) (p : Prints lib) (old : List ℕ) where
  -- `toIpPort` of an IPv4 address is whole: neither text is cut.
  to_ip_port-whole :
      (a : SockaddrIn)
      → a.family ≡ 2
      → network_to_host16 a.port < 65536
      → to_ip_port lib old a
        ≡ some (lib.ntop a.address ++ 58 ∷ lib.digits (network_to_host16 a.port))
  unfolding to_ip_port sockets_to_ip_port to_ip
  to_ip_port-whole a h l =
      let text = lib.ntop a.address in
      let port = 58 ∷ lib.digits (network_to_host16 a.port) in
      let short = p.ntop_short a.address in
      let few = p.digits_short (network_to_host16 a.port) l in
      let room : length port ≤ 32 - length text - 1 = omega (arith, short, few) in
      let cut = take_all (32 - length text - 1) port room in
      let t : ltb (length text) 32 ≡ true = ground (arith, short) in rw (h, t, cut) refl

  -- The text of an `InetAddress` made of the text of an IPv4 address and a port is that text with a
  -- colon and the port, and it has at most 21 characters; that of one made of a port alone is the
  -- text of address 0 with the port.
  pub to_ip_port-inet_address :
      (a port : ℕ)
      → a < 2 ^ 32
      → port < 65536
      → (to_ip_port lib old (inet_address lib (lib.ntop a) port)
          ≡ some (lib.ntop a ++ 58 ∷ lib.digits port))
        × (length (lib.ntop a ++ 58 ∷ lib.digits port) ≤ 21)
        × (to_ip_port lib old (inet_address_any port) ≡ some (lib.ntop 0 ++ 58 ∷ lib.digits port))
  unfolding inet_address inet_address_any from_ip_port
  to_ip_port-inet_address a port h l =
      let back = network_to_host16-host_to_network16 port l in
      let bound : network_to_host16 (host_to_network16 port) < 65536 = omega (arith, back, l) in
      let there = p.pton-ntop a h in
      (
        to_ip_port-whole (inet_address lib (lib.ntop a) port) refl bound ∙ rw (there, back) refl,
        omega (
          arith,
          length-append (lib.ntop a) (58 ∷ lib.digits port),
          p.ntop_short a,
          p.digits_short port l,
        ),
        to_ip_port-whole (inet_address_any port) refl bound ∙ rw back refl,
      )

  -- The names of the connections of a server that listens at such an address fit the buffer of
  -- `newConnection`, for all ids of at most 10 digits that are printed differently.
  pub hostport-PrintsIds :
      (a port limit : ℕ) (ids : ℕ → List ℕ)
      → port < 65536
      → ((i : ℕ) → i < limit → length (ids i) ≤ 10)
      → ((i j : ℕ) → i < limit → j < limit → ids i ≡ ids j → i ≡ j)
      → PrintsIds ids (lib.ntop a ++ 58 ∷ lib.digits port) limit
  hostport-PrintsIds a port limit ids l short differ = record {
    differ = differ;
    fits = λ i m. omega (
      arith,
      length-append (lib.ntop a) (58 ∷ lib.digits port),
      p.ntop_short a,
      p.digits_short port l,
      short i m,
    );
  }
