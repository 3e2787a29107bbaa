-- ===== src/Net/Address.antt =====
-- net/SocketsOps.h, net/CInetAddress.h, net/CInetAddress.cpp and the conversions of net/SocketsOps.cpp:
-- numbers in the network's byte order, and addresses.
mod Order
mod Print
mod Tests
use neconet.Prelude.{ℕ, zero, suc, ◌+◌, ◌*◌, ◌/◌, ◌%◌, ◌^◌, List, [], ◌∷◌, ◌++◌, Option, none, some}
use neconet.Base.Text.{Text, decimal, snprintf}
use mathlib.Core.List.{reverse}

-- The `k` bytes of a number on the little-endian target, and the number that bytes stand for there.
abbrev pub bytes : ℕ → ℕ → List ℕ
bytes zero n = []
bytes (suc k) n = n % 256 ∷ bytes k (n / 256)

abbrev pub number : List ℕ → ℕ
number [] = 0
number (b ∷ t) = b + 256 * number t

-- The network's order is the other way round, so both directions reverse the bytes.
unfoldable pub swapped : ℕ → ℕ → ℕ
swapped k n = number (reverse (bytes k n))

abbrev pub host_to_network16 : ℕ → ℕ
host_to_network16 n = swapped 2 n

abbrev pub host_to_network32 : ℕ → ℕ
host_to_network32 n = swapped 4 n

abbrev pub host_to_network64 : ℕ → ℕ
host_to_network64 n = swapped 8 n

abbrev pub network_to_host16 : ℕ → ℕ
network_to_host16 n = swapped 2 n

abbrev pub network_to_host32 : ℕ → ℕ
network_to_host32 n = swapped 4 n

abbrev pub network_to_host64 : ℕ → ℕ
network_to_host64 n = swapped 8 n

-- `struct sockaddr_in`; the port and the address are in the network's order.
pub record SockAddr : Type 0 where
  pub family : ℕ
  pub port : ℕ
  pub addr : ℕ

abbrev pub af_inet : ℕ
af_inet = 2

-- `bzero`.
abbrev pub zeroed : SockAddr
zeroed = record { family = 0; port = 0; addr = 0 }

-- The constructor with a port. Its parameter has 64 bits, and the call takes the lower 16.
unfoldable pub any_address : ℕ → SockAddr
any_address port = record {
  family = af_inet;
  port = host_to_network16 (port % 2 ^ 16);
  addr = host_to_network32 0;
}

-- `inet_pton` gives an address in the network's order, or refuses the text; a refusal is only printed,
-- and the address stays as it was.
abbrev pub parsed : Option ℕ → ℕ → ℕ
parsed (some a) old = a
parsed none old = old

module _ (inet_pton : Text → Option ℕ) where
  unfoldable pub from_host_port : Text → ℕ → SockAddr → SockAddr
  from_host_port ip port a = record {
    family = af_inet;
    port = host_to_network16 port;
    addr = parsed (inet_pton ip) a.addr;
  }

  -- The constructor with an address and a port.
  unfoldable pub ip_address : Text → ℕ → SockAddr
  ip_address ip port = from_host_port ip (port % 2 ^ 16) zeroed

-- `inet_ntop` fills the buffer of 16 bytes, which any address fits.
module _ (inet_ntop : ℕ → Text) where
  -- `sockets::ToHostPort` into a buffer of `size` bytes.
  unfoldable pub write_host_port : ℕ → SockAddr → Text
  write_host_port size a =
      snprintf size (inet_ntop a.addr ++ (b':' ∷ decimal (network_to_host16 a.port)))

  abbrev pub to_host_port : SockAddr → Text
  to_host_port a = write_host_port 32 a
