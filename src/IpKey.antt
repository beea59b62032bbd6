-- ===== src/IpKey.antt =====
-- src/ip_key.rs, with the `IpAddr` of the standard library as its octets.
pub mod Order
pub mod RoundTrip
use addrsyncd.Base.{ℕ, ◌^◌, ◌<◌, ◌≡◌, Bool, true, false, List, ltb, ◌==◌, length, All}
use addrsyncd.Base.Bytes.{IsByte, be_bytes, be_value}

-- `std::net::IpAddr`: four or sixteen octets, in network order.
pub data IpAddr : Type 0 where
  v4 v6 : List ℕ → IpAddr

abbrev pub IsIp : IpAddr → Type 0
IsIp (IpAddr.v4 octets) = (length octets ≡ 4) × All IsByte octets
IsIp (IpAddr.v6 octets) = (length octets ≡ 16) × All IsByte octets

pub data IpKey : Type 0 where
  v4 v6 : ℕ → IpKey

abbrev pub IsKey : IpKey → Type 0
IsKey (IpKey.v4 raw) = raw < 256 ^ 4
IsKey (IpKey.v6 raw) = raw < 256 ^ 16

unfoldable pub from_ip : IpAddr → IpKey
unfolding be_value
from_ip (IpAddr.v4 octets) = IpKey.v4 (be_value octets)
from_ip (IpAddr.v6 octets) = IpKey.v6 (be_value octets)

unfoldable pub into_ip : IpKey → IpAddr
unfolding be_bytes
into_ip (IpKey.v4 raw) = IpAddr.v4 (be_bytes 4 raw)
into_ip (IpKey.v6 raw) = IpAddr.v6 (be_bytes 16 raw)

-- The derived `PartialEq` and `Ord`: every `V4` is below every `V6`.
unfoldable pub key_eq : IpKey → IpKey → Bool
key_eq (IpKey.v4 a) (IpKey.v4 b) = a == b
key_eq (IpKey.v4 a) (IpKey.v6 b) = false
key_eq (IpKey.v6 a) (IpKey.v4 b) = false
key_eq (IpKey.v6 a) (IpKey.v6 b) = a == b

unfoldable pub key_lt : IpKey → IpKey → Bool
key_lt (IpKey.v4 a) (IpKey.v4 b) = ltb a b
key_lt (IpKey.v4 a) (IpKey.v6 b) = true
key_lt (IpKey.v6 a) (IpKey.v4 b) = false
key_lt (IpKey.v6 a) (IpKey.v6 b) = ltb a b
