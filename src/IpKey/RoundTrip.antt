-- ===== src/IpKey/RoundTrip.antt =====
-- An address and its key (src/ip_key.rs) determine each other.
use addrsyncd.Base.{◌≡◌, ap}
use addrsyncd.Base.Bytes.{
  be_value-be_bytes, be_bytes-be_value, be_value-lt, length-be_bytes, be_bytes-IsByte,
}
use addrsyncd.IpKey.{IpAddr, IpKey, IsIp, IsKey, from_ip, into_ip}

-- The key of a well-formed address gives the address back.
pub into_ip-from_ip : (a : IpAddr) → IsIp a → into_ip (from_ip a) ≡ a
unfolding into_ip from_ip
into_ip-from_ip (IpAddr.v4 o) h = ap IpAddr.v4 (rw h.0 at (be_bytes-be_value o h.1))
into_ip-from_ip (IpAddr.v6 o) h = ap IpAddr.v6 (rw h.0 at (be_bytes-be_value o h.1))

-- The address of a key in the range of its width gives the key back.
pub from_ip-into_ip : (k : IpKey) → IsKey k → from_ip (into_ip k) ≡ k
unfolding into_ip from_ip
from_ip-into_ip (IpKey.v4 n) h = ap IpKey.v4 (be_value-be_bytes 4 n h)
from_ip-into_ip (IpKey.v6 n) h = ap IpKey.v6 (be_value-be_bytes 16 n h)

pub from_ip-IsKey : (a : IpAddr) → IsIp a → IsKey (from_ip a)
unfolding from_ip
from_ip-IsKey (IpAddr.v4 o) h = rw h.0 at (be_value-lt o h.1)
from_ip-IsKey (IpAddr.v6 o) h = rw h.0 at (be_value-lt o h.1)

pub into_ip-IsIp : (k : IpKey) → IsKey k → IsIp (into_ip k)
unfolding into_ip
into_ip-IsIp (IpKey.v4 n) h = (length-be_bytes 4 n, be_bytes-IsByte 4 n)
into_ip-IsIp (IpKey.v6 n) h = (length-be_bytes 16 n, be_bytes-IsByte 16 n)
