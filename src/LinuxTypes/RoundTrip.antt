-- ===== src/LinuxTypes/RoundTrip.antt =====
-- Reading a structure of src/netlink/linux_types.rs gives back what was written, whatever follows.
use addrsyncd.Base.{ℕ, ◌^◌, ◌<◌, ◌≡◌, refl, List, ◌++◌, arith, length}
use addrsyncd.Base.Bytes.{le_bytes, le_value}
use addrsyncd.LinuxTypes.{
  RtMsg, NlmsgHdr, IfAddrMsg, rtmsg_bytes, read_rtmsg, nlmsghdr_bytes, read_nlmsghdr,
  ifaddrmsg_bytes, read_ifaddrmsg,
}

abbrev pub IsHdr : NlmsgHdr → Type 0
IsHdr h =
    (h.nlmsg_len < 2 ^ 32)
    × (h.nlmsg_type < 2 ^ 16)
    × (h.nlmsg_flags < 2 ^ 16)
    × (h.nlmsg_seq < 2 ^ 32)
    × (h.nlmsg_pid < 2 ^ 32)

pub read_nlmsghdr-nlmsghdr_bytes :
    (h : NlmsgHdr) (rest : List ℕ) → IsHdr h → read_nlmsghdr (nlmsghdr_bytes h ++ rest) ≡ h
unfolding read_nlmsghdr nlmsghdr_bytes le_bytes le_value
read_nlmsghdr-nlmsghdr_bytes h rest v = ground arith

pub read_rtmsg-rtmsg_bytes :
    (r : RtMsg) (rest : List ℕ) → r.rtm_flags < 2 ^ 32 → read_rtmsg (rtmsg_bytes r ++ rest) ≡ r
unfolding read_rtmsg rtmsg_bytes le_bytes le_value
read_rtmsg-rtmsg_bytes r rest v = ground arith

pub read_ifaddrmsg-ifaddrmsg_bytes :
    (r : IfAddrMsg) (rest : List ℕ)
    → r.ifa_index < 2 ^ 32
    → read_ifaddrmsg (ifaddrmsg_bytes r ++ rest) ≡ r
unfolding read_ifaddrmsg ifaddrmsg_bytes le_bytes le_value
read_ifaddrmsg-ifaddrmsg_bytes r rest v = ground arith

pub length-nlmsghdr_bytes : (h : NlmsgHdr) → length (nlmsghdr_bytes h) ≡ 16
unfolding nlmsghdr_bytes le_bytes
length-nlmsghdr_bytes h = refl

pub length-rtmsg_bytes : (r : RtMsg) → length (rtmsg_bytes r) ≡ 12
unfolding rtmsg_bytes le_bytes
length-rtmsg_bytes r = refl
