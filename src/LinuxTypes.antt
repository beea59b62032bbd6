-- ===== src/LinuxTypes.antt =====
-- src/netlink/linux_types.rs: the `repr(C)` structures of netlink and their octets, with the
-- constants of the Linux interface that the code takes from libc.
pub mod RoundTrip
use addrsyncd.Base.{ℕ, List, [], ◌∷◌, ◌++◌, get_or, slice}
use addrsyncd.Base.Bytes.{le_bytes, le_value}

pub record RtMsg : Type 0 where
  pub rtm_family : ℕ
  pub rtm_dst_len : ℕ
  pub rtm_src_len : ℕ
  pub rtm_tos : ℕ
  pub rtm_table : ℕ
  pub rtm_protocol : ℕ
  pub rtm_scope : ℕ
  pub rtm_type : ℕ
  pub rtm_flags : ℕ

pub record IfAddrMsg : Type 0 where
  pub ifa_family : ℕ
  pub ifa_prefixlen : ℕ
  pub ifa_flags : ℕ
  pub ifa_scope : ℕ
  pub ifa_index : ℕ

-- `libc::nlmsghdr`
pub record NlmsgHdr : Type 0 where
  pub nlmsg_len : ℕ
  pub nlmsg_type : ℕ
  pub nlmsg_flags : ℕ
  pub nlmsg_seq : ℕ
  pub nlmsg_pid : ℕ

-- `size_of` of the three.
abbrev pub rtmsg_len : ℕ
rtmsg_len = 12

abbrev pub ifaddrmsg_len : ℕ
ifaddrmsg_len = 8

abbrev pub nlmsghdr_len : ℕ
nlmsghdr_len = 16

-- `ptr::write_unaligned` writes these octets, and `ptr::read_unaligned` reads them.
unfoldable pub rtmsg_bytes : RtMsg → List ℕ
rtmsg_bytes r =
    r.rtm_family
    ∷ r.rtm_dst_len
    ∷ r.rtm_src_len
    ∷ r.rtm_tos
    ∷ r.rtm_table
    ∷ r.rtm_protocol
    ∷ r.rtm_scope
    ∷ r.rtm_type
    ∷ le_bytes 4 r.rtm_flags

unfoldable pub read_rtmsg : List ℕ → RtMsg
read_rtmsg raw = record {
  rtm_family = get_or raw 0 0;
  rtm_dst_len = get_or raw 1 0;
  rtm_src_len = get_or raw 2 0;
  rtm_tos = get_or raw 3 0;
  rtm_table = get_or raw 4 0;
  rtm_protocol = get_or raw 5 0;
  rtm_scope = get_or raw 6 0;
  rtm_type = get_or raw 7 0;
  rtm_flags = le_value (slice 8 12 raw);
}

unfoldable pub ifaddrmsg_bytes : IfAddrMsg → List ℕ
ifaddrmsg_bytes r =
    r.ifa_family ∷ r.ifa_prefixlen ∷ r.ifa_flags ∷ r.ifa_scope ∷ le_bytes 4 r.ifa_index

unfoldable pub read_ifaddrmsg : List ℕ → IfAddrMsg
read_ifaddrmsg raw = record {
  ifa_family = get_or raw 0 0;
  ifa_prefixlen = get_or raw 1 0;
  ifa_flags = get_or raw 2 0;
  ifa_scope = get_or raw 3 0;
  ifa_index = le_value (slice 4 8 raw);
}

unfoldable pub nlmsghdr_bytes : NlmsgHdr → List ℕ
nlmsghdr_bytes h =
    le_bytes 4 h.nlmsg_len
    ++ (le_bytes 2 h.nlmsg_type
        ++ (le_bytes 2 h.nlmsg_flags ++ (le_bytes 4 h.nlmsg_seq ++ le_bytes 4 h.nlmsg_pid)))

unfoldable pub read_nlmsghdr : List ℕ → NlmsgHdr
read_nlmsghdr raw = record {
  nlmsg_len = le_value (slice 0 4 raw);
  nlmsg_type = le_value (slice 4 6 raw);
  nlmsg_flags = le_value (slice 6 8 raw);
  nlmsg_seq = le_value (slice 8 12 raw);
  nlmsg_pid = le_value (slice 12 16 raw);
}

abbrev pub af_inet : ℕ
af_inet = 2

abbrev pub af_inet6 : ℕ
af_inet6 = 10

abbrev pub nlmsg_error : ℕ
nlmsg_error = 2

abbrev pub nlmsg_done : ℕ
nlmsg_done = 3

abbrev pub rtm_newaddr : ℕ
rtm_newaddr = 20

abbrev pub rtm_deladdr : ℕ
rtm_deladdr = 21

abbrev pub rtm_getaddr : ℕ
rtm_getaddr = 22

abbrev pub rtm_newroute : ℕ
rtm_newroute = 24

abbrev pub rtm_delroute : ℕ
rtm_delroute = 25

abbrev pub rtm_newrule : ℕ
rtm_newrule = 32

abbrev pub rtm_delrule : ℕ
rtm_delrule = 33

abbrev pub rtm_getrule : ℕ
rtm_getrule = 34

abbrev pub nlm_f_request : ℕ
nlm_f_request = 1

abbrev pub nlm_f_ack : ℕ
nlm_f_ack = 4

abbrev pub nlm_f_replace : ℕ
nlm_f_replace = 0x100

abbrev pub nlm_f_excl : ℕ
nlm_f_excl = 0x200

abbrev pub nlm_f_dump : ℕ
nlm_f_dump = 0x300

abbrev pub nlm_f_create : ℕ
nlm_f_create = 0x400
