-- ===== src/Addr/Event.antt =====
-- An address event of the route socket, src/netlink/addr.rs: its attributes, and the operation that it
-- asks for.
pub mod Allowed
use Prim.Native.Nat.{bit_and}
use addrsyncd.Base.{
  ℕ, ◌-◌, ◌^◌, ◌≡◌, refl, arith, min, Result-cases, Bool-cases, inl, inr, Bool, true, false, not,
  ◌&&◌, ◌||◌, List, leb, ltb, ◌==◌, if◌then◌else◌, Result, ok, err, Option, none, some, length,
  drop, slice,
}
use addrsyncd.Base.Bytes.{le_value}
use addrsyncd.Error.{NetlinkError, invalid_ifa_address, missing_ifa_address}
use addrsyncd.IpKey.{IpAddr}
use addrsyncd.LinuxTypes.{IfAddrMsg, read_ifaddrmsg, ifaddrmsg_len, af_inet, af_inet6, rtm_deladdr}
use addrsyncd.Codec.Nla.{parse_nlas}
use addrsyncd.Codec.Message.{NetlinkMessageView}
use addrsyncd.Cleanup.{RawAddrBuf, from_slice, as_slice}
use addrsyncd.Rule.{RuleOp, RuleAction, add, delete, addr_from_netlink}
use addrsyncd.Addr.Filters.{IgnoreFilters, unmap_addr, is_valid_addr, should_ignore_addr}

pub record AddrEvent : Type 0 where
  pub op : RuleOp
  pub family : ℕ
  pub ifindex : ℕ
  pub flags : ℕ

abbrev pub u32_max : ℕ
u32_max = 2 ^ 32 - 1

abbrev pub i32_max : ℕ
i32_max = 2 ^ 31 - 1

abbrev pub ifa_address : ℕ
ifa_address = 1

abbrev pub ifa_local : ℕ
ifa_local = 2

abbrev pub ifa_attr_flags : ℕ
ifa_attr_flags = 8

-- The variables that the attributes' callback captures.
pub record IfaFields : Type 0 where
  pub flags : ℕ
  pub addr : Option RawAddrBuf

abbrev has_addr : IfaFields → Bool
has_addr f = elim f.addr [ none ↦ false | some _ ↦ true ]

unfoldable pub note_ifaddr_attr :
    ℕ → IfaFields → ℕ → List ℕ → IfaFields × Result NetlinkError (Unit {0})
unfolding from_slice
note_ifaddr_attr family f typ value =
    let read : IfaFields × Result NetlinkError (Unit {0}) =
      elim (from_slice value invalid_ifa_address) [
        | err e ↦ (f, err e)
        | ok buf ↦ (record f { addr = some buf }, ok tt)
      ] in
    if (typ == ifa_attr_flags) && leb 4 (length value)
    then (record f { flags = le_value (slice 0 4 value) }, ok tt)
    else if typ == ifa_local
    then if family == af_inet then read else (f, ok tt)
    else if typ == ifa_address
    then if not (family == af_inet) || not (has_addr f) then read else (f, ok tt)
    else (f, ok tt)

unfoldable pub parse_ifaddr_attrs : List ℕ → ℕ → Result NetlinkError (ℕ × RawAddrBuf)
unfolding parse_nlas note_ifaddr_attr
parse_ifaddr_attrs raw family =
    let (f, walked) =
      parse_nlas (note_ifaddr_attr family) raw (record { flags = u32_max; addr = none }) in
    elim walked [
      | err e ↦ err e
      | ok _ ↦ elim f.addr [ none ↦ err missing_ifa_address | some addr ↦ ok (f.flags, addr) ]
    ]

-- The address, unless a test of it fails.
unfoldable pub accept_addr : IgnoreFilters → Option IpAddr → ℕ → Option (IpAddr × ℕ)
unfolding unmap_addr is_valid_addr should_ignore_addr
accept_addr filters none flags = none
accept_addr filters (some raw) flags =
    let addr = unmap_addr raw in
    if not (is_valid_addr addr)
    then none
    else if should_ignore_addr filters addr
    then none
    else some (addr, flags)

unfoldable pub parse_addr_from_ifaddr :
    IfAddrMsg → ℕ → RawAddrBuf → Bool → IgnoreFilters → Option (IpAddr × ℕ)
unfolding accept_addr addr_from_netlink as_slice
parse_addr_from_ifaddr ifa attr_flags raw_addr ipv6_enabled filters =
    let flags = if attr_flags == u32_max then ifa.ifa_flags else attr_flags in
    if not (ifa.ifa_scope == 0)
    then none
    else if (ifa.ifa_family == af_inet6) && not ipv6_enabled
    then none
    else if not (filters.flag_mask == 0) && not (bit_and flags filters.flag_mask == 0)
    then none
    else accept_addr filters (addr_from_netlink ifa.ifa_family (as_slice raw_addr)) flags

unfoldable event_of : RuleAction → IfAddrMsg → Option (IpAddr × ℕ) → Option AddrEvent
event_of action ifa none = none
event_of action ifa (some (addr, flags)) = some (record {
  op = record { addr = addr; action = action };
  family = ifa.ifa_family;
  ifindex = min ifa.ifa_index i32_max;
  flags = flags;
})

unfoldable pub parse_addr_event :
    NetlinkMessageView → Bool → IgnoreFilters → Result NetlinkError (Option AddrEvent)
unfolding parse_ifaddr_attrs parse_addr_from_ifaddr event_of
parse_addr_event msg ipv6_enabled filters =
    let ifa = read_ifaddrmsg msg.body in
    let action : RuleAction = if msg.header.nlmsg_type == rtm_deladdr then delete else add in
    let event : Result NetlinkError (Option AddrEvent) =
      elim (parse_ifaddr_attrs (drop ifaddrmsg_len msg.body) ifa.ifa_family) [
        | err e ↦ err e
        | ok (flags, raw_addr) ↦
            ok
              (event_of action ifa (parse_addr_from_ifaddr ifa flags raw_addr ipv6_enabled filters))
      ] in
    if ltb (length msg.body) ifaddrmsg_len then ok none else event
