-- ===== src/Addr/Event/Allowed.antt =====
-- Which addresses an event (src/netlink/addr.rs) is let through for.
use Prim.Native.Nat.{bit_and}
use addrsyncd.Base.{
  ℕ, ◌≡◌, refl, arith, Result-cases, Bool-cases, inl, inr, Bool, true, false, not, ◌&&◌, ltb, ◌==◌,
  if◌then◌else◌, Result, ok, err, Option, none, some, length, drop,
}
use addrsyncd.Error.{NetlinkError}
use addrsyncd.IpKey.{IpAddr}
use addrsyncd.LinuxTypes.{IfAddrMsg, read_ifaddrmsg, ifaddrmsg_len, af_inet6, rtm_deladdr}
use addrsyncd.Codec.Message.{NetlinkMessageView}
use addrsyncd.Cleanup.{RawAddrBuf, as_slice}
use addrsyncd.Rule.{RuleAction, add, delete, addr_from_netlink}
use addrsyncd.Addr.Filters.{IgnoreFilters, unmap_addr, is_valid_addr, should_ignore_addr}
use addrsyncd.Addr.Event.{
  AddrEvent, u32_max, accept_addr, parse_ifaddr_attrs, parse_addr_from_ifaddr, event_of,
  parse_addr_event,
}

reject_if {ℓ} :
    {A : Type ℓ} (b : Bool) (o : Option A) (x : A)
    → (if b then none else o) ≡ some x
    → (b ≡ false) × (o ≡ some x)
reject_if true o x e = cc
reject_if false o x e = (refl, e)

pair_of_some {ℓ κ} :
    {A : Type ℓ} {B : Type κ} (a a' : A) (b b' : B)
    → ◌≡◌ {A = Option (A × B)} (some (a, b)) (some (a', b'))
    → (a ≡ a') × (b ≡ b')
pair_of_some a a' b b' e = (cc, cc)

true_of_not : (b : Bool) → not b ≡ false → b ≡ true
true_of_not true h = refl
true_of_not false h = cc

accept_addr-allowed :
    (filters : IgnoreFilters) (raw : Option IpAddr) (flags : ℕ) (addr : IpAddr) (flags' : ℕ)
    → accept_addr filters raw flags ≡ some (addr, flags')
    → (is_valid_addr addr ≡ true) × (should_ignore_addr filters addr ≡ false) × (flags ≡ flags')
unfolding accept_addr
accept_addr-allowed filters none flags addr flags' e = cc
accept_addr-allowed filters (some raw) flags addr flags' e =
    let a = reject_if (not (is_valid_addr (unmap_addr raw))) _ (addr, flags') e in
    let b = reject_if (should_ignore_addr filters (unmap_addr raw)) _ (addr, flags') a.1 in
    let c = pair_of_some (unmap_addr raw) addr flags flags' b.1 in
    (rw (← c.0) (true_of_not (is_valid_addr (unmap_addr raw)) a.0), rw (← c.0) b.0, c.1)

-- What is let through: an address that is valid and not ignored, of an interface address of global
-- scope, of IPv6 only if that is enabled, with flags clear of the ignored ones.
unfoldable pub IsAllowed : IfAddrMsg → Bool → IgnoreFilters → IpAddr → ℕ → Type 0
unfolding is_valid_addr should_ignore_addr
IsAllowed ifa ipv6_enabled filters addr flags =
    (is_valid_addr addr ≡ true)
    × (should_ignore_addr filters addr ≡ false)
    × (not (ifa.ifa_scope == 0) ≡ false)
    × (((ifa.ifa_family == af_inet6) && not ipv6_enabled) ≡ false)
    × ((not (filters.flag_mask == 0) && not (bit_and flags filters.flag_mask == 0)) ≡ false)

parse_addr_from_ifaddr-IsAllowed :
    (ifa : IfAddrMsg) (attr_flags : ℕ) (raw_addr : RawAddrBuf) (ipv6_enabled : Bool)
    (filters : IgnoreFilters) (addr : IpAddr) (flags : ℕ)
    → parse_addr_from_ifaddr ifa attr_flags raw_addr ipv6_enabled filters ≡ some (addr, flags)
    → IsAllowed ifa ipv6_enabled filters addr flags
unfolding parse_addr_from_ifaddr IsAllowed
parse_addr_from_ifaddr-IsAllowed ifa attr_flags raw_addr ipv6_enabled filters addr flags e =
    let used = if attr_flags == u32_max then ifa.ifa_flags else attr_flags in
    let a = reject_if (not (ifa.ifa_scope == 0)) _ (addr, flags) e in
    let b = reject_if ((ifa.ifa_family == af_inet6) && not ipv6_enabled) _ (addr, flags) a.1 in
    let c =
      reject_if (not (filters.flag_mask == 0) && not (bit_and used filters.flag_mask == 0)) _
        (addr, flags) b.1 in
    let d =
      accept_addr-allowed filters (addr_from_netlink ifa.ifa_family (as_slice raw_addr)) used addr
        flags c.1 in
    (d.0, d.1, a.0, b.0, rw (← d.2) c.0)

event_of-some :
    (action : RuleAction) (ifa : IfAddrMsg) (o : Option (IpAddr × ℕ)) (event : AddrEvent)
    → event_of action ifa o ≡ some event
    → (o ≡ some (event.op.addr, event.flags)) × (event.op.action ≡ action)
unfolding event_of
event_of-some action ifa none event e = cc
event_of-some action ifa (some (addr, flags)) event e = ground arith

-- An event that is read from a message is for an address that is let through: valid, not ignored, of
-- global scope, of IPv6 only if that is enabled, with flags clear of the ignored ones. It deletes if
-- the message is of type `RTM_DELADDR`, and adds otherwise.
pub parse_addr_event-IsAllowed :
    (msg : NetlinkMessageView) (ipv6_enabled : Bool) (filters : IgnoreFilters) (event : AddrEvent)
    → parse_addr_event msg ipv6_enabled filters ≡ ok (some event)
    → IsAllowed (read_ifaddrmsg msg.body) ipv6_enabled filters event.op.addr event.flags
      × (event.op.action ≡ (if msg.header.nlmsg_type == rtm_deladdr then delete else add))
unfolding parse_addr_event
parse_addr_event-IsAllowed msg ipv6_enabled filters event e =
    let ifa = read_ifaddrmsg msg.body in
    let action : RuleAction = if msg.header.nlmsg_type == rtm_deladdr then delete else add in
    elim (Bool-cases (ltb (length msg.body) ifaddrmsg_len)) [
      | inl short ↦
          let impossible : ◌≡◌ {A = Result NetlinkError (Option AddrEvent)} (ok none)
              (ok (some event)) =
            rw short at e in
          cc
      | inr long ↦
          elim (Result-cases (parse_ifaddr_attrs (drop ifaddrmsg_len msg.body) ifa.ifa_family)) [
            | inl ((flags, raw_addr), f) ↦
                let o = parse_addr_from_ifaddr ifa flags raw_addr ipv6_enabled filters in
                let same : ◌≡◌ {A = Result NetlinkError (Option AddrEvent)}
                    (ok (event_of action ifa o)) (ok (some event)) =
                  rw (long, f) at e in
                let found = event_of-some action ifa o event cc in
                (
                  parse_addr_from_ifaddr-IsAllowed ifa flags raw_addr ipv6_enabled filters
                      event.op.addr event.flags found.0,
                  found.1,
                )
            | inr (x, f) ↦
                let impossible : ◌≡◌ {A = Result NetlinkError (Option AddrEvent)} (err x)
                    (ok (some event)) =
                  rw (long, f) at e in
                cc
          ]
    ]
