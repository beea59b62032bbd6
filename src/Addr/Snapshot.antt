-- ===== src/Addr/Snapshot.antt =====
-- The dump of the addresses of all interfaces, src/netlink/addr.rs.
use Prim.Native.Nat.{bit_or}
use addrsyncd.Base.{
  ℕ, ◌≡◌, arith, Bool, List, [], ◌∷◌, ◌++◌, ltb, ◌==◌, if◌then◌else◌, Result, ok, err, Option, none,
  some, length, drop,
}
use addrsyncd.Error.{AppError, io}
use addrsyncd.IpKey.{IpKey, from_ip}
use addrsyncd.KeySet.{sort_unstable, dedup}
use addrsyncd.KeySet.Sorting.{IsAscending, dedup-sort_unstable}
use addrsyncd.LinuxTypes.{
  IfAddrMsg, read_ifaddrmsg, ifaddrmsg_bytes, ifaddrmsg_len, af_inet, af_inet6, rtm_newaddr,
  rtm_getaddr, nlm_f_request, nlm_f_dump,
}
use addrsyncd.Codec.Seq.{next_seq}
use addrsyncd.Codec.Message.{NetlinkMessageView, build_netlink_request}
use addrsyncd.Rule.Apply.{Recv}
use addrsyncd.Dump.{Wait, recv_until_done}
use addrsyncd.Addr.Filters.{IgnoreFilters}
use addrsyncd.Addr.Event.{parse_ifaddr_attrs, parse_addr_from_ifaddr}

unfoldable pub build_addr_dump_message : ℕ → ℕ → List ℕ
unfolding build_netlink_request ifaddrmsg_bytes
build_addr_dump_message family seq =
    let ifa : IfAddrMsg = record {
      ifa_family = family;
      ifa_prefixlen = 0;
      ifa_flags = 0;
      ifa_scope = 0;
      ifa_index = 0;
    } in
    build_netlink_request rtm_getaddr (bit_or nlm_f_request nlm_f_dump) seq (ifaddrmsg_bytes ifa)

-- The callback of the dump: an address that is not accepted, or not to be read, is passed over.
unfoldable pub note_interface_key :
    Bool → IgnoreFilters → List IpKey → NetlinkMessageView → List IpKey × Result AppError (Unit {0})
unfolding parse_ifaddr_attrs parse_addr_from_ifaddr from_ip
note_interface_key ipv6_enabled filters out msg =
    let ifa = read_ifaddrmsg msg.body in
    let out' : List IpKey = elim (parse_ifaddr_attrs (drop ifaddrmsg_len msg.body) ifa.ifa_family) [
      | err _ ↦ out
      | ok (flags, raw_addr) ↦
          elim (parse_addr_from_ifaddr ifa flags raw_addr ipv6_enabled filters) [
            | none ↦ out
            | some (addr, _) ↦ out ++ (from_ip addr ∷ [])
          ]
    ] in
    if msg.header.nlmsg_type == rtm_newaddr
    then if ltb (length msg.body) ifaddrmsg_len then (out, ok tt) else (out', ok tt)
    else (out, ok tt)

-- What the socket does for one family: its answer to the request, and what it delivers.
pub record FamilyIo : Type 0 where
  pub send : Result (Option ℕ) (Unit {0})
  pub received : List (Recv × Wait)

-- The variables of a snapshot: `NEXT_SEQ`, the requests sent, the keys, and the result.
pub record Snapshot : Type 0 where
  pub next_seq : ℕ
  pub sent : List (List ℕ)
  pub out : List IpKey
  pub outcome : Result AppError (Unit {0})

unfoldable pub dump_interface_keys_family :
    ℕ → Bool → IgnoreFilters → FamilyIo → ℕ → List IpKey → Snapshot
unfolding next_seq build_addr_dump_message recv_until_done note_interface_key
dump_interface_keys_family family ipv6_enabled filters fio next out =
    let (seq, next') = next_seq next in
    let request = build_addr_dump_message family seq ∷ [] in
    let (out', r) =
      recv_until_done (note_interface_key ipv6_enabled filters) seq out fio.received in
    elim fio.send [
      | err code ↦ record { next_seq = next'; sent = request; out = out; outcome = err (io code) }
      | ok _ ↦ record { next_seq = next'; sent = request; out = out'; outcome = r }
    ]

sorted : Snapshot → Snapshot
unfolding sort_unstable dedup
sorted s = elim s.outcome [ err _ ↦ s | ok _ ↦ record s { out = dedup (sort_unstable s.out) } ]

sorted-IsAscending : (s : Snapshot) → (sorted s).outcome ≡ ok tt → IsAscending (sorted s).out
unfolding sorted
sorted-IsAscending s e = ground (arith, e, (dedup-sort_unstable s.out).0)

-- IPv4 first, and IPv6 if it is enabled; an error leaves the keys as they are.
unfoldable pub snapshot_interface_keys : Bool → IgnoreFilters → FamilyIo → FamilyIo → ℕ → Snapshot
unfolding dump_interface_keys_family sorted
snapshot_interface_keys ipv6_enabled filters v4_io v6_io next =
    let first = dump_interface_keys_family af_inet ipv6_enabled filters v4_io next [] in
    let second =
      dump_interface_keys_family af_inet6 ipv6_enabled filters v6_io first.next_seq first.out in
    elim first.outcome [
      | err _ ↦ first
      | ok _ ↦
          if ipv6_enabled
          then sorted (record second { sent = first.sent ++ second.sent })
          else sorted first
    ]

-- The keys of a snapshot that succeeds are strictly ascending, so none is there twice.
pub snapshot_interface_keys-IsAscending :
    (ipv6_enabled : Bool) (filters : IgnoreFilters) (v4_io v6_io : FamilyIo) (next : ℕ)
    → (snapshot_interface_keys ipv6_enabled filters v4_io v6_io next).outcome ≡ ok tt
    → IsAscending (snapshot_interface_keys ipv6_enabled filters v4_io v6_io next).out
unfolding snapshot_interface_keys
snapshot_interface_keys-IsAscending ipv6_enabled filters v4_io v6_io next e =
    let first = dump_interface_keys_family af_inet ipv6_enabled filters v4_io next [] in
    let second =
      dump_interface_keys_family af_inet6 ipv6_enabled filters v6_io first.next_seq first.out in
    ground (
      arith,
      e,
      sorted-IsAscending first,
      sorted-IsAscending (record second { sent = first.sent ++ second.sent }),
    )
