-- ===== src/Examples/Keys.antt =====
-- Addresses, keys, filters and the plan of a resync at concrete inputs.
use addrsyncd.Base.{
  ℕ, ◌≡◌, refl, true, false, List, [], ◌∷◌, ◌==◌, if◌then◌else◌, arith, ok, some, replicate, take,
  drop,
}
use addrsyncd.IpKey.{IpAddr, IpKey, from_ip, into_ip, key_lt, key_eq}
use addrsyncd.IpKey.RoundTrip.{into_ip-from_ip}
use addrsyncd.KeySet.{sort_unstable, dedup}
use addrsyncd.KeySet.Sorting.{IsAscending}
use addrsyncd.LinuxTypes.{rtm_deladdr, read_ifaddrmsg, read_nlmsghdr}
use addrsyncd.Base.Bytes.{le_value}
use addrsyncd.Codec.Nla.{read_nla, nla_align}
use addrsyncd.Codec.Message.{NetlinkMessageView, items, next}
use addrsyncd.Rule.{add, delete}
use addrsyncd.Rule.Apply.{packets}
use addrsyncd.Dump.{readable}
use addrsyncd.Addr.Filters.{IgnoreFilters, new_filters, new_matcher, matcher_contains}
use addrsyncd.Addr.Filters.Search.{any_network, contains-new_matcher}
use addrsyncd.Addr.Event.{AddrEvent, parse_addr_event}
use addrsyncd.Addr.Event.Allowed.{IsAllowed, parse_addr_event-IsAllowed}
use addrsyncd.Addr.Snapshot.{FamilyIo, snapshot_interface_keys, snapshot_interface_keys-IsAscending}
use addrsyncd.Daemon.{default_route_budget}
use addrsyncd.Daemon.Budget.{updates, InBounds, updates-InBounds}
use addrsyncd.Daemon.Resync.{Cursor, fill_resync_chunk}
use addrsyncd.Daemon.Resync.Diff.{handed, remaining}
use addrsyncd.Daemon.Resync.Chunks.{fill_resync_chunk-plan}

abbrev ip_9 : IpAddr
ip_9 = IpAddr.v4 (192 ∷ 0 ∷ 2 ∷ 9 ∷ [])

into_ip-from_ip_example : into_ip (from_ip ip_9) ≡ ip_9
into_ip-from_ip_example = into_ip-from_ip ip_9 (ground arith)

abbrev some_keys : List IpKey
some_keys = IpKey.v6 7 ∷ IpKey.v4 2 ∷ IpKey.v4 1 ∷ IpKey.v4 2 ∷ []

sorted_keys : dedup (sort_unstable some_keys) ≡ IpKey.v4 1 ∷ IpKey.v4 2 ∷ IpKey.v6 7 ∷ []
unfolding dedup sort_unstable key_lt key_eq
sorted_keys = refl

abbrev two_networks : List (IpAddr × ℕ)
two_networks = (IpAddr.v4 (10 ∷ 0 ∷ 0 ∷ 0 ∷ []), 8) ∷ (IpAddr.v4 (192 ∷ 0 ∷ 2 ∷ 0 ∷ []), 24) ∷ []

in_second : any_network ip_9 two_networks ≡ true
unfolding any_network le_value
in_second = refl

contains-new_matcher_example :
    matcher_contains (new_matcher two_networks) ip_9 ≡ any_network ip_9 two_networks
contains-new_matcher_example = contains-new_matcher ip_9 two_networks (ground arith) (ground arith)

abbrev no_filters : IgnoreFilters
no_filters = new_filters [] [] 0

-- `RTM_DELADDR` for 192.0.2.9 on interface 3.
abbrev deleted_view : NetlinkMessageView
deleted_view = record {
  header = record {
    nlmsg_len = 32;
    nlmsg_type = rtm_deladdr;
    nlmsg_flags = 0;
    nlmsg_seq = 0;
    nlmsg_pid = 0;
  };
  body = 2 ∷ 24 ∷ 0 ∷ 0 ∷ 3 ∷ 0 ∷ 0 ∷ 0 ∷ 8 ∷ 0 ∷ 2 ∷ 0 ∷ 192 ∷ 0 ∷ 2 ∷ 9 ∷ [];
}

abbrev deleted_event : AddrEvent
deleted_event = record {
  op = record { addr = ip_9; action = delete };
  family = 2;
  ifindex = 3;
  flags = 0;
}

parse_deleted : parse_addr_event deleted_view true no_filters ≡ ok (some deleted_event)
unfolding parse_addr_event new_filters read_nla le_value read_ifaddrmsg nla_align
parse_deleted = refl

parse_addr_event-IsAllowed_example :
    IsAllowed (read_ifaddrmsg deleted_view.body) true no_filters ip_9 0
    × (delete ≡ (if rtm_deladdr == rtm_deladdr then delete else add))
parse_addr_event-IsAllowed_example =
    parse_addr_event-IsAllowed deleted_view true no_filters deleted_event parse_deleted

-- A dump that ends at once.
abbrev done_packet : List ℕ
done_packet = 20 ∷ 0 ∷ 0 ∷ 0 ∷ 3 ∷ 0 ∷ 2 ∷ 0 ∷ 5 ∷ 0 ∷ 0 ∷ 0 ∷ replicate 8 0

abbrev family_io : FamilyIo
family_io = record { send = ok tt; received = (packets (done_packet ∷ []), readable) ∷ [] }

snapshot_done : (snapshot_interface_keys false no_filters family_io family_io 5).outcome ≡ ok tt
unfolding snapshot_interface_keys items next read_nlmsghdr le_value
snapshot_done = refl

snapshot_interface_keys-IsAscending_example :
    IsAscending (snapshot_interface_keys false no_filters family_io family_io 5).out
snapshot_interface_keys-IsAscending_example =
    snapshot_interface_keys-IsAscending false no_filters family_io family_io 5 snapshot_done

updates-InBounds_example :
    InBounds (updates default_route_budget ((256, true) ∷ (256, true) ∷ (1, false) ∷ []))
updates-InBounds_example = updates-InBounds ((256, true) ∷ (256, true) ∷ (1, false) ∷ [])

abbrev target_3 : List IpKey
target_3 = IpKey.v4 1 ∷ IpKey.v4 2 ∷ IpKey.v6 7 ∷ []

abbrev current_2 : List IpKey
current_2 = IpKey.v4 2 ∷ IpKey.v4 3 ∷ []

abbrev start : Cursor
start = record { target_idx = 0; current_idx = 0; out = [] }

fill_resync_chunk-plan_example :
    let c' = fill_resync_chunk target_3 current_2 2 start in
    (c'.out ≡ take 2 (handed target_3 current_2 2 start))
    × (remaining target_3 current_2 2 c' ≡ drop 2 (handed target_3 current_2 2 start))
fill_resync_chunk-plan_example = fill_resync_chunk-plan target_3 current_2 2 start (omega arith)
