-- ===== src/Codec/Message.antt =====
-- The messages of src/netlink/codec.rs: the iterator over a packet, and building a request.
pub mod Walk
use addrsyncd.Base.{
  ℕ, zero, suc, ◌+◌, ◌-◌, ◌%◌, ◌^◌, ◌||◌, List, [], ◌∷◌, ◌++◌, ltb, ◌==◌, if◌then◌else◌, Result, ok,
  err, Option, none, some, length, drop, slice, copy_at,
}
use addrsyncd.Error.{
  NetlinkError, short_nlmsghdr, invalid_nlmsg_len, invalid_nlmsg_step, out_of_fuel,
}
use addrsyncd.LinuxTypes.{NlmsgHdr, nlmsghdr_len, nlmsghdr_bytes, read_nlmsghdr}
use addrsyncd.Codec.Nla.{nla_align, append_zeros}

pub record NetlinkMessageView : Type 0 where
  pub header : NlmsgHdr
  pub body : List ℕ

-- `NLMSG_ALIGN_TO` and `NLA_ALIGN_TO` are both 4.
unfoldable pub nlmsg_align : ℕ → ℕ
unfolding nla_align
nlmsg_align n = nla_align n

abbrev pub Item : Type 0
Item = Result NetlinkError NetlinkMessageView

-- One call of the iterator: the item, and the bytes that are left.
unfoldable pub next : List ℕ → Option (Item × List ℕ)
unfolding nlmsg_align
next raw =
    let header = read_nlmsghdr raw in
    let len = header.nlmsg_len in
    let body = slice nlmsghdr_len len raw in
    let step = nlmsg_align len in
    if length raw == 0
    then none
    else if ltb (length raw) nlmsghdr_len
    then some (err short_nlmsghdr, [])
    else if ltb len nlmsghdr_len || ltb (length raw) len
    then some (err invalid_nlmsg_len, [])
    else if ltb (length raw) step
    then some (err invalid_nlmsg_step, [])
    else some (ok (record { header = header; body = body }), drop step raw)

-- All items of a packet, as a `for` loop meets them. Each takes a byte at least.
unfoldable pub items_loop : ℕ → List ℕ → List Item
items_loop zero raw = err out_of_fuel ∷ []
items_loop (suc fuel) raw = elim (next raw) [
  | none ↦ []
  | some (item, rest) ↦ item ∷ items_loop fuel rest
]

unfoldable pub items : List ℕ → List Item
unfolding items_loop
items raw = items_loop (suc (length raw)) raw

-- `body` is the structure that follows the header, as its octets.
unfoldable pub build_netlink_request : ℕ → ℕ → ℕ → List ℕ → List ℕ
unfolding nlmsg_align append_zeros nlmsghdr_bytes
build_netlink_request nlmsg_type nlmsg_flags seq body =
    let total = nlmsghdr_len + length body in
    let zeroed = append_zeros [] total in
    let header : NlmsgHdr = record {
      nlmsg_len = total % 2 ^ 32;
      nlmsg_type = nlmsg_type;
      nlmsg_flags = nlmsg_flags;
      nlmsg_seq = seq;
      nlmsg_pid = 0;
    } in
    let with_header = copy_at zeroed 0 (nlmsghdr_bytes header) in
    let msg = copy_at with_header nlmsghdr_len body in
    append_zeros msg (nlmsg_align (length msg) - length msg)
