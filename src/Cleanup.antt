-- ===== src/Cleanup.antt =====
-- Finding the daemon's own rules in a rule dump, src/netlink/cleanup.rs.
pub mod Recognise
pub mod Stream
use Prim.Native.Nat.{bit_or}
use addrsyncd.Base.{
  ℕ, ◌%◌, ◌^◌, Bool, true, false, not, ◌&&◌, ◌||◌, List, [], ◌∷◌, leb, ltb, ◌==◌, if◌then◌else◌,
  Result, ok, err, Option, none, some, length, take, drop, slice, replicate, copy_at,
}
use addrsyncd.Base.Bytes.{le_value}
use addrsyncd.Error.{AppError, NetlinkError, netlink, invalid_fra_dst}
use addrsyncd.IpKey.{IpAddr}
use addrsyncd.LinuxTypes.{
  RtMsg, NlmsgHdr, rtmsg_bytes, read_rtmsg, rtmsg_len, af_inet, af_inet6, rtm_newrule, rtm_getrule,
  nlm_f_request, nlm_f_dump,
}
use addrsyncd.Codec.Nla.{parse_nlas}
use addrsyncd.Codec.Message.{NetlinkMessageView, build_netlink_request}
use addrsyncd.Rule.{
  RuleContext, RuleOp, delete, addr_from_netlink, fra_attr_dst, fra_attr_priority, fra_attr_table,
}
use addrsyncd.Rule.Apply.{Recv}
use addrsyncd.Dump.{DumpPoll, pending, continue, done, recv_step}

-- src/netlink/raw_addr.rs: a buffer of 16 octets and how many of them are used.
pub record RawAddrBuf : Type 0 where
  pub bytes : List ℕ
  pub len : ℕ

unfoldable pub from_slice : List ℕ → NetlinkError → Result NetlinkError RawAddrBuf
from_slice value invalid =
    if (length value == 0) || ltb 16 (length value)
    then err invalid
    else ok (record { bytes = copy_at (replicate 16 0) 0 value; len = length value })

unfoldable pub as_slice : RawAddrBuf → List ℕ
as_slice b = take b.len b.bytes

-- The variables that the attributes' callback captures.
pub record RuleFields : Type 0 where
  pub table_id : ℕ
  pub pref : ℕ
  pub has_pref : Bool
  pub dst : Option RawAddrBuf

unfoldable pub note_rule_attr :
    RuleFields → ℕ → List ℕ → RuleFields × Result NetlinkError (Unit {0})
unfolding from_slice
note_rule_attr f typ value =
    let number = le_value (slice 0 4 value) in
    let read : RuleFields × Result NetlinkError (Unit {0}) =
      elim (from_slice value invalid_fra_dst) [
        | err e ↦ (f, err e)
        | ok buf ↦ (record f { dst = some buf }, ok tt)
      ] in
    if (typ == fra_attr_priority) && leb 4 (length value)
    then (record f { pref = number; has_pref = true }, ok tt)
    else if (typ == fra_attr_table) && leb 4 (length value)
    then (record f { table_id = number }, ok tt)
    else if typ == fra_attr_dst
    then read
    else (f, ok tt)

-- The rule's address, if it carries the daemon's preference and table.
unfoldable pub match_rule : RuleContext → ℕ → RuleFields → Option IpAddr
unfolding as_slice addr_from_netlink
match_rule ctx family f = elim f.dst [
  | none ↦ none
  | some buf ↦
      if not f.has_pref || not (f.pref == ctx.pref) || not (f.table_id == ctx.table_id)
      then none
      else addr_from_netlink family (as_slice buf)
]

unfoldable pub parse_cleanup_rule_addr :
    NetlinkMessageView → RuleContext → ℕ → Result NetlinkError (Option IpAddr)
parse_cleanup_rule_addr msg ctx family =
    let rtm = read_rtmsg msg.body in
    let fields : RuleFields = record {
      table_id = rtm.rtm_table;
      pref = 0;
      has_pref = false;
      dst = none;
    } in
    let (noted, walked) = parse_nlas note_rule_attr (drop rtmsg_len msg.body) fields in
    let found : Result NetlinkError (Option IpAddr) = elim walked [
      | err e ↦ err e
      | ok _ ↦ ok (match_rule ctx rtm.rtm_family noted)
    ] in
    if ltb (length msg.body) rtmsg_len
    then ok none
    else if not (rtm.rtm_family == family)
    then ok none
    else if (family == af_inet) && not (rtm.rtm_dst_len == 32)
    then ok none
    else if (family == af_inet6) && not (rtm.rtm_dst_len == 128)
    then ok none
    else found

unfoldable pub build_rule_dump_message : ℕ → ℕ → List ℕ
unfolding build_netlink_request rtmsg_bytes
build_rule_dump_message family seq =
    let rtm : RtMsg = record {
      rtm_family = family % 2 ^ 8;
      rtm_dst_len = 0;
      rtm_src_len = 0;
      rtm_tos = 0;
      rtm_table = 0;
      rtm_protocol = 0;
      rtm_scope = 0;
      rtm_type = 0;
      rtm_flags = 0;
    } in
    build_netlink_request rtm_getrule (bit_or nlm_f_request nlm_f_dump) seq (rtmsg_bytes rtm)
