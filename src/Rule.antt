-- ===== src/Rule.antt =====
-- The operations of src/netlink/rule.rs: adding and deleting one rule, the message that asks the
-- kernel for it, and what an acknowledgement means for it.
pub mod Tracker
pub mod Apply
pub mod Message
use Prim.Native.Nat.{bit_or}
use addrsyncd.Base.{
  ℕ, ◌+◌, ◌-◌, ◌%◌, ◌^◌, Bool, true, false, not, ◌&&◌, ◌||◌, List, [], ◌∷◌, leb, ltb, ◌==◌,
  if◌then◌else◌, Option, none, some, length, take, replicate, copy_at,
}
use addrsyncd.Base.Bytes.{le_bytes}
use addrsyncd.IpKey.{IpAddr}
use addrsyncd.LinuxTypes.{
  RtMsg, NlmsgHdr, rtmsg_bytes, nlmsghdr_bytes, rtmsg_len, nlmsghdr_len, af_inet, af_inet6,
  rtm_newrule, rtm_delrule, nlm_f_request, nlm_f_ack, nlm_f_create, nlm_f_excl,
}
use addrsyncd.Codec.Nla.{append_zeros, append_nla, append_nla_u32}
use addrsyncd.Codec.Message.{nlmsg_align}
use addrsyncd.Codec.Ack.{ExtAckText}

pub data RuleAction : Type 0 where
  delete add : RuleAction

pub record RuleOp : Type 0 where
  pub addr : IpAddr
  pub action : RuleAction

unfoldable pub is_add_action : RuleAction → Bool
is_add_action delete = false
is_add_action add = true

unfoldable pub is_add : RuleOp → Bool
unfolding is_add_action
is_add op = is_add_action op.action

pub record RuleContext : Type 0 where
  pub pref : ℕ
  pub table_id : ℕ

pub record NetlinkAckStatus : Type 0 where
  pub errno : ℕ
  pub ext_msg : Option ExtAckText
  pub ext_offset : Option ℕ

pub data RuleAckClass : Type 0 where
  applied eexist_noop enoent_noop kernel_err : RuleAckClass

abbrev pub enoent : ℕ
enoent = 2

abbrev pub esrch : ℕ
esrch = 3

abbrev pub eexist : ℕ
eexist = 17

unfoldable pub classify_ack_for_op : RuleOp → Option NetlinkAckStatus → RuleAckClass
unfolding is_add
classify_ack_for_op op none = applied
classify_ack_for_op op (some status) =
    if is_add op && (status.errno == eexist)
    then eexist_noop
    else if not (is_add op) && ((status.errno == enoent) || (status.errno == esrch))
    then enoent_noop
    else kernel_err

unfoldable pub addr_from_netlink : ℕ → List ℕ → Option IpAddr
addr_from_netlink family raw =
    if family == af_inet
    then if ltb (length raw) 4 then none else some (IpAddr.v4 (take 4 raw))
    else if family == af_inet6
    then if ltb (length raw) 16 then none else some (IpAddr.v6 (take 16 raw))
    else none

-- The family, the buffer, how much of it is used, and the prefix length.
unfoldable pub addr_to_netlink : IpAddr → ℕ × List ℕ × ℕ × ℕ
addr_to_netlink (IpAddr.v4 octets) = (af_inet, copy_at (replicate 16 0) 0 octets, 4, 32)
addr_to_netlink (IpAddr.v6 octets) = (af_inet6, copy_at (replicate 16 0) 0 octets, 16, 128)

abbrev pub fra_attr_dst : ℕ
fra_attr_dst = 1

abbrev pub fra_attr_priority : ℕ
fra_attr_priority = 6

abbrev pub fra_attr_table : ℕ
fra_attr_table = 15

-- `RTPROT_BOOT` is 3, `RT_SCOPE_UNIVERSE` is 0 and `RTN_UNICAST` is 1.
unfoldable pub rule_rtmsg : RuleContext → ℕ → ℕ → RtMsg
rule_rtmsg ctx family dst_len = record {
  rtm_family = family;
  rtm_dst_len = dst_len;
  rtm_src_len = 0;
  rtm_tos = 0;
  rtm_table = if leb ctx.table_id 255 then ctx.table_id else 0;
  rtm_protocol = 3;
  rtm_scope = 0;
  rtm_type = 1;
  rtm_flags = 0;
}

unfoldable pub rule_request : RuleOp → ℕ × ℕ
unfolding is_add
rule_request op =
    let flags = bit_or nlm_f_request nlm_f_ack in
    if is_add op
    then (rtm_newrule, bit_or flags (bit_or nlm_f_create nlm_f_excl))
    else (rtm_delrule, flags)

-- The message is written behind what `dst` holds.
unfoldable pub build_rule_message_into : List ℕ → RuleContext → RuleOp → ℕ → List ℕ
build_rule_message_into dst ctx op seq =
    let (family, addr, addr_len, dst_len) = addr_to_netlink op.addr in
    let (req_type, req_flags) = rule_request op in
    let start = length dst in
    let zeroed = append_zeros dst (nlmsghdr_len + rtmsg_len) in
    let started =
      copy_at zeroed (start + nlmsghdr_len) (rtmsg_bytes (rule_rtmsg ctx family dst_len)) in
    let with_dst = append_nla started fra_attr_dst (take addr_len addr) in
    let with_pref = append_nla_u32 with_dst fra_attr_priority ctx.pref in
    let with_table = append_nla_u32 with_pref fra_attr_table ctx.table_id in
    let msg_len = length with_table - start in
    let header : NlmsgHdr = record {
      nlmsg_len = msg_len % 2 ^ 32;
      nlmsg_type = req_type;
      nlmsg_flags = req_flags;
      nlmsg_seq = seq;
      nlmsg_pid = 0;
    } in
    append_zeros (copy_at with_table start (nlmsghdr_bytes header)) (nlmsg_align msg_len - msg_len)
