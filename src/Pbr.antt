-- ===== src/Pbr.antt =====
-- src/netlink/pbr.rs: the messages of a policy-routing request and what their answers mean.
pub mod Exchange
pub mod Request
pub mod Frames
pub mod Acks
pub mod Behaves
pub mod Refines
use Prim.Native.Nat.{bit_or}
use addrsyncd.Base.{
  ℕ, ◌+◌, ◌-◌, ◌%◌, ◌^◌, ◌||◌, List, [], ltb, leb, ◌==◌, if◌then◌else◌, Option, none, some, length,
  copy_at,
}
use addrsyncd.Base.Bytes.{le_bytes}
use addrsyncd.LinuxTypes.{
  RtMsg, NlmsgHdr, rtmsg_bytes, nlmsghdr_bytes, rtmsg_len, nlmsghdr_len, rtm_newrule, rtm_newroute,
  nlm_f_request, nlm_f_ack, nlm_f_create, nlm_f_excl, nlm_f_replace,
}
use addrsyncd.Codec.Nla.{append_zeros, append_nla_u32}
use addrsyncd.Codec.Message.{nlmsg_align}
use addrsyncd.Codec.Ack.{AckErrorInfo}
use addrsyncd.Rule.{fra_attr_priority, fra_attr_table, enoent, esrch, eexist}

pub data PbrAckClass : Type 0 where
  acked noop kernel_err : PbrAckClass

pub data PbrOp : Type 0 where
  add_rule delete_rule replace_route delete_route : PbrOp

abbrev missing : AckErrorInfo → PbrAckClass
missing status = if status.errno == enoent || status.errno == esrch then noop else kernel_err

abbrev present : AckErrorInfo → PbrAckClass
present status = if status.errno == eexist then noop else kernel_err

unfoldable pub classify_pbr_ack : PbrOp → Option AckErrorInfo → PbrAckClass
classify_pbr_ack op none = acked
classify_pbr_ack add_rule (some status) = present status
classify_pbr_ack replace_route (some status) = present status
classify_pbr_ack delete_rule (some status) = missing status
classify_pbr_ack delete_route (some status) = missing status

abbrev pub fra_attr_fwmark : ℕ
fra_attr_fwmark = 10

abbrev pub fra_attr_fwmask : ℕ
fra_attr_fwmask = 16

abbrev pub rta_attr_oif : ℕ
rta_attr_oif = 4

-- `RTPROT_BOOT` is 3; for a rule the scope is `RT_SCOPE_UNIVERSE`, 0, and the type `RTN_UNICAST`, 1;
-- for a route they are `RT_SCOPE_HOST`, 254, and `RTN_LOCAL`, 2.
unfoldable pub pbr_rtmsg : ℕ → ℕ → ℕ → ℕ → RtMsg
pbr_rtmsg family table scope typ = record {
  rtm_family = family;
  rtm_dst_len = 0;
  rtm_src_len = 0;
  rtm_tos = 0;
  rtm_table = if leb table 255 then table else 0;
  rtm_protocol = 3;
  rtm_scope = scope;
  rtm_type = typ;
  rtm_flags = 0;
}

unfoldable pub pbr_header : ℕ → ℕ → ℕ → ℕ → NlmsgHdr
pbr_header len nlmsg_type flags seq = record {
  nlmsg_len = len;
  nlmsg_type = nlmsg_type;
  nlmsg_flags = flags;
  nlmsg_seq = seq;
  nlmsg_pid = 0;
}

unfoldable pub start_rt_message : ℕ → ℕ → ℕ → RtMsg → List ℕ
unfolding append_zeros pbr_header
start_rt_message nlmsg_type flags seq rtm =
    let msg = append_zeros [] (nlmsghdr_len + rtmsg_len) in
    let header = pbr_header (length msg % 2 ^ 32) nlmsg_type flags seq in
    copy_at (copy_at msg 0 (nlmsghdr_bytes header)) nlmsghdr_len (rtmsg_bytes rtm)

-- The length is written over the one that the header started with.
unfoldable pub finish_rt_message : List ℕ → List ℕ
unfolding append_zeros
finish_rt_message msg =
    let len = length msg in
    let with_len = copy_at msg 0 (le_bytes 4 (len % 2 ^ 32)) in
    let aligned = nlmsg_align len in
    if ltb len aligned then append_zeros with_len (aligned - len) else with_len

unfoldable pub rule_flags : ℕ → ℕ
rule_flags nlmsg_type =
    let flags = bit_or nlm_f_request nlm_f_ack in
    if nlmsg_type == rtm_newrule then bit_or flags (bit_or nlm_f_create nlm_f_excl) else flags

unfoldable pub route_flags : ℕ → ℕ
route_flags nlmsg_type =
    let flags = bit_or nlm_f_request nlm_f_ack in
    if nlmsg_type == rtm_newroute then bit_or flags (bit_or nlm_f_create nlm_f_replace) else flags

-- The arguments are the type, the family, the mark, the mask, the table, the preference and the number.
unfoldable pub build_pbr_rule_message : ℕ → ℕ → ℕ → ℕ → ℕ → ℕ → ℕ → List ℕ
unfolding start_rt_message finish_rt_message append_nla_u32
build_pbr_rule_message nlmsg_type family mark mask table pref seq =
    let rtm = pbr_rtmsg family table 0 1 in
    let started = start_rt_message nlmsg_type (rule_flags nlmsg_type) seq rtm in
    let with_mark = append_nla_u32 started fra_attr_fwmark mark in
    let with_mask = append_nla_u32 with_mark fra_attr_fwmask mask in
    let with_pref = append_nla_u32 with_mask fra_attr_priority pref in
    finish_rt_message (append_nla_u32 with_pref fra_attr_table table)

-- The arguments are the type, the family, the table, the interface and the number.
unfoldable pub build_pbr_route_message : ℕ → ℕ → ℕ → ℕ → ℕ → List ℕ
unfolding start_rt_message finish_rt_message append_nla_u32
build_pbr_route_message nlmsg_type family table oif seq =
    let rtm = pbr_rtmsg family table 254 2 in
    let started = start_rt_message nlmsg_type (route_flags nlmsg_type) seq rtm in
    finish_rt_message
      (append_nla_u32 (append_nla_u32 started rta_attr_oif oif) fra_attr_table table)
