-- ===== src/Rule/Message.antt =====
-- The rule message of src/netlink/rule.rs is one well-formed netlink message: its header, the route
-- message, and the three attributes, all aligned.
use addrsyncd.Base.{
  ℕ, ◌+◌, ◌-◌, ◌%◌, ◌^◌, ◌≤◌, ◌<◌, ◌≡◌, refl, sym, List, [], ◌∷◌, ◌++◌, arith, length, take,
  replicate, copy_at, length-append, take-append_of_length,
}
use mathlib.Core.List.{append_assoc, append-nil}
use addrsyncd.Base.Bytes.{le_bytes, length-le_bytes}
use addrsyncd.IpKey.{IpAddr, IsIp}
use addrsyncd.LinuxTypes.{RtMsg, NlmsgHdr, rtmsg_bytes, nlmsghdr_bytes, af_inet, af_inet6}
use addrsyncd.LinuxTypes.RoundTrip.{length-rtmsg_bytes, length-nlmsghdr_bytes}
use addrsyncd.Codec.Nla.{nla_align, append_zeros, append_nla, append_nla_u32}
use addrsyncd.Codec.Nla.RoundTrip.{nla, nlas, append_nla-nla, length-nla, copy_at_end}
use addrsyncd.Codec.Message.{nlmsg_align}
use addrsyncd.Codec.Message.Walk.{frame}
use addrsyncd.Rule.{
  RuleOp, RuleContext, rule_rtmsg, rule_request, addr_to_netlink, build_rule_message_into,
}

abbrev pub octets_of : IpAddr → List ℕ
octets_of (IpAddr.v4 o) = o
octets_of (IpAddr.v6 o) = o

abbrev pub family_of : IpAddr → ℕ
family_of (IpAddr.v4 o) = af_inet
family_of (IpAddr.v6 o) = af_inet6

abbrev pub prefix_of : IpAddr → ℕ
prefix_of (IpAddr.v4 o) = 32
prefix_of (IpAddr.v6 o) = 128

-- The attributes of the message, in order.
abbrev pub rule_attrs : RuleContext → RuleOp → List (ℕ × List ℕ)
rule_attrs ctx op =
    (1, octets_of op.addr) ∷ (6, le_bytes 4 ctx.pref) ∷ (15, le_bytes 4 ctx.table_id) ∷ []

abbrev pub rule_body : RuleContext → RuleOp → List ℕ
rule_body ctx op =
    rtmsg_bytes (rule_rtmsg ctx (family_of op.addr) (prefix_of op.addr)) ++ nlas (rule_attrs ctx op)

abbrev pub rule_header : RuleContext → RuleOp → ℕ → NlmsgHdr
rule_header ctx op seq = record {
  nlmsg_len = 16 + length (rule_body ctx op);
  nlmsg_type = (rule_request op).0;
  nlmsg_flags = (rule_request op).1;
  nlmsg_seq = seq;
  nlmsg_pid = 0;
}

pub addr_to_netlink_lem :
    (a : IpAddr)
    → IsIp a
    → let (family, addr, addr_len, dst_len) = addr_to_netlink a in
      (family ≡ family_of a) × (take addr_len addr ≡ octets_of a) × (dst_len ≡ prefix_of a)
unfolding addr_to_netlink
addr_to_netlink_lem (IpAddr.v4 o) (h, _) = (refl, take-append_of_length 4 o _ h, refl)
addr_to_netlink_lem (IpAddr.v6 o) (h, _) = (refl, take-append_of_length 16 o _ h, refl)

pub length-octets_of : (a : IpAddr) → IsIp a → length (octets_of a) ≤ 16
length-octets_of (IpAddr.v4 o) (h, _) = omega arith
length-octets_of (IpAddr.v6 o) (h, _) = omega arith

-- The bytes as they grow, for octets, family and prefix length that are known.
build_frame :
    (dst octets : List ℕ) (rtm : RtMsg) (ctx : RuleContext)
    → 4 + length octets < 2 ^ 16
    → append_nla_u32
        (append_nla_u32
          (append_nla (copy_at (append_zeros dst 28) (length dst + 16) (rtmsg_bytes rtm)) 1 octets)
          6
          ctx.pref)
        15
        ctx.table_id
      ≡ dst
        ++ (replicate 16 0
            ++ (rtmsg_bytes rtm
                ++ nlas
                    ((1, octets) ∷ (6, le_bytes 4 ctx.pref) ∷ (15, le_bytes 4 ctx.table_id) ∷ [])))
unfolding append_nla_u32 append_zeros
build_frame dst octets rtm ctx h =
    let small : (v : ℕ) → 4 + length (le_bytes 4 v) < 2 ^ 16 =
      λ v. omega (arith, length-le_bytes 4 v) in
    let split : copy_at (dst ++ replicate 28 0) (length dst + 16) (rtmsg_bytes rtm)
        ≡ ((dst ++ replicate 16 0) ++ rtmsg_bytes rtm) ++ [] =
      rw append_assoc at (
        copy_at_end (dst ++ replicate 16 0) (replicate 12 0) [] (rtmsg_bytes rtm) (length dst + 16)
          (omega (arith, length-append dst (replicate 16 0))) (sym (length-rtmsg_bytes rtm))) in
    rw
      (
        split,
        append_nla-nla _ 1 octets h,
        append_nla-nla _ 6 (le_bytes 4 ctx.pref) (small ctx.pref),
        append_nla-nla _ 15 (le_bytes 4 ctx.table_id) (small ctx.table_id),
      )
      (simp (append_assoc, append-nil))

pub length-rule_body :
    (ctx : RuleContext) (op : RuleOp) → IsIp op.addr → length (rule_body ctx op) ≤ 76
unfolding nla_align
length-rule_body ctx op h =
    let rtm : RtMsg = rule_rtmsg ctx (family_of op.addr) (prefix_of op.addr) in
    let dst : List ℕ = nla 1 (octets_of op.addr) in
    let pref : List ℕ = nla 6 (le_bytes 4 ctx.pref) in
    let table : List ℕ = nla 15 (le_bytes 4 ctx.table_id) in
    omega (
      arith,
      length-octets_of op.addr h,
      length-rtmsg_bytes rtm,
      length-append (rtmsg_bytes rtm) (dst ++ (pref ++ (table ++ []))),
      length-append dst (pref ++ (table ++ [])),
      length-append pref (table ++ []),
      length-append table [],
      length-nla 1 (octets_of op.addr),
      length-nla 6 (le_bytes 4 ctx.pref),
      length-nla 15 (le_bytes 4 ctx.table_id),
      length-le_bytes 4 ctx.pref,
      length-le_bytes 4 ctx.table_id,
    )

-- The header is written last, over the zeros that were kept for it.
finish_frame :
    (dst body : List ℕ) (header : ℕ → NlmsgHdr)
    → length body ≤ 76
    → let whole = dst ++ (replicate 16 0 ++ body) in
      let msg_len = length whole - length dst in
      append_zeros
        (copy_at whole (length dst) (nlmsghdr_bytes (header (msg_len % 2 ^ 32))))
        (nlmsg_align msg_len - msg_len)
      ≡ dst
        ++ (nlmsghdr_bytes (header (16 + length body))
            ++ (body ++ replicate (nlmsg_align (16 + length body) - (16 + length body)) 0))
unfolding append_zeros
finish_frame dst body header h =
    let len : length (dst ++ (replicate 16 0 ++ body)) - length dst ≡ 16 + length body =
      omega (arith, length-append dst (replicate 16 0 ++ body)) in
    let small : (16 + length body) % 2 ^ 32 ≡ 16 + length body = omega arith in
    rw
      (
        len,
        small,
        copy_at_end dst (replicate 16 0) body (nlmsghdr_bytes (header (16 + length body)))
            (length dst) refl (sym (length-nlmsghdr_bytes (header (16 + length body)))),
      )
      (simp append_assoc)

-- What is written behind `dst` is exactly one message: its header, whose length counts all of
-- it, the route message and the three attributes.
pub build_rule_message_into-frame :
    (dst : List ℕ) (ctx : RuleContext) (op : RuleOp) (seq : ℕ)
    → IsIp op.addr
    → build_rule_message_into dst ctx op seq
      ≡ dst ++ frame (rule_header ctx op seq) (rule_body ctx op)
unfolding build_rule_message_into
build_rule_message_into-frame dst ctx op seq h =
    let (e1, e2, e3) = addr_to_netlink_lem op.addr h in
    rw
      (
        e1,
        e2,
        e3,
        build_frame dst (octets_of op.addr) _ ctx (omega (arith, length-octets_of op.addr h)),
      )
      (finish_frame dst (rule_body ctx op)
        (λ len. record (rule_header ctx op seq) { nlmsg_len = len }) (length-rule_body ctx op h))
