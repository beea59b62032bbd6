-- ===== src/Cleanup/Recognise.antt =====
-- The rule dump's reader (src/netlink/cleanup.rs) recognises the daemon's own messages, and no rule
-- of another preference, table or family.
use addrsyncd.Base.{
  ℕ, ◌^◌, ◌≤◌, ◌<◌, ◌≡◌, refl, ap, ◌∙◌, ◌&&◌, true, false, List, [], ◌∷◌, ◌++◌, arith, ◌==◌,
  if◌then◌else◌, Bool-cases, ==_iff, inl, inr, ok, some, none, length, drop, take_all, replicate,
  copy_at, take-append_of_length, drop-append_of_length, length-append,
}
use mathlib.Core.List.{append-nil}
use addrsyncd.Base.Bytes.{le_bytes, le_value, length-le_bytes}
use addrsyncd.IpKey.{IpAddr, IsIp}
use addrsyncd.LinuxTypes.{RtMsg, rtmsg_bytes, read_rtmsg}
use addrsyncd.LinuxTypes.RoundTrip.{read_rtmsg-rtmsg_bytes, length-rtmsg_bytes}
use addrsyncd.Codec.Nla.{parse_nlas}
use addrsyncd.Codec.Nla.RoundTrip.{nlas, parse_nlas-nlas}
use addrsyncd.Codec.Message.{NetlinkMessageView, items}
use addrsyncd.Codec.Message.Walk.{IsFrame, items-frames}
use addrsyncd.Rule.{
  RuleOp, RuleContext, rule_rtmsg, rule_request, build_rule_message_into, addr_from_netlink,
}
use addrsyncd.Rule.Message.{
  octets_of, family_of, prefix_of, rule_attrs, rule_body, rule_header, length-octets_of,
  length-rule_body, build_rule_message_into-frame,
}
use addrsyncd.Cleanup.{
  RawAddrBuf, RuleFields, as_slice, note_rule_attr, match_rule, parse_cleanup_rule_addr,
}

abbrev pub IsCtx : RuleContext → Type 0
IsCtx ctx = (ctx.pref < 2 ^ 32) × (ctx.table_id < 2 ^ 32)

abbrev rule_view : RuleContext → RuleOp → ℕ → NetlinkMessageView
rule_view ctx op seq = record { header = rule_header ctx op seq; body = rule_body ctx op }

-- The buffer that `from_slice` makes of 1 to 16 octets.
abbrev buffer : List ℕ → RawAddrBuf
buffer o = record { bytes = copy_at (replicate 16 0) 0 o; len = length o }

as_slice-buffer : (o : List ℕ) → as_slice (buffer o) ≡ o
unfolding as_slice
as_slice-buffer o = take-append_of_length (length o) o _ refl

note_dst :
    (f : RuleFields) (a : IpAddr)
    → IsIp a
    → note_rule_attr f 1 (octets_of a) ≡ (record f { dst = some (buffer (octets_of a)) }, ok tt)
unfolding note_rule_attr
note_dst f (IpAddr.v4 o) (h, _) = ground arith
note_dst f (IpAddr.v6 o) (h, _) = ground arith

note_pref :
    (f : RuleFields) (v : ℕ)
    → v < 2 ^ 32
    → note_rule_attr f 6 (le_bytes 4 v) ≡ (record f { pref = v; has_pref = true }, ok tt)
unfolding note_rule_attr le_bytes le_value
note_pref f v h = ground arith

note_table :
    (f : RuleFields) (v : ℕ)
    → v < 2 ^ 32
    → note_rule_attr f 15 (le_bytes 4 v) ≡ (record f { table_id = v }, ok tt)
unfolding note_rule_attr le_bytes le_value
note_table f v h = ground arith

-- The fields that the walk over the message's attributes leaves.
abbrev noted : RuleContext → RuleOp → RuleFields
noted ctx op = record {
  table_id = ctx.table_id;
  pref = ctx.pref;
  has_pref = true;
  dst = some (buffer (octets_of op.addr));
}

noted_fields :
    (ctx : RuleContext) (op : RuleOp) (f : RuleFields)
    → IsIp op.addr
    → IsCtx ctx
    → parse_nlas note_rule_attr (nlas (rule_attrs ctx op)) f ≡ (noted ctx op, ok tt)
noted_fields ctx op f h (hp, ht) =
    let f1 : RuleFields = record f { dst = some (buffer (octets_of op.addr)) } in
    let f2 : RuleFields = record f1 { pref = ctx.pref; has_pref = true } in
    parse_nlas-nlas note_rule_attr (rule_attrs ctx op) f (noted ctx op) (
      omega arith,
      omega (arith, length-octets_of op.addr h),
      (
        f1,
        note_dst f op.addr h,
        (
          omega arith,
          omega (arith, length-le_bytes 4 ctx.pref),
          (
            f2,
            note_pref f1 ctx.pref hp,
            (
              omega arith,
              omega (arith, length-le_bytes 4 ctx.table_id),
              (noted ctx op, note_table f2 ctx.table_id ht, refl),
            ),
          ),
        ),
      ),
    )

-- The octets and the family of an address give it back.
addr_from_netlink-octets_of :
    (a : IpAddr) → IsIp a → addr_from_netlink (family_of a) (octets_of a) ≡ some a
unfolding addr_from_netlink
addr_from_netlink-octets_of (IpAddr.v4 o) (h, _) = ground (arith, take_all 4 o)
addr_from_netlink-octets_of (IpAddr.v6 o) (h, _) = ground (arith, take_all 16 o)

matched :
    (ctx own : RuleContext) (op : RuleOp)
    → IsIp op.addr
    → match_rule ctx (family_of op.addr) (noted own op)
      ≡ (if (own.pref == ctx.pref) && (own.table_id == ctx.table_id) then some op.addr else none)
unfolding match_rule
matched ctx own op h =
    rw (as_slice-buffer (octets_of op.addr), addr_from_netlink-octets_of op.addr h) (ground arith)

-- The reader's checks, once the route message is read and its attributes are walked.
parse_parts :
    (msg : NetlinkMessageView) (ctx : RuleContext) (family : ℕ) (rtm : RtMsg) (f : RuleFields)
    → read_rtmsg msg.body ≡ rtm
    → parse_nlas note_rule_attr
        (drop 12 msg.body)
        (record { table_id = rtm.rtm_table; pref = 0; has_pref = false; dst = none })
      ≡ (f, ok tt)
    → 12 ≤ length msg.body
    → rtm.rtm_family ≡ family
    → (rtm.rtm_dst_len ≡ (if family == 2 then 32 else 128))
    → parse_cleanup_rule_addr msg ctx family ≡ ok (match_rule ctx family f)
unfolding parse_cleanup_rule_addr
parse_parts msg ctx family rtm f e1 e2 h e3 e4 = rw e1 (rw e2 (ground arith))

parse_other_family :
    (msg : NetlinkMessageView) (ctx : RuleContext) (family : ℕ)
    → ((read_rtmsg msg.body).rtm_family == family) ≡ false
    → parse_cleanup_rule_addr msg ctx family ≡ ok none
unfolding parse_cleanup_rule_addr
parse_other_family msg ctx family e = ground arith

prefix_of_family : (a : IpAddr) → prefix_of a ≡ (if family_of a == 2 then 32 else 128)
prefix_of_family (IpAddr.v4 o) = refl
prefix_of_family (IpAddr.v6 o) = refl

-- The reader's answer on a rule message of any preference and table.
parse_rule_body :
    (ctx own : RuleContext) (op : RuleOp) (seq family : ℕ)
    → IsIp op.addr
    → IsCtx own
    → parse_cleanup_rule_addr (rule_view own op seq) ctx family
      ≡ ok (
          if (family_of op.addr == family)
            && ((own.pref == ctx.pref) && (own.table_id == ctx.table_id))
          then some op.addr
          else none)
parse_rule_body ctx own op seq family h hc =
    let rtm : RtMsg = rule_rtmsg own (family_of op.addr) (prefix_of op.addr) in
    let back : drop 12 (rtmsg_bytes rtm ++ nlas (rule_attrs own op)) ≡ nlas (rule_attrs own op) =
      drop-append_of_length 12 (rtmsg_bytes rtm) _ (length-rtmsg_bytes rtm) in
    let read : read_rtmsg (rule_body own op) ≡ rtm =
      read_rtmsg-rtmsg_bytes rtm (nlas (rule_attrs own op)) (unfold rule_rtmsg in omega arith) in
    elim (Bool-cases (family_of op.addr == family)) [
      | inl same ↦
          let e : family_of op.addr ≡ family = (==_iff _ _).0 same in
          rw same (
            parse_parts (rule_view own op seq) ctx family rtm (noted own op) read
              (rw back (
                noted_fields own op
                  (record { table_id = rtm.rtm_table; pref = 0; has_pref = false; dst = none }) h
                  hc))
              (omega (
                arith,
                length-append (rtmsg_bytes rtm) (nlas (rule_attrs own op)),
                length-rtmsg_bytes rtm,
              ))
              (unfold rule_rtmsg in e) (unfold rule_rtmsg in rw (← e) (prefix_of_family op.addr))
            ∙ ap ok (rw (← e) (matched ctx own op h)))
      | inr other ↦ rw other (
          parse_other_family (rule_view own op seq) ctx family
            (rw read (unfold rule_rtmsg in other)))
    ]

request_small : (op : RuleOp) → ((rule_request op).0 < 2 ^ 16) × ((rule_request op).1 < 2 ^ 16)
unfolding rule_request
request_small op = ground arith

rule_view-IsFrame :
    (own : RuleContext) (op : RuleOp) (seq : ℕ)
    → IsIp op.addr
    → seq < 2 ^ 32
    → IsFrame (rule_view own op seq)
rule_view-IsFrame own op seq h hs =
    let (t, f) = request_small op in
    ((omega (arith, length-rule_body own op h), t, f, hs, omega arith), refl)

-- For a well-formed address, a preference and a table of 32 bits and a sequence number of 32 bits: the
-- packet that asks for the rule holds one message, and the reader of the rule dump takes from it the
-- same address if its preference, its table and the dumped family agree, and passes it over otherwise.
pub parse_cleanup_rule_addr-build_rule_message_into :
    (ctx own : RuleContext) (op : RuleOp) (seq family : ℕ)
    → IsIp op.addr
    → IsCtx own
    → seq < 2 ^ 32
    → (msg : NetlinkMessageView) × (items (build_rule_message_into [] own op seq) ≡ ok msg ∷ [])
      × (parse_cleanup_rule_addr msg ctx family
          ≡ ok (
              if (family_of op.addr == family)
                && ((own.pref == ctx.pref) && (own.table_id == ctx.table_id))
              then some op.addr
              else none))
parse_cleanup_rule_addr-build_rule_message_into ctx own op seq family h hc hs =
    let view : NetlinkMessageView = rule_view own op seq in
    (
      view,
      rw (build_rule_message_into-frame [] own op seq h)
          (rw append-nil at (items-frames (view ∷ []) (rule_view-IsFrame own op seq h hs, tt))),
      parse_rule_body ctx own op seq family h hc,
    )
