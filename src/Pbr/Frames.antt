-- ===== src/Pbr/Frames.antt =====
-- The messages of src/netlink/pbr.rs as one reads them: one netlink message with its attributes.
use addrsyncd.Base.{
  ℕ, ◌^◌, ◌<◌, ◌≡◌, refl, ap, ◌∙◌, List, [], ◌∷◌, ◌++◌, arith, ok, ◌==◌, Bool-cases, inl, inr,
}
use mathlib.Core.List.{append-nil}
use addrsyncd.Base.Bytes.{le_bytes}
use addrsyncd.LinuxTypes.{NlmsgHdr, rtmsg_bytes, nlmsghdr_bytes, read_nlmsghdr}
use addrsyncd.LinuxTypes.RoundTrip.{IsHdr, read_nlmsghdr-nlmsghdr_bytes}
use addrsyncd.Codec.Nla.{nla_align}
use addrsyncd.Codec.Nla.RoundTrip.{nlas}
use addrsyncd.Codec.Message.{nlmsg_align, items}
use addrsyncd.Codec.Message.Walk.{frame, IsFrame, items-frames}
use addrsyncd.Pbr.{
  pbr_rtmsg, pbr_header, rule_flags, route_flags, build_pbr_rule_message, build_pbr_route_message,
}

-- The attributes of a rule: mark, mask, preference and table.
abbrev pub rule_body : ℕ → ℕ → ℕ → ℕ → ℕ → List ℕ
rule_body family mark mask table pref =
    rtmsg_bytes (pbr_rtmsg family table 0 1)
    ++ nlas (
        (10, le_bytes 4 mark)
        ∷ (16, le_bytes 4 mask)
        ∷ (6, le_bytes 4 pref)
        ∷ (15, le_bytes 4 table)
        ∷ [])

-- The attributes of a route: interface and table.
abbrev pub route_body : ℕ → ℕ → ℕ → List ℕ
route_body family table oif =
    rtmsg_bytes (pbr_rtmsg family table 254 2)
    ++ nlas ((4, le_bytes 4 oif) ∷ (15, le_bytes 4 table) ∷ [])

pub build_pbr_rule_message-frame :
    (typ family mark mask table pref seq : ℕ)
    → build_pbr_rule_message typ family mark mask table pref seq
      ≡ frame (pbr_header 60 typ (rule_flags typ) seq) (rule_body family mark mask table pref)
unfolding build_pbr_rule_message pbr_header pbr_rtmsg rtmsg_bytes nlmsghdr_bytes le_bytes nla_align
    nlmsg_align
build_pbr_rule_message-frame typ family mark mask table pref seq = refl

pub build_pbr_route_message-frame :
    (typ family table oif seq : ℕ)
    → build_pbr_route_message typ family table oif seq
      ≡ frame (pbr_header 44 typ (route_flags typ) seq) (route_body family table oif)
unfolding build_pbr_route_message pbr_header pbr_rtmsg rtmsg_bytes nlmsghdr_bytes le_bytes nla_align
    nlmsg_align
build_pbr_route_message-frame typ family table oif seq = refl

rule_flags_lt : (typ : ℕ) → rule_flags typ < 2 ^ 16
unfolding rule_flags
rule_flags_lt typ = elim (Bool-cases (typ == 32)) [
  | inl new ↦ rw new (omega arith)
  | inr other ↦ rw other (omega arith)
]

route_flags_lt : (typ : ℕ) → route_flags typ < 2 ^ 16
unfolding route_flags
route_flags_lt typ = elim (Bool-cases (typ == 24)) [
  | inl new ↦ rw new (omega arith)
  | inr other ↦ rw other (omega arith)
]

pbr_header-IsHdr :
    (len typ flags seq : ℕ)
    → len < 2 ^ 32
    → typ < 2 ^ 16
    → flags < 2 ^ 16
    → seq < 2 ^ 32
    → IsHdr (pbr_header len typ flags seq)
unfolding pbr_header
pbr_header-IsHdr len typ flags seq hl ht hf hs = (hl, ht, hf, hs, omega arith)

one_item :
    (h : NlmsgHdr) (body : List ℕ)
    → IsFrame (record { header = h; body = body })
    → items (frame h body) ≡ ok (record { header = h; body = body }) ∷ []
one_item h body f =
    simp append-nil at (items-frames (record { header = h; body = body } ∷ []) (f, tt))

-- A rule message is read as one message, with its number and its four attributes.
pub items-build_pbr_rule_message :
    (typ family mark mask table pref seq : ℕ)
    → typ < 2 ^ 16
    → seq < 2 ^ 32
    → items (build_pbr_rule_message typ family mark mask table pref seq)
      ≡ ok (record {
        header = pbr_header 60 typ (rule_flags typ) seq;
        body = rule_body family mark mask table pref;
      })
        ∷ []
items-build_pbr_rule_message typ family mark mask table pref seq ht hs =
    rw (build_pbr_rule_message-frame typ family mark mask table pref seq) (
      one_item (pbr_header 60 typ (rule_flags typ) seq) (rule_body family mark mask table pref) (
        pbr_header-IsHdr 60 typ (rule_flags typ) seq (omega arith) ht (rule_flags_lt typ) hs,
        unfold pbr_header rtmsg_bytes le_bytes nla_align in refl,
      ))

-- The header that the sender reads back, whose number it waits for.
pub build_pbr_rule_message-header :
    (typ family mark mask table pref seq : ℕ)
    → typ < 2 ^ 16
    → seq < 2 ^ 32
    → read_nlmsghdr (build_pbr_rule_message typ family mark mask table pref seq)
      ≡ pbr_header 60 typ (rule_flags typ) seq
build_pbr_rule_message-header typ family mark mask table pref seq ht hs =
    let h = pbr_header-IsHdr 60 typ (rule_flags typ) seq (omega arith) ht (rule_flags_lt typ) hs in
    ap read_nlmsghdr (build_pbr_rule_message-frame typ family mark mask table pref seq)
    ∙ read_nlmsghdr-nlmsghdr_bytes (pbr_header 60 typ (rule_flags typ) seq) _ h

pub build_pbr_route_message-header :
    (typ family table oif seq : ℕ)
    → typ < 2 ^ 16
    → seq < 2 ^ 32
    → read_nlmsghdr (build_pbr_route_message typ family table oif seq)
      ≡ pbr_header 44 typ (route_flags typ) seq
build_pbr_route_message-header typ family table oif seq ht hs =
    let h =
      pbr_header-IsHdr 44 typ (route_flags typ) seq (omega arith) ht (route_flags_lt typ) hs in
    ap read_nlmsghdr (build_pbr_route_message-frame typ family table oif seq)
    ∙ read_nlmsghdr-nlmsghdr_bytes (pbr_header 44 typ (route_flags typ) seq) _ h
