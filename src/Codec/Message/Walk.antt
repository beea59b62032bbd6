-- ===== src/Codec/Message/Walk.antt =====
-- The iterator of src/netlink/codec.rs ends on every packet, and reads back what was sent.
use addrsyncd.Base.{
  ℕ, zero, suc, ◌+◌, ◌-◌, ◌≤◌, ◌<◌, ◌≡◌, ◌≢◌, refl, ap, ◌∙◌, List, [], ◌∷◌, ◌++◌, arith, ok, err,
  some, length, drop, slice, replicate, All, length-append, length-drop, length-replicate,
  take-append_of_length, drop-append_of_length, inl, inr, Option-cases,
}
use mathlib.Core.List.{append_assoc, map}
use addrsyncd.Error.{out_of_fuel}
use addrsyncd.LinuxTypes.{NlmsgHdr, nlmsghdr_bytes, read_nlmsghdr}
use addrsyncd.LinuxTypes.RoundTrip.{IsHdr, read_nlmsghdr-nlmsghdr_bytes, length-nlmsghdr_bytes}
use addrsyncd.Codec.Nla.{nla_align}
use addrsyncd.Codec.Message.{NetlinkMessageView, Item, nlmsg_align, next, items_loop, items}

-- Each item leaves fewer bytes than before, and none is an artefact of the fuel.
next_shrinks :
    (raw rest : List ℕ) (item : Item)
    → next raw ≡ some (item, rest)
    → (length rest < length raw) × (item ≢ err out_of_fuel)
unfolding next
next_shrinks raw rest item e =
    ground (arith, length-drop (nlmsg_align ((read_nlmsghdr raw).nlmsg_len)) raw)

items_loop-ne-out_of_fuel :
    (fuel : ℕ) (raw : List ℕ)
    → length raw < fuel
    → All (λ item. item ≢ err out_of_fuel) (items_loop fuel raw)
unfolding items_loop
items_loop-ne-out_of_fuel zero raw h = absurd (omega arith)
items_loop-ne-out_of_fuel (suc fuel) raw h = elim (Option-cases (next raw)) [
  | inl e ↦ rw (e, items_loop) tt
  | inr ((item, rest), e) ↦
      let (less, real) = next_shrinks raw rest item e in
      rw (e, items_loop) (real, items_loop-ne-out_of_fuel fuel rest (omega arith))
]

-- The iteration ends on every packet, however malformed: no item of it is the mark of used-up fuel.
pub items-ne-out_of_fuel : (raw : List ℕ) → All (λ item. item ≢ err out_of_fuel) (items raw)
unfolding items
items-ne-out_of_fuel raw = items_loop-ne-out_of_fuel (suc (length raw)) raw (omega arith)

items_loop_step :
    (fuel : ℕ) (raw rest : List ℕ) (item : Item)
    → next raw ≡ some (item, rest)
    → items_loop (suc fuel) raw ≡ item ∷ items_loop fuel rest
unfolding items_loop
items_loop_step fuel raw rest item e = rw (e, items_loop)

-- A message as it stands in a packet: header, body, zeros up to four bytes.
abbrev pub frame : NlmsgHdr → List ℕ → List ℕ
frame h body = nlmsghdr_bytes h ++ (body ++ replicate (nlmsg_align h.nlmsg_len - h.nlmsg_len) 0)

abbrev pub IsFrame : NetlinkMessageView → Type 0
IsFrame v = IsHdr v.header × (v.header.nlmsg_len ≡ 16 + length v.body)

next_parts :
    (raw rest b : List ℕ) (h : NlmsgHdr)
    → read_nlmsghdr raw ≡ h
    → 16 ≤ h.nlmsg_len
    → h.nlmsg_len ≤ length raw
    → nlmsg_align h.nlmsg_len ≤ length raw
    → slice 16 h.nlmsg_len raw ≡ b
    → drop (nlmsg_align h.nlmsg_len) raw ≡ rest
    → next raw ≡ some (ok (record { header = h; body = b }), rest)
unfolding next
next_parts raw rest b h e h1 h2 h3 e1 e2 = rw e (ground arith)

length-frame :
    (v : NetlinkMessageView)
    → IsFrame v
    → length (frame v.header v.body) ≡ nlmsg_align v.header.nlmsg_len
unfolding nlmsg_align
length-frame v (h, e) =
    rw (length-append, length-nlmsghdr_bytes, length-append, length-replicate)
      (unfold nla_align in omega arith)

pub next-frame :
    (v : NetlinkMessageView) (rest : List ℕ)
    → IsFrame v
    → next (frame v.header v.body ++ rest) ≡ some (ok v, rest)
next-frame v rest (h, e) =
    let hb : List ℕ = nlmsghdr_bytes v.header in
    let len : ℕ = v.header.nlmsg_len in
    let pad : List ℕ = replicate (nlmsg_align len - len) 0 in
    let whole = length-frame v (h, e) in
    let long = length-append (frame v.header v.body) rest in
    let fits : len ≤ nlmsg_align len = unfold nlmsg_align nla_align in omega arith in
    next_parts (frame v.header v.body ++ rest) rest v.body v.header
      (rw append_assoc (read_nlmsghdr-nlmsghdr_bytes v.header _ h)) (omega arith) (omega arith)
      (omega arith)
      (rw
        (append_assoc, drop-append_of_length 16 hb _ (length-nlmsghdr_bytes v.header), append_assoc)
        (take-append_of_length (len - 16) v.body (pad ++ rest) (omega arith)))
      (drop-append_of_length (nlmsg_align len) (frame v.header v.body) rest whole)

-- Messages one behind the other.
abbrev pub frames : List NetlinkMessageView → List ℕ
frames [] = []
frames (v ∷ vs) = frame v.header v.body ++ frames vs

items_loop-frames :
    (vs : List NetlinkMessageView) (fuel : ℕ)
    → All IsFrame vs
    → length (frames vs) < fuel
    → items_loop fuel (frames vs) ≡ map ok vs
items_loop-frames vs zero h hf = absurd (omega arith)
items_loop-frames [] (suc fuel) h hf = unfold items_loop next in refl
items_loop-frames (v ∷ vs) (suc fuel) (hv, h) hf =
    let step = next-frame v (frames vs) hv in
    let less = (next_shrinks _ _ _ step).0 in
    items_loop_step fuel _ _ _ step ∙ ap (◌∷◌ (ok v)) (items_loop-frames vs fuel h (omega arith))

-- A packet of well-formed messages, whose lengths are those of their bodies and whose headers fit their
-- widths, is read as exactly those messages, in order.
pub items-frames : (vs : List NetlinkMessageView) → All IsFrame vs → items (frames vs) ≡ map ok vs
unfolding items
items-frames vs h = items_loop-frames vs (suc (length (frames vs))) h (omega arith)
