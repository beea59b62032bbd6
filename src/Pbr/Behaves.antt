-- ===== src/Pbr/Behaves.antt =====
-- What the other side of src/netlink/pbr.rs has to do for a request, and what sending it comes to.
use addrsyncd.Base.{
  sym, Result, err, ℕ, zero, suc, ◌-◌, ◌<◌, ◌≡◌, refl, ◌∙◌, ap, max, Bool, true, false, List, arith,
  ok, Bool-cases, inl, inr, ◌⊎◌, some, ◌^◌,
}
use addrsyncd.Error.{AppError, netlink, pbr_failed}
use addrsyncd.LinuxTypes.{
  NlmsgHdr, read_nlmsghdr, rtm_newroute, rtm_delroute, rtm_newrule, rtm_delrule,
}
use addrsyncd.Codec.Ack.{AckErrorInfo}
use addrsyncd.Cli.{PbrRequest, as_i32}
use addrsyncd.Pbr.{
  acked, noop, kernel_err, PbrOp, add_rule, delete_rule, replace_route, delete_route,
  classify_pbr_ack, pbr_header,
}
use addrsyncd.Pbr.Exchange.{Kernel, PbrState, send_pbr_message_classified, send_pbr_message}
use addrsyncd.Pbr.Request.{rule_message, route_message}
use addrsyncd.Pbr.Frames.{build_pbr_rule_message-header, build_pbr_route_message-header}
use addrsyncd.Pbr.Acks.{
  Acknowledges, sent_acked, sent_noop, sent_failed, send_acked, send_noop, same_side,
}

-- What there is of the target: equal rules, which the system may hold several times, and the route.
pub record Target : Type 0 where
  pub rules : ℕ
  pub route : Bool

-- The numbers in use.
abbrev pub IsSeq : ℕ → Type 0
IsSeq n = n < 2 ^ 32

-- The codes of `EPERM`, `ENOENT`, `ESRCH` and `EEXIST`.
abbrev pub not_permitted : ℕ
not_permitted = 2 ^ 32 - 1

abbrev pub no_entry : ℕ
no_entry = 2 ^ 32 - 2

abbrev pub no_such : ℕ
no_such = 2 ^ 32 - 3

abbrev pub exists : ℕ
exists = 2 ^ 32 - 17

-- What there is, and what is said, after a request for a rule that the system grants or not.
abbrev pub rules_after : Bool → ℕ → ℕ
rules_after true n = max 1 n
rules_after false n = n

abbrev pub verdict : Bool → Result AppError (Unit {0})
verdict true = ok tt
verdict false = err (netlink pbr_failed)

-- The system keeps to its documentation for this request. What it does, and how it acknowledges it: it
-- deletes one rule, or says that there is none; it deletes the route, or says that there is none; it
-- puts the route in place; and if it grants the rule it adds it, or says, for `NLM_F_EXCL`, that there is
-- one, and otherwise says that it does not.
pub record Behaves {K : Type 0} (kernel : Kernel K) (r : PbrRequest) (lo : ℕ) (target : K → Target)
    (grants : Bool) : Type 0 where
  pub deletes_rule :
      (k : K) (seq n : ℕ)
      → IsSeq seq
      → (target k).rules ≡ suc n
      → let after = kernel.exchange k (rule_message rtm_delrule r seq) in
        Acknowledges after.1 seq 0 × (target after.0 ≡ record (target k) { rules = n })
  pub misses_rule :
      (k : K) (seq : ℕ)
      → IsSeq seq
      → (target k).rules ≡ 0
      → let after = kernel.exchange k (rule_message rtm_delrule r seq) in
        Acknowledges after.1 seq no_entry × (target after.0 ≡ target k)
  pub deletes_route :
      (k : K) (seq : ℕ)
      → IsSeq seq
      → (target k).route ≡ true
      → let after = kernel.exchange k (route_message rtm_delroute r lo seq) in
        Acknowledges after.1 seq 0 × (target after.0 ≡ record (target k) { route = false })
  pub misses_route :
      (k : K) (seq : ℕ)
      → IsSeq seq
      → (target k).route ≡ false
      → let after = kernel.exchange k (route_message rtm_delroute r lo seq) in
        Acknowledges after.1 seq no_such × (target after.0 ≡ target k)
  pub replaces_route :
      (k : K) (seq : ℕ)
      → IsSeq seq
      → let after = kernel.exchange k (route_message rtm_newroute r lo seq) in
        Acknowledges after.1 seq 0 × (target after.0 ≡ record (target k) { route = true })
  pub adds_rule :
      (k : K) (seq : ℕ)
      → IsSeq seq
      → grants ≡ true
      → (target k).rules ≡ 0
      → let after = kernel.exchange k (rule_message rtm_newrule r seq) in
        Acknowledges after.1 seq 0 × (target after.0 ≡ record (target k) { rules = 1 })
  pub refuses_rule :
      (k : K) (seq n : ℕ)
      → IsSeq seq
      → grants ≡ true
      → (target k).rules ≡ suc n
      → let after = kernel.exchange k (rule_message rtm_newrule r seq) in
        Acknowledges after.1 seq exists × (target after.0 ≡ target k)
  pub denies_rule :
      (k : K) (seq : ℕ)
      → IsSeq seq
      → grants ≡ false
      → let after = kernel.exchange k (rule_message rtm_newrule r seq) in
        Acknowledges after.1 seq not_permitted × (target after.0 ≡ target k)

rule_number :
    (r : PbrRequest) (typ seq : ℕ)
    → typ < 2 ^ 16
    → IsSeq seq
    → (read_nlmsghdr (rule_message typ r seq)).nlmsg_seq ≡ seq
unfolding rule_message pbr_header
rule_number r typ seq ht hs =
    ap (λ (h : NlmsgHdr). h.nlmsg_seq)
      (build_pbr_rule_message-header typ (as_i32 r.family) r.mark r.mask r.table r.pref seq ht hs)

route_number :
    (r : PbrRequest) (typ oif seq : ℕ)
    → typ < 2 ^ 16
    → IsSeq seq
    → (read_nlmsghdr (route_message typ r oif seq)).nlmsg_seq ≡ seq
unfolding route_message pbr_header
route_number r typ oif seq ht hs =
    ap (λ (h : NlmsgHdr). h.nlmsg_seq)
      (build_pbr_route_message-header typ (as_i32 r.family) r.table oif seq ht hs)

-- What sending the messages to such a system comes to.
pub record Sends {K : Type 0} (kernel : Kernel K) (r : PbrRequest) (lo : ℕ) (target : K → Target)
    (grants : Bool) : Type 0 where
  pub deletes_none :
      (st : PbrState K) (seq : ℕ)
      → IsSeq seq
      → (target st.side).rules ≡ 0
      → let after =
          send_pbr_message_classified kernel delete_rule (rule_message rtm_delrule r seq) st in
        (after.1 ≡ ok noop) × (target after.0.side ≡ target st.side)
  pub deletes_one :
      (st : PbrState K) (seq n : ℕ)
      → IsSeq seq
      → (target st.side).rules ≡ suc n
      → let after =
          send_pbr_message_classified kernel delete_rule (rule_message rtm_delrule r seq) st in
        (after.1 ≡ ok acked) × (target after.0.side ≡ record (target st.side) { rules = n })
  pub deletes_route :
      (st : PbrState K) (seq : ℕ)
      → IsSeq seq
      → let after = send_pbr_message kernel delete_route (route_message rtm_delroute r lo seq) st in
        (after.1 ≡ ok tt) × (target after.0.side ≡ record (target st.side) { route = false })
  pub replaces_route :
      (st : PbrState K) (seq : ℕ)
      → IsSeq seq
      → let after =
          send_pbr_message kernel replace_route (route_message rtm_newroute r lo seq) st in
        (after.1 ≡ ok tt) × (target after.0.side ≡ record (target st.side) { route = true })
  pub adds_rule :
      (st : PbrState K) (seq : ℕ)
      → IsSeq seq
      → let after = send_pbr_message kernel add_rule (rule_message rtm_newrule r seq) st in
        (after.1 ≡ verdict grants)
        × (target after.0.side
            ≡ record (target st.side) { rules = rules_after grants (target st.side).rules })

ℕ-cases : (n : ℕ) → (n ≡ 0) ⊎ ((m : ℕ) × (n ≡ suc m))
ℕ-cases zero = inl refl
ℕ-cases (suc m) = inr (m, refl)

-- An error with this number says that there is nothing to do.
missing_rule :
    (status : AckErrorInfo)
    → status.errno ≡ 2 ^ 32 - no_entry
    → classify_pbr_ack delete_rule (some status) ≡ noop
unfolding classify_pbr_ack
missing_rule status e = ground arith

missing_route :
    (status : AckErrorInfo)
    → status.errno ≡ 2 ^ 32 - no_such
    → classify_pbr_ack delete_route (some status) ≡ noop
unfolding classify_pbr_ack
missing_route status e = ground arith

present_rule :
    (status : AckErrorInfo)
    → status.errno ≡ 2 ^ 32 - exists
    → classify_pbr_ack add_rule (some status) ≡ noop
unfolding classify_pbr_ack
present_rule status e = ground arith

denied_rule :
    (status : AckErrorInfo)
    → status.errno ≡ 2 ^ 32 - not_permitted
    → classify_pbr_ack add_rule (some status) ≡ kernel_err
unfolding classify_pbr_ack
denied_rule status e = ground arith

module _ {K : Type 0} (kernel : Kernel K) (r : PbrRequest) (lo : ℕ) (target : K → Target)
    (grants : Bool) where
  -- A message that is acknowledged, or refused because there is nothing to do, is settled.
  settled_by :
      (op : PbrOp) (msg : List ℕ) (st : PbrState K) (seq : ℕ) (t : Target)
      → (read_nlmsghdr msg).nlmsg_seq ≡ seq
      → let after = kernel.exchange st.side msg in
        Acknowledges after.1 seq 0 × (target after.0 ≡ t)
        → let sent = send_pbr_message kernel op msg st in
          (sent.1 ≡ ok tt) × (target sent.0.side ≡ t)
  settled_by op msg st seq t number (a, is) =
      let (class, side) = sent_acked kernel op msg st seq number a in
      (send_acked kernel op msg st class, ap target (same_side kernel op msg st ∙ side) ∙ is)

  settled_without :
      (op : PbrOp) (msg : List ℕ) (st : PbrState K) (seq code : ℕ) (t : Target)
      → (read_nlmsghdr msg).nlmsg_seq ≡ seq
      → 0 < code
      → code < 2 ^ 32
      → ((status : AckErrorInfo)
          → status.errno ≡ 2 ^ 32 - code
          → classify_pbr_ack op (some status) ≡ noop)
      → let after = kernel.exchange st.side msg in
        Acknowledges after.1 seq code × (target after.0 ≡ t)
        → let sent = send_pbr_message kernel op msg st in
          (sent.1 ≡ ok tt) × (target sent.0.side ≡ t)
  settled_without op msg st seq code t number p h means (a, is) =
      let (class, side) = sent_noop kernel op msg st seq code number p h means a in
      (send_noop kernel op msg st class, ap target (same_side kernel op msg st ∙ side) ∙ is)

  route_off :
      (b : Behaves kernel r lo target grants) (st : PbrState K) (seq : ℕ)
      → IsSeq seq
      → let sent = send_pbr_message kernel delete_route (route_message rtm_delroute r lo seq) st in
        (sent.1 ≡ ok tt) × (target sent.0.side ≡ record (target st.side) { route = false })
  route_off b st seq h =
      let msg : List ℕ = route_message rtm_delroute r lo seq in
      let number = route_number r rtm_delroute lo seq (omega arith) h in
      elim (Bool-cases (target st.side).route) [
        | inl on ↦ settled_by delete_route msg st seq _ number (b.deletes_route st.side seq h on)
        | inr off ↦
            let (a, same) = b.misses_route st.side seq h off in
            settled_without delete_route msg st seq no_such _ number (omega arith) (omega arith)
              missing_route (a, same ∙ rw off refl)
      ]

  rule_granted :
      (b : Behaves kernel r lo target grants) (st : PbrState K) (seq : ℕ)
      → IsSeq seq
      → grants ≡ true
      → let sent = send_pbr_message kernel add_rule (rule_message rtm_newrule r seq) st in
        (sent.1 ≡ ok tt)
        × (target sent.0.side ≡ record (target st.side) { rules = max 1 (target st.side).rules })
  rule_granted b st seq h g =
      let msg : List ℕ = rule_message rtm_newrule r seq in
      let number = rule_number r rtm_newrule seq (omega arith) h in
      elim (ℕ-cases (target st.side).rules) [
        | inl e ↦
            let (a, one) = b.adds_rule st.side seq h g e in
            settled_by add_rule msg st seq _ number (a, one ∙ rw e refl)
        | inr (n, e) ↦
            let (a, same) = b.refuses_rule st.side seq n h g e in
            let kept : (target st.side).rules ≡ max 1 (target st.side).rules = omega arith in
            settled_without add_rule msg st seq exists _ number (omega arith) (omega arith)
              present_rule (a, same ∙ ap (λ (m : ℕ). record (target st.side) { rules = m }) kept)
      ]

  rule_denied :
      (b : Behaves kernel r lo target grants) (st : PbrState K) (seq : ℕ)
      → IsSeq seq
      → grants ≡ false
      → let sent = send_pbr_message kernel add_rule (rule_message rtm_newrule r seq) st in
        (sent.1 ≡ err (netlink pbr_failed)) × (target sent.0.side ≡ target st.side)
  rule_denied b st seq h g =
      let msg : List ℕ = rule_message rtm_newrule r seq in
      let number = rule_number r rtm_newrule seq (omega arith) h in
      let (a, same) = b.denies_rule st.side seq h g in
      let (failed, side) =
        sent_failed kernel add_rule msg st seq not_permitted number (omega arith) (omega arith)
          denied_rule a in
      (failed, ap target side ∙ same)

  rule_added :
      (b : Behaves kernel r lo target grants) (st : PbrState K) (seq : ℕ)
      → IsSeq seq
      → let sent = send_pbr_message kernel add_rule (rule_message rtm_newrule r seq) st in
        (sent.1 ≡ verdict grants)
        × (target sent.0.side
            ≡ record (target st.side) { rules = rules_after grants (target st.side).rules })
  rule_added b st seq h = elim (Bool-cases grants) [
    | inl granted ↦
        let (fine, there) = rule_granted b st seq h granted in
        (fine ∙ ap verdict (sym granted), there ∙ rw granted refl)
    | inr denied ↦
        let (failed, same) = rule_denied b st seq h denied in
        (failed ∙ ap verdict (sym denied), same ∙ rw denied refl)
  ]

  pub Behaves-Sends : Behaves kernel r lo target grants → Sends kernel r lo target grants
  Behaves-Sends b = record {
    deletes_none = λ st seq h e.
        let (a, same) = b.misses_rule st.side seq h e in
        let number = rule_number r rtm_delrule seq (omega arith) h in
        let (class, side) =
          sent_noop kernel delete_rule (rule_message rtm_delrule r seq) st seq no_entry number
            (omega arith) (omega arith) missing_rule a in
        (class, ap target side ∙ same);
    deletes_one = λ st seq n h e.
        let (a, fewer) = b.deletes_rule st.side seq n h e in
        let number = rule_number r rtm_delrule seq (omega arith) h in
        let (class, side) =
          sent_acked kernel delete_rule (rule_message rtm_delrule r seq) st seq number a in
        (class, ap target side ∙ fewer);
    deletes_route = route_off b;
    replaces_route = λ st seq h.
        settled_by replace_route (route_message rtm_newroute r lo seq) st seq _
          (route_number r rtm_newroute lo seq (omega arith) h) (b.replaces_route st.side seq h);
    adds_rule = rule_added b;
  }
