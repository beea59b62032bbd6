-- ===== src/Pbr/Refines.antt =====
-- What a request of src/netlink/pbr.rs does to the rules and the route of its target.
use addrsyncd.Base.{
  Bool, ℕ, zero, suc, ◌-◌, ◌≡◌, refl, ◌∙◌, true, false, List, arith, ◌==◌, Result, ok,
}
use addrsyncd.Error.{AppError}
use addrsyncd.LinuxTypes.{rtm_newroute, rtm_delroute, rtm_newrule, rtm_delrule}
use addrsyncd.Codec.Seq.{next_seq, reserve_seq_block, seq_advance, normalize_seq}
use addrsyncd.Cli.{PbrRequest, PbrAction, apply, cleanup, status}
use addrsyncd.Pbr.{
  PbrAckClass, acked, noop, PbrOp, add_rule, delete_rule, replace_route, delete_route,
}
use addrsyncd.Pbr.Exchange.{Kernel, PbrState, send_pbr_message_classified, send_pbr_message}
use addrsyncd.Pbr.Behaves.{Target, IsSeq, Behaves, Sends, Behaves-Sends, rules_after, verdict}
use addrsyncd.Pbr.Request.{
  delete_rule_limit, rule_message, route_message, send_numbered, delete_rules, and_then,
  cleanup_request, apply_request, run_request,
}

-- The specification of a request, with whether the system grants a rule: what there is after it, and how
-- it ends.
unfoldable pub intended : Bool → PbrAction → Target → Target
intended grants apply t = record { rules = rules_after grants (t.rules - 32); route = true }
intended grants cleanup t = record { rules = t.rules - 32; route = false }
intended grants status t = t

unfoldable pub ending : Bool → PbrAction → Result AppError (Unit {0})
ending grants apply = verdict grants
ending grants cleanup = ok tt
ending grants status = ok tt

next_seq-IsSeq : (n : ℕ) → IsSeq n → IsSeq (next_seq n).0 × IsSeq (next_seq n).1
unfolding next_seq reserve_seq_block seq_advance normalize_seq
next_seq-IsSeq n h = ground arith

-- The result, and a state whose target is `t`.
abbrev pub Reaches :
    {K : Type 0}
    → (K → Target)
    → Result AppError (Unit {0})
    → Target
    → PbrState K × Result AppError (Unit {0})
    → Type 0
Reaches target result t after = (after.1 ≡ result) × (target after.0.side ≡ t) × IsSeq after.0.next

module _ {K : Type 0} (kernel : Kernel K) (r : PbrRequest) (lo : ℕ) (target : K → Target)
    (grants : Bool) (b : Sends kernel r lo target grants) where
  send_keeps_next :
      (op : PbrOp) (msg : List ℕ) (st : PbrState K)
      → (send_pbr_message_classified kernel op msg st).0.next ≡ st.next
  unfolding send_pbr_message_classified
  send_keeps_next op msg st = ground arith

  -- A round of the loop, and what it leaves.
  abbrev round : PbrState K → PbrState K × Result AppError PbrAckClass
  round st =
      send_pbr_message_classified kernel delete_rule
        (rule_message rtm_delrule r (next_seq st.next).0)
        (record st { next = (next_seq st.next).1 })

  round_ends :
      (limit : ℕ) (st : PbrState K)
      → (round st).1 ≡ ok noop
      → delete_rules kernel r (suc limit) st ≡ ((round st).0, ok tt)
  unfolding delete_rules
  round_ends limit st e = ground arith

  round_goes_on :
      (limit : ℕ) (st : PbrState K)
      → (round st).1 ≡ ok acked
      → delete_rules kernel r (suc limit) st ≡ delete_rules kernel r limit (round st).0
  unfolding delete_rules
  round_goes_on limit st e = ground arith

  delete_rules-Reaches :
      (limit : ℕ) (st : PbrState K)
      → IsSeq st.next
      → Reaches target
          (ok tt)
          (record (target st.side) { rules = (target st.side).rules - limit })
          (delete_rules kernel r limit st)
  unfolding delete_rules
  delete_rules-Reaches zero st h = (refl, unfold delete_rules in ground arith, h)
  delete_rules-Reaches (suc limit) st h =
      let (small, small') = next_seq-IsSeq st.next h in
      let st1 : PbrState K = record st { next = (next_seq st.next).1 } in
      let kept : IsSeq (round st).0.next =
        rw (send_keeps_next delete_rule (rule_message rtm_delrule r (next_seq st.next).0) st1)
          small' in
      elim (target st.side).rules
          as (λ n.
            (target st.side).rules ≡ n
            → Reaches target (ok tt) (record (target st.side) { rules = n - suc limit })
                (delete_rules kernel r (suc limit) st)) [
                  | zero ↦ λ e.
                      let (answer, same) = b.deletes_none st1 (next_seq st.next).0 small e in
                      rw (round_ends limit st answer) (refl, same ∙ ground arith, kept)
                  | suc n ↦ λ e.
                      let (answer, taken) = b.deletes_one st1 (next_seq st.next).0 n small e in
                      let rest = delete_rules-Reaches limit (round st).0 kept in
                      let left : record (target (round st).0.side) {
                        rules = (target (round st).0.side).rules - limit;
                      }
                          ≡ record (target st.side) { rules = suc n - suc limit } =
                        rw taken (ground arith) in
                      rw (round_goes_on limit st answer) (rest.0, rest.1 ∙ left, rest.2)
                ]
        refl

  send_keeps_next_too :
      (op : PbrOp) (msg : List ℕ) (st : PbrState K)
      → (send_pbr_message kernel op msg st).0.next ≡ st.next
  unfolding send_pbr_message
  send_keeps_next_too op msg st = send_keeps_next op msg st

  send_numbered-Reaches :
      (op : PbrOp) (build : ℕ → List ℕ) (st : PbrState K) (result : Result AppError (Unit {0}))
      (t : Target)
      → IsSeq st.next
      → let after =
          send_pbr_message kernel op
            (build (next_seq st.next).0)
            (record st { next = (next_seq st.next).1 }) in
        (after.1 ≡ result) × (target after.0.side ≡ t)
        → Reaches target result t (send_numbered kernel r op build st)
  unfolding send_numbered
  send_numbered-Reaches op build st result t h done_well =
      let st1 : PbrState K = record st { next = (next_seq st.next).1 } in
      let msg : List ℕ = build (next_seq st.next).0 in
      (done_well.0, done_well.1, rw (send_keeps_next_too op msg st1) (next_seq-IsSeq st.next h).1)

  and_then_ok :
      (x : PbrState K × Result AppError (Unit {0}))
      (next : PbrState K → PbrState K × Result AppError (Unit {0}))
      → x.1 ≡ ok tt
      → and_then kernel r x next ≡ next x.0
  and_then_ok x next e = ground arith

  cleanup_request-Reaches :
      (st : PbrState K)
      → IsSeq st.next
      → Reaches target
          (ok tt)
          (intended grants cleanup (target st.side))
          (cleanup_request kernel r lo st)
  unfolding cleanup_request intended
  cleanup_request-Reaches st h =
      let (good, gone, small) = delete_rules-Reaches delete_rule_limit st h in
      let st1 : PbrState K = (delete_rules kernel r delete_rule_limit st).0 in
      let seqs = next_seq-IsSeq st1.next small in
      let (sent, off) =
        b.deletes_route (record st1 { next = (next_seq st1.next).1 }) (next_seq st1.next).0
          seqs.0 in
      let left : record (target st1.side) { route = false }
          ≡ record { rules = (target st.side).rules - 32; route = false } =
        rw gone refl in
      rw (and_then_ok (delete_rules kernel r delete_rule_limit st) _ good) (
        send_numbered-Reaches delete_route (route_message rtm_delroute r lo) st1 _ _ small
          (sent, off ∙ left))

  apply_request-Reaches :
      (st : PbrState K)
      → IsSeq st.next
      → Reaches target
          (verdict grants)
          (intended grants apply (target st.side))
          (apply_request kernel r lo st)
  unfolding apply_request intended
  apply_request-Reaches st h =
      let (good, gone, small) = cleanup_request-Reaches st h in
      let st1 : PbrState K = (cleanup_request kernel r lo st).0 in
      let seqs = next_seq-IsSeq st1.next small in
      let (sent, on) =
        b.replaces_route (record st1 { next = (next_seq st1.next).1 }) (next_seq st1.next).0
          seqs.0 in
      let routed =
        send_numbered-Reaches replace_route (route_message rtm_newroute r lo) st1 _ _ small
          (sent, on) in
      let second : PbrState K × Result AppError (Unit {0}) =
        send_numbered kernel r replace_route (route_message rtm_newroute r lo) st1 in
      let st2 : PbrState K = second.0 in
      let seqs2 = next_seq-IsSeq st2.next routed.2 in
      let (sent2, added) =
        b.adds_rule (record st2 { next = (next_seq st2.next).1 }) (next_seq st2.next).0 seqs2.0 in
      let there : target st2.side ≡ record { rules = (target st.side).rules - 32; route = true } =
        routed.1 ∙ (rw gone refl) in
      let left : record (target st2.side) { rules = rules_after grants (target st2.side).rules }
          ≡ record { rules = rules_after grants ((target st.side).rules - 32); route = true } =
        rw there refl in
      rw (and_then_ok (cleanup_request kernel r lo st) _ good, and_then_ok second _ routed.0)
        (send_numbered-Reaches add_rule (rule_message rtm_newrule r) st2 _ _ routed.2
          (sent2, added ∙ left))

  request-Reaches :
      (st : PbrState K)
      → IsSeq st.next
      → (lo == 0) ≡ false
      → Reaches target
          (ending grants r.action)
          (intended grants r.action (target st.side))
          (run_request kernel r (ok tt) lo st)
  unfolding run_request ending
  request-Reaches st h found =
      elim r.action
          as (λ a.
            r.action ≡ a
            → Reaches target (ending grants a) (intended grants a (target st.side))
                (run_request kernel r (ok tt) lo st)) [
                  | apply ↦ λ e. rw (found, e) (apply_request-Reaches st h)
                  | cleanup ↦ λ e. rw (found, e) (cleanup_request-Reaches st h)
                  | status ↦ λ e. rw (found, e) (refl, unfold intended in refl, h)
                ]
        refl

-- Against a system that keeps to its documentation, a request does what is intended: after `apply` there
-- is the route and a rule, just one if there were 33 or less before; after `cleanup` there is no route,
-- and 32 rules less, and `status` changes nothing. It ends without an error, but for `apply` when the
-- system does not grant the rule: then it fails, and there is the route but no new rule. The loopback
-- interface is there, and the socket opens.
pub run_request-Reaches :
    {K : Type 0} (kernel : Kernel K) (r : PbrRequest) (lo : ℕ) (target : K → Target) (grants : Bool)
    → Behaves kernel r lo target grants
    → (st : PbrState K) → IsSeq st.next
    → (lo == 0) ≡ false
    → Reaches target
        (ending grants r.action)
        (intended grants r.action (target st.side))
        (run_request kernel r (ok tt) lo st)
run_request-Reaches kernel r lo target grants b st h found =
    request-Reaches kernel r lo target grants (Behaves-Sends kernel r lo target grants b) st h found
