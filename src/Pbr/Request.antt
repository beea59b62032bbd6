-- ===== src/Pbr/Request.antt =====
-- `run_request` and `cleanup_request` of src/netlink/pbr.rs.
use addrsyncd.Base.{ℕ, zero, suc, List, ◌==◌, if◌then◌else◌, Result, ok, err, Option}
use addrsyncd.Error.{AppError, message, loopback_missing, from_required_syscall_io}
use addrsyncd.LinuxTypes.{rtm_newroute, rtm_delroute, rtm_newrule, rtm_delrule}
use addrsyncd.Codec.Seq.{next_seq}
use addrsyncd.Cli.{PbrRequest, apply, cleanup, status, as_i32}
use addrsyncd.Pbr.{
  acked, noop, kernel_err, PbrOp, add_rule, delete_rule, replace_route, delete_route,
  build_pbr_rule_message, build_pbr_route_message,
}
use addrsyncd.Pbr.Exchange.{Kernel, PbrState, send_pbr_message_classified, send_pbr_message}

abbrev pub delete_rule_limit : ℕ
delete_rule_limit = 32

unfoldable pub rule_message : ℕ → PbrRequest → ℕ → List ℕ
unfolding build_pbr_rule_message as_i32
rule_message nlmsg_type r seq =
    build_pbr_rule_message nlmsg_type (as_i32 r.family) r.mark r.mask r.table r.pref seq

unfoldable pub route_message : ℕ → PbrRequest → ℕ → ℕ → List ℕ
unfolding build_pbr_route_message as_i32
route_message nlmsg_type r oif seq =
    build_pbr_route_message nlmsg_type (as_i32 r.family) r.table oif seq

module _ {K : Type 0} (kernel : Kernel K) (r : PbrRequest) where
  -- A message with a new number.
  unfoldable pub send_numbered :
      PbrOp → (ℕ → List ℕ) → PbrState K → PbrState K × Result AppError (Unit {0})
  send_numbered op build st =
      let (seq, next') = next_seq st.next in
      send_pbr_message kernel op (build seq) (record st { next = next' })

  -- The loop over `0..limit`.
  unfoldable pub delete_rules : ℕ → PbrState K → PbrState K × Result AppError (Unit {0})
  delete_rules zero st = (st, ok tt)
  delete_rules (suc limit) st =
      let (seq, next') = next_seq st.next in
      let (st', answer) =
        send_pbr_message_classified kernel delete_rule (rule_message rtm_delrule r seq)
          (record st { next = next' }) in
      elim answer [
        | err e ↦ (st', err e)
        | ok noop ↦ (st', ok tt)
        | ok acked ↦ delete_rules limit st'
        | ok kernel_err ↦ delete_rules limit st'
      ]

  abbrev pub and_then :
      PbrState K × Result AppError (Unit {0})
      → (PbrState K → PbrState K × Result AppError (Unit {0}))
      → PbrState K × Result AppError (Unit {0})
  and_then (st, err e) next = (st, err e)
  and_then (st, ok _) next = next st

  unfoldable pub cleanup_request : ℕ → PbrState K → PbrState K × Result AppError (Unit {0})
  cleanup_request lo st =
      and_then (delete_rules delete_rule_limit st)
        (send_numbered delete_route (route_message rtm_delroute r lo))

  unfoldable pub apply_request : ℕ → PbrState K → PbrState K × Result AppError (Unit {0})
  apply_request lo st = and_then (cleanup_request lo st) (λ st1.
      and_then (send_numbered replace_route (route_message rtm_newroute r lo) st1)
        (send_numbered add_rule (rule_message rtm_newrule r)))

  -- `opened` is the result of opening the socket, `lo` the index of the loopback interface, 0 if there
  -- is none.
  unfoldable pub run_request :
      Result (Option ℕ) (Unit {0}) → ℕ → PbrState K → PbrState K × Result AppError (Unit {0})
  run_request (err code) lo st = (st, err (from_required_syscall_io code))
  run_request (ok _) lo st =
      let acted : PbrState K × Result AppError (Unit {0}) = elim r.action [
        | apply ↦ apply_request lo st
        | cleanup ↦ cleanup_request lo st
        | status ↦ (st, ok tt)
      ] in
      if lo == 0 then (st, err (message loopback_missing)) else acted
