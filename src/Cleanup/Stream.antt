-- ===== src/Cleanup/Stream.antt =====
-- The dump of the rules to clean up, src/netlink/cleanup.rs: its request, and the targets that its
-- answer names, each once. The set `seen` holds addresses by their keys.
use addrsyncd.Base.{
  ℕ, List, [], ◌∷◌, ◌++◌, ◌==◌, if◌then◌else◌, Result, ok, err, Option, none, some,
}
use addrsyncd.Error.{AppError, netlink, io}
use addrsyncd.IpKey.{IpKey, from_ip}
use addrsyncd.KeySet.{contains}
use addrsyncd.LinuxTypes.{rtm_newrule}
use addrsyncd.Codec.Message.{NetlinkMessageView}
use addrsyncd.Rule.{RuleContext}
use addrsyncd.Rule.Apply.{Recv}
use addrsyncd.Dump.{DumpPoll, pending, continue, recv_step}
use addrsyncd.Cleanup.{parse_cleanup_rule_addr, build_rule_dump_message}

-- The `seen` set, and the keys of the targets so far.
pub record Targets : Type 0 where
  pub seen : List IpKey
  pub keys : List IpKey

unfoldable pub note_target :
    RuleContext → ℕ → Targets → NetlinkMessageView → Targets × Result AppError (Unit {0})
unfolding parse_cleanup_rule_addr from_ip contains
note_target ctx family t msg =
    let noted : Targets × Result AppError (Unit {0}) =
      elim (parse_cleanup_rule_addr msg ctx family) [
        | err e ↦ (t, err (netlink e))
        | ok none ↦ (t, ok tt)
        | ok (some addr) ↦
            let key = from_ip addr in
            (
              if contains key t.seen
                  then t
                  else record { seen = key ∷ t.seen; keys = t.keys ++ (key ∷ []) },
              ok tt,
            )
      ] in
    if msg.header.nlmsg_type == rtm_newrule then noted else (t, ok tt)

pub data CleanupDumpPoll : Type 0 where
  dump_pending dump_done : CleanupDumpPoll

-- The request, the `seen` set after it, and whether it was sent; `send` is what the socket answers.
unfoldable pub start_cleanup_dump_family :
    ℕ
    → ℕ
    → List IpKey
    → Result (Option ℕ) (Unit {0})
    → List ℕ × List IpKey × Result AppError (Unit {0})
unfolding build_rule_dump_message
start_cleanup_dump_family family seq seen send = elim send [
  | err code ↦ (build_rule_dump_message family seq, seen, err (io code))
  | ok _ ↦ (build_rule_dump_message family seq, [], ok tt)
]

-- `received` is what the call of `recv_many` gives.
unfoldable pub poll_cleanup_targets_stream :
    RuleContext → ℕ → ℕ → Targets → Recv → Targets × Result AppError CleanupDumpPoll
unfolding recv_step note_target
poll_cleanup_targets_stream ctx family seq t received =
    let (t', r) = recv_step (note_target ctx family) seq t received in
    elim r [
      | err e ↦ (t', err e)
      | ok pending ↦ (t', ok dump_pending)
      | ok continue ↦ (t', ok dump_pending)
      | ok DumpPoll.done ↦ (t', ok dump_done)
    ]
