-- ===== src/Daemon/Batch/Ack.antt =====
-- The end of a batch (src/daemon/service/batch_apply.rs): its acknowledgements, or that it is given up.
use addrsyncd.Base.{
  ℕ, suc, ◌+◌, ◌-◌, true, List, [], ◌∷◌, ◌==◌, if◌then◌else◌, Option, none, some, Result, ok, err,
  length,
}
use addrsyncd.Error.{AppError}
use addrsyncd.IpKey.{IpKey, from_ip}
use addrsyncd.KeySet.{insert, remove}
use addrsyncd.Rule.{
  RuleOp, add, delete, applied, eexist_noop, enoent_noop, kernel_err, classify_ack_for_op,
}
use addrsyncd.Rule.Tracker.{AckTracker, default_tracker, seen_at, status_at}
use addrsyncd.Rule.Apply.{Recv, drain_apply_ack_messages}
use addrsyncd.Daemon.{Daemon, EventLoopState, ApplyResult, is_maintenance, CompletedBatch}

unfoldable pub queue_compensate_resync : EventLoopState → EventLoopState
queue_compensate_resync st = record st { resync_requested = true; resync_compensate_pending = true }

unfoldable pub handle_ack_timeout : EventLoopState → ℕ → EventLoopState
unfolding queue_compensate_resync is_maintenance default_tracker
handle_ack_timeout st now = elim st.inflight [
  | none ↦ st
  | some b ↦
      let cleared = record st { inflight = none; ack_tracker_reuse = b.tracker } in
      let gave_up : CompletedBatch = record {
        batch_id = b.batch_id;
        owner = b.owner;
        result = record {
          input = b.input_count;
          noop = b.noop_prefilter;
          added = 0;
          deleted = 0;
          failed = b.input_count - b.noop_prefilter;
          duration = now - b.started_at;
        };
      } in
      if is_maintenance b.owner
      then record cleared { completed_batch = some gave_up }
      else queue_compensate_resync cleared
]

-- The variables of the loop of `commit_ack_outcomes`.
pub record Tally : Type 0 where
  pub owned : List IpKey
  pub added : ℕ
  pub deleted : ℕ
  pub noop : ℕ
  pub failed : ℕ

unfoldable pub commit_op : AckTracker → ℕ → RuleOp → Tally → Tally
unfolding seen_at status_at classify_ack_for_op insert remove from_ip
commit_op tracker idx op c =
    let key = from_ip op.addr in
    let done : Tally = elim op.action [
      | add ↦ record c { owned = insert key c.owned; added = c.added + 1 }
      | delete ↦ record c { owned = remove key c.owned; deleted = c.deleted + 1 }
    ] in
    let acked : Tally = elim (classify_ack_for_op op (status_at tracker idx)) [
      | applied ↦ done
      | eexist_noop ↦ record c { noop = c.noop + 1 }
      | enoent_noop ↦ record c { noop = c.noop + 1 }
      | kernel_err ↦ record c { failed = c.failed + 1 }
    ] in
    if seen_at tracker idx then acked else record c { failed = c.failed + 1 }

unfoldable pub commit_ops : AckTracker → ℕ → List RuleOp → Tally → Tally
unfolding commit_op
commit_ops tracker idx [] c = c
commit_ops tracker idx (op ∷ ops) c = commit_ops tracker (suc idx) ops (commit_op tracker idx op c)

-- `AckCommitCtx` is passed as the counts and times it holds; `now` is the time at the end.
unfoldable pub commit_ack_outcomes :
    List IpKey → ℕ → ℕ → ℕ → ℕ → List RuleOp → AckTracker → List IpKey × ApplyResult
unfolding commit_ops
commit_ack_outcomes owned started_at input_count noop_prefilter now ops tracker =
    let c =
      commit_ops tracker 0 ops
        (record { owned = owned; added = 0; deleted = 0; noop = noop_prefilter; failed = 0 }) in
    (
      c.owned,
      record {
        input = input_count;
        noop = c.noop;
        added = c.added;
        deleted = c.deleted;
        failed = c.failed;
        duration = now - started_at;
      },
    )

unfoldable pub finish_inflight_batch : Daemon → EventLoopState → ℕ → Daemon × EventLoopState
unfolding commit_ack_outcomes is_maintenance
finish_inflight_batch d st now = elim st.inflight [
  | none ↦ (d, st)
  | some b ↦
      let (owned, result) =
        commit_ack_outcomes d.owned_ips b.started_at b.input_count b.noop_prefilter now b.ops
          b.tracker in
      let cleared = record st { inflight = none; ack_tracker_reuse = b.tracker } in
      let completed : CompletedBatch = record {
        batch_id = b.batch_id;
        result = result;
        owner = b.owner;
      } in
      (
        record d { owned_ips = owned },
        if is_maintenance b.owner
            then record cleared { completed_batch = some completed }
            else cleared,
      )
]

-- `received` is what the calls of `recv_many` give.
unfoldable pub drain_rule_acks_once :
    (List ℕ → Option (List ℕ))
    → Daemon
    → EventLoopState
    → List Recv
    → ℕ
    → Daemon × EventLoopState × Result AppError (Unit {0})
unfolding drain_apply_ack_messages finish_inflight_batch
drain_rule_acks_once from_utf8 d st received now = elim st.inflight [
  | none ↦ (d, st, ok tt)
  | some b ↦
      let (tracker, r) =
        drain_apply_ack_messages from_utf8 b.first_seq (length b.ops) b.tracker received in
      let st' = record st { inflight = some (record b { tracker = tracker }) } in
      let (d', finished) = finish_inflight_batch d st' now in
      elim r [
        | err e ↦ (d, st', err e)
        | ok _ ↦ if tracker.pending == 0 then (d', finished, ok tt) else (d, st', ok tt)
      ]
]
