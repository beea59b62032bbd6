-- ===== src/Daemon/Batch/Commit.antt =====
-- What `commit_ack_outcomes` (src/daemon/service/batch_apply.rs) makes of the acknowledgements.
use addrsyncd.Base.{
  ℕ, suc, ◌+◌, ◌≡◌, refl, Bool, true, false, ◌&&◌, List, [], ◌∷◌, arith, if◌then◌else◌, none,
  length, All,
}
use addrsyncd.IpKey.{IpKey, IsKey, from_ip}
use addrsyncd.KeySet.{contains}
use addrsyncd.KeySet.Sorting.{IsAscending}
use addrsyncd.Rule.{
  RuleOp, RuleAckClass, applied, eexist_noop, enoent_noop, kernel_err, classify_ack_for_op,
}
use addrsyncd.Rule.Tracker.{AckTracker, seen_at, status_at}
use addrsyncd.Daemon.Batch.Ack.{Tally, commit_op, commit_ops, commit_ack_outcomes}
use addrsyncd.Daemon.Resync.Effect.{apply_action, apply_ops, contains-apply_ops-plan}
use addrsyncd.Daemon.Resync.Diff.{plan}

counted : Tally → ℕ
counted c = c.added + c.deleted + c.noop + c.failed

counted-commit_op :
    (tracker : AckTracker) (idx : ℕ) (op : RuleOp) (c : Tally)
    → counted (commit_op tracker idx op c) ≡ suc (counted c)
unfolding counted commit_op
counted-commit_op tracker idx op c = ground arith

counted-commit_ops :
    (tracker : AckTracker) (idx : ℕ) (ops : List RuleOp) (c : Tally)
    → counted (commit_ops tracker idx ops c) ≡ counted c + length ops
unfolding commit_ops
counted-commit_ops tracker idx [] c = omega arith
counted-commit_ops tracker idx (op ∷ ops) c = omega (
  arith,
  counted-commit_ops tracker (suc idx) ops (commit_op tracker idx op c),
  counted-commit_op tracker idx op c,
)

-- Every operation of a batch is counted once, as added, deleted, without effect or failed, whatever
-- was acknowledged; the operations that the prefilter dropped count as without effect.
pub counts-commit_ack_outcomes :
    (owned : List IpKey) (started_at input_count noop_prefilter now : ℕ) (ops : List RuleOp)
    (tracker : AckTracker)
    → let r = (commit_ack_outcomes owned started_at input_count noop_prefilter now ops tracker).1 in
      r.added + r.deleted + r.noop + r.failed ≡ noop_prefilter + length ops
unfolding commit_ack_outcomes
counts-commit_ack_outcomes owned started_at input_count noop_prefilter now ops tracker =
    let start : Tally = record {
      owned = owned;
      added = 0;
      deleted = 0;
      noop = noop_prefilter;
      failed = 0;
    } in
    unfold counted in omega (arith, counted-commit_ops tracker 0 ops start)

-- The operations that the kernel acknowledged without an error.
is_applied : RuleAckClass → Bool
is_applied applied = true
is_applied eexist_noop = false
is_applied enoent_noop = false
is_applied kernel_err = false

succeeded : AckTracker → ℕ → RuleOp → Bool
unfolding is_applied
succeeded tracker idx op =
    seen_at tracker idx && is_applied (classify_ack_for_op op (status_at tracker idx))

unfoldable pub applied_ops : AckTracker → ℕ → List RuleOp → List RuleOp
unfolding succeeded
applied_ops tracker idx [] = []
applied_ops tracker idx (op ∷ ops) =
    let rest = applied_ops tracker (suc idx) ops in
    if succeeded tracker idx op then op ∷ rest else rest

owned-commit_op :
    (tracker : AckTracker) (idx : ℕ) (op : RuleOp) (c : Tally)
    → (commit_op tracker idx op c).owned ≡ (
        if succeeded tracker idx op
        then apply_action op.action (from_ip op.addr) c.owned
        else c.owned)
unfolding commit_op succeeded is_applied apply_action
owned-commit_op tracker idx op c = ground arith

owned-commit_ops :
    (tracker : AckTracker) (idx : ℕ) (ops : List RuleOp) (c : Tally)
    → (commit_ops tracker idx ops c).owned ≡ apply_ops (applied_ops tracker idx ops) c.owned
unfolding commit_ops applied_ops apply_ops
owned-commit_ops tracker idx [] c = refl
owned-commit_ops tracker idx (op ∷ ops) c = ground (
  arith,
  owned-commit_ops tracker (suc idx) ops (commit_op tracker idx op c),
  owned-commit_op tracker idx op c,
)

-- What is owned after a batch is what was owned, changed by the operations that the kernel
-- acknowledged without an error, in their order, and by no other operation.
pub owned-commit_ack_outcomes :
    (owned : List IpKey) (started_at input_count noop_prefilter now : ℕ) (ops : List RuleOp)
    (tracker : AckTracker)
    → (commit_ack_outcomes owned started_at input_count noop_prefilter now ops tracker).0
      ≡ apply_ops (applied_ops tracker 0 ops) owned
unfolding commit_ack_outcomes
owned-commit_ack_outcomes owned started_at input_count noop_prefilter now ops tracker =
    owned-commit_ops tracker 0 ops
      (record { owned = owned; added = 0; deleted = 0; noop = noop_prefilter; failed = 0 })

-- A tracker with an acknowledgement without an error for each of the operations from `idx` on.
unfoldable pub AllApplied : AckTracker → ℕ → List RuleOp → Type 0
AllApplied tracker idx [] = Unit {0}
AllApplied tracker idx (op ∷ ops) =
    (seen_at tracker idx ≡ true) × (status_at tracker idx ≡ none) × AllApplied tracker (suc idx) ops

applied_ops_all :
    (tracker : AckTracker) (idx : ℕ) (ops : List RuleOp)
    → AllApplied tracker idx ops
    → applied_ops tracker idx ops ≡ ops
unfolding applied_ops succeeded is_applied AllApplied classify_ack_for_op
applied_ops_all tracker idx [] h = refl
applied_ops_all tracker idx (op ∷ ops) h =
    ground (arith, applied_ops_all tracker (suc idx) ops h.2, h.0, h.1)

-- A resync reaches its aim: for strictly ascending lists of keys in range, the second with exactly the
-- owned keys, when the kernel acknowledges every operation of the plan between them without an error,
-- the keys owned afterwards are exactly those of the first list.
pub resync_reaches_target :
    (target current owned : List IpKey) (started_at input_count now : ℕ) (tracker : AckTracker)
    → All IsKey target
    → All IsKey current
    → IsAscending target
    → IsAscending current
    → ((j : IpKey) → contains j owned ≡ contains j current)
    → AllApplied tracker 0 (plan target current)
    → (j : IpKey)
    → contains j
        (commit_ack_outcomes owned started_at input_count 0 now (plan target current) tracker).0
      ≡ contains j target
resync_reaches_target target current owned started_at input_count now tracker ht hc at ac same h j =
    rw
      (
        owned-commit_ack_outcomes owned started_at input_count 0 now (plan target current) tracker,
        applied_ops_all tracker 0 (plan target current) h,
      )
      (contains-apply_ops-plan target current owned ht hc at ac same j)
