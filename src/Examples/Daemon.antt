-- ===== src/Examples/Daemon.antt =====
-- The daemon at concrete inputs: a batch, a resync and the first steps of the loop.
use addrsyncd.Base.{leb, ◌≤◌, length, ◌+◌, ◌≡◌, refl, true, List, [], ◌∷◌, arith, ok, some, none}
use addrsyncd.IpKey.{IpAddr, IpKey, from_ip, key_lt, key_eq}
use addrsyncd.Base.Bytes.{le_value}
use addrsyncd.KeySet.{contains}
use addrsyncd.Rule.{RuleOp, add, delete}
use addrsyncd.Rule.Tracker.{AckTracker, seen_at, status_at}
use addrsyncd.Addr.Filters.{new_filters}
use addrsyncd.Daemon.{Options, initial_state, new_daemon}
use addrsyncd.Daemon.Resync.Whole.{chunks, chunks-plan}
use addrsyncd.Daemon.Maintenance.{retry_limit}
use addrsyncd.Daemon.Maintenance.Retry.{failures, failures-pending}
use addrsyncd.Daemon.Batch.{commit_ack_outcomes, prefilter}
use addrsyncd.Daemon.Batch.Commit.{
  AllApplied, applied_ops, counts-commit_ack_outcomes, owned-commit_ack_outcomes,
  resync_reaches_target,
}
use addrsyncd.Daemon.Batch.Prefilter.{IsDistinct, contains-apply_ops-prefilter}
use addrsyncd.Daemon.Resync.Diff.{plan}
use addrsyncd.Daemon.Resync.Effect.{apply_ops}
use addrsyncd.Rule.Apply.{recv_failed}
use addrsyncd.Daemon.Maintenance.{TurnIo}
use addrsyncd.Daemon.Loop.{signal, ReactorIo, handle_signals, drive_reactor}
use addrsyncd.Daemon.Loop.Reach.{
  World, signal_step, reactor_step, here, and_then, initial_world, IsSound, reachable-IsSound,
}

abbrev op_1 : RuleOp
op_1 = record { addr = IpAddr.v4 (10 ∷ 0 ∷ 0 ∷ 1 ∷ []); action = add }

abbrev op_2 : RuleOp
op_2 = record { addr = IpAddr.v4 (10 ∷ 0 ∷ 0 ∷ 2 ∷ []); action = delete }

-- The first operation was acknowledged, the second is refused with `EPERM`.
abbrev half_done : AckTracker
half_done = record {
  seen = true ∷ true ∷ [];
  status = none ∷ some (record { errno = 1; ext_msg = none; ext_offset = none }) ∷ [];
  pending = 0;
  count_seq_mismatch = 0;
  count_non_ack = 0;
}

counts-commit_ack_outcomes_example :
    let r = (commit_ack_outcomes [] 0 3 1 9 (op_1 ∷ op_2 ∷ []) half_done).1 in
    r.added + r.deleted + r.noop + r.failed ≡ 1 + 2
counts-commit_ack_outcomes_example =
    counts-commit_ack_outcomes [] 0 3 1 9 (op_1 ∷ op_2 ∷ []) half_done

owned-commit_ack_outcomes_example :
    (commit_ack_outcomes [] 0 3 1 9 (op_1 ∷ op_2 ∷ []) half_done).0
    ≡ apply_ops (applied_ops half_done 0 (op_1 ∷ op_2 ∷ [])) []
owned-commit_ack_outcomes_example =
    owned-commit_ack_outcomes [] 0 3 1 9 (op_1 ∷ op_2 ∷ []) half_done

ops-IsDistinct : IsDistinct (op_1 ∷ op_2 ∷ [])
unfolding key_eq from_ip le_value
ops-IsDistinct = ground arith

contains-apply_ops-prefilter_example :
    contains
      (IpKey.v4 5)
      (apply_ops (prefilter (IpKey.v4 5 ∷ []) (op_1 ∷ op_2 ∷ [])) (IpKey.v4 5 ∷ []))
    ≡ contains (IpKey.v4 5) (apply_ops (op_1 ∷ op_2 ∷ []) (IpKey.v4 5 ∷ []))
contains-apply_ops-prefilter_example =
    contains-apply_ops-prefilter (IpKey.v4 5 ∷ []) (op_1 ∷ op_2 ∷ []) ops-IsDistinct (IpKey.v4 5)

abbrev target_3 : List IpKey
target_3 = IpKey.v4 1 ∷ IpKey.v4 2 ∷ IpKey.v6 7 ∷ []

abbrev current_2 : List IpKey
current_2 = IpKey.v4 2 ∷ IpKey.v4 3 ∷ []

abbrev all_done : AckTracker
all_done = record {
  seen = true ∷ true ∷ true ∷ [];
  status = none ∷ none ∷ none ∷ [];
  pending = 0;
  count_seq_mismatch = 0;
  count_non_ack = 0;
}

plan-AllApplied : AllApplied all_done 0 (plan target_3 current_2)
unfolding AllApplied plan key_lt seen_at status_at
plan-AllApplied = (refl, refl, (refl, refl, (refl, refl, tt)))

resync_reaches_target_example :
    contains
      (IpKey.v4 3)
      (commit_ack_outcomes current_2 0 3 0 9 (plan target_3 current_2) all_done).0
    ≡ contains (IpKey.v4 3) target_3
unfolding key_lt
resync_reaches_target_example =
    resync_reaches_target target_3 current_2 current_2 0 3 9 all_done (ground arith) (ground arith)
      (ground arith) (ground arith) (λ j. refl) plan-AllApplied (IpKey.v4 3)

abbrev opts_16 : Options
opts_16 = record {
  ipv6 = true;
  batch_max = 16;
  debounce = 200000000;
  debounce_max = 1000000000;
  rule_ctx = record { pref = 100; table_id = 1000 };
  filters = new_filters [] [] 0;
}

-- The socket takes the request for a dump, and has no answer yet.
abbrev waiting_turn : TurnIo
waiting_turn = record {
  now = 2;
  dump_send = ok tt;
  dump_recv = recv_failed (some 11);
  v4_snapshot = record { send = ok tt; received = [] };
  v6_snapshot = record { send = ok tt; received = [] };
  sending = record { send = ok tt; started_at = 2 };
}

-- `SIGUSR1`, and a wake-up with time for two turns of maintenance: the startup cleanup begins and asks
-- for the rules.
abbrev asked_to_resync : World
asked_to_resync = record (initial_world 1) {
  state = (handle_signals (signal 10 ∷ []) (initial_world 1).state).0;
}

abbrev wake_up : ReactorIo
wake_up = record {
  now = 1;
  gave_up_at = 1;
  flushed_at = 1;
  sending = record { send = ok tt; started_at = 1 };
  turns = waiting_turn ∷ waiting_turn ∷ [];
}

abbrev woken : World
woken = record asked_to_resync {
  daemon = (drive_reactor opts_16 asked_to_resync.daemon asked_to_resync.state wake_up).daemon;
  state = (drive_reactor opts_16 asked_to_resync.daemon asked_to_resync.state wake_up).state;
}

reachable-IsSound_example : IsSound woken
reachable-IsSound_example =
    reachable-IsSound opts_16 (λ xs. some xs) 1 woken
      (and_then (initial_world 1) asked_to_resync woken
        (signal_step (initial_world 1) (signal 10 ∷ []))
        (and_then asked_to_resync woken woken (reactor_step asked_to_resync wake_up) (here woken)))

plan_fits : length (plan target_3 current_2) ≤ 2 + (2 + 0)
unfolding plan key_lt
plan_fits = omega arith

chunks-plan_example :
    chunks target_3 current_2 (2 ∷ 2 ∷ []) (record { target_idx = 0; current_idx = 0; out = [] })
    ≡ plan target_3 current_2
chunks-plan_example = chunks-plan target_3 current_2 (2 ∷ 2 ∷ []) plan_fits

no_failure : initial_state.startup_cleanup_retry_count ≡ 0
unfolding initial_state
no_failure = refl

failures-pending_example :
    let st' = (failures 4 7 (new_daemon 1) initial_state).1 in
    (st'.startup_cleanup_pending ≡ leb 4 retry_limit) × (st'.resync_requested ≡ true)
failures-pending_example = failures-pending 3 7 (new_daemon 1) initial_state no_failure
