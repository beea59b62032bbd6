-- ===== src/Daemon/Maintenance.antt =====
-- The maintenance of src/daemon/service/resync_cleanup.rs: the cleanup after a start, the resync and
-- the cleanup at the end. This file has what the turns of `drive_maintenance_slice` share.
pub mod Startup
pub mod Resync
pub mod Shutdown
pub mod Slice
pub mod Waits
pub mod Retry
pub mod Ends
use addrsyncd.Base.{
  ℕ, zero, suc, ◌+◌, ◌-◌, min, max, Bool, true, false, not, ◌&&◌, ◌||◌, List, [], ◌∷◌, ◌++◌, ltb,
  leb, ◌==◌, if◌then◌else◌, Option, none, some, Result, ok, err, length,
}
use addrsyncd.Error.{AppError}
use addrsyncd.IpKey.{IpKey}
use addrsyncd.KeySet.{sort_unstable, dedup}
use addrsyncd.LinuxTypes.{af_inet, af_inet6}
use addrsyncd.Addr.Snapshot.{FamilyIo, Snapshot, snapshot_interface_keys}
use addrsyncd.Codec.Seq.{next_seq}
use addrsyncd.Rule.{RuleOp}
use addrsyncd.Rule.Apply.{Recv}
use addrsyncd.Cleanup.Stream.{
  Targets, CleanupDumpPoll, dump_pending, dump_done, start_cleanup_dump_family,
  poll_cleanup_targets_stream,
}
use addrsyncd.Daemon.{
  Options, Daemon, EventLoopState, ApplyResult, ResyncResult, CleanupSummary, empty_summary,
  CompletedBatch, is_maintenance, MaintenanceJob, idle, startup_cleanup_dump_collect,
  startup_cleanup_dump_apply, resync_build, resync_apply, cleanup_tracked, CollectJob, DumpApplyJob,
  ResyncApplyJob, CleanupTrackedJob,
}
use addrsyncd.Daemon.Batch.{Sending, Outcome, next_batch_id, start_maintenance_batch}
use addrsyncd.Daemon.Resync.{Cursor, fill_resync_chunk, fill_tracked_cleanup_chunk}

-- What one turn of the loop finds outside: the time, what the socket answers to the request for a dump
-- and what it holds, what the route socket does for a dump of the addresses of each family, and what a
-- batch needs.
pub record TurnIo : Type 0 where
  pub now : ℕ
  pub dump_send : Result (Option ℕ) (Unit {0})
  pub dump_recv : Recv
  pub v4_snapshot : FamilyIo
  pub v6_snapshot : FamilyIo
  pub sending : Sending

-- How a turn ends.
pub data Flow : Type 0 where
  continue stop : Flow
  failed : AppError → Flow

pub record Turn : Type 0 where
  pub daemon : Daemon
  pub state : EventLoopState
  pub budget_ops : ℕ
  pub sent : List (List ℕ)
  pub flow : Flow

abbrev pub retry_limit : ℕ
retry_limit = 3

abbrev pub retry_delay : ℕ
retry_delay = 500000000

unfoldable pub next_startup_cleanup_family : ℕ → Bool → Option (ℕ × ℕ)
next_startup_cleanup_family start_idx ipv6_enabled =
    if start_idx == 0
    then some (0, af_inet)
    else if (start_idx == 1) && ipv6_enabled
    then some (1, af_inet6)
    else none

unfoldable pub schedule_startup_cleanup_retry :
    Daemon → EventLoopState → ℕ → Daemon × EventLoopState
schedule_startup_cleanup_retry d st now =
    let count = min (st.startup_cleanup_retry_count + 1) 255 in
    let retry = leb count retry_limit in
    (
      record d { startup_cleanup_keys = [] },
      record st {
        startup_cleanup_retry_count = count;
        startup_cleanup_started_at = none;
        maintenance = idle;
        resync_requested = true;
        startup_cleanup_pending = retry;
        startup_cleanup_retry_deadline = if retry then some (now + retry_delay) else none;
      },
    )

unfoldable pub retry_turn : Daemon → EventLoopState → ℕ → ℕ → List (List ℕ) → Turn
unfolding schedule_startup_cleanup_retry
retry_turn d st now budget sent =
    let (d', st') = schedule_startup_cleanup_retry d st now in
    record { daemon = d'; state = st'; budget_ops = budget; sent = sent; flow = continue }

unfoldable pub prepare_shutdown_cleanup_job : Daemon → EventLoopState → Daemon × EventLoopState
unfolding sort_unstable
prepare_shutdown_cleanup_job d st =
    let tracked = sort_unstable d.owned_ips in
    let job : CleanupTrackedJob = record {
      offset = 0;
      batch_id = st.batch_id;
      summary = empty_summary;
      waiting_batch_id = none;
    } in
    (
      record d { owned_ips = []; tracked_keys = tracked },
      elim tracked [
        | [] ↦ record st {
          shutdown_cleanup_done = true;
          shutdown_cleanup = empty_summary;
          maintenance = idle;
        }
        | _ ∷ _ ↦ record st { maintenance = cleanup_tracked job }
      ],
    )

-- The plan, or the error of the snapshot, with the requests sent.
unfoldable pub build_resync_plan :
    Options → Daemon → TurnIo → Daemon × List (List ℕ) × Result AppError ResyncResult
unfolding snapshot_interface_keys sort_unstable dedup
build_resync_plan opts d io =
    let s =
      snapshot_interface_keys opts.ipv6 opts.filters io.v4_snapshot io.v6_snapshot d.next_seq in
    let d' = record d { target_keys = s.out; next_seq = s.next_seq } in
    let current = dedup (sort_unstable d.owned_ips) in
    let metrics : ResyncResult = record {
      target = length s.out;
      current = length current;
      add = 0;
      del = 0;
      failed = 0;
    } in
    elim s.outcome [
      | err e ↦ (d', s.sent, err e)
      | ok _ ↦ (record d' { current_keys = current }, s.sent, ok metrics)
    ]

-- The result of the batch that a job waits for. Any other completed batch is left where it is.
unfoldable pub completed_for : Option CompletedBatch → ℕ → Option ApplyResult
unfolding is_maintenance
completed_for none waiting_id = none
completed_for (some done) waiting_id =
    if not (is_maintenance done.owner) || not (done.batch_id == waiting_id)
    then none
    else some done.result

abbrev pub add_result : CleanupSummary → ApplyResult → CleanupSummary
add_result s r = record {
  removed = s.removed + r.deleted;
  noop = s.noop + r.noop;
  failed = s.failed + r.failed;
}

abbrev pub add_metrics : ResyncResult → ApplyResult → ResyncResult
add_metrics m r = record m {
  add = m.add + r.added;
  del = m.del + r.deleted;
  failed = m.failed + r.failed;
}

-- What a batch costs of the budget of a slice.
abbrev pub spend : ℕ → ApplyResult → ℕ
spend budget r = budget - max r.input 1

abbrev pub is_empty {ℓ} : {A : Type ℓ} → List A → Bool
is_empty [] = true
is_empty (_ ∷ _) = false

abbrev pub before : ℕ → Option ℕ → Bool
before now none = false
before now (some deadline) = ltb now deadline

-- The startup cleanup is over, and a resync follows.
abbrev pub startup_cleanup_over : ℕ → EventLoopState → EventLoopState
startup_cleanup_over batch_id st = record st {
  startup_cleanup_retry_count = 0;
  startup_cleanup_started_at = none;
  resync_requested = true;
  batch_id = batch_id;
  maintenance = idle;
}

-- How many operations the next chunk may have.
abbrev pub chunk_size : Options → ℕ → ℕ
chunk_size opts budget = min (max opts.batch_max 1) (max budget 1)
