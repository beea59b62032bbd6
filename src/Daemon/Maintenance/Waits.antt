-- ===== src/Daemon/Maintenance/Waits.antt =====
-- A maintenance job that waits for a batch waits for one that comes: the arms of
-- src/daemon/service/resync_cleanup.rs with the batches of src/daemon/service/batch_apply.rs.
pub mod Turns
use addrsyncd.Base.{
  ℕ, ◌≡◌, refl, Bool, true, false, not, ◌&&◌, List, [], ◌∷◌, ◌==◌, ==_refl, if◌then◌else◌, Option,
  none, some, ok, err, arith,
}
use addrsyncd.Rule.{RuleOp}
use addrsyncd.Rule.Apply.{start_apply_rules_batch}
use addrsyncd.Daemon.{
  Options, Daemon, EventLoopState, ApplyResult, InflightBatch, is_maintenance, CompletedBatch,
  MaintenanceJob, idle, startup_cleanup_dump_collect, startup_cleanup_dump_apply, resync_build,
  resync_apply, cleanup_tracked, CollectJob, DumpApplyJob, ResyncApplyJob, CleanupTrackedJob,
}
use addrsyncd.Daemon.Batch.{Sending, Outcome, launch, nothing_started, start_maintenance_batch}
use addrsyncd.Daemon.Maintenance.{
  TurnIo, continue, Turn, completed_for, retry_turn, schedule_startup_cleanup_retry,
  prepare_shutdown_cleanup_job, build_resync_plan, spend, add_result, add_metrics,
}
use addrsyncd.Daemon.Maintenance.Startup.{
  collect_turn, poll_turn, dump_apply_turn, dump_apply_chunk,
}
use addrsyncd.Daemon.Maintenance.Resync.{resync_build_turn, resync_apply_turn, resync_apply_chunk}
use addrsyncd.Daemon.Maintenance.Shutdown.{cleanup_tracked_turn, cleanup_tracked_chunk}
use addrsyncd.Daemon.Maintenance.Slice.{
  idle_turn, run_job, turn, slice_loop, drive_maintenance_slice, maintenance_op_budget,
}

unfoldable pub waiting_for : MaintenanceJob → Option ℕ
waiting_for idle = none
waiting_for (startup_cleanup_dump_collect _) = none
waiting_for (startup_cleanup_dump_apply job) = job.waiting_batch_id
waiting_for (resync_build _) = none
waiting_for (resync_apply job) = job.waiting_batch_id
waiting_for (cleanup_tracked job) = job.waiting_batch_id

unfoldable pub is_some {ℓ} : {A : Type ℓ} → Option A → Bool
is_some none = false
is_some (some _) = true

-- A job that waits for no batch has none in flight. One that waits has its own in flight, or its
-- result is there.
unfoldable pub promised : Option ℕ → Option CompletedBatch → Option InflightBatch → Bool
unfolding is_some completed_for is_maintenance
promised none completed none = true
promised none completed (some b) = not (is_maintenance b.owner)
promised (some id) completed none = is_some (completed_for completed id)
promised (some id) completed (some b) =
    if is_maintenance b.owner then b.batch_id == id else is_some (completed_for completed id)

unfoldable pub is_promised : EventLoopState → Bool
unfolding promised waiting_for
is_promised st = promised (waiting_for st.maintenance) st.completed_batch st.inflight
