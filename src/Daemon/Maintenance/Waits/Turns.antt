-- ===== src/Daemon/Maintenance/Waits/Turns.antt =====
-- Each turn of `drive_maintenance_slice` (src/daemon/service/resync_cleanup.rs) keeps the promise to the
-- job that waits.
use addrsyncd.Base.{
  ℕ, ◌≡◌, refl, Bool, true, false, not, ◌&&◌, List, [], ◌∷◌, ◌==◌, ==_refl, Option, none, some, ok,
  err, arith,
}
use addrsyncd.Rule.{RuleOp}
use addrsyncd.Rule.Apply.{start_apply_rules_batch}
use addrsyncd.Daemon.{
  Options, Daemon, EventLoopState, ApplyResult, InflightBatch, is_maintenance, MaintenanceJob, idle,
  startup_cleanup_dump_collect, startup_cleanup_dump_apply, resync_build, resync_apply,
  cleanup_tracked, CollectJob, DumpApplyJob, ResyncApplyJob, CleanupTrackedJob,
}
use addrsyncd.Daemon.Batch.{Sending, Outcome, launch, nothing_started, start_maintenance_batch}
use addrsyncd.Daemon.Maintenance.{
  TurnIo, continue, Turn, retry_turn, schedule_startup_cleanup_retry, prepare_shutdown_cleanup_job,
  build_resync_plan, spend, add_result, add_metrics,
}
use addrsyncd.Daemon.Maintenance.Startup.{
  collect_turn, poll_turn, dump_apply_turn, dump_apply_chunk,
}
use addrsyncd.Daemon.Maintenance.Resync.{resync_build_turn, resync_apply_turn, resync_apply_chunk}
use addrsyncd.Daemon.Maintenance.Shutdown.{cleanup_tracked_turn, cleanup_tracked_chunk}
use addrsyncd.Daemon.Maintenance.Slice.{
  idle_turn, run_job, turn, slice_loop, drive_maintenance_slice, maintenance_op_budget,
}
use addrsyncd.Daemon.Maintenance.Waits.{waiting_for, is_some, promised, is_promised}

-- A turn keeps the promise, and it goes on only with nothing in flight.
abbrev Kept : Turn → Type 0
Kept t = (is_promised t.state ≡ true) × ((t.flow ≡ continue) → t.state.inflight ≡ none)

-- The batch `id` of maintenance is in flight.
unfoldable in_flight : Option InflightBatch → ℕ → Bool
unfolding is_maintenance
in_flight none id = false
in_flight (some b) id = is_maintenance b.owner && (b.batch_id == id)

-- A batch was started, or there was an error and nothing is in flight.
unfoldable launched : Outcome → ℕ → Bool
unfolding in_flight is_some
launched o id = elim o.outcome [
  | err _ ↦ not (is_some o.state.inflight)
  | ok false ↦ false
  | ok true ↦ in_flight o.state.inflight id
]

launched-start_maintenance_batch :
    (opts : Options) (d : Daemon) (st : EventLoopState) (io : Sending) (id : ℕ) (op : RuleOp)
    (ops : List RuleOp)
    → st.inflight ≡ none
    → launched (start_maintenance_batch opts d st io id (op ∷ ops)) id ≡ true
unfolding start_maintenance_batch launch is_maintenance launched in_flight is_some
    start_apply_rules_batch
launched-start_maintenance_batch opts d st io id op ops h = ground (arith, ==_refl id)

maintenance-start_maintenance_batch :
    (opts : Options) (d : Daemon) (st : EventLoopState) (io : Sending) (id : ℕ) (ops : List RuleOp)
    → (start_maintenance_batch opts d st io id ops).state.maintenance ≡ st.maintenance
unfolding start_maintenance_batch launch start_apply_rules_batch nothing_started
maintenance-start_maintenance_batch opts d st io id [] = refl
maintenance-start_maintenance_batch opts d st io id (op ∷ ops) = ground arith

module _ (opts : Options) (io : TurnIo) where
  idle_turn-Kept :
      (d : Daemon) (st : EventLoopState) (budget : ℕ)
      → st.inflight ≡ none
      → st.maintenance ≡ idle
      → Kept (idle_turn opts io d st budget)
  unfolding idle_turn prepare_shutdown_cleanup_job is_promised promised waiting_for
  idle_turn-Kept d st budget h m = ground arith

  collect_turn-Kept :
      (d : Daemon) (st : EventLoopState) (budget : ℕ) (job : CollectJob)
      → st.inflight ≡ none
      → Kept (collect_turn opts io d st budget job)
  unfolding collect_turn poll_turn retry_turn schedule_startup_cleanup_retry is_promised promised
      waiting_for
  collect_turn-Kept d st budget job h = ground arith

  dump_apply_chunk-Kept :
      (d : Daemon) (st : EventLoopState) (budget : ℕ) (job : DumpApplyJob)
      → st.inflight ≡ none
      → Kept (dump_apply_chunk opts io d st budget job)
  unfolding dump_apply_chunk retry_turn schedule_startup_cleanup_retry is_promised promised
      waiting_for launched in_flight is_some
  dump_apply_chunk-Kept d st budget job h =
      ground (arith, launched-start_maintenance_batch opts d st io.sending)

  dump_apply_turn-Kept :
      (d : Daemon) (st : EventLoopState) (budget : ℕ) (job : DumpApplyJob)
      → st.inflight ≡ none
      → promised job.waiting_batch_id st.completed_batch none ≡ true
      → Kept (dump_apply_turn opts io d st budget job)
  unfolding dump_apply_turn is_promised promised waiting_for is_some
  dump_apply_turn-Kept d st budget job h p = ground (
    arith,
    dump_apply_chunk-Kept d st budget job h,
    (λ (r : ApplyResult).
        dump_apply_chunk-Kept d (record st { completed_batch = none }) (spend budget r)
          (record job { summary = add_result job.summary r; waiting_batch_id = none }) h),
  )

  resync_build_turn-Kept :
      (d : Daemon) (st : EventLoopState) (budget batch_id : ℕ)
      → st.inflight ≡ none
      → Kept (resync_build_turn opts io d st budget batch_id)
  unfolding resync_build_turn build_resync_plan is_promised promised waiting_for
  resync_build_turn-Kept d st budget batch_id h = ground arith

  resync_apply_chunk-Kept :
      (d : Daemon) (st : EventLoopState) (budget : ℕ) (job : ResyncApplyJob)
      → st.inflight ≡ none
      → st.maintenance ≡ idle
      → Kept (resync_apply_chunk opts io d st budget job)
  unfolding resync_apply_chunk is_promised promised waiting_for launched in_flight is_some
  resync_apply_chunk-Kept d st budget job h m = ground (
    arith,
    launched-start_maintenance_batch opts d st io.sending,
    maintenance-start_maintenance_batch opts d st io.sending,
  )

  resync_apply_turn-Kept :
      (d : Daemon) (st : EventLoopState) (budget : ℕ) (job : ResyncApplyJob)
      → st.inflight ≡ none
      → st.maintenance ≡ idle
      → promised job.waiting_batch_id st.completed_batch none ≡ true
      → Kept (resync_apply_turn opts io d st budget job)
  unfolding resync_apply_turn is_promised promised waiting_for is_some
  resync_apply_turn-Kept d st budget job h m p = ground (
    arith,
    resync_apply_chunk-Kept d st budget job h m,
    (λ (r : ApplyResult).
        resync_apply_chunk-Kept d (record st { completed_batch = none }) (spend budget r)
          (record job { metrics = add_metrics job.metrics r; waiting_batch_id = none }) h m),
  )

  cleanup_tracked_chunk-Kept :
      (d : Daemon) (st : EventLoopState) (budget : ℕ) (job : CleanupTrackedJob)
      → st.inflight ≡ none
      → st.maintenance ≡ idle
      → Kept (cleanup_tracked_chunk opts io d st budget job)
  unfolding cleanup_tracked_chunk start_maintenance_batch is_promised promised waiting_for launched
      in_flight is_some
  cleanup_tracked_chunk-Kept d st budget job h m = ground (
    arith,
    launched-start_maintenance_batch opts d st io.sending,
    maintenance-start_maintenance_batch opts d st io.sending,
  )

  cleanup_tracked_turn-Kept :
      (d : Daemon) (st : EventLoopState) (budget : ℕ) (job : CleanupTrackedJob)
      → st.inflight ≡ none
      → st.maintenance ≡ idle
      → promised job.waiting_batch_id st.completed_batch none ≡ true
      → Kept (cleanup_tracked_turn opts io d st budget job)
  unfolding cleanup_tracked_turn start_maintenance_batch is_promised promised waiting_for is_some
  cleanup_tracked_turn-Kept d st budget job h m p = ground (
    arith,
    cleanup_tracked_chunk-Kept d st budget job h m,
    (λ (r : ApplyResult).
        cleanup_tracked_chunk-Kept d (record st { completed_batch = none }) (spend budget r)
          (record job { summary = add_result job.summary r; waiting_batch_id = none }) h m),
  )

  run_job-Kept :
      (job : MaintenanceJob) (d : Daemon) (st : EventLoopState) (budget : ℕ)
      → st.inflight ≡ none
      → st.maintenance ≡ idle
      → promised (waiting_for job) st.completed_batch none ≡ true
      → Kept (run_job opts io job d st budget)
  unfolding run_job waiting_for
  run_job-Kept idle d st budget h m p = idle_turn-Kept d st budget h m
  run_job-Kept (startup_cleanup_dump_collect job) d st budget h m p =
      collect_turn-Kept d st budget job h
  run_job-Kept (startup_cleanup_dump_apply job) d st budget h m p =
      dump_apply_turn-Kept d st budget job h p
  run_job-Kept (resync_build batch_id) d st budget h m p =
      resync_build_turn-Kept d st budget batch_id h
  run_job-Kept (resync_apply job) d st budget h m p = resync_apply_turn-Kept d st budget job h m p
  run_job-Kept (cleanup_tracked job) d st budget h m p =
      cleanup_tracked_turn-Kept d st budget job h m p

  turn-Kept :
      (d : Daemon) (st : EventLoopState) (budget : ℕ)
      → st.inflight ≡ none
      → is_promised st ≡ true
      → Kept (turn opts io d st budget)
  unfolding turn is_promised
  turn-Kept d st budget h p =
      run_job-Kept st.maintenance d (record st { maintenance = idle }) budget h refl (rw (← h) p)

slice_loop-promised :
    (opts : Options) (ios : List TurnIo) (d : Daemon) (st : EventLoopState) (budget : ℕ)
    → st.inflight ≡ none
    → is_promised st ≡ true
    → is_promised (slice_loop opts ios d st budget).state ≡ true
unfolding slice_loop
slice_loop-promised opts [] d st budget h p = p
slice_loop-promised opts (io ∷ ios) d st budget h p =
    let t = turn opts io d st budget in
    ground (
      arith,
      p,
      turn-Kept opts io d st budget h p,
      slice_loop-promised opts ios t.daemon t.state t.budget_ops,
    )

-- A slice of maintenance, which starts with nothing in flight, leaves no job waiting for a batch that
-- is neither in flight nor completed, and no batch of maintenance that no job waits for.
pub is_promised-drive_maintenance_slice :
    (opts : Options) (ios : List TurnIo) (d : Daemon) (st : EventLoopState)
    → st.inflight ≡ none
    → is_promised st ≡ true
    → is_promised (drive_maintenance_slice opts ios d st).state ≡ true
unfolding drive_maintenance_slice
is_promised-drive_maintenance_slice opts ios d st h p =
    slice_loop-promised opts ios d st maintenance_op_budget h p
