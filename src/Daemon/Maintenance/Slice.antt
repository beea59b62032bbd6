-- ===== src/Daemon/Maintenance/Slice.antt =====
-- The loop of `drive_maintenance_slice`, src/daemon/service/resync_cleanup.rs.
use addrsyncd.Base.{
  ℕ, false, not, ◌&&◌, List, [], ◌∷◌, ◌++◌, ◌==◌, if◌then◌else◌, none, some, Result, ok, err,
}
use addrsyncd.Error.{AppError}
use addrsyncd.Daemon.{
  Options, Daemon, EventLoopState, empty_summary, MaintenanceJob, idle,
  startup_cleanup_dump_collect, startup_cleanup_dump_apply, resync_build, resync_apply,
  cleanup_tracked, CollectJob,
}
use addrsyncd.Daemon.Maintenance.{
  TurnIo, continue, stop, failed, Turn, prepare_shutdown_cleanup_job, is_empty, before,
}
use addrsyncd.Daemon.Maintenance.Startup.{collect_turn, dump_apply_turn}
use addrsyncd.Daemon.Maintenance.Resync.{resync_build_turn, resync_apply_turn}
use addrsyncd.Daemon.Maintenance.Shutdown.{cleanup_tracked_turn}

module _ (opts : Options) (io : TurnIo) where
  -- Each arm is given the state whose `maintenance` was taken, that is, left `idle`.
  unfoldable pub idle_turn : Daemon → EventLoopState → ℕ → Turn
  unfolding prepare_shutdown_cleanup_job
  idle_turn d st budget =
      let (d', st') = prepare_shutdown_cleanup_job d st in
      let collect : CollectJob = record {
        family_idx = 0;
        seq = none;
        batch_id = st.batch_id;
        summary = empty_summary;
      } in
      let started = record st {
        startup_cleanup_pending = false;
        startup_cleanup_retry_deadline = none;
        startup_cleanup_started_at = some io.now;
        maintenance = startup_cleanup_dump_collect collect;
      } in
      if st.shutdown_requested && (is_empty st.pending && not st.shutdown_cleanup_done)
      then record { daemon = d'; state = st'; budget_ops = budget; sent = []; flow = continue }
      else if st.startup_cleanup_pending
      then if before io.now st.startup_cleanup_retry_deadline
        then record { daemon = d; state = st; budget_ops = budget; sent = []; flow = stop }
        else record {
          daemon = record d { startup_cleanup_keys = [] };
          state = started;
          budget_ops = budget;
          sent = [];
          flow = continue;
        }
      else if st.resync_requested
      then record {
        daemon = d;
        state = record st { resync_requested = false; maintenance = resync_build st.batch_id };
        budget_ops = budget;
        sent = [];
        flow = continue;
      }
      else record { daemon = d; state = st; budget_ops = budget; sent = []; flow = stop }

  unfoldable pub run_job : MaintenanceJob → Daemon → EventLoopState → ℕ → Turn
  unfolding idle_turn collect_turn dump_apply_turn resync_build_turn resync_apply_turn
      cleanup_tracked_turn
  run_job idle d st budget = idle_turn d st budget
  run_job (startup_cleanup_dump_collect job) d st budget = collect_turn opts io d st budget job
  run_job (startup_cleanup_dump_apply job) d st budget = dump_apply_turn opts io d st budget job
  run_job (resync_build batch_id) d st budget = resync_build_turn opts io d st budget batch_id
  run_job (resync_apply job) d st budget = resync_apply_turn opts io d st budget job
  run_job (cleanup_tracked job) d st budget = cleanup_tracked_turn opts io d st budget job

  -- One turn: the job is taken out of the state and run.
  unfoldable pub turn : Daemon → EventLoopState → ℕ → Turn
  unfolding run_job
  turn d st budget = run_job st.maintenance d (record st { maintenance = idle }) budget

-- What a slice leaves: the packets handed to the sockets in their order, and its error if it has one.
pub record Slice : Type 0 where
  pub daemon : Daemon
  pub state : EventLoopState
  pub sent : List (List ℕ)
  pub outcome : Result AppError (Unit {0})

-- The list has an entry for each turn that starts before the time budget of the slice is used up.
unfoldable pub slice_loop : Options → List TurnIo → Daemon → EventLoopState → ℕ → Slice
slice_loop opts [] d st budget = record { daemon = d; state = st; sent = []; outcome = ok tt }
slice_loop opts (io ∷ ios) d st budget =
    let t = turn opts io d st budget in
    let rest = slice_loop opts ios t.daemon t.state t.budget_ops in
    let next : Slice = elim t.flow [
      | continue ↦ record rest { sent = t.sent ++ rest.sent }
      | stop ↦ record { daemon = t.daemon; state = t.state; sent = t.sent; outcome = ok tt }
      | failed e ↦ record { daemon = t.daemon; state = t.state; sent = t.sent; outcome = err e }
    ] in
    if budget == 0 then record { daemon = d; state = st; sent = []; outcome = ok tt } else next

-- `MAINTENANCE_OP_BUDGET`
abbrev pub maintenance_op_budget : ℕ
maintenance_op_budget = 256

unfoldable pub drive_maintenance_slice : Options → List TurnIo → Daemon → EventLoopState → Slice
unfolding slice_loop
drive_maintenance_slice opts ios d st = slice_loop opts ios d st maintenance_op_budget
