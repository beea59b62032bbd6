-- ===== src/Daemon/Maintenance/Shutdown.antt =====
-- The arm of `drive_maintenance_slice` (src/daemon/service/resync_cleanup.rs) for the cleanup at the end.
use addrsyncd.Base.{ℕ, true, [], ◌∷◌, if◌then◌else◌, none, some, ok, err}
use addrsyncd.Daemon.{Options, Daemon, EventLoopState, idle, cleanup_tracked, CleanupTrackedJob}
use addrsyncd.Daemon.Batch.{next_batch_id, start_maintenance_batch}
use addrsyncd.Daemon.Resync.{fill_tracked_cleanup_chunk}
use addrsyncd.Daemon.Maintenance.{
  TurnIo, continue, stop, failed, Turn, completed_for, add_result, spend, chunk_size,
}

module _ (opts : Options) (io : TurnIo) where
  unfoldable pub cleanup_tracked_chunk : Daemon → EventLoopState → ℕ → CleanupTrackedJob → Turn
  cleanup_tracked_chunk d st budget job =
      let (offset, chunk) =
        fill_tracked_cleanup_chunk d.tracked_keys job.offset (chunk_size opts budget) [] in
      let id = next_batch_id job.batch_id in
      let o = start_maintenance_batch opts d st io.sending id chunk in
      elim chunk [
        | [] ↦ record {
          daemon = d;
          state = record st {
            shutdown_cleanup_done = true;
            shutdown_cleanup = job.summary;
            batch_id = job.batch_id;
            maintenance = idle;
          };
          budget_ops = budget;
          sent = [];
          flow = continue;
        }
        | _ ∷ _ ↦ elim o.outcome [
          | err e ↦ record {
            daemon = o.daemon;
            state = o.state;
            budget_ops = budget;
            sent = o.sent;
            flow = failed e;
          }
          | ok started ↦ record {
            daemon = o.daemon;
            state = record o.state {
              maintenance = cleanup_tracked (record job {
                offset = offset;
                batch_id = id;
                waiting_batch_id = if started then some id else none;
              });
            };
            budget_ops = budget;
            sent = o.sent;
            flow = stop;
          }
        ]
      ]

  unfoldable pub cleanup_tracked_turn : Daemon → EventLoopState → ℕ → CleanupTrackedJob → Turn
  unfolding completed_for cleanup_tracked_chunk
  cleanup_tracked_turn d st budget job = elim job.waiting_batch_id [
    | none ↦ cleanup_tracked_chunk d st budget job
    | some id ↦ elim (completed_for st.completed_batch id) [
      | none ↦ record {
        daemon = d;
        state = record st { maintenance = cleanup_tracked job };
        budget_ops = budget;
        sent = [];
        flow = stop;
      }
      | some r ↦
          cleanup_tracked_chunk d (record st { completed_batch = none }) (spend budget r)
            (record job { summary = add_result job.summary r; waiting_batch_id = none })
    ]
  ]
