-- ===== src/Daemon/Maintenance/Resync.antt =====
-- The arms of `drive_maintenance_slice` (src/daemon/service/resync_cleanup.rs) for a resync.
use addrsyncd.Base.{ℕ, ◌-◌, true, false, [], ◌∷◌, if◌then◌else◌, none, some, ok, err}
use addrsyncd.Daemon.{Options, Daemon, EventLoopState, idle, resync_apply, ResyncApplyJob}
use addrsyncd.Daemon.Batch.{next_batch_id, start_maintenance_batch}
use addrsyncd.Daemon.Resync.{Cursor, fill_resync_chunk}
use addrsyncd.Daemon.Maintenance.{
  TurnIo, continue, stop, failed, Turn, build_resync_plan, completed_for, add_metrics, spend,
  chunk_size,
}

module _ (opts : Options) (io : TurnIo) where
  unfoldable pub resync_build_turn : Daemon → EventLoopState → ℕ → ℕ → Turn
  unfolding build_resync_plan
  resync_build_turn d st budget batch_id =
      let (d', requests, r) = build_resync_plan opts d io in
      elim r [
        | err e ↦ record {
          daemon = d';
          state = record st { resync_requested = true; maintenance = idle };
          budget_ops = 0;
          sent = requests;
          flow = continue;
        }
        | ok metrics ↦
            let job : ResyncApplyJob = record {
              target_idx = 0;
              current_idx = 0;
              batch_id = batch_id;
              metrics = metrics;
              waiting_batch_id = none;
            } in
            record {
              daemon = d';
              state = record st { maintenance = resync_apply job };
              budget_ops = budget - 1;
              sent = requests;
              flow = continue;
            }
      ]

  unfoldable pub resync_apply_chunk : Daemon → EventLoopState → ℕ → ResyncApplyJob → Turn
  unfolding fill_resync_chunk start_maintenance_batch
  resync_apply_chunk d st budget job =
      let start : Cursor = record {
        target_idx = job.target_idx;
        current_idx = job.current_idx;
        out = [];
      } in
      let c = fill_resync_chunk d.target_keys d.current_keys (chunk_size opts budget) start in
      let id = next_batch_id job.batch_id in
      let o = start_maintenance_batch opts d st io.sending id c.out in
      elim c.out [
        | [] ↦ record {
          daemon = d;
          state = record st {
            resync_compensate_pending = false;
            batch_id = job.batch_id;
            maintenance = idle;
          };
          budget_ops = budget;
          sent = [];
          flow = continue;
        }
        | _ ∷ _ ↦ elim o.outcome [
          | err e ↦ record {
            daemon = o.daemon;
            state = o.state;
            budget_ops = budget;
            sent = o.sent;
            flow = failed e;
          }
          | ok started ↦ record {
            daemon = o.daemon;
            state = record o.state {
              maintenance = resync_apply (record job {
                target_idx = c.target_idx;
                current_idx = c.current_idx;
                batch_id = id;
                waiting_batch_id = if started then some id else none;
              });
            };
            budget_ops = budget;
            sent = o.sent;
            flow = stop;
          }
        ]
      ]

  unfoldable pub resync_apply_turn : Daemon → EventLoopState → ℕ → ResyncApplyJob → Turn
  unfolding completed_for resync_apply_chunk
  resync_apply_turn d st budget job = elim job.waiting_batch_id [
    | none ↦ resync_apply_chunk d st budget job
    | some id ↦ elim (completed_for st.completed_batch id) [
      | none ↦ record {
        daemon = d;
        state = record st { maintenance = resync_apply job };
        budget_ops = budget;
        sent = [];
        flow = stop;
      }
      | some r ↦
          resync_apply_chunk d (record st { completed_batch = none }) (spend budget r)
            (record job { metrics = add_metrics job.metrics r; waiting_batch_id = none })
    ]
  ]
