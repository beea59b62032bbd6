-- ===== src/Daemon/Maintenance/Startup.antt =====
-- The arms of `drive_maintenance_slice` (src/daemon/service/resync_cleanup.rs) for the cleanup after a
-- start: collecting the rules to remove, and removing them.
use addrsyncd.Base.{ℕ, ◌+◌, ◌-◌, List, [], ◌∷◌, if◌then◌else◌, none, some, ok, err}
use addrsyncd.Codec.Seq.{next_seq}
use addrsyncd.Cleanup.Stream.{
  Targets, dump_pending, dump_done, start_cleanup_dump_family, poll_cleanup_targets_stream,
}
use addrsyncd.Daemon.{
  Options, Daemon, EventLoopState, MaintenanceJob, startup_cleanup_dump_collect,
  startup_cleanup_dump_apply, CollectJob, DumpApplyJob,
}
use addrsyncd.Daemon.Batch.{next_batch_id, start_maintenance_batch}
use addrsyncd.Daemon.Resync.{fill_tracked_cleanup_chunk}
use addrsyncd.Daemon.Maintenance.{
  TurnIo, continue, stop, Turn, next_startup_cleanup_family, retry_turn, completed_for, add_result,
  spend, is_empty, startup_cleanup_over, chunk_size,
}

module _ (opts : Options) (io : TurnIo) where
  abbrev dump_apply_from : ℕ → CollectJob → MaintenanceJob
  dump_apply_from next_idx job = startup_cleanup_dump_apply (record {
    offset = 0;
    batch_id = job.batch_id;
    summary = job.summary;
    waiting_batch_id = none;
    next_family_idx = next_idx;
  })

  unfoldable pub poll_turn : Daemon → EventLoopState → ℕ → List (List ℕ) → CollectJob → ℕ → ℕ → Turn
  unfolding poll_cleanup_targets_stream retry_turn
  poll_turn d st budget sent job family dump_seq =
      let targets : Targets = record { seen = d.cleanup_seen; keys = d.startup_cleanup_keys } in
      let (found, r) =
        poll_cleanup_targets_stream opts.rule_ctx family dump_seq targets io.dump_recv in
      let d' = record d { cleanup_seen = found.seen; startup_cleanup_keys = found.keys } in
      elim r [
        | err e ↦ retry_turn d' st io.now budget sent
        | ok dump_pending ↦ record {
          daemon = d';
          state = record st {
            maintenance = startup_cleanup_dump_collect (record job { seq = some dump_seq });
          };
          budget_ops = budget;
          sent = sent;
          flow = stop;
        }
        | ok dump_done ↦
            let next = record job { family_idx = job.family_idx + 1; seq = none } in
            record {
              daemon = d';
              state = record st {
                maintenance =
                    if is_empty found.keys
                    then startup_cleanup_dump_collect next
                    else dump_apply_from (job.family_idx + 1) job;
              };
              budget_ops = budget;
              sent = sent;
              flow = continue;
            }
      ]

  unfoldable pub collect_turn : Daemon → EventLoopState → ℕ → CollectJob → Turn
  unfolding next_startup_cleanup_family start_cleanup_dump_family next_seq poll_turn retry_turn
  collect_turn d st budget job =
      let budget' = budget - 1 in
      elim (next_startup_cleanup_family job.family_idx opts.ipv6) [
        | none ↦ record {
          daemon = d;
          state =
              if is_empty d.startup_cleanup_keys
              then startup_cleanup_over job.batch_id st
              else record st { maintenance = dump_apply_from (job.family_idx + 1) job };
          budget_ops = budget';
          sent = [];
          flow = continue;
        }
        | some (active_idx, family) ↦
            let job' = record job { family_idx = active_idx } in
            elim job.seq [
              | some dump_seq ↦ poll_turn d st budget' [] job' family dump_seq
              | none ↦
                  let (dump_seq, next) = next_seq d.next_seq in
                  let (request, seen, r) =
                    start_cleanup_dump_family family dump_seq d.cleanup_seen io.dump_send in
                  let d' = record d { next_seq = next; cleanup_seen = seen } in
                  elim r [
                    | err e ↦ retry_turn d' st io.now budget' (request ∷ [])
                    | ok _ ↦ poll_turn d' st budget' (request ∷ []) job' family dump_seq
                  ]
            ]
      ]

  -- The next chunk of the startup cleanup, when no batch is waited for.
  unfoldable pub dump_apply_chunk : Daemon → EventLoopState → ℕ → DumpApplyJob → Turn
  unfolding fill_tracked_cleanup_chunk start_maintenance_batch next_startup_cleanup_family
      retry_turn
  dump_apply_chunk d st budget job =
      let (offset, chunk) =
        fill_tracked_cleanup_chunk d.startup_cleanup_keys job.offset (chunk_size opts budget) [] in
      let next_family : CollectJob = record {
        family_idx = job.next_family_idx;
        seq = none;
        batch_id = job.batch_id;
        summary = job.summary;
      } in
      let id = next_batch_id job.batch_id in
      let o = start_maintenance_batch opts d st io.sending id chunk in
      elim chunk [
        | [] ↦ record {
          daemon = record d { startup_cleanup_keys = [] };
          state = elim (next_startup_cleanup_family job.next_family_idx opts.ipv6) [
            | none ↦ startup_cleanup_over job.batch_id st
            | some _ ↦ record st {
              batch_id = job.batch_id;
              maintenance = startup_cleanup_dump_collect next_family;
            }
          ];
          budget_ops = budget;
          sent = [];
          flow = continue;
        }
        | _ ∷ _ ↦ elim o.outcome [
          | err e ↦ retry_turn o.daemon o.state io.now budget o.sent
          | ok started ↦ record {
            daemon = o.daemon;
            state = record o.state {
              maintenance = startup_cleanup_dump_apply (record job {
                offset = offset;
                batch_id = id;
                waiting_batch_id = if started then some id else none;
              });
            };
            budget_ops = budget;
            sent = o.sent;
            flow = stop;
          }
        ]
      ]

  unfoldable pub dump_apply_turn : Daemon → EventLoopState → ℕ → DumpApplyJob → Turn
  unfolding completed_for dump_apply_chunk
  dump_apply_turn d st budget job = elim job.waiting_batch_id [
    | none ↦ dump_apply_chunk d st budget job
    | some id ↦ elim (completed_for st.completed_batch id) [
      | none ↦ record {
        daemon = d;
        state = record st { maintenance = startup_cleanup_dump_apply job };
        budget_ops = budget;
        sent = [];
        flow = stop;
      }
      | some r ↦
          dump_apply_chunk d (record st { completed_batch = none }) (spend budget r)
            (record job { summary = add_result job.summary r; waiting_batch_id = none })
    ]
  ]
