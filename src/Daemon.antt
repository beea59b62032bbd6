-- ===== src/Daemon.antt =====
-- The state of the daemon, src/daemon/service.rs: what it owns and what its event loop keeps between
-- two rounds. An `Instant` and a `Duration` are nanoseconds. The pool of empty operation vectors
-- only saves allocations and is left out.
pub mod Budget
pub mod Batch
pub mod Resync
pub mod Maintenance
pub mod Route
pub mod Loop
use addrsyncd.Base.{ℕ, Bool, true, false, List, [], ◌∷◌, Option, none, some}
use addrsyncd.IpKey.{IpKey}
use addrsyncd.Addr.Filters.{IgnoreFilters}
use addrsyncd.Rule.{RuleOp, RuleAction, RuleContext}
use addrsyncd.Rule.Tracker.{AckTracker, default_tracker}

-- The options that the daemon reads.
pub record Options : Type 0 where
  pub ipv6 : Bool
  pub batch_max : ℕ
  pub debounce : ℕ
  pub debounce_max : ℕ
  pub rule_ctx : RuleContext
  pub filters : IgnoreFilters

pub record ApplyResult : Type 0 where
  pub input : ℕ
  pub noop : ℕ
  pub added : ℕ
  pub deleted : ℕ
  pub failed : ℕ
  pub duration : ℕ

pub record ResyncResult : Type 0 where
  pub target : ℕ
  pub current : ℕ
  pub add : ℕ
  pub del : ℕ
  pub failed : ℕ

pub data InflightOwner : Type 0 where
  for_pending for_maintenance : InflightOwner

unfoldable pub is_maintenance : InflightOwner → Bool
is_maintenance for_pending = false
is_maintenance for_maintenance = true

pub record InflightBatch : Type 0 where
  pub batch_id : ℕ
  pub started_at : ℕ
  pub ack_deadline : ℕ
  pub input_count : ℕ
  pub noop_prefilter : ℕ
  pub first_seq : ℕ
  pub tracker : AckTracker
  pub owner : InflightOwner
  pub ops : List RuleOp

pub record CompletedBatch : Type 0 where
  pub batch_id : ℕ
  pub result : ApplyResult
  pub owner : InflightOwner

pub record CleanupSummary : Type 0 where
  pub removed : ℕ
  pub noop : ℕ
  pub failed : ℕ

abbrev pub empty_summary : CleanupSummary
empty_summary = record { removed = 0; noop = 0; failed = 0 }

pub record CollectJob : Type 0 where
  pub family_idx : ℕ
  pub seq : Option ℕ
  pub batch_id : ℕ
  pub summary : CleanupSummary

pub record DumpApplyJob : Type 0 where
  pub offset : ℕ
  pub batch_id : ℕ
  pub summary : CleanupSummary
  pub waiting_batch_id : Option ℕ
  pub next_family_idx : ℕ

pub record ResyncApplyJob : Type 0 where
  pub target_idx : ℕ
  pub current_idx : ℕ
  pub batch_id : ℕ
  pub metrics : ResyncResult
  pub waiting_batch_id : Option ℕ

pub record CleanupTrackedJob : Type 0 where
  pub offset : ℕ
  pub batch_id : ℕ
  pub summary : CleanupSummary
  pub waiting_batch_id : Option ℕ

pub data MaintenanceJob : Type 0 where
  idle : MaintenanceJob
  startup_cleanup_dump_collect : CollectJob → MaintenanceJob
  startup_cleanup_dump_apply : DumpApplyJob → MaintenanceJob
  resync_build : ℕ → MaintenanceJob
  resync_apply : ResyncApplyJob → MaintenanceJob
  cleanup_tracked : CleanupTrackedJob → MaintenanceJob

unfoldable pub is_idle : MaintenanceJob → Bool
is_idle idle = true
is_idle (startup_cleanup_dump_collect _) = false
is_idle (startup_cleanup_dump_apply _) = false
is_idle (resync_build _) = false
is_idle (resync_apply _) = false
is_idle (cleanup_tracked _) = false

pub record RouteBudgetState : Type 0 where
  pub current : ℕ
  pub full_streak : ℕ
  pub low_streak : ℕ

pub record EventLoopState : Type 0 where
  pub pending : List (IpKey × RuleAction)
  pub quiet_deadline : Option ℕ
  pub max_deadline : Option ℕ
  pub inflight : Option InflightBatch
  pub ack_tracker_reuse : AckTracker
  pub dropped_count : ℕ
  pub batch_id : ℕ
  pub shutdown_requested : Bool
  pub resync_requested : Bool
  pub resync_compensate_pending : Bool
  pub maintenance : MaintenanceJob
  pub shutdown_cleanup_done : Bool
  pub shutdown_cleanup : CleanupSummary
  pub route_budget : RouteBudgetState
  pub route_ring_calm_streak : ℕ
  pub completed_batch : Option CompletedBatch
  pub startup_cleanup_pending : Bool
  pub startup_cleanup_retry_deadline : Option ℕ
  pub startup_cleanup_retry_count : ℕ
  pub startup_cleanup_started_at : Option ℕ

-- `Daemon`, with the `seen` set of its dump scratch (src/netlink/cleanup.rs) and `NEXT_SEQ` of
-- src/netlink/codec.rs.
pub record Daemon : Type 0 where
  pub owned_ips : List IpKey
  pub target_keys : List IpKey
  pub current_keys : List IpKey
  pub tracked_keys : List IpKey
  pub startup_cleanup_keys : List IpKey
  pub cleanup_seen : List IpKey
  pub next_seq : ℕ

abbrev pub default_route_budget : RouteBudgetState
default_route_budget = record { current = 256; full_streak = 0; low_streak = 0 }

-- The state with which `run` starts the event loop.
unfoldable pub initial_state : EventLoopState
unfolding default_tracker
initial_state = record {
  pending = [];
  quiet_deadline = none;
  max_deadline = none;
  inflight = none;
  ack_tracker_reuse = default_tracker;
  dropped_count = 0;
  batch_id = 0;
  shutdown_requested = false;
  resync_requested = false;
  resync_compensate_pending = false;
  maintenance = idle;
  shutdown_cleanup_done = false;
  shutdown_cleanup = empty_summary;
  route_budget = default_route_budget;
  route_ring_calm_streak = 0;
  completed_batch = none;
  startup_cleanup_pending = true;
  startup_cleanup_retry_deadline = none;
  startup_cleanup_retry_count = 0;
  startup_cleanup_started_at = none;
}

-- `Daemon::new`: nothing is owned yet.
unfoldable pub new_daemon : ℕ → Daemon
new_daemon next_seq = record {
  owned_ips = [];
  target_keys = [];
  current_keys = [];
  tracked_keys = [];
  startup_cleanup_keys = [];
  cleanup_seen = [];
  next_seq = next_seq;
}
