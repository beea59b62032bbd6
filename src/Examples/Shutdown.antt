-- ===== src/Examples/Shutdown.antt =====
-- The end of a daemon that owns two addresses and hears of no acknowledgement.
use addrsyncd.Base.{refl, true, false, List, [], ◌∷◌, arith, ok, some}
use addrsyncd.IpKey.{IpAddr, IpKey}
use addrsyncd.Addr.Filters.{new_filters}
use addrsyncd.Rule.{delete}
use addrsyncd.Rule.Apply.{recv_failed}
use addrsyncd.Rule.Tracker.{prepare}
use addrsyncd.Daemon.{
  Options, Daemon, EventLoopState, initial_state, new_daemon, empty_summary, InflightBatch,
  for_maintenance, cleanup_tracked, CleanupTrackedJob,
}
use addrsyncd.Daemon.Maintenance.{TurnIo}
use addrsyncd.Daemon.Maintenance.Ends.{BatchEnd, given_up, acknowledged, rounds, IsWorking}
use addrsyncd.Daemon.Maintenance.Ends.Exit.{HasExited, rounds-HasExited}
use addrsyncd.Daemon.Loop.{ReactorIo}

abbrev small_batches : Options
small_batches = record {
  ipv6 = true;
  batch_max = 1;
  debounce = 200000000;
  debounce_max = 1000000000;
  rule_ctx = record { pref = 100; table_id = 1000 };
  filters = new_filters [] [] 0;
}

abbrev two_keys : List IpKey
two_keys = IpKey.v4 1 ∷ IpKey.v4 2 ∷ []

abbrev first_job : CleanupTrackedJob
first_job = record { offset = 1; batch_id = 1; summary = empty_summary; waiting_batch_id = some 1 }

abbrev first_batch : InflightBatch
first_batch = record {
  batch_id = 1;
  started_at = 0;
  ack_deadline = 5000000000;
  input_count = 1;
  noop_prefilter = 0;
  first_seq = 1;
  tracker = prepare 1;
  owner = for_maintenance;
  ops = record { addr = IpAddr.v4 (0 ∷ 0 ∷ 0 ∷ 1 ∷ []); action = delete } ∷ [];
}

abbrev stopping : EventLoopState
stopping = record initial_state {
  shutdown_requested = true;
  resync_requested = false;
  startup_cleanup_pending = false;
  pending = [];
  shutdown_cleanup_done = false;
  inflight = some first_batch;
  maintenance = cleanup_tracked first_job;
}

abbrev owner_of_two : Daemon
owner_of_two = record (new_daemon 1) { tracked_keys = two_keys }

abbrev later_turn : TurnIo
later_turn = record {
  now = 5000000001;
  dump_send = ok tt;
  dump_recv = recv_failed (some 11);
  v4_snapshot = record { send = ok tt; received = [] };
  v6_snapshot = record { send = ok tt; received = [] };
  sending = record { send = ok tt; started_at = 5000000001 };
}

abbrev later : ReactorIo
later = record {
  now = 5000000001;
  gave_up_at = 5000000002;
  flushed_at = 5000000003;
  sending = record { send = ok tt; started_at = 5000000003 };
  turns = later_turn ∷ later_turn ∷ later_turn ∷ [];
}

abbrev two_ends : List (BatchEnd × ReactorIo)
two_ends = (given_up 1, later) ∷ (acknowledged 5000000004, later) ∷ []

stopping-IsWorking : IsWorking owner_of_two stopping two_keys first_job first_batch
stopping-IsWorking = record {
  keys = refl;
  working = refl;
  waits = refl;
  flies = refl;
  ours = refl;
  same_id = refl;
  unfinished = refl;
  wishes = record { asked = refl; quiet = refl; no_resync = refl; no_startup = refl };
}

rounds-HasExited_example : HasExited (rounds small_batches two_ends owner_of_two stopping)
rounds-HasExited_example =
    rounds-HasExited small_batches two_ends owner_of_two stopping two_keys first_job first_batch
      stopping-IsWorking
      (
        (later_turn, later_turn ∷ later_turn ∷ [], refl, refl),
        ((later_turn, later_turn ∷ later_turn ∷ [], refl, refl), tt),
      )
      (omega arith)
