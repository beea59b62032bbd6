-- ===== src/Daemon/Batch/Start.antt =====
-- Starting a batch of operations (src/daemon/service/batch_apply.rs): the part that both kinds share, and the
-- batches of maintenance.
use addrsyncd.Base.{
  ℕ, ◌+◌, ◌%◌, ◌^◌, Bool, true, false, List, [], ◌∷◌, Option, none, some, Result, ok, err, length,
}
use addrsyncd.Error.{AppError}
use addrsyncd.Rule.{RuleOp}
use addrsyncd.Rule.Tracker.{default_tracker}
use addrsyncd.Rule.Apply.{start_apply_rules_batch}
use addrsyncd.Daemon.{
  Options, Daemon, EventLoopState, InflightBatch, InflightOwner, for_maintenance,
}

-- `ACK_WAIT_TIMEOUT`, 5 s.
abbrev pub ack_wait_timeout : ℕ
ack_wait_timeout = 5000000000

-- `u64::wrapping_add(1)`
abbrev pub next_batch_id : ℕ → ℕ
next_batch_id id = (id + 1) % 2 ^ 64

-- The answer to a request to start a batch, with the state and what was handed to the socket.
pub record Outcome : Type 0 where
  pub daemon : Daemon
  pub state : EventLoopState
  pub sent : List (List ℕ)
  pub outcome : Result AppError Bool

-- What a batch needs from outside: what `send_many_raw` answers and the time after it.
pub record Sending : Type 0 where
  pub send : Result (Option ℕ) (Unit {0})
  pub started_at : ℕ

-- The part that both kinds of batches share: the messages are sent and the batch is in flight.
unfoldable pub launch :
    Options → Daemon → EventLoopState → Sending → InflightOwner → ℕ → ℕ → ℕ → List RuleOp → Outcome
unfolding start_apply_rules_batch default_tracker
launch opts d st io owner batch_id input_count noop_prefilter ops =
    let started =
      start_apply_rules_batch opts.rule_ctx ops st.ack_tracker_reuse d.next_seq io.send in
    let d' = record d { next_seq = started.next_seq } in
    elim started.outcome [
      | err e ↦ record {
        daemon = d';
        state = record st { ack_tracker_reuse = started.tracker };
        sent = started.sent;
        outcome = err e;
      }
      | ok first_seq ↦
          let batch : InflightBatch = record {
            batch_id = batch_id;
            started_at = io.started_at;
            ack_deadline = io.started_at + ack_wait_timeout;
            input_count = input_count;
            noop_prefilter = noop_prefilter;
            first_seq = first_seq;
            tracker = started.tracker;
            owner = owner;
            ops = ops;
          } in
          record {
            daemon = d';
            state = record st { ack_tracker_reuse = default_tracker; inflight = some batch };
            sent = started.sent;
            outcome = ok true;
          }
    ]

unfoldable pub nothing_started : Daemon → EventLoopState → Outcome
nothing_started d st = record { daemon = d; state = st; sent = []; outcome = ok false }

unfoldable pub start_maintenance_batch :
    Options → Daemon → EventLoopState → Sending → ℕ → List RuleOp → Outcome
unfolding launch nothing_started
start_maintenance_batch opts d st io batch_id [] = nothing_started d st
start_maintenance_batch opts d st io batch_id (op ∷ ops) = elim st.inflight [
  | some _ ↦ nothing_started d st
  | none ↦ launch opts d st io for_maintenance batch_id (length (op ∷ ops)) 0 (op ∷ ops)
]
