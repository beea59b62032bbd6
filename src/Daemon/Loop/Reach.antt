-- ===== src/Daemon/Loop/Reach.antt =====
-- The states that the event loop (src/daemon/service/event_loop.rs) reaches, and what holds in each.
use addrsyncd.Base.{
  ℕ, ◌≡◌, ◌∙◌, refl, true, List, [], ◌∷◌, Option, none, some, arith, length, Option-cases, inl, inr,
}
use addrsyncd.Rule.Tracker.{AckTracker}
use addrsyncd.Rule.Apply.{Recv, start_apply_rules_batch, drain_apply_ack_messages}
use addrsyncd.Daemon.{
  Options, Daemon, EventLoopState, InflightBatch, is_maintenance, initial_state, new_daemon,
}
use addrsyncd.Daemon.Batch.{
  Sending, drain_rule_acks_once, finish_inflight_batch, handle_ack_timeout, start_pending_batch,
  launch, start_ops, nothing_started, rearm, queue_compensate_resync,
}
use addrsyncd.Daemon.Route.{handle_route_events}
use addrsyncd.Daemon.Route.Drops.{SameWaits, SlotsOk, handle_route_events-kept}
use addrsyncd.Daemon.Maintenance.{completed_for}
use addrsyncd.Daemon.Maintenance.Waits.{promised, is_promised, waiting_for, is_some}
use addrsyncd.Daemon.Maintenance.Waits.Turns.{is_promised-drive_maintenance_slice}
use addrsyncd.Daemon.Loop.{
  SignalRead, signal, short_read, read_failed, note_signal, handle_signals, ReactorIo, expire,
  flush, maintain, drive_reactor,
}

handle_signals-promised :
    (reads : List SignalRead) (st : EventLoopState)
    → is_promised (handle_signals reads st).0 ≡ is_promised st
unfolding handle_signals note_signal is_promised
handle_signals-promised [] st = refl
handle_signals-promised (signal signo ∷ reads) st =
    ground (arith, handle_signals-promised reads (note_signal signo st))
handle_signals-promised (short_read ∷ reads) st = refl
handle_signals-promised (read_failed none ∷ reads) st = refl
handle_signals-promised (read_failed (some code) ∷ reads) st =
    ground (arith, handle_signals-promised reads st)

finish_inflight_batch-promised :
    (d : Daemon) (st : EventLoopState) (now : ℕ)
    → is_promised st ≡ true
    → is_promised (finish_inflight_batch d st now).1 ≡ true
unfolding finish_inflight_batch is_promised promised completed_for is_some
finish_inflight_batch-promised d st now p = ground arith

handle_ack_timeout-promised :
    (st : EventLoopState) (now : ℕ)
    → is_promised st ≡ true
    → is_promised (handle_ack_timeout st now) ≡ true
unfolding handle_ack_timeout queue_compensate_resync is_promised promised completed_for is_some
handle_ack_timeout-promised st now p = ground arith

-- Acknowledgements noted in the tracker change nothing here.
noted-promised :
    (st : EventLoopState) (b : InflightBatch) (tracker : AckTracker)
    → st.inflight ≡ some b
    → is_promised st ≡ true
    → is_promised (record st { inflight = some (record b { tracker = tracker }) }) ≡ true
unfolding is_promised promised
noted-promised st b tracker e p = ground arith

drain_rule_acks_once-promised :
    (from_utf8 : List ℕ → Option (List ℕ)) (d : Daemon) (st : EventLoopState) (received : List Recv)
    (now : ℕ)
    → is_promised st ≡ true
    → is_promised (drain_rule_acks_once from_utf8 d st received now).1 ≡ true
unfolding drain_rule_acks_once
drain_rule_acks_once-promised from_utf8 d st received now p = elim (Option-cases st.inflight) [
  | inl e ↦ rw (e, drain_rule_acks_once) p
  | inr (b, e) ↦
      let tracker =
        (drain_apply_ack_messages from_utf8 b.first_seq (length b.ops) b.tracker received).0 in
      let st' = record st { inflight = some (record b { tracker = tracker }) } in
      let p' = noted-promised st b tracker e p in
      rw (e, drain_rule_acks_once) (ground (arith, p', finish_inflight_batch-promised d st' now p'))
]

start_pending_batch-promised :
    (opts : Options) (d : Daemon) (st : EventLoopState) (now : ℕ) (io : Sending)
    → is_promised st ≡ true
    → is_promised (start_pending_batch opts d st now io).state ≡ true
unfolding start_pending_batch start_ops launch nothing_started rearm start_apply_rules_batch
    is_promised promised is_maintenance
start_pending_batch-promised opts d st now io p = ground arith

flush-promised :
    (opts : Options) (d : Daemon) (st : EventLoopState) (rio : ReactorIo)
    → is_promised st ≡ true
    → is_promised (flush opts d st rio).state ≡ true
unfolding flush
flush-promised opts d st rio p =
    ground (arith, p, start_pending_batch-promised opts d st rio.flushed_at rio.sending p)

expire-promised :
    (st : EventLoopState) (rio : ReactorIo)
    → is_promised st ≡ true
    → is_promised (expire st rio) ≡ true
unfolding expire
expire-promised st rio p = ground (arith, p, handle_ack_timeout-promised st rio.gave_up_at p)

maintain-promised :
    (opts : Options) (d : Daemon) (st : EventLoopState) (rio : ReactorIo)
    → is_promised st ≡ true
    → is_promised (maintain opts d st rio).state ≡ true
unfolding maintain
maintain-promised opts d st rio p =
    ground (arith, p, is_promised-drive_maintenance_slice opts rio.turns d st)

drive_reactor-promised :
    (opts : Options) (d : Daemon) (st : EventLoopState) (rio : ReactorIo)
    → is_promised st ≡ true
    → is_promised (drive_reactor opts d st rio).state ≡ true
unfolding drive_reactor
drive_reactor-promised opts d st rio p =
    let f = flush opts d (expire st rio) rio in
    let kept = flush-promised opts d (expire st rio) rio (expire-promised st rio p) in
    ground (arith, kept, maintain-promised opts f.daemon f.state rio kept)

SameWaits-promised :
    (a b : EventLoopState) → SameWaits a b → is_promised b ≡ true → is_promised a ≡ true
unfolding is_promised
SameWaits-promised a b h p = rw (h.0, h.1, h.2) p

-- The daemon between two handlers, with the slots of its ring.
pub record World : Type 0 where
  pub daemon : Daemon
  pub state : EventLoopState
  pub slots : ℕ

-- What one wake-up of the loop does, handler by handler, in any order that the events come in.
pub data Step (opts : Options) (from_utf8 : List ℕ → Option (List ℕ)) : World → World → Type 0 where
  route_step :
      (w : World) (received : List Recv) (now : ℕ)
      → Step opts from_utf8 w (record w {
        state = (handle_route_events opts w.state w.slots received now).0;
        slots = (handle_route_events opts w.state w.slots received now).1;
      })
  rule_step :
      (w : World) (received : List Recv) (now : ℕ)
      → Step opts from_utf8 w (record w {
        daemon = (drain_rule_acks_once from_utf8 w.daemon w.state received now).0;
        state = (drain_rule_acks_once from_utf8 w.daemon w.state received now).1;
      })
  signal_step :
      (w : World) (reads : List SignalRead)
      → Step opts from_utf8 w (record w { state = (handle_signals reads w.state).0 })
  reactor_step :
      (w : World) (rio : ReactorIo)
      → Step opts from_utf8 w (record w {
        daemon = (drive_reactor opts w.daemon w.state rio).daemon;
        state = (drive_reactor opts w.daemon w.state rio).state;
      })

pub data Steps (opts : Options) (from_utf8 : List ℕ → Option (List ℕ))
    : World → World → Type 0 where
  here : (w : World) → Steps opts from_utf8 w w
  and_then :
      (a b c : World)
      → Step opts from_utf8 a b
      → Steps opts from_utf8 b c
      → Steps opts from_utf8 a c

-- How the loop starts, with the 8 slots of the default ring.
unfoldable pub initial_world : ℕ → World
unfolding new_daemon initial_state
initial_world next_seq = record { daemon = new_daemon next_seq; state = initial_state; slots = 8 }

-- No job of maintenance waits in vain, and the ring has between 8 and 32 slots.
abbrev pub IsSound : World → Type 0
IsSound w = (is_promised w.state ≡ true) × SlotsOk w.slots

module _ (opts : Options) (from_utf8 : List ℕ → Option (List ℕ)) where
  Step-IsSound : (a b : World) → Step opts from_utf8 a b → IsSound a → IsSound b
  Step-IsSound a _ (route_step _ received now) h =
      let kept = handle_route_events-kept opts a.state a.slots received now h.1 in
      (
        SameWaits-promised (handle_route_events opts a.state a.slots received now).0 a.state kept.0
            h.0,
        kept.1,
      )
  Step-IsSound a _ (rule_step _ received now) h =
      (drain_rule_acks_once-promised from_utf8 a.daemon a.state received now h.0, h.1)
  Step-IsSound a _ (signal_step _ reads) h = (handle_signals-promised reads a.state ∙ h.0, h.1)
  Step-IsSound a _ (reactor_step _ rio) h =
      (drive_reactor-promised opts a.daemon a.state rio h.0, h.1)

  Steps-IsSound : (a b : World) → Steps opts from_utf8 a b → IsSound a → IsSound b
  Steps-IsSound a _ (here _) h = h
  Steps-IsSound a c (and_then _ b _ s rest) h = Steps-IsSound b c rest (Step-IsSound a b s h)

  initial_world-IsSound : (next_seq : ℕ) → IsSound (initial_world next_seq)
  unfolding initial_world initial_state is_promised promised waiting_for
  initial_world-IsSound next_seq = (refl, ground arith)

-- In every state that the daemon reaches, whatever events come in whatever order, errors of the
-- sockets included: a job of maintenance that waits for a batch has that batch in flight or its result
-- at hand, a batch of maintenance in flight has the job that waits for it, and the ring has between 8
-- and 32 slots.
pub reachable-IsSound :
    (opts : Options) (from_utf8 : List ℕ → Option (List ℕ)) (next_seq : ℕ) (w : World)
    → Steps opts from_utf8 (initial_world next_seq) w
    → IsSound w
reachable-IsSound opts from_utf8 next_seq w s =
    Steps-IsSound opts from_utf8 (initial_world next_seq) w s
      (initial_world-IsSound opts from_utf8 next_seq)
