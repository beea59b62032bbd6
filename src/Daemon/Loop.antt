-- ===== src/Daemon/Loop.antt =====
-- The reactor of src/daemon/service/event_loop.rs: what a wake-up of the daemon does after the events
-- were handled, the signals, and when the loop ends.
pub mod Reach
use addrsyncd.Base.{
  ℕ, Bool, true, false, not, ◌&&◌, ◌||◌, List, [], ◌∷◌, ◌++◌, leb, ◌==◌, if◌then◌else◌, Option,
  none, some, Result, ok, err,
}
use addrsyncd.Error.{AppError, io}
use addrsyncd.Daemon.{Options, Daemon, EventLoopState, InflightBatch, MaintenanceJob, is_idle}
use addrsyncd.Daemon.Batch.{
  Sending, Outcome, handle_ack_timeout, should_flush_pending, start_pending_batch,
}
use addrsyncd.Daemon.Maintenance.{TurnIo, is_empty}
use addrsyncd.Daemon.Maintenance.Slice.{Slice, drive_maintenance_slice}

-- A read of the signal descriptor: a signal, another length than that of a signal, or the
-- `raw_os_error` of its failure.
pub data SignalRead : Type 0 where
  signal : ℕ → SignalRead
  short_read : SignalRead
  read_failed : Option ℕ → SignalRead

-- `SIGUSR1`
abbrev pub sigusr1 : ℕ
sigusr1 = 10

unfoldable pub note_signal : ℕ → EventLoopState → EventLoopState
note_signal signo st =
    if signo == sigusr1
    then record st { resync_requested = true }
    else record st { shutdown_requested = true }

-- The list holds what the reads give; past its end there is no signal left. `EAGAIN` is 11, `EINTR`
-- is 4.
unfoldable pub handle_signals :
    List SignalRead → EventLoopState → EventLoopState × Result AppError (Unit {0})
unfolding note_signal
handle_signals [] st = (st, ok tt)
handle_signals (signal signo ∷ reads) st = handle_signals reads (note_signal signo st)
handle_signals (short_read ∷ reads) st = (st, ok tt)
handle_signals (read_failed none ∷ reads) st = (st, err (io none))
handle_signals (read_failed (some code) ∷ reads) st =
    let rest = handle_signals reads st in
    if code == 11 then (st, ok tt) else if code == 4 then rest else (st, err (io (some code)))

-- What a wake-up finds outside: the time it reads first, those it reads when it gives a batch up and
-- when it takes pending operations, and what a pending batch and a slice of maintenance need.
pub record ReactorIo : Type 0 where
  pub now : ℕ
  pub gave_up_at : ℕ
  pub flushed_at : ℕ
  pub sending : Sending
  pub turns : List TurnIo

timed_out : Option InflightBatch → ℕ → Bool
timed_out none now = false
timed_out (some b) now = leb b.ack_deadline now

-- The first step: a batch that has waited too long is given up.
unfoldable pub expire : EventLoopState → ReactorIo → EventLoopState
unfolding timed_out handle_ack_timeout
expire st rio = if timed_out st.inflight rio.now then handle_ack_timeout st rio.gave_up_at else st

-- The second step: the pending operations are sent if nothing is in flight and it is time.
unfoldable pub flush : Options → Daemon → EventLoopState → ReactorIo → Outcome
unfolding should_flush_pending start_pending_batch
flush opts d st rio =
    let idle_outcome : Outcome = record { daemon = d; state = st; sent = []; outcome = ok false } in
    elim st.inflight [
      | some _ ↦ idle_outcome
      | none ↦
          if should_flush_pending st rio.now st.shutdown_requested
          then start_pending_batch opts d st rio.flushed_at rio.sending
          else idle_outcome
    ]

-- The third step: maintenance, if nothing is in flight.
unfoldable pub maintain : Options → Daemon → EventLoopState → ReactorIo → Slice
unfolding drive_maintenance_slice
maintain opts d st rio = elim st.inflight [
  | some _ ↦ record { daemon = d; state = st; sent = []; outcome = ok tt }
  | none ↦ drive_maintenance_slice opts rio.turns d st
]

unfoldable pub drive_reactor : Options → Daemon → EventLoopState → ReactorIo → Slice
drive_reactor opts d st rio =
    let f = flush opts d (expire st rio) rio in
    let m = maintain opts f.daemon f.state rio in
    elim f.outcome [
      | err e ↦ record { daemon = f.daemon; state = f.state; sent = f.sent; outcome = err e }
      | ok _ ↦ record m { sent = f.sent ++ m.sent }
    ]

-- When the loop ends after a wake-up.
unfoldable pub should_exit : EventLoopState → Bool
unfolding is_idle
should_exit st =
    let nothing_in_flight : Bool = elim st.inflight [ none ↦ true | some _ ↦ false ] in
    st.shutdown_requested
    && (is_empty st.pending
        && (nothing_in_flight && (is_idle st.maintenance && st.shutdown_cleanup_done)))
