-- ===== src/Daemon/Maintenance/Ends.antt =====
-- The wake-ups of the daemon while the cleanup at the end is under way: `drive_reactor` of
-- src/daemon/service/event_loop.rs and the arm for tracked keys of src/daemon/service/resync_cleanup.rs.
pub mod Chunks
pub mod Exit
use addrsyncd.Base.{
  ℕ, zero, suc, ◌+◌, ◌-◌, ◌≤◌, ◌<◌, ◌≡◌, refl, ◌∙◌, ap, min, max, Bool, true, false, not, ◌&&◌,
  ◌||◌, List, [], ◌∷◌, ◌++◌, arith, leb, ◌==◌, if◌then◌else◌, Option, none, some, Result, ok, err,
  length, Option-cases, map, All, leb→le, slice, take, drop, get_elem?, drop_get, ◌≢◌, Bool-cases,
  inl, inr, ◌⊎◌,
}
use addrsyncd.Error.{AppError}
use addrsyncd.IpKey.{IpKey}
use addrsyncd.Rule.{RuleOp, delete}
use addrsyncd.Daemon.{
  Options, Daemon, EventLoopState, ApplyResult, InflightBatch, CompletedBatch, for_maintenance,
  is_maintenance, MaintenanceJob, idle, cleanup_tracked, CleanupTrackedJob,
}
use addrsyncd.Rule.Apply.{start_apply_rules_batch}
use addrsyncd.Daemon.Batch.{
  Outcome, handle_ack_timeout, finish_inflight_batch, start_maintenance_batch, launch,
  next_batch_id,
}
use addrsyncd.Daemon.Resync.{fill_tracked_cleanup_chunk, op_of}
use addrsyncd.Daemon.Maintenance.{
  TurnIo, Turn, Flow, stop, continue, completed_for, spend, add_result, chunk_size,
}
use addrsyncd.Daemon.Maintenance.Shutdown.{cleanup_tracked_chunk, cleanup_tracked_turn}
use addrsyncd.Daemon.Loop.{should_exit, ReactorIo, drive_reactor, expire, flush, maintain}
use addrsyncd.Daemon.Batch.Deadline.{should_flush_pending}
use addrsyncd.Daemon.Maintenance.Slice.{
  turn, idle_turn, run_job, Slice, drive_maintenance_slice, slice_loop,
}

-- How a batch ends: its last acknowledgement is read at a time, or it is given up when the timer, set to
-- its deadline, wakes the daemon that much late.
pub data BatchEnd : Type 0 where
  acknowledged given_up : ℕ → BatchEnd

unfoldable pub deadline_of : Option InflightBatch → ℕ
deadline_of none = 0
deadline_of (some b) = b.ack_deadline

-- A wake-up of the daemon that ends the batch in flight, and what the reactor does then.
unfoldable pub round : Options → BatchEnd → ReactorIo → Daemon → EventLoopState → Slice
round opts (acknowledged now) rio d st =
    let (d', st') = finish_inflight_batch d st now in drive_reactor opts d' st' rio
round opts (given_up late) rio d st =
    drive_reactor opts d st (record rio { now = deadline_of st.inflight + late })

-- Wake-ups until the loop ends, with an error or because it may.
unfoldable pub rounds : Options → List (BatchEnd × ReactorIo) → Daemon → EventLoopState → Slice
rounds opts [] d st = record { daemon = d; state = st; sent = []; outcome = ok tt }
rounds opts ((e, rio) ∷ ends) d st =
    let s = round opts e rio d st in
    let rest = rounds opts ends s.daemon s.state in
    elim s.outcome [
      | err _ ↦ s
      | ok _ ↦ if should_exit s.state then s else record rest { sent = s.sent ++ rest.sent }
    ]

-- What is left of the batch when the maintenance of the wake-up begins.
unfoldable pub end_batch : BatchEnd → ReactorIo → Daemon → EventLoopState → Daemon × EventLoopState
end_batch (acknowledged now) rio d st = finish_inflight_batch d st now
end_batch (given_up late) rio d st = (d, handle_ack_timeout st rio.gave_up_at)

-- The daemon was asked to stop, and nothing else is wanted of it.
pub record IsAsked (st : EventLoopState) : Type 0 where
  pub asked : st.shutdown_requested ≡ true
  pub quiet : st.pending ≡ []
  pub no_resync : st.resync_requested ≡ false
  pub no_startup : st.startup_cleanup_pending ≡ false

-- The batch of a cleanup job is in flight.
pub record IsWorking (d : Daemon) (st : EventLoopState) (tracked : List IpKey)
    (job : CleanupTrackedJob) (b : InflightBatch) : Type 0 where
  pub keys : d.tracked_keys ≡ tracked
  pub working : st.maintenance ≡ cleanup_tracked job
  pub waits : job.waiting_batch_id ≡ some job.batch_id
  pub flies : st.inflight ≡ some b
  pub ours : b.owner ≡ for_maintenance
  pub same_id : b.batch_id ≡ job.batch_id
  pub unfinished : st.shutdown_cleanup_done ≡ false
  pub wishes : IsAsked st

-- The same when the batch has ended with a result.
pub record HasEnded (d : Daemon) (st : EventLoopState) (tracked : List IpKey)
    (job : CleanupTrackedJob) (r : ApplyResult) : Type 0 where
  pub keys : d.tracked_keys ≡ tracked
  pub working : st.maintenance ≡ cleanup_tracked job
  pub waits : job.waiting_batch_id ≡ some job.batch_id
  pub landed : st.inflight ≡ none
  pub ended : completed_for st.completed_batch job.batch_id ≡ some r
  pub unfinished : st.shutdown_cleanup_done ≡ false
  pub wishes : IsAsked st

-- The end of the cleanup.
pub record IsDone (st : EventLoopState) : Type 0 where
  pub cleaned : st.shutdown_cleanup_done ≡ true
  pub wishes : IsAsked st
  pub rests : st.maintenance ≡ idle
  pub landed : st.inflight ≡ none

pub end_batch-HasEnded :
    (e : BatchEnd) (rio : ReactorIo) (d : Daemon) (st : EventLoopState) (tracked : List IpKey)
    (job : CleanupTrackedJob) (b : InflightBatch)
    → IsWorking d st tracked job b
    → (r : ApplyResult) × HasEnded (end_batch e rio d st).0 (end_batch e rio d st).1 tracked job r
unfolding end_batch finish_inflight_batch handle_ack_timeout completed_for is_maintenance
end_batch-HasEnded (acknowledged now) rio d st tracked job b w =
    let after : Daemon × EventLoopState = finish_inflight_batch d st now in
    elim (Option-cases (completed_for after.1.completed_batch job.batch_id)) [
      | inl lost ↦ absurd (ground (arith, w.flies, w.ours, w.same_id))
      | inr (r, found) ↦ (
        r,
        record {
          keys = ground (arith, w.flies, w.keys);
          working = ground (arith, w.flies, w.ours, w.working);
          waits = w.waits;
          landed = ground (arith, w.flies, w.ours);
          ended = found;
          unfinished = ground (arith, w.flies, w.ours, w.unfinished);
          wishes = record {
            asked = ground (arith, w.flies, w.ours, w.wishes.asked);
            quiet = ground (arith, w.flies, w.ours, w.wishes.quiet);
            no_resync = ground (arith, w.flies, w.ours, w.wishes.no_resync);
            no_startup = ground (arith, w.flies, w.ours, w.wishes.no_startup);
          };
        },
      )
    ]
end_batch-HasEnded (given_up late) rio d st tracked job b w =
    let after : EventLoopState = handle_ack_timeout st rio.gave_up_at in
    elim (Option-cases (completed_for after.completed_batch job.batch_id)) [
      | inl lost ↦ absurd (ground (arith, w.flies, w.ours, w.same_id))
      | inr (r, found) ↦ (
        r,
        record {
          keys = w.keys;
          working = ground (arith, w.flies, w.ours, w.working);
          waits = w.waits;
          landed = ground (arith, w.flies, w.ours);
          ended = found;
          unfinished = ground (arith, w.flies, w.ours, w.unfinished);
          wishes = record {
            asked = ground (arith, w.flies, w.ours, w.wishes.asked);
            quiet = ground (arith, w.flies, w.ours, w.wishes.quiet);
            no_resync = ground (arith, w.flies, w.ours, w.wishes.no_resync);
            no_startup = ground (arith, w.flies, w.ours, w.wishes.no_startup);
          };
        },
      )
    ]

-- The results of two slices are the same, but for what was sent.
pub record AreAlike (s t : Slice) : Type 0 where
  pub daemons : s.daemon ≡ t.daemon
  pub states : s.state ≡ t.state
  pub outcomes : s.outcome ≡ t.outcome

-- The second and the third step of the reactor.
unfoldable reacted : Options → Daemon → EventLoopState → ReactorIo → Slice
reacted opts d st rio =
    let f = flush opts d st rio in
    let m = maintain opts f.daemon f.state rio in
    elim f.outcome [
      | err e ↦ record { daemon = f.daemon; state = f.state; sent = f.sent; outcome = err e }
      | ok _ ↦ record m { sent = f.sent ++ m.sent }
    ]

expire-none : (rio : ReactorIo) (st : EventLoopState) → st.inflight ≡ none → expire st rio ≡ st
unfolding expire
expire-none rio st l = ground (arith, l)

expire_due :
    (rio : ReactorIo) (st : EventLoopState) (b : InflightBatch) (late : ℕ)
    → st.inflight ≡ some b
    → expire st (record rio { now = deadline_of st.inflight + late })
      ≡ handle_ack_timeout st rio.gave_up_at
unfolding expire deadline_of
expire_due rio st b late f = ground (arith, f)

reactor_expired :
    (opts : Options) (rio : ReactorIo) (d : Daemon) (st : EventLoopState)
    → drive_reactor opts d st rio ≡ reacted opts d (expire st rio) rio
unfolding drive_reactor reacted
reactor_expired opts rio d st = refl

reacted_quiet :
    (opts : Options) (rio : ReactorIo) (d : Daemon) (st : EventLoopState)
    → st.inflight ≡ none
    → st.pending ≡ []
    → AreAlike (reacted opts d st rio) (drive_maintenance_slice opts rio.turns d st)
unfolding reacted flush maintain should_flush_pending
reacted_quiet opts rio d st l q = record {
  daemons = ground (arith, l, q);
  states = ground (arith, l, q);
  outcomes = ground (arith, l, q);
}

reactor_after :
    (opts : Options) (rio : ReactorIo) (d : Daemon) (st after : EventLoopState)
    → expire st rio ≡ after
    → after.inflight ≡ none
    → after.pending ≡ []
    → AreAlike (drive_reactor opts d st rio) (drive_maintenance_slice opts rio.turns d after)
reactor_after opts rio d st after e l q =
    let same : drive_reactor opts d st rio ≡ reacted opts d after rio =
      reactor_expired opts rio d st ∙ ap (λ (x : EventLoopState). reacted opts d x rio) e in
    rw same (reacted_quiet opts rio d after l q)

-- A wake-up comes down to a slice of maintenance in the state without the batch.
pub round-AreAlike :
    (opts : Options) (e : BatchEnd) (rio : ReactorIo) (d : Daemon) (st : EventLoopState)
    (tracked : List IpKey) (job : CleanupTrackedJob) (b : InflightBatch) (r : ApplyResult)
    → IsWorking d st tracked job b
    → let after = end_batch e rio d st in
      HasEnded after.0 after.1 tracked job r
      → AreAlike (round opts e rio d st) (drive_maintenance_slice opts rio.turns after.0 after.1)
unfolding round end_batch
round-AreAlike opts (acknowledged now) rio d st tracked job b r w h =
    let (d', st') = finish_inflight_batch d st now in
    reactor_after opts rio d' st' st' (expire-none rio st' h.landed) h.landed h.wishes.quiet
round-AreAlike opts (given_up late) rio d st tracked job b r w h =
    reactor_after opts (record rio { now = deadline_of st.inflight + late }) d st
      (handle_ack_timeout st rio.gave_up_at) (expire_due rio st b late w.flies) h.landed
      h.wishes.quiet

slice_loop_stop :
    (opts : Options) (io : TurnIo) (ios : List TurnIo) (d : Daemon) (st : EventLoopState)
    (budget : ℕ)
    → (budget == 0) ≡ false
    → let t = turn opts io d st budget in
      t.flow ≡ stop
      → slice_loop opts (io ∷ ios) d st budget
        ≡ record { daemon = t.daemon; state = t.state; sent = t.sent; outcome = ok tt }
unfolding slice_loop
slice_loop_stop opts io ios d st budget left f = rw (left, f) refl

pub slice_stop :
    (opts : Options) (io : TurnIo) (ios : List TurnIo) (d : Daemon) (st : EventLoopState)
    → let t = turn opts io d st 256 in
      t.flow ≡ stop
      → AreAlike
          (drive_maintenance_slice opts (io ∷ ios) d st)
          (record { daemon = t.daemon; state = t.state; sent = t.sent; outcome = ok tt })
unfolding drive_maintenance_slice
slice_stop opts io ios d st f =
    let same = slice_loop_stop opts io ios d st 256 refl f in
    record {
      daemons = ap (λ (s : Slice). s.daemon) same;
      states = ap (λ (s : Slice). s.state) same;
      outcomes = ap (λ (s : Slice). s.outcome) same;
    }

pub slice_continue :
    (opts : Options) (io : TurnIo) (ios : List TurnIo) (d : Daemon) (st : EventLoopState)
    → let t = turn opts io d st 256 in
      t.flow ≡ continue
      → AreAlike
          (drive_maintenance_slice opts (io ∷ ios) d st)
          (slice_loop opts ios t.daemon t.state t.budget_ops)
unfolding drive_maintenance_slice slice_loop
slice_continue opts io ios d st f = record {
  daemons = rw f refl;
  states = rw f refl;
  outcomes = rw f refl;
}

idle_turn-IsDone :
    (opts : Options) (io : TurnIo) (d : Daemon) (st : EventLoopState) (budget : ℕ)
    → IsDone st
    → let t = turn opts io d st budget in (t.flow ≡ stop) × IsDone t.state
unfolding turn idle_turn
idle_turn-IsDone opts io d st budget h = (
  ground (
    arith, h.cleaned, h.wishes.asked, h.wishes.quiet, h.rests, h.wishes.no_resync,
    h.wishes.no_startup,
  ),
  record {
    cleaned = ground (
      arith, h.cleaned, h.wishes.asked, h.wishes.quiet, h.rests, h.wishes.no_resync,
      h.wishes.no_startup,
    );
    rests = ground (
      arith, h.cleaned, h.wishes.asked, h.wishes.quiet, h.rests, h.wishes.no_resync,
      h.wishes.no_startup,
    );
    landed = ground (
      arith, h.cleaned, h.wishes.asked, h.wishes.quiet, h.rests, h.wishes.no_resync,
      h.wishes.no_startup, h.landed,
    );
    wishes = record {
      asked = ground (
        arith, h.cleaned, h.wishes.asked, h.wishes.quiet, h.rests, h.wishes.no_resync,
        h.wishes.no_startup,
      );
      quiet = ground (
        arith, h.cleaned, h.wishes.asked, h.wishes.quiet, h.rests, h.wishes.no_resync,
        h.wishes.no_startup,
      );
      no_resync = ground (
        arith, h.cleaned, h.wishes.asked, h.wishes.quiet, h.rests, h.wishes.no_resync,
        h.wishes.no_startup,
      );
      no_startup = ground (
        arith, h.cleaned, h.wishes.asked, h.wishes.quiet, h.rests, h.wishes.no_resync,
        h.wishes.no_startup,
      );
    };
  },
)

-- Once the cleanup is done, and nothing else is wanted, the rest of the slice changes that no more.
pub slice_loop-IsDone :
    (opts : Options) (ios : List TurnIo) (d : Daemon) (st : EventLoopState) (budget : ℕ)
    → IsDone st
    → let s = slice_loop opts ios d st budget in IsDone s.state × (s.outcome ≡ ok tt)
slice_loop-IsDone opts [] d st budget h = unfold slice_loop in (h, refl)
slice_loop-IsDone opts (io ∷ ios) d st budget h = elim (Bool-cases (budget == 0)) [
  | inl spent ↦ unfold slice_loop in rw spent (h, refl)
  | inr left ↦
      let (ends, over) = idle_turn-IsDone opts io d st budget h in
      rw (slice_loop_stop opts io ios d st budget left ends) (over, refl)
]

run_cleanup :
    (opts : Options) (io : TurnIo) (d : Daemon) (st : EventLoopState) (budget : ℕ)
    (job : CleanupTrackedJob)
    → run_job opts io (cleanup_tracked job) d st budget
      ≡ cleanup_tracked_turn opts io d st budget job
unfolding run_job
run_cleanup opts io d st budget job = refl

turn_result :
    (opts : Options) (io : TurnIo) (d : Daemon) (st : EventLoopState) (budget : ℕ)
    (job : CleanupTrackedJob) (r : ApplyResult)
    → job.waiting_batch_id ≡ some job.batch_id
    → completed_for st.completed_batch job.batch_id ≡ some r
    → cleanup_tracked_turn opts io d st budget job
      ≡ cleanup_tracked_chunk opts io d
          (record st { completed_batch = none })
          (spend budget r)
          (record job { summary = add_result job.summary r; waiting_batch_id = none })
unfolding cleanup_tracked_turn
turn_result opts io d st budget job r w e = ground arith

pub turn_ended :
    (opts : Options) (io : TurnIo) (d : Daemon) (st : EventLoopState) (tracked : List IpKey)
    (job : CleanupTrackedJob) (r : ApplyResult)
    → HasEnded d st tracked job r
    → turn opts io d st 256
      ≡ cleanup_tracked_chunk opts io d
          (record st { maintenance = idle; completed_batch = none })
          (spend 256 r)
          (record job { summary = add_result job.summary r; waiting_batch_id = none })
unfolding turn
turn_ended opts io d st tracked job r h =
    let taken : EventLoopState = record st { maintenance = idle } in
    ap (λ (j : MaintenanceJob). run_job opts io j d taken 256) h.working
    ∙ run_cleanup opts io d taken 256 job
    ∙ turn_result opts io d taken 256 job r h.waits h.ended
