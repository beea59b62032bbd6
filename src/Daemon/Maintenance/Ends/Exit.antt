-- ===== src/Daemon/Maintenance/Ends/Exit.antt =====
-- From the cleanup at the end to the exit of the loop, src/daemon/service/resync_cleanup.rs and
-- src/daemon/service/event_loop.rs.
use addrsyncd.Base.{
  ◌-◌, ◌≤◌, ◌<◌, ◌≡◌, refl, ◌∙◌, ap, true, false, List, [], ◌∷◌, ◌++◌, arith, leb, none, ok, length,
  All, leb→le, Bool-cases, inl, inr,
}
use addrsyncd.IpKey.{IpKey}
use addrsyncd.Daemon.{
  Options, Daemon, EventLoopState, ApplyResult, InflightBatch, idle, CleanupTrackedJob,
}
use addrsyncd.Daemon.Maintenance.{TurnIo, Turn, spend, add_result}
use addrsyncd.Daemon.Maintenance.Shutdown.{cleanup_tracked_chunk}
use addrsyncd.Daemon.Loop.{should_exit, ReactorIo}
use addrsyncd.Daemon.Maintenance.Slice.{turn, Slice, drive_maintenance_slice}
use addrsyncd.Daemon.Maintenance.Ends.{
  BatchEnd, end_batch, round, rounds, IsWorking, IsAsked, IsDone, end_batch-HasEnded,
  round-AreAlike, slice_stop, slice_continue, slice_loop-IsDone, turn_ended,
}
use addrsyncd.Daemon.Maintenance.Ends.Chunks.{chunk_ends, chunk_works}

-- What is left after the turn of a wake-up that the result of the batch leads to.
abbrev next_turn :
    Options → TurnIo → Daemon → EventLoopState → CleanupTrackedJob → ApplyResult → Turn
next_turn opts io d st job r =
    cleanup_tracked_chunk opts io d (record st { maintenance = idle; completed_batch = none })
      (spend 256 r) (record job { summary = add_result job.summary r; waiting_batch_id = none })

same_IsAsked :
    (st : EventLoopState)
    → IsAsked st
    → IsAsked (record st { maintenance = idle; completed_batch = none })
same_IsAsked st a = record {
  asked = a.asked;
  quiet = a.quiet;
  no_resync = a.no_resync;
  no_startup = a.no_startup;
}

round-IsDone :
    (opts : Options) (e : BatchEnd) (rio : ReactorIo) (io : TurnIo) (ios : List TurnIo) (d : Daemon)
    (st : EventLoopState) (tracked : List IpKey) (job : CleanupTrackedJob) (b : InflightBatch)
    → IsWorking d st tracked job b
    → rio.turns ≡ io ∷ ios
    → length tracked ≤ job.offset
    → let s = round opts e rio d st in (s.outcome ≡ ok tt) × IsDone s.state
round-IsDone opts e rio io ios d st tracked job b w turns h =
    let (r, ended) = end_batch-HasEnded e rio d st tracked job b w in
    let (d1, st1) = end_batch e rio d st in
    let woken = round-AreAlike opts e rio d st tracked job b r w ended in
    let whole : turn opts io d1 st1 256 ≡ next_turn opts io d1 st1 job r =
      turn_ended opts io d1 st1 tracked job r ended in
    let (goes_on, over) =
      chunk_ends opts io d1 (record st1 { maintenance = idle; completed_batch = none })
        (spend 256 r) (record job { summary = add_result job.summary r; waiting_batch_id = none })
        (rw ended.keys h) ended.landed (same_IsAsked st1 ended.wishes) in
    let t : Turn = turn opts io d1 st1 256 in
    let began = slice_continue opts io ios d1 st1 (ap (λ (x : Turn). x.flow) whole ∙ goes_on) in
    let (rests, fine) = slice_loop-IsDone opts ios t.daemon t.state t.budget_ops (rw whole over) in
    (
      woken.outcomes
          ∙ ap (λ (x : List TurnIo). (drive_maintenance_slice opts x d1 st1).outcome) turns
          ∙ began.outcomes
          ∙ fine,
      rw
          (woken.states
            ∙ ap (λ (x : List TurnIo). (drive_maintenance_slice opts x d1 st1).state) turns
            ∙ began.states)
          rests,
    )

round-IsWorking :
    (opts : Options) (e : BatchEnd) (rio : ReactorIo) (io : TurnIo) (ios : List TurnIo) (d : Daemon)
    (st : EventLoopState) (tracked : List IpKey) (job : CleanupTrackedJob) (b : InflightBatch)
    → IsWorking d st tracked job b
    → rio.turns ≡ io ∷ ios
    → io.sending.send ≡ ok tt
    → job.offset < length tracked
    → let s = round opts e rio d st in
      (s.outcome ≡ ok tt)
      × ((job' : CleanupTrackedJob) × (b' : InflightBatch) × (job.offset < job'.offset)
          × IsWorking s.daemon s.state tracked job' b')
round-IsWorking opts e rio io ios d st tracked job b w turns sends h =
    let (r, ended) = end_batch-HasEnded e rio d st tracked job b w in
    let (d1, st1) = end_batch e rio d st in
    let woken = round-AreAlike opts e rio d st tracked job b r w ended in
    let whole : turn opts io d1 st1 256 ≡ next_turn opts io d1 st1 job r =
      turn_ended opts io d1 st1 tracked job r ended in
    let (job', b', further, stops, w') =
      chunk_works opts io d1 (record st1 { maintenance = idle; completed_batch = none })
        (spend 256 r) tracked
        (record job { summary = add_result job.summary r; waiting_batch_id = none }) ended.keys h
        ended.landed ended.unfinished (same_IsAsked st1 ended.wishes) sends in
    let began = slice_stop opts io ios d1 st1 (ap (λ (x : Turn). x.flow) whole ∙ stops) in
    let same_daemon =
      woken.daemons
      ∙ ap (λ (x : List TurnIo). (drive_maintenance_slice opts x d1 st1).daemon) turns
      ∙ began.daemons
      ∙ ap (λ (x : Turn). x.daemon) whole in
    let same_state =
      woken.states
      ∙ ap (λ (x : List TurnIo). (drive_maintenance_slice opts x d1 st1).state) turns
      ∙ began.states
      ∙ ap (λ (x : Turn). x.state) whole in
    (
      woken.outcomes
          ∙ ap (λ (x : List TurnIo). (drive_maintenance_slice opts x d1 st1).outcome) turns
          ∙ began.outcomes,
      (job', b', further, rw (same_daemon, same_state) w'),
    )

done_exits : (st : EventLoopState) → IsDone st → should_exit st ≡ true
unfolding should_exit
done_exits st h = rw (h.wishes.asked, h.wishes.quiet, h.landed, h.rests, h.cleaned) refl

working_goes_on :
    (d : Daemon) (st : EventLoopState) (tracked : List IpKey) (job : CleanupTrackedJob)
    (b : InflightBatch)
    → IsWorking d st tracked job b
    → should_exit st ≡ false
unfolding should_exit
working_goes_on d st tracked job b w = ground (arith, w.flies)

-- How the loop ends.
pub record HasExited (s : Slice) : Type 0 where
  pub without_error : s.outcome ≡ ok tt
  pub may_exit : should_exit s.state ≡ true

rounds_exit :
    (opts : Options) (e : BatchEnd) (rio : ReactorIo) (ends : List (BatchEnd × ReactorIo))
    (d : Daemon) (st : EventLoopState)
    → let s = round opts e rio d st in
      s.outcome ≡ ok tt
      → should_exit s.state ≡ true
      → HasExited (rounds opts ((e, rio) ∷ ends) d st)
unfolding rounds
rounds_exit opts e rio ends d st o x = record {
  without_error = rw (rounds, o, x) o;
  may_exit = rw (rounds, o, x) x;
}

rounds_go_on :
    (opts : Options) (e : BatchEnd) (rio : ReactorIo) (ends : List (BatchEnd × ReactorIo))
    (d : Daemon) (st : EventLoopState)
    → let s = round opts e rio d st in
      s.outcome ≡ ok tt
      → should_exit s.state ≡ false
      → let rest = rounds opts ends s.daemon s.state in
        rounds opts ((e, rio) ∷ ends) d st ≡ record rest { sent = s.sent ++ rest.sent }
unfolding rounds
rounds_go_on opts e rio ends d st o x = rw (rounds, o, x) refl

-- The time of a slice lasts for a turn at least, and the socket takes the batch that it may send.
abbrev pub IsServed : BatchEnd × ReactorIo → Type 0
IsServed (e, rio) =
    (io : TurnIo) × (ios : List TurnIo) × (rio.turns ≡ io ∷ ios) × (io.sending.send ≡ ok tt)

-- A daemon that was asked to stop does exit: when the cleanup of the owned addresses is under way, no
-- operation is pending and neither a resync nor the cleanup after a start is wanted, its event loop
-- exits without an error after one more batch than there are addresses left at most, whether the batches
-- are acknowledged or given up, if each slice of maintenance has time for a turn and the socket takes the
-- batches, and nothing else wakes the daemon.
pub rounds-HasExited :
    (opts : Options) (ends : List (BatchEnd × ReactorIo)) (d : Daemon) (st : EventLoopState)
    (tracked : List IpKey) (job : CleanupTrackedJob) (b : InflightBatch)
    → IsWorking d st tracked job b
    → All IsServed ends
    → length tracked - job.offset < length ends
    → HasExited (rounds opts ends d st)
rounds-HasExited opts [] d st tracked job b w served h = absurd (omega arith)
rounds-HasExited opts ((e, rio) ∷ ends) d st tracked job b w served h =
    let (io, ios, turns, sends) = served.0 in
    let s : Slice = round opts e rio d st in
    elim (Bool-cases (leb (length tracked) job.offset)) [
      | inl past ↦
          let (fine, over) =
            round-IsDone opts e rio io ios d st tracked job b w turns
              (leb→le (length tracked) job.offset past) in
          let exits = done_exits s.state over in rounds_exit opts e rio ends d st fine exits
      | inr within ↦
          let (fine, (job', b', further, w')) =
            round-IsWorking opts e rio io ios d st tracked job b w turns sends
              (ground (arith, within)) in
          let rest =
            rounds-HasExited opts ends s.daemon s.state tracked job' b' w' served.1
              (ground (arith, further)) in
          rw
            (rounds_go_on opts e rio ends d st fine
              (working_goes_on s.daemon s.state tracked job' b' w'))
            record { without_error = rest.without_error; may_exit = rest.may_exit }
    ]
