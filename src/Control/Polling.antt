-- ===== src/Control/Polling.antt =====
-- `stop_background` of src/control.rs: the signal, and the wait until the process is gone. Times are
-- in milliseconds.
use addrsyncd.Base.{
  ℕ, zero, suc, ap, ◌+◌, ◌-◌, ◌*◌, ◌≤◌, ◌≡◌, refl, min, Bool, true, false, not, ◌&&◌, List, [], ◌∷◌,
  arith, ltb, ◌==◌, if◌then◌else◌, Option, none, some, Result, ok, err, length, Bool-cases, inl,
  inr,
}
use addrsyncd.Control.Find.{DaemonProcess}

abbrev pub stop_wait_timeout : ℕ
stop_wait_timeout = 5000

abbrev pub stop_poll_initial : ℕ
stop_poll_initial = 20

abbrev pub stop_poll_max : ℕ
stop_poll_max = 250

-- What a round of the wait sees: the time, and the start of the process that has the number now.
pub record Poll : Type 0 where
  pub now : ℕ
  pub ticks : Option ℕ

unfoldable pub is_same_process_alive : Option ℕ → Option ℕ → Bool
is_same_process_alive none expected = false
is_same_process_alive (some current) none = true
is_same_process_alive (some current) (some expected) = current == expected

-- How the wait ends, and how long it slept in each round.
pub record Waited : Type 0 where
  pub stopped : Bool
  pub sleeps : List ℕ

-- Past the end of the list the deadline has passed.
unfoldable pub wait_stopped : ℕ → Option ℕ → ℕ → List Poll → Waited
unfolding is_same_process_alive
wait_stopped deadline expected interval [] = record { stopped = false; sleeps = [] }
wait_stopped deadline expected interval (p ∷ polls) =
    let later = wait_stopped deadline expected (min (interval * 2) stop_poll_max) polls in
    if not (ltb p.now deadline)
    then record { stopped = false; sleeps = [] }
    else if not (is_same_process_alive p.ticks expected)
    then record { stopped = true; sleeps = [] }
    else record later { sleeps = interval ∷ later.sleeps }

pub data StopOutcome : Type 0 where
  not_running : StopOutcome
  stopped : ℕ → StopOutcome
  signal_failed : Option ℕ → StopOutcome
  stop_timeout : StopOutcome

-- `found` is the daemon of the directory, `signalled` what `kill` answers (`ESRCH` is 3), `start` the
-- time at which the wait begins.
unfoldable pub stop_background :
    Option DaemonProcess → Result (Option ℕ) (Unit {0}) → ℕ → List Poll → StopOutcome
unfolding wait_stopped
stop_background none signalled start polls = not_running
stop_background (some proc) (err none) start polls = signal_failed none
stop_background (some proc) (err (some code)) start polls =
    if code == 3 then stopped proc.pid else signal_failed (some code)
stop_background (some proc) (ok _) start polls =
    let waited =
      wait_stopped (start + stop_wait_timeout) proc.start_ticks stop_poll_initial polls in
    if waited.stopped then stopped proc.pid else stop_timeout

-- The clock never goes back, and a sleep takes its time: from the time `after` on.
unfoldable pub clock_runs : ℕ → ℕ → List Poll → Bool
clock_runs after interval [] = true
clock_runs after interval (p ∷ polls) =
    not (ltb p.now after) && clock_runs (p.now + interval) (min (interval * 2) stop_poll_max) polls

wait_stopped_sleeps :
    (deadline : ℕ) (expected : Option ℕ) (interval after : ℕ) (polls : List Poll)
    → stop_poll_initial ≤ interval
    → clock_runs after interval polls ≡ true
    → 20 * length (wait_stopped deadline expected interval polls).sleeps ≤ (deadline + 19) - after
unfolding wait_stopped clock_runs
wait_stopped_sleeps deadline expected interval after [] h c = omega arith
wait_stopped_sleeps deadline expected interval after (p ∷ polls) h c =
    let next : ℕ = min (interval * 2) stop_poll_max in
    let slow : stop_poll_initial ≤ next = omega arith in
    let later =
      wait_stopped_sleeps deadline expected next (p.now + interval) polls slow (ground arith) in
    ground arith

-- Intervals that double, up to 250 ms.
abbrev pub doubling : ℕ → ℕ → List ℕ
doubling interval zero = []
doubling interval (suc n) = interval ∷ doubling (min (interval * 2) stop_poll_max) n

wait_stopped-doubling :
    (deadline : ℕ) (expected : Option ℕ) (interval : ℕ) (polls : List Poll)
    → let sleeps = (wait_stopped deadline expected interval polls).sleeps in
      sleeps ≡ doubling interval (length sleeps)
unfolding wait_stopped
wait_stopped-doubling deadline expected interval [] = refl
wait_stopped-doubling deadline expected interval (p ∷ polls) =
    let later = wait_stopped-doubling deadline expected (min (interval * 2) stop_poll_max) polls in
    elim (Bool-cases (ltb p.now deadline)) [
      | inr late ↦ rw late refl
      | inl early ↦ elim (Bool-cases (is_same_process_alive p.ticks expected)) [
        | inr gone ↦ rw (early, gone) refl
        | inl alive ↦ rw (early, alive) (ap (◌∷◌ interval) later)
      ]
    ]

-- However long the process lives, the wait for it ends: if the clock runs and a sleep takes its time,
-- it sleeps 250 times at most, for 20 ms first and twice as long each time, up to 250 ms.
pub wait_stopped-doubling_bounded :
    (start : ℕ) (expected : Option ℕ) (polls : List Poll)
    → clock_runs start stop_poll_initial polls ≡ true
    → let sleeps =
        (wait_stopped (start + stop_wait_timeout) expected stop_poll_initial polls).sleeps in
      (length sleeps ≤ 250) × (sleeps ≡ doubling stop_poll_initial (length sleeps))
wait_stopped-doubling_bounded start expected polls c = (
  omega (
    arith,
    wait_stopped_sleeps (start + stop_wait_timeout) expected stop_poll_initial start polls
        (omega arith) c,
  ),
  wait_stopped-doubling (start + stop_wait_timeout) expected stop_poll_initial polls,
)
