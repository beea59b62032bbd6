-- ===== src/Daemon/Maintenance/Retry.antt =====
-- How often the startup cleanup is tried again, src/daemon/service/resync_cleanup.rs.
use addrsyncd.Base.{ℕ, zero, suc, min, ◌≡◌, refl, true, leb, arith}
use addrsyncd.Daemon.{Daemon, EventLoopState}
use addrsyncd.Daemon.Maintenance.{schedule_startup_cleanup_retry, retry_limit}

-- After so many failures in a row, the first at the time `now`.
unfoldable pub failures : ℕ → ℕ → Daemon → EventLoopState → Daemon × EventLoopState
unfolding schedule_startup_cleanup_retry
failures zero now d st = (d, st)
failures (suc n) now d st =
    let (d', st') = failures n now d st in schedule_startup_cleanup_retry d' st' now

failures-count :
    (n now : ℕ) (d : Daemon) (st : EventLoopState)
    → st.startup_cleanup_retry_count ≡ 0
    → (failures n now d st).1.startup_cleanup_retry_count ≡ min n 255
unfolding failures schedule_startup_cleanup_retry
failures-count zero now d st h = omega (arith, h)
failures-count (suc n) now d st h = omega (arith, failures-count n now d st h)

-- From a count of no failures: the startup cleanup is tried again after each of the first three
-- failures in a row and after no later one, and each failure asks for a resync.
pub failures-pending :
    (n now : ℕ) (d : Daemon) (st : EventLoopState)
    → st.startup_cleanup_retry_count ≡ 0
    → let st' = (failures (suc n) now d st).1 in
      (st'.startup_cleanup_pending ≡ leb (suc n) retry_limit) × (st'.resync_requested ≡ true)
unfolding failures schedule_startup_cleanup_retry
failures-pending n now d st h = (ground (arith, failures-count n now d st h), refl)
