-- ===== src/Daemon/Batch/Deadline.antt =====
-- When the pending operations are sent and when the loop wakes up (src/daemon/service/batch_apply.rs).
use addrsyncd.Base.{
  ℕ, ◌+◌, Bool, true, false, not, ◌&&◌, ◌||◌, [], ◌∷◌, leb, ltb, if◌then◌else◌, Option, none, some,
}
use addrsyncd.Daemon.{EventLoopState, InflightBatch, is_idle}

passed : Option ℕ → ℕ → Bool
passed none now = false
passed (some deadline) now = leb deadline now

unfoldable pub should_flush_pending : EventLoopState → ℕ → Bool → Bool
unfolding passed
should_flush_pending st now force = elim st.pending [
  | [] ↦ false
  | _ ∷ _ ↦ force || (passed st.quiet_deadline now || passed st.max_deadline now)
]

unfoldable pub min_deadline : Option ℕ → ℕ → Option ℕ
min_deadline none value = some value
min_deadline (some current) value = some (if ltb value current then value else current)

abbrev min_deadline? : Option ℕ → Option ℕ → Option ℕ
min_deadline? deadline none = deadline
min_deadline? deadline (some value) = min_deadline deadline value

abbrev when : Bool → ℕ → Option ℕ
when b value = if b then some value else none

abbrev is_none {ℓ} : {A : Type ℓ} → Option A → Bool
is_none none = true
is_none (some _) = false

abbrev ack_deadline? : Option InflightBatch → Option ℕ
ack_deadline? none = none
ack_deadline? (some b) = some b.ack_deadline

abbrev unwrap_or : Option ℕ → ℕ → ℕ
unwrap_or none d = d
unwrap_or (some v) d = v

-- The time at which the event loop wakes up next.
unfoldable pub next_deadline : EventLoopState → ℕ → Option ℕ
unfolding min_deadline is_idle
next_deadline st now =
    let soon = now + 1000000 in
    let idle_now = is_none st.inflight in
    let a = min_deadline? none st.quiet_deadline in
    let b = min_deadline? a st.max_deadline in
    let c = min_deadline? b (ack_deadline? st.inflight) in
    let e = min_deadline? c (when (not (is_idle st.maintenance)) soon) in
    let f = min_deadline? e (when (st.resync_requested && idle_now) soon) in
    let g =
      min_deadline? f
        (when (st.shutdown_requested && (not st.shutdown_cleanup_done && idle_now)) soon) in
    min_deadline? g (
      when (st.startup_cleanup_pending && idle_now)
        (unwrap_or st.startup_cleanup_retry_deadline soon))
