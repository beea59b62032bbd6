-- ===== src/Rule/Tracker.antt =====
-- The acknowledgement tracker of src/netlink/rule.rs: one place for each operation of a batch.
pub mod Counts
use addrsyncd.Base.{
  ℕ, zero, suc, ◌+◌, ◌-◌, ◌^◌, ◌≤◌, min, Bool, true, false, ◌&&◌, ◌||◌, List, [], ◌∷◌, leb, ltb,
  ◌==◌, if◌then◌else◌, Option, none, some, length, get_or, set, replicate,
}
use addrsyncd.Error.{
  AckWaitErrorKind, timeout, seq_mismatch, non_ack, NetlinkError, ack_wait_failed,
}
use addrsyncd.Rule.{NetlinkAckStatus}

pub record AckTracker : Type 0 where
  pub seen : List Bool
  pub status : List (Option NetlinkAckStatus)
  pub pending : ℕ
  pub count_seq_mismatch : ℕ
  pub count_non_ack : ℕ

-- `usize::saturating_add`, on 64 bits.
abbrev pub saturating_add : ℕ → ℕ → ℕ
saturating_add a b = min (a + b) (2 ^ 64 - 1)

unfoldable pub prepare : ℕ → AckTracker
prepare batch_len = record {
  seen = replicate batch_len false;
  status = replicate batch_len none;
  pending = batch_len;
  count_seq_mismatch = 0;
  count_non_ack = 0;
}

-- `AckTracker::default`, and what `std::mem::take` leaves behind.
unfoldable pub default_tracker : AckTracker
unfolding prepare
default_tracker = prepare 0

unfoldable pub seen_at : AckTracker → ℕ → Bool
seen_at t idx = get_or t.seen idx false

unfoldable pub status_at : AckTracker → ℕ → Option NetlinkAckStatus
status_at t idx = get_or t.status idx none

unfoldable pub mark_non_ack : AckTracker → AckTracker
mark_non_ack t = record t { count_non_ack = saturating_add t.count_non_ack 1 }

unfoldable pub mark_seq_mismatch : AckTracker → AckTracker
mark_seq_mismatch t = record t { count_seq_mismatch = saturating_add t.count_seq_mismatch 1 }

unfoldable pub mark_status : AckTracker → ℕ → Option NetlinkAckStatus → AckTracker
mark_status t idx status =
    if leb (length t.seen) idx || get_or t.seen idx false then t else record t {
      seen = set t.seen idx true;
      status = set t.status idx status;
      pending = t.pending - 1;
    }

unfoldable pub classify_wait_error : AckTracker → NetlinkError
classify_wait_error t =
    let kind =
      if ltb 0 t.count_seq_mismatch && (t.count_non_ack == 0)
      then seq_mismatch
      else if ltb 0 t.count_non_ack && (t.count_seq_mismatch == 0)
      then non_ack
      else timeout in
    ack_wait_failed kind t.pending t.count_seq_mismatch t.count_non_ack
