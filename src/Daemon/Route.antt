-- ===== src/Daemon/Route.antt =====
-- `handle_route_events` of src/daemon/service/event_loop.rs: reading address events within the budget.
-- Of the ring (`MmsgRxRing` of src/netlink/socket.rs) the number of slots matters here.
pub mod Drops
use addrsyncd.Base.{
  ℕ, zero, suc, ◌+◌, ◌-◌, ◌*◌, ◌/◌, ◌^◌, min, max, Bool, true, false, not, ◌&&◌, ◌||◌, List, [],
  ◌∷◌, ltb, leb, ◌==◌, if◌then◌else◌, Option, none, some, Result, ok, err, length,
}
use addrsyncd.Error.{AppError, NetlinkError, from_required_syscall_io, io}
use addrsyncd.IpKey.{IpKey, from_ip}
use addrsyncd.LinuxTypes.{NlmsgHdr, rtm_newaddr, rtm_deladdr}
use addrsyncd.Codec.Message.{NetlinkMessageView, Item, items}
use addrsyncd.Addr.Event.{AddrEvent, parse_addr_event}
use addrsyncd.Rule.{RuleOp, RuleAction}
use addrsyncd.Rule.Apply.{Recv, packets, recv_failed, is_transient_recv_err}
use addrsyncd.Daemon.{Options, EventLoopState}
use addrsyncd.Daemon.Budget.{update, saturating_incr_u8}
use addrsyncd.Daemon.Batch.{insert_pending}

abbrev pub ring_max_slots : ℕ
ring_max_slots = 32

abbrev pub ring_min_slots : ℕ
ring_min_slots = 8

-- `u64::saturating_add`
abbrev pub saturating_add_u64 : ℕ → ℕ → ℕ
saturating_add_u64 a b = min (a + b) (2 ^ 64 - 1)

-- The local variables of `handle_route_events`, the slots of the ring, and the pending operations.
pub record Round : Type 0 where
  pub packets_left : ℕ
  pub processed_packets : ℕ
  pub budget_hit : Bool
  pub saw_ring_full : Bool
  pub parse_failed : ℕ
  pub touched_pending : Bool
  pub slots : ℕ
  pub pending : List (IpKey × RuleAction)

module _ (opts : Options) where
  -- What an address message is read as.
  unfoldable pub note_event : Round → Result NetlinkError (Option AddrEvent) → Round
  unfolding from_ip insert_pending
  note_event r (err _) = record r { parse_failed = saturating_add_u64 r.parse_failed 1 }
  note_event r (ok none) = r
  note_event r (ok (some event)) = record r {
    pending = insert_pending (from_ip event.op.addr) event.op.action r.pending;
    touched_pending = true;
  }

  -- One message of a packet.
  unfoldable pub note_item : Round → Item → Round
  unfolding parse_addr_event note_event
  note_item r (err _) = record r { parse_failed = saturating_add_u64 r.parse_failed 1 }
  note_item r (ok msg) =
      let read = note_event r (parse_addr_event msg opts.ipv6 opts.filters) in
      if (msg.header.nlmsg_type == rtm_newaddr) || (msg.header.nlmsg_type == rtm_deladdr)
      then read
      else r

  unfoldable pub note_items : Round → List Item → Round
  unfolding note_item
  note_items r [] = r
  note_items r (item ∷ rest) = note_items (note_item r item) rest

  -- The packets of one call of `recv_many`, as far as the budget goes.
  unfoldable pub note_packets : Round → List (List ℕ) → Round
  unfolding note_items items
  note_packets r [] = r
  note_packets r (raw ∷ rest) =
      let counted = record r {
        packets_left = r.packets_left - 1;
        processed_packets = r.processed_packets + 1;
      } in
      let later = note_packets (note_items counted (items raw)) rest in
      if r.packets_left == 0 then record r { budget_hit = true } else later

  -- A ring that was full gets twice the slots.
  unfoldable pub grow_ring : Round → ℕ → Round
  grow_ring r count =
      if count == r.slots
      then record r {
        saw_ring_full = true;
        slots = if ltb r.slots ring_max_slots then min (r.slots * 2) ring_max_slots else r.slots;
      }
      else r

  -- The list holds what the calls of `recv_many` give; past its end the socket has nothing more.
  unfoldable pub recv_loop : Round → List Recv → Round × Result AppError (Unit {0})
  unfolding grow_ring note_packets
  recv_loop r [] = (r, ok tt)
  recv_loop r (recv_failed code ∷ rest) =
      if r.packets_left == 0
      then (r, ok tt)
      else if is_transient_recv_err code
      then (r, ok tt)
      else (r, err (from_required_syscall_io code))
  recv_loop r (packets [] ∷ rest) = (r, ok tt)
  recv_loop r (packets (raw ∷ raws) ∷ rest) =
      let noted = note_packets (grow_ring r (length (raw ∷ raws))) (raw ∷ raws) in
      let later = recv_loop noted rest in if r.packets_left == 0 then (r, ok tt) else later

  -- After the reads: the deadlines of the pending operations.
  unfoldable pub arm_deadlines : Bool → ℕ → EventLoopState → EventLoopState
  arm_deadlines false now st = st
  arm_deadlines true now st = record st {
    quiet_deadline = some (now + opts.debounce);
    max_deadline = elim st.max_deadline [
      | none ↦ some (now + opts.debounce_max)
      | some deadline ↦ some deadline
    ];
  }

-- A ring that was nearly empty a dozen times in a row gets half the slots.
unfoldable pub calm_ring : ℕ → ℕ → EventLoopState → EventLoopState × ℕ
calm_ring processed slots st =
    let streak = saturating_incr_u8 st.route_ring_calm_streak in
    if leb processed (max (slots / 4) 1)
    then if leb 12 streak && ltb ring_min_slots slots
      then (record st { route_ring_calm_streak = 0 }, max (slots / 2) ring_min_slots)
      else (record st { route_ring_calm_streak = streak }, slots)
    else (record st { route_ring_calm_streak = 0 }, slots)

-- A message that could not be read is counted, and a resync is to make up for it.
unfoldable pub note_dropped : ℕ → EventLoopState → EventLoopState
note_dropped parse_failed st =
    if ltb 0 parse_failed
    then record st {
      dropped_count = saturating_add_u64 st.dropped_count parse_failed;
      resync_requested = true;
      resync_compensate_pending = true;
    }
    else st

-- What is done after the reads. An error of the socket leaves what was pending.
unfoldable pub finish_round :
    Options
    → EventLoopState
    → ℕ
    → Round × Result AppError (Unit {0})
    → EventLoopState × ℕ × Result AppError (Unit {0})
unfolding update arm_deadlines calm_ring note_dropped
finish_round opts st now (r, err e) = (record st { pending = r.pending }, r.slots, err e)
finish_round opts st now (r, ok _) =
    let budgeted = record st {
      pending = r.pending;
      route_budget = update st.route_budget r.processed_packets (r.budget_hit || r.saw_ring_full);
    } in
    let calmed =
      calm_ring r.processed_packets r.slots (arm_deadlines opts r.touched_pending now budgeted) in
    (note_dropped r.parse_failed calmed.0, calmed.1, ok tt)

-- The state, the slots of the ring, and the result.
unfoldable pub handle_route_events :
    Options → EventLoopState → ℕ → List Recv → ℕ → EventLoopState × ℕ × Result AppError (Unit {0})
unfolding recv_loop finish_round
handle_route_events opts st slots received now =
    let start : Round = record {
      packets_left = st.route_budget.current;
      processed_packets = 0;
      budget_hit = false;
      saw_ring_full = false;
      parse_failed = 0;
      touched_pending = false;
      slots = slots;
      pending = st.pending;
    } in
    finish_round opts st now (recv_loop opts start received)
