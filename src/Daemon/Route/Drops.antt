-- ===== src/Daemon/Route/Drops.antt =====
-- What `handle_route_events` (src/daemon/service/event_loop.rs) keeps: the size of the ring, and the
-- parts of the state that it has nothing to do with.
use addrsyncd.Base.{
  ℕ, ◌+◌, ◌-◌, ◌≤◌, ◌≡◌, refl, ◌∙◌, Bool, true, false, ◌||◌, List, [], ◌∷◌, Option, none, some,
  Result, ok, err, arith, length,
}
use addrsyncd.Error.{AppError, NetlinkError}
use addrsyncd.Codec.Message.{Item, items}
use addrsyncd.Addr.Event.{AddrEvent, parse_addr_event}
use addrsyncd.Rule.Apply.{Recv, packets, recv_failed}
use addrsyncd.Daemon.{Options, EventLoopState}
use addrsyncd.Daemon.Budget.{update}
use addrsyncd.Daemon.Route.{
  Round, note_event, note_item, note_items, note_packets, grow_ring, recv_loop, arm_deadlines,
  calm_ring, note_dropped, finish_round, handle_route_events,
}

abbrev pub SlotsOk : ℕ → Type 0
SlotsOk slots = (8 ≤ slots) × (slots ≤ 32)

module _ (opts : Options) where
  note_event-slots :
      (r : Round) (e : Result NetlinkError (Option AddrEvent))
      → (note_event opts r e).slots ≡ r.slots
  unfolding note_event
  note_event-slots r (err _) = refl
  note_event-slots r (ok none) = refl
  note_event-slots r (ok (some event)) = refl

  note_item-slots : (r : Round) (x : Item) → (note_item opts r x).slots ≡ r.slots
  unfolding note_item
  note_item-slots r (err _) = refl
  note_item-slots r (ok msg) =
      ground (arith, note_event-slots r (parse_addr_event msg opts.ipv6 opts.filters))

  note_items-slots : (r : Round) (xs : List Item) → (note_items opts r xs).slots ≡ r.slots
  unfolding note_items
  note_items-slots r [] = refl
  note_items-slots r (x ∷ xs) = note_items-slots (note_item opts r x) xs ∙ note_item-slots r x

  note_packets-slots :
      (r : Round) (raws : List (List ℕ)) → (note_packets opts r raws).slots ≡ r.slots
  unfolding note_packets
  note_packets-slots r [] = refl
  note_packets-slots r (raw ∷ rest) =
      let counted = record r {
        packets_left = r.packets_left - 1;
        processed_packets = r.processed_packets + 1;
      } in
      let noted = note_items opts counted (items raw) in
      ground (arith, note_packets-slots noted rest, note_items-slots counted (items raw))

  grow_ring-slots :
      (r : Round) (count : ℕ) → SlotsOk r.slots → SlotsOk (grow_ring opts r count).slots
  unfolding grow_ring
  grow_ring-slots r count h = ground arith

  recv_loop-slots :
      (r : Round) (received : List Recv)
      → SlotsOk r.slots
      → SlotsOk (recv_loop opts r received).0.slots
  unfolding recv_loop
  recv_loop-slots r [] h = h
  recv_loop-slots r (recv_failed code ∷ rest) h = ground (arith, h)
  recv_loop-slots r (packets [] ∷ rest) h = h
  recv_loop-slots r (packets (raw ∷ raws) ∷ rest) h =
      let grown = grow_ring opts r (length (raw ∷ raws)) in
      let noted = note_packets opts grown (raw ∷ raws) in
      ground (
        arith,
        h,
        grow_ring-slots r (length (raw ∷ raws)) h,
        note_packets-slots grown (raw ∷ raws),
        recv_loop-slots noted rest,
      )

calm_ring-slots :
    (processed slots : ℕ) (st : EventLoopState)
    → SlotsOk slots
    → SlotsOk (calm_ring processed slots st).1
unfolding calm_ring
calm_ring-slots processed slots st h = ground arith

-- The parts of the state that the reactor waits on.
abbrev pub SameWaits : EventLoopState → EventLoopState → Type 0
SameWaits a b =
    (a.maintenance ≡ b.maintenance)
    × (a.completed_batch ≡ b.completed_batch)
    × (a.inflight ≡ b.inflight)

arm_deadlines-SameWaits :
    (opts : Options) (touched : Bool) (now : ℕ) (st : EventLoopState)
    → SameWaits (arm_deadlines opts touched now st) st
unfolding arm_deadlines
arm_deadlines-SameWaits opts false now st = (refl, refl, refl)
arm_deadlines-SameWaits opts true now st = (refl, refl, refl)

calm_ring-SameWaits :
    (processed slots : ℕ) (st : EventLoopState) → SameWaits (calm_ring processed slots st).0 st
unfolding calm_ring
calm_ring-SameWaits processed slots st = ground arith

note_dropped-SameWaits : (failed : ℕ) (st : EventLoopState) → SameWaits (note_dropped failed st) st
unfolding note_dropped
note_dropped-SameWaits failed st = ground arith

finish_round-kept :
    (opts : Options) (st : EventLoopState) (now : ℕ) (read : Round × Result AppError (Unit {0}))
    → SlotsOk read.0.slots
    → let out = finish_round opts st now read in SameWaits out.0 st × SlotsOk out.1
unfolding finish_round
finish_round-kept opts st now (r, err e) h = ((refl, refl, refl), h)
finish_round-kept opts st now (r, ok _) h =
    let budgeted = record st {
      pending = r.pending;
      route_budget = update st.route_budget r.processed_packets (r.budget_hit || r.saw_ring_full);
    } in
    let armed = arm_deadlines opts r.touched_pending now budgeted in
    let calmed = calm_ring r.processed_packets r.slots armed in
    let a = note_dropped-SameWaits r.parse_failed calmed.0 in
    let b = calm_ring-SameWaits r.processed_packets r.slots armed in
    let c = arm_deadlines-SameWaits opts r.touched_pending now budgeted in
    (
      (a.0 ∙ b.0 ∙ c.0, a.1 ∙ b.1 ∙ c.1, a.2 ∙ b.2 ∙ c.2),
      calm_ring-slots r.processed_packets r.slots armed h,
    )

-- Reading address events keeps the ring between 8 and 32 slots, and touches neither the maintenance
-- nor the batches.
pub handle_route_events-kept :
    (opts : Options) (st : EventLoopState) (slots : ℕ) (received : List Recv) (now : ℕ)
    → SlotsOk slots
    → let out = handle_route_events opts st slots received now in SameWaits out.0 st × SlotsOk out.1
unfolding handle_route_events
handle_route_events-kept opts st slots received now h =
    let start : Round = record {
      packets_left = st.route_budget.current;
      processed_packets = 0;
      budget_hit = false;
      saw_ring_full = false;
      parse_failed = 0;
      touched_pending = false;
      slots = slots;
      pending = st.pending;
    } in
    finish_round-kept opts st now (recv_loop opts start received)
      (recv_loop-slots opts start received h)
