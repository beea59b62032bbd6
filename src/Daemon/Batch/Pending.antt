-- ===== src/Daemon/Batch/Pending.antt =====
-- The pending operations and the batches made of them (src/daemon/service/batch_apply.rs).
use addrsyncd.Base.{
  ℕ, ◌+◌, ◌-◌, min, Bool, not, List, [], ◌∷◌, if◌then◌else◌, none, some, length, take, drop,
}
use addrsyncd.IpKey.{IpKey, key_eq, from_ip, into_ip}
use addrsyncd.KeySet.{contains}
use addrsyncd.Rule.{RuleOp, RuleAction, add, delete}
use addrsyncd.Daemon.{Options, Daemon, EventLoopState, for_pending}
use addrsyncd.Daemon.Batch.Start.{next_batch_id, Outcome, Sending, launch, nothing_started}

-- `pending.insert`: the order of the list is that in which the map is iterated.
unfoldable pub insert_pending :
    IpKey → RuleAction → List (IpKey × RuleAction) → List (IpKey × RuleAction)
insert_pending k a [] = (k, a) ∷ []
insert_pending k a ((k', a') ∷ rest) =
    let later = (k', a') ∷ insert_pending k a rest in if key_eq k' k then (k', a) ∷ rest else later

unfoldable pub ops_of_pending : List (IpKey × RuleAction) → List RuleOp
unfolding into_ip
ops_of_pending [] = []
ops_of_pending ((key, action) ∷ rest) =
    record { addr = into_ip key; action = action } ∷ ops_of_pending rest

unfoldable pub should_skip : List IpKey → RuleOp → Bool
unfolding contains from_ip
should_skip owned op = elim op.action [
  | add ↦ contains (from_ip op.addr) owned
  | delete ↦ not (contains (from_ip op.addr) owned)
]

-- The operations that would change what is owned.
unfoldable pub prefilter : List IpKey → List RuleOp → List RuleOp
unfolding should_skip
prefilter owned [] = []
prefilter owned (op ∷ ops) =
    let rest = prefilter owned ops in if should_skip owned op then rest else op ∷ rest

-- The deadlines after some of the pending operations were taken.
unfoldable pub rearm : Options → ℕ → List (IpKey × RuleAction) → EventLoopState → EventLoopState
rearm opts now [] st = record st { pending = []; quiet_deadline = none; max_deadline = none }
rearm opts now (p ∷ rest) st = record st {
  pending = p ∷ rest;
  quiet_deadline = some (now + opts.debounce);
  max_deadline = some (now + opts.debounce_max);
}

-- The operations taken from the pending ones are prefiltered and sent.
unfoldable pub start_ops : Options → Daemon → EventLoopState → Sending → ℕ → List RuleOp → Outcome
unfolding launch nothing_started
start_ops opts d st io input_count [] = nothing_started d st
start_ops opts d st io input_count (op ∷ ops) =
    let id = next_batch_id st.batch_id in
    launch opts d (record st { batch_id = id }) io for_pending id input_count
      (input_count - length (op ∷ ops)) (op ∷ ops)

-- `now` is the time read for the new deadlines. A count of skipped operations is that of the
-- operations that the prefilter drops.
unfoldable pub start_pending_batch : Options → Daemon → EventLoopState → ℕ → Sending → Outcome
unfolding start_ops rearm nothing_started prefilter ops_of_pending
start_pending_batch opts d st now io = elim st.inflight [
  | some _ ↦ nothing_started d st
  | none ↦ elim st.pending [
    | [] ↦ nothing_started d st
    | p ∷ ps ↦
        let take_n = min opts.batch_max (length (p ∷ ps)) in
        let ops = ops_of_pending (take take_n (p ∷ ps)) in
        let st' = rearm opts now (drop take_n (p ∷ ps)) st in
        start_ops opts d st' io (length ops) (prefilter d.owned_ips ops)
  ]
]
