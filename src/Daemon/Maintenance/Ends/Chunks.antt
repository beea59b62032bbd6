-- ===== src/Daemon/Maintenance/Ends/Chunks.antt =====
-- A chunk of the cleanup at the end (src/daemon/service/resync_cleanup.rs): the job ends past the last
-- key, and else a batch with further keys is in flight.
use addrsyncd.Base.{
  ℕ, zero, suc, ◌+◌, ◌-◌, ◌≤◌, ◌<◌, ◌≡◌, refl, ◌∙◌, min, true, false, ◌||◌, List, [], ◌∷◌, arith,
  leb, ◌==◌, none, some, ok, length, Option-cases, map, take, drop, get_elem?, drop_get, ◌≢◌, inl,
  inr,
}
use addrsyncd.IpKey.{IpKey}
use addrsyncd.Rule.{RuleOp, delete}
use addrsyncd.Daemon.{
  Options, Daemon, EventLoopState, InflightBatch, for_maintenance, cleanup_tracked,
  CleanupTrackedJob,
}
use addrsyncd.Rule.Apply.{start_apply_rules_batch}
use addrsyncd.Daemon.Batch.{Outcome, start_maintenance_batch, launch, next_batch_id}
use addrsyncd.Daemon.Resync.{fill_tracked_cleanup_chunk, op_of}
use addrsyncd.Daemon.Maintenance.{TurnIo, Turn, stop, continue, chunk_size}
use addrsyncd.Daemon.Maintenance.Shutdown.{cleanup_tracked_chunk}
use addrsyncd.Daemon.Maintenance.Ends.{IsWorking, IsAsked, IsDone}

-- The next piece of the list: none past its end, and else some keys and a larger offset.
chunk_empty :
    (tracked : List IpKey) (offset size : ℕ)
    → length tracked ≤ offset
    → fill_tracked_cleanup_chunk tracked offset size [] ≡ (offset, [])
unfolding fill_tracked_cleanup_chunk
chunk_empty tracked offset size h = ground arith

chunk_cons :
    (tracked : List IpKey) (offset size n : ℕ) (k : IpKey)
    → offset < length tracked
    → 0 < size
    → min (offset + size) (length tracked) - offset ≡ suc n
    → drop offset tracked ≡ k ∷ drop (suc offset) tracked
    → fill_tracked_cleanup_chunk tracked offset size [] ≡ (
      min (offset + size) (length tracked),
      op_of delete k ∷ map (op_of delete) (take n (drop (suc offset) tracked)),
    )
unfolding fill_tracked_cleanup_chunk
chunk_cons tracked offset size n k h p e r =
    let wanted : (size == 0 || leb (length tracked) offset) ≡ false = ground arith in
    rw (wanted, r, e) refl

get_elem?_some : (tracked : List IpKey) (i : ℕ) → i < length tracked → get_elem? tracked i ≢ none
get_elem?_some [] i h e = omega arith
get_elem?_some (x ∷ xs) zero h e = cc
get_elem?_some (x ∷ xs) (suc i) h e = get_elem?_some xs i (omega arith) e

chunk_grows :
    (tracked : List IpKey) (offset size : ℕ)
    → offset < length tracked
    → 0 < size
    → (op : RuleOp) × (ops : List RuleOp) × (fill_tracked_cleanup_chunk tracked offset size []
        ≡ (min (offset + size) (length tracked), op ∷ ops))
unfolding fill_tracked_cleanup_chunk
chunk_grows tracked offset size h p = elim (Option-cases (get_elem? tracked offset)) [
  | inl past ↦ absurd (ground (arith, get_elem?_some tracked offset h))
  | inr (k, here) ↦
      let n : ℕ = min (offset + size) (length tracked) - offset - 1 in
      (
        op_of delete k,
        map (op_of delete) (take n (drop (suc offset) tracked)),
        chunk_cons tracked offset size n k h p (omega arith) (drop_get tracked offset k here),
      )
]

pub chunk_ends :
    (opts : Options) (io : TurnIo) (d : Daemon) (st : EventLoopState) (budget : ℕ)
    (job : CleanupTrackedJob)
    → length d.tracked_keys ≤ job.offset
    → st.inflight ≡ none
    → IsAsked st
    → let t = cleanup_tracked_chunk opts io d st budget job in (t.flow ≡ continue) × IsDone t.state
unfolding cleanup_tracked_chunk
chunk_ends opts io d st budget job h l a =
    let nothing = chunk_empty d.tracked_keys job.offset (chunk_size opts budget) h in
    (
      ground (arith, nothing),
      record {
        cleaned = ground (arith, nothing);
        rests = ground (arith, nothing);
        landed = ground (arith, nothing);
        wishes = record {
          asked = ground (arith, nothing, a.asked);
          quiet = ground (arith, nothing, a.quiet);
          no_resync = ground (arith, nothing, a.no_resync);
          no_startup = ground (arith, nothing, a.no_startup);
        };
      },
    )

-- A batch that is sent is in flight, and nothing else changes that matters here.
record IsLaunched (d : Daemon) (st : EventLoopState) (o : Outcome) (id : ℕ) (b : InflightBatch)
    : Type 0 where
  pub sent : o.outcome ≡ ok true
  pub keys : o.daemon.tracked_keys ≡ d.tracked_keys
  pub unfinished : o.state.shutdown_cleanup_done ≡ st.shutdown_cleanup_done
  pub flies : o.state.inflight ≡ some b
  pub ours : b.owner ≡ for_maintenance
  pub numbered : b.batch_id ≡ id

start_maintenance_batch-IsLaunched :
    (opts : Options) (io : TurnIo) (d : Daemon) (st : EventLoopState) (id : ℕ) (op : RuleOp)
    (ops : List RuleOp)
    → st.inflight ≡ none
    → io.sending.send ≡ ok tt
    → (b : InflightBatch) × IsLaunched d st
        (start_maintenance_batch opts d st io.sending id (op ∷ ops))
        id
        b
unfolding start_maintenance_batch launch start_apply_rules_batch
start_maintenance_batch-IsLaunched opts io d st id op ops l s =
    let o : Outcome = start_maintenance_batch opts d st io.sending id (op ∷ ops) in
    elim (Option-cases o.state.inflight) [
      | inl lost ↦ absurd (ground (arith, l, s))
      | inr (b, flies) ↦ (
        b,
        record {
          sent = ground (arith, l, s);
          keys = ground (arith, l, s);
          unfinished = ground (arith, l, s);
          flies = flies;
          ours = ground (arith, l, s);
          numbered = ground (arith, l, s);
        },
      )
    ]

start_maintenance_batch-IsAsked :
    (opts : Options) (io : TurnIo) (d : Daemon) (st : EventLoopState) (id : ℕ) (op : RuleOp)
    (ops : List RuleOp)
    → st.inflight ≡ none
    → io.sending.send ≡ ok tt
    → IsAsked st
    → IsAsked (start_maintenance_batch opts d st io.sending id (op ∷ ops)).state
unfolding start_maintenance_batch launch start_apply_rules_batch
start_maintenance_batch-IsAsked opts io d st id op ops l s a = record {
  asked = ground (arith, l, s, a.asked);
  quiet = ground (arith, l, s, a.quiet);
  no_resync = ground (arith, l, s, a.no_resync);
  no_startup = ground (arith, l, s, a.no_startup);
}

-- The turn after a batch that was sent.
record IsFollowed (t : Turn) (o : Outcome) (job : CleanupTrackedJob) : Type 0 where
  pub stops : t.flow ≡ stop
  pub same_daemon : t.daemon ≡ o.daemon
  pub same_state : t.state ≡ record o.state { maintenance = cleanup_tracked job }

chunk_launched :
    (opts : Options) (io : TurnIo) (d : Daemon) (st : EventLoopState) (budget offset : ℕ)
    (job : CleanupTrackedJob) (op : RuleOp) (ops : List RuleOp)
    → fill_tracked_cleanup_chunk d.tracked_keys job.offset (chunk_size opts budget) []
      ≡ (offset, op ∷ ops)
    → let id = next_batch_id job.batch_id in
      let o = start_maintenance_batch opts d st io.sending id (op ∷ ops) in
      o.outcome ≡ ok true
      → IsFollowed
          (cleanup_tracked_chunk opts io d st budget job)
          o
          (record job { offset = offset; batch_id = id; waiting_batch_id = some id })
unfolding cleanup_tracked_chunk
chunk_launched opts io d st budget offset job op ops e g = record {
  stops = ground arith;
  same_daemon = ground arith;
  same_state = ground arith;
}

pub chunk_works :
    (opts : Options) (io : TurnIo) (d : Daemon) (st : EventLoopState) (budget : ℕ)
    (tracked : List IpKey) (job : CleanupTrackedJob)
    → d.tracked_keys ≡ tracked
    → job.offset < length tracked
    → st.inflight ≡ none
    → st.shutdown_cleanup_done ≡ false
    → IsAsked st
    → io.sending.send ≡ ok tt
    → let t = cleanup_tracked_chunk opts io d st budget job in
      (job' : CleanupTrackedJob) × (b : InflightBatch) × (job.offset < job'.offset)
      × (t.flow ≡ stop)
      × IsWorking t.daemon t.state tracked job' b
chunk_works opts io d st budget tracked job k h l u a s =
    let size : ℕ = chunk_size opts budget in
    let inside : job.offset < length d.tracked_keys = rw k h in
    let (op, ops, cut) = chunk_grows d.tracked_keys job.offset size inside (omega arith) in
    let id : ℕ = next_batch_id job.batch_id in
    let (b, o) = start_maintenance_batch-IsLaunched opts io d st id op ops l s in
    let asked' = start_maintenance_batch-IsAsked opts io d st id op ops l s a in
    let next : ℕ = min (job.offset + size) (length d.tracked_keys) in
    let t = chunk_launched opts io d st budget next job op ops cut o.sent in
    (
      record job { offset = next; batch_id = id; waiting_batch_id = some id },
      b,
      omega arith,
      t.stops,
      rw (t.same_daemon, t.same_state)
          record {
            keys = o.keys ∙ k;
            working = refl;
            waits = refl;
            flies = o.flies;
            ours = o.ours;
            same_id = o.numbered;
            unfinished = o.unfinished ∙ u;
            wishes = record {
              asked = asked'.asked;
              quiet = asked'.quiet;
              no_resync = asked'.no_resync;
              no_startup = asked'.no_startup;
            };
          },
    )
