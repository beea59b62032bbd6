-- ===== src/Examples/Codec.antt =====
-- Sequence numbers, attributes, messages and acknowledgements at concrete inputs.
use addrsyncd.Base.{
  ℕ, ◌≡◌, ◌≢◌, ◌<◌, refl, true, List, [], ◌∷◌, ◌&&◌, ◌==◌, if◌then◌else◌, arith, ok, err, Result,
  some, none, All,
}
use addrsyncd.Error.{NetlinkError, out_of_fuel, invalid_nla_len}
use addrsyncd.IpKey.{IpAddr}
use addrsyncd.Codec.Seq.{seq_with_offset, seq_to_batch_index, reserve_seq_block}
use addrsyncd.Codec.Seq.Blocks.{
  seq_to_batch_index-seq_with_offset, seq_to_batch_index_sound, reserve_seq_block_disjoint,
}
use addrsyncd.Codec.Nla.{parse_nlas}
use addrsyncd.Codec.Nla.Ends.{parse_nlas-ne-out_of_fuel}
use addrsyncd.Codec.Nla.RoundTrip.{nlas, parse_nlas-nlas}
use addrsyncd.Codec.Message.{NetlinkMessageView, items}
use addrsyncd.Codec.Message.Walk.{frames, items-frames, items-ne-out_of_fuel}
use addrsyncd.Rule.{RuleOp, RuleContext, add, build_rule_message_into}
use addrsyncd.Rule.Message.{family_of}
use addrsyncd.Rule.Tracker.{prepare, mark_status, seen_at, status_at}
use addrsyncd.Rule.Tracker.Counts.{
  IsTracker, prepare-IsTracker, mark_status-IsTracker, mark_status-lookup,
}
use addrsyncd.Cleanup.{parse_cleanup_rule_addr}
use addrsyncd.Cleanup.Recognise.{parse_cleanup_rule_addr-build_rule_message_into}

-- A block that wraps past the largest number.
wrapped_first : seq_with_offset 4294967295 1 ≡ 1
unfolding seq_with_offset
wrapped_first = ground arith

seq_to_batch_index-seq_with_offset_example :
    seq_to_batch_index (seq_with_offset 4294967294 3) 4294967294 5 ≡ some 3
seq_to_batch_index-seq_with_offset_example =
    seq_to_batch_index-seq_with_offset 4294967294 3 5 (omega arith) (omega arith) (omega arith)

seq_to_batch_index_sound_example : (2 < 5) × (seq_with_offset 4294967295 2 ≡ 2)
seq_to_batch_index_sound_example =
    seq_to_batch_index_sound 2 4294967295 5 2 (omega arith) (omega arith)
      (unfold seq_to_batch_index in ground arith)

reserve_seq_block_disjoint_example :
    let (first, next') = reserve_seq_block 3 4294967294 in
    let (second, next'') = reserve_seq_block 2 next' in
    seq_with_offset first 2 ≢ seq_with_offset second 0
reserve_seq_block_disjoint_example =
    reserve_seq_block_disjoint 4294967294 3 2 2 0 (omega arith) (omega arith) (omega arith)
      (omega arith)

-- A callback that collects the types and refuses type 9.
collect : List ℕ → ℕ → List ℕ → List ℕ × Result NetlinkError (Unit {0})
collect s typ payload = if typ == 9 then (s, err invalid_nla_len) else (typ ∷ s, ok tt)

parse_nlas-nlas_example :
    parse_nlas collect (nlas ((1, 7 ∷ 8 ∷ []) ∷ (6, []) ∷ [])) [] ≡ (6 ∷ 1 ∷ [], ok tt)
unfolding collect
parse_nlas-nlas_example =
    parse_nlas-nlas collect ((1, 7 ∷ 8 ∷ []) ∷ (6, []) ∷ []) [] (6 ∷ 1 ∷ []) (
      omega arith,
      omega arith,
      (1 ∷ [], refl, (omega arith, omega arith, (6 ∷ 1 ∷ [], refl, refl))),
    )

abbrev done_view : NetlinkMessageView
done_view = record {
  header = record { nlmsg_len = 20; nlmsg_type = 3; nlmsg_flags = 2; nlmsg_seq = 7; nlmsg_pid = 0 };
  body = 0 ∷ 0 ∷ 0 ∷ 0 ∷ [];
}

items-frames_example :
    items (frames (done_view ∷ done_view ∷ [])) ≡ ok done_view ∷ ok done_view ∷ []
items-frames_example = items-frames (done_view ∷ done_view ∷ []) (ground arith)

items-ne-out_of_fuel_example : All (λ item. item ≢ err out_of_fuel) (items (0 ∷ 0 ∷ 0 ∷ []))
items-ne-out_of_fuel_example = items-ne-out_of_fuel (0 ∷ 0 ∷ 0 ∷ [])

mark_status-IsTracker_example : IsTracker 2 (mark_status (prepare 2) 1 none)
mark_status-IsTracker_example = mark_status-IsTracker 2 (prepare 2) 1 none (prepare-IsTracker 2)

mark_status-lookup_example :
    (seen_at (mark_status (prepare 2) 1 none) 0 ≡ (if 1 == 0 then true else seen_at (prepare 2) 0))
    × (status_at (mark_status (prepare 2) 1 none) 0 ≡ (
        if 1 == 0
        then (if seen_at (prepare 2) 0 then status_at (prepare 2) 0 else none)
        else status_at (prepare 2) 0))
mark_status-lookup_example =
    mark_status-lookup 2 (prepare 2) 1 0 none (prepare-IsTracker 2) (omega arith)

abbrev ctx_100 : RuleContext
ctx_100 = record { pref = 100; table_id = 1000 }

abbrev add_rule : RuleOp
add_rule = record { addr = IpAddr.v4 (192 ∷ 0 ∷ 2 ∷ 9 ∷ []); action = add }

parse_cleanup_rule_addr-build_rule_message_into_example :
    (msg : NetlinkMessageView) × (items (build_rule_message_into [] ctx_100 add_rule 5)
      ≡ ok msg ∷ [])
    × (parse_cleanup_rule_addr msg ctx_100 2
        ≡ ok (
            if (family_of add_rule.addr == 2) && ((100 == 100) && (1000 == 1000))
            then some add_rule.addr
            else none))
parse_cleanup_rule_addr-build_rule_message_into_example =
    parse_cleanup_rule_addr-build_rule_message_into ctx_100 ctx_100 add_rule 5 2 (ground arith)
      (ground arith) (omega arith)

collect_ends : (s : List ℕ) (typ : ℕ) (value : List ℕ) → (collect s typ value).1 ≢ err out_of_fuel
unfolding collect
collect_ends s typ value e = ground arith

-- An attribute whose length says more than there is.
parse_nlas-ne-out_of_fuel_example :
    (parse_nlas collect (9 ∷ 0 ∷ 1 ∷ 0 ∷ 7 ∷ []) []).1 ≢ err out_of_fuel
parse_nlas-ne-out_of_fuel_example =
    parse_nlas-ne-out_of_fuel collect (9 ∷ 0 ∷ 1 ∷ 0 ∷ 7 ∷ []) [] collect_ends
