-- ===== src/Rule/Apply.antt =====
-- Sending a batch and draining its acknowledgements, src/netlink/rule.rs. What the sockets deliver is
-- an argument: the calls of `recv_many` in turn, and the result of `send_many_raw`.
use addrsyncd.Base.{
  ℕ, suc, Bool, false, ◌||◌, List, [], ◌∷◌, ◌==◌, if◌then◌else◌, Result, ok, err, Option, none,
  some, length,
}
use addrsyncd.Error.{AppError, NetlinkError, netlink, from_required_syscall_io}
use addrsyncd.LinuxTypes.{nlmsg_error}
use addrsyncd.Codec.Seq.{seq_to_batch_index, seq_with_offset, reserve_seq_block}
use addrsyncd.Codec.Message.{NetlinkMessageView, Item, items}
use addrsyncd.Codec.Ack.{AckErrorInfo, parse_ack_error_info}
use addrsyncd.Rule.{RuleOp, RuleContext, NetlinkAckStatus, build_rule_message_into}
use addrsyncd.Rule.Tracker.{AckTracker, prepare, mark_non_ack, mark_seq_mismatch, mark_status}

-- A call of `recv_many`: the packets of the slots it filled, or the `raw_os_error` of its failure.
pub data Recv : Type 0 where
  packets : List (List ℕ) → Recv
  recv_failed : Option ℕ → Recv

-- `EINTR` is 4; `EAGAIN` and `EWOULDBLOCK` are 11.
unfoldable pub is_transient_recv_err : Option ℕ → Bool
is_transient_recv_err none = false
is_transient_recv_err (some code) = (code == 4) || (code == 11)

-- The messages of the batch: `index` is that of the first of `ops`.
unfoldable pub build_batch : RuleContext → ℕ → ℕ → List RuleOp → List (List ℕ)
unfolding build_rule_message_into
build_batch ctx first_seq index [] = []
build_batch ctx first_seq index (op ∷ ops) =
    build_rule_message_into [] ctx op (seq_with_offset first_seq index)
    ∷ build_batch ctx first_seq (suc index) ops

-- The outcome of a started batch: `NEXT_SEQ`, the tracker, the packets handed to the socket, and the
-- first sequence number.
pub record Started : Type 0 where
  pub next_seq : ℕ
  pub tracker : AckTracker
  pub sent : List (List ℕ)
  pub outcome : Result AppError ℕ

-- `send` is what `send_many_raw` answers.
unfoldable pub start_apply_rules_batch :
    RuleContext → List RuleOp → AckTracker → ℕ → Result (Option ℕ) (Unit {0}) → Started
unfolding reserve_seq_block prepare
start_apply_rules_batch ctx [] tracker next send = record {
  next_seq = next;
  tracker = prepare 0;
  sent = [];
  outcome = ok 0;
}
start_apply_rules_batch ctx (op ∷ ops) tracker next send =
    let (first_seq, next') = reserve_seq_block (length (op ∷ ops)) next in
    let messages = build_batch ctx first_seq 0 (op ∷ ops) in
    elim send [
      | err code ↦ record {
        next_seq = next';
        tracker = tracker;
        sent = messages;
        outcome = err (from_required_syscall_io code);
      }
      | ok _ ↦ record {
        next_seq = next';
        tracker = prepare (length (op ∷ ops));
        sent = messages;
        outcome = ok first_seq;
      }
    ]

abbrev status_of : AckErrorInfo → NetlinkAckStatus
status_of i = record { errno = i.errno; ext_msg = i.ext_msg; ext_offset = i.ext_offset }

abbrev map_status : Option AckErrorInfo → Option NetlinkAckStatus
map_status none = none
map_status (some i) = some (status_of i)

module _ (from_utf8 : List ℕ → Option (List ℕ)) (first_seq batch_len : ℕ) where
  -- One message of the answer.
  unfoldable pub note_ack :
      AckTracker → NetlinkMessageView → AckTracker × Result NetlinkError (Unit {0})
  note_ack t msg =
      let acked : AckTracker × Result NetlinkError (Unit {0}) =
        elim (seq_to_batch_index msg.header.nlmsg_seq first_seq batch_len) [
          | none ↦ (mark_seq_mismatch t, ok tt)
          | some batch_idx ↦ elim (parse_ack_error_info from_utf8 msg.body) [
            | err e ↦ (t, err e)
            | ok status ↦ (mark_status t batch_idx (map_status status), ok tt)
          ]
        ] in
      if msg.header.nlmsg_type == nlmsg_error then acked else (mark_non_ack t, ok tt)

  -- The items of one packet; the first error ends the drain, and what was marked stays.
  unfoldable pub note_items : AckTracker → List Item → AckTracker × Result NetlinkError (Unit {0})
  unfolding note_ack
  note_items t [] = (t, ok tt)
  note_items t (err e ∷ rest) = (t, err e)
  note_items t (ok msg ∷ rest) =
      let (t', r) = note_ack t msg in elim r [ err e ↦ (t', err e) | ok _ ↦ note_items t' rest ]

  unfoldable pub note_packets :
      AckTracker → List (List ℕ) → AckTracker × Result NetlinkError (Unit {0})
  unfolding note_items
  note_packets t [] = (t, ok tt)
  note_packets t (raw ∷ rest) =
      let (t', r) = note_items t (items raw) in
      elim r [ err e ↦ (t', err e) | ok _ ↦ note_packets t' rest ]

  -- The list holds what the calls of `recv_many` give; past its end the socket has nothing more.
  unfoldable pub drain_apply_ack_messages :
      AckTracker → List Recv → AckTracker × Result AppError (Unit {0})
  unfolding note_packets
  drain_apply_ack_messages t [] = (t, ok tt)
  drain_apply_ack_messages t (recv_failed code ∷ rest) =
      if is_transient_recv_err code then (t, ok tt) else (t, err (from_required_syscall_io code))
  drain_apply_ack_messages t (packets [] ∷ rest) = (t, ok tt)
  drain_apply_ack_messages t (packets (raw ∷ raws) ∷ rest) =
      let (t', r) = note_packets t (raw ∷ raws) in
      elim r [ err e ↦ (t', err (netlink e)) | ok _ ↦ drain_apply_ack_messages t' rest ]
