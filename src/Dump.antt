-- ===== src/Dump.antt =====
-- The dump engine of src/netlink/dump_engine.rs: the answer to one dump request, message by message.
-- What the socket delivers is an argument.
use addrsyncd.Base.{
  ℕ, Bool, true, false, List, [], ◌∷◌, ◌==◌, if◌then◌else◌, Result, ok, err, Option, none, some,
}
use addrsyncd.Error.{
  AppError, netlink, io, dump_ack_errno, dump_wait_timeout, from_required_syscall_io,
}
use addrsyncd.LinuxTypes.{nlmsg_error, nlmsg_done}
use addrsyncd.Codec.Message.{NetlinkMessageView, Item, items}
use addrsyncd.Codec.Ack.{parse_ack_errno}
use addrsyncd.Rule.Apply.{Recv, packets, recv_failed, is_transient_recv_err}

pub data DumpPoll : Type 0 where
  pending continue done : DumpPoll

-- `wait_readable`: the socket became readable, the deadline passed, or the poll failed.
pub data Wait : Type 0 where
  readable timed_out : Wait
  wait_failed : Option ℕ → Wait

module _ {S : Type 0} (on_msg : S → NetlinkMessageView → S × Result AppError (Unit {0}))
    (seq : ℕ) where
  -- One message: whether the dump is done so far, and what the callback changes.
  unfoldable pub dump_message : S → Bool → NetlinkMessageView → S × Result AppError Bool
  dump_message s ended msg =
      let failed : S × Result AppError Bool = elim (parse_ack_errno msg.body) [
        | err e ↦ (s, err (netlink e))
        | ok none ↦ (s, ok ended)
        | ok (some errno) ↦ (s, err (netlink (dump_ack_errno errno)))
      ] in
      let (s', r) = on_msg s msg in
      let called : S × Result AppError Bool = elim r [
        | err e ↦ (s', err e)
        | ok _ ↦ (s', ok ended)
      ] in
      if msg.header.nlmsg_seq == seq
      then if msg.header.nlmsg_type == nlmsg_done
        then (s, ok true)
        else if msg.header.nlmsg_type == nlmsg_error
        then failed
        else called
      else (s, ok ended)

  unfoldable pub dump_items : S → Bool → List Item → S × Result AppError Bool
  unfolding dump_message
  dump_items s ended [] = (s, ok ended)
  dump_items s ended (err e ∷ rest) = (s, err (netlink e))
  dump_items s ended (ok msg ∷ rest) =
      let (s', r) = dump_message s ended msg in
      elim r [ err e ↦ (s', err e) | ok ended' ↦ dump_items s' ended' rest ]

  unfoldable pub dump_packets : S → Bool → List (List ℕ) → S × Result AppError Bool
  unfolding dump_items
  dump_packets s ended [] = (s, ok ended)
  dump_packets s ended (raw ∷ rest) =
      let (s', r) = dump_items s ended (items raw) in
      elim r [ err e ↦ (s', err e) | ok ended' ↦ dump_packets s' ended' rest ]

  unfoldable pub recv_step : S → Recv → S × Result AppError DumpPoll
  unfolding dump_packets
  recv_step s (recv_failed code) =
      if is_transient_recv_err code
      then (s, ok pending)
      else (s, err (from_required_syscall_io code))
  recv_step s (packets []) = (s, ok pending)
  recv_step s (packets (raw ∷ raws)) =
      let (s', r) = dump_packets s false (raw ∷ raws) in
      elim r [
        | err e ↦ (s', err e)
        | ok true ↦ (s', ok DumpPoll.done)
        | ok false ↦ (s', ok continue)
      ]

  -- The calls of `recv_many` in turn, each with the `wait_readable` that follows it if it gave
  -- nothing. The wait after the last call of the list times out.
  unfoldable pub recv_until_done : S → List (Recv × Wait) → S × Result AppError (Unit {0})
  unfolding recv_step
  recv_until_done s [] = (s, err (netlink dump_wait_timeout))
  recv_until_done s ((received, wait) ∷ rest) =
      let (s', r) = recv_step s received in
      elim r [
        | err e ↦ (s', err e)
        | ok DumpPoll.done ↦ (s', ok tt)
        | ok continue ↦ recv_until_done s' rest
        | ok pending ↦ elim wait [
          | readable ↦ recv_until_done s' rest
          | timed_out ↦ (s', err (netlink dump_wait_timeout))
          | wait_failed code ↦ (s', err (io code))
        ]
      ]
