-- ===== src/Pbr/Exchange.antt =====
-- Sending one message of src/netlink/pbr.rs and waiting for its acknowledgement.
use addrsyncd.Base.{
  ℕ, List, [], ◌∷◌, not, ◌==◌, if◌then◌else◌, Result, ok, err, Option, none, some, ◌>>=◌, ◌++◌,
}
use addrsyncd.Error.{AppError, netlink, io, NetlinkError, pbr_ack_timeout, pbr_failed}
use addrsyncd.LinuxTypes.{nlmsg_error, read_nlmsghdr}
use addrsyncd.Codec.Message.{Item, items}
use addrsyncd.Codec.Ack.{parse_ack_error_info}
use addrsyncd.Rule.Apply.{Recv, packets, recv_failed, is_transient_recv_err}
use addrsyncd.Dump.{Wait, readable, timed_out, wait_failed}
use addrsyncd.Pbr.{PbrAckClass, acked, noop, kernel_err, PbrOp, classify_pbr_ack}

-- What the socket does with a message: the result of `send`, then the calls of `recv_many`, each with
-- the wait that follows if nothing came.
pub record Exchange : Type 0 where
  pub send_result : Result (Option ℕ) (Unit {0})
  pub rounds : List (Recv × Wait)

module _ (from_utf8 : List ℕ → Option (List ℕ)) (seq : ℕ) (op : PbrOp) where
  -- The first acknowledgement of the message, if there is one.
  unfoldable pub ack_in_items : List Item → Result NetlinkError (Option PbrAckClass)
  ack_in_items [] = ok none
  ack_in_items (err e ∷ rest) = err e
  ack_in_items (ok msg ∷ rest) =
      let later = ack_in_items rest in
      if not (msg.header.nlmsg_seq == seq)
      then later
      else if not (msg.header.nlmsg_type == nlmsg_error)
      then later
      else parse_ack_error_info from_utf8 msg.body
        >>= (λ status. ok (some (classify_pbr_ack op status)))

  unfoldable pub ack_in_packets : List (List ℕ) → Result NetlinkError (Option PbrAckClass)
  ack_in_packets [] = ok none
  ack_in_packets (raw ∷ rest) = elim (ack_in_items (items raw)) [
    | err e ↦ err e
    | ok (some class) ↦ ok (some class)
    | ok none ↦ ack_in_packets rest
  ]

  -- Past the end of the list the deadline has passed.
  unfoldable pub wait_pbr_ack : List (Recv × Wait) → Result AppError PbrAckClass
  wait_pbr_ack [] = err (netlink pbr_ack_timeout)
  wait_pbr_ack ((recv_failed code, wait) ∷ rest) =
      let later = wait_pbr_ack rest in
      let waited : Result AppError PbrAckClass = elim wait [
        | readable ↦ later
        | timed_out ↦ err (netlink pbr_ack_timeout)
        | wait_failed e ↦ err (io e)
      ] in
      if is_transient_recv_err code then waited else err (io code)
  wait_pbr_ack ((packets [], wait) ∷ rest) = elim wait [
    | readable ↦ wait_pbr_ack rest
    | timed_out ↦ err (netlink pbr_ack_timeout)
    | wait_failed e ↦ err (io e)
  ]
  wait_pbr_ack ((packets (raw ∷ raws), wait) ∷ rest) = elim (ack_in_packets (raw ∷ raws)) [
    | err e ↦ err (netlink e)
    | ok (some class) ↦ ok class
    | ok none ↦ wait_pbr_ack rest
  ]

-- The other side: its state, and what it does with a message.
pub record Kernel (K : Type 0) : Type 0 where
  pub from_utf8 : List ℕ → Option (List ℕ)
  pub exchange : K → List ℕ → K × Exchange

-- `NEXT_SEQ`, the state of the other side, and the messages that were handed to the socket.
pub record PbrState (K : Type 0) : Type 0 where
  pub next : ℕ
  pub side : K
  pub sent : List (List ℕ)

module _ {K : Type 0} (kernel : Kernel K) where
  unfoldable pub send_pbr_message_classified :
      PbrOp → List ℕ → PbrState K → PbrState K × Result AppError PbrAckClass
  send_pbr_message_classified op msg st =
      let seq = (read_nlmsghdr msg).nlmsg_seq in
      let (side', e) = kernel.exchange st.side msg in
      let st' = record st { side = side'; sent = st.sent ++ (msg ∷ []) } in
      elim e.send_result [
        | err code ↦ (st', err (io code))
        | ok _ ↦ (st', wait_pbr_ack kernel.from_utf8 seq op e.rounds)
      ]

  abbrev settled : Result AppError PbrAckClass → Result AppError (Unit {0})
  settled (ok kernel_err) = err (netlink pbr_failed)
  settled (ok acked) = ok tt
  settled (ok noop) = ok tt
  settled (err e) = err e

  unfoldable pub send_pbr_message :
      PbrOp → List ℕ → PbrState K → PbrState K × Result AppError (Unit {0})
  send_pbr_message op msg st =
      let (st', r) = send_pbr_message_classified op msg st in (st', settled r)
