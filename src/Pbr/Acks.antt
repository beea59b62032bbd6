-- ===== src/Pbr/Acks.antt =====
-- The acknowledgement that src/netlink/pbr.rs waits for, as the system sends it.
use addrsyncd.Base.{
  ℕ, ◌-◌, ◌^◌, ◌<◌, ◌≡◌, refl, ◌∙◌, ap, List, [], ◌∷◌, ◌++◌, arith, ok, err, none, some, Option,
  Option-cases, Result-cases, inl, inr, slice, length-append, take-append_of_length,
}
use mathlib.Core.List.{append-nil}
use addrsyncd.Base.Bytes.{le_bytes, le_value, length-le_bytes, le_value-le_bytes}
use addrsyncd.Error.{netlink, pbr_failed}
use addrsyncd.LinuxTypes.{read_nlmsghdr, nlmsg_error}
use addrsyncd.Codec.Message.{NetlinkMessageView, items}
use addrsyncd.Codec.Message.Walk.{frame, IsFrame, items-frames}
use addrsyncd.Codec.Ack.{AckErrorInfo, parse_ack_error_info}
use addrsyncd.Rule.Apply.{Recv, packets}
use addrsyncd.Dump.{Wait}
use addrsyncd.Pbr.{PbrAckClass, acked, noop, kernel_err, PbrOp, classify_pbr_ack}
use addrsyncd.Pbr.Exchange.{
  Exchange, Kernel, PbrState, ack_in_items, ack_in_packets, wait_pbr_ack,
  send_pbr_message_classified, send_pbr_message,
}

-- The system takes the message and answers it with `NLMSG_ERROR`: the number of the message, a code, and
-- whatever it adds to it, as the message it answers or attributes.
pub record Acknowledges (e : Exchange) (seq code : ℕ) : Type 0 where
  pub taken : e.send_result ≡ ok tt
  pub view : NetlinkMessageView
  pub whole : IsFrame view
  pub is_error : view.header.nlmsg_type ≡ nlmsg_error
  pub numbered : view.header.nlmsg_seq ≡ seq
  pub added : List ℕ
  pub says : view.body ≡ le_bytes 4 code ++ added
  pub wait : Wait
  pub later : List (Recv × Wait)
  pub arrives : e.rounds ≡ (packets (frame view.header view.body ∷ []), wait) ∷ later

module _ (from_utf8 : List ℕ → Option (List ℕ)) where
  code_read :
      (code : ℕ) (added : List ℕ)
      → code < 2 ^ 32
      → le_value (slice 0 4 (le_bytes 4 code ++ added)) ≡ code
  code_read code added h =
      ap le_value (take-append_of_length 4 (le_bytes 4 code) added (length-le_bytes 4 code))
      ∙ le_value-le_bytes 4 code h

  -- A code of 0 is success.
  success_read : (added : List ℕ) → parse_ack_error_info from_utf8 (le_bytes 4 0 ++ added) ≡ ok none
  unfolding parse_ack_error_info
  success_read added =
      let long = length-append (le_bytes 4 0) added in
      ground (arith, code_read 0 added (omega arith), length-le_bytes 4 0)

  -- Any other is an error, with the number that the code negates.
  failure_read :
      (code : ℕ) (added : List ℕ)
      → 0 < code
      → code < 2 ^ 32
      → (status : AckErrorInfo) × (parse_ack_error_info from_utf8 (le_bytes 4 code ++ added)
          ≡ ok (some status))
        × (status.errno ≡ 2 ^ 32 - code)
  unfolding parse_ack_error_info
  failure_read code added p h =
      let long = length-append (le_bytes 4 code) added in
      let read = code_read code added h in
      elim (Result-cases (parse_ack_error_info from_utf8 (le_bytes 4 code ++ added))) [
        | inr (x, e) ↦ absurd (ground (arith, read, length-le_bytes 4 code))
        | inl (o, e) ↦ elim (Option-cases o) [
          | inl nothing ↦ absurd (ground (arith, read, length-le_bytes 4 code))
          | inr (status, s) ↦ (status, e ∙ ap ok s, ground (arith, read, length-le_bytes 4 code))
        ]
      ]

  ack_found :
      (seq : ℕ) (op : PbrOp) (v : NetlinkMessageView) (status : Option AckErrorInfo)
      → v.header.nlmsg_seq ≡ seq
      → v.header.nlmsg_type ≡ nlmsg_error
      → parse_ack_error_info from_utf8 v.body ≡ ok status
      → ack_in_items from_utf8 seq op (ok v ∷ []) ≡ ok (some (classify_pbr_ack op status))
  unfolding ack_in_items
  ack_found seq op v status hs ht e = ground arith

  packet_found :
      (seq : ℕ) (op : PbrOp) (raw : List ℕ) (v : NetlinkMessageView) (class : PbrAckClass)
      (wait : Wait) (later : List (Recv × Wait))
      → items raw ≡ ok v ∷ []
      → ack_in_items from_utf8 seq op (ok v ∷ []) ≡ ok (some class)
      → wait_pbr_ack from_utf8 seq op ((packets (raw ∷ []), wait) ∷ later) ≡ ok class
  unfolding ack_in_packets wait_pbr_ack
  packet_found seq op raw v class wait later h e = ground arith

  answered :
      (e : Exchange) (seq code : ℕ) (op : PbrOp) (status : Option AckErrorInfo)
      (a : Acknowledges e seq code)
      → parse_ack_error_info from_utf8 (le_bytes 4 code ++ a.added) ≡ ok status
      → wait_pbr_ack from_utf8 seq op e.rounds ≡ ok (classify_pbr_ack op status)
  answered e seq code op status a read =
      let found : parse_ack_error_info from_utf8 a.view.body ≡ ok status =
        ap (parse_ack_error_info from_utf8) a.says ∙ read in
      let one : items (frame a.view.header a.view.body) ≡ ok a.view ∷ [] =
        simp append-nil at (items-frames (a.view ∷ []) (a.whole, tt)) in
      ap (wait_pbr_ack from_utf8 seq op) a.arrives
      ∙ packet_found seq op (frame a.view.header a.view.body) a.view (classify_pbr_ack op status)
          a.wait a.later one (ack_found seq op a.view status a.numbered a.is_error found)

module _ {K : Type 0} (kernel : Kernel K) where
  exchanged :
      (op : PbrOp) (msg : List ℕ) (st : PbrState K) (class : PbrAckClass)
      → let after = kernel.exchange st.side msg in
        after.1.send_result ≡ ok tt
        → wait_pbr_ack kernel.from_utf8 (read_nlmsghdr msg).nlmsg_seq op after.1.rounds ≡ ok class
        → let sent = send_pbr_message_classified kernel op msg st in
          (sent.1 ≡ ok class) × (sent.0.side ≡ after.0)
  unfolding send_pbr_message_classified
  exchanged op msg st class good answer_class = (ground arith, ground arith)

  -- A message that the system acknowledges.
  pub sent_acked :
      (op : PbrOp) (msg : List ℕ) (st : PbrState K) (seq : ℕ)
      → (read_nlmsghdr msg).nlmsg_seq ≡ seq
      → let after = kernel.exchange st.side msg in
        Acknowledges after.1 seq 0
        → let sent = send_pbr_message_classified kernel op msg st in
          (sent.1 ≡ ok acked) × (sent.0.side ≡ after.0)
  sent_acked op msg st seq number a = exchanged op msg st acked a.taken (
      rw number (
        answered kernel.from_utf8 (kernel.exchange st.side msg).1 seq 0 op none a
          (success_read kernel.from_utf8 a.added)
        ∙ ap ok (unfold classify_pbr_ack in refl)))

  -- A message that it refuses for a reason that means there is nothing to do.
  pub sent_noop :
      (op : PbrOp) (msg : List ℕ) (st : PbrState K) (seq code : ℕ)
      → (read_nlmsghdr msg).nlmsg_seq ≡ seq
      → 0 < code
      → code < 2 ^ 32
      → ((status : AckErrorInfo)
          → status.errno ≡ 2 ^ 32 - code
          → classify_pbr_ack op (some status) ≡ noop)
      → let after = kernel.exchange st.side msg in
        Acknowledges after.1 seq code
        → let sent = send_pbr_message_classified kernel op msg st in
          (sent.1 ≡ ok noop) × (sent.0.side ≡ after.0)
  sent_noop op msg st seq code number p h means a =
      let (status, read, errno) = failure_read kernel.from_utf8 code a.added p h in
      exchanged op msg st noop a.taken (
        rw number (
          answered kernel.from_utf8 (kernel.exchange st.side msg).1 seq code op (some status) a read
          ∙ ap ok (means status errno)))

  -- Either answer settles a message.
  pub send_acked :
      (op : PbrOp) (msg : List ℕ) (st : PbrState K)
      → (send_pbr_message_classified kernel op msg st).1 ≡ ok acked
      → (send_pbr_message kernel op msg st).1 ≡ ok tt
  unfolding send_pbr_message
  send_acked op msg st e = ground arith

  pub send_noop :
      (op : PbrOp) (msg : List ℕ) (st : PbrState K)
      → (send_pbr_message_classified kernel op msg st).1 ≡ ok noop
      → (send_pbr_message kernel op msg st).1 ≡ ok tt
  unfolding send_pbr_message
  send_noop op msg st e = ground arith

  pub same_side :
      (op : PbrOp) (msg : List ℕ) (st : PbrState K)
      → (send_pbr_message kernel op msg st).0.side
        ≡ (send_pbr_message_classified kernel op msg st).0.side
  unfolding send_pbr_message
  same_side op msg st = refl

  -- A message that it refuses for any other reason has failed.
  pub sent_failed :
      (op : PbrOp) (msg : List ℕ) (st : PbrState K) (seq code : ℕ)
      → (read_nlmsghdr msg).nlmsg_seq ≡ seq
      → 0 < code
      → code < 2 ^ 32
      → ((status : AckErrorInfo)
          → status.errno ≡ 2 ^ 32 - code
          → classify_pbr_ack op (some status) ≡ kernel_err)
      → let after = kernel.exchange st.side msg in
        Acknowledges after.1 seq code
        → let sent = send_pbr_message kernel op msg st in
          (sent.1 ≡ err (netlink pbr_failed)) × (sent.0.side ≡ after.0)
  unfolding send_pbr_message
  sent_failed op msg st seq code number p h means a =
      let (status, read, errno) = failure_read kernel.from_utf8 code a.added p h in
      let (class, side) = exchanged op msg st kernel_err a.taken (
        rw number (
          answered kernel.from_utf8 (kernel.exchange st.side msg).1 seq code op (some status) a read
          ∙ ap ok (means status errno))) in
      (ground (arith, class), side)
