-- ===== src/Examples/Pbr.antt =====
-- A system that answers the requests of src/netlink/pbr.rs, and a request against it.
use addrsyncd.Base.{
  ℕ, zero, suc, ◌^◌, ◌<◌, ◌≡◌, refl, ap, ◌∙◌, true, false, List, [], ◌∷◌, ◌++◌, arith, ◌==◌,
  if◌then◌else◌, ok, Option, none, replicate,
}
use addrsyncd.Base.Bytes.{le_bytes}
use addrsyncd.LinuxTypes.{
  NlmsgHdr, read_nlmsghdr, rtm_newroute, rtm_delroute, rtm_newrule, rtm_delrule,
}
use addrsyncd.Codec.Message.{items}
use addrsyncd.Codec.Message.Walk.{frame}
use addrsyncd.Rule.Apply.{packets}
use addrsyncd.Dump.{readable}
use addrsyncd.Cli.{PbrRequest, apply, ipv4}
use addrsyncd.Pbr.{pbr_header, rule_flags, route_flags, build_pbr_rule_message}
use addrsyncd.Pbr.Exchange.{Exchange, Kernel, PbrState}
use addrsyncd.Pbr.Request.{rule_message, route_message, run_request}
use addrsyncd.Pbr.Frames.{
  rule_body, build_pbr_rule_message-header, build_pbr_route_message-header,
  items-build_pbr_rule_message,
}
use addrsyncd.Pbr.Acks.{Acknowledges}
use addrsyncd.Pbr.Behaves.{Target, IsSeq, Behaves}
use addrsyncd.Pbr.Refines.{intended, ending, Reaches, run_request-Reaches}

abbrev no_text : List ℕ → Option (List ℕ)
no_text bytes = none

abbrev ack_header : ℕ → NlmsgHdr
ack_header seq = record {
  nlmsg_len = 36;
  nlmsg_type = 2;
  nlmsg_flags = 0;
  nlmsg_seq = seq;
  nlmsg_pid = 0;
}

abbrev ack_body : ℕ → List ℕ
ack_body code = le_bytes 4 code ++ replicate 16 0

-- The codes are 0, `-ENOENT`, `-ESRCH` and `-EEXIST`.
abbrev answer : ℕ → ℕ → Exchange
answer seq code = record {
  send_result = ok tt;
  rounds = (packets (frame (ack_header seq) (ack_body code) ∷ []), readable) ∷ [];
}

abbrev delete_one : Target → ℕ → Target × Exchange
delete_one t seq = elim t.rules [
  | zero ↦ (t, answer seq 4294967294)
  | suc n ↦ (record t { rules = n }, answer seq 0)
]

abbrev add_one : Target → ℕ → Target × Exchange
add_one t seq = elim t.rules [
  | zero ↦ (record t { rules = 1 }, answer seq 0)
  | suc n ↦ (t, answer seq 4294967279)
]

abbrev drop_route : Target → ℕ → Target × Exchange
drop_route t seq =
    if t.route then (record t { route = false }, answer seq 0) else (t, answer seq 4294967293)

abbrev answer_to : NlmsgHdr → Target → Target × Exchange
answer_to h t =
    if h.nlmsg_type == rtm_delrule
    then delete_one t h.nlmsg_seq
    else if h.nlmsg_type == rtm_newrule
    then add_one t h.nlmsg_seq
    else if h.nlmsg_type == rtm_newroute
    then (record t { route = true }, answer h.nlmsg_seq 0)
    else drop_route t h.nlmsg_seq

abbrev system : Kernel Target
system = record { from_utf8 = no_text; exchange = λ t msg. answer_to (read_nlmsghdr msg) t }

answer-Acknowledges : (seq code : ℕ) → IsSeq seq → Acknowledges (answer seq code) seq code
answer-Acknowledges seq code h = record {
  taken = refl;
  view = record { header = ack_header seq; body = ack_body code };
  whole = ((omega arith, omega arith, omega arith, h, omega arith), unfold le_bytes in refl);
  is_error = refl;
  numbered = refl;
  added = replicate 16 0;
  says = refl;
  wait = readable;
  later = [];
  arrives = refl;
}

system_answers :
    (msg : List ℕ) (h : NlmsgHdr) (t after : Target) (seq code : ℕ)
    → read_nlmsghdr msg ≡ h
    → answer_to h t ≡ (after, answer seq code)
    → IsSeq seq
    → let sent = system.exchange t msg in Acknowledges sent.1 seq code × (sent.0 ≡ after)
system_answers msg h t after seq code header step number =
    let whole : system.exchange t msg ≡ (after, answer seq code) =
      ap (λ (x : NlmsgHdr). answer_to x t) header ∙ step in
    rw whole (answer-Acknowledges seq code number, refl)

abbrev some_request : PbrRequest
some_request = record {
  action = apply;
  family = ipv4;
  mark = 16;
  mask = 255;
  table = 100;
  pref = 1000;
}

rule_header :
    (typ seq : ℕ)
    → typ < 2 ^ 16
    → IsSeq seq
    → read_nlmsghdr (rule_message typ some_request seq) ≡ pbr_header 60 typ (rule_flags typ) seq
unfolding rule_message
rule_header typ seq = build_pbr_rule_message-header typ 2 16 255 100 1000 seq

route_header :
    (typ seq : ℕ)
    → typ < 2 ^ 16
    → IsSeq seq
    → read_nlmsghdr (route_message typ some_request 1 seq) ≡ pbr_header 44 typ (route_flags typ) seq
unfolding route_message
route_header typ seq = build_pbr_route_message-header typ 2 100 1 seq

system-Behaves : Behaves system some_request 1 (λ (t : Target). t) true
unfolding pbr_header
system-Behaves = record {
  deletes_rule = λ t seq n hs e.
      system_answers (rule_message rtm_delrule some_request seq) _ t (record t { rules = n }) seq 0
        (rule_header rtm_delrule seq (omega arith) hs) (rw e refl) hs;
  misses_rule = λ t seq hs e.
      system_answers (rule_message rtm_delrule some_request seq) _ t t seq 4294967294
        (rule_header rtm_delrule seq (omega arith) hs) (rw e refl) hs;
  deletes_route = λ t seq hs e.
      system_answers (route_message rtm_delroute some_request 1 seq) _ t
        (record t { route = false }) seq 0 (route_header rtm_delroute seq (omega arith) hs)
        (rw e refl) hs;
  misses_route = λ t seq hs e.
      system_answers (route_message rtm_delroute some_request 1 seq) _ t t seq 4294967293
        (route_header rtm_delroute seq (omega arith) hs) (rw e refl) hs;
  replaces_route = λ t seq hs.
      system_answers (route_message rtm_newroute some_request 1 seq) _ t (record t { route = true })
        seq 0 (route_header rtm_newroute seq (omega arith) hs) refl hs;
  adds_rule = λ t seq hs g e.
      system_answers (rule_message rtm_newrule some_request seq) _ t (record t { rules = 1 }) seq 0
        (rule_header rtm_newrule seq (omega arith) hs) (rw e refl) hs;
  refuses_rule = λ t seq n hs g e.
      system_answers (rule_message rtm_newrule some_request seq) _ t t seq 4294967279
        (rule_header rtm_newrule seq (omega arith) hs) (rw e refl) hs;
  denies_rule = λ t seq hs g. absurd (ground (arith, g));
}

abbrev two_rules : PbrState Target
two_rules = record { next = 7; side = record { rules = 2; route = false }; sent = [] }

run_request-Reaches_example :
    Reaches
      (λ (t : Target). t)
      (ending true apply)
      (intended true apply two_rules.side)
      (run_request system some_request (ok tt) 1 two_rules)
run_request-Reaches_example =
    run_request-Reaches system some_request 1 (λ (t : Target). t) true system-Behaves two_rules
      (omega arith) refl

items-build_pbr_rule_message_example :
    items (build_pbr_rule_message 32 2 16 255 100 1000 7)
    ≡ ok
        (record { header = pbr_header 60 32 (rule_flags 32) 7; body = rule_body 2 16 255 100 1000 })
      ∷ []
items-build_pbr_rule_message_example =
    items-build_pbr_rule_message 32 2 16 255 100 1000 7 (omega arith) (omega arith)
