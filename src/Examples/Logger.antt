-- ===== src/Examples/Logger.antt =====
-- A line of the log at a concrete event.
use addrsyncd.Base.{arith, true, false, none, ◌≡◌, refl, List, [], ◌∷◌, ◌++◌, some}
use addrsyncd.Base.Texts.{Text, codes, text_eq, text_mem}
use addrsyncd.Base.Splitting.{lacks}
use addrsyncd.Config.Load.{warn_level}
use addrsyncd.Logger.{
  Field, str, u32, append_quoted_text, build_line_into, escaped, is_ascii_whitespace,
}
use addrsyncd.Logger.Quoting.{read_text, read_text-append_quoted_text}
use addrsyncd.Logger.Lines.{IsLine, build_line_into-IsLine}
use addrsyncd.Logger.Whole.{line_of, build_line_into-line_of}
use addrsyncd.Logger.Rate.{Call, answers, ideal_answers}
use addrsyncd.Logger.Rate.Ideal.{answers-ideal_answers}

abbrev stamp : Text
stamp = codes "2024-05-01 10:20:30.007"

abbrev fields : List Field
fields =
    (codes "op addr", str (codes "two\nlines"))
    ∷ (codes "", str (codes "lost"))
    ∷ (codes "errno", u32 (codes "17"))
    ∷ []

abbrev event_name : Text
event_name = codes "rule.ack_failed"

warn_line :
    build_line_into [] stamp warn_level event_name fields
    ≡ codes "[2024-05-01 10:20:30.007] [W] rule.ack_failed | op_addr=\"two\\nlines\" | errno=17\n"
unfolding build_line_into escaped
warn_line = refl

read_text-append_quoted_text_example :
    read_text (append_quoted_text [] (codes "a \"b\"\n") ++ codes " | errno=17")
    ≡ some (codes "a \"b\"\n", codes " | errno=17")
unfolding is_ascii_whitespace
read_text-append_quoted_text_example =
    read_text-append_quoted_text (codes "a \"b\"\n") (codes " | errno=17") refl

build_line_into-IsLine_example : IsLine (build_line_into [] stamp warn_level event_name fields)
unfolding lacks
build_line_into-IsLine_example =
    build_line_into-IsLine stamp event_name warn_level fields refl refl (refl, (refl, (refl, tt)))

build_line_into-line_of_example :
    build_line_into [] stamp warn_level event_name fields
    ≡ [] ++ line_of stamp warn_level event_name fields
build_line_into-line_of_example = build_line_into-line_of [] stamp event_name warn_level fields

abbrev log_keys : List Text
log_keys = codes "netlink_event_drop" ∷ codes "rule_batch_noop_prefilter" ∷ []

abbrev log_calls : List Call
log_calls =
    (codes "netlink_event_drop", (5, 10))
    ∷ (codes "rule_batch_noop_prefilter", (2, 11))
    ∷ (codes "netlink_event_drop", (5, 14))
    ∷ (codes "netlink_event_drop", (5, 15))
    ∷ []

limited : answers [] log_calls ≡ true ∷ true ∷ false ∷ true ∷ []
unfolding answers text_eq
limited = refl

answers-ideal_answers_example :
    answers [] log_calls ≡ ideal_answers (λ (key : Text). none) log_calls
unfolding text_mem
answers-ideal_answers_example =
    answers-ideal_answers log_keys log_calls (omega arith) (refl, (refl, (refl, (refl, tt))))
