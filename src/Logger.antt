-- ===== src/Logger.antt =====
-- The text of a line of the log, src/logger.rs: `build_line_into` and what it calls. The time stamp and
-- what the standard library's `Display` writes for a value are arguments. The source goes through the
-- bytes of UTF-8, this model through code points; all tests are on ASCII.
pub mod Quoting
pub mod Lines
pub mod Whole
pub mod Rate
use addrsyncd.Base.{
  ℕ, ◌-◌, Bool, true, false, ◌&&◌, ◌||◌, List, [], ◌∷◌, ◌++◌, leb, ◌==◌, if◌then◌else◌, Option,
  none, some, length, take,
}
use addrsyncd.Base.Texts.{Text, codes, is_empty_text}
use addrsyncd.Config.Load.{Level, error_level, warn_level, info_level, debug_level}

-- Numbers and displayed values stand with what `write!` makes of them.
pub data FieldValue : Type 0 where
  str : Text → FieldValue
  bool : Bool → FieldValue
  usize u64 u32 i32 u128 display : Text → FieldValue

abbrev pub Field : Type 0
Field = Text × FieldValue

unfoldable pub tag : Level → Text
tag error_level = codes "E"
tag warn_level = codes "W"
tag info_level = codes "I"
tag debug_level = codes "D"

unfoldable pub is_ascii_whitespace : ℕ → Bool
is_ascii_whitespace b = b == 32 || (b == 9 || (b == 10 || (b == 12 || b == 13)))

unfoldable pub any_special : Text → Bool
unfolding is_ascii_whitespace
any_special [] = false
any_special (b ∷ bs) = (is_ascii_whitespace b || (b == 34 || b == 92)) || any_special bs

unfoldable pub needs_quote : Text → Bool
unfolding any_special
needs_quote value = if is_empty_text value then true else any_special value

unfoldable pub escaped : ℕ → Option Text
escaped b =
    if b == 34
    then some (codes "\\\"")
    else if b == 92
    then some (codes "\\\\")
    else if b == 10
    then some (codes "\\n")
    else if b == 13
    then some (codes "\\r")
    else if b == 9
    then some (codes "\\t")
    else none

-- After one more byte, what is copied and what is not.
abbrev pub copied : Text → Text → ℕ → Option Text → Text × Text
copied out pending b (some text) = ((out ++ pending) ++ text, [])
copied out pending b none = (out, pending ++ (b ∷ []))

-- `pending` is `&value[last..idx]`, what is not copied yet.
unfoldable pub quote_loop : Text → Text → Text → Text
quote_loop out pending [] = out ++ pending
quote_loop out pending (b ∷ bs) =
    let (out', pending') = copied out pending b (escaped b) in quote_loop out' pending' bs

unfoldable pub append_quoted_text : Text → Text → Text
unfolding needs_quote quote_loop
append_quoted_text out value =
    if needs_quote value then quote_loop (out ++ (34 ∷ [])) [] value ++ (34 ∷ []) else out ++ value

unfoldable pub append_value : Text → FieldValue → Text
unfolding append_quoted_text
append_value out (str value) = append_quoted_text out value
append_value out (bool value) = out ++ (if value then codes "true" else codes "false")
append_value out (usize shown) = out ++ shown
append_value out (u64 shown) = out ++ shown
append_value out (u32 shown) = out ++ shown
append_value out (i32 shown) = out ++ shown
append_value out (u128 shown) = out ++ shown
append_value out (display shown) = out ++ shown

unfoldable pub key_byte : ℕ → ℕ
key_byte b =
    if (leb 48 b && leb b 57)
      || ((leb 65 b && leb b 90) || ((leb 97 b && leb b 122) || (b == 95 || (b == 45 || b == 46))))
    then b
    else 95

-- The line, and whether anything was written.
unfoldable pub append_key : Text → Bool → Text → Text × Bool
unfolding key_byte
append_key out wrote_any [] = (out, wrote_any)
append_key out wrote_any (b ∷ bs) = append_key (out ++ (key_byte b ∷ [])) true bs

-- A key that is empty takes the separator back, `truncate`.
abbrev pub with_value : Text × Bool → FieldValue → Text
with_value (named, true) value = append_value (named ++ (61 ∷ [])) value
with_value (named, false) value = take (length named - 3) named

unfoldable pub append_fields : Text → List Field → Text
unfolding append_key append_value
append_fields line [] = line
append_fields line ((key, value) ∷ fields) =
    append_fields (with_value (append_key (line ++ codes " | ") false key) value) fields

unfoldable pub build_line_into : Text → Text → Level → Text → List Field → Text
unfolding tag append_fields
build_line_into line timestamp level event fields =
    let stamped =
      ((line ++ codes "[") ++ timestamp) ++ ((codes "] [" ++ tag level) ++ codes "] ") in
    let named = stamped ++ (if is_empty_text event then codes "log" else event) in
    append_fields named fields ++ (10 ∷ [])
