-- ===== src/Logger/Lines.antt =====
-- One line of the log for an event, src/logger.rs.
use addrsyncd.Base.{
  ℕ, zero, suc, ◌-◌, ◌≡◌, refl, Bool, true, false, List, [], ◌∷◌, ◌++◌, arith, if◌then◌else◌,
  Bool-cases, inl, inr, length, take, All,
}
use addrsyncd.Base.Texts.{Text, codes, is_empty_text}
use addrsyncd.Base.Splitting.{lacks, lacks-append}
use addrsyncd.Config.Load.{Level, error_level, warn_level, info_level, debug_level}
use addrsyncd.Logger.{
  FieldValue, str, bool, usize, u64, u32, i32, u128, display, Field, tag, any_special, needs_quote,
  escaped, append_quoted_text, append_value, key_byte, append_key, with_value, append_fields,
  build_line_into,
}
use addrsyncd.Logger.Quoting.{escaped_or, escape_text, append_quoted, append_plain}

-- What a value shows has no newline; any text may be given as a text.
abbrev pub shown_on_line : FieldValue → Bool
shown_on_line (str value) = true
shown_on_line (bool value) = true
shown_on_line (usize shown) = lacks 10 shown
shown_on_line (u64 shown) = lacks 10 shown
shown_on_line (u32 shown) = lacks 10 shown
shown_on_line (i32 shown) = lacks 10 shown
shown_on_line (u128 shown) = lacks 10 shown
shown_on_line (display shown) = lacks 10 shown

lacks_both : (s t : Text) → lacks 10 s ≡ true → lacks 10 t ≡ true → lacks 10 (s ++ t) ≡ true
lacks_both s t h k = rw (lacks-append 10 s t, h, k) refl

lacks-escaped_or :
    (b : ℕ) (rest : Text) → lacks 10 rest ≡ true → lacks 10 (escaped_or b (escaped b) rest) ≡ true
unfolding lacks escaped
lacks-escaped_or b rest h = ground arith

lacks-escape_text : (s : Text) → lacks 10 (escape_text s) ≡ true
unfolding escape_text
lacks-escape_text [] = unfold lacks in refl
lacks-escape_text (b ∷ bs) = lacks-escaped_or b (escape_text bs) (lacks-escape_text bs)

lacks-plain : (s : Text) → any_special s ≡ false → lacks 10 s ≡ true
unfolding lacks any_special
lacks-plain [] h = refl
lacks-plain (b ∷ bs) h = ground (arith, lacks-plain bs)

lacks-needs_quote : (s : Text) → needs_quote s ≡ false → lacks 10 s ≡ true
unfolding needs_quote
lacks-needs_quote [] h = absurd (ground arith)
lacks-needs_quote (b ∷ bs) h = lacks-plain (b ∷ bs) h

lacks-append_quoted_text :
    (out value : Text) → lacks 10 out ≡ true → lacks 10 (append_quoted_text out value) ≡ true
lacks-append_quoted_text out value h = elim (Bool-cases (needs_quote value)) [
  | inl q ↦ rw (append_quoted out value q) (
      lacks_both (out ++ (34 ∷ [])) (escape_text value ++ (34 ∷ []))
        (lacks_both out (34 ∷ []) h (unfold lacks in refl))
        (lacks_both (escape_text value) (34 ∷ []) (lacks-escape_text value) (unfold lacks in refl)))
  | inr p ↦ rw (append_plain out value p) (lacks_both out value h (lacks-needs_quote value p))
]

lacks-append_value :
    (out : Text) (v : FieldValue)
    → lacks 10 out ≡ true
    → shown_on_line v ≡ true
    → lacks 10 (append_value out v) ≡ true
unfolding append_value
lacks-append_value out (str value) h s = lacks-append_quoted_text out value h
lacks-append_value out (bool true) h s = lacks_both out (codes "true") h (unfold lacks in refl)
lacks-append_value out (bool false) h s = lacks_both out (codes "false") h (unfold lacks in refl)
lacks-append_value out (usize shown) h s = lacks_both out shown h s
lacks-append_value out (u64 shown) h s = lacks_both out shown h s
lacks-append_value out (u32 shown) h s = lacks_both out shown h s
lacks-append_value out (i32 shown) h s = lacks_both out shown h s
lacks-append_value out (u128 shown) h s = lacks_both out shown h s
lacks-append_value out (display shown) h s = lacks_both out shown h s

lacks-key_byte : (b : ℕ) → lacks 10 (key_byte b ∷ []) ≡ true
unfolding lacks key_byte
lacks-key_byte b = ground arith

lacks-append_key :
    (out key : Text) (wrote_any : Bool)
    → lacks 10 out ≡ true
    → lacks 10 (append_key out wrote_any key).0 ≡ true
unfolding append_key
lacks-append_key out [] w h = h
lacks-append_key out (b ∷ bs) w h =
    lacks-append_key (out ++ (key_byte b ∷ [])) bs true
      (lacks_both out (key_byte b ∷ []) h (lacks-key_byte b))

lacks-take : (n : ℕ) (s : Text) → lacks 10 s ≡ true → lacks 10 (take n s) ≡ true
unfolding lacks
lacks-take zero s h = refl
lacks-take (suc n) [] h = refl
lacks-take (suc n) (c ∷ cs) h = ground (arith, lacks-take n cs)

lacks-with_value :
    (named : Text × Bool) (value : FieldValue)
    → lacks 10 named.0 ≡ true
    → shown_on_line value ≡ true
    → lacks 10 (with_value named value) ≡ true
lacks-with_value (named, true) value h s =
    lacks-append_value (named ++ (61 ∷ [])) value
      (lacks_both named (61 ∷ []) h (unfold lacks in refl)) s
lacks-with_value (named, false) value h s = lacks-take (length named - 3) named h

lacks-append_fields :
    (line : Text) (fields : List Field)
    → lacks 10 line ≡ true
    → All (λ (f : Field). shown_on_line f.1 ≡ true) fields
    → lacks 10 (append_fields line fields) ≡ true
unfolding append_fields
lacks-append_fields line [] h s = h
lacks-append_fields line ((key, value) ∷ fields) h s =
    let barred = lacks_both line (codes " | ") h (unfold lacks in refl) in
    let named = append_key (line ++ codes " | ") false key in
    let kept = lacks-append_key (line ++ codes " | ") key false barred in
    lacks-append_fields (with_value named value) fields (lacks-with_value named value kept s.0) s.1

lacks-tag : (level : Level) → lacks 10 (tag level) ≡ true
unfolding lacks tag
lacks-tag error_level = refl
lacks-tag warn_level = refl
lacks-tag info_level = refl
lacks-tag debug_level = refl

lacks-name :
    (event : Text)
    → lacks 10 event ≡ true
    → lacks 10 (if is_empty_text event then codes "log" else event) ≡ true
lacks-name [] e = unfold lacks in refl
lacks-name (c ∷ cs) e = e

-- One line: a newline at its end and none before.
unfoldable pub IsLine : Text → Type 0
IsLine s = (body : Text) × (s ≡ body ++ (10 ∷ [])) × (lacks 10 body ≡ true)

-- An event takes one line of the log, whatever its keys and its texts hold: if the time stamp, the name
-- of the event and what numbers and displayed values show have no newline, then what is written for it
-- ends with a newline and has no other.
pub build_line_into-IsLine :
    (timestamp event : Text) (level : Level) (fields : List Field)
    → lacks 10 timestamp ≡ true
    → lacks 10 event ≡ true
    → All (λ (f : Field). shown_on_line f.1 ≡ true) fields
    → IsLine (build_line_into [] timestamp level event fields)
unfolding build_line_into IsLine
build_line_into-IsLine timestamp event level fields t e s =
    let front : Text = (codes "[" ++ timestamp) ++ ((codes "] [" ++ tag level) ++ codes "] ") in
    let name : Text = if is_empty_text event then codes "log" else event in
    let stamped = lacks_both (codes "[") timestamp (unfold lacks in refl) t in
    let tagged = lacks_both (codes "] [") (tag level) (unfold lacks in refl) (lacks-tag level) in
    let closed = lacks_both (codes "] [" ++ tag level) (codes "] ") tagged (unfold lacks in refl) in
    let opened =
      lacks_both (codes "[" ++ timestamp) ((codes "] [" ++ tag level) ++ codes "] ") stamped
        closed in
    let named = lacks_both front name opened (lacks-name event e) in
    (append_fields (front ++ name) fields, refl, lacks-append_fields (front ++ name) fields named s)
