-- ===== src/Logger/Whole.antt =====
-- What a line of the log is made of, apart from how src/logger.rs builds it up.
use addrsyncd.Base.{
  ℕ, ◌-◌, ◌≡◌, refl, sym, ◌∙◌, ap, Bool, true, false, List, [], ◌∷◌, ◌++◌, arith, map,
  if◌then◌else◌, Bool-cases, inl, inr, length, length-append, take-append_of_length,
}
use mathlib.Core.List.{append_assoc, append-nil}
use addrsyncd.Base.Texts.{Text, codes, is_empty_text}
use addrsyncd.Config.Load.{Level}
use addrsyncd.Logger.{
  FieldValue, str, bool, usize, u64, u32, i32, u128, display, Field, tag, needs_quote, append_value,
  key_byte, append_key, with_value, append_fields, build_line_into,
}
use addrsyncd.Logger.Quoting.{escape_text, append_quoted, append_plain}

unfoldable pub value_text : FieldValue → Text
unfolding needs_quote escape_text
value_text (str value) = if needs_quote value then 34 ∷ escape_text value ++ (34 ∷ []) else value
value_text (bool value) = if value then codes "true" else codes "false"
value_text (usize shown) = shown
value_text (u64 shown) = shown
value_text (u32 shown) = shown
value_text (i32 shown) = shown
value_text (u128 shown) = shown
value_text (display shown) = shown

-- A field without a key is left out.
unfoldable pub field_text : Field → Text
unfolding value_text key_byte
field_text ([], value) = []
field_text (b ∷ bs, value) = codes " | " ++ map key_byte (b ∷ bs) ++ (codes "=" ++ value_text value)

unfoldable pub fields_text : List Field → Text
unfolding field_text
fields_text [] = []
fields_text (field ∷ fields) = field_text field ++ fields_text fields

unfoldable pub line_of : Text → Level → Text → List Field → Text
unfolding tag fields_text
line_of timestamp level event fields =
    codes "["
    ++ (timestamp
        ++ (codes "] ["
            ++ (tag level
                ++ (codes "] "
                    ++ ((if is_empty_text event then codes "log" else event)
                        ++ (fields_text fields ++ codes "\n"))))))

append_value-value_text : (out : Text) (v : FieldValue) → append_value out v ≡ out ++ value_text v
unfolding append_value value_text
append_value-value_text out (str value) = elim (Bool-cases (needs_quote value)) [
  | inl q ↦
      rw (append_quoted out value q, q)
        (append_assoc out (34 ∷ []) (escape_text value ++ (34 ∷ [])))
  | inr p ↦ rw (append_plain out value p, p) refl
]
append_value-value_text out (bool value) = refl
append_value-value_text out (usize shown) = refl
append_value-value_text out (u64 shown) = refl
append_value-value_text out (u32 shown) = refl
append_value-value_text out (i32 shown) = refl
append_value-value_text out (u128 shown) = refl
append_value-value_text out (display shown) = refl

append_key_written : (out key : Text) → append_key out true key ≡ (out ++ map key_byte key, true)
unfolding append_key
append_key_written out [] = ap (λ (s : Text). (s, true)) (sym (append-nil out))
append_key_written out (b ∷ bs) =
    append_key_written (out ++ (key_byte b ∷ [])) bs
    ∙ ap (λ (s : Text). (s, true)) (append_assoc out (key_byte b ∷ []) (map key_byte bs))

append_key_first :
    (out : Text) (b : ℕ) (bs : Text)
    → append_key out false (b ∷ bs) ≡ append_key (out ++ (key_byte b ∷ [])) true bs
unfolding append_key
append_key_first out b bs = refl

-- The separator that is taken back leaves the line as it was.
with_value_unnamed :
    (line : Text) (value : FieldValue)
    → with_value (append_key (line ++ codes " | ") false []) value ≡ line
unfolding append_key
with_value_unnamed line value =
    let whole = length-append line (codes " | ") in
    take-append_of_length (length (line ++ codes " | ") - 3) line (codes " | ") (omega arith)

with_value-field_text :
    (line key : Text) (value : FieldValue)
    → with_value (append_key (line ++ codes " | ") false key) value
      ≡ line ++ field_text (key, value)
with_value-field_text line [] value =
    with_value_unnamed line value ∙ (unfold field_text in sym (append-nil line))
with_value-field_text line (b ∷ bs) value =
    let start : Text = (line ++ codes " | ") ++ (key_byte b ∷ []) in
    ap (λ (named : Text × Bool). with_value named value)
      (append_key_first (line ++ codes " | ") b bs ∙ append_key_written start bs)
    ∙ append_value-value_text ((start ++ map key_byte bs) ++ codes "=") value
    ∙ (unfold field_text in simp append_assoc)

append_fields-fields_text :
    (line : Text) (fields : List Field) → append_fields line fields ≡ line ++ fields_text fields
unfolding append_fields fields_text
append_fields-fields_text line [] = sym (append-nil line)
append_fields-fields_text line ((key, value) ∷ fields) =
    append_fields-fields_text (with_value (append_key (line ++ codes " | ") false key) value) fields
    ∙ ap (λ (s : Text). s ++ fields_text fields) (with_value-field_text line key value)
    ∙ append_assoc line (field_text (key, value)) (fields_text fields)

-- The line that is built up piece by piece, with separators taken back, is the time stamp and the letter
-- of the level in brackets, the name of the event or `log`, and each field that has a key: a bar, the key
-- with other characters than letters, digits and `_-.` replaced, and the value, quoted where it must be.
pub build_line_into-line_of :
    (line timestamp event : Text) (level : Level) (fields : List Field)
    → build_line_into line timestamp level event fields
      ≡ line ++ line_of timestamp level event fields
unfolding build_line_into line_of
build_line_into-line_of line timestamp event level fields =
    let name : Text = if is_empty_text event then codes "log" else event in
    let front : Text =
      ((line ++ codes "[") ++ timestamp) ++ ((codes "] [" ++ tag level) ++ codes "] ") in
    rw (append_fields-fields_text (front ++ name) fields) (simp append_assoc)
