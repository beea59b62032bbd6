-- ===== src/Config/Value.antt =====
-- `parse_value`, `parse_array` and `unescape_string` of src/config.rs.
use addrsyncd.Base.{
  ℕ, Bool, true, false, ◌&&◌, ◌||◌, not, List, [], ◌∷◌, ◌++◌, ltb, ◌==◌, if◌then◌else◌, none, some,
  Result, ok, err, ◌>>=◌, length,
}
use addrsyncd.Base.Texts.{
  Text, codes, text_eq, is_empty_text, trim, starts_with, ends_with, inside, split, parse_i64,
}
use addrsyncd.Config.{
  TomlValue, str_value, int_value, bool_value, array_value, ConfigError, parse_err, empty_value,
  malformed_string, unterminated_array, unquoted_element, cannot_parse_value, panicked,
}

-- What a backslash and the character behind it stand for.
unfoldable pub unescaped : ℕ → Text
unescaped c =
    if c == b'n'
    then b'\n' ∷ []
    else if c == b't'
    then b'\t' ∷ []
    else if c == b'\\'
    then b'\\' ∷ []
    else if c == b'"'
    then b'"' ∷ []
    else if c == b'\''
    then b'\'' ∷ []
    else b'\\' ∷ c ∷ []

unfoldable pub unescape_string : Text → Text
unfolding unescaped
unescape_string [] = []
unescape_string (c ∷ []) = c ∷ []
unescape_string (c ∷ d ∷ rest) = elim (c == b'\\') [
  | true ↦ unescaped d ++ unescape_string rest
  | false ↦ c ∷ unescape_string (d ∷ rest)
]

unfoldable pub is_quoted : Text → Bool
is_quoted s = (starts_with b'"' s && ends_with b'"' s) || (starts_with b'\'' s && ends_with b'\'' s)

-- The elements, trimmed; an empty one is passed over. The slice `[1..len - 1]` of one character panics.
unfoldable pub parse_elements : ℕ → List Text → Result ConfigError (List Text)
unfolding is_quoted unescape_string parse_err
parse_elements line_no [] = ok []
parse_elements line_no (raw ∷ parts) =
    let part = trim raw in
    let rest = parse_elements line_no parts in
    if is_empty_text part
    then rest
    else if not (is_quoted part)
    then err (parse_err line_no unquoted_element)
    else if ltb (length part) 2
    then err panicked
    else rest >>= (λ items. ok (unescape_string (inside part) ∷ items))

unfoldable pub parse_array : Text → ℕ → Result ConfigError TomlValue
unfolding parse_elements parse_err
parse_array s line_no =
    let inner = trim (inside s) in
    if not (ends_with b']' s)
    then err (parse_err line_no unterminated_array)
    else if is_empty_text inner
    then ok (array_value [])
    else parse_elements line_no (split b',' inner) >>= (λ items. ok (array_value items))

unfoldable pub parse_value : Text → ℕ → Result ConfigError TomlValue
unfolding is_quoted unescape_string parse_array parse_err
parse_value s line_no =
    if is_empty_text s
    then err (parse_err line_no empty_value)
    else if text_eq s (codes "true")
    then ok (bool_value true)
    else if text_eq s (codes "false")
    then ok (bool_value false)
    else if is_quoted s
    then if ltb (length s) 2
      then err (parse_err line_no malformed_string)
      else ok (str_value (unescape_string (inside s)))
    else if starts_with b'[' s
    then parse_array s line_no
    else elim (parse_i64 s) [
      | some n ↦ ok (int_value n)
      | none ↦ err (parse_err line_no (cannot_parse_value s))
    ]
