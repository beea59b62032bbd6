-- ===== src/Config/Comment.antt =====
-- `strip_comment` of src/config.rs: the comment of a line starts at a `#` outside quotes.
use addrsyncd.Base.{ℕ, Bool, true, false, ◌||◌, [], ◌∷◌, ◌==◌, if◌then◌else◌, Option, none, some}
use addrsyncd.Base.Texts.{Text}

-- The quote that is open and whether the character before escapes, after one more character; `none`
-- if a comment starts at it.
unfoldable pub next_quote : Option ℕ → Bool → ℕ → Option (Option ℕ × Bool)
next_quote none escaped ch =
    if ch == b'"' || ch == b'\''
    then some (some ch, escaped)
    else if ch == b'#'
    then none
    else some (none, escaped)
next_quote (some q) escaped ch =
    if q == b'"'
    then if escaped
      then some (some q, false)
      else if ch == b'\\'
      then some (some q, true)
      else if ch == b'"'
      then some (none, escaped)
      else some (some q, escaped)
    else if q == b'\''
    then if ch == b'\'' then some (none, escaped) else some (some q, escaped)
    else some (some q, escaped)

unfoldable pub strip_from : Option ℕ → Bool → Text → Text
unfolding next_quote
strip_from quote escaped [] = []
strip_from quote escaped (ch ∷ rest) = elim (next_quote quote escaped ch) [
  | none ↦ []
  | some (quote', escaped') ↦ ch ∷ strip_from quote' escaped' rest
]

unfoldable pub strip_comment : Text → Text
unfolding strip_from
strip_comment line = strip_from none false line
