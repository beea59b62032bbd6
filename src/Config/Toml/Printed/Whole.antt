-- ===== src/Config/Toml/Printed/Whole.antt =====
-- The round trip of a whole text: src/config.rs cuts it into lines with `str::lines`.
use addrsyncd.Base.{
  ℕ, ◌≡◌, refl, ap, ◌∙◌, Bool, true, false, ◌&&◌, List, [], ◌∷◌, ◌++◌, arith, ◌==◌, none, ok, All,
  All-append,
}
use mathlib.Core.List.{append_assoc}
use addrsyncd.Base.Texts.{Text, is_white, split, strip_cr, end_lines, lines}
use addrsyncd.Base.Splitting.{lacks, lacks-append, split_cons, split-append}
use addrsyncd.Config.Toml.{parse_toml}
use addrsyncd.Config.Toml.Tables.{distinct_keys}
use addrsyncd.Config.Toml.Printed.{
  is_plain, all_plain, plain_name, escape, print_string, print_entry, print_header,
}
use addrsyncd.Config.Toml.Printed.RoundTrip.{
  Entries, Document, print_entries, print_document, table_of, plain_keys, sections_writable,
  parse_lines-print_document,
}

unfoldable pub unlines : List Text → Text
unlines [] = []
unlines (line ∷ rest) = line ++ (b'\n' ∷ unlines rest)

unfoldable pub print_toml : Document → Text
unfolding unlines print_document
print_toml doc = unlines (print_document doc)

-- Whether a document can be written: its names are plain, and none occurs twice.
unfoldable pub writable : Document → Bool
unfolding plain_keys sections_writable table_of distinct_keys
writable doc = plain_keys doc && (sections_writable doc && distinct_keys (table_of doc))

-- A line that `lines` gives back as it is.
abbrev Kept : Text → Type 0
Kept line = (lacks b'\n' line ≡ true) × (strip_cr line ≡ line)

lacks_plain : (s : Text) → all_plain s ≡ true → lacks b'\n' s ≡ true
unfolding lacks all_plain is_plain is_white
lacks_plain [] h = refl
lacks_plain (c ∷ cs) h = ground (arith, lacks_plain cs)

lacks-escape : (s : Text) → lacks b'\n' (escape s) ≡ true
unfolding lacks escape
lacks-escape [] = refl
lacks-escape (c ∷ cs) = ground (arith, lacks-escape cs)

strip_cr-append :
    (s : Text) (c : ℕ) → (c == b'\r') ≡ false → strip_cr (s ++ (c ∷ [])) ≡ s ++ (c ∷ [])
unfolding strip_cr
strip_cr-append [] c h = ground arith
strip_cr-append (x ∷ []) c h = ground arith
strip_cr-append (x ∷ y ∷ s) c h = ap (◌∷◌ x) (strip_cr-append (y ∷ s) c h)

lines_line : (line rest : Text) → Kept line → lines (line ++ (b'\n' ∷ rest)) ≡ line ∷ lines rest
unfolding lines end_lines
lines_line line rest k =
    let (a, parts, e) = split_cons b'\n' rest in rw (split-append b'\n' line rest k.0, e, k.1) refl

lines-unlines : (all_lines : List Text) → All Kept all_lines → lines (unlines all_lines) ≡ all_lines
unfolding unlines
lines-unlines [] h = unfold lines end_lines split in refl
lines-unlines (line ∷ rest) h =
    lines_line line (unlines rest) h.0 ∙ ap (◌∷◌ line) (lines-unlines rest h.1)

print_header-Kept : (name : Text) → plain_name name ≡ true → Kept (print_header name)
unfolding print_header plain_name lacks
print_header-Kept name h = (
  ground (arith, lacks-append b'\n' name (b']' ∷ []), lacks_plain name),
  strip_cr-append (b'[' ∷ name) b']' refl,
)

print_entry-Kept : (key s : Text) → plain_name key ≡ true → Kept (print_entry key s)
unfolding print_entry print_string plain_name lacks
print_entry-Kept key s h =
    let front : Text = key ++ (b' ' ∷ b'=' ∷ b' ' ∷ b'"' ∷ escape s) in
    let whole = append_assoc key (b' ' ∷ b'=' ∷ b' ' ∷ b'"' ∷ escape s) (b'"' ∷ []) in
    (
      ground (
        arith,
        lacks-append b'\n' key (b' ' ∷ b'=' ∷ b' ' ∷ b'"' ∷ escape s ++ (b'"' ∷ [])),
        lacks-append b'\n' (escape s) (b'"' ∷ []),
        lacks_plain key,
        lacks-escape s,
      ),
      rw (← whole) (strip_cr-append front b'"' refl),
    )

print_entries-Kept :
    (entries : Entries) → plain_keys entries ≡ true → All Kept (print_entries entries)
unfolding print_entries plain_keys
print_entries-Kept [] h = tt
print_entries-Kept ((key, s) ∷ entries) h =
    (print_entry-Kept key s (ground arith), print_entries-Kept entries (ground arith))

print_document-Kept :
    (doc : Document)
    → plain_keys doc ≡ true
    → sections_writable doc ≡ true
    → All Kept (print_document doc)
unfolding print_document plain_keys sections_writable
print_document-Kept [] h k = tt
print_document-Kept ((name, entries) ∷ doc) h k = (
  print_header-Kept name (ground arith),
  All-append Kept (print_entries entries) (print_document doc)
      (print_entries-Kept entries (ground arith))
      (print_document-Kept doc (ground arith) (ground arith)),
)

-- A document of string entries whose names are plain and occur once, printed as a text with quotes and
-- escapes, is parsed into the table that holds its sections and strings in order.
pub parse_toml-print_toml :
    (doc : Document) → writable doc ≡ true → parse_toml (print_toml doc) ≡ ok (table_of doc)
unfolding parse_toml print_toml writable
parse_toml-print_toml doc h =
    let cut =
      lines-unlines (print_document doc) (print_document-Kept doc (ground arith) (ground arith)) in
    let read =
      parse_lines-print_document 0 doc [] none (ground arith) (ground arith) (ground arith) in
    rw (cut, read) refl
