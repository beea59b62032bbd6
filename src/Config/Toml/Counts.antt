-- ===== src/Config/Toml/Counts.antt =====
-- How many entries the tables have that `parse_toml` of src/config.rs builds.
use addrsyncd.Base.{
  ℕ, suc, ◌+◌, ◌≡◌, refl, Bool, true, false, not, ◌&&◌, List, [], ◌∷◌, arith, some, Option-cases,
  inl, inr, Result-cases, ok, bind_ok, length, if◌then◌else◌,
}
use addrsyncd.Base.Texts.{Text, is_empty_text, trim, starts_with, inside, split_once, lines}
use addrsyncd.Config.{Section, TomlTable, TomlValue, get, contains_key, put}
use addrsyncd.Config.Comment.{strip_comment}
use addrsyncd.Config.Value.{parse_value}
use addrsyncd.Config.Toml.{
  Parser, parse_section, store, parse_key_value, parse_line, parse_lines, no_lines, parse_toml,
}
use addrsyncd.Config.Toml.Tables.{distinct_keys, distinct_sections, parse_toml-distinct_keys}

-- A line with an entry: without its comment it is not blank and no header of a section.
unfoldable pub is_entry : Text → Bool
is_entry raw_line =
    let line = trim (strip_comment raw_line) in
    not (is_empty_text line) && not (starts_with b'[' line)

unfoldable pub entry_lines : List Text → ℕ
entry_lines [] = 0
entry_lines (raw_line ∷ rest) =
    let more = entry_lines rest in if is_entry raw_line then suc more else more

-- How many entries all sections have.
unfoldable pub stored : TomlTable → ℕ
stored [] = 0
stored ((name, section) ∷ table) = length section + stored table

module _ {ℓ} {V : Type ℓ} where
  length-put :
      (k : Text) (v : V) (m : List (Text × V))
      → contains_key k m ≡ false
      → length (put k v m) ≡ suc (length m)
  unfolding put contains_key
  length-put k v [] h = refl
  length-put k v ((i, w) ∷ m) h = ground (arith, length-put k v m)

stored-put :
    (name : Text) (old new : Section) (table : TomlTable)
    → get name table ≡ some old
    → stored (put name new table) + length old ≡ stored table + length new
unfolding stored put get
stored-put name old new [] e = cc
stored-put name old new ((i, s) ∷ table) e = ground (arith, stored-put name old new table)

stored-put_empty :
    (name : Text) (table : TomlTable)
    → contains_key name table ≡ false
    → stored (put name [] table) ≡ stored table
unfolding stored put contains_key
stored-put_empty name [] h = refl
stored-put_empty name ((i, s) ∷ table) h = ground (arith, stored-put_empty name table)

parse_section-stored :
    (n : ℕ) (line : Text) (p q : Parser)
    → parse_section n line p ≡ ok q
    → stored q.table ≡ stored p.table
unfolding parse_section
parse_section-stored n line p q e = ground (arith, stored-put_empty (trim (inside line)) p.table)

store-stored :
    (n : ℕ) (name key : Text) (value : TomlValue) (p q : Parser)
    → store n name key value p ≡ ok q
    → stored q.table ≡ suc (stored p.table)
unfolding store
store-stored n name key value p q e = elim (Option-cases (get name p.table)) [
  | inl missing ↦ absurd (ground arith)
  | inr (s, found) ↦
      ground (arith, length-put key value s, stored-put name s (put key value s) p.table)
]

parse_key_value-stored :
    (n : ℕ) (key val_str : Text) (p q : Parser)
    → parse_key_value n key val_str p ≡ ok q
    → stored q.table ≡ suc (stored p.table)
unfolding parse_key_value
parse_key_value-stored n key val_str p q e = elim (Option-cases p.current_section) [
  | inl closed ↦ absurd (ground arith)
  | inr (name, opened) ↦ elim (Result-cases (parse_value val_str n)) [
    | inr (x, bad) ↦ absurd (ground arith)
    | inl (value, good) ↦ store-stored n name key value p q (ground arith)
  ]
]

parse_line-stored :
    (n : ℕ) (raw_line : Text) (p q : Parser)
    → parse_line n raw_line p ≡ ok q
    → stored q.table ≡ (if is_entry raw_line then suc (stored p.table) else stored p.table)
unfolding parse_line is_entry
parse_line-stored n raw_line p q e =
    let line : Text = trim (strip_comment raw_line) in
    elim (Option-cases (split_once b'=' line)) [
      | inl no_equals ↦ ground (arith, parse_section-stored n line p q)
      | inr ((key, val_str), found) ↦ ground (
        arith,
        parse_section-stored n line p q,
        parse_key_value-stored n (trim key) (trim val_str) p q,
      )
    ]

parse_lines-stored :
    (n : ℕ) (raw_lines : List Text) (p q : Parser)
    → parse_lines n raw_lines p ≡ ok q
    → stored q.table ≡ stored p.table + entry_lines raw_lines
unfolding parse_lines entry_lines
parse_lines-stored n [] p q e = ground arith
parse_lines-stored n (raw_line ∷ rest) p q e =
    let (r, e0, k0) = bind_ok (parse_line n raw_line p) (parse_lines (n + 1) rest) q e in
    let first = parse_line-stored n raw_line p r e0 in
    ground (arith, parse_lines-stored (n + 1) rest r q k0)

-- No line of a file that parses is lost or overwritten: the table has as many entries as there are
-- lines, apart from comments, blank lines and headers of sections, and no two sections have the same
-- name, nor two entries of a section the same key.
pub parse_toml-stored :
    (text : Text) (table : TomlTable)
    → parse_toml text ≡ ok table
    → (stored table ≡ entry_lines (lines text))
      × (distinct_keys table ≡ true)
      × (distinct_sections table ≡ true)
unfolding parse_toml
parse_toml-stored text table e =
    let (q, e0, k0) = bind_ok (parse_lines 0 (lines text) no_lines) (λ p. ok p.table) table e in
    let kept = parse_lines-stored 0 (lines text) no_lines q e0 in
    let (sections_differ, keys_differ) = parse_toml-distinct_keys text table e in
    (unfold stored in ground (arith, kept), sections_differ, keys_differ)
