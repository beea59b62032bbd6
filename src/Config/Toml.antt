-- ===== src/Config/Toml.antt =====
-- `parse_toml` of src/config.rs: the file line by line.
pub mod Tables
pub mod Counts
pub mod Errors
pub mod Printed
use addrsyncd.Base.{
  ℕ, ◌+◌, Bool, true, false, not, List, [], ◌∷◌, ◌++◌, if◌then◌else◌, Option, none, some, Result,
  ok, err, ◌>>=◌,
}
use addrsyncd.Base.Texts.{
  Text, is_empty_text, trim, starts_with, ends_with, inside, split_once, lines,
}
use addrsyncd.Config.{
  TomlTable, TomlValue, ConfigError, parse_err, get, contains_key, put, malformed_section_header,
  empty_section_name, expected_key_value, empty_key, key_outside_of_section,
  section_not_initialized, duplicate_key,
}
use addrsyncd.Config.Comment.{strip_comment}
use addrsyncd.Config.Value.{parse_value}

-- The local variables of the loop.
pub record Parser : Type 0 where
  pub table : TomlTable
  pub current_section : Option Text

unfoldable pub parse_section : ℕ → Text → Parser → Result ConfigError Parser
unfolding parse_err
parse_section line_no line p =
    let name = trim (inside line) in
    if not (ends_with b']' line)
    then err (parse_err line_no malformed_section_header)
    else if is_empty_text name
    then err (parse_err line_no empty_section_name)
    else ok (record p {
      table = if contains_key name p.table then p.table else put name [] p.table;
      current_section = some name;
    })

-- The value goes into the section that is open.
unfoldable pub store : ℕ → Text → Text → TomlValue → Parser → Result ConfigError Parser
unfolding parse_err
store line_no name key value p = elim (get name p.table) [
  | none ↦ err (parse_err line_no section_not_initialized)
  | some section ↦
      if contains_key key section
      then err (parse_err line_no (duplicate_key key name))
      else ok (record p { table = put name (put key value section) p.table })
]

unfoldable pub parse_key_value : ℕ → Text → Text → Parser → Result ConfigError Parser
unfolding store parse_value parse_err
parse_key_value line_no key val_str p =
    if is_empty_text key then err (parse_err line_no empty_key) else elim p.current_section [
      | none ↦ err (parse_err line_no key_outside_of_section)
      | some name ↦
          if is_empty_text name
          then err (parse_err line_no key_outside_of_section)
          else parse_value val_str line_no >>= (λ value. store line_no name key value p)
    ]

unfoldable pub parse_line : ℕ → Text → Parser → Result ConfigError Parser
unfolding parse_section parse_key_value strip_comment parse_err
parse_line line_no raw_line p =
    let line = trim (strip_comment raw_line) in
    if is_empty_text line
    then ok p
    else if starts_with b'[' line
    then parse_section line_no line p
    else elim (split_once b'=' line) [
      | none ↦ err (parse_err line_no expected_key_value)
      | some (key, val_str) ↦ parse_key_value line_no (trim key) (trim val_str) p
    ]

unfoldable pub parse_lines : ℕ → List Text → Parser → Result ConfigError Parser
unfolding parse_line
parse_lines line_no [] p = ok p
parse_lines line_no (raw_line ∷ rest) p =
    parse_line line_no raw_line p >>= parse_lines (line_no + 1) rest

abbrev pub no_lines : Parser
no_lines = record { table = []; current_section = none }

unfoldable pub parse_toml : Text → Result ConfigError TomlTable
unfolding parse_lines
parse_toml text = parse_lines 0 (lines text) no_lines >>= (λ p. ok p.table)
