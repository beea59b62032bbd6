-- ===== src/Config/Toml/Errors.antt =====
-- Where `parse_toml` of src/config.rs stops at a faulty file, and what it reports.
use addrsyncd.Base.{
  ℕ, suc, ◌+◌, ◌≡◌, refl, Bool, true, false, List, [], ◌∷◌, arith, some, ◌==◌, Option-cases, inl,
  inr, Result-cases, ok, err, bind_err, get_elem?, take,
}
use addrsyncd.Base.Texts.{Text, trim, inside, split, split_once, lines}
use addrsyncd.Config.{ConfigError, TomlValue, parse_err, at_line, panicked, section_not_initialized}
use addrsyncd.Config.Comment.{strip_comment}
use addrsyncd.Config.Value.{parse_elements, parse_array, parse_value}
use addrsyncd.Config.Toml.{
  Parser, parse_section, store, parse_key_value, parse_line, parse_lines, no_lines, parse_toml,
}
use addrsyncd.Config.Toml.Tables.{
  well_formed, section_open, get-contains_key, parse_line-well_formed,
}

-- Whether an error blames line `n`, counted from 0, and is none that cannot happen.
unfoldable pub blames : ℕ → ConfigError → Bool
blames n panicked = true
blames n (at_line m section_not_initialized) = false
blames n (at_line m problem) = m == n + 1
blames n _ = false

parse_elements-blames :
    (n : ℕ) (parts : List Text) (x : ConfigError)
    → parse_elements n parts ≡ err x
    → blames n x ≡ true
unfolding parse_elements parse_err blames
parse_elements-blames n [] x e = cc
parse_elements-blames n (raw ∷ parts) x e = ground (arith, parse_elements-blames n parts x)

parse_value-blames :
    (n : ℕ) (s : Text) (x : ConfigError) → parse_value s n ≡ err x → blames n x ≡ true
unfolding parse_value parse_array parse_err blames
parse_value-blames n s x e =
    ground (arith, parse_elements-blames n (split b',' (trim (inside s))) x)

store-blames :
    (n : ℕ) (name key : Text) (value : TomlValue) (p : Parser) (x : ConfigError)
    → p.current_section ≡ some name
    → section_open p ≡ true
    → store n name key value p ≡ err x
    → blames n x ≡ true
unfolding store parse_err blames section_open
store-blames n name key value p x c h e = ground (arith, get-contains_key name p.table)

parse_key_value-blames :
    (n : ℕ) (key val_str : Text) (p : Parser) (x : ConfigError)
    → section_open p ≡ true
    → parse_key_value n key val_str p ≡ err x
    → blames n x ≡ true
unfolding parse_key_value parse_err blames
parse_key_value-blames n key val_str p x h e = elim (Option-cases p.current_section) [
  | inl closed ↦ ground arith
  | inr (name, opened) ↦ elim (Result-cases (parse_value val_str n)) [
    | inr (y, bad) ↦ ground (arith, parse_value-blames n val_str x)
    | inl (value, good) ↦ ground (arith, store-blames n name key value p x)
  ]
]

parse_section-blames :
    (n : ℕ) (line : Text) (p : Parser) (x : ConfigError)
    → parse_section n line p ≡ err x
    → blames n x ≡ true
unfolding parse_section parse_err blames
parse_section-blames n line p x e = ground arith

parse_line-blames :
    (n : ℕ) (raw_line : Text) (p : Parser) (x : ConfigError)
    → section_open p ≡ true
    → parse_line n raw_line p ≡ err x
    → blames n x ≡ true
unfolding parse_line
parse_line-blames n raw_line p x h e =
    let line : Text = trim (strip_comment raw_line) in
    elim (Option-cases (split_once b'=' line)) [
      | inl no_equals ↦ unfold blames parse_err in ground (arith, parse_section-blames n line p x)
      | inr ((key, val_str), found) ↦ ground (
        arith,
        parse_section-blames n line p x,
        parse_key_value-blames n (trim key) (trim val_str) p x,
      )
    ]

open_of : (p : Parser) → well_formed p ≡ true → section_open p ≡ true
unfolding well_formed
open_of p h = ground arith

-- The first line of a file that is refused: the lines before it are read without an error from `p`,
-- and the error is that of the line and blames it.
pub record FirstFault (from : ℕ) (raw_lines : List Text) (p : Parser) (x : ConfigError)
    : Type 0 where
  pub index : ℕ
  pub line_no : ℕ
  pub line : Text
  pub state : Parser
  pub counted : line_no ≡ from + index
  pub stands : get_elem? raw_lines index ≡ some line
  pub before : parse_lines from (take index raw_lines) p ≡ ok state
  pub fails : parse_line line_no line state ≡ err x
  pub blamed : blames line_no x ≡ true

pub parse_lines_cons :
    (from : ℕ) (raw_line : Text) (rest : List Text) (p r q : Parser)
    → parse_line from raw_line p ≡ ok r
    → parse_lines (from + 1) rest r ≡ ok q
    → parse_lines from (raw_line ∷ rest) p ≡ ok q
unfolding parse_lines
parse_lines_cons from raw_line rest p r q h k = rw h k

parse_lines-FirstFault :
    (from : ℕ) (raw_lines : List Text) (p : Parser) (x : ConfigError)
    → well_formed p ≡ true
    → parse_lines from raw_lines p ≡ err x
    → FirstFault from raw_lines p x
parse_lines-FirstFault from [] p x h e = absurd (unfold parse_lines in ground arith)
parse_lines-FirstFault from (raw_line ∷ rest) p x h e =
    elim (bind_err (parse_line from raw_line p) (parse_lines (from + 1) rest) x
      (unfold parse_lines in e)) [
        | inl here ↦ record {
          index = 0;
          line_no = from;
          line = raw_line;
          state = p;
          counted = omega arith;
          stands = refl;
          before = unfold parse_lines in refl;
          fails = here;
          blamed = parse_line-blames from raw_line p x (open_of p h) here;
        }
        | inr (r, first, later) ↦
            let kept = parse_line-well_formed from raw_line p r first h in
            let fault = parse_lines-FirstFault (from + 1) rest r x kept later in
            record {
              index = suc fault.index;
              line_no = fault.line_no;
              line = fault.line;
              state = fault.state;
              counted = omega (arith, fault.counted);
              stands = fault.stands;
              before =
                  parse_lines_cons from raw_line (take fault.index rest) p r fault.state first
                    fault.before;
              fails = fault.fails;
              blamed = fault.blamed;
            }
      ]

-- A file is refused for its first faulty line: the lines before it are read without an error, and the
-- error is that of the line, whose number it gives counted from 1, or else it is the panic of a faulty
-- array. That the open section is missing from the table is never reported.
pub parse_toml-FirstFault :
    (text : Text) (x : ConfigError) → parse_toml text ≡ err x → FirstFault 0 (lines text) no_lines x
parse_toml-FirstFault text x e =
    elim (bind_err (parse_lines 0 (lines text) no_lines) (λ p. ok p.table) x
      (unfold parse_toml in e)) [
        | inl bad ↦
            parse_lines-FirstFault 0 (lines text) no_lines x (unfold well_formed in refl) bad
        | inr (p, good, impossible) ↦ absurd (ground arith)
      ]
