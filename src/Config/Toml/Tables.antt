-- ===== src/Config/Toml/Tables.antt =====
-- The tables that `parse_toml` of src/config.rs builds, and the section that is open.
use addrsyncd.Base.{
  ℕ, ◌+◌, ◌≡◌, refl, Bool, true, false, not, ◌&&◌, ◌||◌, List, [], ◌∷◌, arith, none, some,
  Option-cases, inl, inr, Result-cases, ok, bind_ok,
}
use addrsyncd.Base.Texts.{
  Text, text_eq, is_empty_text, trim, inside, split_once, lines, text_eq_iff,
}
use addrsyncd.Config.{Section, TomlTable, TomlValue, get, contains_key, put}
use addrsyncd.Config.Comment.{strip_comment}
use addrsyncd.Config.Value.{parse_value}
use addrsyncd.Config.Toml.{
  Parser, parse_section, store, parse_key_value, parse_line, parse_lines, no_lines, parse_toml,
}

unfoldable pub distinct_keys {ℓ} : {V : Type ℓ} → List (Text × V) → Bool
unfolding contains_key
distinct_keys [] = true
distinct_keys ((k, v) ∷ m) = not (contains_key k m) && distinct_keys m

unfoldable pub distinct_sections : TomlTable → Bool
unfolding distinct_keys
distinct_sections [] = true
distinct_sections ((name, section) ∷ table) = distinct_keys section && distinct_sections table

-- The section that is open, if any, has a name and stands in the table.
unfoldable pub section_open : Parser → Bool
unfolding contains_key
section_open p = elim p.current_section [
  | none ↦ true
  | some name ↦ not (is_empty_text name) && contains_key name p.table
]

unfoldable pub well_formed : Parser → Bool
unfolding distinct_keys distinct_sections section_open
well_formed p = distinct_keys p.table && (distinct_sections p.table && section_open p)

module _ {ℓ} {V : Type ℓ} where
  pub contains_key-put :
      (j k : Text) (v : V) (m : List (Text × V))
      → contains_key j (put k v m) ≡ (text_eq k j || contains_key j m)
  unfolding contains_key put
  contains_key-put j k v [] = ground arith
  contains_key-put j k v ((i, w) ∷ m) =
      ground (arith, text_eq_iff i k, text_eq_iff i j, text_eq_iff k j, contains_key-put j k v m)

  pub distinct_keys-put :
      (k : Text) (v : V) (m : List (Text × V))
      → distinct_keys m ≡ true
      → distinct_keys (put k v m) ≡ true
  unfolding distinct_keys put contains_key
  distinct_keys-put k v [] h = refl
  distinct_keys-put k v ((i, w) ∷ m) h =
      ground
        (arith, text_eq_iff i k, text_eq_iff k i, contains_key-put i k v m, distinct_keys-put k v m)

  pub get-contains_key :
      (k : Text) (m : List (Text × V)) → get k m ≡ none → contains_key k m ≡ false
  unfolding get contains_key
  get-contains_key k [] e = refl
  get-contains_key k ((i, w) ∷ m) e = ground (arith, get-contains_key k m)

distinct_sections-put :
    (name : Text) (s : Section) (table : TomlTable)
    → distinct_keys s ≡ true
    → distinct_sections table ≡ true
    → distinct_sections (put name s table) ≡ true
unfolding distinct_sections put
distinct_sections-put name s [] hs h = ground arith
distinct_sections-put name s ((i, t) ∷ table) hs h =
    ground (arith, distinct_sections-put name s table)

distinct_sections-get :
    (name : Text) (s : Section) (table : TomlTable)
    → distinct_sections table ≡ true
    → get name table ≡ some s
    → distinct_keys s ≡ true
unfolding distinct_sections get
distinct_sections-get name s [] h e = cc
distinct_sections-get name s ((i, t) ∷ table) h e =
    ground (arith, distinct_sections-get name s table)

parse_section-well_formed :
    (n : ℕ) (line : Text) (p q : Parser)
    → parse_section n line p ≡ ok q
    → well_formed p ≡ true
    → well_formed q ≡ true
unfolding parse_section well_formed section_open
parse_section-well_formed n line p q e h =
    let name : Text = trim (inside line) in
    ground (
      arith,
      text_eq_iff name name,
      contains_key-put name name [] p.table,
      distinct_keys-put name [] p.table,
      distinct_sections-put name [] p.table,
    )

store-well_formed :
    (n : ℕ) (name key : Text) (value : TomlValue) (p q : Parser)
    → store n name key value p ≡ ok q
    → p.current_section ≡ some name
    → well_formed p ≡ true
    → well_formed q ≡ true
unfolding store well_formed section_open
store-well_formed n name key value p q e c h = elim (Option-cases (get name p.table)) [
  | inl missing ↦ absurd (ground arith)
  | inr (s, found) ↦ ground (
    arith,
    text_eq_iff name name,
    distinct_sections-get name s p.table,
    contains_key-put name name (put key value s) p.table,
    distinct_keys-put key value s,
    distinct_keys-put name (put key value s) p.table,
    distinct_sections-put name (put key value s) p.table,
  )
]

parse_key_value-well_formed :
    (n : ℕ) (key val_str : Text) (p q : Parser)
    → parse_key_value n key val_str p ≡ ok q
    → well_formed p ≡ true
    → well_formed q ≡ true
unfolding parse_key_value
parse_key_value-well_formed n key val_str p q e h = elim (Option-cases p.current_section) [
  | inl closed ↦ absurd (ground arith)
  | inr (name, opened) ↦ elim (Result-cases (parse_value val_str n)) [
    | inr (x, bad) ↦ absurd (ground arith)
    | inl (value, good) ↦ store-well_formed n name key value p q (ground arith) opened h
  ]
]

pub parse_line-well_formed :
    (n : ℕ) (raw_line : Text) (p q : Parser)
    → parse_line n raw_line p ≡ ok q
    → well_formed p ≡ true
    → well_formed q ≡ true
unfolding parse_line
parse_line-well_formed n raw_line p q e h =
    let line : Text = trim (strip_comment raw_line) in
    elim (Option-cases (split_once b'=' line)) [
      | inl no_equals ↦ ground (arith, parse_section-well_formed n line p q)
      | inr ((key, val_str), found) ↦ ground (
        arith,
        parse_section-well_formed n line p q,
        parse_key_value-well_formed n (trim key) (trim val_str) p q,
      )
    ]

pub parse_lines-well_formed :
    (n : ℕ) (raw_lines : List Text) (p q : Parser)
    → parse_lines n raw_lines p ≡ ok q
    → well_formed p ≡ true
    → well_formed q ≡ true
unfolding parse_lines
parse_lines-well_formed n [] p q e h = ground arith
parse_lines-well_formed n (raw_line ∷ rest) p q e h =
    let (r, e0, k0) = bind_ok (parse_line n raw_line p) (parse_lines (n + 1) rest) q e in
    parse_lines-well_formed (n + 1) rest r q k0 (parse_line-well_formed n raw_line p r e0 h)

-- A file that parses gives a table in which no section occurs twice, and no key twice in a section.
pub parse_toml-distinct_keys :
    (text : Text) (table : TomlTable)
    → parse_toml text ≡ ok table
    → (distinct_keys table ≡ true) × (distinct_sections table ≡ true)
unfolding parse_toml
parse_toml-distinct_keys text table e =
    let (q, e0, k0) = bind_ok (parse_lines 0 (lines text) no_lines) (λ p. ok p.table) table e in
    let kept = parse_lines-well_formed 0 (lines text) no_lines q e0 (unfold well_formed in refl) in
    unfold well_formed in ground arith
