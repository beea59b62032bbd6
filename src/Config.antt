-- ===== src/Config.antt =====
-- src/config.rs: the values of a configuration file, the tables that hold them and the errors.
pub mod Comment
pub mod Value
pub mod Toml
pub mod Take
pub mod Sections
pub mod Lists
pub mod Load
use addrsyncd.Base.{
  ℕ, Bool, true, false, ◌||◌, List, [], ◌∷◌, ◌+◌, if◌then◌else◌, Option, none, some,
}
use addrsyncd.Base.Texts.{Text, ℤ, text_eq}

pub data TomlValue : Type 0 where
  str_value : Text → TomlValue
  int_value : ℤ → TomlValue
  bool_value : Bool → TomlValue
  array_value : List Text → TomlValue

-- What can be wrong with a line.
pub data LineProblem : Type 0 where
  malformed_section_header empty_section_name expected_key_value empty_key : LineProblem
  key_outside_of_section section_not_initialized : LineProblem
  duplicate_key : Text → Text → LineProblem
  empty_value malformed_string unterminated_array unquoted_element : LineProblem
  cannot_parse_value : Text → LineProblem

-- One constructor for each message of the code, with the texts it shows; `section.key` names a value.
pub data ConfigError : Type 0 where
  at_line : ℕ → LineProblem → ConfigError
  must_be_string must_be_integer must_be_boolean must_be_array : Text → Text → ConfigError
  must_be_non_negative missing_key : Text → Text → ConfigError
  unknown_field unknown_section missing_section : Text → ConfigError
  must_be_positive must_not_be_empty : Text → ConfigError
  bad_level : ConfigError
  read_config_failed : ConfigError
  empty_list_value : Text → ConfigError
  invalid_list_value duplicate_list_value : Text → Text → ConfigError
  -- No error of the code: a slice ends before it starts, and the process panics.
  panicked : ConfigError

-- A hash map of texts. The order of the list stands for the order of iteration.
module _ {ℓ} {V : Type ℓ} where
  unfoldable pub get : Text → List (Text × V) → Option V
  unfolding text_eq
  get k [] = none
  get k ((j, v) ∷ m) = if text_eq j k then some v else get k m

  unfoldable pub contains_key : Text → List (Text × V) → Bool
  unfolding text_eq
  contains_key k [] = false
  contains_key k ((j, v) ∷ m) = text_eq j k || contains_key k m

  -- `insert`, and a write through `get_mut`.
  unfoldable pub put : Text → V → List (Text × V) → List (Text × V)
  unfolding text_eq
  put k v [] = (k, v) ∷ []
  put k v ((j, w) ∷ m) = let rest = (j, w) ∷ put k v m in if text_eq j k then (j, v) ∷ m else rest

  unfoldable pub remove_key : Text → List (Text × V) → List (Text × V)
  unfolding text_eq
  remove_key k [] = []
  remove_key k ((j, v) ∷ m) =
      let rest = remove_key k m in if text_eq j k then rest else (j, v) ∷ rest

abbrev pub Section : Type 0
Section = List (Text × TomlValue)

abbrev pub TomlTable : Type 0
TomlTable = List (Text × Section)

unfoldable pub parse_err : ℕ → LineProblem → ConfigError
parse_err line_no problem = at_line (line_no + 1) problem
