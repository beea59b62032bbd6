-- ===== src/Config/Take.antt =====
-- The helpers of src/config.rs that take values out of a section, and that find unknown names.
use addrsyncd.Base.{ℕ, Bool, List, [], ◌∷◌, if◌then◌else◌, none, some, Result, ok, err}
use addrsyncd.Base.Texts.{Text, pos, negsuc, text_mem}
use addrsyncd.Config.{
  Section, str_value, int_value, bool_value, array_value, get, remove_key, ConfigError,
  must_be_string, must_be_integer, must_be_boolean, must_be_array, must_be_non_negative,
  missing_key, unknown_field,
}

-- What is taken is removed, whatever its type; an error ends the load, so the section is not needed.
unfoldable pub take_str : Section → Text → Text → Result ConfigError (Text × Section)
take_str section key section_name = elim (get key section) [
  | some (str_value s) ↦ ok (s, remove_key key section)
  | some _ ↦ err (must_be_string section_name key)
  | none ↦ err (missing_key section_name key)
]

unfoldable pub take_u64 : Section → Text → Text → Result ConfigError (ℕ × Section)
take_u64 section key section_name = elim (get key section) [
  | some (int_value (pos n)) ↦ ok (n, remove_key key section)
  | some (int_value (negsuc n)) ↦ err (must_be_non_negative section_name key)
  | some _ ↦ err (must_be_integer section_name key)
  | none ↦ err (missing_key section_name key)
]

unfoldable pub take_bool : Section → Text → Text → Result ConfigError (Bool × Section)
take_bool section key section_name = elim (get key section) [
  | some (bool_value b) ↦ ok (b, remove_key key section)
  | some _ ↦ err (must_be_boolean section_name key)
  | none ↦ err (missing_key section_name key)
]

unfoldable pub take_array_or_default :
    Section → Text → Text → Result ConfigError (List Text × Section)
take_array_or_default section key section_name = elim (get key section) [
  | some (array_value items) ↦ ok (items, remove_key key section)
  | some _ ↦ err (must_be_array section_name key)
  | none ↦ ok ([], section)
]

unfoldable pub reject_unknown_keys : Section → Text → Result ConfigError (Unit {0})
reject_unknown_keys [] section_name = ok tt
reject_unknown_keys ((key, value) ∷ section) section_name = err (unknown_field key)

unfoldable pub reject_unknown_keys_with_allowlist :
    Section → Text → List Text → Result ConfigError (Unit {0})
reject_unknown_keys_with_allowlist [] section_name allowlist = ok tt
reject_unknown_keys_with_allowlist ((key, value) ∷ section) section_name allowlist =
    let rest = reject_unknown_keys_with_allowlist section section_name allowlist in
    if text_mem key allowlist then rest else err (unknown_field key)
