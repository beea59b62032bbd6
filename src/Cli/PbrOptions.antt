-- ===== src/Cli/PbrOptions.antt =====
-- The subcommand `pbr` of src/cli.rs.
use addrsyncd.Base.{
  ℕ, ◌+◌, ◌-◌, ◌*◌, ◌^◌, Bool, false, ◌&&◌, ◌||◌, List, [], ◌∷◌, ltb, leb, ◌==◌, if◌then◌else◌,
  Option, none, some, Result, ok, err, ◌>>=◌,
}
use addrsyncd.Base.Texts.{Text, codes, text_eq, is_empty_text, parse_unsigned}
use addrsyncd.Cli.{
  PbrAction, apply, cleanup, status, PbrFamily, ipv4, ipv6, PbrRequest, Command, pbr, Stop,
  requires_value, unknown_option, unknown_action, invalid_family, invalid_number, action_required,
  option_required, mask_zero, table_or_pref_zero, help_shown, is_help,
}

unfoldable pub parse_pbr_family : Text → Result Stop PbrFamily
parse_pbr_family arg =
    if text_eq arg (codes "4") || text_eq arg (codes "ipv4")
    then ok ipv4
    else if text_eq arg (codes "6") || text_eq arg (codes "ipv6")
    then ok ipv6
    else err (invalid_family arg)

unfoldable pub hex_digit : ℕ → Option ℕ
hex_digit c =
    if leb b'0' c && leb c b'9'
    then some (c - b'0')
    else if leb b'a' c && leb c b'f'
    then some (c - b'a' + 10)
    else if leb b'A' c && leb c b'F'
    then some (c - b'A' + 10)
    else none

unfoldable pub hex_value : ℕ → Text → Option ℕ
unfolding hex_digit
hex_value acc [] = some acc
hex_value acc (c ∷ cs) = elim (hex_digit c) [ none ↦ none | some d ↦ hex_value (acc * 16 + d) cs ]

abbrev fits_u32 : Option ℕ → Option ℕ
fits_u32 none = none
fits_u32 (some n) = if ltb n (2 ^ 32) then some n else none

-- `u32::from_str_radix(_, 16)`, which takes a sign `+`.
unfoldable pub from_hex : Text → Option ℕ
unfolding hex_value
from_hex [] = none
from_hex (c ∷ cs) =
    if c == b'+'
    then if is_empty_text cs then none else fits_u32 (hex_value 0 cs)
    else fits_u32 (hex_value 0 (c ∷ cs))

abbrev has_hex_prefix : Text → Bool
has_hex_prefix [] = false
has_hex_prefix (z ∷ []) = false
has_hex_prefix (z ∷ x ∷ rest) = (z == b'0') && (x == b'x' || x == b'X')

abbrev drop_two : Text → Text
drop_two [] = []
drop_two (z ∷ []) = []
drop_two (z ∷ x ∷ rest) = rest

unfoldable pub parse_u32 : Text → Option ℕ
unfolding from_hex parse_unsigned
parse_u32 raw = if has_hex_prefix raw then from_hex (drop_two raw) else parse_unsigned (2 ^ 32) raw

unfoldable pub parse_u32_arg : Text → Text → Result Stop ℕ
unfolding parse_u32
parse_u32_arg raw option = elim (parse_u32 raw) [
  | some n ↦ ok n
  | none ↦ err (invalid_number option raw)
]

-- The options that were given so far.
pub record PbrFields : Type 0 where
  pub family : Option PbrFamily
  pub mark : Option ℕ
  pub mask : Option ℕ
  pub table : Option ℕ
  pub pref : Option ℕ

pub data PbrOption : Type 0 where
  family_option mark_option mask_option table_option pref_option help_option other_option :
      PbrOption

unfoldable pub pbr_option : Text → PbrOption
pbr_option arg =
    if text_eq arg (codes "--family")
    then family_option
    else if text_eq arg (codes "--mark")
    then mark_option
    else if text_eq arg (codes "--mask")
    then mask_option
    else if text_eq arg (codes "--table")
    then table_option
    else if text_eq arg (codes "--pref")
    then pref_option
    else if is_help arg
    then help_option
    else other_option

-- An option and its value.
unfoldable pub set_pbr_option : PbrOption → Text → Text → PbrFields → Result Stop PbrFields
unfolding parse_pbr_family parse_u32_arg
set_pbr_option family_option arg v f =
    parse_pbr_family v >>= (λ x. ok (record f { family = some x }))
set_pbr_option mark_option arg v f = parse_u32_arg v arg >>= (λ x. ok (record f { mark = some x }))
set_pbr_option mask_option arg v f = parse_u32_arg v arg >>= (λ x. ok (record f { mask = some x }))
set_pbr_option table_option arg v f =
    parse_u32_arg v arg >>= (λ x. ok (record f { table = some x }))
set_pbr_option pref_option arg v f = parse_u32_arg v arg >>= (λ x. ok (record f { pref = some x }))
set_pbr_option help_option arg v f = err help_shown
set_pbr_option other_option arg v f = err (unknown_option (codes "pbr") arg)

-- An option that ends the command line.
unfoldable pub last_pbr_option : PbrOption → Text → Stop
last_pbr_option help_option arg = help_shown
last_pbr_option other_option arg = unknown_option (codes "pbr") arg
last_pbr_option _ arg = requires_value arg

unfoldable pub parse_pbr_options : List Text → PbrFields → Result Stop PbrFields
unfolding pbr_option set_pbr_option last_pbr_option
parse_pbr_options [] f = ok f
parse_pbr_options (arg ∷ []) f = err (last_pbr_option (pbr_option arg) arg)
parse_pbr_options (arg ∷ v ∷ rest) f =
    set_pbr_option (pbr_option arg) arg v f >>= parse_pbr_options rest

unfoldable pub required {ℓ} : {A : Type ℓ} → Option A → Text → Result Stop A
required none option = err (option_required option)
required (some x) option = ok x

unfoldable pub check_request : PbrRequest → Result Stop PbrRequest
check_request r =
    if r.mask == 0
    then err mask_zero
    else if r.table == 0 || r.pref == 0
    then err table_or_pref_zero
    else ok r

unfoldable pub finish_pbr : PbrAction → PbrFields → Result Stop PbrRequest
unfolding required check_request
finish_pbr action f = required f.family (codes "--family") >>= (λ family.
    required f.mark (codes "--mark") >>= (λ mark. required f.mask (codes "--mask") >>= (λ mask.
      required f.table (codes "--table") >>= (λ table. required f.pref (codes "--pref") >>= (λ pref.
        check_request (record {
          action = action;
          family = family;
          mark = mark;
          mask = mask;
          table = table;
          pref = pref;
        }))))))

unfoldable pub parse_pbr_action : Text → Result Stop PbrAction
parse_pbr_action arg =
    if text_eq arg (codes "apply")
    then ok apply
    else if text_eq arg (codes "cleanup")
    then ok cleanup
    else if text_eq arg (codes "status")
    then ok status
    else if is_help arg
    then err help_shown
    else err (unknown_action arg)

abbrev pub no_fields : PbrFields
no_fields = record { family = none; mark = none; mask = none; table = none; pref = none }

unfoldable pub parse_pbr_command : List Text → Result Stop Command
unfolding parse_pbr_action parse_pbr_options finish_pbr
parse_pbr_command [] = err action_required
parse_pbr_command (arg ∷ rest) = parse_pbr_action arg >>= (λ action.
    parse_pbr_options rest no_fields >>= (λ f. finish_pbr action f >>= (λ r. ok (pbr r))))
