-- ===== src/Cli/Valid.antt =====
-- What src/cli.rs guarantees of a policy-routing request.
use addrsyncd.Base.{
  ℕ, ◌^◌, ◌≡◌, ◌≢◌, ◌<◌, refl, Bool, true, false, ◌&&◌, List, [], ◌∷◌, arith, ltb, Option, none,
  some, Result-cases, inl, inr, ok, ◌>>=◌, bind_ok,
}
use addrsyncd.Base.Texts.{Text, codes, parse_unsigned_lt}
use addrsyncd.Cli.{
  Cli, Command, stop, resync_command, status_command, CleanupMode, dump, pbr, PbrAction, PbrRequest,
}
use addrsyncd.Cli.PbrOptions.{
  PbrFields, PbrOption, pbr_option, parse_u32, parse_u32_arg, from_hex, set_pbr_option,
  parse_pbr_options, finish_pbr, required, check_request, parse_pbr_action, no_fields,
  parse_pbr_command, family_option, mark_option, mask_option, table_option, pref_option,
  help_option, other_option,
}
use addrsyncd.Cli.Arguments.{
  parse_run_command, parse_mode, parse_cleanup_command, no_more, parse_command, with_command,
  parse_from, parse_args, global_option, config_option, work_dir_option, usage_option,
  version_option, subcommand,
}

pub record IsValidRequest (r : PbrRequest) : Type 0 where
  pub mark_bounded : r.mark < 2 ^ 32
  pub mask_positive : 0 < r.mask
  pub mask_bounded : r.mask < 2 ^ 32
  pub table_positive : 0 < r.table
  pub table_bounded : r.table < 2 ^ 32
  pub pref_positive : 0 < r.pref
  pub pref_bounded : r.pref < 2 ^ 32

from_hex_lt : (s : Text) (n : ℕ) → from_hex s ≡ some n → n < 2 ^ 32
unfolding from_hex
from_hex_lt [] n e = cc
from_hex_lt (c ∷ cs) n e = ground arith

parse_u32_arg_lt : (raw option : Text) (n : ℕ) → parse_u32_arg raw option ≡ ok n → n < 2 ^ 32
unfolding parse_u32_arg parse_u32
parse_u32_arg_lt raw option n e = ground (arith, from_hex_lt _ n, parse_unsigned_lt (2 ^ 32) n raw)

in_bounds : Option ℕ → Bool
in_bounds none = true
in_bounds (some n) = ltb n (2 ^ 32)

fields_bounded : PbrFields → Bool
unfolding in_bounds
fields_bounded f = in_bounds f.mark && (in_bounds f.mask && (in_bounds f.table && in_bounds f.pref))

number_bounded :
    (v arg : Text) (next : ℕ → PbrFields) (g : PbrFields)
    → parse_u32_arg v arg >>= (λ x. ok (next x)) ≡ ok g
    → ((x : ℕ) → x < 2 ^ 32 → fields_bounded (next x) ≡ true)
    → fields_bounded g ≡ true
number_bounded v arg next g e h =
    let (x, read, same) = bind_ok (parse_u32_arg v arg) (λ x. ok (next x)) g e in
    let here : next x ≡ g = ground arith in rw (← here) (h x (parse_u32_arg_lt v arg x read))

set_pbr_option_bounded :
    (o : PbrOption) (arg v : Text) (f g : PbrFields)
    → set_pbr_option o arg v f ≡ ok g
    → fields_bounded f ≡ true
    → fields_bounded g ≡ true
unfolding set_pbr_option fields_bounded in_bounds
set_pbr_option_bounded family_option arg v f g e h = ground arith
set_pbr_option_bounded mark_option arg v f g e h =
    number_bounded v arg (λ x. record f { mark = some x }) g e (λ x lt. ground arith)
set_pbr_option_bounded mask_option arg v f g e h =
    number_bounded v arg (λ x. record f { mask = some x }) g e (λ x lt. ground arith)
set_pbr_option_bounded table_option arg v f g e h =
    number_bounded v arg (λ x. record f { table = some x }) g e (λ x lt. ground arith)
set_pbr_option_bounded pref_option arg v f g e h =
    number_bounded v arg (λ x. record f { pref = some x }) g e (λ x lt. ground arith)
set_pbr_option_bounded help_option arg v f g e h = cc
set_pbr_option_bounded other_option arg v f g e h = cc

parse_pbr_options_bounded :
    (args : List Text) (f g : PbrFields)
    → parse_pbr_options args f ≡ ok g
    → fields_bounded f ≡ true
    → fields_bounded g ≡ true
unfolding parse_pbr_options
parse_pbr_options_bounded [] f g e h = ground arith
parse_pbr_options_bounded (arg ∷ []) f g e h = cc
parse_pbr_options_bounded (arg ∷ v ∷ rest) f g e h =
    let (f', e0, k0) =
      bind_ok (set_pbr_option (pbr_option arg) arg v f) (parse_pbr_options rest) g e in
    parse_pbr_options_bounded rest f' g k0 (set_pbr_option_bounded (pbr_option arg) arg v f f' e0 h)

finish_pbr-IsValidRequest :
    (action : PbrAction) (f : PbrFields) (r : PbrRequest)
    → finish_pbr action f ≡ ok r
    → fields_bounded f ≡ true
    → IsValidRequest r
unfolding finish_pbr required check_request fields_bounded in_bounds
finish_pbr-IsValidRequest action f r e h = record {
  mark_bounded = ground arith;
  mask_positive = ground arith;
  mask_bounded = ground arith;
  table_positive = ground arith;
  table_bounded = ground arith;
  pref_positive = ground arith;
  pref_bounded = ground arith;
}

parse_run_command-ne-pbr :
    (daemon : Bool) (args : List Text) (r : PbrRequest) → parse_run_command daemon args ≢ ok (pbr r)
unfolding parse_run_command
parse_run_command-ne-pbr daemon [] r e = cc
parse_run_command-ne-pbr daemon (arg ∷ rest) r e =
    ground (arith, parse_run_command-ne-pbr true rest r)

parse_cleanup_command-ne-pbr :
    (mode : CleanupMode) (args : List Text) (r : PbrRequest)
    → parse_cleanup_command mode args ≢ ok (pbr r)
unfolding parse_cleanup_command
parse_cleanup_command-ne-pbr mode [] r e = cc
parse_cleanup_command-ne-pbr mode (arg ∷ []) r e = ground arith
parse_cleanup_command-ne-pbr mode (arg ∷ v ∷ rest) r e = elim (Result-cases (parse_mode v)) [
  | inl (m, good) ↦ ground (arith, parse_cleanup_command-ne-pbr m rest r)
  | inr (x, bad) ↦ ground arith
]

parse_pbr_command-IsValidRequest :
    (args : List Text) (r : PbrRequest) → parse_pbr_command args ≡ ok (pbr r) → IsValidRequest r
unfolding parse_pbr_command
parse_pbr_command-IsValidRequest [] r e = cc
parse_pbr_command-IsValidRequest (arg ∷ rest) r e =
    let (action, e0, k0) = bind_ok (parse_pbr_action arg) _ (pbr r) e in
    let (f, e1, k1) = bind_ok (parse_pbr_options rest no_fields) _ (pbr r) k0 in
    let (q, e2, k2) = bind_ok (finish_pbr action f) (λ q. ok (pbr q)) (pbr r) k1 in
    let here : q ≡ r = ground arith in
    let start : fields_bounded no_fields ≡ true = unfold fields_bounded in_bounds in refl in
    rw (← here) (
      finish_pbr-IsValidRequest action f q e2 (parse_pbr_options_bounded rest no_fields f e1 start))

no_more-ne-pbr :
    (sub : Text) (rest : List Text) (c : Command) (r : PbrRequest)
    → c ≢ pbr r
    → no_more sub c rest ≢ ok (pbr r)
unfolding no_more
no_more-ne-pbr sub [] c r n e = n (ground arith)
no_more-ne-pbr sub (arg ∷ rest) c r n e = cc

parse_command-IsValidRequest :
    (sub : Text) (rest : List Text) (r : PbrRequest)
    → parse_command sub rest ≡ ok (pbr r)
    → IsValidRequest r
unfolding parse_command
parse_command-IsValidRequest sub rest r e = parse_pbr_command-IsValidRequest rest r (
    ground (
      arith,
      parse_run_command-ne-pbr false rest r,
      parse_cleanup_command-ne-pbr dump rest r,
      no_more-ne-pbr sub rest stop r (λ h. cc),
      no_more-ne-pbr sub rest resync_command r (λ h. cc),
      no_more-ne-pbr sub rest status_command r (λ h. cc),
    ))

with_command-IsValidRequest :
    (config work_dir sub : Text) (rest : List Text) (c : Cli) (r : PbrRequest)
    → with_command config work_dir (parse_command sub rest) ≡ ok c
    → c.command ≡ pbr r
    → IsValidRequest r
unfolding with_command
with_command-IsValidRequest config work_dir sub rest c r e h =
    let (command, parsed, same) = bind_ok (parse_command sub rest) _ c e in
    parse_command-IsValidRequest sub rest r (ground arith)

parse_from-IsValidRequest :
    (config work_dir : Text) (args : List Text) (c : Cli) (r : PbrRequest)
    → parse_from config work_dir args ≡ ok c
    → c.command ≡ pbr r
    → IsValidRequest r
unfolding parse_from
parse_from-IsValidRequest config work_dir [] c r e h = cc
parse_from-IsValidRequest config work_dir (arg ∷ []) c r e h =
    with_command-IsValidRequest config work_dir arg [] c r (ground arith) h
parse_from-IsValidRequest config work_dir (arg ∷ v ∷ rest) c r e h =
    elim (global_option arg) as (λ o. global_option arg ≡ o → IsValidRequest r) [
      | config_option ↦ λ o. parse_from-IsValidRequest v work_dir rest c r (ground arith) h
      | work_dir_option ↦ λ o. parse_from-IsValidRequest config v rest c r (ground arith) h
      | usage_option ↦ λ o. absurd (ground arith)
      | version_option ↦ λ o. absurd (ground arith)
      | subcommand ↦
          λ o. with_command-IsValidRequest config work_dir arg (v ∷ rest) c r (ground arith) h
    ]
      refl

-- The policy-routing request of a command line that is accepted has a mask, a table and a preference
-- above 0, and all its numbers have 32 bits.
pub parse_args-IsValidRequest :
    (args : List Text) (c : Cli) (r : PbrRequest)
    → parse_args args ≡ ok c
    → c.command ≡ pbr r
    → IsValidRequest r
unfolding parse_args
parse_args-IsValidRequest [] c r e h = cc
parse_args-IsValidRequest (program ∷ args) c r e h =
    parse_from-IsValidRequest (codes "addrsyncd.toml") (codes ".") args c r e h
