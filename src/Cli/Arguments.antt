-- ===== src/Cli/Arguments.antt =====
-- `parse_args` of src/cli.rs. Arguments are texts; the index `i` is the list of those that remain.
use addrsyncd.Base.{Bool, true, false, ◌||◌, List, [], ◌∷◌, if◌then◌else◌, Result, ok, err, ◌>>=◌}
use addrsyncd.Base.Texts.{Text, codes, text_eq}
use addrsyncd.Cli.{
  Cli, Command, run, stop, resync_command, status_command, cleanup_command, CleanupMode, tracked,
  dump, Stop, requires_value, subcommand_required, unknown_subcommand, unknown_option, unknown_mode,
  help_shown, version_shown, is_help,
}
use addrsyncd.Cli.PbrOptions.{parse_pbr_command}

unfoldable pub parse_run_command : Bool → List Text → Result Stop Command
parse_run_command daemon [] = ok (run daemon)
parse_run_command daemon (arg ∷ rest) =
    let later = parse_run_command true rest in
    if text_eq arg (codes "--daemon")
    then later
    else if is_help arg
    then err help_shown
    else err (unknown_option (codes "run") arg)

unfoldable pub parse_mode : Text → Result Stop CleanupMode
parse_mode v =
    if text_eq v (codes "tracked")
    then ok tracked
    else if text_eq v (codes "dump")
    then ok dump
    else err (unknown_mode v)

unfoldable pub parse_cleanup_command : CleanupMode → List Text → Result Stop Command
unfolding parse_mode
parse_cleanup_command mode [] = ok (cleanup_command mode)
parse_cleanup_command mode (arg ∷ []) =
    if text_eq arg (codes "--mode")
    then err (requires_value arg)
    else if is_help arg
    then err help_shown
    else err (unknown_option (codes "cleanup") arg)
parse_cleanup_command mode (arg ∷ v ∷ rest) =
    if text_eq arg (codes "--mode")
    then parse_mode v >>= (λ m. parse_cleanup_command m rest)
    else if is_help arg
    then err help_shown
    else err (unknown_option (codes "cleanup") arg)

unfoldable pub no_more : Text → Command → List Text → Result Stop Command
no_more sub command [] = ok command
no_more sub command (arg ∷ rest) = err (unknown_option sub arg)

unfoldable pub parse_command : Text → List Text → Result Stop Command
unfolding parse_run_command parse_cleanup_command no_more parse_pbr_command
parse_command sub rest =
    if text_eq sub (codes "run")
    then parse_run_command false rest
    else if text_eq sub (codes "stop")
    then no_more sub stop rest
    else if text_eq sub (codes "resync")
    then no_more sub resync_command rest
    else if text_eq sub (codes "cleanup")
    then parse_cleanup_command dump rest
    else if text_eq sub (codes "pbr")
    then parse_pbr_command rest
    else if text_eq sub (codes "status")
    then no_more sub status_command rest
    else err (unknown_subcommand sub)

pub data GlobalOption : Type 0 where
  config_option work_dir_option usage_option version_option subcommand : GlobalOption

unfoldable pub global_option : Text → GlobalOption
global_option arg =
    if text_eq arg (codes "-c") || text_eq arg (codes "--config")
    then config_option
    else if text_eq arg (codes "-d") || text_eq arg (codes "--work-dir")
    then work_dir_option
    else if is_help arg
    then usage_option
    else if text_eq arg (codes "-v") || text_eq arg (codes "--version")
    then version_option
    else subcommand

unfoldable pub with_command : Text → Text → Result Stop Command → Result Stop Cli
with_command config work_dir parsed =
    parsed >>= (λ command. ok (record { config = config; work_dir = work_dir; command = command }))

unfoldable pub parse_from : Text → Text → List Text → Result Stop Cli
unfolding global_option parse_command with_command
parse_from config work_dir [] = err subcommand_required
parse_from config work_dir (arg ∷ []) = elim (global_option arg) [
  | config_option ↦ err (requires_value (codes "-c/--config"))
  | work_dir_option ↦ err (requires_value (codes "-d/--work-dir"))
  | usage_option ↦ err help_shown
  | version_option ↦ err version_shown
  | subcommand ↦ with_command config work_dir (parse_command arg [])
]
parse_from config work_dir (arg ∷ v ∷ rest) = elim (global_option arg) [
  | config_option ↦ parse_from v work_dir rest
  | work_dir_option ↦ parse_from config v rest
  | usage_option ↦ err help_shown
  | version_option ↦ err version_shown
  | subcommand ↦ with_command config work_dir (parse_command arg (v ∷ rest))
]

-- The first argument is the name of the program.
unfoldable pub parse_args : List Text → Result Stop Cli
unfolding parse_from
parse_args [] = err subcommand_required
parse_args (program ∷ args) = parse_from (codes "addrsyncd.toml") (codes ".") args
