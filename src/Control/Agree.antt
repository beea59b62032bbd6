-- ===== src/Control/Agree.antt =====
-- `parse_run_work_dir` of src/control.rs against `parse_args` of src/cli.rs: a daemon that was started
-- is found in /proc by its command line.
use addrsyncd.Base.{
  ℕ, ◌^◌, ◌≡◌, ◌≢◌, refl, ◌∙◌, Bool, true, false, not, ◌&&◌, ◌||◌, List, [], ◌∷◌, ◌++◌, arith, leb,
  ◌==◌, some, Bool-cases, inl, inr, Result-cases, ok, bind_ok,
}
use addrsyncd.Base.Texts.{Text, codes, text_eq, is_empty_text, split, parse_unsigned, text_eq_iff}
use addrsyncd.Base.Splitting.{lacks, split-append}
use addrsyncd.Cli.{Cli, Command, run, stop, resync_command, status_command, CleanupMode, dump}
use addrsyncd.Cli.Arguments.{
  parse_run_command, parse_mode, parse_cleanup_command, no_more, parse_command, with_command,
  global_option, parse_from, parse_args, config_option, work_dir_option, usage_option,
  version_option, subcommand,
}
use addrsyncd.Cli.PbrOptions.{parse_pbr_command}
use addrsyncd.Control.{
  Process, PathBuf, only_daemon_flags, run_option, RunOption, scan_run, dir_option, run_word,
  nonempty_parts, read_cmdline_args, is_addrsyncd_argv0, resolve_daemon_work_dir,
  parse_run_work_dir, parts_eq, path_eq,
}
use addrsyncd.Control.Find.{daemon_with, daemon_of}

run_command_flags :
    (flag daemon : Bool) (args : List Text)
    → parse_run_command flag args ≡ ok (run daemon)
    → only_daemon_flags args ≡ true
unfolding parse_run_command only_daemon_flags
run_command_flags flag daemon [] e = refl
run_command_flags flag daemon (arg ∷ rest) e = ground (arith, run_command_flags true daemon rest)

cleanup_command-ne-run :
    (mode : CleanupMode) (args : List Text) (daemon : Bool)
    → parse_cleanup_command mode args ≢ ok (run daemon)
unfolding parse_cleanup_command
cleanup_command-ne-run mode [] daemon e = cc
cleanup_command-ne-run mode (arg ∷ []) daemon e = ground arith
cleanup_command-ne-run mode (arg ∷ v ∷ rest) daemon e = elim (Result-cases (parse_mode v)) [
  | inl (m, good) ↦ ground (arith, cleanup_command-ne-run m rest daemon)
  | inr (x, bad) ↦ ground arith
]

pbr_command-ne-run : (args : List Text) (daemon : Bool) → parse_pbr_command args ≢ ok (run daemon)
unfolding parse_pbr_command
pbr_command-ne-run [] daemon e = cc
pbr_command-ne-run (arg ∷ rest) daemon e = ground arith

no_more-ne-run :
    (sub : Text) (rest : List Text) (c : Command) (daemon : Bool)
    → c ≢ run daemon
    → no_more sub c rest ≢ ok (run daemon)
unfolding no_more
no_more-ne-run sub [] c daemon n e = n (ground arith)
no_more-ne-run sub (arg ∷ rest) c daemon n e = cc

-- A subcommand that is parsed as `run` is the word `run`, with no flag but `--daemon` behind it.
parse_command_run :
    (sub : Text) (rest : List Text) (daemon : Bool)
    → parse_command sub rest ≡ ok (run daemon)
    → (text_eq sub (codes "run") ≡ true) × (only_daemon_flags rest ≡ true)
unfolding parse_command
parse_command_run sub rest daemon e = ground (
  arith,
  run_command_flags false daemon rest,
  cleanup_command-ne-run dump rest daemon,
  pbr_command-ne-run rest daemon,
  no_more-ne-run sub rest stop daemon (λ h. cc),
  no_more-ne-run sub rest resync_command daemon (λ h. cc),
  no_more-ne-run sub rest status_command daemon (λ h. cc),
)

with_command_run :
    (config dir sub : Text) (rest : List Text) (c : Cli) (daemon : Bool)
    → with_command config dir (parse_command sub rest) ≡ ok c
    → c.command ≡ run daemon
    → (text_eq sub (codes "run") ≡ true) × (only_daemon_flags rest ≡ true) × (c.work_dir ≡ dir)
unfolding with_command
with_command_run config dir sub rest c daemon e h =
    let (command, parsed, same) = bind_ok (parse_command sub rest) _ c e in
    let flags = parse_command_run sub rest daemon (ground arith) in (flags.0, flags.1, ground arith)

-- The two readers take the same words for options.
config_words :
    (arg : Text) → global_option arg ≡ config_option → run_option arg ≡ RunOption.config_option
unfolding global_option run_option text_eq
config_words arg e = elim (Bool-cases (text_eq arg (codes "-c"))) [
  | inl short ↦ rw ((text_eq_iff arg (codes "-c")).0 short) refl
  | inr other ↦
      let long : text_eq arg (codes "--config") ≡ true = ground arith in
      rw ((text_eq_iff arg (codes "--config")).0 long) refl
]

dir_words : (arg : Text) → global_option arg ≡ work_dir_option → run_option arg ≡ dir_option
unfolding global_option run_option
dir_words arg e = ground arith

run_words : (arg : Text) → text_eq arg (codes "run") ≡ true → run_option arg ≡ run_word
unfolding run_option text_eq
run_words arg h = rw ((text_eq_iff arg (codes "run")).0 h) refl

scan_run_word :
    (config dir arg : Text) (rest : List Text) (c : Cli) (daemon : Bool)
    → with_command config dir (parse_command arg rest) ≡ ok c
    → c.command ≡ run daemon
    → scan_run dir (arg ∷ rest) ≡ some c.work_dir
unfolding scan_run
scan_run_word config dir arg [] c daemon e h =
    let (word, flags, same) = with_command_run config dir arg [] c daemon e h in
    let read = run_words arg word in ground arith
scan_run_word config dir arg (v ∷ rest) c daemon e h =
    let (word, flags, same) = with_command_run config dir arg (v ∷ rest) c daemon e h in
    let read = run_words arg word in ground arith

scan_run_config :
    (dir arg v : Text) (rest : List Text)
    → run_option arg ≡ RunOption.config_option
    → scan_run dir (arg ∷ v ∷ rest) ≡ scan_run dir rest
unfolding scan_run
scan_run_config dir arg v rest o = ground arith

scan_run_dir :
    (dir arg v : Text) (rest : List Text)
    → run_option arg ≡ dir_option
    → scan_run dir (arg ∷ v ∷ rest) ≡ scan_run v rest
unfolding scan_run
scan_run_dir dir arg v rest o = ground arith

scan_run-parse_from :
    (config dir : Text) (args : List Text) (c : Cli) (daemon : Bool)
    → parse_from config dir args ≡ ok c
    → c.command ≡ run daemon
    → scan_run dir args ≡ some c.work_dir
unfolding parse_from
scan_run-parse_from config dir [] c daemon e h = cc
scan_run-parse_from config dir (arg ∷ []) c daemon e h =
    scan_run_word config dir arg [] c daemon (ground arith) h
scan_run-parse_from config dir (arg ∷ v ∷ rest) c daemon e h =
    elim (global_option arg)
        as (λ o. global_option arg ≡ o → scan_run dir (arg ∷ v ∷ rest) ≡ some c.work_dir) [
          | config_option ↦ λ o.
              scan_run_config dir arg v rest (config_words arg o)
              ∙ scan_run-parse_from v dir rest c daemon (ground arith) h
          | work_dir_option ↦ λ o.
              scan_run_dir dir arg v rest (dir_words arg o)
              ∙ scan_run-parse_from config v rest c daemon (ground arith) h
          | usage_option ↦ λ o. absurd (ground arith)
          | version_option ↦ λ o. absurd (ground arith)
          | subcommand ↦ λ o. scan_run_word config dir arg (v ∷ rest) c daemon (ground arith) h
        ]
      refl

-- The bytes of /proc/<pid>/cmdline: each argument with a zero behind it.
unfoldable pub cmdline_of : List Text → Text
cmdline_of [] = []
cmdline_of (arg ∷ args) = arg ++ (0 ∷ cmdline_of args)

-- Whether arguments can be told apart there: none is empty, and none has a zero.
unfoldable pub visible : List Text → Bool
unfolding lacks
visible [] = true
visible (arg ∷ args) = not (is_empty_text arg) && (lacks 0 arg && visible args)

nonempty_parts-cmdline_of :
    (args : List Text) → visible args ≡ true → nonempty_parts (split 0 (cmdline_of args)) ≡ args
unfolding nonempty_parts cmdline_of visible
nonempty_parts-cmdline_of [] h = unfold split in refl
nonempty_parts-cmdline_of (arg ∷ args) h =
    let cut = split-append 0 arg (cmdline_of args) (ground arith) in
    let some_arg : is_empty_text arg ≡ false = ground arith in
    rw (cut, some_arg, nonempty_parts-cmdline_of args (ground arith)) refl

read_cmdline_args-cmdline_of :
    (program : Text) (args : List Text)
    → visible (program ∷ args) ≡ true
    → read_cmdline_args (some (cmdline_of (program ∷ args))) ≡ some (program ∷ args)
unfolding read_cmdline_args
read_cmdline_args-cmdline_of [] args h = absurd (unfold visible in ground arith)
read_cmdline_args-cmdline_of (c ∷ cs) args h =
    rw (nonempty_parts-cmdline_of ((c ∷ cs) ∷ args) h) (unfold cmdline_of in refl)

parts_eq_refl : (xs : List Text) → parts_eq xs xs ≡ true
unfolding parts_eq
parts_eq_refl [] = refl
parts_eq_refl (x ∷ xs) = ground (arith, text_eq_iff x x, parts_eq_refl xs)

path_eq_refl : (p : PathBuf) → path_eq p p ≡ true
unfolding path_eq
path_eq_refl p = ground (arith, parts_eq_refl p.parts)

daemon_with_run :
    (program work_dir : Text) (args : List Text) (p : Process) (pid : ℕ) (target : PathBuf)
    → is_addrsyncd_argv0 program ≡ true
    → scan_run (codes ".") args ≡ some work_dir
    → resolve_daemon_work_dir p.cwd work_dir ≡ some target
    → daemon_with target pid p (program ∷ args)
      ≡ some (record { pid = pid; start_ticks = p.start_ticks })
unfolding daemon_with parse_run_work_dir
daemon_with_run program work_dir args p pid target named scanned dir =
    ground (arith, path_eq_refl target)

-- A process that runs the program as a daemon is taken for one: its command line is one that
-- `parse_args` accepts as `run`, its name is that of the program, its arguments are not empty, and it
-- is neither the asking process nor the first. The directory is that of the command line.
pub daemon_of-parse_args :
    (program : Text) (args : List Text) (c : Cli) (daemon : Bool) (p : Process) (self_pid pid : ℕ)
    (target : PathBuf)
    → parse_args (program ∷ args) ≡ ok c
    → c.command ≡ run daemon
    → visible (program ∷ args) ≡ true
    → is_addrsyncd_argv0 program ≡ true
    → p.cmdline ≡ some (cmdline_of (program ∷ args))
    → parse_unsigned (2 ^ 31) p.entry ≡ some pid
    → (leb pid 1 || pid == self_pid) ≡ false
    → resolve_daemon_work_dir p.cwd c.work_dir ≡ some target
    → daemon_of self_pid target p ≡ some (record { pid = pid; start_ticks = p.start_ticks })
unfolding parse_args daemon_of
daemon_of-parse_args program args c daemon p self_pid pid target e h v named shown number other
      dir =
    let scanned = scan_run-parse_from (codes "addrsyncd.toml") (codes ".") args c daemon e h in
    let read = read_cmdline_args-cmdline_of program args v in
    ground (arith, daemon_with_run program c.work_dir args p pid target named scanned dir)
