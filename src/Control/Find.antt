-- ===== src/Control/Find.antt =====
-- `find_running_daemon_normalized` of src/control.rs.
use addrsyncd.Base.{ℕ, ◌^◌, not, ◌||◌, List, [], ◌∷◌, leb, ◌==◌, if◌then◌else◌, Option, none, some}
use addrsyncd.Base.Texts.{Text, parse_unsigned}
use addrsyncd.Control.{
  Process, PathBuf, read_cmdline_args, is_addrsyncd_argv0, parse_run_work_dir, path_eq,
}

pub record DaemonProcess : Type 0 where
  pub pid : ℕ
  pub start_ticks : Option ℕ

-- A process with these arguments, if it is a daemon of the directory.
unfoldable pub daemon_with : PathBuf → ℕ → Process → List Text → Option DaemonProcess
daemon_with target pid p [] = none
daemon_with target pid p (argv0 ∷ args) =
    if not (is_addrsyncd_argv0 argv0)
    then none
    else elim (parse_run_work_dir p.cwd (argv0 ∷ args)) [
      | none ↦ none
      | some dir ↦
          if path_eq dir target
          then some (record { pid = pid; start_ticks = p.start_ticks })
          else none
    ]

-- One entry of /proc. A name that is no number of 31 bits is none of a process; a negative one would
-- be passed over as well.
unfoldable pub daemon_of : ℕ → PathBuf → Process → Option DaemonProcess
daemon_of self_pid target p = elim (parse_unsigned (2 ^ 31) p.entry) [
  | none ↦ none
  | some pid ↦ if leb pid 1 || pid == self_pid then none else elim (read_cmdline_args p.cmdline) [
    | none ↦ none
    | some args ↦ daemon_with target pid p args
  ]
]

-- The first entry that is one.
unfoldable pub find_running_daemon : ℕ → PathBuf → List Process → Option DaemonProcess
unfolding daemon_of
find_running_daemon self_pid target [] = none
find_running_daemon self_pid target (p ∷ entries) =
    let later = find_running_daemon self_pid target entries in
    elim (daemon_of self_pid target p) [ none ↦ later | some found ↦ some found ]
