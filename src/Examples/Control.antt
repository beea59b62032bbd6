-- ===== src/Examples/Control.antt =====
-- Command lines, processes and the wait for a process at concrete inputs.
use addrsyncd.Base.{◌≤◌, ◌≡◌, refl, true, false, List, [], ◌∷◌, ok, some, none, length}
use addrsyncd.Base.Texts.{Text, codes, split, text_eq, parse_unsigned}
use addrsyncd.Cli.{Cli, run, pbr, PbrRequest, apply, ipv6}
use addrsyncd.Cli.Arguments.{parse_args}
use addrsyncd.Cli.Valid.{IsValidRequest, parse_args-IsValidRequest}
use addrsyncd.Control.{Process, PathBuf, is_addrsyncd_argv0, resolve_daemon_work_dir}
use addrsyncd.Control.Find.{daemon_of}
use addrsyncd.Control.Agree.{cmdline_of, visible, daemon_of-parse_args}
use addrsyncd.Control.Polling.{
  Poll, wait_stopped, clock_runs, doubling, wait_stopped-doubling_bounded,
}

abbrev pbr_args : List Text
pbr_args =
    codes "addrsyncd"
    ∷ codes "pbr"
    ∷ codes "apply"
    ∷ codes "--family"
    ∷ codes "6"
    ∷ codes "--mark"
    ∷ codes "0x10"
    ∷ codes "--mask"
    ∷ codes "255"
    ∷ codes "--table"
    ∷ codes "100"
    ∷ codes "--pref"
    ∷ codes "0xFf"
    ∷ []

abbrev pbr_request : PbrRequest
pbr_request = record {
  action = apply;
  family = ipv6;
  mark = 16;
  mask = 255;
  table = 100;
  pref = 255;
}

abbrev pbr_cli : Cli
pbr_cli = record {
  config = codes "addrsyncd.toml";
  work_dir = codes ".";
  command = pbr pbr_request;
}

pbr_parsed : parse_args pbr_args ≡ ok pbr_cli
unfolding parse_args text_eq
pbr_parsed = refl

parse_args-IsValidRequest_example : IsValidRequest pbr_request
parse_args-IsValidRequest_example =
    parse_args-IsValidRequest pbr_args pbr_cli pbr_request pbr_parsed refl

abbrev run_args : List Text
run_args = codes "-c" ∷ codes "c" ∷ codes "-d" ∷ codes "/d/../e" ∷ codes "run" ∷ []

abbrev run_cli : Cli
run_cli = record { config = codes "c"; work_dir = codes "/d/../e"; command = run false }

run_parsed : parse_args (codes "/bin/addrsyncd" ∷ run_args) ≡ ok run_cli
unfolding parse_args text_eq
run_parsed = refl

abbrev daemon : Process
daemon = record {
  entry = codes "42";
  cmdline = some (cmdline_of (codes "/bin/addrsyncd" ∷ run_args));
  cwd = none;
  start_ticks = some 9;
}

abbrev dir_e : PathBuf
dir_e = record { absolute = true; parts = codes "e" ∷ [] }

args_visible : visible (codes "/bin/addrsyncd" ∷ run_args) ≡ true
unfolding visible
args_visible = refl

program_named : is_addrsyncd_argv0 (codes "/bin/addrsyncd") ≡ true
unfolding is_addrsyncd_argv0 split text_eq
program_named = refl

dir_resolved : resolve_daemon_work_dir none (codes "/d/../e") ≡ some dir_e
unfolding resolve_daemon_work_dir split text_eq
dir_resolved = refl

daemon_of-parse_args_example :
    daemon_of 7 dir_e daemon ≡ some (record { pid = 42; start_ticks = some 9 })
daemon_of-parse_args_example =
    daemon_of-parse_args (codes "/bin/addrsyncd") run_args run_cli false daemon 7 42 dir_e
      run_parsed refl args_visible program_named refl (unfold parse_unsigned in refl) refl
      dir_resolved

abbrev three_polls : List Poll
three_polls =
    record { now = 100; ticks = some 9 }
    ∷ record { now = 121; ticks = some 9 }
    ∷ record { now = 170; ticks = none }
    ∷ []

clock_good : clock_runs 100 20 three_polls ≡ true
unfolding clock_runs
clock_good = refl

wait_stopped-doubling_bounded_example :
    let sleeps = (wait_stopped 5100 (some 9) 20 three_polls).sleeps in
    (length sleeps ≤ 250) × (sleeps ≡ doubling 20 (length sleeps))
wait_stopped-doubling_bounded_example =
    wait_stopped-doubling_bounded 100 (some 9) three_polls clock_good
