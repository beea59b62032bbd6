-- ===== src/Control.antt =====
-- src/control.rs: finding the running daemon of a working directory among the processes, and waiting
-- for it to stop. What the system shows is an argument: the entries of /proc, links and the clock.
pub mod Find
pub mod Agree
pub mod Polling
use addrsyncd.Base.{
  ℕ, ◌*◌, ◌^◌, min, Bool, true, false, not, ◌&&◌, ◌||◌, List, [], ◌∷◌, ◌++◌, reverse, leb, ltb,
  ◌==◌, if◌then◌else◌, Option, none, some,
}
use addrsyncd.Base.Texts.{Text, codes, text_eq, is_empty_text, split, parse_unsigned, starts_with}

-- `Path::components`, without the prefixes of other systems.
pub data Component : Type 0 where
  root_dir cur_dir parent_dir : Component
  normal : Text → Component

component_of : Text → Component
component_of part =
    if text_eq part (codes ".")
    then cur_dir
    else if text_eq part (codes "..")
    then parent_dir
    else normal part

-- Empty parts are passed over, and so is a part `.` that is not the first.
inner_components : List Text → List Component
unfolding component_of
inner_components [] = []
inner_components (part ∷ parts) =
    let rest = inner_components parts in
    if is_empty_text part || text_eq part (codes ".") then rest else component_of part ∷ rest

unfoldable pub components : Text → List Component
unfolding inner_components
components path =
    let inner = inner_components (split b'/' path) in
    if starts_with b'/' path
    then root_dir ∷ inner
    else if starts_with b'.' path
    then elim (split b'/' path) [
      | [] ↦ inner
      | first ∷ rest ↦ if text_eq first (codes ".") then cur_dir ∷ inner else inner
    ]
    else inner

-- A `PathBuf` that is built from components: whether it starts at the root, and its parts.
pub record PathBuf : Type 0 where
  pub absolute : Bool
  pub parts : List Text

-- `PathBuf::pop`: the root stays.
unfoldable pub pop : List Text → List Text
pop [] = []
pop (part ∷ []) = []
pop (part ∷ next ∷ rest) = part ∷ pop (next ∷ rest)

unfoldable pub push_component : PathBuf → Component → PathBuf
unfolding pop
push_component out root_dir = record { absolute = true; parts = [] }
push_component out cur_dir = out
push_component out parent_dir = record out { parts = pop out.parts }
push_component out (normal part) = record out { parts = out.parts ++ (part ∷ []) }

unfoldable pub normalize_from : PathBuf → List Component → PathBuf
unfolding push_component
normalize_from out [] = out
normalize_from out (c ∷ cs) = normalize_from (push_component out c) cs

unfoldable pub normalize_path : List Component → PathBuf
unfolding normalize_from
normalize_path cs = normalize_from (record { absolute = false; parts = [] }) cs

-- The flags behind `run`.
unfoldable pub only_daemon_flags : List Text → Bool
only_daemon_flags [] = true
only_daemon_flags (arg ∷ rest) = text_eq arg (codes "--daemon") && only_daemon_flags rest

pub data RunOption : Type 0 where
  dir_option config_option run_word other_word : RunOption

unfoldable pub run_option : Text → RunOption
run_option arg =
    if text_eq arg (codes "-d") || text_eq arg (codes "--work-dir")
    then dir_option
    else if text_eq arg (codes "-c") || text_eq arg (codes "--config")
    then config_option
    else if text_eq arg (codes "run")
    then run_word
    else other_word

abbrev when {ℓ} : {A : Type ℓ} → Bool → A → Option A
when true x = some x
when false x = none

-- The arguments behind the name of the program.
unfoldable pub scan_run : Text → List Text → Option Text
scan_run work_dir [] = none
scan_run work_dir (arg ∷ []) = elim (run_option arg) [ run_word ↦ some work_dir | _ ↦ none ]
scan_run work_dir (arg ∷ v ∷ rest) = elim (run_option arg) [
  | dir_option ↦ scan_run v rest
  | config_option ↦ scan_run work_dir rest
  | run_word ↦ when (only_daemon_flags (v ∷ rest)) work_dir
  | other_word ↦ none
]

-- A process as /proc shows it: the name of its entry, its command line, its directory and its start.
pub record Process : Type 0 where
  pub entry : Text
  pub cmdline : Option Text
  pub cwd : Option Text
  pub start_ticks : Option ℕ

-- The parts between the zeros; an empty part is passed over. The command line is valid UTF-8.
unfoldable pub nonempty_parts : List Text → List Text
nonempty_parts [] = []
nonempty_parts (part ∷ parts) =
    let rest = nonempty_parts parts in if is_empty_text part then rest else part ∷ rest

abbrev nonempty_list : List Text → Option (List Text)
nonempty_list [] = none
nonempty_list (arg ∷ args) = some (arg ∷ args)

unfoldable pub read_cmdline_args : Option Text → Option (List Text)
unfolding nonempty_parts
read_cmdline_args none = none
read_cmdline_args (some cmdline) =
    if is_empty_text cmdline then none else nonempty_list (nonempty_parts (split 0 cmdline))

-- `Path::file_name`: the last component, if it is a name.
last_name : List Component → Option Text
last_name [] = none
last_name (normal part ∷ []) = some part
last_name (c ∷ []) = none
last_name (c ∷ d ∷ rest) = last_name (d ∷ rest)

begins_with : Text → Text → Bool
begins_with [] s = true
begins_with (c ∷ cs) [] = false
begins_with (c ∷ cs) (d ∷ ds) = (c == d) && begins_with cs ds

unfoldable pub is_addrsyncd_argv0 : Text → Bool
unfolding last_name begins_with components
is_addrsyncd_argv0 argv0 = elim (last_name (components argv0)) [
  | none ↦ false
  | some name ↦ text_eq name (codes "addrsyncd") || begins_with (codes "addrsyncd-") name
]

-- `cwd.join(raw)` gives the components of both.
unfoldable pub resolve_daemon_work_dir : Option Text → Text → Option PathBuf
unfolding components normalize_path
resolve_daemon_work_dir cwd raw =
    if starts_with b'/' raw then some (normalize_path (components raw)) else elim cwd [
      | none ↦ none
      | some dir ↦ some (normalize_path (components dir ++ components raw))
    ]

unfoldable pub parse_run_work_dir : Option Text → List Text → Option PathBuf
parse_run_work_dir cwd [] = none
parse_run_work_dir cwd (argv0 ∷ args) = elim (scan_run (codes ".") args) [
  | none ↦ none
  | some work_dir ↦ resolve_daemon_work_dir cwd work_dir
]

unfoldable pub parts_eq : List Text → List Text → Bool
unfolding text_eq
parts_eq [] [] = true
parts_eq [] (y ∷ ys) = false
parts_eq (x ∷ xs) [] = false
parts_eq (x ∷ xs) (y ∷ ys) = text_eq x y && parts_eq xs ys

unfoldable pub path_eq : PathBuf → PathBuf → Bool
unfolding parts_eq
path_eq a b = (if a.absolute then b.absolute else not b.absolute) && parts_eq a.parts b.parts
