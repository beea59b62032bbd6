-- ===== src/Cli.antt =====
-- src/cli.rs: the command line as data, and `parse_args`.
pub mod PbrOptions
pub mod Arguments
pub mod Valid
use addrsyncd.Base.{ℕ, Bool, ◌||◌, if◌then◌else◌, Result, ok, err}
use addrsyncd.Base.Texts.{Text, codes, text_eq}

pub data CleanupMode : Type 0 where
  tracked dump : CleanupMode

pub data PbrAction : Type 0 where
  apply cleanup status : PbrAction

pub data PbrFamily : Type 0 where
  ipv4 ipv6 : PbrFamily

unfoldable pub as_i32 : PbrFamily → ℕ
as_i32 ipv4 = 2
as_i32 ipv6 = 10

pub record PbrRequest : Type 0 where
  pub action : PbrAction
  pub family : PbrFamily
  pub mark : ℕ
  pub mask : ℕ
  pub table : ℕ
  pub pref : ℕ

pub data Command : Type 0 where
  run : Bool → Command
  stop resync_command status_command : Command
  cleanup_command : CleanupMode → Command
  pbr : PbrRequest → Command

pub record Cli : Type 0 where
  pub config : Text
  pub work_dir : Text
  pub command : Command

-- One constructor for each message, with the texts it shows. The last two are no errors: the process
-- prints and exits with 0.
pub data Stop : Type 0 where
  requires_value : Text → Stop
  subcommand_required : Stop
  unknown_subcommand : Text → Stop
  unknown_option : Text → Text → Stop
  unknown_mode unknown_action invalid_family : Text → Stop
  invalid_number : Text → Text → Stop
  action_required : Stop
  option_required : Text → Stop
  mask_zero table_or_pref_zero : Stop
  help_shown version_shown : Stop

abbrev pub is_help : Text → Bool
is_help arg = text_eq arg (codes "-h") || text_eq arg (codes "--help")
