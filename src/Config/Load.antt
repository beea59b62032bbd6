-- ===== src/Config/Load.antt =====
-- `Options::load` of src/config.rs, from the file to the validated options, and `Level::parse` of src/logger.rs.
pub mod Bounds
pub mod Known
use addrsyncd.Base.{
  ℕ, ◌%◌, ◌^◌, max, Bool, List, [], ◌∷◌, ◌==◌, if◌then◌else◌, Option, none, some, Result, ok, err,
  ◌>>=◌,
}
use addrsyncd.Base.Texts.{Text, codes, text_eq, text_mem, is_empty_text}
use addrsyncd.IpKey.{IpAddr}
use addrsyncd.Config.{
  ConfigError, Section, TomlTable, get, must_be_positive, must_not_be_empty, bad_level,
  unknown_section, missing_section, read_config_failed,
}
use addrsyncd.Config.Toml.{parse_toml}
use addrsyncd.Config.Sections.{
  DaemonSection, FiltersSection, load_daemon, load_log, load_rule, load_filters,
}
use addrsyncd.Config.Lists.{parse_ignore_flag_mask, parse_ip_list, parse_cidr_list}

pub data Level : Type 0 where
  error_level warn_level info_level debug_level : Level

-- Durations are in milliseconds.
pub record Options : Type 0 where
  pub work_dir : Text
  pub config_path : Text
  pub log_level : Level
  pub ipv6 : Bool
  pub debounce : ℕ
  pub debounce_max : ℕ
  pub batch_max : ℕ
  pub log_file : Text
  pub pref : ℕ
  pub table_id : ℕ
  pub ignore_addr_flag_mask : ℕ
  pub ignore_ips : List IpAddr
  pub ignore_cidrs : List (IpAddr × ℕ)

unfoldable pub parse_level : Text → Result ConfigError Level
parse_level raw =
    if text_eq raw (codes "error")
    then ok error_level
    else if text_eq raw (codes "warn")
    then ok warn_level
    else if text_eq raw (codes "info")
    then ok info_level
    else if text_eq raw (codes "debug")
    then ok debug_level
    else err bad_level

abbrev pub known_sections : List Text
known_sections = codes "daemon" ∷ codes "log" ∷ codes "rule" ∷ codes "filters" ∷ []

unfoldable pub check_sections : TomlTable → Result ConfigError (Unit {0})
check_sections [] = ok tt
check_sections ((name, section) ∷ table) =
    let rest = check_sections table in
    if text_mem name known_sections then rest else err (unknown_section name)

unfoldable pub validate_positive : ℕ → Text → Result ConfigError (Unit {0})
validate_positive value key = if value == 0 then err (must_be_positive key) else ok tt

unfoldable pub sanitize_work_dir : Text → Result ConfigError Text
sanitize_work_dir path =
    if is_empty_text path then err (must_not_be_empty (codes "work_dir")) else ok path

-- What is outside: the file system, `Path` and `str::parse::<IpAddr>`.
pub record Host : Type 0 where
  pub read_to_string : Text → Option Text
  pub is_absolute : Text → Bool
  pub join : Text → Text → Text
  pub parse_ip : Text → Option IpAddr

module _ (host : Host) where
  unfoldable pub resolve_relative_path : Text → Text → Text → Result ConfigError Text
  resolve_relative_path path base context =
      if is_empty_text path
      then err (must_not_be_empty context)
      else if host.is_absolute path
      then ok path
      else ok (host.join base path)

  unfoldable pub read_table : Text → Result ConfigError TomlTable
  unfolding parse_toml
  read_table path = elim (host.read_to_string path) [
    | none ↦ err read_config_failed
    | some text ↦ parse_toml text
  ]

  -- From `// Validate` on.
  unfoldable pub validate :
      Text
      → Text
      → DaemonSection
      → Text × Text
      → ℕ × ℕ
      → FiltersSection
      → Result ConfigError Options
  unfolding validate_positive parse_level resolve_relative_path parse_ignore_flag_mask parse_ip_list
      parse_cidr_list
  validate work_dir cfg d log rule f =
      validate_positive d.debounce_ms (codes "daemon.debounce_ms") >>= (λ _.
        validate_positive d.debounce_max_ms (codes "daemon.debounce_max_ms") >>= (λ _.
          validate_positive d.batch_max_raw (codes "daemon.batch_max") >>= (λ _.
            validate_positive rule.0 (codes "rule.pref") >>= (λ _.
              validate_positive rule.1 (codes "rule.table_id") >>= (λ _.
                parse_level log.0 >>= (λ level.
                  resolve_relative_path log.1 work_dir (codes "log.file") >>= (λ file.
                    parse_ignore_flag_mask f.flags_raw >>= (λ mask.
                      parse_ip_list host.parse_ip f.ips_raw >>= (λ ips.
                        parse_cidr_list host.parse_ip f.cidrs_raw >>= (λ cidrs. ok (record {
                          work_dir = work_dir;
                          config_path = cfg;
                          log_level = level;
                          ipv6 = d.ipv6_raw;
                          debounce = d.debounce_ms;
                          debounce_max = max d.debounce_max_ms d.debounce_ms;
                          batch_max = d.batch_max_raw;
                          log_file = file;
                          pref = rule.0;
                          table_id = rule.1;
                          ignore_addr_flag_mask = mask;
                          ignore_ips = ips;
                          ignore_cidrs = cidrs;
                        })))))))))))

  unfoldable pub load_table : Text → Text → TomlTable → Result ConfigError Options
  unfolding check_sections load_daemon load_log load_rule load_filters validate
  load_table work_dir cfg table = check_sections table >>= (λ _. load_daemon table >>= (λ d.
      load_log table >>= (λ log.
        load_rule table
        >>= (λ rule. load_filters table >>= (λ f. validate work_dir cfg d log rule f)))))

  -- The first argument is the path of the configuration, the second the working directory.
  unfoldable pub load : Text → Text → Result ConfigError Options
  unfolding sanitize_work_dir resolve_relative_path read_table load_table
  load config_path raw_dir = sanitize_work_dir raw_dir >>= (λ work_dir.
      resolve_relative_path config_path work_dir (codes "config path")
      >>= (λ cfg. read_table cfg >>= load_table work_dir cfg))
