-- ===== src/Config/Sections.antt =====
-- The sections of a configuration (src/config.rs), each checked for unknown keys and taken apart.
use addrsyncd.Base.{ℕ, ◌%◌, ◌^◌, Bool, List, [], ◌∷◌, none, some, Result, ok, err, ◌>>=◌}
use addrsyncd.Base.Texts.{Text, codes}
use addrsyncd.Config.{ConfigError, Section, TomlTable, get, missing_section}
use addrsyncd.Config.Take.{
  take_str, take_u64, take_bool, take_array_or_default, reject_unknown_keys,
  reject_unknown_keys_with_allowlist,
}

unfoldable pub take_section : TomlTable → Text → Result ConfigError Section
take_section table name = elim (get name table) [
  | some section ↦ ok section
  | none ↦ err (missing_section name)
]

-- What the sections give before it is validated.
pub record DaemonSection : Type 0 where
  pub ipv6_raw : Bool
  pub debounce_ms : ℕ
  pub debounce_max_ms : ℕ
  pub batch_max_raw : ℕ

pub record FiltersSection : Type 0 where
  pub flags_raw : List Text
  pub ips_raw : List Text
  pub cidrs_raw : List Text

abbrev pub daemon_keys : List Text
daemon_keys = codes "ipv6" ∷ codes "debounce_ms" ∷ codes "debounce_max_ms" ∷ codes "batch_max" ∷ []

-- `as usize` on a target of 64 bits.
unfoldable pub load_daemon : TomlTable → Result ConfigError DaemonSection
unfolding take_section take_bool take_u64 reject_unknown_keys reject_unknown_keys_with_allowlist
load_daemon table = take_section table (codes "daemon") >>= (λ s0.
    reject_unknown_keys_with_allowlist s0 (codes "daemon") daemon_keys >>= (λ _.
      take_bool s0 (codes "ipv6") (codes "daemon") >>= (λ r1.
        take_u64 r1.1 (codes "debounce_ms") (codes "daemon") >>= (λ r2.
          take_u64 r2.1 (codes "debounce_max_ms") (codes "daemon") >>= (λ r3.
            take_u64 r3.1 (codes "batch_max") (codes "daemon") >>= (λ r4.
              reject_unknown_keys r4.1 (codes "daemon") >>= (λ _. ok (record {
                ipv6_raw = r1.0;
                debounce_ms = r2.0;
                debounce_max_ms = r3.0;
                batch_max_raw = r4.0 % 2 ^ 64;
              }))))))))

abbrev pub log_keys : List Text
log_keys = codes "level" ∷ codes "file" ∷ []

-- The level and the file.
unfoldable pub load_log : TomlTable → Result ConfigError (Text × Text)
unfolding take_section take_str reject_unknown_keys reject_unknown_keys_with_allowlist
load_log table = take_section table (codes "log") >>= (λ s0.
    reject_unknown_keys_with_allowlist s0 (codes "log") log_keys >>= (λ _.
      take_str s0 (codes "level") (codes "log") >>= (λ r1.
        take_str r1.1 (codes "file") (codes "log")
        >>= (λ r2. reject_unknown_keys r2.1 (codes "log") >>= (λ _. ok (r1.0, r2.0))))))

abbrev pub rule_keys : List Text
rule_keys = codes "pref" ∷ codes "table_id" ∷ []

-- `as u32` keeps the low 32 bits of the preference and the table.
unfoldable pub load_rule : TomlTable → Result ConfigError (ℕ × ℕ)
unfolding take_section take_u64 reject_unknown_keys reject_unknown_keys_with_allowlist
load_rule table = take_section table (codes "rule") >>= (λ s0.
    reject_unknown_keys_with_allowlist s0 (codes "rule") rule_keys >>= (λ _.
      take_u64 s0 (codes "pref") (codes "rule") >>= (λ r1.
        take_u64 r1.1 (codes "table_id") (codes "rule") >>= (λ r2.
          reject_unknown_keys r2.1 (codes "rule") >>= (λ _. ok (r1.0 % 2 ^ 32, r2.0 % 2 ^ 32))))))

abbrev pub filters_keys : List Text
filters_keys = codes "ignore_addr_flags" ∷ codes "ignore_ips" ∷ codes "ignore_cidrs" ∷ []

unfoldable pub load_filters : TomlTable → Result ConfigError FiltersSection
unfolding take_section take_array_or_default reject_unknown_keys reject_unknown_keys_with_allowlist
load_filters table = take_section table (codes "filters") >>= (λ s0.
    reject_unknown_keys_with_allowlist s0 (codes "filters") filters_keys >>= (λ _.
      take_array_or_default s0 (codes "ignore_addr_flags") (codes "filters") >>= (λ r1.
        take_array_or_default r1.1 (codes "ignore_ips") (codes "filters") >>= (λ r2.
          take_array_or_default r2.1 (codes "ignore_cidrs") (codes "filters") >>= (λ r3.
            reject_unknown_keys r3.1 (codes "filters")
            >>= (λ _. ok (record { flags_raw = r1.0; ips_raw = r2.0; cidrs_raw = r3.0 })))))))
