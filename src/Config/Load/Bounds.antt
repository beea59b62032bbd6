-- ===== src/Config/Load/Bounds.antt =====
-- What src/config.rs guarantees of the numbers in loaded options.
use addrsyncd.Base.{
  ℕ, ◌^◌, ◌≤◌, ◌<◌, ◌≡◌, List, [], ◌∷◌, ◌++◌, arith, some, Option, Option-cases, inl, inr, ok,
  bind_ok, All, All-append,
}
use addrsyncd.Base.Texts.{Text, codes}
use addrsyncd.IpKey.{IpAddr}
use addrsyncd.Config.{TomlTable}
use addrsyncd.Config.Sections.{
  DaemonSection, FiltersSection, load_daemon, load_log, load_rule, load_filters,
}
use addrsyncd.Config.Lists.{max_prefix, parse_cidr, cidr_list_from, parse_cidr_list}
use addrsyncd.Config.Load.{
  Host, Options, check_sections, sanitize_work_dir, resolve_relative_path, read_table,
  validate_positive, validate, load_table, load,
}

abbrev pub FitsFamily : IpAddr × ℕ → Type 0
FitsFamily c = c.1 ≤ max_prefix c.0

pub record IsValid (o : Options) : Type 0 where
  pub debounce_positive : 0 < o.debounce
  pub debounce_ordered : o.debounce ≤ o.debounce_max
  pub batch_positive : 0 < o.batch_max
  pub pref_positive : 0 < o.pref
  pub pref_bounded : o.pref < 2 ^ 32
  pub table_positive : 0 < o.table_id
  pub table_bounded : o.table_id < 2 ^ 32
  pub prefixes_fit : All FitsFamily o.ignore_cidrs

module _ (parse_ip : Text → Option IpAddr) where
  parse_cidr-FitsFamily :
      (raw : Text) (c : IpAddr × ℕ) → parse_cidr parse_ip raw ≡ some c → FitsFamily c
  unfolding parse_cidr
  parse_cidr-FitsFamily raw c e = ground arith

  cidr_list_from-FitsFamily :
      (values : List Text) (seen cidrs : List (IpAddr × ℕ))
      → All FitsFamily seen
      → cidr_list_from parse_ip seen values ≡ ok cidrs
      → All FitsFamily cidrs
  unfolding cidr_list_from
  cidr_list_from-FitsFamily [] seen cidrs h e = ground arith
  cidr_list_from-FitsFamily (raw ∷ values) seen cidrs h e =
      elim (Option-cases (parse_cidr parse_ip raw)) [
        | inl none_read ↦ absurd (ground arith)
        | inr (c, read) ↦
            let fits = parse_cidr-FitsFamily raw c read in
            cidr_list_from-FitsFamily values (seen ++ (c ∷ [])) cidrs
              (All-append FitsFamily seen (c ∷ []) h (fits, tt)) (ground arith)
      ]

validate_positive_lt : (n : ℕ) (key : Text) (u : Unit {0}) → validate_positive n key ≡ ok u → 0 < n
unfolding validate_positive
validate_positive_lt n key u e = ground arith

module _ (host : Host) where
  validate_numbers :
      (dir cfg : Text) (d : DaemonSection) (log : Text × Text) (rule : ℕ × ℕ) (f : FiltersSection)
      (o : Options)
      → validate host dir cfg d log rule f ≡ ok o
      → (0 < o.debounce)
        × (o.debounce ≤ o.debounce_max)
        × (0 < o.batch_max)
        × ((o.pref ≡ rule.0) × (0 < rule.0))
        × ((o.table_id ≡ rule.1) × (0 < rule.1))
        × (parse_cidr_list host.parse_ip f.cidrs_raw ≡ ok o.ignore_cidrs)
  unfolding validate
  validate_numbers dir cfg d log rule f o e = ground arith

  validate-IsValid :
      (dir cfg : Text) (d : DaemonSection) (log : Text × Text) (rule : ℕ × ℕ) (f : FiltersSection)
      (o : Options)
      → rule.0 < 2 ^ 32
      → rule.1 < 2 ^ 32
      → validate host dir cfg d log rule f ≡ ok o
      → IsValid o
  unfolding parse_cidr_list
  validate-IsValid dir cfg d log rule f o hp ht e =
      let numbers = validate_numbers dir cfg d log rule f o e in
      record {
        debounce_positive = numbers.0;
        debounce_ordered = numbers.1;
        batch_positive = numbers.2;
        pref_positive = omega (arith, ht, numbers.3);
        pref_bounded = ground (arith, numbers.3);
        table_positive = ground (arith, numbers.4);
        table_bounded = ground (arith, numbers.4);
        prefixes_fit =
            cidr_list_from-FitsFamily host.parse_ip f.cidrs_raw [] o.ignore_cidrs tt numbers.5;
      }

  load_rule_lt :
      (table : TomlTable) (r : ℕ × ℕ) → load_rule table ≡ ok r → (r.0 < 2 ^ 32) × (r.1 < 2 ^ 32)
  unfolding load_rule
  load_rule_lt table r e = ground arith

  load_table-IsValid :
      (dir cfg : Text) (table : TomlTable) (o : Options)
      → load_table host dir cfg table ≡ ok o
      → IsValid o
  unfolding load_table
  load_table-IsValid dir cfg table o e =
      let (u, e0, k0) = bind_ok (check_sections table) _ o e in
      let (d, e1, k1) = bind_ok (load_daemon table) _ o k0 in
      let (log, e2, k2) = bind_ok (load_log table) _ o k1 in
      let (rule, e3, k3) = bind_ok (load_rule table) _ o k2 in
      let (f, e4, k4) = bind_ok (load_filters table) _ o k3 in
      let small = load_rule_lt table rule e3 in
      validate-IsValid dir cfg d log rule f o small.0 small.1 k4

  -- Options that are loaded have positive durations, in order, a positive batch, a positive preference
  -- and table of 32 bits, and networks whose prefix fits their address.
  pub load-IsValid :
      (config_path raw_dir : Text) (o : Options) → load host config_path raw_dir ≡ ok o → IsValid o
  unfolding load
  load-IsValid config_path raw_dir o e =
      let (dir, e0, k0) = bind_ok (sanitize_work_dir raw_dir) _ o e in
      let (cfg, e1, k1) =
        bind_ok (resolve_relative_path host config_path dir (codes "config path")) _ o k0 in
      let (table, e2, k2) = bind_ok (read_table host cfg) _ o k1 in
      load_table-IsValid dir cfg table o k2
