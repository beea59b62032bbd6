-- ===== src/Examples/Config.antt =====
-- Configuration files at concrete texts.
use addrsyncd.Base.{
  ℕ, List, arith, Bool-cases, inl, inr, ◌≡◌, refl, true, [], ◌∷◌, ◌++◌, ok, err, some, none, Option,
  if◌then◌else◌,
}
use addrsyncd.Base.Texts.{
  Text, pos, codes, text_eq, text_mem, lines, starts_with, trim, split_once, parse_i64, is_white,
  parse_unsigned,
}
use addrsyncd.IpKey.{IpAddr}
use addrsyncd.Addr.Filters.{new_filters, should_ignore_addr, unmap_addr}
use addrsyncd.Addr.Filters.Search.{in_network}
use addrsyncd.Base.Bytes.{le_value}
use addrsyncd.Config.Lists.Networks.{ReadsAddresses, parse_cidr_list-should_ignore_addr}
use addrsyncd.Config.{
  at_line, duplicate_key, Section, TomlTable, int_value, bool_value, str_value, array_value, get,
  contains_key, put, remove_key,
}
use addrsyncd.Config.Lists.{parse_ip_list, parse_cidr, parse_cidr_list}
use addrsyncd.Config.Lists.Ignored.{parse_ip_list-should_ignore_addr}
use addrsyncd.Config.Load.{Host, Options, info_level, known_sections, load_table, load}
use addrsyncd.Config.Load.Bounds.{IsValid, load-IsValid}
use addrsyncd.Config.Load.Known.{keys_of, keys_in, load_table-keys_in}
use addrsyncd.Config.Toml.{parse_toml, no_lines}
use addrsyncd.Config.Toml.Tables.{distinct_keys, distinct_sections}
use addrsyncd.Config.Toml.Counts.{stored, entry_lines, parse_toml-stored}
use addrsyncd.Config.Toml.Errors.{FirstFault, parse_toml-FirstFault}
use addrsyncd.Config.Toml.Printed.RoundTrip.{Document, table_of}
use addrsyncd.Config.Toml.Printed.Whole.{print_toml, writable, parse_toml-print_toml}

abbrev some_ip : IpAddr
some_ip = IpAddr.v4 (10 ∷ 0 ∷ 0 ∷ 9 ∷ [])

abbrev known_text : Text → Option IpAddr
known_text s = if text_eq s (codes "10.0.0.9") then some some_ip else none

abbrev daemon_text : Text
daemon_text =
    codes
      "[daemon]\nipv6 = true\ndebounce_ms = 500 # half a second\ndebounce_max_ms = 50\nbatch_max = 8\n"

abbrev other_text : Text
other_text =
    codes
      "[log]\nlevel = \"info\"\nfile = \"a.log\"\n[rule]\npref = 1900\ntable_id = 254\n[filters]\nignore_ips = [\"10.0.0.9\"]\n"

abbrev host : Host
host = record {
  read_to_string = λ path. some (daemon_text ++ other_text);
  is_absolute = starts_with b'/';
  join = λ base path. base ++ (b'/' ∷ path);
  parse_ip = known_text;
}

abbrev some_options : Options
some_options = record {
  work_dir = codes "/d";
  config_path = codes "/d/c";
  log_level = info_level;
  ipv6 = true;
  debounce = 500;
  debounce_max = 500;
  batch_max = 8;
  log_file = codes "/d/a.log";
  pref = 1900;
  table_id = 254;
  ignore_addr_flag_mask = 0;
  ignore_ips = some_ip ∷ [];
  ignore_cidrs = [];
}

loaded : load host (codes "c") (codes "/d") ≡ ok some_options
unfolding load lines trim split_once text_eq get contains_key put parse_i64 text_mem remove_key
loaded = refl

load-IsValid_example : IsValid some_options
load-IsValid_example = load-IsValid host (codes "c") (codes "/d") some_options loaded

abbrev broken : Text
broken = codes "[a]\nx = 1\nx = 2\n"

broken_line : parse_toml broken ≡ err (at_line 3 (duplicate_key (codes "x") (codes "a")))
unfolding parse_toml lines trim split_once text_eq parse_i64 get contains_key put
broken_line = refl

parse_toml-FirstFault_example :
    FirstFault 0 (lines broken) no_lines (at_line 3 (duplicate_key (codes "x") (codes "a")))
parse_toml-FirstFault_example =
    parse_toml-FirstFault broken (at_line 3 (duplicate_key (codes "x") (codes "a"))) broken_line

abbrev one_key : TomlTable
one_key = (codes "a", (codes "x", int_value (pos 1)) ∷ []) ∷ []

one_key_read : parse_toml (codes "[a]\nx = 1\n") ≡ ok one_key
unfolding parse_toml lines trim split_once text_eq parse_i64 get contains_key put
one_key_read = refl

parse_toml-stored_example :
    (stored one_key ≡ entry_lines (lines (codes "[a]\nx = 1\n")))
    × (distinct_keys one_key ≡ true)
    × (distinct_sections one_key ≡ true)
parse_toml-stored_example = parse_toml-stored (codes "[a]\nx = 1\n") one_key one_key_read

abbrev some_document : Document
some_document =
    (codes "log", (codes "level", codes "in\"fo") ∷ (codes "file", codes "a\\b # c") ∷ []) ∷ []

document_writable : writable some_document ≡ true
unfolding writable is_white
document_writable = refl

parse_toml-print_toml_example : parse_toml (print_toml some_document) ≡ ok (table_of some_document)
parse_toml-print_toml_example = parse_toml-print_toml some_document document_writable

ips_read : parse_ip_list known_text (codes "10.0.0.9" ∷ []) ≡ ok (some_ip ∷ [])
unfolding parse_ip_list text_mem
ips_read = refl

parse_ip_list-should_ignore_addr_example :
    should_ignore_addr (new_filters (some_ip ∷ []) [] 0) some_ip ≡ true
unfolding text_mem
parse_ip_list-should_ignore_addr_example =
    parse_ip_list-should_ignore_addr known_text some_ip (codes "10.0.0.9") (codes "10.0.0.9" ∷ [])
      (some_ip ∷ []) [] 0 ips_read refl refl

abbrev some_nets : List (IpAddr × ℕ)
some_nets = (some_ip, 24) ∷ []

nets_read : parse_cidr_list known_text (codes "10.0.0.9/24" ∷ []) ≡ ok some_nets
unfolding parse_cidr_list split_once parse_unsigned text_eq
nets_read = refl

net_read : parse_cidr known_text (codes "10.0.0.9/24") ≡ some (some_ip, 24)
unfolding parse_cidr split_once parse_unsigned text_eq
net_read = refl

known_text-ReadsAddresses : ReadsAddresses known_text
known_text-ReadsAddresses s a e = elim (Bool-cases (text_eq s (codes "10.0.0.9"))) [
  | inl known ↦ let same : some_ip ≡ a = ground arith in rw (← same) (ground arith)
  | inr other ↦ absurd (ground arith)
]

abbrev near_ip : IpAddr
near_ip = IpAddr.v4 (10 ∷ 0 ∷ 0 ∷ 200 ∷ [])

parse_cidr_list-should_ignore_addr_example :
    should_ignore_addr (new_filters [] some_nets 0) near_ip ≡ true
unfolding text_mem in_network unmap_addr le_value
parse_cidr_list-should_ignore_addr_example =
    parse_cidr_list-should_ignore_addr known_text known_text-ReadsAddresses near_ip some_ip 24
      (codes "10.0.0.9/24") (codes "10.0.0.9/24" ∷ []) some_nets [] 0 (ground arith) nets_read refl
      net_read refl

abbrev rule_section : Section
rule_section = (codes "pref", int_value (pos 1900)) ∷ (codes "table_id", int_value (pos 254)) ∷ []

abbrev loaded_table : TomlTable
loaded_table =
    (
      codes "daemon",
      (codes "ipv6", bool_value true)
          ∷ (codes "debounce_ms", int_value (pos 500))
          ∷ (codes "debounce_max_ms", int_value (pos 50))
          ∷ (codes "batch_max", int_value (pos 8))
          ∷ [],
    )
    ∷ (
      codes "log",
      (codes "level", str_value (codes "info")) ∷ (codes "file", str_value (codes "a.log")) ∷ [],
    )
    ∷ (codes "rule", rule_section)
    ∷ (codes "filters", (codes "ignore_ips", array_value (codes "10.0.0.9" ∷ [])) ∷ [])
    ∷ []

table_loaded : load_table host (codes "/d") (codes "/d/c") loaded_table ≡ ok some_options
unfolding load_table text_eq get text_mem remove_key
table_loaded = refl

rule_there : get (codes "rule") loaded_table ≡ some rule_section
unfolding get text_eq
rule_there = refl

load_table-keys_in_example :
    (text_mem (codes "rule") known_sections ≡ true)
    × (keys_in (keys_of (codes "rule")) rule_section ≡ true)
load_table-keys_in_example =
    load_table-keys_in host (codes "/d") (codes "/d/c") (codes "rule") loaded_table rule_section
      some_options table_loaded rule_there
