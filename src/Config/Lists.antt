-- ===== src/Config/Lists.antt =====
-- The lists of the section `[filters]` of src/config.rs: flags, addresses and networks.
pub mod Ignored
pub mod Networks
use Prim.Native.Nat.{bit_or}
use addrsyncd.Base.{
  ℕ, ◌^◌, Bool, true, false, ◌&&◌, ◌||◌, List, [], ◌∷◌, ◌++◌, ltb, ◌==◌, if◌then◌else◌, Option,
  none, some, Result, ok, err, ◌>>=◌,
}
use addrsyncd.Base.Texts.{Text, codes, text_eq, text_mem, is_empty_text, split_once, parse_unsigned}
use addrsyncd.IpKey.{IpAddr}
use addrsyncd.Config.{ConfigError, empty_list_value, invalid_list_value, duplicate_list_value}

-- The constants `IFA_F_*` by their names.
unfoldable pub flag_bit : Text → Option ℕ
flag_bit raw =
    if text_eq raw (codes "temporary")
    then some 1
    else if text_eq raw (codes "optimistic")
    then some 4
    else if text_eq raw (codes "deprecated")
    then some 32
    else if text_eq raw (codes "tentative")
    then some 64
    else if text_eq raw (codes "dadfailed")
    then some 8
    else if text_eq raw (codes "stable_privacy")
    then some 2048
    else if text_eq raw (codes "managetempaddr")
    then some 256
    else none

-- `seen` holds the values before, `mask` their bits.
unfoldable pub flag_mask_from : List Text → ℕ → List Text → Result ConfigError ℕ
unfolding flag_bit
flag_mask_from seen mask [] = ok mask
flag_mask_from seen mask (raw ∷ values) =
    if is_empty_text raw
    then err (empty_list_value (codes "filters.ignore_addr_flags"))
    else elim (flag_bit raw) [
      | none ↦ err (invalid_list_value (codes "filters.ignore_addr_flags") raw)
      | some bit ↦
          if text_mem raw seen
          then err (duplicate_list_value (codes "filters.ignore_addr_flags") raw)
          else flag_mask_from (raw ∷ seen) (bit_or mask bit) values
    ]

unfoldable pub parse_ignore_flag_mask : List Text → Result ConfigError ℕ
unfolding flag_mask_from
parse_ignore_flag_mask values = flag_mask_from [] 0 values

unfoldable pub addr_eq : IpAddr → IpAddr → Bool
unfolding text_eq
addr_eq (IpAddr.v4 a) (IpAddr.v4 b) = text_eq a b
addr_eq (IpAddr.v4 a) (IpAddr.v6 b) = false
addr_eq (IpAddr.v6 a) (IpAddr.v4 b) = false
addr_eq (IpAddr.v6 a) (IpAddr.v6 b) = text_eq a b

unfoldable pub addr_mem : IpAddr → List IpAddr → Bool
unfolding addr_eq
addr_mem a [] = false
addr_mem a (b ∷ bs) = addr_eq b a || addr_mem a bs

unfoldable pub cidr_mem : IpAddr × ℕ → List (IpAddr × ℕ) → Bool
unfolding addr_eq
cidr_mem c [] = false
cidr_mem c (d ∷ ds) = (addr_eq d.0 c.0 && d.1 == c.1) || cidr_mem c ds

unfoldable pub max_prefix : IpAddr → ℕ
max_prefix (IpAddr.v4 octets) = 32
max_prefix (IpAddr.v6 octets) = 128

-- `str::parse::<IpAddr>` is an argument.
module _ (parse_ip : Text → Option IpAddr) where
  -- `seen` is the list of the addresses before, which is also the result so far.
  unfoldable pub ip_list_from : List IpAddr → List Text → Result ConfigError (List IpAddr)
  unfolding addr_mem
  ip_list_from seen [] = ok seen
  ip_list_from seen (raw ∷ values) =
      if is_empty_text raw
      then err (empty_list_value (codes "filters.ignore_ips"))
      else elim (parse_ip raw) [
        | none ↦ err (invalid_list_value (codes "filters.ignore_ips") raw)
        | some parsed ↦
            if addr_mem parsed seen
            then err (duplicate_list_value (codes "filters.ignore_ips") raw)
            else ip_list_from (seen ++ (parsed ∷ [])) values
      ]

  unfoldable pub parse_ip_list : List Text → Result ConfigError (List IpAddr)
  unfolding ip_list_from
  parse_ip_list values = ip_list_from [] values

  -- The address and the prefix of `raw`, if both parse and the prefix fits the family.
  unfoldable pub parse_cidr : Text → Option (IpAddr × ℕ)
  unfolding max_prefix
  parse_cidr raw = elim (split_once b'/' raw) [
    | none ↦ none
    | some (addr_str, prefix_str) ↦ elim (parse_ip addr_str) [
      | none ↦ none
      | some addr ↦ elim (parse_unsigned (2 ^ 8) prefix_str) [
        | none ↦ none
        | some prefix ↦ if ltb (max_prefix addr) prefix then none else some (addr, prefix)
      ]
    ]
  ]

  unfoldable pub cidr_list_from :
      List (IpAddr × ℕ) → List Text → Result ConfigError (List (IpAddr × ℕ))
  unfolding parse_cidr cidr_mem
  cidr_list_from seen [] = ok seen
  cidr_list_from seen (raw ∷ values) =
      if is_empty_text raw
      then err (empty_list_value (codes "filters.ignore_cidrs"))
      else elim (parse_cidr raw) [
        | none ↦ err (invalid_list_value (codes "filters.ignore_cidrs") raw)
        | some parsed ↦
            if cidr_mem parsed seen
            then err (duplicate_list_value (codes "filters.ignore_cidrs") raw)
            else cidr_list_from (seen ++ (parsed ∷ [])) values
      ]

  unfoldable pub parse_cidr_list : List Text → Result ConfigError (List (IpAddr × ℕ))
  unfolding cidr_list_from
  parse_cidr_list values = cidr_list_from [] values
