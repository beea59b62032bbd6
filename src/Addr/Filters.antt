-- ===== src/Addr/Filters.antt =====
-- `IgnoreFilters` and `CidrMatcher` of src/netlink/addr.rs, and the tests of an address.
pub mod Prefix
pub mod Search
use Prim.Native.Nat.{bit_and}
use addrsyncd.Base.{
  ℕ, ◌+◌, ◌-◌, ◌*◌, ◌/◌, ◌%◌, ◌^◌, Bool, true, false, not, ◌&&◌, ◌||◌, List, [], ◌∷◌, ◌++◌, ltb,
  ◌==◌, if◌then◌else◌, take, drop, replicate, get_or,
}
use addrsyncd.Base.Bytes.{be_value}
use addrsyncd.IpKey.{IpAddr, IpKey, from_ip}
use addrsyncd.KeySet.{contains, insert}

-- `mask_v4` is `mask 32` and `mask_v6` is `mask 128`, for a prefix of at most that many bits: the parser
-- of the configuration lets no longer one through.
unfoldable pub mask : ℕ → ℕ → ℕ → ℕ
mask width value prefix =
    let shifted = ((2 ^ width - 1) * 2 ^ (width - prefix)) % 2 ^ width in
    if prefix == 0 then 0 else bit_and value shifted

unfoldable pub bucket_contains : ℕ → List ℕ → Bool
bucket_contains v [] = false
bucket_contains v (x ∷ xs) = (x == v) || bucket_contains v xs

-- `entry(prefix).or_default().insert(masked)`
unfoldable pub insert_masked : ℕ → ℕ → List (ℕ × List ℕ) → List (ℕ × List ℕ)
unfolding bucket_contains
insert_masked prefix masked [] = (prefix, masked ∷ []) ∷ []
insert_masked prefix masked ((p, bucket) ∷ rest) =
    let bucket' = if bucket_contains masked bucket then bucket else masked ∷ bucket in
    let later = (p, bucket) ∷ insert_masked prefix masked rest in
    if p == prefix then (p, bucket') ∷ rest else later

insert_longest_first : ℕ × List ℕ → List (ℕ × List ℕ) → List (ℕ × List ℕ)
insert_longest_first b [] = b ∷ []
insert_longest_first b (x ∷ xs) =
    let later = x ∷ insert_longest_first b xs in if ltb b.0 x.0 then later else b ∷ x ∷ xs

-- Longer prefixes first.
unfoldable pub sort_longest_first : List (ℕ × List ℕ) → List (ℕ × List ℕ)
unfolding insert_longest_first
sort_longest_first [] = []
sort_longest_first (b ∷ bs) = insert_longest_first b (sort_longest_first bs)

pub record CidrMatcher : Type 0 where
  pub v4_buckets : List (ℕ × List ℕ)
  pub v6_buckets : List (ℕ × List ℕ)

unfoldable pub add_cidr : IpAddr → ℕ → CidrMatcher → CidrMatcher
unfolding insert_masked mask be_value
add_cidr (IpAddr.v4 octets) prefix m = record m {
  v4_buckets = insert_masked prefix (mask 32 (be_value octets) prefix) m.v4_buckets;
}
add_cidr (IpAddr.v6 octets) prefix m = record m {
  v6_buckets = insert_masked prefix (mask 128 (be_value octets) prefix) m.v6_buckets;
}

unfoldable pub add_cidrs : List (IpAddr × ℕ) → CidrMatcher → CidrMatcher
unfolding add_cidr
add_cidrs [] m = m
add_cidrs ((addr, prefix) ∷ cidrs) m = add_cidrs cidrs (add_cidr addr prefix m)

-- `CidrMatcher::new`
unfoldable pub new_matcher : List (IpAddr × ℕ) → CidrMatcher
unfolding add_cidrs sort_longest_first
new_matcher cidrs =
    let m = add_cidrs cidrs (record { v4_buckets = []; v6_buckets = [] }) in
    record {
      v4_buckets = sort_longest_first m.v4_buckets;
      v6_buckets = sort_longest_first m.v6_buckets;
    }

unfoldable pub any_bucket : ℕ → ℕ → List (ℕ × List ℕ) → Bool
unfolding mask bucket_contains
any_bucket width value [] = false
any_bucket width value ((prefix, bucket) ∷ rest) =
    bucket_contains (mask width value prefix) bucket || any_bucket width value rest

-- `CidrMatcher::contains`
unfoldable pub matcher_contains : CidrMatcher → IpAddr → Bool
unfolding any_bucket be_value
matcher_contains m (IpAddr.v4 octets) = any_bucket 32 (be_value octets) m.v4_buckets
matcher_contains m (IpAddr.v6 octets) = any_bucket 128 (be_value octets) m.v6_buckets

octets_eq : List ℕ → List ℕ → Bool
octets_eq [] [] = true
octets_eq [] (y ∷ ys) = false
octets_eq (x ∷ xs) [] = false
octets_eq (x ∷ xs) (y ∷ ys) = (x == y) && octets_eq xs ys

-- `to_ipv4_mapped` takes `::ffff:a.b.c.d` to `a.b.c.d`.
unfoldable pub unmap_addr : IpAddr → IpAddr
unfolding octets_eq
unmap_addr (IpAddr.v4 octets) = IpAddr.v4 octets
unmap_addr (IpAddr.v6 octets) =
    if octets_eq (take 12 octets) (replicate 10 0 ++ replicate 2 255)
    then IpAddr.v4 (drop 12 octets)
    else IpAddr.v6 octets

-- The tests of the standard library: 0.0.0.0, 127.0.0.0/8 and 169.254.0.0/16, and ::, ::1 and
-- fe80::/10.
unfoldable pub is_valid_addr : IpAddr → Bool
unfolding octets_eq
is_valid_addr (IpAddr.v4 octets) =
    not (octets_eq octets (replicate 4 0))
    && (not (get_or octets 0 0 == 127)
        && not ((get_or octets 0 0 == 169) && (get_or octets 1 0 == 254)))
is_valid_addr (IpAddr.v6 octets) =
    if octets_eq octets (replicate 16 0) || octets_eq octets (replicate 15 0 ++ (1 ∷ []))
    then false
    else not ((get_or octets 0 0 == 254) && (get_or octets 1 0 / 64 == 2))

-- The set of addresses is held by their keys.
pub record IgnoreFilters : Type 0 where
  pub ip_set : List IpKey
  pub cidr_matcher : CidrMatcher
  pub flag_mask : ℕ

unfoldable pub insert_ips : List IpAddr → List IpKey → List IpKey
unfolding unmap_addr from_ip insert
insert_ips [] set = set
insert_ips (ip ∷ ips) set = insert_ips ips (insert (from_ip (unmap_addr ip)) set)

-- `IgnoreFilters::new`
unfoldable pub new_filters : List IpAddr → List (IpAddr × ℕ) → ℕ → IgnoreFilters
unfolding insert_ips new_matcher
new_filters ignore_ips ignore_cidrs flag_mask = record {
  ip_set = insert_ips ignore_ips [];
  cidr_matcher = new_matcher ignore_cidrs;
  flag_mask = flag_mask;
}

unfoldable pub should_ignore_addr : IgnoreFilters → IpAddr → Bool
unfolding unmap_addr from_ip contains matcher_contains
should_ignore_addr filters addr =
    let unmapped = unmap_addr addr in
    contains (from_ip unmapped) filters.ip_set || matcher_contains filters.cidr_matcher unmapped
