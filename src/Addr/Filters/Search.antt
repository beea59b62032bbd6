-- ===== src/Addr/Filters/Search.antt =====
-- The buckets of `CidrMatcher` (src/netlink/addr.rs) find what a search through the list of networks
-- finds.
use addrsyncd.Base.{
  ℕ, ◌-◌, ◌/◌, ◌^◌, ◌≤◌, ◌<◌, ◌≡◌, ◌∙◌, ap, length, All, refl, Bool, true, false, ◌||◌, List, [],
  ◌∷◌, ◌==◌, ==_iff, arith,
}
use addrsyncd.Base.Bytes.{be_value, be_value-lt, IsByte}
use addrsyncd.IpKey.{IpAddr, IsIp}
use addrsyncd.Addr.Filters.Prefix.{mask_agree, IsWidth-32, IsWidth-128}
use addrsyncd.Addr.Filters.{
  mask, bucket_contains, insert_masked, insert_longest_first, sort_longest_first, CidrMatcher,
  add_cidr, add_cidrs, new_matcher, any_bucket, matcher_contains,
}

-- An address is in a network of its family if their first `prefix` bits agree: those left when the
-- others are shifted out.
unfoldable pub in_network : IpAddr → IpAddr → ℕ → Bool
unfolding be_value
in_network (IpAddr.v4 addr) (IpAddr.v4 net) prefix =
    be_value net / 2 ^ (32 - prefix) == be_value addr / 2 ^ (32 - prefix)
in_network (IpAddr.v4 addr) (IpAddr.v6 net) prefix = false
in_network (IpAddr.v6 addr) (IpAddr.v4 net) prefix = false
in_network (IpAddr.v6 addr) (IpAddr.v6 net) prefix =
    be_value net / 2 ^ (128 - prefix) == be_value addr / 2 ^ (128 - prefix)

unfoldable pub any_network : IpAddr → List (IpAddr × ℕ) → Bool
unfolding in_network
any_network addr [] = false
any_network addr ((net, prefix) ∷ nets) = in_network addr net prefix || any_network addr nets

abbrev pub address_bits : IpAddr → ℕ
address_bits (IpAddr.v4 octets) = 32
address_bits (IpAddr.v6 octets) = 128

-- A network as the configuration's parser gives it: its prefix is no longer than its address.
abbrev pub IsNetwork : IpAddr × ℕ → Type 0
IsNetwork (net, prefix) = IsIp net × (prefix ≤ address_bits net)

eq_test_subst : (a b v : ℕ) → (a == b) ≡ true → (a == v) ≡ (b == v)
eq_test_subst a b v e = ground arith

bucket_contains_same :
    (masked v : ℕ) (bucket : List ℕ)
    → bucket_contains masked bucket ≡ true
    → (masked == v) ≡ true
    → bucket_contains v bucket ≡ true
unfolding bucket_contains
bucket_contains_same masked v [] h e = h
bucket_contains_same masked v (x ∷ xs) h e = ground (arith, bucket_contains_same masked v xs, h, e)

any_bucket-insert_masked :
    (width value prefix masked : ℕ) (bs : List (ℕ × List ℕ))
    → any_bucket width value (insert_masked prefix masked bs)
      ≡ ((masked == mask width value prefix) || any_bucket width value bs)
unfolding any_bucket insert_masked bucket_contains
any_bucket-insert_masked width value prefix masked [] = ground arith
any_bucket-insert_masked width value prefix masked ((p, bucket) ∷ rest) = ground (
  arith,
  any_bucket-insert_masked width value prefix masked rest,
  bucket_contains_same masked (mask width value prefix) bucket,
  ==_iff p prefix,
)

any_bucket-insert_longest_first :
    (width value : ℕ) (b : ℕ × List ℕ) (bs : List (ℕ × List ℕ))
    → any_bucket width value (insert_longest_first b bs)
      ≡ (bucket_contains (mask width value b.0) b.1 || any_bucket width value bs)
unfolding any_bucket insert_longest_first
any_bucket-insert_longest_first width value b [] = refl
any_bucket-insert_longest_first width value b (x ∷ xs) =
    ground (arith, any_bucket-insert_longest_first width value b xs)

any_bucket-sort_longest_first :
    (width value : ℕ) (bs : List (ℕ × List ℕ))
    → any_bucket width value (sort_longest_first bs) ≡ any_bucket width value bs
unfolding any_bucket sort_longest_first
any_bucket-sort_longest_first width value [] = refl
any_bucket-sort_longest_first width value (b ∷ bs) = ground (
  arith,
  any_bucket-insert_longest_first width value b (sort_longest_first bs),
  any_bucket-sort_longest_first width value bs,
)

value_lt :
    (octets : List ℕ) (n : ℕ) → length octets ≡ n → All IsByte octets → be_value octets < 256 ^ n
value_lt octets n e h = rw (← e) (be_value-lt octets h)

contains-add_cidr :
    (addr net : IpAddr) (prefix : ℕ) (m : CidrMatcher)
    → IsIp addr
    → IsNetwork (net, prefix)
    → matcher_contains (add_cidr net prefix m) addr
      ≡ (in_network addr net prefix || matcher_contains m addr)
unfolding matcher_contains add_cidr in_network
contains-add_cidr (IpAddr.v4 addr) (IpAddr.v4 net) prefix m (la, ba) ((ln, bn), p) =
    any_bucket-insert_masked 32 (be_value addr) prefix (mask 32 (be_value net) prefix) m.v4_buckets
    ∙ ap (λ (agree : Bool). agree || any_bucket 32 (be_value addr) m.v4_buckets)
        (mask_agree 32 (be_value net) (be_value addr) prefix IsWidth-32 p (value_lt net 4 ln bn)
          (value_lt addr 4 la ba))
contains-add_cidr (IpAddr.v4 addr) (IpAddr.v6 net) prefix m a n = refl
contains-add_cidr (IpAddr.v6 addr) (IpAddr.v4 net) prefix m a n = refl
contains-add_cidr (IpAddr.v6 addr) (IpAddr.v6 net) prefix m (la, ba) ((ln, bn), p) =
    any_bucket-insert_masked 128 (be_value addr) prefix (mask 128 (be_value net) prefix)
      m.v6_buckets
    ∙ ap (λ (agree : Bool). agree || any_bucket 128 (be_value addr) m.v6_buckets)
        (mask_agree 128 (be_value net) (be_value addr) prefix IsWidth-128 p (value_lt net 16 ln bn)
          (value_lt addr 16 la ba))

contains-add_cidrs :
    (addr : IpAddr) (nets : List (IpAddr × ℕ)) (m : CidrMatcher)
    → IsIp addr
    → All IsNetwork nets
    → matcher_contains (add_cidrs nets m) addr ≡ (any_network addr nets || matcher_contains m addr)
unfolding add_cidrs any_network
contains-add_cidrs addr [] m a n = refl
contains-add_cidrs addr ((net, prefix) ∷ nets) m a n = ground (
  arith,
  contains-add_cidrs addr nets (add_cidr net prefix m) a n.1,
  contains-add_cidr addr net prefix m a n.0,
)

contains-sorted :
    (addr : IpAddr) (m : CidrMatcher)
    → matcher_contains
        (record {
          v4_buckets = sort_longest_first m.v4_buckets;
          v6_buckets = sort_longest_first m.v6_buckets;
        })
        addr
      ≡ matcher_contains m addr
unfolding matcher_contains
contains-sorted (IpAddr.v4 octets) m =
    any_bucket-sort_longest_first 32 (be_value octets) m.v4_buckets
contains-sorted (IpAddr.v6 octets) m =
    any_bucket-sort_longest_first 128 (be_value octets) m.v6_buckets

empty_matcher-contains :
    (addr : IpAddr) → matcher_contains (record { v4_buckets = []; v6_buckets = [] }) addr ≡ false
unfolding matcher_contains any_bucket
empty_matcher-contains (IpAddr.v4 octets) = refl
empty_matcher-contains (IpAddr.v6 octets) = refl

-- The buckets, grouped and sorted by the length of the prefix, hold an address exactly when a network
-- of the configured list does: one of the same family whose first bits, as many as its prefix says,
-- are those of the address. The addresses have the octets of their family, and no prefix is longer than
-- its address.
pub contains-new_matcher :
    (addr : IpAddr) (nets : List (IpAddr × ℕ))
    → IsIp addr
    → All IsNetwork nets
    → matcher_contains (new_matcher nets) addr ≡ any_network addr nets
unfolding new_matcher
contains-new_matcher addr nets a n =
    let empty : CidrMatcher = record { v4_buckets = []; v6_buckets = [] } in
    ground (
      arith,
      contains-sorted addr (add_cidrs nets empty),
      contains-add_cidrs addr nets empty a n,
      empty_matcher-contains addr,
    )
