-- ===== src/Config/Lists/Networks.antt =====
-- From the texts of `ignore_cidrs` (src/config.rs) to the filter of addresses (src/netlink/addr.rs).
use addrsyncd.Base.{
  ℕ, zero, suc, ◌^◌, ◌≡◌, refl, Bool, true, false, ◌&&◌, ◌||◌, List, [], ◌∷◌, ◌++◌, arith, ◌==◌,
  if◌then◌else◌, Option, some, Bool-cases, Option-cases, inl, inr, ok, length-drop, drop, All,
  All-append,
}
use addrsyncd.Base.Bytes.{IsByte}
use addrsyncd.Base.Texts.{Text, text_mem, text_eq, text_eq_iff, split_once, parse_unsigned}
use addrsyncd.IpKey.{IpAddr, IsIp}
use addrsyncd.Addr.Filters.{unmap_addr, new_filters, should_ignore_addr}
use addrsyncd.Addr.Filters.Search.{
  IsNetwork, address_bits, in_network, any_network, contains-new_matcher,
}
use addrsyncd.Config.Lists.{
  addr_eq, cidr_mem, max_prefix, parse_cidr, cidr_list_from, parse_cidr_list,
}
use addrsyncd.Config.Lists.Ignored.{addr_eq_iff}

-- What `str::parse::<IpAddr>` reads is an address: four octets or sixteen.
abbrev pub ReadsAddresses : (Text → Option IpAddr) → Type 0
ReadsAddresses parse_ip = (text : Text) (a : IpAddr) → parse_ip text ≡ some a → IsIp a

max_prefix-address_bits : (a : IpAddr) → max_prefix a ≡ address_bits a
unfolding max_prefix
max_prefix-address_bits (IpAddr.v4 octets) = refl
max_prefix-address_bits (IpAddr.v6 octets) = refl

All-drop : (n : ℕ) (bs : List ℕ) → All IsByte bs → All IsByte (drop n bs)
All-drop zero bs h = h
All-drop (suc n) [] h = h
All-drop (suc n) (b ∷ bs) h = All-drop n bs h.1

either_IsIp : (b : Bool) (x y : IpAddr) → IsIp x → IsIp y → IsIp (if b then x else y)
either_IsIp true x y hx hy = hx
either_IsIp false x y hx hy = hy

unmap_addr-IsIp : (a : IpAddr) → IsIp a → IsIp (unmap_addr a)
unfolding unmap_addr
unmap_addr-IsIp (IpAddr.v4 octets) h = h
unmap_addr-IsIp (IpAddr.v6 octets) (l, h) =
    let short = length-drop 12 octets in
    either_IsIp _ (IpAddr.v4 (drop 12 octets)) (IpAddr.v6 octets)
      (omega arith, All-drop 12 octets h) (l, h)

cidr_mem-append :
    (c : IpAddr × ℕ) (xs ys : List (IpAddr × ℕ))
    → cidr_mem c (xs ++ ys) ≡ (cidr_mem c xs || cidr_mem c ys)
unfolding cidr_mem
cidr_mem-append c [] ys = refl
cidr_mem-append c (x ∷ xs) ys = ground (arith, cidr_mem-append c xs ys)

any_network-cidr_mem :
    (addr net : IpAddr) (prefix : ℕ) (nets : List (IpAddr × ℕ))
    → cidr_mem (net, prefix) nets ≡ true
    → in_network addr net prefix ≡ true
    → any_network addr nets ≡ true
unfolding any_network cidr_mem
any_network-cidr_mem addr net prefix [] h i = cc
any_network-cidr_mem addr net prefix ((other, p) ∷ nets) h i =
    elim (Bool-cases (addr_eq other net && p == prefix)) [
      | inl same ↦
          let here : other ≡ net = (addr_eq_iff other net).0 (ground arith) in
          let equal : p ≡ prefix = ground arith in rw (here, equal, i) refl
      | inr apart ↦ ground (arith, any_network-cidr_mem addr net prefix nets)
    ]

module _ (parse_ip : Text → Option IpAddr) (reads : ReadsAddresses parse_ip) where
  parse_cidr-IsNetwork :
      (raw : Text) (c : IpAddr × ℕ) → parse_cidr parse_ip raw ≡ some c → IsNetwork c
  unfolding parse_cidr
  parse_cidr-IsNetwork raw (net, prefix) e = elim (Option-cases (split_once b'/' raw)) [
    | inl whole ↦ absurd (ground arith)
    | inr ((before, after), cut) ↦ elim (Option-cases (parse_ip before)) [
      | inl unread ↦ absurd (ground arith)
      | inr (a, read) ↦ elim (Option-cases (parse_unsigned (2 ^ 8) after)) [
        | inl unread ↦ absurd (ground arith)
        | inr (p, number) ↦
            let fits = max_prefix-address_bits a in
            let same : a ≡ net = ground arith in
            (rw (← same) (reads before a read), rw (← same) (ground (arith, fits)))
      ]
    ]
  ]

  cidr_list_from-IsNetwork :
      (values : List Text) (seen nets : List (IpAddr × ℕ))
      → cidr_list_from parse_ip seen values ≡ ok nets
      → All IsNetwork seen
      → All IsNetwork nets
  unfolding cidr_list_from
  cidr_list_from-IsNetwork [] seen nets e h = let same : seen ≡ nets = ground arith in rw (← same) h
  cidr_list_from-IsNetwork (raw ∷ values) seen nets e h =
      elim (Option-cases (parse_cidr parse_ip raw)) [
        | inl unread ↦ absurd (ground arith)
        | inr (c, read) ↦
            cidr_list_from-IsNetwork values (seen ++ (c ∷ [])) nets (ground arith)
              (All-append IsNetwork seen (c ∷ []) h (parse_cidr-IsNetwork raw c read, tt))
      ]

  cidr_list_from_keeps :
      (c : IpAddr × ℕ) (values : List Text) (seen nets : List (IpAddr × ℕ))
      → cidr_list_from parse_ip seen values ≡ ok nets
      → cidr_mem c seen ≡ true
      → cidr_mem c nets ≡ true
  unfolding cidr_list_from
  cidr_list_from_keeps c [] seen nets e h = ground arith
  cidr_list_from_keeps c (raw ∷ values) seen nets e h =
      elim (Option-cases (parse_cidr parse_ip raw)) [
        | inl unread ↦ absurd (ground arith)
        | inr (d, read) ↦
            cidr_list_from_keeps c values (seen ++ (d ∷ [])) nets (ground arith)
              (ground (arith, cidr_mem-append c seen (d ∷ [])))
      ]

  cidr_list_from_reads :
      (c : IpAddr × ℕ) (text : Text) (values : List Text) (seen nets : List (IpAddr × ℕ))
      → cidr_list_from parse_ip seen values ≡ ok nets
      → text_mem text values ≡ true
      → parse_cidr parse_ip text ≡ some c
      → cidr_mem c nets ≡ true
  unfolding cidr_list_from text_mem
  cidr_list_from_reads c text [] seen nets e h f = cc
  cidr_list_from_reads c text (raw ∷ values) seen nets e h f =
      elim (Option-cases (parse_cidr parse_ip raw)) [
        | inl unread ↦ absurd (ground arith)
        | inr (d, read) ↦ elim (Bool-cases (text_eq raw text)) [
          | inr other ↦
              cidr_list_from_reads c text values (seen ++ (d ∷ [])) nets (ground arith)
                (ground arith) f
          | inl same ↦
              let here : raw ≡ text = (text_eq_iff raw text).0 same in
              let read' : parse_cidr parse_ip raw ≡ some c = rw here f in
              let one : d ≡ c = ground arith in
              cidr_list_from_keeps c values (seen ++ (d ∷ [])) nets (ground arith) (
                rw one (
                  unfold cidr_mem in
                  ground (arith, cidr_mem-append c seen (c ∷ []), addr_eq_iff c.0 c.0)))
        ]
      ]

  -- An address in a network whose text stands in a list of `ignore_cidrs` that loads is ignored by the
  -- filters built from that list, whatever the other addresses and the flags are: one whose first bits,
  -- as many as the text says, are those of the network, taken as IPv4 if it is a mapped one.
  pub parse_cidr_list-should_ignore_addr :
      (addr net : IpAddr) (prefix : ℕ) (text : Text) (values : List Text) (nets : List (IpAddr × ℕ))
      (ips : List IpAddr) (mask : ℕ)
      → IsIp addr
      → parse_cidr_list parse_ip values ≡ ok nets
      → text_mem text values ≡ true
      → parse_cidr parse_ip text ≡ some (net, prefix)
      → in_network (unmap_addr addr) net prefix ≡ true
      → should_ignore_addr (new_filters ips nets mask) addr ≡ true
  unfolding parse_cidr_list should_ignore_addr new_filters
  parse_cidr_list-should_ignore_addr addr net prefix text values nets ips mask a e h f i =
      let listed = cidr_list_from_reads (net, prefix) text values [] nets e h f in
      let found = any_network-cidr_mem (unmap_addr addr) net prefix nets listed i in
      let same =
        contains-new_matcher (unmap_addr addr) nets (unmap_addr-IsIp addr a)
          (cidr_list_from-IsNetwork values [] nets e tt) in
      ground (arith, found, same)
