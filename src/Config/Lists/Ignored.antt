-- ===== src/Config/Lists/Ignored.antt =====
-- From the texts of `ignore_ips` (src/config.rs) to the filter of addresses (src/netlink/addr.rs).
use addrsyncd.Base.{
  ℕ, ◌≡◌, refl, true, ◌||◌, List, [], ◌∷◌, ◌++◌, arith, Option, some, Bool-cases, Option-cases, inl,
  inr, ok,
}
use mathlib.Core.Logic.{◌↔◌}
use addrsyncd.Base.Texts.{Text, text_mem, text_eq, text_eq_iff}
use addrsyncd.IpKey.{IpAddr, IpKey, from_ip}
use addrsyncd.IpKey.Order.{key_eq_refl}
use addrsyncd.KeySet.{contains, insert}
use addrsyncd.KeySet.Laws.{contains-insert}
use addrsyncd.Addr.Filters.{unmap_addr, insert_ips, new_filters, should_ignore_addr}
use addrsyncd.Config.Lists.{addr_eq, addr_mem, ip_list_from, parse_ip_list}

pub addr_eq_iff : (a b : IpAddr) → (addr_eq a b ≡ true) ↔ (a ≡ b)
unfolding addr_eq
addr_eq_iff (IpAddr.v4 a) (IpAddr.v4 b) = ground (arith, text_eq_iff a b)
addr_eq_iff (IpAddr.v4 a) (IpAddr.v6 b) = ground arith
addr_eq_iff (IpAddr.v6 a) (IpAddr.v4 b) = ground arith
addr_eq_iff (IpAddr.v6 a) (IpAddr.v6 b) = ground (arith, text_eq_iff a b)

addr_mem-append :
    (a : IpAddr) (xs ys : List IpAddr) → addr_mem a (xs ++ ys) ≡ (addr_mem a xs || addr_mem a ys)
unfolding addr_mem
addr_mem-append a [] ys = refl
addr_mem-append a (x ∷ xs) ys = ground (arith, addr_mem-append a xs ys)

contains-insert_ips_kept :
    (k : IpKey) (ips : List IpAddr) (set : List IpKey)
    → contains k set ≡ true
    → contains k (insert_ips ips set) ≡ true
unfolding insert_ips
contains-insert_ips_kept k [] set h = h
contains-insert_ips_kept k (ip ∷ ips) set h =
    let key : IpKey = from_ip (unmap_addr ip) in
    contains-insert_ips_kept k ips (insert key set) (ground (arith, contains-insert k key set))

contains-insert_ips :
    (a : IpAddr) (ips : List IpAddr) (set : List IpKey)
    → addr_mem a ips ≡ true
    → contains (from_ip (unmap_addr a)) (insert_ips ips set) ≡ true
unfolding insert_ips addr_mem
contains-insert_ips a [] set h = cc
contains-insert_ips a (ip ∷ ips) set h =
    let key : IpKey = from_ip (unmap_addr a) in
    elim (Bool-cases (addr_eq ip a)) [
      | inl same ↦
          let here : ip ≡ a = (addr_eq_iff ip a).0 same in
          rw here (
            contains-insert_ips_kept key ips (insert key set)
              (ground (arith, contains-insert key key set, key_eq_refl key)))
      | inr other ↦ contains-insert_ips a ips (insert (from_ip (unmap_addr ip)) set) (ground arith)
    ]

module _ (parse_ip : Text → Option IpAddr) where
  ip_list_from_keeps :
      (a : IpAddr) (values : List Text) (seen ips : List IpAddr)
      → ip_list_from parse_ip seen values ≡ ok ips
      → addr_mem a seen ≡ true
      → addr_mem a ips ≡ true
  unfolding ip_list_from
  ip_list_from_keeps a [] seen ips e h = ground arith
  ip_list_from_keeps a (raw ∷ values) seen ips e h = elim (Option-cases (parse_ip raw)) [
    | inl unread ↦ absurd (ground arith)
    | inr (b, read) ↦
        ip_list_from_keeps a values (seen ++ (b ∷ [])) ips (ground arith)
          (ground (arith, addr_mem-append a seen (b ∷ [])))
  ]

  ip_list_from_reads :
      (a : IpAddr) (text : Text) (values : List Text) (seen ips : List IpAddr)
      → ip_list_from parse_ip seen values ≡ ok ips
      → text_mem text values ≡ true
      → parse_ip text ≡ some a
      → addr_mem a ips ≡ true
  unfolding ip_list_from text_mem
  ip_list_from_reads a text [] seen ips e h f = cc
  ip_list_from_reads a text (raw ∷ values) seen ips e h f = elim (Option-cases (parse_ip raw)) [
    | inl unread ↦ absurd (ground arith)
    | inr (b, read) ↦ elim (Bool-cases (text_eq raw text)) [
      | inr other ↦
          ip_list_from_reads a text values (seen ++ (b ∷ [])) ips (ground arith) (ground arith) f
      | inl same ↦
          let here : raw ≡ text = (text_eq_iff raw text).0 same in
          let read' : parse_ip raw ≡ some a = rw here f in
          ip_list_from_keeps a values (seen ++ (b ∷ [])) ips (ground arith)
            (unfold addr_mem in ground (arith, addr_mem-append a seen (b ∷ []), addr_eq_iff b a))
    ]
  ]

  -- An address whose text stands in a list of `ignore_ips` that loads is ignored by the filters built
  -- from that list, whatever the networks and the flags are.
  pub parse_ip_list-should_ignore_addr :
      (a : IpAddr) (text : Text) (values : List Text) (ips : List IpAddr)
      (cidrs : List (IpAddr × ℕ)) (mask : ℕ)
      → parse_ip_list parse_ip values ≡ ok ips
      → text_mem text values ≡ true
      → parse_ip text ≡ some a
      → should_ignore_addr (new_filters ips cidrs mask) a ≡ true
  unfolding parse_ip_list should_ignore_addr new_filters
  parse_ip_list-should_ignore_addr a text values ips cidrs mask e h f =
      ground (arith, contains-insert_ips a ips [] (ip_list_from_reads a text values [] ips e h f))
