-- ===== src/IpKey/Order.antt =====
-- The order of src/ip_key.rs is a strict total order whose equality is decided by `key_eq`.
use addrsyncd.Base.{◌≡◌, refl, ap, true, false, ==_iff, ==_refl, arith}
use addrsyncd.IpKey.{IpKey, key_eq, key_lt}

pub key_eq_refl : (a : IpKey) → key_eq a a ≡ true
unfolding key_eq
key_eq_refl (IpKey.v4 a) = ==_refl a
key_eq_refl (IpKey.v6 a) = ==_refl a

pub eq_of_key_eq : (a b : IpKey) → key_eq a b ≡ true → a ≡ b
unfolding key_eq
eq_of_key_eq (IpKey.v4 a) (IpKey.v4 b) e = ap IpKey.v4 ((==_iff a b).0 e)
eq_of_key_eq (IpKey.v4 a) (IpKey.v6 b) e = cc
eq_of_key_eq (IpKey.v6 a) (IpKey.v4 b) e = cc
eq_of_key_eq (IpKey.v6 a) (IpKey.v6 b) e = ap IpKey.v6 ((==_iff a b).0 e)

pub key_lt_trans : (a b c : IpKey) → key_lt a b ≡ true → key_lt b c ≡ true → key_lt a c ≡ true
unfolding key_lt
key_lt_trans (IpKey.v4 a) (IpKey.v4 b) (IpKey.v4 c) p q = ground arith
key_lt_trans (IpKey.v4 a) (IpKey.v4 b) (IpKey.v6 c) p q = refl
key_lt_trans (IpKey.v4 a) (IpKey.v6 b) (IpKey.v4 c) p q = cc
key_lt_trans (IpKey.v4 a) (IpKey.v6 b) (IpKey.v6 c) p q = refl
key_lt_trans (IpKey.v6 a) (IpKey.v4 b) c p q = cc
key_lt_trans (IpKey.v6 a) (IpKey.v6 b) (IpKey.v4 c) p q = cc
key_lt_trans (IpKey.v6 a) (IpKey.v6 b) (IpKey.v6 c) p q = ground arith

pub key_lt_ne : (a b : IpKey) → key_lt a b ≡ true → key_eq a b ≡ false
unfolding key_lt key_eq
key_lt_ne (IpKey.v4 a) (IpKey.v4 b) p = ground arith
key_lt_ne (IpKey.v4 a) (IpKey.v6 b) p = refl
key_lt_ne (IpKey.v6 a) (IpKey.v4 b) p = refl
key_lt_ne (IpKey.v6 a) (IpKey.v6 b) p = ground arith

pub key_eq_comm : (a b : IpKey) → key_eq a b ≡ key_eq b a
unfolding key_eq
key_eq_comm (IpKey.v4 a) (IpKey.v4 b) = ground arith
key_eq_comm (IpKey.v4 a) (IpKey.v6 b) = refl
key_eq_comm (IpKey.v6 a) (IpKey.v4 b) = refl
key_eq_comm (IpKey.v6 a) (IpKey.v6 b) = ground arith

-- Neither below nor above: equal.
pub key_trichotomy : (a b : IpKey) → key_lt a b ≡ false → key_lt b a ≡ false → key_eq a b ≡ true
unfolding key_lt key_eq
key_trichotomy (IpKey.v4 a) (IpKey.v4 b) p q = ground arith
key_trichotomy (IpKey.v4 a) (IpKey.v6 b) p q = cc
key_trichotomy (IpKey.v6 a) (IpKey.v4 b) p q = cc
key_trichotomy (IpKey.v6 a) (IpKey.v6 b) p q = ground arith

pub key_lt_asymm : (a b : IpKey) → key_lt a b ≡ true → key_lt b a ≡ false
unfolding key_lt
key_lt_asymm (IpKey.v4 a) (IpKey.v4 b) p = ground arith
key_lt_asymm (IpKey.v4 a) (IpKey.v6 b) p = refl
key_lt_asymm (IpKey.v6 a) (IpKey.v4 b) p = cc
key_lt_asymm (IpKey.v6 a) (IpKey.v6 b) p = ground arith
