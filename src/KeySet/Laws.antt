-- ===== src/KeySet/Laws.antt =====
-- The set operations by what they contain.
use addrsyncd.Base.{◌≡◌, true, false, List, [], ◌∷◌, arith, if◌then◌else◌, Bool-cases, inl, inr}
use addrsyncd.IpKey.{IpKey, key_eq}
use addrsyncd.IpKey.Order.{eq_of_key_eq, key_eq_refl}
use addrsyncd.KeySet.{contains, insert, remove}

-- Keys that are equal have the same tests.
key_eq-subst : (a b j : IpKey) → key_eq a b ≡ true → key_eq a j ≡ key_eq b j
key_eq-subst a b j e = rw (eq_of_key_eq a b e)

pub contains-insert :
    (j k : IpKey) (s : List IpKey)
    → contains j (insert k s) ≡ (if key_eq k j then true else contains j s)
unfolding insert
contains-insert j k s = elim (Bool-cases (key_eq k j)) [
  | inl e ↦ rw (eq_of_key_eq k j e) (ground (arith, key_eq_refl j))
  | inr e ↦ ground arith
]

pub contains-remove :
    (j k : IpKey) (s : List IpKey)
    → contains j (remove k s) ≡ (if key_eq k j then false else contains j s)
unfolding contains remove
contains-remove j k [] = ground arith
contains-remove j k (x ∷ xs) =
    ground (arith, contains-remove j k xs, key_eq-subst x k j, eq_of_key_eq k j)
