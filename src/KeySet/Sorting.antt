-- ===== src/KeySet/Sorting.antt =====
-- Sorting and removing duplicates keeps the members and gives a strictly ascending list.
use addrsyncd.Base.{◌≡◌, refl, ◌∙◌, true, false, ◌||◌, List, [], ◌∷◌, arith}
use addrsyncd.IpKey.{IpKey, key_eq, key_lt}
use addrsyncd.IpKey.Order.{
  eq_of_key_eq, key_trichotomy, key_lt_trans, key_lt_asymm, key_eq_comm, key_lt_ne,
}
use addrsyncd.KeySet.{contains, insert_sorted, sort_unstable, dedup_after, dedup}

-- Strictly ascending from `x` on.
abbrev pub Above : IpKey → List IpKey → Type 0
Above x [] = Unit {0}
Above x (y ∷ ys) = (key_lt x y ≡ true) × Above y ys

abbrev pub IsAscending : List IpKey → Type 0
IsAscending [] = Unit {0}
IsAscending (x ∷ xs) = Above x xs

-- Ascending from `x` on, equal keys allowed.
abbrev From : IpKey → List IpKey → Type 0
From x [] = Unit {0}
From x (y ∷ ys) = (key_lt y x ≡ false) × From y ys

abbrev IsSorted : List IpKey → Type 0
IsSorted [] = Unit {0}
IsSorted (x ∷ xs) = From x xs

insert_sorted-From :
    (x k : IpKey) (xs : List IpKey) → key_lt k x ≡ false → From x xs → From x (insert_sorted k xs)
unfolding insert_sorted
insert_sorted-From x k [] h f = (h, tt)
insert_sorted-From x k (y ∷ ys) h f = ground (arith, insert_sorted-From y k ys, key_lt_asymm y k)

insert_sorted-IsSorted : (k : IpKey) (xs : List IpKey) → IsSorted xs → IsSorted (insert_sorted k xs)
unfolding insert_sorted
insert_sorted-IsSorted k [] f = tt
insert_sorted-IsSorted k (y ∷ ys) f = ground (arith, insert_sorted-From y k ys, key_lt_asymm y k)

sort_unstable-IsSorted : (xs : List IpKey) → IsSorted (sort_unstable xs)
unfolding sort_unstable
sort_unstable-IsSorted [] = tt
sort_unstable-IsSorted (x ∷ xs) =
    insert_sorted-IsSorted x (sort_unstable xs) (sort_unstable-IsSorted xs)

dedup_after-Above : (x : IpKey) (xs : List IpKey) → From x xs → Above x (dedup_after x xs)
unfolding dedup_after
dedup_after-Above x [] f = tt
dedup_after-Above x (y ∷ ys) f =
    ground
      (arith, dedup_after-Above x ys, dedup_after-Above y ys, key_trichotomy x y, eq_of_key_eq x y)

dedup-IsAscending : (xs : List IpKey) → IsSorted xs → IsAscending (dedup xs)
unfolding dedup
dedup-IsAscending [] f = tt
dedup-IsAscending (x ∷ xs) f = dedup_after-Above x xs f

contains-insert_sorted :
    (j k : IpKey) (xs : List IpKey)
    → contains j (insert_sorted k xs) ≡ (key_eq k j || contains j xs)
unfolding contains insert_sorted
contains-insert_sorted j k [] = refl
contains-insert_sorted j k (x ∷ xs) = ground (arith, contains-insert_sorted j k xs)

contains-sort_unstable :
    (j : IpKey) (xs : List IpKey) → contains j (sort_unstable xs) ≡ contains j xs
unfolding contains sort_unstable
contains-sort_unstable j [] = refl
contains-sort_unstable j (x ∷ xs) =
    ground (arith, contains-insert_sorted j x (sort_unstable xs), contains-sort_unstable j xs)

contains-dedup_after :
    (j x : IpKey) (xs : List IpKey)
    → (key_eq x j || contains j (dedup_after x xs)) ≡ (key_eq x j || contains j xs)
unfolding contains dedup_after
contains-dedup_after j x [] = refl
contains-dedup_after j x (y ∷ ys) =
    ground (arith, contains-dedup_after j x ys, contains-dedup_after j y ys, eq_of_key_eq x y)

contains-dedup : (j : IpKey) (xs : List IpKey) → contains j (dedup xs) ≡ contains j xs
unfolding contains dedup
contains-dedup j [] = refl
contains-dedup j (x ∷ xs) = contains-dedup_after j x xs

-- A list of keys that is sorted and then rid of duplicates is strictly ascending and contains the same
-- keys as before.
pub dedup-sort_unstable :
    (xs : List IpKey)
    → IsAscending (dedup (sort_unstable xs))
      × ((j : IpKey) → contains j (dedup (sort_unstable xs)) ≡ contains j xs)
dedup-sort_unstable xs = (
  dedup-IsAscending (sort_unstable xs) (sort_unstable-IsSorted xs),
  λ j. contains-dedup j (sort_unstable xs) ∙ contains-sort_unstable j xs,
)

pub Above-trans : (x y : IpKey) (ys : List IpKey) → key_lt x y ≡ true → Above y ys → Above x ys
Above-trans x y [] h a = tt
Above-trans x y (z ∷ zs) h a = (key_lt_trans x y z h a.0, a.1)

-- An ascending list has its lower end only once.
pub not_mem-Above : (x : IpKey) (xs : List IpKey) → Above x xs → contains x xs ≡ false
unfolding contains
not_mem-Above x [] a = refl
not_mem-Above x (y ∷ ys) a =
    let apart : key_eq y x ≡ false = key_eq_comm y x ∙ key_lt_ne x y a.0 in
    rw apart (not_mem-Above x ys (Above-trans x y ys a.0 a.1))
