-- ===== src/KeySet.antt =====
-- `FxHashSet<IpKey>` and the sorting of keys that src/daemon/service/resync_cleanup.rs uses. The
-- order of the list stands for the order in which the set is iterated, which nothing may rely on.
pub mod Laws
pub mod Sorting
use addrsyncd.Base.{Bool, true, false, not, ◌||◌, List, [], ◌∷◌, if◌then◌else◌}
use addrsyncd.IpKey.{IpKey, key_eq, key_lt}

unfoldable pub contains : IpKey → List IpKey → Bool
contains k [] = false
contains k (x ∷ xs) = key_eq x k || contains k xs

unfoldable pub insert : IpKey → List IpKey → List IpKey
unfolding contains
insert k s = if contains k s then s else k ∷ s

unfoldable pub remove : IpKey → List IpKey → List IpKey
remove k [] = []
remove k (x ∷ xs) = let rest = remove k xs in if key_eq x k then rest else x ∷ rest

insert_sorted : IpKey → List IpKey → List IpKey
insert_sorted k [] = k ∷ []
insert_sorted k (x ∷ xs) = if key_lt x k then x ∷ insert_sorted k xs else k ∷ x ∷ xs

-- `slice::sort_unstable`: equal keys cannot be told apart, so any sorting gives this list.
unfoldable pub sort_unstable : List IpKey → List IpKey
unfolding insert_sorted
sort_unstable [] = []
sort_unstable (x ∷ xs) = insert_sorted x (sort_unstable xs)

dedup_after : IpKey → List IpKey → List IpKey
dedup_after x [] = []
dedup_after x (y ∷ ys) =
    let same = dedup_after x ys in
    let other = y ∷ dedup_after y ys in if key_eq x y then same else other

-- `Vec::dedup`
unfoldable pub dedup : List IpKey → List IpKey
unfolding dedup_after
dedup [] = []
dedup (x ∷ xs) = x ∷ dedup_after x xs
