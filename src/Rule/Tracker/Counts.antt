-- ===== src/Rule/Tracker/Counts.antt =====
-- `pending` of the tracker (src/netlink/rule.rs) counts the operations not yet acknowledged.
use addrsyncd.Base.{
  ℕ, zero, suc, ◌<◌, ◌≡◌, refl, ap, ◌∙◌, Bool, true, false, List, [], ◌∷◌, arith, ◌==◌,
  if◌then◌else◌, Option, none, length, get_or, set, replicate, length-set, length-replicate,
}
use addrsyncd.Rule.{NetlinkAckStatus}
use addrsyncd.Rule.Tracker.{AckTracker, prepare, seen_at, status_at, mark_status}

-- How many are not yet acknowledged.
abbrev pub unseen : List Bool → ℕ
unseen [] = 0
unseen (true ∷ xs) = unseen xs
unseen (false ∷ xs) = suc (unseen xs)

pub record IsTracker (n : ℕ) (t : AckTracker) : Type 0 where
  pub seen_length : length t.seen ≡ n
  pub status_length : length t.status ≡ n
  pub counts : t.pending ≡ unseen t.seen

unseen-replicate : (n : ℕ) → unseen (replicate n false) ≡ n
unseen-replicate zero = refl
unseen-replicate (suc n) = ap suc (unseen-replicate n)

unseen-set :
    (xs : List Bool) (i : ℕ)
    → i < length xs
    → get_or xs i false ≡ false
    → unseen xs ≡ suc (unseen (set xs i true))
unseen-set [] i h e = elim h [ ]
unseen-set (true ∷ xs) zero h e = cc
unseen-set (false ∷ xs) zero h e = refl
unseen-set (true ∷ xs) (suc i) h e = unseen-set xs i (omega arith) e
unseen-set (false ∷ xs) (suc i) h e = ap suc (unseen-set xs i (omega arith) e)

pub prepare-IsTracker : (n : ℕ) → IsTracker n (prepare n)
unfolding prepare
prepare-IsTracker n = record {
  seen_length = length-replicate n false;
  status_length = length-replicate n none;
  counts = omega (arith, unseen-replicate n);
}

-- An acknowledgement for any index, also one out of range or one that was acknowledged before, keeps
-- the tracker well formed: it has a place for each operation, and `pending` is the number of
-- operations not yet acknowledged.
pub mark_status-IsTracker :
    (n : ℕ) (t : AckTracker) (idx : ℕ) (status : Option NetlinkAckStatus)
    → IsTracker n t
    → IsTracker n (mark_status t idx status)
unfolding mark_status
mark_status-IsTracker n t idx status v =
    ground
      (arith, length-set t.seen idx true, length-set t.status idx status, unseen-set t.seen idx)

eq_suc : (i j : ℕ) → (i == j) ≡ (suc i == suc j)
eq_suc i j = ground arith

get_or-set {ℓ} :
    {A : Type ℓ} (xs : List A) (i j : ℕ) (v d : A)
    → i < length xs
    → get_or (set xs i v) j d ≡ (if i == j then v else get_or xs j d)
get_or-set [] i j v d h = elim h [ ]
get_or-set (x ∷ xs) zero zero v d h = refl
get_or-set (x ∷ xs) zero (suc j) v d h = ground arith
get_or-set (x ∷ xs) (suc i) zero v d h = ground arith
get_or-set (x ∷ xs) (suc i) (suc j) v d h =
    get_or-set xs i j v d (omega arith) ∙ ap (λ b. if b then v else get_or xs j d) (eq_suc i j)

-- In a well-formed tracker, an acknowledgement for an index in range makes it seen and leaves the
-- others as they were; its status is the one that came first.
pub mark_status-lookup :
    (n : ℕ) (t : AckTracker) (idx j : ℕ) (status : Option NetlinkAckStatus)
    → IsTracker n t
    → idx < n
    → (seen_at (mark_status t idx status) j ≡ (if idx == j then true else seen_at t j))
      × (status_at (mark_status t idx status) j
          ≡ (if idx == j then (if seen_at t j then status_at t j else status) else status_at t j))
unfolding mark_status seen_at status_at
mark_status-lookup n t idx j status v h =
    ground (arith, get_or-set t.seen idx j true false, get_or-set t.status idx j status none)
