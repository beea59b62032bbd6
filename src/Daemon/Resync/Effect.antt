-- ===== src/Daemon/Resync/Effect.antt =====
-- What the plan of a resync (src/daemon/service/resync_cleanup.rs) does to the set of owned keys.
use addrsyncd.Base.{
  ◌≡◌, refl, ap, ◌∙◌, Bool, true, false, List, [], ◌∷◌, ◌||◌, arith, if◌then◌else◌, map, All,
  Bool-cases, inl, inr,
}
use addrsyncd.IpKey.{IpKey, IsKey, key_eq, key_lt, from_ip}
use addrsyncd.IpKey.RoundTrip.{from_ip-into_ip}
use addrsyncd.IpKey.Order.{eq_of_key_eq, key_trichotomy}
use addrsyncd.KeySet.{contains, insert, remove}
use addrsyncd.KeySet.Laws.{contains-insert, contains-remove}
use addrsyncd.KeySet.Sorting.{Above, IsAscending, not_mem-Above}
use addrsyncd.Rule.{RuleOp, RuleAction, add, delete}
use addrsyncd.Daemon.Resync.{op_of}
use addrsyncd.Daemon.Resync.Diff.{plan, plan_key}

-- The set after an acknowledged operation.
unfoldable pub apply_action : RuleAction → IpKey → List IpKey → List IpKey
unfolding insert remove
apply_action add key owned = insert key owned
apply_action delete key owned = remove key owned

unfoldable pub apply_ops : List RuleOp → List IpKey → List IpKey
unfolding apply_action
apply_ops [] owned = owned
apply_ops (op ∷ ops) owned = apply_ops ops (apply_action op.action (from_ip op.addr) owned)

-- Whether the set has `j` after the operations, if `b` says whether it had `j` before.
abbrev pub wants : RuleAction → Bool
wants add = true
wants delete = false

unfoldable pub effect : IpKey → List RuleOp → Bool → Bool
effect j [] b = b
effect j (op ∷ ops) b = effect j ops (if key_eq (from_ip op.addr) j then wants op.action else b)

contains-apply_action :
    (j k : IpKey) (a : RuleAction) (owned : List IpKey)
    → contains j (apply_action a k owned) ≡ (if key_eq k j then wants a else contains j owned)
unfolding apply_action
contains-apply_action j k add owned = contains-insert j k owned
contains-apply_action j k delete owned = contains-remove j k owned

pub contains-apply_ops :
    (j : IpKey) (ops : List RuleOp) (owned : List IpKey)
    → contains j (apply_ops ops owned) ≡ effect j ops (contains j owned)
unfolding apply_ops effect
contains-apply_ops j [] owned = refl
contains-apply_ops j (op ∷ ops) owned =
    contains-apply_ops j ops (apply_action op.action (from_ip op.addr) owned)
    ∙ ap (effect j ops) (contains-apply_action j (from_ip op.addr) op.action owned)

-- What the plan should do with `j`: bring in what only the target has, take out what only the
-- current set has, and leave the rest alone.
abbrev wanted : Bool → Bool → Bool → Bool
wanted in_target in_current b =
    if in_target then (if in_current then b else true) else (if in_current then false else b)

effect-op_of :
    (j k : IpKey) (a : RuleAction) (ops : List RuleOp) (b : Bool)
    → IsKey k
    → effect j (op_of a k ∷ ops) b ≡ effect j ops (if key_eq k j then wants a else b)
unfolding effect op_of
effect-op_of j k a ops b h = rw (from_ip-into_ip k h)

effect-deletes :
    (j : IpKey) (ks : List IpKey) (b : Bool)
    → All IsKey ks
    → effect j (map (op_of delete) ks) b ≡ wanted false (contains j ks) b
unfolding contains
effect-deletes j [] b h = unfold effect in refl
effect-deletes j (k ∷ ks) b h =
    effect-op_of j k delete (map (op_of delete) ks) b h.0
    ∙ effect-deletes j ks (if key_eq k j then false else b) h.1
    ∙ ground arith

-- An ascending list stays so without its first key.
IsAscending-tail : (k : IpKey) (ks : List IpKey) → Above k ks → IsAscending ks
IsAscending-tail k [] a = tt
IsAscending-tail k (x ∷ xs) a = a.1

not_mem-key :
    (j k : IpKey) (ks : List IpKey) → Above k ks → key_eq k j ≡ true → contains j ks ≡ false
not_mem-key j k ks a e = rw (← eq_of_key_eq k j e) (not_mem-Above k ks a)

-- A key below all of the others is in none of the lists.
not_mem-below :
    (j k t : IpKey) (ts : List IpKey)
    → key_lt k t ≡ true
    → Above t ts
    → key_eq k j ≡ true
    → (key_eq t j || contains j ts) ≡ false
not_mem-below j k t ts h a e = unfold contains in not_mem-key j k (t ∷ ts) (h, a) e

effect-plan_key :
    (j t : IpKey) (ts ks : List IpKey) (b : Bool)
    → IsKey t
    → All IsKey ks
    → Above t ts
    → IsAscending ks
    → ((ks' : List IpKey) (b' : Bool)
        → All IsKey ks'
        → IsAscending ks'
        → effect j (plan ts ks') b' ≡ wanted (contains j ts) (contains j ks') b')
    → effect j (plan_key t (plan ts) ks) b ≡ wanted (contains j (t ∷ ts)) (contains j ks) b
unfolding plan_key contains
effect-plan_key j t ts [] b ht hk at ak ih = ground (
  arith,
  effect-op_of j t add (plan ts []) b ht,
  ih [] (if key_eq t j then true else b) tt tt,
  not_mem-key j t ts at,
)
effect-plan_key j t ts (k ∷ ks) b ht hk at ak ih = elim (Bool-cases (key_lt t k)) [
  | inl below ↦ rw below (
      ground (
        arith,
        effect-op_of j t add (plan ts (k ∷ ks)) b ht,
        ih (k ∷ ks) (if key_eq t j then true else b) hk ak,
        not_mem-key j t ts at,
        not_mem-below j t k ks below ak,
      ))
  | inr not_below ↦ elim (Bool-cases (key_lt k t)) [
    | inl above ↦
        rw (not_below, above)
          (ground (
            arith,
            effect-op_of j k delete (plan_key t (plan ts) ks) b hk.0,
            effect-plan_key j t ts ks (if key_eq k j then false else b) ht hk.1 at
                (IsAscending-tail k ks ak) ih,
            not_mem-key j k ks ak,
            not_mem-below j k t ts above at,
          ))
    | inr not_above ↦
        let same : t ≡ k = eq_of_key_eq t k (ground (arith, key_trichotomy t k)) in
        rw (not_below, not_above)
          (ground (
            arith,
            same,
            ih ks b hk.1 (IsAscending-tail k ks ak),
            not_mem-key j t ts at,
            not_mem-key j k ks ak,
          ))
  ]
]

effect-plan :
    (j : IpKey) (ts ks : List IpKey) (b : Bool)
    → All IsKey ts
    → All IsKey ks
    → IsAscending ts
    → IsAscending ks
    → effect j (plan ts ks) b ≡ wanted (contains j ts) (contains j ks) b
unfolding plan
effect-plan j [] ks b ht hk at ak = unfold contains in effect-deletes j ks b hk
effect-plan j (t ∷ ts) ks b ht hk at ak =
    effect-plan_key j t ts ks b ht.0 hk at ak
      (λ ks' b' hk' ak'. effect-plan j ts ks' b' ht.1 hk' (IsAscending-tail t ts at) ak')

-- When every operation of the plan between two ascending lists is acknowledged, and the owned
-- keys were those of the second list, the owned keys are those of the first.
pub contains-apply_ops-plan :
    (target current owned : List IpKey)
    → All IsKey target
    → All IsKey current
    → IsAscending target
    → IsAscending current
    → ((j : IpKey) → contains j owned ≡ contains j current)
    → (j : IpKey) → contains j (apply_ops (plan target current) owned) ≡ contains j target
contains-apply_ops-plan target current owned ht hc at ac same j = ground (
  arith,
  contains-apply_ops j (plan target current) owned,
  effect-plan j target current (contains j owned) ht hc at ac,
  same j,
)
