-- ===== src/Daemon/Batch/Prefilter.antt =====
-- The prefilter of `start_pending_batch` (src/daemon/service/batch_apply.rs) drops only operations
-- without an effect.
use addrsyncd.Base.{
  ◌≡◌, refl, sym, ◌∙◌, Bool, true, false, List, [], ◌∷◌, arith, Bool-cases, inl, inr,
}
use addrsyncd.IpKey.{IpKey, key_eq, from_ip}
use addrsyncd.IpKey.Order.{eq_of_key_eq}
use addrsyncd.KeySet.{contains}
use addrsyncd.Rule.{RuleOp}
use addrsyncd.Daemon.Batch.Pending.{should_skip, prefilter}
use addrsyncd.Daemon.Resync.Effect.{apply_ops, contains-apply_ops, effect}

-- No two operations are for the same key, as in the pending map.
abbrev pub IsFresh : IpKey → List RuleOp → Type 0
IsFresh k [] = Unit {0}
IsFresh k (op ∷ ops) = (key_eq (from_ip op.addr) k ≡ false) × IsFresh k ops

abbrev pub IsDistinct : List RuleOp → Type 0
IsDistinct [] = Unit {0}
IsDistinct (op ∷ ops) = IsFresh (from_ip op.addr) ops × IsDistinct ops

effect_fresh : (j : IpKey) (ops : List RuleOp) (b : Bool) → IsFresh j ops → effect j ops b ≡ b
unfolding effect
effect_fresh j [] b h = refl
effect_fresh j (op ∷ ops) b h = ground (arith, effect_fresh j ops b h.1, h.0)

IsFresh-prefilter :
    (k : IpKey) (owned : List IpKey) (ops : List RuleOp)
    → IsFresh k ops
    → IsFresh k (prefilter owned ops)
unfolding prefilter
IsFresh-prefilter k owned [] h = tt
IsFresh-prefilter k owned (op ∷ ops) h = ground (arith, IsFresh-prefilter k owned ops h.1, h.0)

-- The operation's own key, which no later operation is for.
effect-own :
    (j : IpKey) (owned : List IpKey) (op : RuleOp) (ops : List RuleOp)
    → IsFresh (from_ip op.addr) ops
    → key_eq (from_ip op.addr) j ≡ true
    → (b : Bool) → (effect j ops b ≡ b) × (effect j (prefilter owned ops) b ≡ b)
effect-own j owned op ops h e b =
    let fresh : IsFresh j ops = rw (← eq_of_key_eq (from_ip op.addr) j e) h in
    (
      effect_fresh j ops b fresh,
      effect_fresh j (prefilter owned ops) b (IsFresh-prefilter j owned ops fresh),
    )

effect-prefilter :
    (j : IpKey) (owned : List IpKey) (ops : List RuleOp)
    → IsDistinct ops
    → effect j (prefilter owned ops) (contains j owned) ≡ effect j ops (contains j owned)
unfolding prefilter should_skip effect
effect-prefilter j owned [] h = refl
effect-prefilter j owned (op ∷ ops) h = elim (Bool-cases (key_eq (from_ip op.addr) j)) [
  | inl e ↦ ground (
    arith,
    e,
    eq_of_key_eq (from_ip op.addr) j e,
    effect-own j owned op ops h.0 e true,
    effect-own j owned op ops h.0 e false,
  )
  | inr e ↦ ground (arith, e, effect-prefilter j owned ops h.1)
]

-- The prefilter loses nothing: for operations on different addresses, the set of owned keys after those
-- that pass the prefilter were applied has the same keys as after all of them were.
pub contains-apply_ops-prefilter :
    (owned : List IpKey) (ops : List RuleOp)
    → IsDistinct ops
    → (j : IpKey)
    → contains j (apply_ops (prefilter owned ops) owned) ≡ contains j (apply_ops ops owned)
contains-apply_ops-prefilter owned ops h j =
    contains-apply_ops j (prefilter owned ops) owned
    ∙ effect-prefilter j owned ops h
    ∙ sym (contains-apply_ops j ops owned)
