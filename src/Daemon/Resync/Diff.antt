-- ===== src/Daemon/Resync/Diff.antt =====
-- `fill_resync_chunk` (src/daemon/service/resync_cleanup.rs) hands out one plan in chunks: the plan
-- does not depend on how it is cut.
use addrsyncd.Base.{
  ℕ, zero, suc, ◌+◌, ◌-◌, ◌≤◌, ◌<◌, ◌≡◌, refl, ◌⊎◌, inl, inr, List, [], ◌∷◌, ◌++◌, ltb, arith,
  if◌then◌else◌, none, some, length, get_elem?, map, drop, length-append, Bool-cases, Option-cases,
  get_elem?_past, get_elem?_lt, drop_get_next,
}
use mathlib.Core.List.{append_assoc}
use addrsyncd.IpKey.{IpKey, key_lt}
use addrsyncd.Rule.{RuleOp, add, delete}
use addrsyncd.Daemon.Resync.{op_of, Cursor, merge_step, merge_loop}

-- The plan against the remaining target `rest`, for the target key `t` in front of it.
unfoldable pub plan_key : IpKey → (List IpKey → List RuleOp) → List IpKey → List RuleOp
plan_key t rest [] = op_of add t ∷ rest []
plan_key t rest (k ∷ ks) =
    let deleted = op_of delete k ∷ plan_key t rest ks in
    if key_lt t k then op_of add t ∷ rest (k ∷ ks) else if key_lt k t then deleted else rest ks

-- The whole plan, from two ascending lists.
unfoldable pub plan : List IpKey → List IpKey → List RuleOp
unfolding plan_key
plan [] ks = map (op_of delete) ks
plan (t ∷ ts) ks = plan_key t (plan ts) ks

module _ (target current : List IpKey) (max_ops : ℕ) where
  -- What is still to be handed out at a cursor.
  abbrev pub remaining : Cursor → List RuleOp
  remaining c = plan (drop c.target_idx target) (drop c.current_idx current)

  abbrev pub handed : Cursor → List RuleOp
  handed c = c.out ++ remaining c

  merge_step_keeps :
      (t k : IpKey) (c : Cursor)
      → get_elem? target c.target_idx ≡ some t
      → get_elem? current c.current_idx ≡ some k
      → handed (merge_step target current max_ops t k c) ≡ handed c
  unfolding merge_step plan
  merge_step_keeps t k c e f = ground (
    arith,
    drop_get_next target c.target_idx t e,
    drop_get_next current c.current_idx k f,
    append_assoc c.out (op_of add t ∷ [])
        (plan (drop (c.target_idx + 1) target) (drop c.current_idx current)),
    append_assoc c.out (op_of delete k ∷ [])
        (plan (drop c.target_idx target) (drop (c.current_idx + 1) current)),
  )

  pub merge_loop_keeps :
      (fuel : ℕ) (c : Cursor) → handed (merge_loop target current max_ops fuel c) ≡ handed c
  unfolding merge_loop
  merge_loop_keeps zero c = refl
  merge_loop_keeps (suc fuel) c = elim (Option-cases (get_elem? target c.target_idx)) [
    | inl e ↦ rw (e, merge_loop)
    | inr (t, e) ↦ elim (Option-cases (get_elem? current c.current_idx)) [
      | inl f ↦ rw (e, f, merge_loop)
      | inr (k, f) ↦ ground (
        arith,
        e,
        f,
        merge_loop_keeps fuel (merge_step target current max_ops t k c),
        merge_step_keeps t k c e f,
      )
    ]
  ]

  -- How the first loop ends: the chunk is full, or one of the lists is used up.
  abbrev pub MergeExit : Cursor → Type 0
  MergeExit c =
      (length c.out ≡ max_ops)
      ⊎ (get_elem? target c.target_idx ≡ none)
      ⊎ (get_elem? current c.current_idx ≡ none)

  length-merge_step :
      (t k : IpKey) (c : Cursor)
      → length (merge_step target current max_ops t k c).out ≤ suc (length c.out)
  unfolding merge_step
  length-merge_step t k c =
      ground
        (arith, length-append c.out (op_of add t ∷ []), length-append c.out (op_of delete k ∷ []))

  -- What is left of the lists at a cursor.
  abbrev pub left : Cursor → ℕ
  left c = (length target - c.target_idx) + (length current - c.current_idx)

  merge_step_moves :
      (t k : IpKey) (c : Cursor)
      → c.target_idx < length target
      → c.current_idx < length current
      → left (merge_step target current max_ops t k c) < left c
  unfolding merge_step
  merge_step_moves t k c h1 h2 = ground arith

  pub merge_loop_exit :
      (fuel : ℕ) (c : Cursor)
      → length c.out ≤ max_ops
      → left c ≤ fuel
      → let c' = merge_loop target current max_ops fuel c in
        (length c'.out ≤ max_ops) × MergeExit c'
  unfolding merge_loop
  merge_loop_exit zero c h hf = (h, inr (inl (get_elem?_past target c.target_idx (omega arith))))
  merge_loop_exit (suc fuel) c h hf = elim (Option-cases (get_elem? target c.target_idx)) [
    | inl e ↦ rw (e, merge_loop) (h, inr (inl e))
    | inr (t, e) ↦ elim (Option-cases (get_elem? current c.current_idx)) [
      | inl f ↦ rw (e, f, merge_loop) (h, inr (inr f))
      | inr (k, f) ↦ elim (Bool-cases (ltb (length c.out) max_ops)) [
        | inl room ↦
            rw (e, f, room, merge_loop)
              (merge_loop_exit fuel (merge_step target current max_ops t k c)
                (ground (arith, length-merge_step t k c))
                (omega (
                  arith,
                  merge_step_moves t k c (get_elem?_lt target _ t e) (get_elem?_lt current _ k f),
                )))
        | inr full ↦ rw (e, f, full, merge_loop) (h, inl (ground arith))
      ]
    ]
  ]
