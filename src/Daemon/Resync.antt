-- ===== src/Daemon/Resync.antt =====
-- The chunks of a resync and of a tracked cleanup, src/daemon/service/resync_cleanup.rs.
pub mod Diff
pub mod Chunks
pub mod Effect
pub mod Whole
use addrsyncd.Base.{
  ℕ, zero, suc, ◌+◌, min, Bool, true, false, List, [], ◌∷◌, ◌++◌, leb, ltb, ◌==◌, ◌||◌,
  if◌then◌else◌, Option, none, some, length, get_elem?, map, slice,
}
use addrsyncd.IpKey.{IpKey, key_lt, into_ip}
use addrsyncd.Rule.{RuleOp, RuleAction, add, delete}

unfoldable pub op_of : RuleAction → IpKey → RuleOp
unfolding into_ip
op_of action key = record { addr = into_ip key; action = action }

-- The variables of `fill_resync_chunk`.
pub record Cursor : Type 0 where
  pub target_idx : ℕ
  pub current_idx : ℕ
  pub out : List RuleOp

module _ (target current : List IpKey) (max_ops : ℕ) where
  -- The body of the first loop.
  pub merge_step : IpKey → IpKey → Cursor → Cursor
  unfolding op_of
  merge_step target_key current_key c =
      if key_lt target_key current_key
      then record c { target_idx = c.target_idx + 1; out = c.out ++ (op_of add target_key ∷ []) }
      else if key_lt current_key target_key
      then record c {
        current_idx = c.current_idx + 1;
        out = c.out ++ (op_of delete current_key ∷ []);
      }
      else record c { target_idx = c.target_idx + 1; current_idx = c.current_idx + 1 }

  -- An index below the length is one at which there is a key. Each round moves an index, so as many
  -- rounds as there are keys are enough.
  pub merge_loop : ℕ → Cursor → Cursor
  unfolding merge_step
  merge_loop zero c = c
  merge_loop (suc fuel) c = elim (get_elem? target c.target_idx) [
    | none ↦ c
    | some t ↦ elim (get_elem? current c.current_idx) [
      | none ↦ c
      | some k ↦
          let rest = merge_loop fuel (merge_step t k c) in
          if ltb (length c.out) max_ops then rest else c
    ]
  ]

  pub adds_loop : ℕ → Cursor → Cursor
  unfolding op_of
  adds_loop zero c = c
  adds_loop (suc fuel) c = elim (get_elem? target c.target_idx) [
    | none ↦ c
    | some t ↦
        let pushed : Cursor = record c {
          target_idx = c.target_idx + 1;
          out = c.out ++ (op_of add t ∷ []);
        } in
        let rest = adds_loop fuel pushed in if ltb (length c.out) max_ops then rest else c
  ]

  pub deletes_loop : ℕ → Cursor → Cursor
  unfolding op_of
  deletes_loop zero c = c
  deletes_loop (suc fuel) c = elim (get_elem? current c.current_idx) [
    | none ↦ c
    | some k ↦
        let pushed : Cursor = record c {
          current_idx = c.current_idx + 1;
          out = c.out ++ (op_of delete k ∷ []);
        } in
        let rest = deletes_loop fuel pushed in if ltb (length c.out) max_ops then rest else c
  ]

  unfoldable pub fill_resync_chunk : Cursor → Cursor
  unfolding merge_loop adds_loop deletes_loop
  fill_resync_chunk c =
      let merged = merge_loop (length target + length current) c in
      let added = adds_loop (length target) merged in
      let deleted = deletes_loop (length current) added in if max_ops == 0 then c else deleted

-- The new offset and chunk.
unfoldable pub fill_tracked_cleanup_chunk : List IpKey → ℕ → ℕ → List RuleOp → ℕ × List RuleOp
unfolding op_of
fill_tracked_cleanup_chunk tracked offset max_ops out =
    let end = min (offset + max_ops) (length tracked) in
    if (max_ops == 0) || leb (length tracked) offset
    then (offset, out)
    else (end, out ++ map (op_of delete) (slice offset end tracked))
