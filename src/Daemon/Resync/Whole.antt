-- ===== src/Daemon/Resync/Whole.antt =====
-- A resync as a whole: the chunks that `fill_resync_chunk` (src/daemon/service/resync_cleanup.rs) gives
-- one after the other make up one plan.
use addrsyncd.Base.{
  ℕ, zero, suc, ◌+◌, ◌≤◌, ◌≡◌, refl, ap, ◌∙◌, List, [], ◌∷◌, ◌++◌, arith, length, take, drop,
  take_all,
}
use native.Mathlib.Nat.{suc-add}
use native.Mathlib.Numerals.{unary_clauses}
use addrsyncd.IpKey.{IpKey}
use addrsyncd.Rule.{RuleOp}
use addrsyncd.Daemon.Resync.{Cursor, fill_resync_chunk}
use addrsyncd.Daemon.Resync.Diff.{plan, remaining}
use addrsyncd.Daemon.Resync.Chunks.{fill_resync_chunk-plan}

abbrev pub total_size : List ℕ → ℕ
total_size [] = 0
total_size (n ∷ ns) = n + total_size ns

take_add {ℓ} :
    {A : Type ℓ} (n m : ℕ) (xs : List A) → take (n + m) xs ≡ take n xs ++ take m (drop n xs)
take_add zero m xs = ap (λ k. take k xs) (omega arith)
take_add (suc n) zero [] = simp unary_clauses
take_add (suc n) (suc m) [] = simp unary_clauses
take_add (suc n) m (x ∷ xs) = ap (λ k. take k (x ∷ xs)) (suc-add n m) ∙ ap (◌∷◌ x) (take_add n m xs)

module _ (target current : List IpKey) where
  -- The chunks of the given sizes, each built in an empty vector, one behind the other.
  unfoldable pub chunks : List ℕ → Cursor → List RuleOp
  unfolding fill_resync_chunk
  chunks [] c = []
  chunks (n ∷ ns) c =
      let c' = fill_resync_chunk target current n (record c { out = [] }) in c'.out ++ chunks ns c'

  chunks-take :
      (sizes : List ℕ) (c : Cursor)
      → chunks sizes c ≡ take (total_size sizes) (remaining target current 0 c)
  unfolding chunks
  chunks-take [] c = refl
  chunks-take (n ∷ ns) c =
      let c' = fill_resync_chunk target current n (record c { out = [] }) in
      let (now, later) =
        fill_resync_chunk-plan target current n (record c { out = [] }) (omega arith) in
      rw (now, chunks-take ns c', later, take_add n (total_size ns) (remaining target current 0 c))
        refl

  -- From the start, chunks of any sizes that together have room for the plan between two lists make up
  -- exactly that plan, in its order.
  pub chunks-plan :
      (sizes : List ℕ)
      → length (plan target current) ≤ total_size sizes
      → chunks sizes (record { target_idx = 0; current_idx = 0; out = [] }) ≡ plan target current
  chunks-plan sizes h =
      chunks-take sizes (record { target_idx = 0; current_idx = 0; out = [] })
      ∙ take_all (total_size sizes) (plan target current) h
