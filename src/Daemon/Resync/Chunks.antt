-- ===== src/Daemon/Resync/Chunks.antt =====
-- `fill_resync_chunk` (src/daemon/service/resync_cleanup.rs) cuts the plan at the chunk's size.
use addrsyncd.Base.{
  ℕ, zero, suc, ◌+◌, ◌-◌, ◌≤◌, ◌≡◌, refl, sym, ap, ◌∙◌, ◌⊎◌, inl, inr, List, [], ◌∷◌, ◌++◌, ltb,
  ◌==◌, arith, none, some, length, get_elem?, take, drop, length-append, Bool-cases, Option-cases,
  get_elem?_past, drop_get_next, drop_past, take_all, drop_all, take-append_of_length,
  drop-append_of_length,
}
use mathlib.Core.List.{append_assoc, append-nil}
use addrsyncd.IpKey.{IpKey}
use addrsyncd.Rule.{RuleOp, add, delete}
use addrsyncd.Daemon.Resync.{op_of, Cursor, merge_loop, adds_loop, deletes_loop, fill_resync_chunk}
use addrsyncd.Daemon.Resync.Diff.{
  plan, handed, remaining, merge_loop_keeps, merge_loop_exit, MergeExit,
}

module _ (target current : List IpKey) (max_ops : ℕ) where
  -- What the loops after the first keep, from a cursor and to one.
  abbrev Carries : Cursor → Cursor → Type 0
  Carries c c' =
      (handed target current max_ops c' ≡ handed target current max_ops c)
      × (length c'.out ≤ max_ops)

  push_add :
      (t : IpKey) (c : Cursor)
      → get_elem? target c.target_idx ≡ some t
      → get_elem? current c.current_idx ≡ none
      → handed target current max_ops
          (record c { target_idx = c.target_idx + 1; out = c.out ++ (op_of add t ∷ []) })
        ≡ handed target current max_ops c
  unfolding plan
  push_add t c e f = ground (
    arith,
    drop_get_next target c.target_idx t e,
    drop_past current c.current_idx f,
    append_assoc c.out (op_of add t ∷ []) (plan (drop (c.target_idx + 1) target) []),
  )

  push_delete :
      (k : IpKey) (c : Cursor)
      → get_elem? current c.current_idx ≡ some k
      → get_elem? target c.target_idx ≡ none
      → handed target current max_ops
          (record c { current_idx = c.current_idx + 1; out = c.out ++ (op_of delete k ∷ []) })
        ≡ handed target current max_ops c
  unfolding plan
  push_delete k c e f = ground (
    arith,
    drop_get_next current c.current_idx k e,
    drop_past target c.target_idx f,
    append_assoc c.out (op_of delete k ∷ []) (plan [] (drop (c.current_idx + 1) current)),
  )

  adds_loop_lem :
      (fuel : ℕ) (c : Cursor)
      → length c.out ≤ max_ops
      → MergeExit target current max_ops c
      → length target - c.target_idx ≤ fuel
      → let c' = adds_loop target current max_ops fuel c in
        Carries c c' × ((length c'.out ≡ max_ops) ⊎ (get_elem? target c'.target_idx ≡ none))
  unfolding adds_loop
  adds_loop_lem zero c h x hf = ((refl, h), inr (get_elem?_past target c.target_idx (omega arith)))
  adds_loop_lem (suc fuel) c h x hf = elim (Option-cases (get_elem? target c.target_idx)) [
    | inl e ↦ rw (e, adds_loop) ((refl, h), inr e)
    | inr (t, e) ↦ elim (Bool-cases (ltb (length c.out) max_ops)) [
      | inr full ↦ rw (e, full, adds_loop) ((refl, h), inl (ground arith))
      | inl room ↦
          let none_left : get_elem? current c.current_idx ≡ none = ground arith in
          let ((kept, bound), done) =
            adds_loop_lem fuel
              (record c { target_idx = c.target_idx + 1; out = c.out ++ (op_of add t ∷ []) })
              (ground (arith, length-append c.out (op_of add t ∷ []))) (inr (inr none_left))
              (omega arith) in
          rw (e, room, adds_loop) ((kept ∙ push_add t c e none_left, bound), done)
    ]
  ]

  deletes_loop_lem :
      (fuel : ℕ) (c : Cursor)
      → length c.out ≤ max_ops
      → (length c.out ≡ max_ops) ⊎ (get_elem? target c.target_idx ≡ none)
      → length current - c.current_idx ≤ fuel
      → let c' = deletes_loop target current max_ops fuel c in
        Carries c c'
        × ((length c'.out ≡ max_ops)
            ⊎ ((get_elem? target c'.target_idx ≡ none) × (get_elem? current c'.current_idx ≡ none)))
  unfolding deletes_loop
  deletes_loop_lem zero c h x hf =
      let e = get_elem?_past current c.current_idx (omega arith) in ground arith
  deletes_loop_lem (suc fuel) c h x hf = elim (Option-cases (get_elem? current c.current_idx)) [
    | inl e ↦ rw (e, deletes_loop) (ground arith)
    | inr (k, e) ↦ elim (Bool-cases (ltb (length c.out) max_ops)) [
      | inr full ↦ rw (e, full, deletes_loop) ((refl, h), inl (ground arith))
      | inl room ↦
          let none_left : get_elem? target c.target_idx ≡ none = ground arith in
          let ((kept, bound), done) =
            deletes_loop_lem fuel
              (record c { current_idx = c.current_idx + 1; out = c.out ++ (op_of delete k ∷ []) })
              (ground (arith, length-append c.out (op_of delete k ∷ []))) (inr none_left)
              (omega arith) in
          rw (e, room, deletes_loop) ((kept ∙ push_delete k c e none_left, bound), done)
    ]
  ]

  remaining-none :
      (c : Cursor)
      → get_elem? target c.target_idx ≡ none
      → get_elem? current c.current_idx ≡ none
      → remaining target current max_ops c ≡ []
  unfolding plan
  remaining-none c e f = rw (drop_past target c.target_idx e, drop_past current c.current_idx f)

  cut :
      (whole : List RuleOp) (c : Cursor)
      → handed target current max_ops c ≡ whole
      → length c.out ≤ max_ops
      → (length c.out ≡ max_ops)
        ⊎ ((get_elem? target c.target_idx ≡ none) × (get_elem? current c.current_idx ≡ none))
      → (c.out ≡ take max_ops whole) × (remaining target current max_ops c ≡ drop max_ops whole)
  cut whole c e h (inl full) = rw (← e) (
    sym (take-append_of_length max_ops c.out (remaining target current max_ops c) full),
    sym (drop-append_of_length max_ops c.out (remaining target current max_ops c) full),
  )
  cut whole c e h (inr (p, q)) =
      let empty = remaining-none c p q in
      let all : c.out ≡ whole = sym (append-nil c.out) ∙ ap (◌++◌ c.out) (sym empty) ∙ e in
      rw (← all) (sym (take_all max_ops c.out h), empty ∙ sym (drop_all max_ops c.out h))

  -- When `out` holds no more than `max_ops` operations, a call fills it up from the plan that is left
  -- at the cursor: it then holds the first `max_ops` operations of what it held and that plan, or
  -- all of them where there are fewer, and the rest of the plan is what is left at the new cursor.
  pub fill_resync_chunk-plan :
      (c : Cursor)
      → length c.out ≤ max_ops
      → let c' = fill_resync_chunk target current max_ops c in
        (c'.out ≡ take max_ops (handed target current max_ops c))
        × (remaining target current max_ops c' ≡ drop max_ops (handed target current max_ops c))
  unfolding fill_resync_chunk
  fill_resync_chunk-plan c h =
      let fuel = length target + length current in
      let merged = merge_loop target current max_ops fuel c in
      let (b1, x1) = merge_loop_exit target current max_ops fuel c h (omega arith) in
      let ((k2, b2), x2) = adds_loop_lem (length target) merged b1 x1 (omega arith) in
      let added = adds_loop target current max_ops (length target) merged in
      let ((k3, b3), x3) = deletes_loop_lem (length current) added b2 x2 (omega arith) in
      let kept = k3 ∙ k2 ∙ merge_loop_keeps target current max_ops fuel c in
      let whole = handed target current max_ops c in
      elim (Bool-cases (max_ops == 0)) [
        | inl none_asked ↦ rw none_asked (cut whole c refl h (inl (ground arith)))
        | inr some_asked ↦
            rw some_asked
              (cut whole (deletes_loop target current max_ops (length current) added) kept b3 x3)
      ]
