-- ===== src/Codec/Nla/Ends.antt =====
-- The walk over attributes (src/netlink/codec.rs) ends on any octets.
use addrsyncd.Base.{
  ℕ, zero, suc, ◌≤◌, ◌<◌, ◌≡◌, ◌≢◌, ap, ◌∙◌, List, arith, ltb, Bool-cases, none, some, Result,
  Result-cases, ok, err, inl, inr, length, drop, length-drop,
}
use addrsyncd.Error.{NetlinkError, out_of_fuel}
use addrsyncd.Codec.Nla.{nla_align, read_nla, after_cb, parse_nlas_loop, parse_nlas}

-- An attribute that is read has its header, and fits.
read_nla_fits :
    (raw v : List ℕ) (n t : ℕ) → read_nla raw ≡ ok (some (n, t, v)) → (4 ≤ n) × (n ≤ length raw)
unfolding read_nla
read_nla_fits raw v n t e = ground arith

read_nla-ne-out_of_fuel : (raw : List ℕ) → read_nla raw ≢ err out_of_fuel
unfolding read_nla
read_nla-ne-out_of_fuel raw e = ground arith

module _ {ℓ} {S : Type ℓ} (cb : S → ℕ → List ℕ → S × Result NetlinkError (Unit {0})) where
  after_cb_ends :
      (walk : List ℕ → S → S × Result NetlinkError (Unit {0})) (n : ℕ) (raw : List ℕ)
      (r : S × Result NetlinkError (Unit {0}))
      → r.1 ≢ err out_of_fuel
      → (nla_align n ≤ length raw → (s : S) → (walk (drop (nla_align n) raw) s).1 ≢ err out_of_fuel)
      → (after_cb walk n raw r).1 ≢ err out_of_fuel
  unfolding after_cb
  after_cb_ends walk n raw (s, err e) hr hw = hr
  after_cb_ends walk n raw (s, ok _) hr hw = elim (Bool-cases (ltb (length raw) (nla_align n))) [
    | inl short ↦ rw short (λ e. cc)
    | inr fits ↦ rw fits (hw (ground arith) s)
  ]

  parse_nlas_loop_ends :
      (fuel : ℕ) (raw : List ℕ) (s : S)
      → ((s : S) (typ : ℕ) (value : List ℕ) → (cb s typ value).1 ≢ err out_of_fuel)
      → length raw < fuel
      → (parse_nlas_loop cb fuel raw s).1 ≢ err out_of_fuel
  unfolding parse_nlas_loop
  parse_nlas_loop_ends zero raw s h hf = absurd (omega arith)
  parse_nlas_loop_ends (suc fuel) raw s h hf = elim (Result-cases (read_nla raw)) [
    | inr (x, e) ↦
        rw (e, parse_nlas_loop)
          (λ f. let same : x ≡ out_of_fuel = cc in read_nla-ne-out_of_fuel raw (e ∙ ap err same))
    | inl (none, e) ↦ rw (e, parse_nlas_loop) (λ f. cc)
    | inl (some (n, t, v), e) ↦
        let (long, inside) = read_nla_fits raw v n t e in
        let less = length-drop (nla_align n) raw in
        rw (e, parse_nlas_loop)
          (after_cb_ends (parse_nlas_loop cb fuel) n raw (cb s t v) (h s t v) (λ fits s'.
            parse_nlas_loop_ends fuel (drop (nla_align n) raw) s' h
              (unfold nla_align in omega arith)))
  ]

  -- Whatever the octets, the walk ends: if the callback does not answer with the mark of used-up fuel,
  -- neither does the walk.
  pub parse_nlas-ne-out_of_fuel :
      (raw : List ℕ) (s : S)
      → ((s : S) (typ : ℕ) (value : List ℕ) → (cb s typ value).1 ≢ err out_of_fuel)
      → (parse_nlas cb raw s).1 ≢ err out_of_fuel
  unfolding parse_nlas
  parse_nlas-ne-out_of_fuel raw s h = parse_nlas_loop_ends (suc (length raw)) raw s h (omega arith)
