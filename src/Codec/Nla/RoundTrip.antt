-- ===== src/Codec/Nla/RoundTrip.antt =====
-- What `append_nla` writes, `parse_nlas` (src/netlink/codec.rs) hands to its callback.
use addrsyncd.Base.{
  ℕ, zero, suc, ◌+◌, ◌-◌, ◌*◌, ◌/◌, ◌%◌, ◌^◌, ◌≤◌, ◌<◌, ◌≡◌, refl, sym, ap, ◌∙◌, List, [], ◌∷◌,
  ◌++◌, arith, ltb, false, Result, ok, some, length, take, drop, replicate, slice, copy_at,
  length-append, length-replicate, take-append, drop-append, drop-append_of_length,
}
use mathlib.Core.List.{append_assoc}
use native.Mathlib.Nat.{zero-add, suc-add}
use addrsyncd.Base.Bytes.{le_bytes, le_value, length-le_bytes}
use addrsyncd.Error.{NetlinkError}
use addrsyncd.Codec.Nla.{nla_align, append_nla, read_nla, after_cb, parse_nlas_loop, parse_nlas}

-- The bytes of one attribute: its length and type, the payload, and zeros up to four bytes.
abbrev pub nla : ℕ → List ℕ → List ℕ
nla typ payload =
    le_bytes 2 (4 + length payload)
    ++ (le_bytes 2 typ
        ++ (payload ++ replicate (nla_align (4 + length payload) - (4 + length payload)) 0))

-- Attributes one behind the other.
abbrev pub nlas : List (ℕ × List ℕ) → List ℕ
nlas [] = []
nlas ((typ, payload) ∷ attrs) = nla typ payload ++ nlas attrs

pub copy_at_end {ℓ} :
    {A : Type ℓ} (dst old rest new : List A) (at : ℕ)
    → at ≡ length dst
    → length old ≡ length new
    → copy_at (dst ++ (old ++ rest)) at new ≡ (dst ++ new) ++ rest
copy_at_end dst old rest new at e0 e =
    let front : take (length dst) (dst ++ (old ++ rest)) ≡ dst = take-append dst (old ++ rest) in
    let back : drop (length dst + length new) (dst ++ (old ++ rest)) ≡ rest =
      rw (← e, ← length-append dst old, ← append_assoc dst old rest)
        (drop-append (dst ++ old) rest) in
    rw (e0, front, back, append_assoc)

pub replicate-append {ℓ} :
    {A : Type ℓ} (m n : ℕ) (a : A) → replicate (m + n) a ≡ replicate m a ++ replicate n a
replicate-append zero n a = rw zero-add
replicate-append (suc m) n a = rw suc-add (ap (◌∷◌ a) (replicate-append m n a))

-- The room that `append_nla` makes, cut up as it is filled.
zeros_split :
    (n : ℕ)
    → replicate {A = ℕ} (nla_align (4 + n)) 0
      ≡ replicate 2 0
        ++ (replicate 2 0 ++ (replicate n 0 ++ replicate (nla_align (4 + n) - (4 + n)) 0))
unfolding nla_align
zeros_split n =
    let pad : ℕ = (4 + n + 4 - 1) / 4 * 4 - (4 + n) in
    let total : (4 + n + 4 - 1) / 4 * 4 ≡ 2 + (2 + (n + pad)) = omega arith in
    ap (λ k. replicate k 0) total
    ∙ replicate-append 2 (2 + (n + pad)) 0
    ∙ ap (◌++◌ (replicate 2 0))
        (replicate-append 2 (n + pad) 0 ∙ ap (◌++◌ (replicate 2 0)) (replicate-append n pad 0))

pub append_nla-nla :
    (dst : List ℕ) (typ : ℕ) (payload : List ℕ)
    → 4 + length payload < 2 ^ 16
    → append_nla dst typ payload ≡ dst ++ nla typ payload
unfolding append_nla
append_nla-nla dst typ payload h =
    let n : ℕ = length payload in
    let pad : List ℕ = replicate (nla_align (4 + n) - (4 + n)) 0 in
    let lens : List ℕ = le_bytes 2 (4 + n) in
    let types : List ℕ = le_bytes 2 typ in
    let small : (4 + n) % 2 ^ 16 ≡ 4 + n = omega arith in
    let first =
      copy_at_end dst (replicate 2 0) (replicate 2 0 ++ (replicate n 0 ++ pad)) lens (length dst)
        refl (sym (length-le_bytes 2 (4 + n))) in
    let second =
      copy_at_end (dst ++ lens) (replicate 2 0) (replicate n 0 ++ pad) types (length dst + 2)
        (omega (arith, length-append dst lens, length-le_bytes 2 (4 + n)))
        (sym (length-le_bytes 2 typ)) in
    let third =
      copy_at_end ((dst ++ lens) ++ types) (replicate n 0) pad payload (length dst + 4)
        (omega (
          arith,
          length-append dst lens,
          length-append (dst ++ lens) types,
          length-le_bytes 2 (4 + n),
          length-le_bytes 2 typ,
        ))
        (length-replicate n 0) in
    rw (small, zeros_split n, first, second, third) (simp append_assoc)

pub length-nla :
    (typ : ℕ) (payload : List ℕ) → length (nla typ payload) ≡ nla_align (4 + length payload)
unfolding nla_align
length-nla typ payload =
    rw
      (
        length-append, length-append, length-append, length-le_bytes, length-le_bytes,
        length-replicate,
      )
      (omega arith)

length-nlas : (attrs : List (ℕ × List ℕ)) → length attrs ≤ length (nlas attrs)
unfolding nla_align
length-nlas [] = omega arith
length-nlas ((typ, payload) ∷ attrs) =
    omega (
      arith,
      length-append (nla typ payload) (nlas attrs),
      length-nla typ payload,
      length-nlas attrs,
    )

read_nla_parts :
    (raw v : List ℕ) (n t : ℕ)
    → le_value (slice 0 2 raw) ≡ n
    → le_value (slice 2 4 raw) ≡ t
    → slice 4 n raw ≡ v
    → 4 ≤ n
    → n ≤ length raw
    → read_nla raw ≡ ok (some (n, t, v))
unfolding read_nla
read_nla_parts raw v n t e1 e2 e3 h1 h2 = ground arith

read_nla-nla :
    (typ : ℕ) (payload rest : List ℕ)
    → typ < 2 ^ 16
    → 4 + length payload < 2 ^ 16
    → read_nla (nla typ payload ++ rest) ≡ ok (some (4 + length payload, typ, payload))
unfolding le_bytes
read_nla-nla typ payload rest ht hp =
    let pad : List ℕ = replicate (nla_align (4 + length payload) - (4 + length payload)) 0 in
    let sub : 4 + length payload - 4 ≡ length payload = omega arith in
    read_nla_parts (nla typ payload ++ rest) payload (4 + length payload) typ
      (unfold le_value in omega arith) (unfold le_value in omega arith)
      (rw (sub, append_assoc) (take-append payload (pad ++ rest))) (omega arith)
      (omega (arith, length-append (payload ++ pad) rest, length-append payload pad))

module _ {ℓ} {S : Type ℓ} (cb : S → ℕ → List ℕ → S × Result NetlinkError (Unit {0})) where
  pub parse_nlas_loop_step :
      (fuel n t : ℕ) (raw v : List ℕ) (s : S)
      → read_nla raw ≡ ok (some (n, t, v))
      → parse_nlas_loop cb (suc fuel) raw s ≡ after_cb (parse_nlas_loop cb fuel) n raw (cb s t v)
  unfolding parse_nlas_loop
  parse_nlas_loop_step fuel n t raw v s e = rw (e, parse_nlas_loop)

  -- One round over an attribute that the callback accepts.
  pub parse_nla_step :
      (fuel typ : ℕ) (payload rest : List ℕ) (s s' : S)
      → typ < 2 ^ 16
      → 4 + length payload < 2 ^ 16
      → cb s typ payload ≡ (s', ok tt)
      → parse_nlas_loop cb (suc fuel) (nla typ payload ++ rest) s ≡ parse_nlas_loop cb fuel rest s'
  unfolding after_cb
  parse_nla_step fuel typ payload rest s s' ht hp e =
      let size = length-nla typ payload in
      let fits : ltb (length (nla typ payload ++ rest)) (nla_align (4 + length payload)) ≡ false =
        rw (length-append, size) (ground arith) in
      let left : drop (nla_align (4 + length payload)) (nla typ payload ++ rest) ≡ rest =
        drop-append_of_length (nla_align (4 + length payload)) (nla typ payload) rest size in
      rw
        (
          parse_nlas_loop_step fuel (4 + length payload) typ (nla typ payload ++ rest) payload s
              (read_nla-nla typ payload rest ht hp),
          e,
        )
        (rw fits (rw left))

  parse_nlas_end : (fuel : ℕ) (s : S) → parse_nlas_loop cb (suc fuel) [] s ≡ (s, ok tt)
  unfolding parse_nlas_loop read_nla
  parse_nlas_end fuel s = refl

  -- The fold of the callback over attributes, as long as it accepts each.
  abbrev pub Accepts : List (ℕ × List ℕ) → S → S → Type ℓ
  Accepts [] s t = s ≡ t
  Accepts ((typ, payload) ∷ attrs) s t =
      (typ < 2 ^ 16)
      × (4 + length payload < 2 ^ 16)
      × ((s' : S) × (cb s typ payload ≡ (s', ok tt)) × Accepts attrs s' t)

  parse_nlas_loop-nlas :
      (attrs : List (ℕ × List ℕ)) (fuel : ℕ) (s t : S)
      → Accepts attrs s t
      → length attrs < fuel
      → parse_nlas_loop cb fuel (nlas attrs) s ≡ (t, ok tt)
  parse_nlas_loop-nlas attrs zero s t h hf = absurd (omega arith)
  parse_nlas_loop-nlas [] (suc fuel) s t h hf = rw (← h) (parse_nlas_end fuel s)
  parse_nlas_loop-nlas ((typ, payload) ∷ attrs) (suc fuel) s t (ht, hp, (s', e, h)) hf =
      parse_nla_step fuel typ payload (nlas attrs) s s' ht hp e
      ∙ parse_nlas_loop-nlas attrs fuel s' t h (omega arith)

  -- For attributes whose types and lengths fit 16 bits and that the callback accepts one after the
  -- other, taking its state from `s` to `t`, the walk over them, written one behind the other, calls
  -- back with each in order and with the payload that was written, ends in `t`, and gives no error.
  pub parse_nlas-nlas :
      (attrs : List (ℕ × List ℕ)) (s t : S)
      → Accepts attrs s t
      → parse_nlas cb (nlas attrs) s ≡ (t, ok tt)
  unfolding parse_nlas
  parse_nlas-nlas attrs s t h =
      parse_nlas_loop-nlas attrs (suc (length (nlas attrs))) s t h
        (omega (arith, length-nlas attrs))
